-- ===== src/Gpt/Bounds.antt =====
-- The checksums of a GPT with fields in range fit 32 bits.
use partman.Base.{ℕ, ◌^◌, ◌<◌, List, [], ◌∷◌, ◌++◌, refl, inl, take, zero, suc, arith, ◌+◌}
use partman.MemUtils.{Memory, IsBytes}
use partman.MemUtils.Layout.{Field}
use partman.MemUtils.Region.{region, field_bytes, le_bytes}
use partman.Crc32.Bounds.{
  checksum-lt, le_bytes-AllBytes, Keeps, Feeds-Keeps, Keeps-16, Keeps-64, crc32_finalize-lt,
}
use partman.Guid.{Guid, IsGuid, AllBytes, guid_crc_compute}
use partman.Guid.Checksum.{Feeds-guid}
use partman.Guid.Disk.{guid_fields}
use partman.Gpt.{
  GptHdr, GptPartEnt, crc_name, gpt_part_ent_crc_compute, crc_start, crc_entries,
  gpt_table_crc_create, gpt_hdr_crc_create,
}
use partman.Gpt.Header.{IsGptHdr, gpt_hdr_read-gpt_hdr_write}
use partman.Gpt.Checksum.{unsigned, gpt_hdr_crc_create_lem}
use partman.Gpt.Entry.{IsGptPartEnt}
use partman.Gpt.Table.{AreEntries}

append-AllBytes : (xs ys : List ℕ) → AllBytes xs → AllBytes ys → AllBytes (xs ++ ys)
append-AllBytes [] ys a b = b
append-AllBytes (x ∷ xs) ys a b = (a.0, append-AllBytes xs ys (a.1) b)

field_bytes-AllBytes : (fs : List Field) → AllBytes (field_bytes fs)
field_bytes-AllBytes [] = tt
field_bytes-AllBytes (f ∷ fs) =
    append-AllBytes (le_bytes f.width f.value) _ (le_bytes-AllBytes f.width f.value)
      (field_bytes-AllBytes fs)

region-AllBytes : (n p : ℕ) (m : Memory) → IsBytes m → AllBytes (region n p m)
unfolding region
region-AllBytes zero p m b = tt
region-AllBytes (suc n) p m b = (b p, region-AllBytes n (p + 1) m b)

Keeps-guid : (g : Guid) → IsGuid g → Keeps (guid_crc_compute g)
Keeps-guid g v =
    Feeds-Keeps (guid_crc_compute g) (field_bytes (guid_fields 0 g)) (Feeds-guid 0 g v)
      (field_bytes-AllBytes (guid_fields 0 g))

Keeps-name : (xs : List ℕ) → Keeps (crc_name xs)
unfolding crc_name
Keeps-name [] c g = g
Keeps-name (x ∷ xs) c g = Keeps-name xs _ (Keeps-16 x c g)

Keeps-entry : (e : GptPartEnt) → IsGptPartEnt e → Keeps (gpt_part_ent_crc_compute e)
unfolding gpt_part_ent_crc_compute
Keeps-entry e v c g = Keeps-name e.name _ (
    Keeps-64 e.attr _ (
      Keeps-64 e.end_lba _ (
        Keeps-64 e.start_lba _
          (Keeps-guid e.unique_guid v.unique_guid _ (Keeps-guid e.type_guid v.type_guid c g)))))

Keeps-entries :
    (n : ℕ) (table : List GptPartEnt) → AreEntries table → Keeps (crc_entries (take n table))
unfolding crc_entries
Keeps-entries zero table all c g = g
Keeps-entries (suc n) [] all c g = g
Keeps-entries (suc n) (e ∷ table) all c g =
    Keeps-entries n table (λ k. all (suc k)) _ (Keeps-entry e (all 0) c g)

pub gpt_table_crc_create-lt :
    (table : List GptPartEnt) (n : ℕ) → AreEntries table → gpt_table_crc_create table n < 2 ^ 32
unfolding gpt_table_crc_create
gpt_table_crc_create-lt table n all =
    crc32_finalize-lt _ (Keeps-entries n table all crc_start (inl refl, omega arith)).1

-- Without the checksum in the header, which it does not depend on.
pub gpt_hdr_crc_create-lt : (h : GptHdr) → IsGptHdr (unsigned h) → gpt_hdr_crc_create h < 2 ^ 32
gpt_hdr_crc_create-lt h v = rw (gpt_hdr_crc_create_lem 0 h (λ q. 0) v.disk_guid) (
    checksum-lt _ (
      region-AllBytes 92 0 _
        (gpt_hdr_read-gpt_hdr_write 0 (unsigned h) (λ q. 0) (λ q. omega arith) v).2))
