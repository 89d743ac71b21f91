-- ===== src/Guid/Checksum.antt =====
-- `guid_crc_compute` feeds the CRC the 16 bytes that `guid_write` stores.
use native.Mathlib.Nat.{mod-eq_of_lt}
use partman.Base.{ℕ, ◌+◌, ◌^◌, ◌<◌, List, [], ◌∷◌, ◌≡◌, arith, length}
use partman.MemUtils.Region.{le_bytes, field_bytes}
use partman.Crc32.{crc32_compute8}
use partman.Crc32.Laws.{Feeds, Feeds-8, Feeds-16, Feeds-32, Feeds-then}
use partman.Guid.{Guid, IsGuid, AllBytes, node_cnt, guid_crc_compute, crc_nodes}
use partman.Guid.Disk.{guid_fields, node_fields}

pub Feeds-byte : (v : ℕ) → v < 2 ^ 8 → Feeds (crc32_compute8 v) (le_bytes 1 v)
unfolding le_bytes
Feeds-byte v h = rw (mod-eq_of_lt h) (Feeds-8 v)

Feeds-nodes :
    (o : ℕ) (xs : List ℕ) (x : ℕ)
    → AllBytes (x ∷ xs)
    → Feeds (crc_nodes (x ∷ xs)) (field_bytes (node_fields o (x ∷ xs)))
unfolding crc_nodes le_bytes
Feeds-nodes o [] x h = Feeds-byte x h.0
Feeds-nodes o (y ∷ xs) x h =
    Feeds-then (crc32_compute8 x) (crc_nodes (y ∷ xs)) (le_bytes 1 x) _ (Feeds-byte x h.0)
      (Feeds-nodes (o + 1) xs y h.1)

Feeds-all_nodes :
    (o : ℕ) (xs : List ℕ)
    → length xs ≡ node_cnt
    → AllBytes xs
    → Feeds (crc_nodes xs) (field_bytes (node_fields o xs))
Feeds-all_nodes o [] e h = absurd (omega arith)
Feeds-all_nodes o (x ∷ xs) e h = Feeds-nodes o xs x h

-- The checksum of a GUID is that of its bytes on the disk.
pub Feeds-guid :
    (o : ℕ) (g : Guid) → IsGuid g → Feeds (guid_crc_compute g) (field_bytes (guid_fields o g))
unfolding guid_crc_compute
Feeds-guid o g v = Feeds-then _ _ (le_bytes 4 g.time_lo) _ (Feeds-32 g.time_lo) (
    Feeds-then _ _ (le_bytes 2 g.time_mid) _ (Feeds-16 g.time_mid) (
      Feeds-then _ _ (le_bytes 2 g.time_hi_ver) _ (Feeds-16 g.time_hi_ver) (
        Feeds-then _ _ (le_bytes 1 g.cl_seq_hi_res) _ (Feeds-byte g.cl_seq_hi_res v.cl_seq_hi_res) (
          Feeds-then (crc32_compute8 g.cl_seq_lo) (crc_nodes g.nodes) (le_bytes 1 g.cl_seq_lo) _
            (Feeds-byte g.cl_seq_lo v.cl_seq_lo)
            (Feeds-all_nodes (o + 10) g.nodes v.node_count v.node_bytes)))))
