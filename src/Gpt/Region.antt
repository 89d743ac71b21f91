-- ===== src/Gpt/Region.antt =====
-- libs/libpartman/src/gpt.c, lines 114 to 184: the mapping of sectors, which the system does in
-- whole pages. `long` values are taken in 64 bits; an offset past 2 ^ 63 is outside the model.
use partman.Base.{
  ℕ, ◌+◌, ◌*◌, ◌/◌, ◌%◌, ◌^◌, ◌≤◌, ◌<◌, ◌≡◌, ◌⊎◌, inl, inr, refl, ◌∙◌, ap, sym, arith, Bool, true,
  false, not, ◌&&◌, ◌==◌, u64, sub64, Option, none, some, if◌then◌else◌,
}
use native.Mathlib.Nat.{div-add-mod', mod-lt, mod-eq_of_lt, mul-le-mul_left, mul-mod_left, add-mul}
use partman.ImgCtx.{ImgCtx, lba_to_byte}
use partman.World.{World, call}

unfoldable pub byte_to_page : ℕ → ℕ → Bool → ℕ
byte_to_page pg_sz bytes round_up =
    u64 (bytes / pg_sz + (if round_up && not (bytes % pg_sz == 0) then 1 else 0))

unfoldable pub page_to_byte : ℕ → ℕ → ℕ
page_to_byte pg_sz pages = u64 (pages * pg_sz)

-- A mapped region: where it starts in the file and its length, and the address that is returned, as
-- an offset in the file.
pub record Mapping : Type 0 where
  pub offset : ℕ
  pub len : ℕ
  pub reg : ℕ

unfoldable pub sec_mapping : ℕ → ImgCtx → ℕ → ℕ → Mapping
sec_mapping pg_sz ctx off_lba secs_cnt =
    let off_bytes = lba_to_byte ctx off_lba in
    let off_pages = byte_to_page pg_sz off_bytes false in
    let align_off = sub64 off_bytes (page_to_byte pg_sz off_pages) in
    let len_pages = byte_to_page pg_sz (u64 (lba_to_byte ctx secs_cnt + align_off)) true in
    record {
      offset = page_to_byte pg_sz off_pages;
      len = page_to_byte pg_sz len_pages;
      reg = u64 (page_to_byte pg_sz off_pages + align_off);
    }

unfoldable pub map_secs : ImgCtx → ℕ → ℕ → World → Option ℕ × World
map_secs ctx off_lba secs_cnt w =
    let (mapped, w) = call w in
    ((if mapped then some (sec_mapping w.page_sz ctx off_lba secs_cnt).reg else none), w)

-- the arguments that `unmap_secs` gives `munmap`
unfoldable pub unmap_range : ℕ → ℕ → ImgCtx → ℕ → ℕ → ℕ × ℕ
unmap_range pg_sz reg ctx off_lba secs_cnt =
    let off_bytes = lba_to_byte ctx off_lba in
    let off_pages = byte_to_page pg_sz off_bytes false in
    let align_off = sub64 off_bytes (page_to_byte pg_sz off_pages) in
    let len_pages = byte_to_page pg_sz (u64 (lba_to_byte ctx secs_cnt + align_off)) true in
    (sub64 reg align_off, len_pages)

-- What the system unmaps has no effect on the file, and it does not unmap what is still used.
unfoldable pub unmap_secs : ℕ → ImgCtx → ℕ → ℕ → World → Bool × World
unmap_secs reg ctx off_lba secs_cnt w = call w

module _ (pg : ℕ) (pos : 1 ≤ pg) where
  whole : (x : ℕ) → (x / pg * pg + x % pg ≡ x) × (x % pg < pg) × (x / pg ≤ x / pg * pg)
  whole x = (div-add-mod' x pg, mod-lt x pos, omega (arith, mul-le-mul_left (x / pg) pos))

  page_down : (x : ℕ) → x < 2 ^ 64 → page_to_byte pg (byte_to_page pg x false) ≡ x / pg * pg
  unfolding byte_to_page page_to_byte
  page_down x h = rw small (mod-eq_of_lt (omega (arith, whole x)))
    where
      small : (x / pg + 0) % 2 ^ 64 ≡ x / pg
      small = omega (arith, whole x)

  pages_up :
      (x b : ℕ)
      → x + pg < 2 ^ 64
      → (b ≡ 1) ⊎ ((x % pg ≡ 0) × (b ≡ 0))
      → let n = u64 (x / pg + b) in (n ≡ x / pg + b) × (page_to_byte pg n ≡ n * pg) × (x ≤ n * pg)
  unfolding page_to_byte
  pages_up x b h (inl e) =
      rw (e, fits)
        (refl, mod-eq_of_lt (omega (arith, whole x, grows)), omega (arith, whole x, grows))
    where
      grows : (x / pg + 1) * pg ≡ x / pg * pg + pg
      grows = omega arith

      fits : u64 (x / pg + 1) ≡ x / pg + 1
      fits = omega (arith, whole x)
  pages_up x b h (inr (z, e)) =
      rw (e, fits) (omega arith, mod-eq_of_lt (omega (arith, whole x)), omega (arith, whole x))
    where
      fits : u64 (x / pg + 0) ≡ x / pg
      fits = omega (arith, whole x)

  page_up :
      (x : ℕ)
      → x + pg < 2 ^ 64
      → let n = byte_to_page pg x true in (page_to_byte pg n ≡ n * pg) × (x ≤ n * pg)
  unfolding byte_to_page
  page_up x h =
      let all = pages_up x (if true && not (x % pg == 0) then 1 else 0) h (ground arith) in
      (all.1, all.2)

module _ (pg_sz : ℕ) (ctx : ImgCtx) (off_lba secs_cnt : ℕ) (pos : 1 ≤ pg_sz)
    (fits : (off_lba + secs_cnt) * ctx.sec_sz + 2 * pg_sz < 2 ^ 64) where
  abbrev start : ℕ
  start = off_lba * ctx.sec_sz

  abbrev wanted : ℕ
  wanted = secs_cnt * ctx.sec_sz

  both : (off_lba + secs_cnt) * ctx.sec_sz ≡ start + wanted
  both = add-mul off_lba secs_cnt ctx.sec_sz

  offset-eq :
      page_to_byte pg_sz (byte_to_page pg_sz (lba_to_byte ctx off_lba) false)
      ≡ start / pg_sz * pg_sz
  unfolding lba_to_byte
  offset-eq =
      ap (λ t. page_to_byte pg_sz (byte_to_page pg_sz t false)) (mod-eq_of_lt (omega (arith, both)))
      ∙ page_down pg_sz pos start (omega (arith, both))

  align-eq : sub64 (lba_to_byte ctx off_lba) (start / pg_sz * pg_sz) ≡ start % pg_sz
  unfolding lba_to_byte
  align-eq = omega (arith, both, whole pg_sz pos start)

  len-eq : u64 (lba_to_byte ctx secs_cnt + start % pg_sz) ≡ wanted + start % pg_sz
  unfolding lba_to_byte
  len-eq = omega (arith, both, whole pg_sz pos start)

  len_up :
      let n = byte_to_page pg_sz (wanted + start % pg_sz) true in
      (page_to_byte pg_sz n ≡ n * pg_sz) × (wanted + start % pg_sz ≤ n * pg_sz)
  len_up = page_up pg_sz pos (wanted + start % pg_sz) (omega (arith, both, whole pg_sz pos start))

-- The sectors stand in the mapping, which starts at a whole page: for an offset and a length whose
-- sum, with a page more, is below 2 ^ 64, the returned address is that of the first sector, and
-- the bytes of the `secs_cnt` sectors are inside the mapped ones.
pub sec_mapping_lem :
    (pg_sz : ℕ) (ctx : ImgCtx) (off_lba secs_cnt : ℕ)
    → 1 ≤ pg_sz
    → (off_lba + secs_cnt) * ctx.sec_sz + 2 * pg_sz < 2 ^ 64
    → let r : Mapping = sec_mapping pg_sz ctx off_lba secs_cnt in
      (r.reg ≡ off_lba * ctx.sec_sz)
      × (r.offset % pg_sz ≡ 0)
      × (r.offset ≤ r.reg)
      × (r.reg + secs_cnt * ctx.sec_sz ≤ r.offset + r.len)
unfolding sec_mapping
sec_mapping_lem pg_sz ctx off_lba secs_cnt h1 h2 =
    rw
      (
        offset-eq pg_sz ctx off_lba secs_cnt h1 h2,
        align-eq pg_sz ctx off_lba secs_cnt h1 h2,
        len-eq pg_sz ctx off_lba secs_cnt h1 h2,
      )
      (
        omega (arith, both pg_sz ctx off_lba secs_cnt h1 h2, whole pg_sz h1 start),
        mul-mod_left (start / pg_sz) pg_sz,
        omega (
          arith,
          both pg_sz ctx off_lba secs_cnt h1 h2,
          whole pg_sz h1 start,
          len_up pg_sz ctx off_lba secs_cnt h1 h2,
        ),
        omega (
          arith,
          both pg_sz ctx off_lba secs_cnt h1 h2,
          whole pg_sz h1 start,
          len_up pg_sz ctx off_lba secs_cnt h1 h2,
        ),
      )
  where
    start : ℕ
    start = off_lba * ctx.sec_sz

-- The call of `munmap` starts where the mapping does, but its length is the number of pages where
-- `munmap` takes bytes.
pub unmap_range_lem :
    (pg_sz : ℕ) (ctx : ImgCtx) (off_lba secs_cnt : ℕ)
    → 1 ≤ pg_sz
    → (off_lba + secs_cnt) * ctx.sec_sz + 2 * pg_sz < 2 ^ 64
    → let r : Mapping = sec_mapping pg_sz ctx off_lba secs_cnt in
      let range = unmap_range pg_sz r.reg ctx off_lba secs_cnt in
      (range.0 ≡ r.offset) × (range.1 * pg_sz ≡ r.len)
unfolding sec_mapping unmap_range
unmap_range_lem pg_sz ctx off_lba secs_cnt h1 h2 =
    rw
      (
        offset-eq pg_sz ctx off_lba secs_cnt h1 h2,
        align-eq pg_sz ctx off_lba secs_cnt h1 h2,
        len-eq pg_sz ctx off_lba secs_cnt h1 h2,
      )
      (
        omega (arith, both pg_sz ctx off_lba secs_cnt h1 h2, whole pg_sz h1 (off_lba * ctx.sec_sz)),
        sym (len_up pg_sz ctx off_lba secs_cnt h1 h2).0,
      )
