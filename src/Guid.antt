-- ===== src/Guid.antt =====
-- libs/libpartman/src/guid.c; the text form is in Text.
-- `nodes` is the array of six bytes; the loops over it are recursions over the list, or over the
-- elements left where they fill it.
pub mod Create
pub mod Zero
pub mod Disk
pub mod Text
pub mod Checksum
mod Tests
use partman.Base.{
  ℕ, zero, suc, ◌+◌, ◌-◌, ◌*◌, ◌^◌, ◌<◌, bit_and, bit_or, ◌<<<◌, List, [], ◌∷◌, length, ◌≡◌, Bool,
  true, false, ◌==◌, if◌then◌else◌,
}
use partman.MemUtils.{Memory, write_pu8, write_pu16, write_pu32, read_pu8, read_pu16, read_pu32}
use partman.Crc32.{Crc, crc32_compute8, crc32_compute16, crc32_compute32}
use partman.Rand.{Rng, rand_8, rand_16, rand_32}

pub record Guid : Type 0 where
  pub time_lo : ℕ
  pub time_mid : ℕ
  pub time_hi_ver : ℕ
  pub cl_seq_hi_res : ℕ
  pub cl_seq_lo : ℕ
  pub nodes : List ℕ

abbrev pub node_cnt : ℕ
node_cnt = 6

-- What `memset` leaves.
abbrev pub zero_guid : Guid
zero_guid = record {
  time_lo = 0;
  time_mid = 0;
  time_hi_ver = 0;
  cl_seq_hi_res = 0;
  cl_seq_lo = 0;
  nodes = 0 ∷ 0 ∷ 0 ∷ 0 ∷ 0 ∷ 0 ∷ [];
}

pub Guid_ext :
    {g h : Guid}
    → g.time_lo ≡ h.time_lo
    → g.time_mid ≡ h.time_mid
    → g.time_hi_ver ≡ h.time_hi_ver
    → g.cl_seq_hi_res ≡ h.cl_seq_hi_res
    → g.cl_seq_lo ≡ h.cl_seq_lo
    → g.nodes ≡ h.nodes
    → g ≡ h
Guid_ext a b c d e f = λ i. record {
  time_lo = a i;
  time_mid = b i;
  time_hi_ver = c i;
  cl_seq_hi_res = d i;
  cl_seq_lo = e i;
  nodes = f i;
}

abbrev pub AllBytes : List ℕ → Type 0
AllBytes [] = Unit
AllBytes (x ∷ xs) = (x < 2 ^ 8) × AllBytes xs

-- The values that the fields of `struct guid` can hold on a disk.
pub record IsGuid (g : Guid) : Type 0 where
  pub time_lo : g.time_lo < 2 ^ 32
  pub time_mid : g.time_mid < 2 ^ 16
  pub time_hi_ver : g.time_hi_ver < 2 ^ 16
  pub cl_seq_hi_res : g.cl_seq_hi_res < 2 ^ 8
  pub cl_seq_lo : g.cl_seq_lo < 2 ^ 8
  pub node_count : length g.nodes ≡ node_cnt
  pub node_bytes : AllBytes g.nodes

rand_nodes : ℕ → Rng → List ℕ × Rng
rand_nodes zero r = ([], r)
rand_nodes (suc n) r = let (b, r) = rand_8 r in let (bs, r) = rand_nodes n r in (b ∷ bs, r)

-- In 16 and 8 bits, `x &= ~mask` keeps the bits of the complement of the mask.
unfoldable pub guid_create : Rng → Guid × Rng
unfolding rand_nodes
guid_create r =
    let (time_lo, r) = rand_32 r in
    let (time_mid, r) = rand_16 r in
    let (time_hi_ver, r) = rand_16 r in
    let (cl_seq_hi_res, r) = rand_8 r in
    let (cl_seq_lo, r) = rand_8 r in
    let (nodes, r) = rand_nodes node_cnt r in
    let time_hi_ver = bit_and time_hi_ver (0xffff - (0xf <<< 12)) in
    let time_hi_ver = bit_or time_hi_ver (0x4 <<< 12) in
    let cl_seq_hi_res = bit_and cl_seq_hi_res (0xff - (0x7 <<< 5)) in
    let cl_seq_hi_res = bit_or cl_seq_hi_res (0x6 <<< 5) in
    (
      record {
        time_lo = time_lo;
        time_mid = time_mid;
        time_hi_ver = time_hi_ver;
        cl_seq_hi_res = cl_seq_hi_res;
        cl_seq_lo = cl_seq_lo;
        nodes = nodes;
      },
      r,
    )

read_nodes : ℕ → ℕ → Memory → List ℕ
read_nodes zero p m = []
read_nodes (suc n) p m = read_pu8 p m ∷ read_nodes n (p + 1) m

unfoldable pub guid_read : ℕ → Memory → Guid
unfolding read_nodes
guid_read p m = record {
  time_lo = read_pu32 p m;
  time_mid = read_pu16 (p + 4) m;
  time_hi_ver = read_pu16 (p + 6) m;
  cl_seq_hi_res = read_pu8 (p + 8) m;
  cl_seq_lo = read_pu8 (p + 9) m;
  nodes = read_nodes node_cnt (p + 10) m;
}

write_nodes : ℕ → List ℕ → Memory → Memory
write_nodes p [] m = m
write_nodes p (x ∷ xs) m = write_nodes (p + 1) xs (write_pu8 p x m)

unfoldable pub guid_write : ℕ → Guid → Memory → Memory
unfolding write_nodes
guid_write p g m =
    let m = write_pu32 p g.time_lo m in
    let m = write_pu16 (p + 4) g.time_mid m in
    let m = write_pu16 (p + 6) g.time_hi_ver m in
    let m = write_pu8 (p + 8) g.cl_seq_hi_res m in
    let m = write_pu8 (p + 9) g.cl_seq_lo m in write_nodes (p + 10) g.nodes m

crc_nodes : List ℕ → Crc → Crc
crc_nodes [] c = c
crc_nodes (x ∷ xs) c = crc_nodes xs (crc32_compute8 x c)

unfoldable pub guid_crc_compute : Guid → Crc → Crc
unfolding crc_nodes
guid_crc_compute g c =
    let c = crc32_compute32 g.time_lo c in
    let c = crc32_compute16 g.time_mid c in
    let c = crc32_compute16 g.time_hi_ver c in
    let c = crc32_compute8 g.cl_seq_hi_res c in
    let c = crc32_compute8 g.cl_seq_lo c in crc_nodes g.nodes c

or_nodes : List ℕ → ℕ → ℕ
or_nodes [] flag = flag
or_nodes (x ∷ xs) flag = or_nodes xs (bit_or flag x)

unfoldable pub guid_is_zero : Guid → Bool
unfolding or_nodes
guid_is_zero g =
    let flag =
      bit_or (bit_or (bit_or (bit_or g.time_lo g.time_mid) g.time_hi_ver) g.cl_seq_hi_res)
        g.cl_seq_lo in
    let flag = or_nodes g.nodes flag in if flag == 0 then true else false
