-- ===== src/Guid/Text.antt =====
-- The text form of a GUID: `guid_to_str` and `str_to_guid`, in the registry format.
use native.Mathlib.Nat.{mod-eq_of_lt}
use partman.Base.{
  ℕ, ◌<◌, List, [], ◌∷◌, Option, none, some, ◌==◌, if◌then◌else◌, u8, u16, length, get_or, ◌≡◌,
  refl, ap, arith, zero, suc, Bool-cases, inl, inr,
}
use partman.CText.{◌>>=◌, isspace, scan_number, skip_space, scan_literal, put_hex}
use partman.CText.Hex.{scan_number-put_hex, length-put_hex}
use partman.Guid.{Guid, Guid_ext, IsGuid, AllBytes}

-- The text that `sprintf` leaves in the buffer. A `pu32` has at most 16 hexadecimal digits, and what
-- is passed as an `int` at most 8.
unfoldable pub guid_to_str : Guid → List ℕ
guid_to_str guid =
    let s = put_hex 2 6 (get_or guid.nodes 5 0) [] in
    let s = put_hex 2 6 (get_or guid.nodes 4 0) s in
    let s = put_hex 2 6 (get_or guid.nodes 3 0) s in
    let s = put_hex 2 6 (get_or guid.nodes 2 0) s in
    let s = put_hex 2 6 (get_or guid.nodes 1 0) s in
    let s = put_hex 2 6 (get_or guid.nodes 0 0) s in
    let s = put_hex 2 6 guid.cl_seq_lo (b'-' ∷ s) in
    let s = put_hex 2 6 guid.cl_seq_hi_res s in
    let s = put_hex 4 4 guid.time_hi_ver (b'-' ∷ s) in
    let s = put_hex 4 4 guid.time_mid (b'-' ∷ s) in put_hex 8 8 guid.time_lo (b'-' ∷ s)

-- the call of `sscanf` and what follows it; the result is not 11 where a step fails
unfoldable pub guid_scan : List ℕ → Option Guid
guid_scan buf = do
  r0 ← scan_number 16 8 (skip_space buf)
  s ← scan_literal b'-' (r0.1)
  r1 ← scan_number 16 4 s
  s ← scan_literal b'-' (r1.1)
  r2 ← scan_number 16 4 s
  s ← scan_literal b'-' (r2.1)
  r3 ← scan_number 16 2 s
  r4 ← scan_number 16 2 (r3.1)
  s ← scan_literal b'-' (r4.1)
  n0 ← scan_number 16 2 s
  n1 ← scan_number 16 2 (n0.1)
  n2 ← scan_number 16 2 (n1.1)
  n3 ← scan_number 16 2 (n2.1)
  n4 ← scan_number 16 2 (n3.1)
  n5 ← scan_number 16 2 (n4.1)
  some (record {
    time_lo = r0.0;
    time_mid = u16 (r1.0);
    time_hi_ver = u16 (r2.0);
    cl_seq_hi_res = u8 (r3.0);
    cl_seq_lo = u8 (r4.0);
    nodes = u8 (n0.0) ∷ u8 (n1.0) ∷ u8 (n2.0) ∷ u8 (n3.0) ∷ u8 (n4.0) ∷ u8 (n5.0) ∷ [];
  })

-- `none` is `pres_fail`, where the GUID is left as it was.
unfoldable pub str_to_guid : List ℕ → Option Guid
str_to_guid buf = if length buf == 36 then guid_scan buf else none

skip_space_idem : (s : List ℕ) → skip_space (skip_space s) ≡ skip_space s
unfolding skip_space
skip_space_idem [] = refl
skip_space_idem (c ∷ s) = elim (Bool-cases (isspace c)) [
  | inl e ↦ rw e (skip_space_idem s)
  | inr e ↦ rw e (rw e refl)
]

scan_skip : (w : ℕ) (s : List ℕ) → scan_number 16 w (skip_space s) ≡ scan_number 16 w s
unfolding scan_number
scan_skip w s = rw (skip_space_idem s) refl

six_nodes :
    (xs : List ℕ)
    → length xs ≡ 6
    → get_or xs 0 0
        ∷ get_or xs 1 0
        ∷ get_or xs 2 0
        ∷ get_or xs 3 0
        ∷ get_or xs 4 0
        ∷ get_or xs 5 0
        ∷ []
      ≡ xs
six_nodes (a ∷ b ∷ c ∷ d ∷ e ∷ f ∷ []) h = refl
six_nodes [] h = absurd (omega arith)
six_nodes (a ∷ []) h = absurd (omega arith)
six_nodes (a ∷ b ∷ []) h = absurd (omega arith)
six_nodes (a ∷ b ∷ c ∷ []) h = absurd (omega arith)
six_nodes (a ∷ b ∷ c ∷ d ∷ []) h = absurd (omega arith)
six_nodes (a ∷ b ∷ c ∷ d ∷ e ∷ []) h = absurd (omega arith)
six_nodes (a ∷ b ∷ c ∷ d ∷ e ∷ f ∷ g ∷ xs) h = absurd (omega arith)

node-lt : (xs : List ℕ) (i : ℕ) → AllBytes xs → get_or xs i 0 < 256
node-lt [] i h = omega arith
node-lt (x ∷ xs) zero h = h.0
node-lt (x ∷ xs) (suc i) h = node-lt xs i h.1

module _ (n : ℕ) (s : List ℕ) where
  scan2 : n < 256 → scan_number 16 2 (put_hex 2 6 n s) ≡ some (n, s)
  scan2 h = scan_number-put_hex 2 6 n s (omega arith) (omega arith) h

  scan4 : n < 65536 → scan_number 16 4 (put_hex 4 4 n s) ≡ some (n, s)
  scan4 h = scan_number-put_hex 4 4 n s (omega arith) (omega arith) h

  scan8 : n < 4294967296 → scan_number 16 8 (put_hex 8 8 n s) ≡ some (n, s)
  scan8 h = scan_number-put_hex 8 8 n s (omega arith) (omega arith) h

module _ (g : Guid) (v : IsGuid g) where
  node : (i : ℕ) → get_or g.nodes i 0 < 256
  node i = node-lt g.nodes i v.node_bytes

  scanned : guid_scan (guid_to_str g) ≡ some g
  unfolding guid_scan guid_to_str scan_literal
  scanned =
      rw
        (
          scan_skip 8 _,
          scan8 g.time_lo _ v.time_lo,
          scan4 g.time_mid _ v.time_mid,
          scan4 g.time_hi_ver _ v.time_hi_ver,
          scan2 g.cl_seq_hi_res _ v.cl_seq_hi_res,
          scan2 g.cl_seq_lo _ v.cl_seq_lo,
          scan2 _ _ (node 0),
          scan2 _ _ (node 1),
          scan2 _ _ (node 2),
          scan2 _ _ (node 3),
          scan2 _ _ (node 4),
          scan2 _ _ (node 5),
        )
        (ap some (
          Guid_ext refl (mod-eq_of_lt v.time_mid) (mod-eq_of_lt v.time_hi_ver)
            (mod-eq_of_lt v.cl_seq_hi_res) (mod-eq_of_lt v.cl_seq_lo)
            (rw
              (
                mod-eq_of_lt (node 0),
                mod-eq_of_lt (node 1),
                mod-eq_of_lt (node 2),
                mod-eq_of_lt (node 3),
                mod-eq_of_lt (node 4),
                mod-eq_of_lt (node 5),
              )
              (six_nodes g.nodes v.node_count))))

  length_36 : length (guid_to_str g) ≡ 36
  unfolding guid_to_str
  length_36 = omega (
    arith,
    length-put_hex 8 8 g.time_lo _ v.time_lo,
    length-put_hex 4 4 g.time_mid _ v.time_mid,
    length-put_hex 4 4 g.time_hi_ver _ v.time_hi_ver,
    length-put_hex 2 6 g.cl_seq_hi_res _ v.cl_seq_hi_res,
    length-put_hex 2 6 g.cl_seq_lo _ v.cl_seq_lo,
    length-put_hex 2 6 _ _ (node 0),
    length-put_hex 2 6 _ _ (node 1),
    length-put_hex 2 6 _ _ (node 2),
    length-put_hex 2 6 _ _ (node 3),
    length-put_hex 2 6 _ _ (node 4),
    length-put_hex 2 6 _ _ (node 5),
  )

-- A GUID with fields in range is printed as 36 characters, which `str_to_guid` reads back as the
-- same GUID.
pub str_to_guid-guid_to_str :
    (g : Guid) → IsGuid g → (length (guid_to_str g) ≡ 36) × (str_to_guid (guid_to_str g) ≡ some g)
unfolding str_to_guid
str_to_guid-guid_to_str g v = (length_36 g v, rw (length_36 g v) (scanned g v))
