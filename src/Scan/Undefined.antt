-- ===== src/Scan/Undefined.antt =====
-- The lines for which `prompt_sector_ext` has no result that C defines.
use partman.Base.{
  ℕ, ◌≤◌, ◌≡◌, ◌⊎◌, inl, inr, refl, List, [], ◌∷◌, true, false, not, ◌&&◌, Option, none, some, ◌==◌,
  Bool-cases, Option-cases, arith,
}
use partman.CText.{isspace, isdigit, toupper, skip_space, sscanf_number, sscanf_overflows}
use partman.Stdio.{Stream}
use partman.Scan.{
  ScanRes, SectorRes, scan_str, scan_buf_sz, keep_unless_blank, trim_end, looked_up, str_trim,
  last_char, split_modifier, split_sign, modifier_val, scale, apply_modifier, apply_sign,
  check_range, parse_sector, trimmed_sector, sector_scanned, sector_ext_result, prompt_sector_ext,
}

-- A text with nothing but white space, one with a byte from 128 on at either end of what is left
-- without the white space around it, one that ends in T or P there, or one whose number has more than
-- 64 bits.
pub data IsUndefined (buf : List ℕ) : Type 0 where
  blank : skip_space buf ≡ [] → IsUndefined buf
  no_class :
      (c : ℕ) (s : List ℕ)
      → trim_end (skip_space buf) ≡ c ∷ s
      → (128 ≤ c) ⊎ (128 ≤ last_char c s)
      → IsUndefined buf
  too_large :
      (c : ℕ) (s : List ℕ)
      → str_trim buf ≡ some (c ∷ s)
      → (toupper (last_char c s) ≡ b'T') ⊎ (toupper (last_char c s) ≡ b'P')
      → IsUndefined buf
  no_number :
      (c : ℕ) (s : List ℕ)
      → str_trim buf ≡ some (c ∷ s)
      → sscanf_overflows 10 (split_sign (split_modifier c s).1).1 ≡ true
      → IsUndefined buf

skip_space-not_space : (c : ℕ) (buf s : List ℕ) → skip_space buf ≡ c ∷ s → isspace c ≡ false
unfolding skip_space
skip_space-not_space c [] s h = absurd (ground arith)
skip_space-not_space c (d ∷ buf) s h = elim (Bool-cases (isspace d)) [
  | inl e ↦ skip_space-not_space c buf s (rw (e, skip_space) at h)
  | inr e ↦ ground (arith, e)
]

keep-nonempty : (c : ℕ) (s : List ℕ) → isspace c ≡ false → keep_unless_blank c s ≡ [] → ⊥
unfolding keep_unless_blank
keep-nonempty c [] e h = ground (arith, e)
keep-nonempty c (d ∷ s) e h = ground arith

trimmed-blank : (buf t : List ℕ) → skip_space buf ≡ t → trim_end t ≡ [] → skip_space buf ≡ []
unfolding trim_end
trimmed-blank buf [] e h = e
trimmed-blank buf (c ∷ s) e h =
    absurd (keep-nonempty c (trim_end s) (skip_space-not_space c buf s e) h)

looked_up-none : (c : ℕ) (s : List ℕ) → looked_up (c ∷ s) ≡ none → (128 ≤ c) ⊎ (128 ≤ last_char c s)
unfolding looked_up
looked_up-none c s h = ground arith

str_trim-IsUndefined : (buf : List ℕ) → str_trim buf ≡ none → IsUndefined buf
unfolding str_trim
str_trim-IsUndefined buf h = go (trim_end (skip_space buf)) refl h
  where
    go : (t : List ℕ) → trim_end (skip_space buf) ≡ t → looked_up t ≡ none → IsUndefined buf
    go [] e h = blank (trimmed-blank buf (skip_space buf) refl e)
    go (c ∷ s) e h = no_class c s e (looked_up-none c s h)

modifier_val-undefined :
    (m : ℕ) → modifier_val m ≡ SectorRes.undefined → (toupper m ≡ b'T') ⊎ (toupper m ≡ b'P')
unfolding modifier_val
modifier_val-undefined m h = ground arith

check_range-undefined :
    (start end : ℕ) (r : SectorRes)
    → check_range start end r ≡ SectorRes.undefined
    → r ≡ SectorRes.undefined
unfolding check_range
check_range-undefined start end (SectorRes.sector n) h = absurd (ground arith)
check_range-undefined start end SectorRes.bad h = absurd (ground arith)
check_range-undefined start end SectorRes.undefined h = refl

apply_sign-undefined :
    (start end sign_c : ℕ) (r : SectorRes)
    → apply_sign start end sign_c r ≡ SectorRes.undefined
    → r ≡ SectorRes.undefined
unfolding apply_sign
apply_sign-undefined start end sign_c (SectorRes.sector n) h = absurd (ground arith)
apply_sign-undefined start end sign_c SectorRes.bad h = absurd (ground arith)
apply_sign-undefined start end sign_c SectorRes.undefined h = refl

scale-undefined :
    (sec_sz n : ℕ) (r : SectorRes)
    → scale sec_sz n r ≡ SectorRes.undefined
    → r ≡ SectorRes.undefined
unfolding scale
scale-undefined sec_sz n (SectorRes.sector v) h = absurd (ground arith)
scale-undefined sec_sz n SectorRes.bad h = absurd (ground arith)
scale-undefined sec_sz n SectorRes.undefined h = refl

apply_modifier-undefined :
    (sec_sz m n : ℕ)
    → apply_modifier sec_sz m n ≡ SectorRes.undefined
    → modifier_val m ≡ SectorRes.undefined
unfolding apply_modifier
apply_modifier-undefined sec_sz m n h = elim (Bool-cases (m == 0)) [
  | inl e ↦ absurd (ground (arith, e))
  | inr e ↦ scale-undefined sec_sz n (modifier_val m) (rw e at h)
]

module _ (start end sec_sz : ℕ) where
  split-undefined :
      (c : ℕ) (s : List ℕ)
      → modifier_val (split_modifier c s).0 ≡ SectorRes.undefined
      → (toupper (last_char c s) ≡ b'T') ⊎ (toupper (last_char c s) ≡ b'P')
  unfolding split_modifier
  split-undefined c s h = elim (Bool-cases (not (isdigit (last_char c s)))) [
    | inl e ↦ modifier_val-undefined (last_char c s) (rw e at h)
    | inr e ↦ absurd (unfold modifier_val toupper in ground (arith, e))
  ]

  parse_sector-undefined :
      (c : ℕ) (s : List ℕ)
      → parse_sector start end sec_sz (c ∷ s) ≡ SectorRes.undefined
      → (sscanf_overflows 10 (split_sign (split_modifier c s).1).1 ≡ true)
        ⊎ (toupper (last_char c s) ≡ b'T')
        ⊎ (toupper (last_char c s) ≡ b'P')
  unfolding parse_sector
  parse_sector-undefined c s h =
      elim (Bool-cases
        (not ((split_modifier c s).0 == 0) && (split_sign (split_modifier c s).1).0 == 0)) [
          | inl e ↦ absurd (ground (arith, e))
          | inr e ↦
              let text = (split_sign (split_modifier c s).1).1 in
              elim (Bool-cases (sscanf_overflows 10 text)) [
                | inl o ↦ inl o
                | inr o ↦ elim (Option-cases (sscanf_number 10 text)) [
                  | inl f ↦ absurd (ground (arith, e, o, f))
                  | inr (n, f) ↦ inr (
                      split-undefined c s (
                        apply_modifier-undefined sec_sz (split_modifier c s).0 n (
                          apply_sign-undefined start end (split_sign (split_modifier c s).1).0 _
                            (check_range-undefined start end _ (rw e at (rw o at (rw f at h)))))))
                ]
              ]
        ]

  trimmed-IsUndefined :
      (buf : List ℕ) (o : Option (List ℕ))
      → str_trim buf ≡ o
      → trimmed_sector start end sec_sz o ≡ SectorRes.undefined
      → IsUndefined buf
  unfolding trimmed_sector
  trimmed-IsUndefined buf none e h = str_trim-IsUndefined buf e
  trimmed-IsUndefined buf (some []) e h = absurd (unfold parse_sector in ground arith)
  trimmed-IsUndefined buf (some (c ∷ s)) e h = elim (parse_sector-undefined c s h) [
    | inl o ↦ no_number c s e o
    | inr l ↦ too_large c s e l
  ]

  scanned-undefined :
      (r : SectorRes) (st : Stream) → sector_scanned r st ≡ none → r ≡ SectorRes.undefined
  unfolding sector_scanned
  scanned-undefined (SectorRes.sector n) st h = absurd (ground arith)
  scanned-undefined SectorRes.bad st h = absurd (ground arith)
  scanned-undefined SectorRes.undefined st h = refl

  ext-IsUndefined :
      (def : ℕ) (r : ScanRes × List ℕ × Stream)
      → sector_ext_result start end def sec_sz r ≡ none
      → IsUndefined r.1
  unfolding sector_ext_result
  ext-IsUndefined def (ScanRes.scan_empty, buf, st) h = absurd (ground arith)
  ext-IsUndefined def (ScanRes.scan_eof, buf, st) h = absurd (ground arith)
  ext-IsUndefined def (ScanRes.scan_fail, buf, st) h = absurd (ground arith)
  ext-IsUndefined def (ScanRes.scan_ok, buf, st) h =
      trimmed-IsUndefined buf (str_trim buf) refl
        (scanned-undefined (trimmed_sector start end sec_sz (str_trim buf)) st h)

  -- The prompt for a last sector has no defined result only for a line of white space alone, or one
  -- that, without the white space around it, begins or ends with a byte from 128 on, ends in T or P
  -- or has a number of more than 64 bits.
  pub prompt_sector_ext-IsUndefined :
      (def : ℕ) (st : Stream)
      → prompt_sector_ext start end def sec_sz st ≡ none
      → IsUndefined (scan_str scan_buf_sz st).1
  unfolding prompt_sector_ext
  prompt_sector_ext-IsUndefined def st h = ext-IsUndefined def (scan_str scan_buf_sz st) h
