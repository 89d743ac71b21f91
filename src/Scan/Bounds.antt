-- ===== src/Scan/Bounds.antt =====
-- What the prompts accept.
use partman.Base.{
  ℕ, ◌≤◌, ◌≡◌, refl, List, [], ◌∷◌, Option, none, some, not, ◌&&◌, ◌==◌, Bool-cases, Option-cases,
  inl, inr, arith,
}
use partman.CText.{sscanf_number, sscanf_overflows}
use partman.Stdio.{Stream}
use partman.Scan.{
  ScanRes, Scanned, SectorRes, scan_int, in_range, range_result, prompt_range, check_range,
  parse_sector, trimmed_sector, sector_scanned, sector_ext_result, prompt_sector_ext, scan_str,
  str_trim, scan_buf_sz, split_modifier, split_sign,
}

abbrev Within : ℕ → ℕ → ℕ → Type 0
Within start end v = (start ≤ v) × (v ≤ end)

range_result-Within :
    (start end def : ℕ) (res : ScanRes) (r : Scanned ℕ)
    → Within start end def
    → (range_result start end def res r).res ≡ ScanRes.scan_ok
    → r.res ≡ res
    → Within start end (range_result start end def res r).value
unfolding range_result in_range
range_result-Within start end def ScanRes.scan_empty r w h e = w
range_result-Within start end def ScanRes.scan_eof r w h e = absurd (ground arith)
range_result-Within start end def ScanRes.scan_fail r w h e = absurd (ground arith)
range_result-Within start end def ScanRes.scan_ok r w h e = ground arith

-- A number that a prompt returns with success lies in the range that is asked for, where the default
-- does.
pub prompt_range_bounds :
    (start end def : ℕ) (st : Stream)
    → start ≤ def
    → def ≤ end
    → (prompt_range start end def st).res ≡ ScanRes.scan_ok
    → (start ≤ (prompt_range start end def st).value)
      × ((prompt_range start end def st).value ≤ end)
unfolding prompt_range
prompt_range_bounds start end def st a b h =
    range_result-Within start end def (scan_int 10 st).res (scan_int 10 st) (a, b) h refl

check_range-Within :
    (start end : ℕ) (r : SectorRes) (v : ℕ)
    → check_range start end r ≡ SectorRes.sector v
    → Within start end v
unfolding check_range
check_range-Within start end (SectorRes.sector n) v h = ground arith
check_range-Within start end SectorRes.bad v h = absurd (ground arith)
check_range-Within start end SectorRes.undefined v h = absurd (ground arith)

parse_sector-Within :
    (start end sec_sz : ℕ) (s : List ℕ) (v : ℕ)
    → parse_sector start end sec_sz s ≡ SectorRes.sector v
    → Within start end v
unfolding parse_sector
parse_sector-Within start end sec_sz [] v h = absurd (ground arith)
parse_sector-Within start end sec_sz (c ∷ s) v h =
    elim (Bool-cases
      (not ((split_modifier c s).0 == 0) && (split_sign (split_modifier c s).1).0 == 0)) [
        | inl e ↦ absurd (ground (arith, e))
        | inr e ↦
            let text = (split_sign (split_modifier c s).1).1 in
            elim (Bool-cases (sscanf_overflows 10 text)) [
              | inl o ↦ absurd (ground (arith, e, o))
              | inr o ↦ elim (Option-cases (sscanf_number 10 text)) [
                | inl e' ↦ absurd (ground (arith, e, o, e'))
                | inr (n, e') ↦ check_range-Within start end _ v (rw e at (rw o at (rw e' at h)))
              ]
            ]
      ]

trimmed_sector-Within :
    (start end sec_sz : ℕ) (s : Option (List ℕ)) (v : ℕ)
    → trimmed_sector start end sec_sz s ≡ SectorRes.sector v
    → Within start end v
unfolding trimmed_sector
trimmed_sector-Within start end sec_sz none v h = absurd (ground arith)
trimmed_sector-Within start end sec_sz (some s) v h = parse_sector-Within start end sec_sz s v h

sector_scanned-Within :
    (start end : ℕ) (r : SectorRes) (st : Stream) (s : Scanned ℕ)
    → ((v : ℕ) → r ≡ SectorRes.sector v → Within start end v)
    → sector_scanned r st ≡ some s
    → s.res ≡ ScanRes.scan_ok
    → Within start end s.value
unfolding sector_scanned
sector_scanned-Within start end (SectorRes.sector n) st s w h e = ground (arith, w n refl)
sector_scanned-Within start end SectorRes.bad st s w h e = absurd (ground arith)
sector_scanned-Within start end SectorRes.undefined st s w h e = absurd (ground arith)

sector_ext_result-Within :
    (start end def sec_sz : ℕ) (r : ScanRes × List ℕ × Stream) (s : Scanned ℕ)
    → Within start end def
    → sector_ext_result start end def sec_sz r ≡ some s
    → s.res ≡ ScanRes.scan_ok
    → Within start end s.value
unfolding sector_ext_result
sector_ext_result-Within start end def sec_sz (ScanRes.scan_empty, buf, st) s w h e = ground arith
sector_ext_result-Within start end def sec_sz (ScanRes.scan_eof, buf, st) s w h e =
    absurd (ground arith)
sector_ext_result-Within start end def sec_sz (ScanRes.scan_fail, buf, st) s w h e =
    absurd (ground arith)
sector_ext_result-Within start end def sec_sz (ScanRes.scan_ok, buf, st) s w h e =
    sector_scanned-Within start end _ st s
      (λ v r. trimmed_sector-Within start end sec_sz (str_trim buf) v r) h e

-- A sector that the extended prompt returns with success lies in the range that is asked for, where
-- the default does, whatever signs, sizes and wrapped sums led to it.
pub prompt_sector_ext_bounds :
    (start end def sec_sz : ℕ) (st : Stream) (s : Scanned ℕ)
    → start ≤ def
    → def ≤ end
    → prompt_sector_ext start end def sec_sz st ≡ some s
    → s.res ≡ ScanRes.scan_ok
    → (start ≤ s.value) × (s.value ≤ end)
unfolding prompt_sector_ext
prompt_sector_ext_bounds start end def sec_sz st s a b h e =
    sector_ext_result-Within start end def sec_sz (scan_str scan_buf_sz st) s (a, b) h e
