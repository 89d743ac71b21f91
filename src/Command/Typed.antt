-- ===== src/Command/Typed.antt =====
-- Typing a number selects the entry of that number.
use partman.Base.{
  ℕ, zero, suc, ◌+◌, ◌-◌, ◌^◌, ◌≤◌, ◌<◌, ◌≡◌, refl, ◌∙◌, List, [], ◌∷◌, Bool, true, false, Option,
  none, some, length, take, get_or, ◌==◌, if◌then◌else◌, arith,
}
use partman.CText.Decimal.{AllDigits, decimal, sscanf_number-AllDigits, sscanf_overflows-AllDigits}
use partman.Stdio.{Event, Stream, typed, AllText}
use partman.Scan.{
  ScanRes, note_overflow, scan_int, convert, line_result, in_range, range_result, prompt_range,
}
use partman.Scan.Lines.{scan_str-typed}
use partman.World.{World}
use partman.Schem.{Schem, SchemPart, zero_part, parts, part_is_used}
use partman.Find.{schem_find_part_index}
use partman.Find.Index.{NoneAtAll, IndexOutcome, schem_find_part_index-IndexOutcome}
use partman.Command.{
  Edited, get_part, put_part, chosen, prompted, prompt_from, pm_part_prompt, schem_part_delete,
  pm_part_delete,
}
use partman.Command.Layout.{layout}
use partman.Command.Refine.Edits.{layout-put_part, zero-unused}

abbrev pub after_line : List Event → Stream
after_line es = record { events = es; eof = false; overflowed = false }

AllText-digits : (ds : List ℕ) → AllDigits ds → AllText ds
AllText-digits [] h = tt
AllText-digits (c ∷ ds) (a, b, h) = (omega arith, omega arith, omega arith, AllText-digits ds h)

nonempty-ok : (ds : List ℕ) → 1 ≤ length ds → line_result ds ≡ ScanRes.scan_ok
unfolding line_result
nonempty-ok [] h = absurd (omega arith)
nonempty-ok (c ∷ ds) h = refl

module _ (ds : List ℕ) (es : List Event) (digits : AllDigits ds) (some_digits : 1 ≤ length ds)
    (short : length ds < 255) (small : decimal ds < 2 ^ 64) where
  scan_int-typed :
      scan_int 10 (record { events = typed ds es; eof = false; overflowed = false })
      ≡ record { res = ScanRes.scan_ok; value = decimal ds; stdin = after_line es }
  unfolding scan_int note_overflow convert
  scan_int-typed =
      rw
        (
          scan_str-typed ds es (AllText-digits ds digits) short,
          nonempty-ok ds some_digits,
          convert,
          sscanf_number-AllDigits ds some_digits digits small,
          sscanf_overflows-AllDigits ds some_digits digits small,
        )
        refl

  prompt_range-typed :
      (start end def : ℕ)
      → start ≤ decimal ds
      → decimal ds ≤ end
      → prompt_range start end def
          (record { events = typed ds es; eof = false; overflowed = false })
        ≡ record { res = ScanRes.scan_ok; value = decimal ds; stdin = after_line es }
  unfolding prompt_range range_result in_range
  prompt_range-typed start end def low high = rw scan_int-typed (ground arith)

NoneAtAll-get :
    (used : SchemPart → Bool) (wanted : Bool) (n k : ℕ) (ps : List SchemPart)
    → k < n
    → used zero_part ≡ false
    → NoneAtAll used wanted (take n ps)
    → used (get_or ps k zero_part) ≡ true
    → wanted ≡ true
    → ⊥
NoneAtAll-get used wanted zero k ps lt z h u w = omega arith
NoneAtAll-get used wanted (suc n) k [] lt z h u w = ground arith
NoneAtAll-get used wanted (suc n) zero (p ∷ ps) lt z h u w = ground (arith, h.0)
NoneAtAll-get used wanted (suc n) (suc k) (p ∷ ps) lt z h u w =
    NoneAtAll-get used wanted n k ps (omega arith) z h.1 u w

module _ (s : Schem) (ds : List ℕ) (es : List Event) (digits : AllDigits ds)
    (some_digits : 1 ≤ length ds) (short : length ds < 255) (small : decimal ds < 2 ^ 64)
    (low : 1 ≤ decimal ds) (high : decimal ds ≤ s.part_cnt)
    (used : part_is_used s.funcs (get_part s (decimal ds - 1)) ≡ true) where
  prompt_from-typed :
      (o : Option ℕ)
      → IndexOutcome (part_is_used s.funcs) true 0 (parts s) o
      → prompt_from s true o (record { events = typed ds es; eof = false; overflowed = false })
        ≡ (some (decimal ds - 1), after_line es)
  unfolding prompt_from prompted chosen
  prompt_from-typed none h = absurd (
      NoneAtAll-get (part_is_used s.funcs) true s.part_cnt (decimal ds - 1) s.table (omega arith)
        (zero-unused s.funcs) h used refl)
  prompt_from-typed (some j) h =
      rw
        (
          prompt_range-typed ds es digits some_digits short small 1 s.part_cnt (j + 1) low high,
          used,
        )
        refl

  pm_part_prompt-typed :
      pm_part_prompt s true (record { events = typed ds es; eof = false; overflowed = false })
      ≡ (some (decimal ds - 1), after_line es)
  unfolding pm_part_prompt
  pm_part_prompt-typed =
      prompt_from-typed (schem_find_part_index s true) (schem_find_part_index-IndexOutcome s true)

  deleted :
      (w : World)
      → pm_part_delete s w (record { events = typed ds es; eof = false; overflowed = false })
        ≡ record { schem = put_part s (decimal ds - 1) zero_part; world = w; stdin = after_line es }
  unfolding pm_part_delete schem_part_delete
  deleted w = rw (pm_part_prompt-typed, pm_part_delete, pm_part_prompt-typed) refl

-- Every used partition can be deleted by its number: where the number is typed at the prompt of the
-- command, and no conversion before is undefined, its entry is freed, all others keep their sectors,
-- and the input goes on after the line.
pub pm_part_delete-typed :
    (s : Schem) (w : World) (ds : List ℕ) (es : List Event)
    → s.part_cnt ≤ length s.table
    → AllDigits ds
    → 1 ≤ length ds
    → length ds < 255
    → decimal ds < 2 ^ 64
    → 1 ≤ decimal ds
    → decimal ds ≤ s.part_cnt
    → part_is_used s.funcs (get_part s (decimal ds - 1)) ≡ true
    → let e : Edited =
        pm_part_delete s w (record { events = typed ds es; eof = false; overflowed = false }) in
      ((j : ℕ) → layout e.schem j ≡ (if j == decimal ds - 1 then none else layout s j))
      × (e.world ≡ w)
      × (e.stdin ≡ record { events = es; eof = false; overflowed = false })
pm_part_delete-typed s w ds es fits digits some_digits short small low high used =
    rw (deleted s ds es digits some_digits short small low high used w) (
      λ j.
          layout-put_part s fits (decimal ds - 1) zero_part j (omega arith)
          ∙ rw (zero-unused s.funcs) refl,
      refl,
      refl,
    )
