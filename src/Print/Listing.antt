-- ===== src/Print/Listing.antt =====
-- What the listings of `pm_print_scheme` show: the layout of the scheme, and the GUIDs of its entries.
use native.Mathlib.Nat.{mod-eq_of_lt, mul-le-mul_right}
use partman.Base.{
  ℕ, zero, suc, ◌+◌, ◌-◌, ◌*◌, ◌^◌, ◌≤◌, ◌<◌, ◌≡◌, ◌≢◌, refl, ◌∙◌, List, [], ◌∷◌, true, Option,
  none, some, get_or, get_or-take, take, ltb, u64, sub64, if◌then◌else◌, Bool-cases, inl, inr,
  arith,
}
use partman.ImgCtx.{ImgCtx, lba_to_byte}
use partman.Guid.{IsGuid}
use partman.Guid.Text.{guid_to_str, str_to_guid-guid_to_str}
use partman.Schem.{SchemType, SchemPart, Schem, zero_part, parts, part_is_used}
use partman.Command.Layout.{layout}
use partman.Command.Refine.Edits.{zero-unused}
use partman.Command.Refine.Sound.{IsSound}
use partman.Print.{
  Line, part_sz, print_mbr_part, print_gpt_part, pm_print_mbr, pm_print_gpt, print_as,
  pm_print_common, print_rest, pm_print_scheme,
}
use partman.Print.Numbers.{used_numbers, numbers-pm_print_scheme}
use partman.Print.View.{numbers, after, extent_in, texts_in, guids_in, read-listed}

abbrev tail : List Line → List Line
tail [] = []
tail (l ∷ ls) = ls

abbrev pub mbr_body : ImgCtx → SchemPart → List Line
mbr_body ctx p = tail (print_mbr_part ctx 0 p)

abbrev gpt_body : ImgCtx → SchemPart → List Line
gpt_body ctx p = tail (print_gpt_part ctx 0 p)

-- The four values that are printed of an entry's sectors.
abbrev pub printed_extent : ImgCtx → SchemPart → ℕ × ℕ × ℕ × ℕ
printed_extent ctx p = (p.start_lba, p.end_lba, part_sz p, lba_to_byte ctx (part_sz p))

beyond : (n j : ℕ) (ps : List SchemPart) → n ≤ j → get_or (take n ps) j zero_part ≡ zero_part
beyond zero j ps h = refl
beyond (suc n) j [] h = refl
beyond (suc n) zero (p ∷ ps) h = absurd (omega arith)
beyond (suc n) (suc j) (p ∷ ps) h = beyond n j ps (omega arith)

module _ (s : Schem) (ctx : ImgCtx) (j : ℕ) where
  abbrev extent_of : Option (ℕ × ℕ × ℕ × ℕ)
  extent_of =
      if part_is_used s.funcs (get_or (parts s) j zero_part)
      then some (printed_extent ctx (get_or (parts s) j zero_part))
      else none

  mbr_extent : extent_in (after (j + 1) (pm_print_mbr s ctx)) ≡ extent_of
  unfolding pm_print_mbr print_mbr_part
  mbr_extent =
      read-listed (part_is_used s.funcs) (print_mbr_part ctx) (mbr_body ctx) extent_in
        (printed_extent ctx) (λ i p. refl) (λ n p rest. refl) (λ p rest e. refl) refl
        (zero-unused s.funcs) j (parts s)

  gpt_extent : extent_in (after (j + 1) (pm_print_gpt s ctx)) ≡ extent_of
  unfolding pm_print_gpt print_gpt_part
  gpt_extent =
      read-listed (part_is_used s.funcs) (print_gpt_part ctx) (gpt_body ctx) extent_in
        (printed_extent ctx) (λ i p. refl) (λ n p rest. refl) (λ p rest e. refl) refl
        (zero-unused s.funcs) j (parts s)

  print_as_extent :
      (t : SchemType)
      → t ≢ SchemType.schem_cnt
      → extent_in (after (j + 1) (print_as t s ctx)) ≡ extent_of
  unfolding print_as
  print_as_extent SchemType.schem_type_mbr h = mbr_extent
  print_as_extent SchemType.schem_type_gpt h = gpt_extent
  print_as_extent SchemType.schem_cnt h = absurd (h refl)

  scheme_extent :
      s.type ≢ SchemType.schem_cnt
      → extent_in (after (j + 1) (pm_print_scheme (some s) ctx)) ≡ extent_of
  unfolding pm_print_scheme pm_print_common print_rest
  scheme_extent mapped = print_as_extent s.type mapped

-- The number of sectors of a stretch, and its size in bytes.
abbrev pub with_sizes : ℕ → Option (ℕ × ℕ) → Option (ℕ × ℕ × ℕ × ℕ)
with_sizes sec_sz none = none
with_sizes sec_sz (some (a, b)) = some (a, b, b + 1 - a, (b + 1 - a) * sec_sz)

sized :
    (ctx : ImgCtx) (p : SchemPart) (last : ℕ)
    → p.start_lba ≤ p.end_lba
    → p.end_lba ≤ last
    → last + 1 < 2 ^ 64
    → (last + 1) * ctx.sec_sz < 2 ^ 64
    → some (printed_extent ctx p) ≡ with_sizes ctx.sec_sz (some (p.start_lba, p.end_lba))
unfolding part_sz lba_to_byte
sized ctx p last ord low high fits = rw (count, no_wrap) refl
  where
    count : u64 (sub64 p.end_lba p.start_lba + 1) ≡ p.end_lba + 1 - p.start_lba
    count = omega arith

    scaled : (p.end_lba + 1 - p.start_lba) * ctx.sec_sz ≤ (last + 1) * ctx.sec_sz
    scaled = mul-le-mul_right ctx.sec_sz (omega arith)

    no_wrap :
        u64 ((p.end_lba + 1 - p.start_lba) * ctx.sec_sz)
        ≡ (p.end_lba + 1 - p.start_lba) * ctx.sec_sz
    no_wrap = mod-eq_of_lt (omega (arith, scaled))

scheme_extent-layout :
    (s : Schem) (ctx : ImgCtx) (j : ℕ)
    → s.type ≢ SchemType.schem_cnt
    → IsSound s ctx
    → (s.last_usable_lba + 1) * ctx.sec_sz < 2 ^ 64
    → extent_in (after (j + 1) (pm_print_scheme (some s) ctx)) ≡ with_sizes ctx.sec_sz (layout s j)
scheme_extent-layout s ctx j mapped sound fits = scheme_extent s ctx j mapped ∙ shown
  where
    shown : extent_of s ctx j ≡ with_sizes ctx.sec_sz (layout s j)
    shown = elim (Bool-cases (ltb j s.part_cnt)) [
      | inr e ↦ rw (e, beyond s.part_cnt j s.table (ground arith), zero-unused s.funcs) refl
      | inl e ↦ elim (Bool-cases (part_is_used s.funcs (get_or s.table j zero_part))) [
        | inr f ↦ rw (e, get_or-take s.part_cnt j s.table zero_part (ground arith), f) refl
        | inl f ↦
            let part : SchemPart = get_or s.table j zero_part in
            let (low, ord, high) =
              sound.entries.within j part.start_lba part.end_lba (rw (e, f) refl) in
            rw (e, get_or-take s.part_cnt j s.table zero_part (ground arith), f)
              (sized ctx part s.last_usable_lba ord high
                (omega (arith, sound.aligns, sound.align_pos)) fits)
      ]
    ]

-- Where the sizes fit 64 bits, the listing of a sound scheme shows its layout: its numbers are those
-- of the entries in use, each once and in order, and after the number of each stand its first and
-- last sector, how many they are and their size in bytes, without overflow.
pub pm_print_scheme-shows :
    (s : Schem) (ctx : ImgCtx)
    → s.type ≢ SchemType.schem_cnt
    → IsSound s ctx
    → (s.last_usable_lba + 1) * ctx.sec_sz < 2 ^ 64
    → let lines : List Line = pm_print_scheme (some s) ctx in
      (numbers lines ≡ used_numbers (layout s) 0 s.part_cnt)
      × ((j : ℕ) → extent_in (after (j + 1) lines) ≡ with_sizes ctx.sec_sz (layout s j))
pm_print_scheme-shows s ctx mapped sound fits = (
  numbers-pm_print_scheme s ctx sound mapped,
  λ j. scheme_extent-layout s ctx j mapped sound fits,
)

abbrev printed_texts : SchemPart → List ℕ × List ℕ
printed_texts p = (guid_to_str p.unique_guid, guid_to_str p.type_guid)

gpt_texts :
    (s : Schem) (ctx : ImgCtx) (j : ℕ)
    → texts_in (after (j + 1) (pm_print_gpt s ctx)) ≡ (
        if part_is_used s.funcs (get_or (parts s) j zero_part)
        then some (printed_texts (get_or (parts s) j zero_part))
        else none)
unfolding pm_print_gpt print_gpt_part
gpt_texts s ctx j =
    read-listed (part_is_used s.funcs) (print_gpt_part ctx) (gpt_body ctx) texts_in printed_texts
      (λ i p. refl) (λ n p rest. refl) (λ p rest e. refl) refl (zero-unused s.funcs) j (parts s)

-- The listing of a GPT shows the two GUIDs of an entry in use as texts that `str_to_guid` reads back
-- as the same GUIDs, where their fields are in range: what is shown as the type can be typed in again.
pub pm_print_gpt-guids :
    (s : Schem) (ctx : ImgCtx) (j : ℕ)
    → let part : SchemPart = get_or s.table j zero_part in
      j < s.part_cnt
      → part_is_used s.funcs part ≡ true
      → IsGuid part.unique_guid
      → IsGuid part.type_guid
      → guids_in (after (j + 1) (pm_print_gpt s ctx)) ≡ some (part.unique_guid, part.type_guid)
pm_print_gpt-guids s ctx j lt used u t =
    rw
      (
        gpt_texts s ctx j,
        get_or-take s.part_cnt j s.table zero_part lt,
        used,
        (str_to_guid-guid_to_str _ u).1,
        (str_to_guid-guid_to_str _ t).1,
      )
      refl
