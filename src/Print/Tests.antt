-- ===== src/Print/Tests.antt =====
-- Listings of a small scheme.
use partman.Base.{ℕ, ◌+◌, List, [], ◌∷◌, ◌≤◌, ◌≡◌, refl, get_or, true, none, some, arith}
use partman.ImgCtx.{max_lba}
use partman.Schem.{zero_part, part_is_used, schem_part_is_used_mbr}
use partman.Examples.{disk, two_parts}
use partman.Examples.Valid.{disk-IsImgCtx}
use partman.Command.Samples.{two_parts-IsSound}
use partman.Command.Layout.{layout}
use partman.Print.Numbers.{used_numbers}
use partman.Print.{Line, pm_print_scheme, print_parts, print_mbr_part, pm_print_mbr}
use partman.Print.View.{numbers, after, extent_in, chs_in}
use partman.Print.Listing.{with_sizes, pm_print_scheme-shows}
use partman.Print.Chs.{Shows, pm_print_mbr-chs}

pm_print_scheme-shows_example :
    let lines : List Line = pm_print_scheme (some two_parts) disk in
    (numbers lines ≡ used_numbers (layout two_parts) 0 4)
    × ((j : ℕ) → extent_in (after (j + 1) lines) ≡ with_sizes 512 (layout two_parts j))
pm_print_scheme-shows_example =
    pm_print_scheme-shows two_parts disk (λ e. ground (arith, e)) two_parts-IsSound (omega arith)

-- The first two entries are in use.
shown_numbers : used_numbers (layout two_parts) 0 4 ≡ 1 ∷ 2 ∷ []
unfolding part_is_used schem_part_is_used_mbr
shown_numbers = refl

no_line : extent_in (after 3 (pm_print_mbr two_parts disk)) ≡ none
unfolding pm_print_mbr print_parts print_mbr_part part_is_used schem_part_is_used_mbr
no_line = refl

second_used : part_is_used two_parts.funcs (get_or two_parts.table 1 zero_part) ≡ true
unfolding part_is_used schem_part_is_used_mbr
second_used = refl

limit : 8191 ≤ max_lba disk
unfolding max_lba
limit = omega arith

pm_print_mbr-chs_example :
    (a : ℕ × ℕ × ℕ) × (b : ℕ × ℕ × ℕ) × (chs_in (after 2 (pm_print_mbr two_parts disk))
      ≡ some (a, b))
    × Shows disk 6144 a
    × Shows disk 8191 b
pm_print_mbr-chs_example =
    pm_print_mbr-chs disk disk-IsImgCtx (omega arith) two_parts 1 (omega arith) second_used
      (omega (arith, limit)) limit
