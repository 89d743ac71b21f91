-- ===== src/Find/Tests.antt =====
-- The searches on a disk with two partitions.
use partman.Base.{
  ℕ, ◌+◌, ◌^◌, ◌≤◌, ◌<◌, ◌≡◌, refl, false, some, none, true, arith, ◌⊎◌, inl, inr, ◌↔◌, ◌≢◌,
  get_elem?,
}
use partman.Examples.{disk, two_parts}
use partman.Schem.{SchemPart, parts, part_is_used, schem_part_is_used_mbr}
use partman.Find.{
  found, schem_find_start_sector, schem_find_last_sector, schem_find_overlap, schem_find_part_index,
  index_from, overlap_from, occupant_from, start_loop, bound_from, lower_bound, test_end,
}
use partman.ImgCtx.{lba_align}
use partman.Find.Clear.{IsClear}
use partman.Find.Start.{IsBounded, Outcome, schem_find_start_sector-Outcome}
use partman.Find.Last.{NoneStarts, schem_find_last_sector_lem}
use partman.Find.Overlap.{schem_find_overlap_lem}

-- no partition is left out
abbrev none_ign : ℕ
none_ign = 4

first_free : schem_find_start_sector two_parts disk none_ign ≡ found 4096
unfolding schem_find_start_sector start_loop occupant_from part_is_used schem_part_is_used_mbr
    lba_align
first_free = refl

last_free : schem_find_last_sector two_parts disk none_ign 4096 ≡ some 6143
unfolding schem_find_last_sector bound_from lower_bound test_end schem_find_overlap overlap_from
    part_is_used schem_part_is_used_mbr lba_align
last_free = refl

overlaps : schem_find_overlap two_parts 4000 6000 none_ign ≡ some 0
unfolding schem_find_overlap overlap_from part_is_used schem_part_is_used_mbr
overlaps = refl

ends :
    (part : SchemPart) (x ign : ℕ)
    → occupant_from (part_is_used two_parts.funcs) x ign 0 (parts two_parts) ≡ some part
    → part.end_lba + 1 < 2 ^ 64
unfolding occupant_from part_is_used schem_part_is_used_mbr
ends part x ign h = ground arith

bounded : IsBounded two_parts disk
bounded = record { ends = ends; align_pos = omega arith; aligns = omega arith }

schem_find_start_sector-Outcome_example :
    Outcome two_parts disk none_ign bounded (schem_find_start_sector two_parts disk none_ign)
schem_find_start_sector-Outcome_example =
    schem_find_start_sector-Outcome two_parts disk none_ign bounded (omega arith)

IsClear-4096 : (s e : ℕ) → 4096 ≤ s → e ≤ 6143 → IsClear two_parts none_ign s e
IsClear-4096 s e h h' = (
  λ ne u. inr (omega arith),
  (λ ne u. inl (omega arith), (λ ne u. inr (omega arith), (λ ne u. inr (omega arith), tt))),
)

schem_find_last_sector_lem_example :
    (e : ℕ) × (schem_find_last_sector two_parts disk none_ign 4096 ≡ some e)
    × (4096 ≤ e)
    × (e ≤ 8191)
    × ((x : ℕ) → x < e → IsClear two_parts none_ign 4096 x)
    × ((x : ℕ)
        → x ≤ 8191
        → NoneStarts (part_is_used two_parts.funcs) 4096 none_ign x 0 (parts two_parts)
        → x ≤ e + 2048)
    × (IsClear two_parts none_ign 4096 e
        ⊎ ((k : ℕ) × (part : SchemPart) × (get_elem? (parts two_parts) k ≡ some part)
            × (part_is_used two_parts.funcs part ≡ true)
            × (part.start_lba ≡ e)
            × ((e ≡ 8191)
                ⊎ ((k' : ℕ) × (next : SchemPart) × (get_elem? (parts two_parts) k' ≡ some next)
                    × (k' ≢ none_ign)
                    × (part_is_used two_parts.funcs next ≡ true)
                    × (e + 1 ≡ next.start_lba)))))
schem_find_last_sector_lem_example =
    schem_find_last_sector_lem two_parts disk none_ign 4096 (omega arith) (omega arith)
      (omega arith) (IsClear-4096 4096 4096 (omega arith) (omega arith))

schem_find_overlap_lem_example :
    ((schem_find_overlap two_parts 4000 6000 none_ign ≡ none)
      ↔ IsClear two_parts none_ign 4000 6000)
    × ((j : ℕ)
        → schem_find_overlap two_parts 4000 6000 none_ign ≡ some j
        → (part : SchemPart) × (get_elem? (parts two_parts) j ≡ some part)
          × (j ≢ none_ign)
          × (part_is_used two_parts.funcs part ≡ true)
          × (part.start_lba ≤ 6000)
          × (4000 ≤ part.end_lba))
schem_find_overlap_lem_example =
    schem_find_overlap_lem two_parts 4000 6000 none_ign (omega arith)
      ((λ u. omega arith), ((λ u. omega arith), ((λ u. omega arith), ((λ u. omega arith), tt))))

first_unused : schem_find_part_index two_parts false ≡ some 2
unfolding schem_find_part_index index_from part_is_used schem_part_is_used_mbr
first_unused = refl
