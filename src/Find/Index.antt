-- ===== src/Find/Index.antt =====
-- `schem_find_part_index` finds the first used, or the first unused, entry.
use partman.Base.{
  ℕ, zero, suc, ◌+◌, List, [], ◌∷◌, Option, none, some, Bool, true, false, not, get_elem?, ◌≡◌,
  refl, arith, Bool-cases, inl, inr, if◌then◌else◌, sym,
}
use partman.Schem.{SchemPart, Schem, parts, part_is_used}
use partman.Find.{index_from, schem_find_part_index}

is_wanted : (a b : Bool) → (if a then b else not b) ≡ true → a ≡ b
is_wanted true b h = sym h
is_wanted false true h = h
is_wanted false false h = refl

is_unwanted : (a b : Bool) → (if a then b else not b) ≡ false → a ≡ not b
is_unwanted true true h = h
is_unwanted true false h = refl
is_unwanted false true h = refl
is_unwanted false false h = sym h

module _ (used : SchemPart → Bool) (wanted : Bool) where
  -- No entry before `k` is as wanted.
  abbrev pub NoneBefore : ℕ → List SchemPart → Type 0
  NoneBefore zero ps = Unit
  NoneBefore (suc k) [] = Unit
  NoneBefore (suc k) (part ∷ rest) = (used part ≡ not wanted) × NoneBefore k rest

  -- No entry is.
  abbrev pub NoneAtAll : List SchemPart → Type 0
  NoneAtAll [] = Unit
  NoneAtAll (part ∷ rest) = (used part ≡ not wanted) × NoneAtAll rest

  -- What a result of the loop from index `i` on says.
  abbrev pub IndexOutcome : ℕ → List SchemPart → Option ℕ → Type 0
  IndexOutcome i ps none = NoneAtAll ps
  IndexOutcome i ps (some j) =
      (k : ℕ) × (part : SchemPart) × (j ≡ i + k)
      × (get_elem? ps k ≡ some part)
      × (used part ≡ wanted)
      × NoneBefore k ps

  later :
      (i : ℕ) (part : SchemPart) (rest : List SchemPart) (r : Option ℕ)
      → used part ≡ not wanted
      → IndexOutcome (i + 1) rest r
      → IndexOutcome i (part ∷ rest) r
  later i part rest none u o = (u, o)
  later i part rest (some j) u (k, p, at, get, is, before) =
      (suc k, p, omega arith, get, is, (u, before))

  index_from-IndexOutcome :
      (i : ℕ) (ps : List SchemPart) → IndexOutcome i ps (index_from used wanted i ps)
  unfolding index_from
  index_from-IndexOutcome i [] = tt
  index_from-IndexOutcome i (part ∷ rest) =
      elim (Bool-cases (if used part then wanted else not wanted)) [
        | inl e ↦ rw e (0, part, omega arith, refl, is_wanted (used part) wanted e, tt)
        | inr e ↦ rw e (
            later i part rest (index_from used wanted (i + 1) rest)
              (is_unwanted (used part) wanted e) (index_from-IndexOutcome (i + 1) rest))
      ]

-- The search for an entry that is used, or for one that is not: the index that is returned is that of
-- such an entry, and no entry before it is one; -1 is returned only where no entry is.
pub schem_find_part_index-IndexOutcome :
    (schem : Schem) (part_used : Bool)
    → IndexOutcome
        (part_is_used schem.funcs)
        part_used
        0
        (parts schem)
        (schem_find_part_index schem part_used)
unfolding schem_find_part_index
schem_find_part_index-IndexOutcome schem part_used =
    index_from-IndexOutcome (part_is_used schem.funcs) part_used 0 (parts schem)
