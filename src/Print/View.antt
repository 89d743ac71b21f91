-- ===== src/Print/View.antt =====
-- Reading a listing: the lines after the number of an entry, and the values in them.
use mathlib.Core.Path.{subst}
use partman.Base.{
  ℕ, zero, suc, ◌+◌, ◌≤◌, ◌≡◌, refl, List, [], ◌∷◌, ◌++◌, Bool, true, false, Option, none, some,
  get_or, ◌==◌, if◌then◌else◌, Bool-cases, inl, inr, arith,
}
use partman.Guid.{Guid}
use partman.Guid.Text.{str_to_guid}
use partman.CText.{◌>>=◌}
use partman.Schem.{SchemPart, zero_part}
use partman.Print.{Line, print_parts}

abbrev pub is_number : ℕ → Line → Bool
is_number n (Line.partition k) = k == n
is_number n _ = false

-- The numbers of the entries that are listed.
abbrev pub numbers : List Line → List ℕ
numbers [] = []
numbers (Line.partition n ∷ ls) = n ∷ numbers ls
numbers (l ∷ ls) = numbers ls

-- What follows the line with the number of the entry `n`, which counts from 1.
abbrev pub after : ℕ → List Line → List Line
after n [] = []
after n (l ∷ ls) = let rest = after n ls in if is_number n l then ls else rest

-- The first line of its kind.
abbrev pub first {ℓ} : {A : Type ℓ} → (Line → Option A) → List Line → Option A
first get [] = none
first get (l ∷ ls) = let rest = first get ls in elim (get l) [ none ↦ rest | some a ↦ some a ]

abbrev pub start_of : Line → Option ℕ
start_of (Line.start_lba n) = some n
start_of _ = none

abbrev pub end_of : Line → Option ℕ
end_of (Line.end_lba n) = some n
end_of _ = none

abbrev pub sectors_of : Line → Option ℕ
sectors_of (Line.sectors n) = some n
sectors_of _ = none

abbrev pub size_of : Line → Option ℕ
size_of (Line.size n) = some n
size_of _ = none

abbrev pub part_guid_of : Line → Option (List ℕ)
part_guid_of (Line.part_guid s) = some s
part_guid_of _ = none

abbrev pub type_guid_of : Line → Option (List ℕ)
type_guid_of (Line.type_guid s) = some s
type_guid_of _ = none

-- The first and the last sector, their number and the size in bytes.
abbrev pub extent_in : List Line → Option (ℕ × ℕ × ℕ × ℕ)
extent_in ls = first start_of ls >>= λ a. first end_of ls >>= λ b.
    first sectors_of ls >>= λ n. first size_of ls >>= λ sz. some (a, b, n, sz)

abbrev pub texts_in : List Line → Option (List ℕ × List ℕ)
texts_in ls = first part_guid_of ls >>= λ u. first type_guid_of ls >>= λ t. some (u, t)

abbrev pub read_both : List ℕ × List ℕ → Option (Guid × Guid)
read_both (u, t) = str_to_guid u >>= λ unique. str_to_guid t >>= λ type. some (unique, type)

-- The two GUIDs of an entry, read from their texts by `str_to_guid`.
abbrev pub guids_in : List Line → Option (Guid × Guid)
guids_in ls = texts_in ls >>= read_both

abbrev pub start_chs_of : Line → Option (ℕ × ℕ × ℕ)
start_chs_of (Line.start_chs t) = some t
start_chs_of _ = none

abbrev pub end_chs_of : Line → Option (ℕ × ℕ × ℕ)
end_chs_of (Line.end_chs t) = some t
end_chs_of _ = none

-- The two addresses as cylinder, head and sector.
abbrev pub chs_in : List Line → Option ((ℕ × ℕ × ℕ) × (ℕ × ℕ × ℕ))
chs_in ls = first start_chs_of ls >>= λ a. first end_chs_of ls >>= λ b. some (a, b)

-- The entries are found by their numbers: the one at `k` where it is in use, no other.
module _ {ℓ} {A : Type ℓ} (used : SchemPart → Bool) (print_part : ℕ → SchemPart → List Line)
    (body : SchemPart → List Line) (read : List Line → Option A) (value : SchemPart → A)
    (shape : (i : ℕ) (p : SchemPart) → print_part i p ≡ Line.partition (i + 1) ∷ body p)
    (skips : (n : ℕ) (p : SchemPart) (rest : List Line) → after n (body p ++ rest) ≡ after n rest)
    (reads : (p : SchemPart) (rest : List Line)
      → used p ≡ true
      → read (body p ++ rest) ≡ some (value p))
    (nothing : read [] ≡ none) (unused : used zero_part ≡ false) where
  after-below :
      (i n : ℕ) (ps : List SchemPart) → n ≤ i → after n (print_parts used print_part i ps) ≡ []
  unfolding print_parts
  after-below i n [] h = refl
  after-below i n (p ∷ ps) h = elim (Bool-cases (used p)) [
    | inr e ↦ rw e (after-below (i + 1) n ps (omega arith))
    | inl e ↦
        let other : (i + 1 == n) ≡ false = ground arith in
        rw (e, shape i p, other, skips n p _) (after-below (i + 1) n ps (omega arith))
  ]

  read-print_parts :
      (i k : ℕ) (ps : List SchemPart)
      → read (after (i + k + 1) (print_parts used print_part i ps))
        ≡ (if used (get_or ps k zero_part) then some (value (get_or ps k zero_part)) else none)
  unfolding print_parts
  read-print_parts i k [] = rw (unused, nothing) refl
  read-print_parts i zero (p ∷ ps) = elim (Bool-cases (used p)) [
    | inr e ↦ rw (e, after-below (i + 1) (i + 0 + 1) ps (omega arith), nothing) refl
    | inl e ↦
        let same : (i + 1 == i + 0 + 1) ≡ true = ground arith in rw (e, shape i p, same, reads) refl
  ]
  read-print_parts i (suc k) (p ∷ ps) =
      let later = read-print_parts (i + 1) k ps in
      let number : i + suc k + 1 ≡ i + 1 + k + 1 = omega arith in
      elim (Bool-cases (used p)) [
        | inr e ↦ rw (e, number) later
        | inl e ↦
            let other : (i + 1 == i + 1 + k + 1) ≡ false = ground arith in
            rw (e, number, shape i p, other, skips (i + 1 + k + 1) p _) later
      ]

  -- What is read after the number of an entry.
  pub read-listed :
      (k : ℕ) (ps : List SchemPart)
      → read (after (k + 1) (print_parts used print_part 0 ps))
        ≡ (if used (get_or ps k zero_part) then some (value (get_or ps k zero_part)) else none)
  read-listed k ps =
      subst
        (λ n.
          read (after n (print_parts used print_part 0 ps))
          ≡ (if used (get_or ps k zero_part) then some (value (get_or ps k zero_part)) else none))
        (omega arith) (read-print_parts 0 k ps)
