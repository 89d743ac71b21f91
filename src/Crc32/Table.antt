-- ===== src/Crc32/Table.antt =====
-- The table that `crc32_init_table` fills in holds, at each index, that index after eight single
-- bits of the reference.
use partman.Base.{
  ℕ, zero, suc, ◌+◌, ◌<◌, Bool, true, ◌&&◌, List, [], ◌∷◌, length, get_or, ◌≡◌, refl, ◌⊎◌, inl, inr,
  arith, ◌==◌, if◌then◌else◌,
}
use partman.Crc32.{crc32_init_table, zero_table}
use partman.Crc32.Reference.{shift_bits}

matches : ℕ → List ℕ → Bool
matches k [] = true
matches k (x ∷ xs) = (x == shift_bits 8 k) && matches (k + 1) xs

matches-get_or :
    (k : ℕ) (xs : List ℕ) (j : ℕ)
    → matches k xs ≡ true
    → j < length xs
    → get_or xs j 0 ≡ shift_bits 8 (k + j)
unfolding matches
matches-get_or k [] j h lt = absurd (omega arith)
matches-get_or k (x ∷ xs) zero h lt = ground arith
matches-get_or k (x ∷ xs) (suc j) h lt = ground (arith, matches-get_or (k + 1) xs j)

pub full_table : List ℕ
full_table = crc32_init_table zero_table

all_match : matches 0 full_table ≡ true
unfolding matches full_table crc32_init_table shift_bits
all_match = refl

length-full_table : length full_table ≡ 256
unfolding full_table crc32_init_table
length-full_table = refl

pub get_or-full_table : (j : ℕ) → j < 256 → get_or full_table j 0 ≡ shift_bits 8 j
get_or-full_table j h = ground (arith, matches-get_or 0 full_table j all_match, length-full_table)

-- What the static table can be: untouched, or filled in.
abbrev pub IsTable : List ℕ → Type 0
IsTable t = (t ≡ zero_table) ⊎ (t ≡ full_table)

-- The table that a byte is looked up in, whichever state the static one was in.
abbrev pub ready : List ℕ → List ℕ
ready t = if get_or t 255 0 == 0 then crc32_init_table t else t

last-full_table : (get_or full_table 255 0 == 0) ≡ Bool.false
unfolding full_table crc32_init_table
last-full_table = refl

pub ready-eq : (t : List ℕ) → IsTable t → ready t ≡ full_table
unfolding full_table
ready-eq t (inl e) = rw e
ready-eq t (inr e) = rw (e, last-full_table)
