-- ===== src/Gpt/Table.antt =====
-- The table of a GPT on the disk: `gpt_table_write` and `gpt_table_read`, with entries of 128 bytes.
use native.Mathlib.Decide.{ℕ_discrete}
use partman.Base.{
  ℕ, zero, suc, ◌+◌, ◌*◌, ◌≤◌, ◌<◌, ◌≡◌, ◌⊎◌, refl, ◌∙◌, sym, ap, List, length, length-set, set,
  get_or, get_or-set_self, get_or-set_ne, min, u64, ltb, ◌==◌, if◌then◌else◌, Bool-cases, inl, inr,
  arith,
}
use mathlib.Core.Path.{subst}
use partman.MemUtils.{Memory, IsBytes}
use partman.Gpt.{
  GptPartEnt, zero_ent, gpt_part_ent_write, gpt_part_ent_read, write_entries, read_entries,
  gpt_table_write, gpt_table_read,
}
use partman.Gpt.Entry.{IsGptPartEnt}
use partman.Gpt.Entry.Frame.{
  stored, gpt_part_ent_write-below, gpt_part_ent_write-above, gpt_part_ent_write-IsBytes,
  gpt_part_ent_read-agrees,
}

-- Every entry of the table can be stored.
abbrev pub AreEntries : List GptPartEnt → Type 0
AreEntries table = (k : ℕ) → IsGptPartEnt (get_or table k zero_ent)

module _ (p : ℕ) (table : List GptPartEnt) (all : AreEntries table) where
  slot : ℕ → ℕ
  slot i = p + u64 (i * 128)

  slot-eq : (i : ℕ) → i < 128 → slot i ≡ p + i * 128
  unfolding slot
  slot-eq i h = omega arith

  abbrev entry_written : ℕ → Memory → Memory
  entry_written i m = gpt_part_ent_write (p + u64 (i * 128)) (get_or table i zero_ent) m

  pub write_entries-below :
      (left i : ℕ) (m : Memory) (q : ℕ)
      → i + left ≤ 128
      → q < p + i * 128
      → write_entries left i p table 128 m q ≡ m q
  unfolding write_entries
  write_entries-below zero i m q h l = refl
  write_entries-below (suc left) i m q h l =
      write_entries-below left (i + 1) (entry_written i m) q (omega arith) (omega arith)
      ∙ gpt_part_ent_write-below (p + u64 (i * 128)) (get_or table i zero_ent) m (all i) q
          (omega arith)

  pub write_entries-above :
      (left i : ℕ) (m : Memory) (q : ℕ)
      → i + left ≤ 128
      → p + (i + left) * 128 ≤ q
      → write_entries left i p table 128 m q ≡ m q
  unfolding write_entries
  write_entries-above zero i m q h l = refl
  write_entries-above (suc left) i m q h l =
      write_entries-above left (i + 1) (entry_written i m) q (omega arith) (omega arith)
      ∙ gpt_part_ent_write-above (p + u64 (i * 128)) (get_or table i zero_ent) m (all i) q
          (omega arith)

  pub write_entries-IsBytes :
      (left i : ℕ) (m : Memory) → IsBytes m → IsBytes (write_entries left i p table 128 m)
  unfolding write_entries
  write_entries-IsBytes zero i m b = b
  write_entries-IsBytes (suc left) i m b =
      write_entries-IsBytes left (i + 1) (entry_written i m)
        (gpt_part_ent_write-IsBytes (p + u64 (i * 128)) (get_or table i zero_ent) m (all i) b)

  -- Any memory that agrees with the written one on the table gives each entry back.
  read_at :
      (left i k : ℕ) (m m' : Memory)
      → IsBytes m
      → IsBytes m'
      → i + left ≤ 128
      → i ≤ k
      → k < i + left
      → ((q : ℕ)
          → p + i * 128 ≤ q
          → q < p + (i + left) * 128
          → m' q ≡ write_entries left i p table 128 m q)
      → gpt_part_ent_read (p + u64 (k * 128)) m' ≡ stored (get_or table k zero_ent)
  unfolding write_entries
  read_at zero i k m m' b b' h l u same = absurd (omega arith)
  read_at (suc left) i k m m' b b' h l u same = elim (Bool-cases (i == k)) [
    | inr e ↦
        read_at left (i + 1) k (entry_written i m) m'
          (gpt_part_ent_write-IsBytes (p + u64 (i * 128)) (get_or table i zero_ent) m (all i) b) b'
          (omega arith) (ground arith) (omega arith) (λ q a c. same q (omega arith) (omega arith))
    | inl e ↦
        let here : i ≡ k = ground arith in
        subst (λ t. gpt_part_ent_read (p + u64 (t * 128)) m' ≡ stored (get_or table t zero_ent))
          here
          (gpt_part_ent_read-agrees (p + u64 (i * 128)) (get_or table i zero_ent) m (all i) m' b b'
            (λ q a c.
              same q (omega arith) (omega arith)
              ∙ write_entries-below left (i + 1) (entry_written i m) q (omega arith) (omega arith)))
  ]

module _ (p : ℕ) (m : Memory) where
  abbrev entry_read : ℕ → List GptPartEnt → List GptPartEnt
  entry_read i dst = set dst i (gpt_part_ent_read (p + u64 (i * 128)) m)

  read_entries-other :
      (left i k : ℕ) (dst : List GptPartEnt)
      → (k < i) ⊎ (i + left ≤ k)
      → get_or (read_entries left i p dst 128 m) k zero_ent ≡ get_or dst k zero_ent
  unfolding read_entries
  read_entries-other zero i k dst h = refl
  read_entries-other (suc left) i k dst h =
      read_entries-other left (i + 1) k (entry_read i dst) (omega arith)
      ∙ get_or-set_ne dst i k _ zero_ent (λ e. omega arith)

  read_entries-get :
      (left i k : ℕ) (dst : List GptPartEnt)
      → i + left ≤ length dst
      → i ≤ k
      → k < i + left
      → get_or (read_entries left i p dst 128 m) k zero_ent
        ≡ gpt_part_ent_read (p + u64 (k * 128)) m
  unfolding read_entries
  read_entries-get zero i k dst f h l = absurd (omega arith)
  read_entries-get (suc left) i k dst f h l = elim (ℕ_discrete i k) [
    | no ne ↦
        read_entries-get left (i + 1) k (entry_read i dst) (rw length-set (omega arith))
          (omega arith) (omega arith)
    | yes e ↦
        read_entries-other left (i + 1) k (entry_read i dst) (inl (omega arith))
        ∙ subst
            (λ t. get_or (entry_read i dst) t zero_ent ≡ gpt_part_ent_read (p + u64 (t * 128)) m) e
            (get_or-set_self dst i _ zero_ent (omega arith))
  ]

module _ (p n : ℕ) (table : List GptPartEnt) (m : Memory) (all : AreEntries table)
    (short : n ≤ 128) where
  whole : gpt_table_write p table n 128 m ≡ write_entries n 0 p table 128 m
  unfolding gpt_table_write
  whole = ap (λ t. write_entries t 0 p table 128 m) few
    where
      few : min n 128 ≡ n
      few = omega arith

  pub gpt_table_write-IsBytes : IsBytes m → IsBytes (gpt_table_write p table n 128 m)
  gpt_table_write-IsBytes b = subst IsBytes (sym whole) (write_entries-IsBytes p table all n 0 m b)

  pub gpt_table_write-outside :
      (q : ℕ) → (q < p) ⊎ (p + n * 128 ≤ q) → gpt_table_write p table n 128 m q ≡ m q
  gpt_table_write-outside q (inl l) =
      ap (λ t. t q) whole ∙ write_entries-below p table all n 0 m q (omega arith) (omega arith)
  gpt_table_write-outside q (inr l) =
      ap (λ t. t q) whole ∙ write_entries-above p table all n 0 m q (omega arith) (omega arith)

module _ (p n : ℕ) (table dst : List GptPartEnt) (m m' : Memory) (all : AreEntries table)
    (b : IsBytes m) (b' : IsBytes m') (short : n ≤ 128) (room : n ≤ length dst) where
  bounded : min n 128 ≡ n
  bounded = omega arith

  -- The table is read from a memory that agrees with the written one on it.
  pub gpt_table_read-agrees :
      ((q : ℕ) → p ≤ q → q < p + n * 128 → m' q ≡ gpt_table_write p table n 128 m q)
      → (k : ℕ)
      → get_or (gpt_table_read p dst n 128 m') k zero_ent
        ≡ (if ltb k n then stored (get_or table k zero_ent) else get_or dst k zero_ent)
  unfolding gpt_table_read
  gpt_table_read-agrees same k =
      ap (λ t. get_or (read_entries t 0 p dst 128 m') k zero_ent) bounded
      ∙ elim (Bool-cases (ltb k n)) [
        | inr e ↦ rw e (read_entries-other p m' n 0 k dst (inr (ground arith)))
        | inl e ↦
            let lt : k < n = ground arith in
            rw e (
              read_entries-get p m' n 0 k dst (omega arith) (omega arith) (omega arith)
              ∙ read_at p table all n 0 k m m' b b' (omega arith) (omega arith) (omega arith)
                  (λ q l u.
                    same q (omega arith) (omega arith)
                    ∙ ap (λ t. t q) (whole p n table m all short)))
      ]
