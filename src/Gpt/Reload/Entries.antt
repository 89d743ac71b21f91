-- ===== src/Gpt/Reload/Entries.antt =====
-- The loops of `gpt_from_schem`, `gpt_restore` and `gpt_to_schem` on tables whose entries all have a
-- property, or agree.
use partman.Base.{
  ℕ, zero, suc, ◌+◌, ◌<◌, ◌≡◌, refl, ◌∙◌, ap, List, [], ◌∷◌, get_or, set, take, not, if◌then◌else◌,
  Bool-cases, inl, inr, arith,
}
use partman.Schem.{SchemPart, zero_part, schem_part_is_used_gpt}
use partman.Gpt.{GptPartEnt, zero_ent, copy_entries, gpt_is_part_used}
use partman.Guid.{IsGuid, zero_guid}
use partman.Gpt.Entry.{IsGptPartEnt}
use partman.Gpt.Scheme.{ent_of, ents_from_parts, part_of, parts_from_ents}

-- Every entry, and what stands for one past the end.
abbrev pub All {ℓ} : {A : Type 0} → (A → Type ℓ) → A → List A → Type ℓ
All P d xs = (k : ℕ) → P (get_or xs k d)

module _ {ℓ} {A : Type 0} (P : A → Type ℓ) (d : A) where
  pub set-All : (xs : List A) (i : ℕ) (v : A) → P v → All P d xs → All P d (set xs i v)
  set-All [] i v h all k = all k
  set-All (x ∷ xs) zero v h all zero = h
  set-All (x ∷ xs) zero v h all (suc k) = all (suc k)
  set-All (x ∷ xs) (suc i) v h all zero = all zero
  set-All (x ∷ xs) (suc i) v h all (suc k) = set-All xs i v h (λ j. all (suc j)) k

  pub take-All : (n : ℕ) (xs : List A) → P d → All P d xs → All P d (take n xs)
  take-All zero xs h all k = h
  take-All (suc n) [] h all k = all k
  take-All (suc n) (x ∷ xs) h all zero = all zero
  take-All (suc n) (x ∷ xs) h all (suc k) = take-All n xs h (λ j. all (suc j)) k

module _ {ℓ} (P : GptPartEnt → Type ℓ) where
  pub ents_from_parts-All :
      (i : ℕ) (ps : List SchemPart) (t : List GptPartEnt)
      → All (λ (p : SchemPart). P (ent_of p)) zero_part ps
      → All P zero_ent t
      → All P zero_ent (ents_from_parts i ps t)
  unfolding ents_from_parts
  ents_from_parts-All i [] t hs ht = ht
  ents_from_parts-All i (p ∷ ps) t hs ht = elim (Bool-cases (schem_part_is_used_gpt p)) [
    | inr e ↦ rw e (ents_from_parts-All (i + 1) ps t (λ k. hs (suc k)) ht)
    | inl e ↦ rw e (
        ents_from_parts-All (i + 1) ps (set t i (ent_of p)) (λ k. hs (suc k))
          (set-All P zero_ent t i (ent_of p) (hs 0) ht))
  ]

  pub copy_entries-All :
      (left i : ℕ) (dst src : List GptPartEnt)
      → All P zero_ent dst
      → All P zero_ent src
      → All P zero_ent (copy_entries left i dst src)
  unfolding copy_entries
  copy_entries-All zero i dst src hd hs = hd
  copy_entries-All (suc left) i dst src hd hs =
      copy_entries-All left (i + 1) (set dst i (get_or src i zero_ent)) src
        (set-All P zero_ent dst i (get_or src i zero_ent) (hs i) hd) hs

pub parts_from_ents_congr :
    (left i : ℕ) (ents ents' : List GptPartEnt) (t : List SchemPart)
    → ((k : ℕ) → k < i + left → get_or ents k zero_ent ≡ get_or ents' k zero_ent)
    → parts_from_ents left i ents t ≡ parts_from_ents left i ents' t
unfolding parts_from_ents
parts_from_ents_congr zero i ents ents' t same = refl
parts_from_ents_congr (suc left) i ents ents' t same =
    ap
      (λ (e : GptPartEnt).
        parts_from_ents left (i + 1) ents
          (if not (gpt_is_part_used e) then t else set t i (part_of e (get_or t i zero_part))))
      (same i (omega arith))
    ∙ parts_from_ents_congr left (i + 1) ents ents' _ (λ k l. same k (omega arith))

zero_guid-IsGuid : IsGuid zero_guid
zero_guid-IsGuid = record {
  time_lo = omega arith;
  time_mid = omega arith;
  time_hi_ver = omega arith;
  cl_seq_hi_res = omega arith;
  cl_seq_lo = omega arith;
  node_count = refl;
  node_bytes = omega arith;
}

pub zero_ent-IsGptPartEnt : IsGptPartEnt zero_ent
zero_ent-IsGptPartEnt = record {
  type_guid = zero_guid-IsGuid;
  unique_guid = zero_guid-IsGuid;
  start_lba = omega arith;
  end_lba = omega arith;
  attr = omega arith;
  name_len = refl;
}
