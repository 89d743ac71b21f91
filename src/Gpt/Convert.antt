-- ===== src/Gpt/Convert.antt =====
-- A scheme, the GPT that is made of it, and the scheme that is made of that.
use partman.Base.{
  ℕ, zero, suc, ◌+◌, ◌≤◌, ◌<◌, List, [], ◌∷◌, length, take, get_or, set, replicate, length-set,
  length-take, get_or-set_self, get_or-set_ne, get_or-replicate, get_or-take, ◌≡◌, ◌⊎◌, refl, ap,
  ap₂, ◌∙◌, sym, arith, true, false, if◌then◌else◌, Bool-cases, inl, inr,
}
use mathlib.Core.Path.{subst}
use partman.ImgCtx.{ImgCtx}
use partman.Schem.{
  SchemPart, Schem, zero_part, parts, clear_table, length-clear_table, get_or-clear_table,
  schem_part_is_used_gpt,
}
use partman.Guid.{guid_is_zero}
use partman.Gpt.{
  GptHdr, GptPartEnt, Gpt, zero_ent, gpt_hdr_crc_create, hdr_crc_compute, gpt_max_part_cnt,
  gpt_is_part_used, gpt_restore, mirror,
}
use partman.Gpt.Recovery.{IsValidPair}
use partman.Gpt.Restore.{IsConsistent, copy-IsValidPair}
use partman.Gpt.Scheme.{
  ent_of, part_of, ents_from_parts, parts_from_ents, gpt_from_schem, gpt_to_schem, zero_gpt,
  gpt_calc_pos,
}

length-ents_from_parts :
    (ps : List SchemPart) (i : ℕ) (t : List GptPartEnt) → length (ents_from_parts i ps t) ≡ length t
unfolding ents_from_parts
length-ents_from_parts [] i t = refl
length-ents_from_parts (p ∷ ps) i t = elim (Bool-cases (schem_part_is_used_gpt p)) [
  | inl u ↦ rw u (length-ents_from_parts ps (i + 1) _ ∙ length-set t i (ent_of p))
  | inr u ↦ rw u (length-ents_from_parts ps (i + 1) t)
]

-- The loop of `gpt_from_schem` leaves what stands before its first index,
ents-below :
    (ps : List SchemPart) (i j : ℕ) (t : List GptPartEnt)
    → j < i
    → get_or (ents_from_parts i ps t) j zero_ent ≡ get_or t j zero_ent
unfolding ents_from_parts
ents-below [] i j t h = refl
ents-below (p ∷ ps) i j t h = elim (Bool-cases (schem_part_is_used_gpt p)) [
  | inl u ↦ rw u (
      ents-below ps (i + 1) j _ (omega arith)
      ∙ get_or-set_ne t i j (ent_of p) zero_ent (λ e. omega arith))
  | inr u ↦ rw u (ents-below ps (i + 1) j t (omega arith))
]

set_at :
    {A : Type 0} (t : List A) (i j : ℕ) (v d : A)
    → i ≡ j
    → j < length t
    → get_or (set t i v) j d ≡ v
set_at t i j v d e h = ap (λ n. get_or (set t n v) j d) e ∙ get_or-set_self t j v d h

-- and puts the entry of each used partition at its place.
ents-at :
    (ps : List SchemPart) (i k j : ℕ) (t : List GptPartEnt)
    → j ≡ i + k
    → k < length ps
    → j < length t
    → let p = get_or ps k zero_part in
      get_or (ents_from_parts i ps t) j zero_ent
      ≡ (if schem_part_is_used_gpt p then ent_of p else get_or t j zero_ent)
unfolding ents_from_parts
ents-at [] i k j t e h h' = absurd (omega arith)
ents-at (p ∷ ps) i zero j t e h h' =
    ents-below ps (i + 1) j _ (omega arith) ∙ elim (Bool-cases (schem_part_is_used_gpt p)) [
      | inl u ↦ rw u (set_at t i j (ent_of p) zero_ent (omega arith) h')
      | inr u ↦ rw u refl
    ]
ents-at (p ∷ ps) i (suc k) j t e h h' = elim (Bool-cases (schem_part_is_used_gpt p)) [
  | inl u ↦ rw u (
      ents-at ps (i + 1) k j (set t i (ent_of p)) (omega arith) (omega arith)
        (omega (arith, length-set t i (ent_of p)))
      ∙ ap
          (λ (x : GptPartEnt).
            if schem_part_is_used_gpt (get_or ps k zero_part)
            then ent_of (get_or ps k zero_part)
            else x)
          (get_or-set_ne t i j (ent_of p) zero_ent (λ x. omega arith)))
  | inr u ↦ rw u (ents-at ps (i + 1) k j t (omega arith) (omega arith) h')
]

-- The loop of `gpt_to_schem`, likewise.
parts-below :
    (left i j : ℕ) (ents : List GptPartEnt) (t : List SchemPart)
    → j < i
    → get_or (parts_from_ents left i ents t) j zero_part ≡ get_or t j zero_part
unfolding parts_from_ents
parts-below zero i j ents t h = refl
parts-below (suc left) i j ents t h =
    elim (Bool-cases (gpt_is_part_used (get_or ents i zero_ent))) [
      | inl u ↦ rw u (
          parts-below left (i + 1) j ents _ (omega arith)
          ∙ get_or-set_ne t i j _ zero_part (λ e. omega arith))
      | inr u ↦ rw u (parts-below left (i + 1) j ents t (omega arith))
    ]

split : (i j : ℕ) → i ≤ j → (i ≡ j) ⊎ (i < j)
split i j l = ground arith

-- one round at its own index
parts-here :
    (left j : ℕ) (ents : List GptPartEnt) (t : List SchemPart)
    → j < length t
    → get_or t j zero_part ≡ zero_part
    → let ent = get_or ents j zero_ent in
      get_or (parts_from_ents (suc left) j ents t) j zero_part
      ≡ (if gpt_is_part_used ent then part_of ent zero_part else zero_part)
unfolding parts_from_ents
parts-here left j ents t h z =
    parts-below left (j + 1) j ents _ (omega arith)
    ∙ elim (Bool-cases (gpt_is_part_used (get_or ents j zero_ent))) [
      | inl u ↦ rw u (get_or-set_self t j _ zero_part h ∙ ap (part_of (get_or ents j zero_ent)) z)
      | inr u ↦ rw u z
    ]

parts-at :
    (left i j : ℕ) (ents : List GptPartEnt) (t : List SchemPart)
    → i ≤ j
    → j < i + left
    → j < length t
    → get_or t j zero_part ≡ zero_part
    → let ent = get_or ents j zero_ent in
      get_or (parts_from_ents left i ents t) j zero_part
      ≡ (if gpt_is_part_used ent then part_of ent zero_part else zero_part)
unfolding parts_from_ents
parts-at zero i j ents t l h h' z = absurd (omega arith)
parts-at (suc left) i j ents t l h h' z = elim (split i j l) [
  | inl e ↦
      subst
        (λ n. get_or (parts_from_ents (suc left) n ents t) j zero_part ≡ (
          if gpt_is_part_used (get_or ents j zero_ent)
          then part_of (get_or ents j zero_ent) zero_part
          else zero_part))
        (sym e) (parts-here left j ents t h' z)
  | inr lt ↦ elim (Bool-cases (gpt_is_part_used (get_or ents i zero_ent))) [
    | inl u ↦ rw u (
        parts-at left (i + 1) j ents (set t i _) (omega arith) (omega arith)
          (omega (arith, length-set t i (part_of (get_or ents i zero_ent) (get_or t i zero_part))))
          (get_or-set_ne t i j _ zero_part (λ e. omega arith) ∙ z))
    | inr u ↦ rw u (parts-at left (i + 1) j ents t (omega arith) (omega arith) h' z)
  ]
]

-- What a GPT keeps of an entry.
abbrev pub kept_by_gpt : SchemPart → SchemPart
kept_by_gpt part =
    if schem_part_is_used_gpt part
    then record zero_part {
      type_guid = part.type_guid;
      unique_guid = part.unique_guid;
      start_lba = part.start_lba;
      end_lba = part.end_lba;
      attr = part.attr;
      name = part.name;
    }
    else zero_part

unused_zero_ent : gpt_is_part_used zero_ent ≡ false
unfolding gpt_is_part_used guid_is_zero
unused_zero_ent = refl

used_ent_of : (p : SchemPart) → schem_part_is_used_gpt p ≡ true → gpt_is_part_used (ent_of p) ≡ true
unfolding schem_part_is_used_gpt gpt_is_part_used ent_of
used_ent_of p u = u

-- One entry there and back.
part_of-ent_of :
    (p : SchemPart)
    → let ent = if schem_part_is_used_gpt p then ent_of p else zero_ent in
      (if gpt_is_part_used ent then part_of ent zero_part else zero_part) ≡ kept_by_gpt p
unfolding part_of ent_of
part_of-ent_of p = elim (Bool-cases (schem_part_is_used_gpt p)) [
  | inl u ↦ rw (u, used_ent_of p u) refl
  | inr u ↦ rw (u, unused_zero_ent) refl
]

-- The GPT that is made of a scheme with at most 128 entries has right checksums in both copies, the secondary
-- header stands where the primary one says, and both tables hold the same entries.
pub gpt_from_schem-IsConsistent :
    (schem : Schem) (ctx : ImgCtx)
    → schem.part_cnt ≤ gpt_max_part_cnt
    → let gpt : Gpt = gpt_from_schem schem zero_gpt ctx in
      IsConsistent gpt × (take schem.part_cnt gpt.table_sec ≡ take schem.part_cnt gpt.table_prim)
unfolding gpt_from_schem gpt_restore mirror gpt_hdr_crc_create hdr_crc_compute
gpt_from_schem-IsConsistent schem ctx h =
    let copy =
      copy-IsValidPair hdr table (replicate 128 zero_ent) (gpt_calc_pos ctx).table_lba_sec valid
        refl in
    (record { prim = valid; sec = copy.0; linked = refl }, copy.1)
  where
    table : List GptPartEnt
    table = ents_from_parts 0 (parts schem) (replicate 128 zero_ent)

    hdr : GptHdr
    hdr = (gpt_from_schem schem zero_gpt ctx).hdr_prim

    valid : IsValidPair hdr table
    valid = record {
      hdr_crc = refl;
      table_crc = refl;
      count = h;
      size = length-ents_from_parts (parts schem) 0 (replicate 128 zero_ent);
    }

-- The scheme that is made of the GPT of a scheme with at most 128 entries has its identifier, its
-- usable sectors and its number of entries, and each entry as it was, up to what a GPT does not
-- hold: an unused entry is cleared, and a used one loses the members for the MBR.
pub gpt_to_schem-gpt_from_schem :
    (schem into : Schem) (ctx : ImgCtx) (i : ℕ)
    → schem.part_cnt ≤ gpt_max_part_cnt
    → schem.part_cnt ≤ length schem.table
    → schem.part_cnt ≤ length into.table
    → i < schem.part_cnt
    → let back : Schem = gpt_to_schem into (gpt_from_schem schem zero_gpt ctx) in
      (back.id_guid ≡ schem.id_guid)
      × (back.first_usable_lba ≡ schem.first_usable_lba)
      × (back.last_usable_lba ≡ schem.last_usable_lba)
      × (back.part_cnt ≡ schem.part_cnt)
      × (get_or back.table i zero_part ≡ kept_by_gpt (get_or schem.table i zero_part))
unfolding gpt_to_schem gpt_from_schem gpt_restore
gpt_to_schem-gpt_from_schem schem into ctx i h1 h2 h3 hi =
    (refl, refl, refl, refl, through ∙ ap (λ ent. part_back ent) entry ∙ part_of-ent_of p)
  where
    p : SchemPart
    p = get_or schem.table i zero_part

    ents : List GptPartEnt
    ents = ents_from_parts 0 (parts schem) (replicate 128 zero_ent)

    part_back : GptPartEnt → SchemPart
    part_back ent = (if gpt_is_part_used ent then part_of ent zero_part else zero_part)

    through :
        get_or
          (parts_from_ents schem.part_cnt 0 ents (clear_table schem.part_cnt into.table))
          i
          zero_part
        ≡ part_back (get_or ents i zero_ent)
    through =
        parts-at schem.part_cnt 0 i ents (clear_table schem.part_cnt into.table) (omega arith)
          (omega arith) (omega (arith, length-clear_table schem.part_cnt into.table))
          (get_or-clear_table schem.part_cnt i into.table hi)

    entry : get_or ents i zero_ent ≡ (if schem_part_is_used_gpt p then ent_of p else zero_ent)
    entry =
        ents-at (parts schem) 0 i i (replicate 128 zero_ent) (omega arith)
          (omega (arith, length-take schem.part_cnt schem.table h2)) (omega arith)
        ∙ ap₂ (λ (q : SchemPart) (d : GptPartEnt). if schem_part_is_used_gpt q then ent_of q else d)
            (get_or-take schem.part_cnt i schem.table zero_part hi)
            (get_or-replicate 128 i zero_ent)
