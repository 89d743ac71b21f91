-- ===== src/Schem.antt =====
-- libs/libpartman/include/schem.h: the partitioning scheme in memory, with the functions of mbr.c
-- and gpt.c on one partition entry that the schemes are given as function pointers.
-- A union is a field for each of its members: no code reads one member after writing the other.
-- The table is the allocated array; a loop `for(i = 0; i < part_cnt; i++)` over it is a recursion
-- over `parts`.
use native.Mathlib.Omega.{arith}
use partman.Base.{
  ◌<◌, get_or, ℕ, zero, suc, List, [], ◌∷◌, take, replicate, Bool, not, ◌==◌, length, ◌≡◌, refl, ap,
}
use partman.Guid.{Guid, zero_guid, guid_is_zero, guid_create}
use partman.Rand.{Rng}

pub data SchemType : Type 0 where
  schem_type_mbr schem_type_gpt schem_cnt : SchemType

pub data SchemLoadRes : Type 0 where
  schem_load_ok schem_load_not_found schem_load_fatal : SchemLoadRes

pub record SchemPart : Type 0 where
  pub type_i : ℕ
  pub type_guid : Guid
  pub unique_guid : Guid
  pub start_lba : ℕ
  pub end_lba : ℕ
  pub attr : ℕ
  pub name : List ℕ
  pub boot_ind : ℕ

-- `funcs` says whose functions the pointers hold.
pub record Schem : Type 0 where
  pub type : SchemType
  pub id_i : ℕ
  pub id_guid : Guid
  pub first_usable_lba : ℕ
  pub last_usable_lba : ℕ
  pub part_cnt : ℕ
  pub table : List SchemPart
  pub funcs : SchemType

-- `memset(part, 0, sizeof(*part))`, which is `schem_part_delete` too
abbrev pub zero_part : SchemPart
zero_part = record {
  type_i = 0;
  type_guid = zero_guid;
  unique_guid = zero_guid;
  start_lba = 0;
  end_lba = 0;
  attr = 0;
  name = replicate 36 0;
  boot_ind = 0;
}

-- `memset(schem->table, 0, sizeof(*schem->table) * cnt)`
abbrev pub clear_table : ℕ → List SchemPart → List SchemPart
clear_table zero table = table
clear_table (suc cnt) [] = []
clear_table (suc cnt) (part ∷ rest) = zero_part ∷ clear_table cnt rest

pub length-clear_table : (n : ℕ) (t : List SchemPart) → length (clear_table n t) ≡ length t
length-clear_table zero t = refl
length-clear_table (suc n) [] = refl
length-clear_table (suc n) (x ∷ t) = ap suc (length-clear_table n t)

pub get_or-clear_table :
    (n j : ℕ) (t : List SchemPart) → j < n → get_or (clear_table n t) j zero_part ≡ zero_part
get_or-clear_table zero j t h = absurd (omega arith)
get_or-clear_table (suc n) j [] h = refl
get_or-clear_table (suc n) zero (x ∷ t) h = refl
get_or-clear_table (suc n) (suc j) (x ∷ t) h = get_or-clear_table n j t (omega arith)

abbrev pub parts : Schem → List SchemPart
parts schem = take schem.part_cnt schem.table

-- `mbr_part_type_def`
abbrev pub mbr_part_type_def : ℕ
mbr_part_type_def = 0x83

abbrev pub gpt_part_type_def : Guid
gpt_part_type_def = record {
  time_lo = 0x0FC63DAF;
  time_mid = 0x8483;
  time_hi_ver = 0x4772;
  cl_seq_hi_res = 0x8E;
  cl_seq_lo = 0x79;
  nodes = 0x3D ∷ 0x69 ∷ 0xD8 ∷ 0x47 ∷ 0x7D ∷ 0xE4 ∷ [];
}

unfoldable pub schem_part_is_used_mbr : SchemPart → Bool
schem_part_is_used_mbr part = not (part.type_i == 0)

unfoldable pub schem_part_is_used_gpt : SchemPart → Bool
schem_part_is_used_gpt part = not (guid_is_zero part.type_guid)

unfoldable pub schem_part_init_mbr : SchemPart → SchemPart
schem_part_init_mbr part = record zero_part { type_i = mbr_part_type_def }

unfoldable pub schem_part_init_gpt : SchemPart → Rng → SchemPart × Rng
schem_part_init_gpt part r =
    let (guid, r) = guid_create r in
    (record zero_part { unique_guid = guid; type_guid = gpt_part_type_def }, r)

-- `schem->funcs.part_is_used(part)`. The pointers of a scheme are mapped for one of the two types.
unfoldable pub part_is_used : SchemType → SchemPart → Bool
part_is_used SchemType.schem_type_mbr part = schem_part_is_used_mbr part
part_is_used SchemType.schem_type_gpt part = schem_part_is_used_gpt part
part_is_used SchemType.schem_cnt part = Bool.false
