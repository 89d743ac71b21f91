-- ===== src/Print.antt =====
-- src/main.c, lines 57 to 176: the `pm_print` functions. What is printed is the list of the lines,
-- each with the values that `pprint` is given after its format; the indentation of the formats is left
-- out. `%llu`, `%lu` and `%02x` print their values in full.
pub mod Numbers
pub mod Listing
pub mod Chs
pub mod View
mod Tests
use Prim.Native.String.{String}
use partman.Base.{
  ℕ, ◌+◌, List, [], ◌∷◌, ◌++◌, Bool, not, Option, none, some, ◌==◌, bit_and, u64, sub64,
  if◌then◌else◌,
}
use partman.ImgCtx.{ImgCtx, lba_to_byte, byte_to_lba, lba_to_chs, chs_int_to_tuple}
use partman.Schem.{SchemType, SchemPart, Schem, parts, part_is_used}
use partman.Mbr.{schem_mbr_part_is_prot}
use partman.Guid.Text.{guid_to_str}

pub data Line : Type 0 where
  image : String → ℕ → ℕ → Line
  units : Line
  sector_size : ℕ → Line
  scheme_is : Option SchemType → Line
  disk_id : ℕ → Line
  disk_guid : List ℕ → Line
  table_size : ℕ → Line
  heading : Line
  partition : ℕ → Line
  boot : ℕ → Bool → Line
  type_id : ℕ → Line
  type_guid : List ℕ → Line
  part_guid : List ℕ → Line
  start_lba : ℕ → Line
  end_lba : ℕ → Line
  sectors : ℕ → Line
  size : ℕ → Line
  start_chs : ℕ × ℕ × ℕ → Line
  end_chs : ℕ × ℕ × ℕ → Line

-- `part_sz`
unfoldable pub part_sz : SchemPart → ℕ
part_sz part = u64 (sub64 part.end_lba part.start_lba + 1)

-- the body of the loop of `pm_print_mbr`
unfoldable pub print_mbr_part : ImgCtx → ℕ → SchemPart → List Line
print_mbr_part img_ctx i part =
    let part_is_boot = not (bit_and part.boot_ind 0x80 == 0) in
    let part_is_prot = schem_mbr_part_is_prot part in
    partition (i + 1)
    ∷ boot part.boot_ind part_is_boot
    ∷ type_id part.type_i
    ∷ start_lba part.start_lba
    ∷ end_lba part.end_lba
    ∷ sectors (part_sz part)
    ∷ size (lba_to_byte img_ctx (part_sz part))
    ∷ start_chs (chs_int_to_tuple (lba_to_chs img_ctx part.start_lba part_is_prot))
    ∷ end_chs (chs_int_to_tuple (lba_to_chs img_ctx part.end_lba part_is_prot))
    ∷ []

-- the body of the loop of `pm_print_gpt`
unfoldable pub print_gpt_part : ImgCtx → ℕ → SchemPart → List Line
print_gpt_part img_ctx i part =
    partition (i + 1)
    ∷ part_guid (guid_to_str part.unique_guid)
    ∷ type_guid (guid_to_str part.type_guid)
    ∷ start_lba part.start_lba
    ∷ end_lba part.end_lba
    ∷ sectors (part_sz part)
    ∷ size (lba_to_byte img_ctx (part_sz part))
    ∷ []

-- The loop over the table from the entry `i` on, which skips the empty partitions.
unfoldable pub print_parts :
    (SchemPart → Bool) → (ℕ → SchemPart → List Line) → ℕ → List SchemPart → List Line
print_parts used print_part i [] = []
print_parts used print_part i (part ∷ rest) =
    let lines = print_parts used print_part (i + 1) rest in
    if not (used part) then lines else print_part i part ++ lines

unfoldable pub pm_print_mbr : Schem → ImgCtx → List Line
pm_print_mbr schem img_ctx =
    scheme_is (some SchemType.schem_type_mbr)
    ∷ disk_id schem.id_i
    ∷ table_size schem.part_cnt
    ∷ heading
    ∷ print_parts (part_is_used schem.funcs) (print_mbr_part img_ctx) 0 (parts schem)

unfoldable pub pm_print_gpt : Schem → ImgCtx → List Line
pm_print_gpt schem img_ctx =
    scheme_is (some SchemType.schem_type_gpt)
    ∷ disk_guid (guid_to_str schem.id_guid)
    ∷ table_size schem.part_cnt
    ∷ heading
    ∷ print_parts (part_is_used schem.funcs) (print_gpt_part img_ctx) 0 (parts schem)

unfoldable pub pm_print_common : ImgCtx → List Line
pm_print_common img_ctx =
    image img_ctx.img_name img_ctx.img_sz (byte_to_lba img_ctx img_ctx.img_sz Bool.false)
    ∷ units
    ∷ sector_size img_ctx.sec_sz
    ∷ []

-- the `switch` on the type
unfoldable pub print_as : SchemType → Schem → ImgCtx → List Line
print_as SchemType.schem_type_mbr schem img_ctx = pm_print_mbr schem img_ctx
print_as SchemType.schem_type_gpt schem img_ctx = pm_print_gpt schem img_ctx
print_as SchemType.schem_cnt schem img_ctx = []

-- after `pm_print_common`
unfoldable pub print_rest : Option Schem → ImgCtx → List Line
print_rest none img_ctx = scheme_is none ∷ []
print_rest (some schem) img_ctx = print_as schem.type schem img_ctx

unfoldable pub pm_print_scheme : Option Schem → ImgCtx → List Line
pm_print_scheme schem img_ctx = pm_print_common img_ctx ++ print_rest schem img_ctx
