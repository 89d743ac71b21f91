-- ===== src/Command.antt =====
-- src/main.c, `pm_part_prompt` to `pm_part_alter`: the commands on the partitions of one scheme.
-- A command takes the scheme and returns it changed; what it prints is not modelled. `none` is a
-- result that C does not define, or a search that does not end.
pub mod Layout
pub mod Prompt
pub mod Refine
pub mod Input
pub mod Defined
pub mod Overflow
pub mod Typed
pub mod Samples
mod Tests
use partman.Base.{
  ℕ, ◌+◌, ◌-◌, ◌^◌, bit_and, set, get_or, List, Bool, true, false, not, ◌&&◌, Option, none, some,
  ◌==◌, u8, if◌then◌else◌,
}
use partman.CText.{◌>>=◌}
use partman.Stdio.{Stream}
use partman.Guid.{Guid}
use partman.Scan.{ScanRes, Scanned, scan_int, scan_guid, prompt_range, prompt_sector_ext}
use partman.ImgCtx.{ImgCtx}
use partman.World.{World}
use partman.Schem.{
  SchemType, SchemPart, Schem, zero_part, part_is_used, schem_part_init_mbr, schem_part_init_gpt,
}
use partman.Find.{
  Search, found, not_found, out_of_fuel, schem_find_overlap, schem_find_part_index,
  schem_find_start_sector, schem_find_last_sector,
}

-- What a command leaves.
pub record Edited : Type 0 where
  pub schem : Schem
  pub world : World
  pub stdin : Stream

abbrev pub unchanged : Schem → World → Stream → Edited
unchanged schem w stdin = record { schem = schem; world = w; stdin = stdin }

abbrev pub is_ok : ScanRes → Bool
is_ok ScanRes.scan_ok = true
is_ok ScanRes.scan_empty = false
is_ok ScanRes.scan_eof = false
is_ok ScanRes.scan_fail = false

-- `&schem->table[i]`, read and replaced
abbrev pub get_part : Schem → ℕ → SchemPart
get_part schem i = get_or schem.table i zero_part

abbrev pub put_part : Schem → ℕ → SchemPart → Schem
put_part schem i part = record schem { table = set schem.table i part }

-- A result of type `plba_res` that is -1 is the largest sector number.
abbrev pub lba_res : ℕ → Option ℕ
lba_res lba = if lba == 2 ^ 64 - 1 then none else some lba

-- The two tests of `pm_part_prompt` on the partition that is chosen.
unfoldable pub chosen : Schem → Bool → ℕ → Option ℕ
chosen schem find_used i =
    let is_part_used = part_is_used schem.funcs (get_part schem i) in
    if find_used && not is_part_used
    then none
    else if not find_used && is_part_used
    then none
    else some i

unfoldable pub prompted : Schem → Bool → Scanned ℕ → Option ℕ × Stream
prompted schem find_used r =
    if not (is_ok r.res) then (none, r.stdin) else (chosen schem find_used (r.value - 1), r.stdin)

-- -1 is `none`.
unfoldable pub prompt_from : Schem → Bool → Option ℕ → Stream → Option ℕ × Stream
prompt_from schem find_used none stdin = (none, stdin)
prompt_from schem find_used (some def) stdin =
    prompted schem find_used (prompt_range 1 schem.part_cnt (def + 1) stdin)

unfoldable pub pm_part_prompt : Schem → Bool → Stream → Option ℕ × Stream
pm_part_prompt schem find_used stdin =
    prompt_from schem find_used (schem_find_part_index schem find_used) stdin

unfoldable pub schem_part_delete : SchemPart → SchemPart
schem_part_delete part = zero_part

unfoldable pub pm_part_delete : Schem → World → Stream → Edited
pm_part_delete schem w stdin =
    let (part_index, stdin) = pm_part_prompt schem true stdin in
    elim part_index [
      | none ↦ unchanged schem w stdin
      | some i ↦ record {
        schem = put_part schem i (schem_part_delete (get_part schem i));
        world = w;
        stdin = stdin;
      }
    ]

-- `(~boot_ind) & 0x80`, of 8 bits
unfoldable pub toggle_boot : SchemPart → SchemPart
toggle_boot part = record part { boot_ind = bit_and (0xff - part.boot_ind) 0x80 }

unfoldable pub is_mbr : SchemType → Bool
is_mbr SchemType.schem_type_mbr = true
is_mbr SchemType.schem_type_gpt = false
is_mbr SchemType.schem_cnt = false

unfoldable pub pm_part_toggle_boot : Schem → World → Stream → Edited
pm_part_toggle_boot schem w stdin =
    let (part_index, stdin') = pm_part_prompt schem true stdin in
    if not (is_mbr schem.type) then unchanged schem w stdin else elim part_index [
      | none ↦ unchanged schem w stdin'
      | some i ↦ record {
        schem = put_part schem i (toggle_boot (get_part schem i));
        world = w;
        stdin = stdin';
      }
    ]

-- from the scanned value on; `part_type & ~0xFF` are the bits above the lowest eight
unfoldable pub set_type_mbr : Schem → ℕ → Scanned ℕ → Schem
set_type_mbr schem i r =
    if not (is_ok r.res)
    then schem
    else if not (bit_and r.value (2 ^ 64 - 1 - 0xff) == 0)
    then schem
    else put_part schem i (record (get_part schem i) { type_i = u8 r.value })

unfoldable pub pm_part_change_type_mbr : Schem → ℕ → World → Stream → Edited
pm_part_change_type_mbr schem part_index w stdin =
    let r = scan_int 16 stdin in
    record { schem = set_type_mbr schem part_index r; world = w; stdin = r.stdin }

unfoldable pub set_type_gpt : Schem → ℕ → Scanned Guid → Schem
set_type_gpt schem i r =
    if not (is_ok r.res)
    then schem
    else put_part schem i (record (get_part schem i) { type_guid = r.value })

unfoldable pub pm_part_change_type_gpt : Schem → ℕ → World → Stream → Edited
pm_part_change_type_gpt schem part_index w stdin =
    let r = scan_guid stdin in
    record { schem = set_type_gpt schem part_index r; world = w; stdin = r.stdin }

unfoldable pub change_type_of : SchemType → Schem → ℕ → World → Stream → Edited
change_type_of SchemType.schem_type_mbr schem i w stdin = pm_part_change_type_mbr schem i w stdin
change_type_of SchemType.schem_type_gpt schem i w stdin = pm_part_change_type_gpt schem i w stdin
change_type_of SchemType.schem_cnt schem i w stdin = unchanged schem w stdin

unfoldable pub pm_part_change_type : Schem → World → Stream → Edited
pm_part_change_type schem w stdin =
    let (part_index, stdin) = pm_part_prompt schem true stdin in
    elim part_index [
      | none ↦ unchanged schem w stdin
      | some i ↦ change_type_of schem.type schem i w stdin
    ]

-- `schem->funcs.part_init(part)`
unfoldable pub part_init : SchemType → SchemPart → World → SchemPart × World
part_init SchemType.schem_type_mbr part w = (schem_part_init_mbr part, w)
part_init SchemType.schem_type_gpt part w =
    let (part, rng) = schem_part_init_gpt part w.rng in (part, record w { rng = rng })
part_init SchemType.schem_cnt part w = (part, w)

-- the last lines of `pm_part_alter`
unfoldable pub place_part : Schem → Bool → ℕ → ℕ → ℕ → World → Schem × World
place_part schem is_new i start_lba end_lba w =
    let (part, w) =
      if is_new then part_init schem.funcs (get_part schem i) w else (get_part schem i, w) in
    (put_part schem i (record part { start_lba = start_lba; end_lba = end_lba }), w)

-- from the last sector on
unfoldable pub alter_end : Schem → Bool → ℕ → ℕ → World → Scanned ℕ → Edited
alter_end schem is_new i start_lba w r =
    if not (is_ok r.res)
    then unchanged schem w r.stdin
    else elim (schem_find_overlap schem start_lba r.value i) [
      | some other ↦ unchanged schem w r.stdin
      | none ↦
          let (schem, w) = place_part schem is_new i start_lba r.value w in
          record { schem = schem; world = w; stdin = r.stdin }
    ]

-- from the first sector on
unfoldable pub alter_start : Schem → ImgCtx → Bool → ℕ → World → Scanned ℕ → Option Edited
alter_start schem img_ctx is_new i w r =
    if not (is_ok r.res)
    then some (unchanged schem w r.stdin)
    else elim (schem_find_last_sector schem img_ctx i r.value >>= lba_res) [
      | none ↦ some (unchanged schem w r.stdin)
      | some def_lba ↦
          prompt_sector_ext r.value schem.last_usable_lba def_lba img_ctx.sec_sz r.stdin >>= λ e.
          some (alter_end schem is_new i r.value w e)
    ]

-- from the search for a first sector on
unfoldable pub alter_found : Schem → ImgCtx → Bool → ℕ → World → Stream → Search → Option Edited
alter_found schem img_ctx is_new i w stdin out_of_fuel = none
alter_found schem img_ctx is_new i w stdin not_found = some (unchanged schem w stdin)
alter_found schem img_ctx is_new i w stdin (found lba) = elim (lba_res lba) [
  | none ↦ some (unchanged schem w stdin)
  | some def_lba ↦
      alter_start schem img_ctx is_new i w
        (prompt_range schem.first_usable_lba schem.last_usable_lba def_lba stdin)
]

unfoldable pub pm_part_alter : Schem → ImgCtx → Bool → World → Stream → Option Edited
pm_part_alter schem img_ctx is_new w stdin =
    let (part_index, stdin) = pm_part_prompt schem (not is_new) stdin in
    elim part_index [
      | none ↦ some (unchanged schem w stdin)
      | some i ↦
          alter_found schem img_ctx is_new i w stdin (schem_find_start_sector schem img_ctx i)
    ]
