-- ===== src/Options.antt =====
-- src/options.c: the command line. `getopt_long` is outside the repository: the options that it
-- returns before its -1, each with its argument, are a list, and `optind` is what it leaves there.
-- The build is one without DEBUG. The messages are not modelled. `opts_overflow` tells where the
-- conversion of an argument is undefined; what `opts_parse` returns is meant where it is not.
pub mod Fields
mod Tests
use Prim.Native.String.{String}
use partman.Base.{
  ℕ, ◌+◌, ◌-◌, ◌^◌, bit_and, List, [], ◌∷◌, Bool, true, false, not, ◌&&◌, ◌||◌, Option, none, some,
  ◌==◌, u8, get_or, if◌then◌else◌,
}
use partman.CText.{◌>>=◌, sscanf_number, sscanf_overflows}
use partman.Log.{LogLevel}

pub record PartmanOpts : Type 0 where
  pub log_level : LogLevel
  pub img_name : String
  pub sec_sz : ℕ
  pub img_sz : ℕ
  pub align : ℕ
  pub hpc : ℕ
  pub spt : ℕ

-- `strcmp(a, b) == 0`
unfoldable pub str_eq : List ℕ → List ℕ → Bool
str_eq [] [] = true
str_eq [] (b ∷ t) = false
str_eq (a ∷ s) [] = false
str_eq (a ∷ s) (b ∷ t) = a == b && str_eq s t

-- "DEBUG", "INFO", "WARN" and "ERROR"
abbrev pub log_str_dbg : List ℕ
log_str_dbg = b'D' ∷ b'E' ∷ b'B' ∷ b'U' ∷ b'G' ∷ []

abbrev pub log_str_info : List ℕ
log_str_info = b'I' ∷ b'N' ∷ b'F' ∷ b'O' ∷ []

abbrev pub log_str_warn : List ℕ
log_str_warn = b'W' ∷ b'A' ∷ b'R' ∷ b'N' ∷ []

abbrev pub log_str_err : List ℕ
log_str_err = b'E' ∷ b'R' ∷ b'R' ∷ b'O' ∷ b'R' ∷ []

unfoldable pub opts_parse_log_level : List ℕ → Option LogLevel
opts_parse_log_level arg =
    if str_eq arg log_str_dbg
    then some LogLevel.log_debug
    else if str_eq arg log_str_info
    then some LogLevel.log_info
    else if str_eq arg log_str_warn
    then some LogLevel.log_warn
    else if str_eq arg log_str_err
    then some LogLevel.log_error
    else none

-- `i & ~0xFF` are the bits above the lowest eight.
unfoldable pub opts_parse_pu8 : List ℕ → Option ℕ
opts_parse_pu8 arg = sscanf_number 10 arg >>= λ i.
    if not (bit_and i (2 ^ 64 - 1 - 0xff) == 0) then none else some (u8 i)

unfoldable pub opts_parse_pu64 : List ℕ → Option ℕ
opts_parse_pu64 arg = sscanf_number 10 arg

unfoldable pub opts_init_default : PartmanOpts
opts_init_default = record {
  log_level = LogLevel.log_info;
  img_name = "";
  sec_sz = 0;
  img_sz = 0;
  align = 0;
  hpc = 0;
  spt = 0;
}

-- one round of the loop
unfoldable pub parse_opt : ℕ → List ℕ → PartmanOpts → Option PartmanOpts
parse_opt c optarg opts =
    if c == b'L'
    then opts_parse_log_level optarg >>= (λ v. some (record opts { log_level = v }))
    else if c == b'b'
    then opts_parse_pu64 optarg >>= (λ v. some (record opts { sec_sz = v }))
    else if c == b'm'
    then opts_parse_pu64 optarg >>= (λ v. some (record opts { img_sz = v }))
    else if c == b'a'
    then opts_parse_pu64 optarg >>= (λ v. some (record opts { align = v }))
    else if c == b'H'
    then opts_parse_pu8 optarg >>= (λ v. some (record opts { hpc = v }))
    else if c == b'S'
    then opts_parse_pu8 optarg >>= (λ v. some (record opts { spt = v }))
    else none

unfoldable pub parse_opts : List (ℕ × List ℕ) → PartmanOpts → Option PartmanOpts
parse_opts [] opts = some opts
parse_opts ((c, optarg) ∷ rest) opts = parse_opt c optarg opts >>= parse_opts rest

-- The option is a number, of more than 64 bits.
unfoldable pub opt_overflows : ℕ → List ℕ → Bool
opt_overflows c optarg =
    (c == b'b' || c == b'm' || c == b'a' || c == b'H' || c == b'S') && sscanf_overflows 10 optarg

-- So is one of those up to the first that is refused.
unfoldable pub opts_overflow : List (ℕ × List ℕ) → PartmanOpts → Bool
opts_overflow [] opts = false
opts_overflow ((c, optarg) ∷ rest) opts =
    opt_overflows c optarg
    || elim (parse_opt c optarg opts) [ none ↦ false | some opts ↦ opts_overflow rest opts ]

-- `none` is `pres_fail`; `argc` is the length of `argv`.
unfoldable pub opts_parse : ℕ → List String → List (ℕ × List ℕ) → ℕ → Option PartmanOpts
opts_parse argc argv given optind =
    if argc == 0
    then none
    else parse_opts given opts_init_default >>= λ opts.
        if not (optind + 1 == argc)
        then none
        else some (record opts { img_name = get_or argv optind "" })
