-- ===== src/Options/Fields.antt =====
-- What each option contributes, said for each by itself.
use partman.Base.{
  ℕ, List, [], ◌∷◌, Bool, true, false, ◌&&◌, Option, none, some, ◌==◌, if◌then◌else◌,
}
use Prim.Native.String.{String}
use partman.Options.{PartmanOpts, opts_parse_log_level, opts_parse_pu8, opts_parse_pu64}

abbrev pub is_parsed {ℓ} : {A : Type ℓ} → Option A → Bool
is_parsed none = false
is_parsed (some v) = true

abbrev pub value_or {ℓ} : {A : Type ℓ} → Option A → A → A
value_or none d = d
value_or (some v) d = v

-- The value of the last option `key`, or the default where there is none.
abbrev pub last_value {ℓ} : {A : Type ℓ} → ℕ → (List ℕ → Option A) → A → List (ℕ × List ℕ) → A
last_value key parse d [] = d
last_value key parse d ((c, arg) ∷ rest) =
    last_value key parse (if c == key then value_or (parse arg) d else d) rest

-- An option that is known, with an argument that it takes.
abbrev pub is_valid : ℕ → List ℕ → Bool
is_valid c arg =
    if c == b'L'
    then is_parsed (opts_parse_log_level arg)
    else if c == b'b'
    then is_parsed (opts_parse_pu64 arg)
    else if c == b'm'
    then is_parsed (opts_parse_pu64 arg)
    else if c == b'a'
    then is_parsed (opts_parse_pu64 arg)
    else if c == b'H'
    then is_parsed (opts_parse_pu8 arg)
    else if c == b'S'
    then is_parsed (opts_parse_pu8 arg)
    else false

abbrev pub all_valid : List (ℕ × List ℕ) → Bool
all_valid [] = true
all_valid ((c, arg) ∷ rest) = is_valid c arg && all_valid rest

abbrev pub options_from : PartmanOpts → List (ℕ × List ℕ) → PartmanOpts
options_from o given = record o {
  log_level = last_value b'L' opts_parse_log_level o.log_level given;
  sec_sz = last_value b'b' opts_parse_pu64 o.sec_sz given;
  img_sz = last_value b'm' opts_parse_pu64 o.img_sz given;
  align = last_value b'a' opts_parse_pu64 o.align given;
  hpc = last_value b'H' opts_parse_pu8 o.hpc given;
  spt = last_value b'S' opts_parse_pu8 o.spt given;
}
