-- ===== src/Guid/Tests.antt =====
-- GUIDs: the one of the default partition type, and a created one.
use Prim.Native.Char.{code}
use Prim.Native.String.{String}
use partman.CText.{put_hex, hex_digit}
use partman.Base.{length, some, ℕ, List, [], ◌∷◌, ◌/◌, ◌^◌, ◌≡◌, refl, false}
use partman.Examples.{some_guid, calls_succeed}
use partman.Guid.{IsGuid, guid_create, guid_is_zero}
use partman.Examples.Valid.{some_guid-IsGuid}
use partman.Guid.Create.{guid_create_version}
use partman.Guid.Text.{guid_to_str, str_to_guid, str_to_guid-guid_to_str}

abbrev codes : String → List ℕ
codes String.[] = []
codes (String.◌∷◌ c s) = code c ∷ codes s

guid_create_version_example :
    ((guid_create calls_succeed.rng).0.time_hi_ver / 2 ^ 12 ≡ 4)
    × ((guid_create calls_succeed.rng).0.cl_seq_hi_res / 2 ^ 5 ≡ 6)
    × IsGuid (guid_create calls_succeed.rng).0
    × (guid_is_zero (guid_create calls_succeed.rng).0 ≡ false)
guid_create_version_example = guid_create_version calls_succeed.rng

prints : guid_to_str some_guid ≡ codes "0FC63DAF-8483-4772-8E79-3D69D8477DE4"
unfolding guid_to_str put_hex hex_digit
prints = refl

str_to_guid-guid_to_str_example :
    (length (guid_to_str some_guid) ≡ 36) × (str_to_guid (guid_to_str some_guid) ≡ some some_guid)
str_to_guid-guid_to_str_example = str_to_guid-guid_to_str some_guid some_guid-IsGuid
