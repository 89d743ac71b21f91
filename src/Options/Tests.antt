-- ===== src/Options/Tests.antt =====
-- A command line: `-b4096 -b512 -S32 disk.img`.
use Prim.Native.String.{String}
use partman.Base.{ℕ, List, [], ◌∷◌}

abbrev given : List (ℕ × List ℕ)
given =
    (b'b', b'4' ∷ b'0' ∷ b'9' ∷ b'6' ∷ [])
    ∷ (b'b', b'5' ∷ b'1' ∷ b'2' ∷ [])
    ∷ (b'S', b'3' ∷ b'2' ∷ [])
    ∷ []

abbrev argv : List String
argv = "partman" ∷ "-b4096" ∷ "-b512" ∷ "-S32" ∷ "disk.img" ∷ []
