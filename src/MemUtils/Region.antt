-- ===== src/MemUtils/Region.antt =====
-- The bytes of a stretch of memory, and those that a gapless record puts there.
use partman.Base.{
  ℕ, zero, suc, ◌+◌, ◌/◌, ◌%◌, ◌≤◌, ◌<◌, List, [], ◌∷◌, ◌++◌, ◌≡◌, refl, ap, ap₂, ◌∙◌, arith,
}
use Prim.Native.Nat.add
use partman.MemUtils.{Memory, store}
use partman.MemUtils.Bytes.{write_le, write_le-below}
use partman.MemUtils.Layout.{Field, IsIncreasing, IsWithin, write_fields, write_fields-below}

-- The low `n` bytes of `i`, lowest first.
unfoldable pub le_bytes : ℕ → ℕ → List ℕ
le_bytes zero i = []
le_bytes (suc n) i = i % 256 ∷ le_bytes n (i / 256)

unfoldable pub region : ℕ → ℕ → Memory → List ℕ
region zero p m = []
region (suc n) p m = m p ∷ region n (p + 1) m

pub region_congr :
    (n p : ℕ) (m m' : Memory)
    → ((q : ℕ) → p ≤ q → q < p + n → m q ≡ m' q)
    → region n p m ≡ region n p m'
unfolding region
region_congr zero p m m' h = refl
region_congr (suc n) p m m' h =
    ap₂ ◌∷◌ (h p (omega arith) (omega arith))
      (region_congr n (p + 1) m m' (λ q a b. h q (omega arith) (omega arith)))

pub region-add : (a b p : ℕ) (m : Memory) → region (a + b) p m ≡ region a p m ++ region b (p + a) m
unfolding region
region-add zero b p m = ground arith
region-add (suc a) b p m = rw add.suc (ap (λ t. m p ∷ t) (region-add a b (p + 1) m ∙ shift))
  where
    shift :
        region a (p + 1) m ++ region b (p + 1 + a) m ≡ region a (p + 1) m ++ region b (p + suc a) m
    shift = ap (λ t. region a (p + 1) m ++ region b t m) (omega arith)

pub region-write_le : (n p i : ℕ) (m : Memory) → region n p (write_le n p i m) ≡ le_bytes n i
unfolding region write_le le_bytes
region-write_le zero p i m = refl
region-write_le (suc n) p i m =
    ap₂ ◌∷◌
      (write_le-below n (p + 1) (i / 256) (store p (i % 256) m) p (omega arith) ∙ ground arith)
      (region-write_le n (p + 1) (i / 256) (store p (i % 256) m))

-- The fields follow one another from `lo` on with no gap.
abbrev pub IsGapless : ℕ → List Field → Type 0
IsGapless lo [] = Unit
IsGapless lo (f ∷ fs) = (f.offset ≡ lo) × IsGapless (f.offset + f.width) fs

abbrev pub widths : List Field → ℕ
widths [] = 0
widths (f ∷ fs) = f.width + widths fs

abbrev pub field_bytes : List Field → List ℕ
field_bytes [] = []
field_bytes (f ∷ fs) = le_bytes f.width f.value ++ field_bytes fs

pub IsGapless-IsIncreasing : (fs : List Field) (lo : ℕ) → IsGapless lo fs → IsIncreasing lo fs
IsGapless-IsIncreasing [] lo g = tt
IsGapless-IsIncreasing (f ∷ fs) lo g =
    (omega (arith, g.0), IsGapless-IsIncreasing fs (f.offset + f.width) g.1)

-- A gapless record ends where its widths add up.
pub IsGapless-IsWithin :
    (fs : List Field) (lo hi : ℕ) → IsGapless lo fs → lo + widths fs ≤ hi → IsWithin hi fs
IsGapless-IsWithin [] lo hi g h = tt
IsGapless-IsWithin (f ∷ fs) lo hi g h =
    (omega (arith, g.0), IsGapless-IsWithin fs (f.offset + f.width) hi g.1 (omega (arith, g.0)))

pub region-write_fields :
    (p : ℕ) (fs : List Field) (lo : ℕ) (m : Memory)
    → IsGapless lo fs
    → region (widths fs) (p + lo) (write_fields p fs m) ≡ field_bytes fs
region-write_fields p [] lo m g = unfold region in refl
region-write_fields p (f ∷ fs) lo m g =
    region-add f.width (widths fs) (p + lo) (write_fields p fs m')
    ∙ ap₂ ◌++◌ head (
        ap (λ t. region (widths fs) t (write_fields p fs m')) (omega (arith, g.0))
        ∙ region-write_fields p fs (f.offset + f.width) m' g.1)
  where
    m' : Memory
    m' = write_le f.width (p + f.offset) f.value m

    head : region f.width (p + lo) (write_fields p fs m') ≡ le_bytes f.width f.value
    head =
        region_congr f.width (p + lo) (write_fields p fs m') m' (λ q a b.
          write_fields-below p fs (f.offset + f.width) m' q
            (IsGapless-IsIncreasing fs (f.offset + f.width) g.1) (omega (arith, g.0)))
        ∙ ap (λ t. region f.width t m') (omega (arith, g.0))
        ∙ region-write_le f.width (p + f.offset) f.value m
