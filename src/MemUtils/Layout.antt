-- ===== src/MemUtils/Layout.antt =====
-- A record on the disk as a list of fields at increasing offsets. Writing its fields one after
-- another leaves every one of them readable, and the bytes outside alone.
use partman.Base.{ℕ, ◌+◌, ◌%◌, ◌^◌, ◌≤◌, ◌<◌, List, [], ◌∷◌, ◌++◌, ◌≡◌, refl, ◌∙◌, arith}
use partman.MemUtils.{Memory, IsBytes}
use partman.MemUtils.Bytes.{
  write_le, read_le, write_le-below, write_le-above, write_le-IsBytes, read_le_congr,
  read_le-write_le,
}

pub record Field : Type 0 where
  pub offset : ℕ
  pub width : ℕ
  pub value : ℕ

abbrev pub field : ℕ → ℕ → ℕ → Field
field o w v = record { offset = o; width = w; value = v }

abbrev pub write_fields : ℕ → List Field → Memory → Memory
write_fields p [] m = m
write_fields p (f ∷ fs) m = write_fields p fs (write_le f.width (p + f.offset) f.value m)

-- The fields stand at or after `lo`, in order, with no overlap.
abbrev pub IsIncreasing : ℕ → List Field → Type 0
IsIncreasing lo [] = Unit
IsIncreasing lo (f ∷ fs) = (lo ≤ f.offset) × IsIncreasing (f.offset + f.width) fs

-- Each field reads as its value, cut to the field's width.
abbrev pub Reads : ℕ → List Field → Memory → Type 0
Reads p [] m = Unit
Reads p (f ∷ fs) m = (read_le f.width (p + f.offset) m ≡ f.value % 256 ^ f.width) × Reads p fs m

-- No field goes past `hi`.
abbrev pub IsWithin : ℕ → List Field → Type 0
IsWithin hi [] = Unit
IsWithin hi (f ∷ fs) = (f.offset + f.width ≤ hi) × IsWithin hi fs

module _ (p : ℕ) where
  pub write_fields-below :
      (fs : List Field) (lo : ℕ) (m : Memory) (q : ℕ)
      → IsIncreasing lo fs
      → q < p + lo
      → write_fields p fs m q ≡ m q
  write_fields-below [] lo m q inc h = refl
  write_fields-below (f ∷ fs) lo m q inc h =
      write_fields-below fs (f.offset + f.width) (write_le f.width (p + f.offset) f.value m) q inc.1
        (omega (arith, inc.0))
      ∙ write_le-below f.width (p + f.offset) f.value m q (omega (arith, inc.0))

  pub write_fields-above :
      (fs : List Field) (hi : ℕ) (m : Memory) (q : ℕ)
      → IsWithin hi fs
      → p + hi ≤ q
      → write_fields p fs m q ≡ m q
  write_fields-above [] hi m q win h = refl
  write_fields-above (f ∷ fs) hi m q win h =
      write_fields-above fs hi (write_le f.width (p + f.offset) f.value m) q win.1 h
      ∙ write_le-above f.width (p + f.offset) f.value m q (omega (arith, win.0))

  pub write_fields-IsBytes :
      (fs : List Field) (m : Memory) → IsBytes m → IsBytes (write_fields p fs m)
  write_fields-IsBytes [] m h = h
  write_fields-IsBytes (f ∷ fs) m h =
      write_fields-IsBytes fs (write_le f.width (p + f.offset) f.value m)
        (write_le-IsBytes f.width (p + f.offset) f.value m h)

  pub write_fields-Reads :
      (fs : List Field) (lo : ℕ) (m : Memory)
      → IsIncreasing lo fs
      → Reads p fs (write_fields p fs m)
  write_fields-Reads [] lo m inc = tt
  write_fields-Reads (f ∷ fs) lo m inc = (
    read_le_congr f.width (p + f.offset) (write_fields p fs m') m'
          (λ q a b. write_fields-below fs (f.offset + f.width) m' q inc.1 (omega arith))
        ∙ read_le-write_le f.width (p + f.offset) f.value m,
    write_fields-Reads fs (f.offset + f.width) m' inc.1,
  )
    where
      m' : Memory
      m' = write_le f.width (p + f.offset) f.value m

  -- Writes elsewhere do not disturb the fields.
  pub Reads-congr :
      (fs : List Field) (lo hi : ℕ) (m m' : Memory)
      → IsIncreasing lo fs
      → IsWithin hi fs
      → ((q : ℕ) → p + lo ≤ q → q < p + hi → m' q ≡ m q)
      → Reads p fs m
      → Reads p fs m'
  Reads-congr [] lo hi m m' inc win same r = tt
  Reads-congr (f ∷ fs) lo hi m m' inc win same r = (
    read_le_congr f.width (p + f.offset) m' m
          (λ q a b. same q (omega (arith, inc.0)) (omega (arith, win.0)))
        ∙ r.0,
    Reads-congr fs (f.offset + f.width) hi m m' inc.1 win.1
        (λ q a b. same q (omega (arith, inc.0)) b) r.1,
  )

  pub Reads-append :
      (fs gs : List Field) (m : Memory) → Reads p (fs ++ gs) m → Reads p fs m × Reads p gs m
  Reads-append [] gs m r = (tt, r)
  Reads-append (f ∷ fs) gs m r = let (a, b) = Reads-append fs gs m r.1 in ((r.0, a), b)

  pub write_fields-append :
      (fs gs : List Field) (m : Memory)
      → write_fields p (fs ++ gs) m ≡ write_fields p gs (write_fields p fs m)
  write_fields-append [] gs m = refl
  write_fields-append (f ∷ fs) gs m =
      write_fields-append fs gs (write_le f.width (p + f.offset) f.value m)
