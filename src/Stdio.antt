-- ===== src/Stdio.antt =====
-- The standard input, as the C library reads it with `fgets`. What a terminal or a file delivers is
-- a list of events; where the list ends, so does the file. The end-of-file indicator stays set
-- until `clearerr`, and reads nothing while it is.
-- A conversion of a number that its type does not hold is undefined: what the code computes behind
-- one is not the program's. The stream remembers it, and the session has no result then.
use partman.Base.{
  ℕ, zero, suc, ◌-◌, ◌≤◌, ◌<◌, ◌≡◌, ◌≢◌, refl, List, [], ◌∷◌, length, Bool, true, false, Option,
  none, some, ◌==◌, ◌⊎◌, inl, inr, Bool-cases, ==_ne, ap, if◌then◌else◌, arith,
}

pub data Event : Type 0 where
  byte : ℕ → Event
  end_of_file read_error : Event

pub record Stream : Type 0 where
  pub events : List Event
  pub eof : Bool
  pub overflowed : Bool

-- why reading characters stopped: a line or the buffer is full, the file ends, or a read failed
pub data Stop : Type 0 where
  enough at_end failed : Stop

pub record Got : Type 0 where
  pub text : List ℕ
  pub stop : Stop
  pub rest : List Event

abbrev put_front : ℕ → Got → Got
put_front c got = record got { text = c ∷ got.text }

-- at most `n` characters, up to a line feed
unfoldable pub read_chars : ℕ → List Event → Got
read_chars zero es = record { text = []; stop = Stop.enough; rest = es }
read_chars (suc n) [] = record { text = []; stop = Stop.at_end; rest = [] }
read_chars (suc n) (Event.end_of_file ∷ es) = record { text = []; stop = Stop.at_end; rest = es }
read_chars (suc n) (Event.read_error ∷ es) = record { text = []; stop = Stop.failed; rest = es }
read_chars (suc n) (Event.byte c ∷ es) =
    let more = put_front c (read_chars n es) in
    if c == b'\n' then record { text = c ∷ []; stop = Stop.enough; rest = es } else more

unfoldable pub fgets_result : Bool → List ℕ → Stop → List Event → Option (List ℕ) × Stream
fgets_result o text Stop.enough rest =
    (some text, record { events = rest; eof = false; overflowed = o })
fgets_result o text Stop.failed rest = (none, record { events = rest; eof = false; overflowed = o })
fgets_result o [] Stop.at_end rest = (none, record { events = rest; eof = true; overflowed = o })
fgets_result o (c ∷ text) Stop.at_end rest =
    (some (c ∷ text), record { events = rest; eof = true; overflowed = o })

unfoldable pub fgets : ℕ → Stream → Option (List ℕ) × Stream
fgets buf_sz stdin =
    if stdin.eof
    then (none, stdin)
    else let got = read_chars (buf_sz - 1) stdin.events in
      fgets_result stdin.overflowed got.text got.stop got.rest

unfoldable pub clearerr : Stream → Stream
clearerr stdin = record stdin { eof = false }

pub read_chars-le : (n : ℕ) (es : List Event) → length (read_chars n es).rest ≤ length es
unfolding read_chars
read_chars-le zero es = omega arith
read_chars-le (suc n) [] = omega arith
read_chars-le (suc n) (Event.end_of_file ∷ es) = omega arith
read_chars-le (suc n) (Event.read_error ∷ es) = omega arith
read_chars-le (suc n) (Event.byte c ∷ es) = ground (arith, read_chars-le n es)

pub length-read_chars : (n : ℕ) (es : List Event) → length (read_chars n es).text ≤ n
unfolding read_chars
length-read_chars zero es = omega arith
length-read_chars (suc n) [] = omega arith
length-read_chars (suc n) (Event.end_of_file ∷ es) = omega arith
length-read_chars (suc n) (Event.read_error ∷ es) = omega arith
length-read_chars (suc n) (Event.byte c ∷ es) = ground (arith, length-read_chars n es)

pub fgets-le : (n : ℕ) (st : Stream) → length (fgets n st).1.events ≤ length st.events
unfolding fgets fgets_result
fgets-le n st = ground (arith, read_chars-le (n - 1) st.events)

pub fgets-overflowed : (n : ℕ) (st : Stream) → (fgets n st).1.overflowed ≡ st.overflowed
unfolding fgets fgets_result
fgets-overflowed n st = ground arith

-- What a call found at the end of the file.
abbrev pub FoundEnd : Option (List ℕ) × Stream → Type 0
FoundEnd r = (r.0 ≡ none) × (r.1.eof ≡ true)

abbrev Progress : List Event → Option (List ℕ) × Stream → Type 0
Progress es r = FoundEnd r ⊎ (length r.1.events < length es)

read_chars-Progress :
    (o : Bool) (n : ℕ) (es : List Event)
    → let got = read_chars (suc n) es in Progress es (fgets_result o got.text got.stop got.rest)
unfolding read_chars fgets_result
read_chars-Progress o n [] = inl (refl, refl)
read_chars-Progress o n (Event.end_of_file ∷ es) = inl (refl, refl)
read_chars-Progress o n (Event.read_error ∷ es) = inr (omega arith)
read_chars-Progress o n (Event.byte c ∷ es) = inr (ground (arith, read_chars-le n es))

-- A call with room for a character takes at least one event, unless it finds the end of the file.
pub fgets-Progress :
    (n : ℕ) (st : Stream)
    → FoundEnd (fgets (suc (suc n)) st)
      ⊎ (length (fgets (suc (suc n)) st).1.events < length st.events)
unfolding fgets
fgets-Progress n st = elim (Bool-cases st.eof) [
  | inl e ↦ inl (rw e (refl, refl))
  | inr e ↦
      let room : suc (suc n) - 1 ≡ suc n = omega arith in
      rw e (rw room (read_chars-Progress st.overflowed n st.events))
]

-- What typing a line delivers.
abbrev pub typed : List ℕ → List Event → List Event
typed [] es = Event.byte b'\n' ∷ es
typed (c ∷ line) es = Event.byte c ∷ typed line es

-- No line feed, carriage return or terminator.
abbrev pub AllText : List ℕ → Type 0
AllText [] = Unit
AllText (c ∷ s) = (c ≢ b'\n') × (c ≢ b'\r') × (c ≢ 0) × AllText s

abbrev pub line_of : List ℕ → List ℕ
line_of [] = b'\n' ∷ []
line_of (c ∷ s) = c ∷ line_of s

pub read_chars-typed :
    (n : ℕ) (line : List ℕ) (es : List Event)
    → AllText line
    → length line < n
    → read_chars n (typed line es) ≡ record { text = line_of line; stop = Stop.enough; rest = es }
unfolding read_chars
read_chars-typed zero line es h lt = absurd (omega arith)
read_chars-typed (suc n) [] es h lt = refl
read_chars-typed (suc n) (c ∷ line) es (lf, cr, nul, h) lt =
    rw (==_ne c b'\n' lf) (ap (put_front c) (read_chars-typed n line es h (omega arith)))
