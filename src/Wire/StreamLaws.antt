-- ===== src/Wire/StreamLaws.antt =====
-- `io.ReadFull` does not depend on how the network cuts the bytes into pieces.
use distributed_event_bus.Prelude.{
  ℕ, zero, suc, ◌-◌, ◌≤◌, ◌<◌, ◌≡◌, refl, List, [], ◌∷◌, ◌++◌, Result, ok, err, length, take, drop,
  leb, if◌then◌else◌, arith, length-append, append-nil, take-append-drop, length-take, append_assoc,
  Bool-cases, inl, inr, ap, take-length-append, drop-length-append, Result-cases,
}
use distributed_event_bus.Wire.Bytes.{WireError, read_error}
use distributed_event_bus.Wire.Stream.{Source, read_pieces, read_full}

abbrev pub joined : List (List ℕ) → List ℕ
joined [] = []
joined (p ∷ ps) = p ++ joined ps

-- Two results of a read agree: the same error, or the same bytes and the same bytes to come.
abbrev pub SameRead :
    Result WireError (List ℕ × List (List ℕ)) → Result WireError (List ℕ × List ℕ) → Type 0
SameRead (ok (bs, ps)) (ok (cs, rest)) = (bs ≡ cs) × (joined ps ≡ rest)
SameRead (err e) (err e') = e ≡ e'
SameRead (ok _) (err _) = ⊥
SameRead (err _) (ok _) = ⊥

-- The read over the bytes with no pieces.
unfoldable pub read_joined : ℕ → List ℕ → List ℕ → WireError → Result WireError (List ℕ × List ℕ)
unfolding read_error
read_joined n got bs e =
    if leb n (length bs) then ok (got ++ take n bs, drop n bs) else err (read_error (got ++ bs) e)

take-append_short {ℓ} :
    {A : Type ℓ} (n : ℕ) (xs ys : List A)
    → n ≤ length xs
    → (take n (xs ++ ys) ≡ take n xs) × (drop n (xs ++ ys) ≡ drop n xs ++ ys)
take-append_short zero xs ys h = (refl, refl)
take-append_short (suc n) [] ys h = absurd (omega arith)
take-append_short (suc n) (x ∷ xs) ys h =
    let (t, d) = take-append_short n xs ys (omega arith) in (ap (◌∷◌ x) t, d)

take-append_long {ℓ} :
    {A : Type ℓ} (n : ℕ) (xs ys : List A)
    → length xs ≤ n
    → (take n (xs ++ ys) ≡ xs ++ take (n - length xs) ys)
      × (drop n (xs ++ ys) ≡ drop (n - length xs) ys)
take-append_long n [] ys h = ground arith
take-append_long zero (x ∷ xs) ys h = absurd (omega arith)
take-append_long (suc n) (x ∷ xs) ys h =
    let (t, d) = take-append_long n xs ys (omega arith) in (ground arith, ground arith)

-- One piece more or less makes no difference to the joined bytes.
read_joined_step :
    (n : ℕ) (got p bs : List ℕ) (e : WireError)
    → length p < n
    → read_joined n got (p ++ bs) e ≡ read_joined (n - length p) (got ++ p) bs e
unfolding read_joined
read_joined_step n got p bs e h = ground (
  arith,
  length-append p bs,
  take-append_long n p bs,
  append_assoc got p bs,
  append_assoc got p (take (n - length p) bs),
)

read_joined_here :
    (n : ℕ) (got p bs : List ℕ) (e : WireError)
    → n ≤ length p
    → read_joined n got (p ++ bs) e ≡ ok (got ++ take n p, drop n p ++ bs)
unfolding read_joined
read_joined_here n got p bs e h = ground (arith, length-append p bs, take-append_short n p bs)

read_pieces_end :
    (n : ℕ) (got : List ℕ) (e : WireError)
    → SameRead (read_pieces n got [] e) (read_joined n got [] e)
unfolding read_pieces read_joined
read_pieces_end zero got e = ground (arith, append-nil got)
read_pieces_end (suc n) got e = ground (arith, append-nil got)

read_pieces-SameRead :
    (n : ℕ) (got : List ℕ) (ps : List (List ℕ)) (e : WireError)
    → SameRead (read_pieces n got ps e) (read_joined n got (joined ps) e)
unfolding read_pieces
read_pieces-SameRead n got [] e = read_pieces_end n got e
read_pieces-SameRead n got (p ∷ ps) e = elim (Bool-cases (leb n (length p))) [
  | inl enough ↦ rw (enough, read_joined_here n got p (joined ps) e (ground arith)) (refl, refl)
  | inr more ↦
      rw (more, read_joined_step n got p (joined ps) e (ground arith))
        (read_pieces-SameRead (n - length p) (got ++ p) ps e)
]

-- What a source will deliver, with no pieces.
abbrev pub stream_bytes : Source → List ℕ
stream_bytes s = joined s.pieces

-- `read_full` gives the next `n` bytes of the stream and keeps the rest, however the stream is cut.
pub read_full_enough :
    (s : Source) (front rest : List ℕ)
    → stream_bytes s ≡ front ++ rest
    → (s' : Source) × (read_full (length front) s ≡ ok (front, s'))
      × (stream_bytes s' ≡ rest)
      × (s'.ending ≡ s.ending)
unfolding read_full read_joined
read_full_enough s front rest h =
    elim (Result-cases (read_pieces (length front) [] s.pieces s.ending)) [
      | inl ((bs, ps), r) ↦
          let same = read_pieces-SameRead (length front) [] s.pieces s.ending in
          let facts : (bs ≡ front) × (joined ps ≡ rest) = ground (
            arith,
            same,
            length-append front rest,
            take-length-append front rest,
            drop-length-append front rest,
          ) in
          (record s { pieces = ps }, ground arith, facts.1, refl)
      | inr (e, r) ↦ absurd (
          ground (
            arith,
            read_pieces-SameRead (length front) [] s.pieces s.ending,
            length-append front rest,
          ))
    ]

-- It fails if the stream ends before: with the end's own error if nothing was read, and otherwise
-- with `unexpected_eof` for an end of file.
pub read_full_short :
    (n : ℕ) (s : Source)
    → length (stream_bytes s) < n
    → read_full n s ≡ err (read_error (stream_bytes s) s.ending)
unfolding read_full read_joined
read_full_short n s h = ground (arith, read_pieces-SameRead n [] s.pieces s.ending)

-- A successful read took exactly `n` bytes off the front of the stream.
pub record Took (n : ℕ) (front : List ℕ) (s s' : Source) : Type 0 where
  pub whole : stream_bytes s ≡ front ++ stream_bytes s'
  pub size : length front ≡ n
  pub end_kept : s'.ending ≡ s.ending

pub read_full-Took :
    (n : ℕ) (front : List ℕ) (s s' : Source) → read_full n s ≡ ok (front, s') → Took n front s s'
unfolding read_full read_joined
read_full-Took n front s s' h = ground (
  arith,
  read_pieces-SameRead n [] s.pieces s.ending,
  take-append-drop n (stream_bytes s),
  length-take n (stream_bytes s),
)
