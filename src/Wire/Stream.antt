-- ===== src/Wire/Stream.antt =====
-- An `io.Reader` that delivers its bytes in pieces, and an `io.Writer` that may take only a part.
use distributed_event_bus.Prelude.{
  ℕ, ◌-◌, ◌≤◌, ◌≡◌, List, [], ◌∷◌, ◌++◌, Result, ok, err, length, take, drop, leb, ◌==◌,
  if◌then◌else◌, Option,
}
use distributed_event_bus.Wire.Bytes.{WireError, read_error}

-- What a connection will deliver: the pieces that successive `Read` calls find, then an error.
pub record Source : Type 0 where
  pub pieces : List (List ℕ)
  pub ending : WireError

-- `io.ReadFull`'s loop over the pieces: `got` holds what was read so far, `n` is still wanted.
-- After an error nobody reads on, so that the rest of the source is not kept.
unfoldable pub read_pieces :
    ℕ → List ℕ → List (List ℕ) → WireError → Result WireError (List ℕ × List (List ℕ))
unfolding read_error
read_pieces n got [] e = if n == 0 then ok (got, []) else err (read_error got e)
read_pieces n got (p ∷ ps) e =
    let more = read_pieces (n - length p) (got ++ p) ps e in
    if leb n (length p) then ok (got ++ take n p, drop n p ∷ ps) else more

-- `io.ReadFull(r, buf)` with `len(buf) = n`.
unfoldable pub read_full : ℕ → Source → Result WireError (List ℕ × Source)
unfolding read_pieces
read_full n s = elim (read_pieces n [] s.pieces s.ending) [
  | ok (bs, ps) ↦ ok (bs, record s { pieces = ps })
  | err e ↦ err e
]

-- One `Write(p)` call: how many bytes were taken, and the error if there is one.
pub record Written (S : Type 0) : Type 0 where
  pub count : ℕ
  pub failure : Option WireError
  pub after : S

-- The documented contract of `io.Writer`, over the bytes `sent` that a writer has taken so far:
-- it takes a prefix of `p`, and no more than all of it.
pub record IsWriter {S : Type 0} (write : S → List ℕ → Written S) (sent : S → List ℕ) : Type 0 where
  pub count_le : (s : S) (p : List ℕ) → (write s p).count ≤ length p
  pub takes_prefix :
      (s : S) (p : List ℕ) → sent (write s p).after ≡ sent s ++ take (write s p).count p
