-- ===== src/Protocol/Writing.antt =====
-- `writeFull` and `WriteFrame` over any writer that keeps the contract of `io.Writer`.
use Prim.Native.Nat.add
use distributed_event_bus.Prelude.{
  ◌⊎◌, if◌then◌else◌, ℕ, zero, suc, ◌+◌, ◌%◌, ◌^◌, ◌≤◌, ◌<◌, ◌≡◌, refl, sym, ap, subst, ◌∙◌, List,
  [], ◌∷◌, ◌++◌, length, take, drop, ltb, ◌==◌, Option, none, some, inl, inr, Option-cases, arith,
  append_assoc, append-nil, take-append-drop, length-drop, take-length-append, drop-length-append,
  min, Bool-cases, false,
}
use distributed_event_bus.Wire.Bytes.{WireError, short_write, invalid_frame, oversized, put_uint32}
use distributed_event_bus.Wire.Stream.{Written, IsWriter}
use distributed_event_bus.Protocol.Frame.{
  Frame, write_full, write_frame, max_payload_size, frame_bytes,
}

-- What a call that writes `bs` may leave behind: all of it and no error, or an error and a prefix.
pub data Sends {S : Type 0} (sent : S → List ℕ) (s : S) (bs : List ℕ)
    : Option WireError → S → Type 0 where
  sends_all : (s' : S) → sent s' ≡ sent s ++ bs → Sends sent s bs none s'
  sends_part :
      (e : WireError) (s' : S) (k : ℕ) → sent s' ≡ sent s ++ take k bs → Sends sent s bs (some e) s'

-- A call that returns, and what it leaves behind.
abbrev pub Sent :
    {S : Type 0} (sent : S → List ℕ) → S → List ℕ → Option (Option WireError × S) → Type 0
Sent {S} sent s bs r = (e : Option WireError) × (s' : S) × (r ≡ some (e, s')) × Sends sent s bs e s'

ne_zero : (n : ℕ) → (n == 0) ≡ false → 0 < n
ne_zero n h = ground arith

pos_test : (n : ℕ) → 0 < n → (n == 0) ≡ false
pos_test n h = ground arith

le_test : (m n : ℕ) → n ≤ m → ltb m n ≡ false
le_test m n h = ground arith

fits : (n : ℕ) → n ≤ max_payload_size → n % 2 ^ 32 ≡ n
fits n h = omega arith

min_zero : (n : ℕ) → min 0 n ≡ 0
min_zero n = omega arith

min_zero' : (n : ℕ) → min n 0 ≡ 0
min_zero' n = omega arith

min-suc : (m n : ℕ) → min (suc m) (suc n) ≡ suc (min m n)
min-suc m n = omega arith

take_add {ℓ} :
    {A : Type ℓ} (k j : ℕ) (xs : List A) → take k xs ++ take j (drop k xs) ≡ take (k + j) xs
take_add zero j xs = ap (λ n. take n xs) (sym (add.zero j))
take_add (suc k) zero [] = ground arith
take_add (suc k) (suc j) [] = rw (add.suc k (suc j))
take_add (suc k) j (x ∷ xs) = rw (add.suc k j) (ap (◌∷◌ x) (take_add k j xs))

take-append_within {ℓ} :
    {A : Type ℓ} (k : ℕ) (xs ys : List A) → take (min k (length xs)) (xs ++ ys) ≡ take k xs
take-append_within zero xs ys = rw (min_zero (length xs))
take-append_within (suc k) [] ys = rw (min_zero' (suc k))
take-append_within (suc k) (x ∷ xs) ys =
    rw (min-suc k (length xs)) (ap (◌∷◌ x) (take-append_within k xs ys))

-- A part, and then what a further call makes of the rest.
Sends-further :
    {S : Type 0} (sent : S → List ℕ) (s s1 : S) (k : ℕ) (bs : List ℕ)
    → sent s1 ≡ sent s ++ take k bs
    → {e : Option WireError} {s' : S} → Sends sent s1 (drop k bs) e s'
    → Sends sent s bs e s'
Sends-further sent s s1 k bs h (sends_all s' q) =
    sends_all s' (q ∙ rw (h, append_assoc (sent s) (take k bs) (drop k bs), take-append-drop k bs))
Sends-further sent s s1 k bs h (sends_part e s' j q) =
    sends_part e s' (k + j)
      (q ∙ rw (h, append_assoc (sent s) (take k bs) (take j (drop k bs)), take_add k j bs))

module _ {S : Type 0} (write : S → List ℕ → Written S) (sent : S → List ℕ)
    (w : IsWriter write sent) where
  write_full-Sent :
      (fuel : ℕ) (s : S) (bs : List ℕ)
      → length bs ≤ fuel
      → Sent sent s bs (write_full write fuel s bs)
  unfolding write_full
  write_full-Sent fuel s [] h = (none, s, refl, sends_all s (sym (append-nil (sent s))))
  write_full-Sent zero s (b ∷ bs) h = absurd (omega arith)
  write_full-Sent (suc fuel) s (b ∷ bs) h = elim (Option-cases (write s (b ∷ bs)).failure) [
    | inr (e, f) ↦ (
      some e,
      (write s (b ∷ bs)).after,
      ground arith,
      sends_part e _ _ (w.takes_prefix s (b ∷ bs)),
    )
    | inl f ↦ elim (Bool-cases ((write s (b ∷ bs)).count == 0)) [
      | inl z ↦ (
        some short_write,
        (write s (b ∷ bs)).after,
        ground arith,
        sends_part short_write _ _ (w.takes_prefix s (b ∷ bs)),
      )
      | inr z ↦
          let (e, s', r, q) =
            write_full-Sent fuel (write s (b ∷ bs)).after (drop (write s (b ∷ bs)).count (b ∷ bs))
              (omega (arith, length-drop (write s (b ∷ bs)).count (b ∷ bs), ne_zero _ z)) in
          (
            e,
            s',
            ground (arith, w.count_le s (b ∷ bs)),
            Sends-further sent s _ _ (b ∷ bs) (w.takes_prefix s (b ∷ bs)) q,
          )
    ]
  ]

  -- One `writeFull` after another.
  write_full-then :
      (s : S) (xs ys : List ℕ) (m : Option (Option WireError × S))
      → Sent sent s xs m
      → Sent sent s (xs ++ ys) (elim m [
        | none ↦ none
        | some (some e, s') ↦ some (some e, s')
        | some (none, s') ↦ write_full write (length ys) s' ys
      ])
  write_full-then s xs ys m (_, _, r, sends_part e s' k q) = (
    some e,
    s',
    rw r,
    sends_part e s' (min k (length xs)) (q ∙ ap (◌++◌ (sent s)) (sym (take-append_within k xs ys))),
  )
  write_full-then s xs ys m (_, _, r, sends_all s' q) =
      let (e, s'', r', q') = write_full-Sent (length ys) s' ys (omega arith) in
      (
        e,
        s'',
        rw r r',
        Sends-further sent s s' (length xs) (xs ++ ys)
            (q ∙ ap (◌++◌ (sent s)) (sym (take-length-append xs ys)))
            (rw (drop-length-append xs ys) q'),
      )

  -- Over a writer that keeps the contract of `io.Writer`, `WriteFrame` of a frame with a type and a
  -- payload within the limit always returns: with no error once the writer has taken the frame's
  -- bytes, and with an error after a prefix of them.
  pub write_frame-Sent :
      (s : S) (f : Frame)
      → 0 < f.kind
      → length f.payload ≤ max_payload_size
      → Sent sent s (frame_bytes f) (write_frame write s f)
  unfolding write_frame
  write_frame-Sent s f typed bounded =
      let size = length f.payload in
      let header = put_uint32 size ++ f.kind ∷ [] in
      rw (pos_test _ typed, le_test _ _ bounded, fits size bounded)
        (subst
          (λ bs. Sent sent s bs (elim (write_full write (length header) s header) [
            | none ↦ none
            | some (some e, s') ↦ some (some e, s')
            | some (none, s') ↦ write_full write size s' f.payload
          ]))
          (append_assoc (put_uint32 size) (f.kind ∷ []) f.payload)
          (write_full-then s header f.payload _
            (write_full-Sent (length header) s header (omega arith))))

  -- `WriteFrame` refuses a frame of the type 0 or with a payload above the limit, the type first, and
  -- the writer is as it was.
  write_frame_refuses :
      (s : S) (f : Frame)
      → (f.kind ≡ 0) ⊎ (max_payload_size < length f.payload)
      → write_frame write s f
        ≡ some (some (if f.kind == 0 then invalid_frame else oversized (length f.payload)), s)
  unfolding write_frame
  write_frame_refuses s f bad = ground arith
