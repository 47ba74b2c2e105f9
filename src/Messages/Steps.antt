-- ===== src/Messages/Steps.antt =====
-- One field of an encoder or a decoder at a time: what a successful step has done.
use distributed_event_bus.Prelude.{
  ℕ, ◌≤◌, ◌≡◌, refl, List, [], ◌∷◌, ◌++◌, Result, ok, err, ◌>>=◌, or_else, length, arith, ◌↔◌,
  subst,
}
use native.Mathlib.Decide.{dec_le}
use distributed_event_bus.Wire.Bytes.{WireError, IsBytes}
use distributed_event_bus.Protocol.Frame.{max_payload_size}
use distributed_event_bus.Messages.Fields.{max_string, write_string, write_bytes}
use distributed_event_bus.Messages.FieldLaws.{
  string_bytes, blob_bytes, write_string_fits, write_string_long, write_bytes_fits,
  write_bytes_long,
}
use distributed_event_bus.Messages.Codec.{finish, read_byte}

-- A decoder inverts an encoder.
abbrev pub RoundTrip :
    {A : Type 0}
    → (A → Result WireError (List ℕ))
    → (List ℕ → Result WireError A)
    → A
    → List ℕ
    → Type 0
RoundTrip encode decode m payload = (decode payload ≡ ok m) ↔ (encode m ≡ ok payload)

pub finish_ok :
    {A : Type 0} (a b : A) (rest : List ℕ) → finish a rest ≡ ok b → (a ≡ b) × (rest ≡ [])
unfolding finish
finish_ok a b [] h = (cc, refl)
finish_ok a b (x ∷ xs) h = absurd (ground arith)

or_else_ok :
    {A : Type 0} (r : Result WireError A) (e : WireError) (a : A) → or_else r e ≡ ok a → r ≡ ok a
or_else_ok (ok a) e b h = cc
or_else_ok (err _) e b h = absurd (cc)

pub read_byte_ok :
    (r : List ℕ) (b : ℕ) (rest : List ℕ)
    → IsBytes r
    → read_byte r ≡ ok (b, rest)
    → (r ≡ b ∷ rest) × IsBytes rest
unfolding read_byte
read_byte_ok [] b rest h e = absurd (cc)
read_byte_ok (x ∷ xs) b rest h e = (ground arith, subst IsBytes (ground arith) h.1)

pub step_ok :
    {A B : Type 0} (r : Result WireError A) (k : A → Result WireError B) (b : B)
    → (r >>= k) ≡ ok b
    → (a : A) × (r ≡ ok a) × (k a ≡ ok b)
step_ok (ok a) k b h = (a, refl, h)
step_ok (err _) k b h = absurd (cc)

-- One field of a decoder: it was read, or the decoder fails.
pub bind_ok :
    {A B : Type 0} (r : Result WireError A) (e : WireError) (k : A → Result WireError B) (b : B)
    → (or_else r e >>= k) ≡ ok b
    → (a : A) × (r ≡ ok a) × (k a ≡ ok b)
bind_ok (ok a) e k b h = (a, refl, h)
bind_ok (err _) e k b h = absurd (cc)

pub write_string_ok :
    (buffer s out : List ℕ)
    → write_string buffer s ≡ ok out
    → (length s ≤ max_string) × (out ≡ buffer ++ string_bytes s)
write_string_ok buffer s out h = elim (dec_le (length s) max_string) [
  | yes p ↦ (p, cc (write_string_fits buffer s p))
  | no p ↦ absurd (cc (write_string_long buffer s (omega arith)))
]

pub write_bytes_ok :
    (buffer bs out : List ℕ)
    → write_bytes buffer bs ≡ ok out
    → (length bs ≤ max_payload_size) × (out ≡ buffer ++ blob_bytes bs)
write_bytes_ok buffer bs out h = elim (dec_le (length bs) max_payload_size) [
  | yes p ↦ (p, cc (write_bytes_fits buffer bs p))
  | no p ↦ absurd (cc (write_bytes_long buffer bs (omega arith)))
]
