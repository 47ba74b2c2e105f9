-- ===== src/Wire/BytesLaws.antt =====
-- Big-endian integers fit their width and read back; exact reads split a prefix off.
use distributed_event_bus.Prelude.{
  ℕ, ◌^◌, ◌<◌, ◌≡◌, refl, List, [], ◌∷◌, ◌++◌, ok, length, take, drop, arith, length-append,
  take-length-append, drop-length-append, take-append-drop, length-take, All-take, All-drop, subst,
}
use distributed_event_bus.Wire.Bytes.{
  IsBytes, IsByte, put_uint16, put_uint32, uint16, uint32, read_exact,
}

pub put_uint16-IsBytes : (v : ℕ) → IsBytes (put_uint16 v)
unfolding put_uint16
put_uint16-IsBytes v = omega arith

pub put_uint32-IsBytes : (v : ℕ) → IsBytes (put_uint32 v)
unfolding put_uint32
put_uint32-IsBytes v = omega arith

pub length-put_uint16 : (v : ℕ) → length (put_uint16 v) ≡ 2
unfolding put_uint16
length-put_uint16 v = refl

pub length-put_uint32 : (v : ℕ) → length (put_uint32 v) ≡ 4
unfolding put_uint32
length-put_uint32 v = refl

pub uint16-put_uint16 : (v : ℕ) → v < 2 ^ 16 → uint16 (put_uint16 v) ≡ v
unfolding uint16 put_uint16
uint16-put_uint16 v h = omega arith

pub uint32-put_uint32 : (v : ℕ) → v < 2 ^ 32 → uint32 (put_uint32 v) ≡ v
unfolding uint32 put_uint32
uint32-put_uint32 v h = omega arith

pub put_uint16-uint16 : (bs : List ℕ) → IsBytes bs → length bs ≡ 2 → put_uint16 (uint16 bs) ≡ bs
unfolding uint16 put_uint16
put_uint16-uint16 (a ∷ b ∷ []) h e = ground arith
put_uint16-uint16 [] h e = absurd (omega arith)
put_uint16-uint16 (a ∷ []) h e = absurd (omega arith)
put_uint16-uint16 (a ∷ b ∷ c ∷ r) h e = absurd (omega arith)

pub put_uint32-uint32 : (bs : List ℕ) → IsBytes bs → length bs ≡ 4 → put_uint32 (uint32 bs) ≡ bs
unfolding uint32 put_uint32
put_uint32-uint32 (a ∷ b ∷ c ∷ d ∷ []) h e = ground arith
put_uint32-uint32 [] h e = absurd (omega arith)
put_uint32-uint32 (a ∷ []) h e = absurd (omega arith)
put_uint32-uint32 (a ∷ b ∷ []) h e = absurd (omega arith)
put_uint32-uint32 (a ∷ b ∷ c ∷ []) h e = absurd (omega arith)
put_uint32-uint32 (a ∷ b ∷ c ∷ d ∷ x ∷ r) h e = absurd (omega arith)

pub uint16-lt : (bs : List ℕ) → IsBytes bs → uint16 bs < 2 ^ 16
unfolding uint16
uint16-lt [] h = omega arith
uint16-lt (a ∷ []) h = omega arith
uint16-lt (a ∷ b ∷ r) h = omega arith

pub uint32-lt : (bs : List ℕ) → IsBytes bs → uint32 bs < 2 ^ 32
unfolding uint32
uint32-lt [] h = omega arith
uint32-lt (a ∷ []) h = omega arith
uint32-lt (a ∷ b ∷ []) h = omega arith
uint32-lt (a ∷ b ∷ c ∷ []) h = omega arith
uint32-lt (a ∷ b ∷ c ∷ d ∷ r) h = omega arith

pub read_exact-append :
    (n : ℕ) (xs ys : List ℕ) → length xs ≡ n → read_exact n (xs ++ ys) ≡ ok (xs, ys)
unfolding read_exact
read_exact-append n xs ys h =
    ground (arith, length-append xs ys, take-length-append xs ys, drop-length-append xs ys)

-- A successful exact read splits the input.
pub record Splits (n : ℕ) (bs front rest : List ℕ) : Type 0 where
  pub whole : bs ≡ front ++ rest
  pub size : length front ≡ n

pub read_exact-Splits :
    (n : ℕ) (bs front rest : List ℕ) → read_exact n bs ≡ ok (front, rest) → Splits n bs front rest
unfolding read_exact
read_exact-Splits n bs front rest e = ground (arith, take-append-drop n bs, length-take n bs)

pub read_exact-IsBytes :
    (n : ℕ) (bs front rest : List ℕ)
    → IsBytes bs
    → read_exact n bs ≡ ok (front, rest)
    → IsBytes front × IsBytes rest
unfolding read_exact
read_exact-IsBytes n bs front rest h e =
    let taken : IsBytes (take n bs) = All-take IsByte n bs h in
    let dropped : IsBytes (drop n bs) = All-drop IsByte n bs h in
    (subst IsBytes (ground arith) taken, subst IsBytes (ground arith) dropped)
