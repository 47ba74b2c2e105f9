-- ===== src/Wire/Bytes.antt =====
-- Errors of the wire code, and `binary.BigEndian`. A byte slice is a list of numbers below 256.
use distributed_event_bus.Prelude.{
  ℕ, ◌+◌, ◌*◌, ◌/◌, ◌%◌, ◌^◌, ◌<◌, List, [], ◌∷◌, Result, ok, err, length, take, drop, leb,
  if◌then◌else◌, All,
}

-- The `error` values of `io`, protocol/frame.go and messages.go. `failed` stands for what a
-- connection reports; `oversized` is `ErrFrameTooLarge` wrapped with the size.
pub data WireError : Type 0 where
  eof unexpected_eof short_write : WireError
  failed : ℕ → WireError
  frame_too_large invalid_frame invalid_payload : WireError
  oversized : ℕ → WireError

abbrev pub IsByte : ℕ → Type 0
IsByte b = b < 256

abbrev pub IsBytes : List ℕ → Type 0
IsBytes = All IsByte

-- `PutUint16(b[:], v)` on a fresh two-byte array.
unfoldable pub put_uint16 : ℕ → List ℕ
put_uint16 v = (v / 256 % 256) ∷ (v % 256) ∷ []

unfoldable pub put_uint32 : ℕ → List ℕ
put_uint32 v = (v / 2 ^ 24 % 256) ∷ (v / 2 ^ 16 % 256) ∷ (v / 256 % 256) ∷ (v % 256) ∷ []

-- `Uint16(b)` reads the first two bytes. Go panics on a shorter slice; no caller passes one.
unfoldable pub uint16 : List ℕ → ℕ
uint16 (a ∷ b ∷ rest) = a * 256 + b
uint16 _ = 0

unfoldable pub uint32 : List ℕ → ℕ
uint32 (a ∷ b ∷ c ∷ d ∷ rest) = a * 2 ^ 24 + b * 2 ^ 16 + c * 256 + d
uint32 _ = 0

-- Why a read of `n` bytes failed, when it got `got` of them and then the stream ended with `e`.
unfoldable pub read_error : List ℕ → WireError → WireError
read_error [] e = e
read_error (_ ∷ _) eof = unexpected_eof
read_error (_ ∷ _) e = e

-- `io.ReadFull` of `n` bytes from a `bytes.Reader` over `bs`: the bytes and the reader's rest.
unfoldable pub read_exact : ℕ → List ℕ → Result WireError (List ℕ × List ℕ)
unfolding read_error
read_exact n bs = if leb n (length bs) then ok (take n bs, drop n bs) else err (read_error bs eof)
