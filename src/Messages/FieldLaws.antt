-- ===== src/Messages/FieldLaws.antt =====
-- A field that is written reads back, and a field that is read was written so.
use distributed_event_bus.Prelude.{
  ℕ, ◌%◌, ◌^◌, ◌≤◌, ◌<◌, ◌≡◌, refl, List, ◌++◌, ok, err, Text, length, arith, append_assoc, subst,
  All-split, Result-cases, inl, inr,
}
use distributed_event_bus.Wire.Bytes.{
  invalid_payload, frame_too_large, put_uint16, put_uint32, uint16, uint32, read_exact, IsByte,
  IsBytes,
}
use distributed_event_bus.Wire.BytesLaws.{
  read_exact-append, read_exact-Splits, uint16-put_uint16, uint32-put_uint32, put_uint16-uint16,
  put_uint32-uint32, length-put_uint16, length-put_uint32, uint16-lt,
}
use distributed_event_bus.Protocol.Frame.{max_payload_size}
use distributed_event_bus.Messages.Fields.{
  max_string, write_string, read_string, write_bytes, read_bytes, read_sized,
}

abbrev pub string_bytes : Text → List ℕ
string_bytes s = put_uint16 (length s) ++ s

abbrev pub blob_bytes : List ℕ → List ℕ
blob_bytes bs = put_uint32 (length bs) ++ bs

pub write_string_fits :
    (buffer : List ℕ) (s : Text)
    → length s ≤ max_string
    → write_string buffer s ≡ ok (buffer ++ string_bytes s)
unfolding write_string
write_string_fits buffer s h =
    ground (arith, append_assoc buffer (put_uint16 (length s)) s, small (length s) h)
  where
    small : (n : ℕ) → n ≤ max_string → n % 2 ^ 16 ≡ n
    small n h = omega arith

pub write_string_long :
    (buffer : List ℕ) (s : Text)
    → max_string < length s
    → write_string buffer s ≡ err invalid_payload
unfolding write_string
write_string_long buffer s h = ground arith

pub write_bytes_fits :
    (buffer bs : List ℕ)
    → length bs ≤ max_payload_size
    → write_bytes buffer bs ≡ ok (buffer ++ blob_bytes bs)
unfolding write_bytes
write_bytes_fits buffer bs h =
    ground (arith, append_assoc buffer (put_uint32 (length bs)) bs, small (length bs) h)
  where
    small : (n : ℕ) → n ≤ max_payload_size → n % 2 ^ 32 ≡ n
    small n h = omega arith

pub write_bytes_long :
    (buffer bs : List ℕ)
    → max_payload_size < length bs
    → write_bytes buffer bs ≡ err frame_too_large
unfolding write_bytes
write_bytes_long buffer bs h = ground arith

pub read_string-string_bytes :
    (s : Text) (rest : List ℕ)
    → length s ≤ max_string
    → read_string (string_bytes s ++ rest) ≡ ok (s, rest)
unfolding read_string
read_string-string_bytes s rest h =
    rw
      (
        append_assoc (put_uint16 (length s)) s rest,
        read_exact-append 2 (put_uint16 (length s)) (s ++ rest) (length-put_uint16 (length s)),
        uint16-put_uint16 (length s) (omega arith),
      )
      (read_exact-append (length s) s rest refl)

pub read_bytes-blob_bytes :
    (bs rest : List ℕ)
    → length bs ≤ max_payload_size
    → read_bytes (blob_bytes bs ++ rest) ≡ ok (bs, rest)
unfolding read_bytes read_sized
read_bytes-blob_bytes bs rest h =
    rw
      (
        append_assoc (put_uint32 (length bs)) bs rest,
        read_exact-append 4 (put_uint32 (length bs)) (bs ++ rest) (length-put_uint32 (length bs)),
        uint32-put_uint32 (length bs) (omega arith),
      )
      (ground (arith, read_exact-append (length bs) bs rest))

-- A field that was read, and what is left.
pub record Field (bytes : List ℕ) (bound : ℕ) (r : List ℕ) (value rest : List ℕ) : Type 0 where
  pub whole : r ≡ bytes ++ rest
  pub size : length value ≤ bound
  pub rest_bytes : IsBytes rest

pub read_string-Field :
    (r : List ℕ) (s rest : List ℕ)
    → IsBytes r
    → read_string r ≡ ok (s, rest)
    → Field (string_bytes s) max_string r s rest
unfolding read_string
read_string-Field r s rest b h = elim (Result-cases (read_exact 2 r)) [
  | inr (e, q) ↦ absurd (cc)
  | inl ((size, r'), q) ↦
      let first = read_exact-Splits 2 r size r' q in
      let (sb, rb) = All-split IsByte size r' (subst IsBytes first.whole b) in
      let second = read_exact-Splits (uint16 size) r' s rest (ground arith) in
      record {
        whole = rw (
          first.whole,
          second.whole,
          second.size,
          put_uint16-uint16 size sb first.size,
          append_assoc size s rest,
        );
        size = omega (arith, second.size, uint16-lt size sb);
        rest_bytes = (All-split IsByte s rest (subst IsBytes second.whole rb)).1;
      }
]

pub read_bytes-Field :
    (r bs rest : List ℕ)
    → IsBytes r
    → read_bytes r ≡ ok (bs, rest)
    → Field (blob_bytes bs) max_payload_size r bs rest
unfolding read_bytes read_sized
read_bytes-Field r bs rest b h = elim (Result-cases (read_exact 4 r)) [
  | inr (e, q) ↦ absurd (cc)
  | inl ((size, r'), q) ↦
      let first = read_exact-Splits 4 r size r' q in
      let (sb, rb) = All-split IsByte size r' (subst IsBytes first.whole b) in
      let fits : (uint32 size ≤ max_payload_size) × (read_exact (uint32 size) r' ≡ ok (bs, rest)) =
        ground arith in
      let second = read_exact-Splits (uint32 size) r' bs rest fits.1 in
      record {
        whole = rw (
          first.whole,
          second.whole,
          second.size,
          put_uint32-uint32 size sb first.size,
          append_assoc size bs rest,
        );
        size = omega (arith, second.size, fits.0);
        rest_bytes = (All-split IsByte bs rest (subst IsBytes second.whole rb)).1;
      }
]
