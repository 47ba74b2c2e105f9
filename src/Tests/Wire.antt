-- ===== src/Tests/Wire.antt =====
-- The theorems on frames applied to short ones, over a writer that takes one byte at a time.
use distributed_event_bus.Prelude.{
  inr, ℕ, ◌≤◌, ◌≡◌, refl, sym, append-nil, List, [], ◌∷◌, ◌++◌, none, arith, length, take, ok, err,
}
use distributed_event_bus.Wire.Bytes.{eof, invalid_frame, IsBytes, put_uint32, uint32}
use distributed_event_bus.Wire.Stream.{read_full, Source, Written, IsWriter}
use distributed_event_bus.Wire.StreamLaws.{stream_bytes}
use distributed_event_bus.Protocol.Frame.{
  Frame, write_frame, write_full, read_frame, frame_bytes, IsValid,
}
use distributed_event_bus.Protocol.Writing.{Sent, write_frame-Sent}
use distributed_event_bus.Protocol.Reading.{
  read_frame-frame_bytes, read_frame_refuses, read_frame_sound,
}
use distributed_event_bus.Protocol.RoundTrip.{Writes, wrote_none, wrote, Reads, Reads-Writes}
use distributed_event_bus.Tests.Samples.{ping, greeting}

-- The state of this writer is what it has taken.
abbrev one_byte : List ℕ → List ℕ → Written (List ℕ)
one_byte taken [] = record { count = 0; failure = none; after = taken }
one_byte taken (b ∷ bs) = record { count = 1; failure = none; after = taken ++ (b ∷ []) }

abbrev so_far : List ℕ → List ℕ
so_far taken = taken

one_byte-IsWriter : IsWriter one_byte so_far
one_byte-IsWriter = record { count_le = bounded; takes_prefix = prefix }
  where
    bounded : (s p : List ℕ) → (one_byte s p).count ≤ length p
    bounded s [] = omega arith
    bounded s (b ∷ bs) = omega arith

    prefix : (s p : List ℕ) → (one_byte s p).after ≡ s ++ take (one_byte s p).count p
    prefix s [] = sym (append-nil s)
    prefix s (b ∷ bs) = refl

ping-IsValid : IsValid ping
ping-IsValid = record {
  typed = omega arith;
  type_byte = omega arith;
  bounded = omega arith;
  payload_bytes = tt;
}

greeting-IsValid : IsValid greeting
greeting-IsValid = record {
  typed = omega arith;
  type_byte = omega arith;
  bounded = omega arith;
  payload_bytes = (omega arith, (omega arith, (omega arith, tt)));
}

-- The bytes of a greeting in three pieces, with one byte more.
abbrev arriving : Source
arriving = record {
  pieces = (0 ∷ 0 ∷ []) ∷ (0 ∷ 3 ∷ 1 ∷ 0 ∷ []) ∷ (1 ∷ 104 ∷ 9 ∷ []) ∷ [];
  ending = eof;
}

-- The same with the type 0.
abbrev untyped : Source
untyped = record { pieces = (0 ∷ 0 ∷ 0 ∷ 3 ∷ []) ∷ (0 ∷ 0 ∷ []) ∷ []; ending = eof }

write_frame-Sent_example : Sent so_far [] (frame_bytes greeting) (write_frame one_byte [] greeting)
write_frame-Sent_example =
    write_frame-Sent one_byte so_far one_byte-IsWriter [] greeting (omega arith) (omega arith)

abbrev no_type : Frame
no_type = record { kind = 0; payload = [] }

read_frame-frame_bytes_example :
    (s' : Source) × (read_frame arriving ≡ ok (greeting, s'))
    × (stream_bytes s' ≡ 9 ∷ [])
    × (s'.ending ≡ eof)
unfolding put_uint32
read_frame-frame_bytes_example =
    read_frame-frame_bytes greeting (9 ∷ []) arriving greeting-IsValid refl

read_frame_refuses_example : read_frame untyped ≡ err invalid_frame
unfolding put_uint32
read_frame_refuses_example = read_frame_refuses 3 0 (0 ∷ []) untyped (omega arith) refl (inr refl)

arriving-IsBytes : IsBytes (stream_bytes arriving)
arriving-IsBytes = (
  omega arith,
  (
    omega arith,
    (
      omega arith,
      (omega arith, (omega arith, (omega arith, (omega arith, (omega arith, (omega arith, tt)))))),
    ),
  ),
)

read_frame_sound_example :
    IsValid greeting × (stream_bytes arriving ≡ frame_bytes greeting ++ (9 ∷ []))
unfolding read_frame read_full uint32
read_frame_sound_example =
    read_frame_sound greeting arriving (record { pieces = (9 ∷ []) ∷ []; ending = eof })
      arriving-IsBytes refl

two_written : Writes one_byte [] (ping ∷ greeting ∷ []) (frame_bytes ping ++ frame_bytes greeting)
unfolding write_frame write_full put_uint32
two_written = wrote (frame_bytes ping) refl (wrote _ refl wrote_none)

Reads-Writes_example :
    (r' : Source) × Reads
      (record { pieces = (frame_bytes ping ++ frame_bytes greeting) ∷ []; ending = eof })
      (ping ∷ greeting ∷ [])
      r'
    × (stream_bytes r' ≡ [])
unfolding put_uint32
Reads-Writes_example =
    Reads-Writes one_byte so_far one_byte-IsWriter (ping ∷ greeting ∷ []) []
      (frame_bytes ping ++ frame_bytes greeting) _ [] (ping-IsValid, (greeting-IsValid, tt)) refl
      two_written refl
