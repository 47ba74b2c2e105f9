-- ===== src/Protocol/Reading.antt =====
-- `ReadFrame` against the wire format.
use distributed_event_bus.Prelude.{
  ◌⊎◌, ltb, if◌then◌else◌, ℕ, ◌^◌, ◌≤◌, ◌<◌, ◌≡◌, refl, sym, List, [], ◌∷◌, ◌++◌, ok, err, length,
  take, arith, append_assoc, subst, ◌∙◌, All-split, Result-cases, inl, inr,
}
use distributed_event_bus.Wire.Bytes.{invalid_frame, oversized, IsBytes, IsByte, put_uint32, uint32}
use distributed_event_bus.Wire.Stream.{Source, read_full}
use distributed_event_bus.Wire.StreamLaws.{stream_bytes, read_full_enough, read_full-Took}
use distributed_event_bus.Protocol.Frame.{
  Frame, read_frame, read_payload, byte_at, header_size, max_payload_size, frame_bytes, IsValid,
}

abbrev header_bytes : ℕ → ℕ → List ℕ
header_bytes size kind = put_uint32 size ++ kind ∷ []

header_fields :
    (size kind : ℕ)
    → size < 2 ^ 32
    → (uint32 (take 4 (header_bytes size kind)) ≡ size)
      × (byte_at 4 (header_bytes size kind) ≡ kind)
      × (length (header_bytes size kind) ≡ 5)
unfolding put_uint32 uint32
header_fields size kind h = (omega arith, refl, refl)

-- The part of `read_frame` behind a good header.
read_payload_good :
    (size kind : ℕ) (payload : List ℕ) (s s' : Source)
    → size ≤ max_payload_size
    → 0 < kind
    → read_full size s ≡ ok (payload, s')
    → read_payload (header_bytes size kind) s ≡ ok (record { kind = kind; payload = payload }, s')
unfolding read_payload
read_payload_good size kind payload s s' hs hk e = ground (arith, e, header_fields size kind)

-- A frame read from a source that begins with a valid frame's bytes is that frame, however the
-- bytes are cut into pieces, and the source goes on behind it.
pub read_frame-frame_bytes :
    (f : Frame) (rest : List ℕ) (s : Source)
    → IsValid f
    → stream_bytes s ≡ frame_bytes f ++ rest
    → (s' : Source) × (read_frame s ≡ ok (f, s'))
      × (stream_bytes s' ≡ rest)
      × (s'.ending ≡ s.ending)
unfolding read_frame put_uint32
read_frame-frame_bytes f rest s v h =
    let header = header_bytes (length f.payload) f.kind in
    let (_, _, size) = header_fields (length f.payload) f.kind (omega arith) in
    let (s1, r1, b1, e1) =
      read_full_enough s header (f.payload ++ rest) (
        h ∙ sym (append_assoc (put_uint32 (length f.payload)) (f.kind ∷ []) (f.payload ++ rest))) in
    let (s2, r2, b2, e2) = read_full_enough s1 f.payload rest b1 in
    (
      s2,
      rw (subst (λ n. read_full n s ≡ ok (header, s1)) size r1)
          (read_payload_good (length f.payload) f.kind f.payload s1 s2 v.bounded v.typed r2),
      b2,
      e2 ∙ e1,
    )

-- A header whose size is above the limit, or whose type is 0, is refused by `ReadFrame` whatever
-- follows it; where both hold, the size is the reason that is given.
pub read_frame_refuses :
    (size kind : ℕ) (rest : List ℕ) (s : Source)
    → size < 2 ^ 32
    → stream_bytes s ≡ put_uint32 size ++ kind ∷ rest
    → (max_payload_size < size) ⊎ (kind ≡ 0)
    → read_frame s ≡ err (if ltb max_payload_size size then oversized size else invalid_frame)
unfolding read_frame read_payload
read_frame_refuses size kind rest s hs h bad =
    let header = header_bytes size kind in
    let (_, _, len) = header_fields size kind hs in
    let (s1, r1, b1, e1) =
      read_full_enough s header rest (h ∙ sym (append_assoc (put_uint32 size) (kind ∷ []) rest)) in
    let r : read_full header_size s ≡ ok (header, s1) =
      subst (λ n. read_full n s ≡ ok (header, s1)) len r1 in
    ground (arith, r, header_fields size kind)

-- What a successful `read_payload` has done.
record Payload (header : List ℕ) (f : Frame) (s s' : Source) : Type 0 where
  read : read_full (uint32 (take 4 header)) s ≡ ok (f.payload, s')
  kind : byte_at 4 header ≡ f.kind
  typed : 0 < f.kind
  bounded : uint32 (take 4 header) ≤ max_payload_size

read_payload-Payload :
    (header : List ℕ) (f : Frame) (s s' : Source)
    → read_payload header s ≡ ok (f, s')
    → Payload header f s s'
unfolding read_payload
read_payload-Payload header f s s' h = ground arith

-- Of the five bytes of a header the first four are the size.
header_split :
    (header : List ℕ)
    → IsBytes header
    → length header ≡ 5
    → (put_uint32 (uint32 (take 4 header)) ++ byte_at 4 header ∷ [] ≡ header)
      × (byte_at 4 header < 256)
unfolding put_uint32 uint32
header_split [] b e = absurd (omega arith)
header_split (x0 ∷ []) b e = absurd (omega arith)
header_split (x0 ∷ x1 ∷ []) b e = absurd (omega arith)
header_split (x0 ∷ x1 ∷ x2 ∷ []) b e = absurd (omega arith)
header_split (x0 ∷ x1 ∷ x2 ∷ x3 ∷ []) b e = absurd (omega arith)
header_split (x0 ∷ x1 ∷ x2 ∷ x3 ∷ x4 ∷ []) b e = ground arith
header_split (x0 ∷ x1 ∷ x2 ∷ x3 ∷ x4 ∷ x5 ∷ r) b e = absurd (omega arith)

read_payload_sound :
    (header : List ℕ) (f : Frame) (s s' : Source)
    → IsBytes header
    → length header ≡ 5
    → IsBytes (stream_bytes s)
    → read_payload header s ≡ ok (f, s')
    → IsValid f × (header ++ stream_bytes s ≡ frame_bytes f ++ stream_bytes s')
read_payload_sound header f s s' hb hl sb h =
    let p = read_payload-Payload header f s s' h in
    let t = read_full-Took _ f.payload s s' p.read in
    let (join, byte) = header_split header hb hl in
    let same : header_bytes (length f.payload) f.kind ≡ header = rw (t.size, ← p.kind) join in
    (
      record {
        typed = p.typed;
        type_byte = omega (arith, p.kind);
        bounded = omega (arith, t.size, p.bounded);
        payload_bytes = (All-split IsByte f.payload _ (subst IsBytes t.whole sb)).0;
      },
      rw (← same, t.whole)
          (append_assoc (put_uint32 (length f.payload)) (f.kind ∷ []) (f.payload ++ stream_bytes s')
            ∙ sym (
                append_assoc (put_uint32 (length f.payload)) (f.kind ∷ f.payload)
                  (stream_bytes s'))),
    )

-- A `ReadFrame` that succeeds on a stream of bytes has taken exactly the wire format of the frame
-- that it returns, and that frame is valid.
pub read_frame_sound :
    (f : Frame) (s s' : Source)
    → IsBytes (stream_bytes s)
    → read_frame s ≡ ok (f, s')
    → IsValid f × (stream_bytes s ≡ frame_bytes f ++ stream_bytes s')
unfolding read_frame
read_frame_sound f s s' b h = elim (Result-cases (read_full header_size s)) [
  | inr (e, r) ↦ absurd (cc)
  | inl ((header, s1), r) ↦
      let t = read_full-Took header_size header s s1 r in
      let (hb, sb) = All-split IsByte header (stream_bytes s1) (subst IsBytes t.whole b) in
      let (v, e) = read_payload_sound header f s1 s' hb t.size sb (ground arith) in (v, t.whole ∙ e)
]
