-- ===== src/Protocol/RoundTrip.antt =====
-- What `WriteFrame` sends, `ReadFrame` reads back over any network that keeps the bytes in order.
use distributed_event_bus.Prelude.{
  ℕ, ◌∷◌, All, subst, ◌≡◌, List, [], ◌++◌, Option, none, some, ok, ◌∙◌, sym, append_assoc,
  append-nil,
}
use distributed_event_bus.Wire.Bytes.{WireError}
use distributed_event_bus.Wire.Stream.{Source, Written, IsWriter}
use distributed_event_bus.Wire.StreamLaws.{stream_bytes}
use distributed_event_bus.Protocol.Frame.{Frame, write_frame, read_frame, frame_bytes, IsValid}
use distributed_event_bus.Protocol.Reading.{read_frame-frame_bytes}
use distributed_event_bus.Protocol.Writing.{Sends, sends_all, sends_part, write_frame-Sent}

-- Successive `WriteFrame` calls, none of which fails.
pub data Writes {S : Type 0} (write : S → List ℕ → Written S) : S → List Frame → S → Type 0 where
  wrote_none : {s : S} → Writes write s [] s
  wrote :
      {s : S} {f : Frame} {fs : List Frame} {s'' : S} (s' : S)
      → write_frame write s f ≡ some (none, s')
      → Writes write s' fs s''
      → Writes write s (f ∷ fs) s''

-- Successive `ReadFrame` calls, none of which fails.
pub data Reads : Source → List Frame → Source → Type 0 where
  read_none : {r : Source} → Reads r [] r
  reads :
      {r : Source} {f : Frame} {fs : List Frame} {r'' : Source} (r' : Source)
      → read_frame r ≡ ok (f, r')
      → Reads r' fs r''
      → Reads r (f ∷ fs) r''

abbrev pub frames_bytes : List Frame → List ℕ
frames_bytes [] = []
frames_bytes (f ∷ fs) = frame_bytes f ++ frames_bytes fs

Reads-frames_bytes :
    (fs : List Frame) (r : Source) (rest : List ℕ)
    → All IsValid fs
    → stream_bytes r ≡ frames_bytes fs ++ rest
    → (r' : Source) × Reads r fs r' × (stream_bytes r' ≡ rest)
Reads-frames_bytes [] r rest v h = (r, read_none, h)
Reads-frames_bytes (f ∷ fs) r rest v h =
    let (r1, e, b, _) =
      read_frame-frame_bytes f (frames_bytes fs ++ rest) r v.0
        (h ∙ append_assoc (frame_bytes f) (frames_bytes fs) rest) in
    let (r2, more, c) = Reads-frames_bytes fs r1 rest v.1 b in (r2, reads r1 e more, c)

module _ {S : Type 0} (write : S → List ℕ → Written S) (sent : S → List ℕ)
    (w : IsWriter write sent) where
  written :
      (s s' : S) (f : Frame)
      → IsValid f
      → write_frame write s f ≡ some (none, s')
      → sent s' ≡ sent s ++ frame_bytes f
  written s s' f v h =
      let (e, s1, r, q) = write_frame-Sent write sent w s f v.typed v.bounded in
      all_sent e s1 q (sym r ∙ h)
    where
      all_sent :
          (e : Option WireError) (s1 : S)
          → Sends sent s (frame_bytes f) e s1
          → ◌≡◌ {A = Option (Option WireError × S)} (some (e, s1)) (some (none, s'))
          → sent s' ≡ sent s ++ frame_bytes f
      all_sent e s1 (sends_all t q) p = subst (λ x. sent x ≡ sent s ++ frame_bytes f) (cc) q
      all_sent e s1 (sends_part e' t k q) p = absurd (cc)

  Writes-frames_bytes :
      (fs : List Frame) {s s' : S}
      → All IsValid fs
      → Writes write s fs s'
      → sent s' ≡ sent s ++ frames_bytes fs
  Writes-frames_bytes [] {s} v wrote_none = sym (append-nil (sent s))
  Writes-frames_bytes (f ∷ fs) {s} v (wrote s1 e more) =
      Writes-frames_bytes fs v.1 more
      ∙ rw (written s s1 f v.0 e) (append_assoc (sent s) (frame_bytes f) (frames_bytes fs))

  -- Let any writer that keeps the contract of `io.Writer` take a run of valid frames with no error,
  -- starting from nothing sent. Then a reader to which the bytes sent arrive, cut in any way and with
  -- more behind them, reads exactly those frames in that order and goes on with what is behind them.
  pub Reads-Writes :
      (fs : List Frame) (s s' : S) (r : Source) (rest : List ℕ)
      → All IsValid fs
      → sent s ≡ []
      → Writes write s fs s'
      → stream_bytes r ≡ sent s' ++ rest
      → (r' : Source) × Reads r fs r' × (stream_bytes r' ≡ rest)
  Reads-Writes fs s s' r rest v h ws b =
      Reads-frames_bytes fs r rest v (b ∙ rw (Writes-frames_bytes fs v ws, h))
