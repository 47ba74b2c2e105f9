-- ===== src/Messages/Rejects.antt =====
-- Payloads that do not decode: a message cut short, and a message with bytes behind it.
use distributed_event_bus.Prelude.{
  ℕ, ◌≡◌, ap, ◌∙◌, List, ◌∷◌, ◌++◌, Result, ok, err, ◌>>=◌, or_else, arith, append_assoc,
  Result-cases, All-split, inl, inr,
}
use distributed_event_bus.Wire.Bytes.{WireError, invalid_payload, IsBytes, IsByte}
use distributed_event_bus.Messages.Fields.{read_string, read_bytes}
use distributed_event_bus.Messages.FieldLaws.{
  string_bytes, blob_bytes, read_string-string_bytes, read_bytes-blob_bytes,
}
use distributed_event_bus.Messages.Codec.{PublishMessage, finish, decode_publish}
use distributed_event_bus.Messages.PublishRoundTrip.{PublishLayout, decode_publish-PublishLayout}

bind_error :
    {A B : Type 0} (r : Result WireError A) (k : A → Result WireError B)
    → ((a : A) → (e : WireError) → k a ≡ err e → e ≡ invalid_payload)
    → (e : WireError) → (or_else r invalid_payload >>= k) ≡ err e
    → e ≡ invalid_payload
bind_error (ok a) k h e q = h a e q
bind_error (err _) k h e q = cc

finish_error :
    {A : Type 0} (a : A) (r : List ℕ) (e : WireError) → finish a r ≡ err e → e ≡ invalid_payload
unfolding finish
finish_error a r e h = ground arith

decode_publish_error :
    (payload : List ℕ) (e : WireError) → decode_publish payload ≡ err e → e ≡ invalid_payload
unfolding decode_publish
decode_publish_error payload = bind_error (read_string payload) _ λ a1.
    bind_error (read_string a1.1) _ λ a2. bind_error (read_string a2.1) _ λ a3.
      bind_error (read_string a3.1) _ λ a4. bind_error (read_bytes a4.1) _ λ a5. finish_error _ a5.1

behind :
    (a b c d e z : List ℕ) → (a ++ (b ++ (c ++ (d ++ e)))) ++ z ≡ a ++ (b ++ (c ++ (d ++ (e ++ z))))
behind a b c d e z = simp append_assoc

decode_publish_longer :
    (m : PublishMessage) (payload : List ℕ) (x : ℕ) (more : List ℕ)
    → PublishLayout m payload
    → decode_publish (payload ++ (x ∷ more)) ≡ err invalid_payload
unfolding decode_publish
decode_publish_longer m payload x more l =
    rw
      (
        l.layout,
        behind (string_bytes m.id) (string_bytes m.idempotency_key) (string_bytes m.topic)
            (string_bytes m.key) (blob_bytes m.payload) (x ∷ more),
        read_string-string_bytes m.id _ l.id_fits,
        read_string-string_bytes m.idempotency_key _ l.idempotency_key_fits,
        read_string-string_bytes m.topic _ l.topic_fits,
        read_string-string_bytes m.key _ l.key_fits,
        read_bytes-blob_bytes m.payload (x ∷ more) l.payload_fits,
      )
      (ground arith)

-- A list of bytes that decodes to a publish message is no longer accepted with bytes added behind
-- it, nor is any proper prefix of it: both are refused as invalid.
pub decode_publish_exact :
    (m : PublishMessage) (front back more : List ℕ) (x y : ℕ)
    → IsBytes (front ++ (x ∷ back))
    → decode_publish (front ++ (x ∷ back)) ≡ ok m
    → (decode_publish ((front ++ (x ∷ back)) ++ (y ∷ more)) ≡ err invalid_payload)
      × (decode_publish front ≡ err invalid_payload)
decode_publish_exact m front back more x y b h = (
  decode_publish_longer m (front ++ (x ∷ back)) y more
      (decode_publish-PublishLayout m (front ++ (x ∷ back)) b h),
  elim (Result-cases (decode_publish front)) [
    | inr (w, q) ↦ q ∙ ap err (decode_publish_error front w q)
    | inl (n, q) ↦ absurd (
        cc (
          decode_publish_longer n front x back
              (decode_publish-PublishLayout n front (All-split IsByte front _ b).0 q),
          h,
        ))
  ],
)
