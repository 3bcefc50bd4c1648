-- ===== src/Session/Delivery.antt =====
-- What one side of a session has sent, the other side reads (`send_encrypted_offline` and
-- `read_encrypted_offline` of src/quick_share_receiver.rs and src/quick_share_sender.rs).
use hi_rodrop.Prelude.{
  ℕ, suc, ◌+◌, ◌<◌, ◌^◌, ◌≡◌, refl, sym, ap, ◌∙◌, inl, inr, none, List, [], ◌∷◌, ◌++◌, ok, Result,
  Option-cases, arith, length, ltb, Bool-cases, ltb→lt,
}
use hi_rodrop.Prelude.Int.{pos, checked_add_i32_one}
use hi_rodrop.Prelude.Bytes.{Bytes}
use hi_rodrop.Wire.{OfflineFrame}
use hi_rodrop.Transport.{FrameIoError, Stream, write_frame, write_all}
use hi_rodrop.Transport.Frames.{framed, IsFrame, write_frame-framed}
use hi_rodrop.Crypto.Errors.{CryptoError}
use hi_rodrop.Crypto.Primitives.{Primitives, Codecs}
use hi_rodrop.Crypto.Keys.{SessionKeys}
use hi_rodrop.Crypto.Channel.{SecureChannel, encrypt_offline_frame, decrypt_offline_frame}
use hi_rodrop.Crypto.Channel.Delivery.{InStep, sent_to, received_to, max_sequence, decrypt-encrypt}

-- What one side encrypts, the other one can decrypt.
pub record AreMatched (sender receiver : SessionKeys) : Type 0 where
  pub key : sender.encrypt_key ≡ receiver.decrypt_key
  pub hmac_key : sender.send_hmac_key ≡ receiver.receive_hmac_key
  pub key_size : length sender.encrypt_key ≡ 32

pub write_frame_inverse :
    (frame : Bytes) (s t : Stream)
    → write_frame frame s ≡ (ok tt, t)
    → IsFrame frame × (s.write_fault ≡ none) × (t ≡ record s { output = s.output ++ framed frame })
unfolding write_frame write_all
write_frame_inverse frame s t e = elim (Option-cases s.write_fault) [
  | inl n ↦
      let size : IsFrame frame = ground (arith, n, e) in
      (size, n, ap (λ (p : Result FrameIoError (Unit {0}) × Stream). p.1) (sym e ∙ shut size n))
  | inr (kind, n) ↦ absurd (ground (arith, n, e))
]
  where
    shut :
        IsFrame frame
        → s.write_fault ≡ none
        → write_frame frame s ≡ (ok tt, record s { output = s.output ++ framed frame })
    shut size n = write_frame-framed frame s size n

module _ {SecretKey PublicKey : Type 0} (prim : Primitives SecretKey PublicKey)
    (codecs : Codecs) where
  -- Whoever has these keys and has accepted `n` messages takes the message as this frame.
  abbrev pub Opens : ℕ → SessionKeys → Bytes → OfflineFrame → Type 0
  Opens n keys wire frame =
      (c : SecureChannel)
      → c.keys ≡ keys
      → c.receive_sequence ≡ pos n
      → decrypt_offline_frame prim codecs wire c ≡ (ok frame, received_to (suc n) c)

  -- The bytes are the wire form of these frames, numbered from `n` on, before the rest.
  abbrev pub Brings : ℕ → SessionKeys → List OfflineFrame → Bytes → Bytes → Type 0
  Brings n keys [] rest input = input ≡ rest
  Brings n keys (frame ∷ frames) rest input =
      (wire tail : Bytes) × IsFrame wire
      × (input ≡ framed wire ++ tail)
      × Opens n keys wire frame
      × Brings (suc n) keys frames rest tail

  module _ (n : ℕ) (c : SecureChannel) (keys : SessionKeys) (iv : Bytes) (frame : OfflineFrame)
      (matched : AreMatched c.keys keys) (count : c.send_sequence ≡ pos n)
      (size : length iv ≡ 16) where
    in_step : (d : SecureChannel) → d.keys ≡ keys → d.receive_sequence ≡ pos n → InStep n c d
    in_step d k r = record {
      key = matched.key ∙ ap (λ (x : SessionKeys). x.decrypt_key) (sym k);
      hmac_key = matched.hmac_key ∙ ap (λ (x : SessionKeys). x.receive_hmac_key) (sym k);
      key_size = matched.key_size;
      sent = count;
      received = r;
    }

    abbrev first_peer : SecureChannel
    first_peer = record { keys = keys; receive_sequence = pos n; send_sequence = pos 0 }

    encrypts :
        (wire : Bytes) (d : SecureChannel)
        → encrypt_offline_frame prim codecs iv frame c ≡ (ok wire, d)
        → n < max_sequence
    unfolding encrypt_offline_frame
    encrypts wire d e = elim (Bool-cases (ltb (n + 1) (2 ^ 31))) [
      | inl h ↦ omega (arith, ltb→lt (n + 1) (2 ^ 31) h)
      | inr h ↦ absurd (cc (rw (count, checked_add_i32_one n, h) at e))
    ]

    pub opened :
        (wire : Bytes) (d : SecureChannel)
        (e : encrypt_offline_frame prim codecs iv frame c ≡ (ok wire, d))
        → Opens n keys wire frame
    opened wire d e peer k r =
        let (wire', e1, e2) =
          decrypt-encrypt prim codecs n c peer iv frame (in_step peer k r) (encrypts wire d e)
            size in
        let same : wire' ≡ wire = cc (sym e1 ∙ e) in
        let next : n + 1 ≡ suc n = omega arith in rw (← same, ← next) e2

    pub counted :
        (wire : Bytes) (d : SecureChannel)
        (e : encrypt_offline_frame prim codecs iv frame c ≡ (ok wire, d))
        → d ≡ sent_to (suc n) c
    counted wire d e =
        let (wire', e1, e2) =
          decrypt-encrypt prim codecs n c first_peer iv frame (in_step first_peer refl refl)
            (encrypts wire d e) size in
        let next : n + 1 ≡ suc n = omega arith in
        ap (λ (p : Result CryptoError Bytes × SecureChannel). p.1) (sym e ∙ e1) ∙ rw next refl
