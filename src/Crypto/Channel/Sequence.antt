-- ===== src/Crypto/Channel/Sequence.antt =====
-- What src/quick_share_crypto.rs accepts and what it counts, whatever arrives.
use hi_rodrop.Prelude.{
  ℕ, ◌+◌, ◌<◌, ◌≡◌, ◌≢◌, ◌⊎◌, inl, inr, some, ok, err, arith, Result-cases, Option-cases, length,
}
use hi_rodrop.Prelude.Int.{pos, ==ℤ_iff, checked_add_i32, checked_add_i32_one}
use hi_rodrop.Prelude.Bytes.{Bytes, eq_bytes_iff}
use hi_rodrop.Wire.{OfflineFrame, SecureMessage, DeviceToDeviceMessage}
use hi_rodrop.Crypto.Errors.{CryptoError}
use hi_rodrop.Crypto.Primitives.{Primitives, Codecs}
use hi_rodrop.Crypto.Keys.{SessionKeys}
use hi_rodrop.Crypto.Envelope.{seal, unseal}
use hi_rodrop.Crypto.Envelope.RoundTrip.{unseal-seal}
use hi_rodrop.Crypto.Channel.{SecureChannel, encrypt_offline_frame, decrypt_offline_frame}
use hi_rodrop.Crypto.Channel.Delivery.{max_sequence, next_in_range, InStep}

module _ {SecretKey PublicKey : Type 0} (prim : Primitives SecretKey PublicKey)
    (codecs : Codecs) where
  unseal_authentic :
      (keys : SessionKeys) (raw : Bytes) (m : DeviceToDeviceMessage)
      → unseal prim codecs keys raw ≡ ok m
      → (sm : SecureMessage) × (codecs.secure_message.decode raw ≡ some sm)
        × (prim.hmac_sha256 keys.receive_hmac_key sm.header_and_body ≡ some sm.signature)
  unfolding unseal
  unseal_authentic keys raw m e = elim (Option-cases (codecs.secure_message.decode raw)) [
    | inl d ↦ ground (arith, d)
    | inr (sm, d) ↦
        elim (Option-cases (prim.hmac_sha256 keys.receive_hmac_key sm.header_and_body)) [
          | inl x ↦ ground (arith, d, x)
          | inr (tag, x) ↦ (sm, d, ground (arith, d, x, eq_bytes_iff tag sm.signature))
        ]
  ]

  -- What is accepted is authentic and is the next message: the bytes decode to an envelope whose
  -- signature is the HMAC of its contents under the receiving key, and the channel changes only in
  -- its receiving count, which goes up by exactly one.
  pub decrypt_accepts :
      (c d : SecureChannel) (raw : Bytes) (frame : OfflineFrame)
      → decrypt_offline_frame prim codecs raw c ≡ (ok frame, d)
      → ((sm : SecureMessage) × (codecs.secure_message.decode raw ≡ some sm)
          × (prim.hmac_sha256 c.keys.receive_hmac_key sm.header_and_body ≡ some sm.signature))
        × (checked_add_i32 c.receive_sequence (pos 1) ≡ some d.receive_sequence)
        × (d.keys ≡ c.keys)
        × (d.send_sequence ≡ c.send_sequence)
  unfolding decrypt_offline_frame
  decrypt_accepts c d raw frame e = elim (Result-cases (unseal prim codecs c.keys raw)) [
    | inl (m, u) ↦ (unseal_authentic c.keys raw m u, next m u, ground (arith, u), ground (arith, u))
    | inr (x, u) ↦ ground (arith, u)
  ]
    where
      next :
          (m : DeviceToDeviceMessage)
          → unseal prim codecs c.keys raw ≡ ok m
          → checked_add_i32 c.receive_sequence (pos 1) ≡ some d.receive_sequence
      next m u = elim (Option-cases m.sequence_number) [
        | inl s ↦ ground (arith, u, s)
        | inr (a, s) ↦ elim (Option-cases (checked_add_i32 c.receive_sequence (pos 1))) [
          | inl n ↦ ground (arith, u, s, n)
          | inr (b, n) ↦ ground (arith, u, s, n, ==ℤ_iff a b)
        ]
      ]

  -- A message that is refused leaves the channel as it was, or it counts as received, by one, and
  -- then the error is that of a missing or undecodable payload.
  pub decrypt_refuses :
      (c d : SecureChannel) (raw : Bytes) (x : CryptoError)
      → decrypt_offline_frame prim codecs raw c ≡ (err x, d)
      → (d ≡ c)
        ⊎ ((checked_add_i32 c.receive_sequence (pos 1) ≡ some d.receive_sequence)
            × ((x ≡ CryptoError.protobuf) ⊎ (x ≡ CryptoError.invalid_secure_message)))
  unfolding decrypt_offline_frame
  decrypt_refuses c d raw x e = elim (Result-cases (unseal prim codecs c.keys raw)) [
    | inl (m, u) ↦ elim (Option-cases m.sequence_number) [
      | inl s ↦ inl (ground (arith, u, s))
      | inr (a, s) ↦ elim (Option-cases (checked_add_i32 c.receive_sequence (pos 1))) [
        | inl n ↦ inl (ground (arith, u, s, n))
        | inr (b, n) ↦ ground (arith, u, s, n, ==ℤ_iff a b)
      ]
    ]
    | inr (y, u) ↦ inl (ground (arith, u))
  ]

  -- Of two sides in step that have not used up the numbers of an `i32`, a message that was sealed
  -- under the right keys, with an IV of 16 bytes, and does not bear the next number (a replay, or
  -- one that overtook another) is refused with both numbers, and the channel stays as it was.
  pub decrypt_out_of_order :
      (n k : ℕ) (sender receiver : SecureChannel) (iv : Bytes) (frame : OfflineFrame)
      → InStep n sender receiver
      → n < max_sequence
      → k ≢ n + 1
      → length iv ≡ 16
      → (wire : Bytes) × (seal prim codecs sender.keys (pos k) iv frame ≡ ok wire)
        × (decrypt_offline_frame prim codecs wire receiver
            ≡ (err (CryptoError.sequence_mismatch (pos (n + 1)) (pos k)), receiver))
  unfolding decrypt_offline_frame
  decrypt_out_of_order n k sender receiver iv frame h hn hk hv =
      let (wire, e1, e2) =
        unseal-seal prim codecs sender.keys receiver.keys (pos k) iv frame h.key h.hmac_key
          h.key_size hv in
      (wire, e1, rw (e2, h.received, next_in_range n hn) (ground arith))

  -- When the sending count has reached the last number of an `i32`, sending fails and changes
  -- nothing.
  pub encrypt_exhausted :
      (c : SecureChannel) (iv : Bytes) (frame : OfflineFrame)
      → c.send_sequence ≡ pos max_sequence
      → encrypt_offline_frame prim codecs iv frame c ≡ (err CryptoError.invalid_secure_message, c)
  unfolding encrypt_offline_frame
  encrypt_exhausted c iv frame h = ground (arith, h, checked_add_i32_one max_sequence)
