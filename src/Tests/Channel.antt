-- ===== src/Tests/Channel.antt =====
-- The properties of the secure channel at a concrete pair of sides.
use hi_rodrop.Prelude.{◌≡◌, ◌⊎◌, refl, some, List, [], ◌∷◌, ok, err, arith, replicate}
use hi_rodrop.Prelude.Int.{pos, checked_add_i32}
use hi_rodrop.Prelude.Bytes.{Bytes}
use hi_rodrop.Wire.{
  OfflineFrame, OfflineFrameType, offline_frame_type_enumeration, offline_v1, SecureMessage,
}
use hi_rodrop.Crypto.Errors.{CryptoError}
use hi_rodrop.Crypto.Envelope.{seal}
use hi_rodrop.Crypto.Channel.{SecureChannel, new_channel, decrypt_offline_frame}
use hi_rodrop.Crypto.Channel.Delivery.{
  InStep, sent_to, received_to, decrypt-encrypt, encrypt_frames, decrypt_frames,
  decrypt_frames-encrypt_frames,
}
use hi_rodrop.Crypto.Channel.Sequence.{decrypt_accepts, decrypt_refuses, decrypt_out_of_order}
use hi_rodrop.Samples.Primitives.{sample_primitives}
use hi_rodrop.Samples.Messages.{sample_codecs}

abbrev key_a : Bytes
key_a = replicate 32 1

abbrev key_b : Bytes
key_b = replicate 32 2

abbrev our_side : SecureChannel
our_side = new_channel (record {
  decrypt_key = key_b;
  receive_hmac_key = key_b;
  encrypt_key = key_a;
  send_hmac_key = key_a;
})

abbrev their_side : SecureChannel
their_side = new_channel (record {
  decrypt_key = key_a;
  receive_hmac_key = key_a;
  encrypt_key = key_b;
  send_hmac_key = key_b;
})

abbrev in_step : InStep 0 our_side their_side
in_step = record { key = refl; hmac_key = refl; key_size = refl; sent = refl; received = refl }

abbrev iv : Bytes
iv = replicate 16 3

abbrev keep_alive : OfflineFrame
keep_alive = offline_v1 OfflineFrameType.keep_alive

abbrev disconnection : OfflineFrame
disconnection = offline_v1 OfflineFrameType.disconnection

decrypt_frames-encrypt_frames_example :
    (wires : List Bytes) × (encrypt_frames sample_primitives sample_codecs
        ((iv, keep_alive) ∷ (iv, disconnection) ∷ [])
        our_side
      ≡ (ok wires, sent_to 2 our_side))
    × (decrypt_frames sample_primitives sample_codecs wires their_side
        ≡ (ok (keep_alive ∷ disconnection ∷ []), received_to 2 their_side))
decrypt_frames-encrypt_frames_example =
    decrypt_frames-encrypt_frames sample_primitives sample_codecs 0 our_side their_side
      ((iv, keep_alive) ∷ (iv, disconnection) ∷ []) in_step (omega arith) (refl, (refl, tt))

-- The first frame, as it travels.
abbrev wire : Bytes
wire =
    (decrypt-encrypt sample_primitives sample_codecs 0 our_side their_side iv keep_alive in_step
      (omega arith) refl).0

wire_accepted :
    decrypt_offline_frame sample_primitives sample_codecs wire their_side
    ≡ (ok keep_alive, received_to 1 their_side)
wire_accepted =
    (decrypt-encrypt sample_primitives sample_codecs 0 our_side their_side iv keep_alive in_step
      (omega arith) refl).2

decrypt_accepts_example :
    ((sm : SecureMessage) × (sample_codecs.secure_message.decode wire ≡ some sm)
      × (sample_primitives.hmac_sha256 key_a sm.header_and_body ≡ some sm.signature))
    × (checked_add_i32 (pos 0) (pos 1) ≡ some (pos 1))
    × (their_side.keys ≡ their_side.keys)
    × (pos 0 ≡ pos 0)
decrypt_accepts_example =
    decrypt_accepts sample_primitives sample_codecs their_side (received_to 1 their_side) wire
      keep_alive wire_accepted

-- The third frame comes first.
decrypt_out_of_order_example :
    (wire : Bytes) × (seal sample_primitives sample_codecs our_side.keys (pos 3) iv keep_alive
      ≡ ok wire)
    × (decrypt_offline_frame sample_primitives sample_codecs wire their_side
        ≡ (err (CryptoError.sequence_mismatch (pos 1) (pos 3)), their_side))
decrypt_out_of_order_example =
    decrypt_out_of_order sample_primitives sample_codecs 0 3 our_side their_side iv keep_alive
      in_step (omega arith) (λ e. absurd (omega (arith, e))) refl

abbrev third : Bytes
third =
    (decrypt_out_of_order sample_primitives sample_codecs 0 3 our_side their_side iv keep_alive
      in_step (omega arith) (λ e. absurd (omega (arith, e))) refl).0

third_refused :
    decrypt_offline_frame sample_primitives sample_codecs third their_side
    ≡ (err (CryptoError.sequence_mismatch (pos 1) (pos 3)), their_side)
third_refused =
    (decrypt_out_of_order sample_primitives sample_codecs 0 3 our_side their_side iv keep_alive
      in_step (omega arith) (λ e. absurd (omega (arith, e))) refl).2

decrypt_refuses_example :
    (their_side ≡ their_side)
    ⊎ ((checked_add_i32 (pos 0) (pos 1) ≡ some (pos 0))
        × ((CryptoError.sequence_mismatch (pos 1) (pos 3) ≡ CryptoError.protobuf)
            ⊎ (CryptoError.sequence_mismatch (pos 1) (pos 3) ≡ CryptoError.invalid_secure_message)))
decrypt_refuses_example =
    decrypt_refuses sample_primitives sample_codecs their_side their_side third
      (CryptoError.sequence_mismatch (pos 1) (pos 3)) third_refused
