-- ===== src/Crypto/Channel/Delivery.antt =====
-- A frame that one side of src/quick_share_crypto.rs encrypts, decrypted by the other side.
use hi_rodrop.Prelude.{
  ℕ, ◌+◌, ◌-◌, ◌≤◌, ◌<◌, ◌^◌, ◌≡◌, refl, List, [], ◌∷◌, some, ok, arith, length, All, map,
}
use hi_rodrop.Prelude.Int.{pos, ==ℤ_refl, checked_add_i32, checked_add_i32_one}
use hi_rodrop.Prelude.Bytes.{Bytes}
use hi_rodrop.Prelude.Exec.{Exec, pure, ◌>>=◌}
use hi_rodrop.Wire.{OfflineFrame}
use hi_rodrop.Crypto.Errors.{CryptoError}
use hi_rodrop.Crypto.Primitives.{Primitives, Codecs}
use hi_rodrop.Crypto.Envelope.RoundTrip.{unseal-seal}
use hi_rodrop.Crypto.Channel.{SecureChannel, encrypt_offline_frame, decrypt_offline_frame}

abbrev pub max_sequence : ℕ
max_sequence = 2 ^ 31 - 1

-- The sender has sealed `n` frames and the receiver has accepted as many.
pub record InStep (n : ℕ) (sender receiver : SecureChannel) : Type 0 where
  pub key : sender.keys.encrypt_key ≡ receiver.keys.decrypt_key
  pub hmac_key : sender.keys.send_hmac_key ≡ receiver.keys.receive_hmac_key
  pub key_size : length sender.keys.encrypt_key ≡ 32
  pub sent : sender.send_sequence ≡ pos n
  pub received : receiver.receive_sequence ≡ pos n

abbrev pub sent_to : ℕ → SecureChannel → SecureChannel
sent_to n c = record c { send_sequence = pos n }

abbrev pub received_to : ℕ → SecureChannel → SecureChannel
received_to n c = record c { receive_sequence = pos n }

pub next_in_range :
    (n : ℕ) → n < max_sequence → checked_add_i32 (pos n) (pos 1) ≡ some (pos (n + 1))
next_in_range n h = ground (arith, checked_add_i32_one n)

module _ {SecretKey PublicKey : Type 0} (prim : Primitives SecretKey PublicKey)
    (codecs : Codecs) where
  -- The next frame is delivered: it is encrypted, decrypted to itself, and both sides count it.
  pub decrypt-encrypt :
      (n : ℕ) (sender receiver : SecureChannel) (iv : Bytes) (frame : OfflineFrame)
      → InStep n sender receiver
      → n < max_sequence
      → length iv ≡ 16
      → (wire : Bytes) × (encrypt_offline_frame prim codecs iv frame sender
          ≡ (ok wire, sent_to (n + 1) sender))
        × (decrypt_offline_frame prim codecs wire receiver
            ≡ (ok frame, received_to (n + 1) receiver))
  unfolding encrypt_offline_frame decrypt_offline_frame
  decrypt-encrypt n sender receiver iv frame h hn hv =
      let (wire, e1, e2) =
        unseal-seal prim codecs sender.keys receiver.keys (pos (n + 1)) iv frame h.key h.hmac_key
          h.key_size hv in
      (
        wire,
        rw (h.sent, next_in_range n hn, e1),
        rw (
          e2,
          h.received,
          next_in_range n hn,
          ==ℤ_refl (pos (n + 1)),
          codecs.offline_frame.decode-encode frame,
        ),
      )

  -- Encrypt one frame after the other, each with its IV; and decrypt as many messages.
  pub encrypt_frames : List (Bytes × OfflineFrame) → Exec SecureChannel CryptoError (List Bytes)
  encrypt_frames [] = pure []
  encrypt_frames ((iv, frame) ∷ rest) = do
    wire ← encrypt_offline_frame prim codecs iv frame
    wires ← encrypt_frames rest
    pure (wire ∷ wires)

  pub decrypt_frames : List Bytes → Exec SecureChannel CryptoError (List OfflineFrame)
  decrypt_frames [] = pure []
  decrypt_frames (wire ∷ wires) = do
    frame ← decrypt_offline_frame prim codecs wire
    frames ← decrypt_frames wires
    pure (frame ∷ frames)

  abbrev pub IsIv : Bytes × OfflineFrame → Type 0
  IsIv (iv, frame) = length iv ≡ 16

  -- A whole conversation in one direction: of two sides in step, the frames that one encrypts in
  -- order, with IVs of 16 bytes, are decrypted by the other to the same frames in the same order,
  -- and both end in step, as long as the count stays an `i32`.
  pub decrypt_frames-encrypt_frames :
      (n : ℕ) (sender receiver : SecureChannel) (frames : List (Bytes × OfflineFrame))
      → InStep n sender receiver
      → n + length frames ≤ max_sequence
      → All IsIv frames
      → (wires : List Bytes) × (encrypt_frames frames sender
          ≡ (ok wires, sent_to (n + length frames) sender))
        × (decrypt_frames wires receiver
            ≡ (ok (map (λ p. p.1) frames), received_to (n + length frames) receiver))
  unfolding encrypt_frames decrypt_frames
  decrypt_frames-encrypt_frames n sender receiver [] h hn hv = ([], (ground arith), ground arith)
  decrypt_frames-encrypt_frames n sender receiver ((iv, frame) ∷ rest) h hn hv =
      let (wire, e1, e2) = decrypt-encrypt n sender receiver iv frame h (omega arith) hv.0 in
      let (wires, e3, e4) =
        decrypt_frames-encrypt_frames (n + 1) (sent_to (n + 1) sender)
          (received_to (n + 1) receiver) rest
          (record {
            key = h.key;
            hmac_key = h.hmac_key;
            key_size = h.key_size;
            sent = refl;
            received = refl;
          })
          (omega arith) hv.1 in
      (wire ∷ wires, rw (e1, e3) (ground arith), rw (e2, e4) (ground arith))
