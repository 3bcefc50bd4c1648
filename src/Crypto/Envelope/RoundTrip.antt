-- ===== src/Crypto/Envelope/RoundTrip.antt =====
-- An envelope that one side seals, opened by the other side of src/quick_share_crypto.rs.
use hi_rodrop.Prelude.{◌≡◌, ok, length, arith}
use hi_rodrop.Prelude.Int.{ℤ}
use hi_rodrop.Prelude.Bytes.{Bytes, eq_bytes_refl}
use hi_rodrop.Wire.{OfflineFrame}
use hi_rodrop.Crypto.Primitives.{Primitives, Codecs}
use hi_rodrop.Crypto.Keys.{SessionKeys}
use hi_rodrop.Crypto.Envelope.{device_message, envelope, secure, seal, unseal}

module _ {SecretKey PublicKey : Type 0} (prim : Primitives SecretKey PublicKey)
    (codecs : Codecs) where
  pub unseal-seal :
      (sender receiver : SessionKeys) (sequence : ℤ) (iv : Bytes) (frame : OfflineFrame)
      → sender.encrypt_key ≡ receiver.decrypt_key
      → sender.send_hmac_key ≡ receiver.receive_hmac_key
      → length sender.encrypt_key ≡ 32
      → length iv ≡ 16
      → (wire : Bytes) × (seal prim codecs sender sequence iv frame ≡ ok wire)
        × (unseal prim codecs receiver wire ≡ ok (device_message prim codecs sequence frame))
  unfolding seal unseal
  unseal-seal sender receiver sequence iv frame ek mk size ivl =
      let m = device_message prim codecs sequence frame in
      let (body, e1, e2) =
        prim.cbc_round_trip sender.encrypt_key iv (codecs.device_message.encode m) size ivl in
      let env = envelope prim codecs iv body in
      let hb = codecs.header_and_body.encode env in
      let (tag, e3) = prim.hmac_total sender.send_hmac_key hb in
      let sm = secure prim codecs hb tag in
      (
        codecs.secure_message.encode sm,
        rw (e1, e3),
        rw
            (
              codecs.secure_message.decode-encode sm,
              ← mk,
              e3,
              eq_bytes_refl tag,
              codecs.header_and_body.decode-encode env,
            )
            (ground (arith, codecs.device_message.decode-encode m)),
      )
