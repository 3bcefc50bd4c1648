-- ===== src/Crypto/Handshake/Commitment.antt =====
-- The commitment of the first message of the handshake of src/quick_share_crypto.rs, and the final
-- message that must match it.
use hi_rodrop.Prelude.{
  ◌≡◌, ◌≢◌, Option, some, ok, err, arith, and_then, length, Option-cases, inl, inr, Bool-cases,
}
use hi_rodrop.Prelude.Bytes.{Bytes, eq_bytes, eq_bytes_iff}
use hi_rodrop.Prelude.Utf8.{Text}
use hi_rodrop.Crypto.Errors.{CryptoError}
use hi_rodrop.Crypto.Primitives.{Primitives, Codecs}
use hi_rodrop.Crypto.Channel.{SecureChannel}
use hi_rodrop.Crypto.Handshake.{
  Ukey2Responder, find_commitment, accept_client_init, complete_responder,
}

module _ {SecretKey PublicKey : Type 0} (prim : Primitives SecretKey PublicKey)
    (codecs : Codecs) where
  -- The commitment that a ClientInit announces for the P-256 cipher.
  abbrev pub announced : Bytes → Option Bytes
  announced raw = and_then (codecs.ukey2_message.decode raw) λ outer.
      and_then outer.message_data λ content.
        and_then (codecs.client_init.decode content)
          λ init. and_then (find_commitment init.cipher_commitments) λ item. item.commitment

  accept-announced :
      (secret : SecretKey) (random raw out : Bytes) (r : Ukey2Responder SecretKey)
      → accept_client_init prim codecs secret random raw ≡ ok (r, out)
      → (announced raw ≡ some r.commitment) × (length r.commitment ≡ 64)
  unfolding accept_client_init
  accept-announced secret random raw out r e =
      elim (Option-cases (codecs.ukey2_message.decode raw)) [
        | inl d ↦ ground (arith, d)
        | inr (outer, d) ↦ elim (Option-cases outer.message_data) [
          | inl c ↦ ground (arith, d, c)
          | inr (content, c) ↦ elim (Option-cases (codecs.client_init.decode content)) [
            | inl i ↦ ground (arith, d, c, i)
            | inr (init, i) ↦ elim (Option-cases (find_commitment init.cipher_commitments)) [
              | inl f ↦ ground (arith, d, c, i, f)
              | inr (item, f) ↦ ground (arith, d, c, i, f)
            ]
          ]
        ]
      ]

  complete-commitment :
      (r : Ukey2Responder SecretKey) (finish : Bytes) (x : SecureChannel × Text × Text)
      → complete_responder prim codecs r finish ≡ ok x
      → prim.sha512 finish ≡ r.commitment
  unfolding complete_responder
  complete-commitment r finish x e =
      elim (Bool-cases (eq_bytes (prim.sha512 finish) r.commitment)) [
        | inl m ↦ (eq_bytes_iff (prim.sha512 finish) r.commitment).0 m
        | inr m ↦ cc (rw m at e)
      ]

  -- A responder that completes the handshake has been given the very message that the initiator
  -- committed to at the start: its SHA-512 is the 64 bytes that ClientInit announced.
  pub handshake_is_committed :
      (secret : SecretKey) (random init_raw server_raw finish : Bytes)
      (r : Ukey2Responder SecretKey) (x : SecureChannel × Text × Text)
      → accept_client_init prim codecs secret random init_raw ≡ ok (r, server_raw)
      → complete_responder prim codecs r finish ≡ ok x
      → (announced init_raw ≡ some (prim.sha512 finish)) × (length r.commitment ≡ 64)
  handshake_is_committed secret random init_raw server_raw finish r x e c =
      let (a, l) = accept-announced secret random init_raw server_raw r e in
      (rw (complete-commitment r finish x c) a, l)

  -- A final message whose SHA-512 is not the commitment is refused as a mismatch.
  pub complete_responder_mismatch :
      (r : Ukey2Responder SecretKey) (finish : Bytes)
      → prim.sha512 finish ≢ r.commitment
      → complete_responder prim codecs r finish ≡ err CryptoError.commitment_mismatch
  unfolding complete_responder
  complete_responder_mismatch r finish h =
      elim (Bool-cases (eq_bytes (prim.sha512 finish) r.commitment)) [
        | inl m ↦ absurd (h ((eq_bytes_iff (prim.sha512 finish) r.commitment).0 m))
        | inr m ↦ rw m
      ]
