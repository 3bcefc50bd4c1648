-- ===== src/Crypto/Handshake/Agreement.antt =====
-- The two sides of the handshake of src/quick_share_crypto.rs against one another.
use hi_rodrop.Prelude.{◌≡◌, refl, true, false, some, ok, arith, length, ◌++◌}
use hi_rodrop.Prelude.Bytes.{Bytes, eq_bytes_refl}
use hi_rodrop.Crypto.Primitives.{Primitives, Codecs}
use hi_rodrop.Crypto.Keys.{SessionKeys, derive_session_keys}
use hi_rodrop.Crypto.Keys.Mirror.{IsMirror, IsSized, derive_session_keys-IsMirror}
use hi_rodrop.Crypto.Channel.{new_channel}
use hi_rodrop.Crypto.Pin.{pin_code}
use hi_rodrop.Crypto.PublicKeys.{encode_generic_public_key}
use hi_rodrop.Crypto.PublicKeys.RoundTrip.{decode_generic_public_key-encode_generic_public_key}
use hi_rodrop.Crypto.Handshake.{
  Ukey2Responder, Ukey2Initiator, ukey2_message, client_finish, client_init, server_init, begin,
  complete_initiator, accept_client_init, complete_responder, public_key_bytes, hex, next_protocol,
}
use hi_rodrop.Wire.{Ukey2MessageType, Ukey2ClientFinished}

module _ {SecretKey PublicKey : Type 0} (prim : Primitives SecretKey PublicKey)
    (codecs : Codecs) where
  abbrev client_init_bytes : SecretKey → Bytes → Bytes
  client_init_bytes secret random = codecs.ukey2_message.encode (
      ukey2_message prim codecs Ukey2MessageType.client_init
        (codecs.client_init.encode (client_init prim codecs secret random)))

  abbrev server_init_bytes : SecretKey → Bytes → Bytes
  server_init_bytes secret random = codecs.ukey2_message.encode (
      ukey2_message prim codecs Ukey2MessageType.server_init
        (codecs.server_init.encode (server_init prim codecs secret random)))

  abbrev initiator : SecretKey → Bytes → Ukey2Initiator SecretKey
  initiator secret random = record {
    client_init_raw = client_init_bytes secret random;
    client_finish_raw = client_finish prim codecs secret;
    secret_key = secret;
  }

  abbrev responder : SecretKey → Bytes → SecretKey → Bytes → Ukey2Responder SecretKey
  responder mine random theirs their_random = record {
    commitment = prim.sha512 (client_finish prim codecs theirs);
    client_init_raw = client_init_bytes theirs their_random;
    server_init_raw = server_init_bytes mine random;
    secret_key = mine;
  }

  -- A ClientInit that `begin` builds is accepted, with its commitment.
  accept_client_init-begin :
      (mine theirs : SecretKey) (random their_random : Bytes)
      → length their_random ≡ 32
      → accept_client_init prim codecs mine random (client_init_bytes theirs their_random)
        ≡ ok (responder mine random theirs their_random, server_init_bytes mine random)
  unfolding accept_client_init
  accept_client_init-begin mine theirs random their_random h =
      let init = client_init prim codecs theirs their_random in
      rw
        (
          codecs.ukey2_message.decode-encode (
              ukey2_message prim codecs Ukey2MessageType.client_init
                (codecs.client_init.encode init)),
          codecs.client_init.decode-encode init,
        )
        (ground (
          arith,
          eq_bytes_refl next_protocol,
          prim.length-sha512 (client_finish prim codecs theirs),
        ))

  complete_initiator_lem :
      (mine theirs : SecretKey) (random their_random : Bytes) (client : SessionKeys) (auth : Bytes)
      → length their_random ≡ 32
      → derive_session_keys prim
          (prim.sha256 (prim.diffie_hellman mine (prim.public_key theirs)))
          (client_init_bytes mine random ++ server_init_bytes theirs their_random)
          false
        ≡ ok (client, auth)
      → complete_initiator prim codecs
          (initiator mine random)
          (server_init_bytes theirs their_random)
        ≡ ok (client_finish prim codecs mine, new_channel client, pin_code auth, auth)
  unfolding complete_initiator
  complete_initiator_lem mine theirs random their_random client auth h d =
      let init = server_init prim codecs theirs their_random in
      let key = encode_generic_public_key prim (prim.public_key theirs) in
      rw (
        codecs.ukey2_message.decode-encode (
            ukey2_message prim codecs Ukey2MessageType.server_init
              (codecs.server_init.encode init)),
        codecs.server_init.decode-encode init,
        h,
        codecs.generic_public_key.decode-encode key,
        decode_generic_public_key-encode_generic_public_key prim (prim.public_key theirs),
        d,
      )

  complete_responder_lem :
      (mine theirs : SecretKey) (random their_random : Bytes) (server : SessionKeys) (auth : Bytes)
      → derive_session_keys prim
          (prim.sha256 (prim.diffie_hellman mine (prim.public_key theirs)))
          (client_init_bytes theirs their_random ++ server_init_bytes mine random)
          true
        ≡ ok (server, auth)
      → complete_responder prim codecs
          (responder mine random theirs their_random)
          (client_finish prim codecs theirs)
        ≡ ok (
          new_channel server,
          pin_code auth,
          hex (prim.sha256 (prim.to_sec1_bytes (prim.public_key theirs))),
        )
  unfolding complete_responder
  complete_responder_lem mine theirs random their_random server auth d =
      let finish : Ukey2ClientFinished = record {
        public_key = some (public_key_bytes prim codecs theirs);
      } in
      let key = encode_generic_public_key prim (prim.public_key theirs) in
      rw (
        eq_bytes_refl (prim.sha512 (client_finish prim codecs theirs)),
        codecs.ukey2_message.decode-encode (
            ukey2_message prim codecs Ukey2MessageType.client_finish
              (codecs.client_finished.encode finish)),
        codecs.client_finished.decode-encode finish,
        codecs.generic_public_key.decode-encode key,
        decode_generic_public_key-encode_generic_public_key prim (prim.public_key theirs),
        d,
      )

  -- The handshake completes on both sides, whatever the secret keys and the 32 random bytes of each:
  -- the responder accepts the initiator's first message, the initiator accepts the answer, and the
  -- responder the final message. Both show the same PIN, of one authentication key; what either
  -- channel sends by, the other receives by, with keys of 32 bytes and all counts at zero; and the
  -- responder's fingerprint is that of the initiator's public key.
  pub handshake_agreement :
      (client_secret server_secret : SecretKey) (client_random server_random : Bytes)
      → length client_random ≡ 32
      → length server_random ≡ 32
      → (i : Ukey2Initiator SecretKey) × (init_raw : Bytes) × (r : Ukey2Responder SecretKey)
        × (server_raw : Bytes) × (client server : SessionKeys) × (auth : Bytes) × (begin prim codecs
              client_secret client_random
            ≡ ok (i, init_raw))
        × (accept_client_init prim codecs server_secret server_random init_raw ≡ ok (r, server_raw))
        × (complete_initiator prim codecs i server_raw
            ≡ ok (i.client_finish_raw, new_channel client, pin_code auth, auth))
        × (complete_responder prim codecs r i.client_finish_raw
            ≡ ok (
              new_channel server,
              pin_code auth,
              hex (prim.sha256 (prim.to_sec1_bytes (prim.public_key client_secret))),
            ))
        × IsMirror client server
        × IsSized client
        × IsSized server
  unfolding begin
  handshake_agreement client_secret server_secret client_random server_random hc hs =
      let secret =
        prim.sha256 (prim.diffie_hellman server_secret (prim.public_key client_secret)) in
      let transcript =
        client_init_bytes client_secret client_random
        ++ server_init_bytes server_secret server_random in
      let (server, client, auth, e1, e2, m, sc, ss) =
        derive_session_keys-IsMirror prim secret transcript in
      (
        initiator client_secret client_random,
        client_init_bytes client_secret client_random,
        responder server_secret server_random client_secret client_random,
        server_init_bytes server_secret server_random,
        client,
        server,
        auth,
        refl,
        accept_client_init-begin server_secret client_secret server_random client_random hc,
        complete_initiator_lem client_secret server_secret client_random server_random client auth
            hs (rw (prim.diffie_hellman_comm client_secret server_secret) e2),
        complete_responder_lem server_secret client_secret server_random client_random server auth
            e1,
        m,
        sc,
        ss,
      )
