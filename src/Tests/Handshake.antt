-- ===== src/Tests/Handshake.antt =====
-- The properties of the handshake, the keys and the PIN at concrete keys.
use hi_rodrop.Prelude.{ℕ, ◌≡◌, some, refl, [], ◌∷◌, ok, arith, length, replicate, All}
use hi_rodrop.Prelude.Int.{pos}
use hi_rodrop.Prelude.Bytes.{Bytes}
use hi_rodrop.Crypto.Keys.{SessionKeys}
use hi_rodrop.Crypto.Keys.Mirror.{IsMirror, IsSized}
use hi_rodrop.Crypto.Channel.{new_channel}
use hi_rodrop.Crypto.Pin.{pin_code, Fits, pin_code_shape}
use hi_rodrop.Crypto.Handshake.{
  Ukey2Initiator, Ukey2Responder, hex, begin, complete_initiator, accept_client_init,
  complete_responder,
}
use hi_rodrop.Crypto.Handshake.Agreement.{handshake_agreement}
use hi_rodrop.Crypto.Handshake.Commitment.{announced, handshake_is_committed}
use hi_rodrop.Prelude.Decimal.{IsDigit}
use hi_rodrop.Samples.Primitives.{sample_primitives}
use hi_rodrop.Samples.Messages.{sample_codecs}

abbrev random_bytes : Bytes
random_bytes = replicate 32 9

-- The phone holds the secret 5, the computer 6.
handshake_agreement_example :
    (i : Ukey2Initiator ℕ) × (init_raw : Bytes) × (r : Ukey2Responder ℕ) × (server_raw : Bytes)
    × (client server : SessionKeys) × (auth : Bytes) × (begin sample_primitives sample_codecs 5
          random_bytes
        ≡ ok (i, init_raw))
    × (accept_client_init sample_primitives sample_codecs 6 random_bytes init_raw
        ≡ ok (r, server_raw))
    × (complete_initiator sample_primitives sample_codecs i server_raw
        ≡ ok (i.client_finish_raw, new_channel client, pin_code auth, auth))
    × (complete_responder sample_primitives sample_codecs r i.client_finish_raw
        ≡ ok (new_channel server, pin_code auth, hex (4 ∷ 5 ∷ [])))
    × IsMirror client server
    × IsSized client
    × IsSized server
handshake_agreement_example =
    handshake_agreement sample_primitives sample_codecs 5 6 random_bytes random_bytes refl refl

pin_code_shape_example :
    (length (pin_code (200 ∷ 17 ∷ 3 ∷ [])) ≡ 4)
    × All IsDigit (pin_code (200 ∷ 17 ∷ 3 ∷ []))
    × Fits (pos 0) (pos 1) (200 ∷ 17 ∷ 3 ∷ [])
pin_code_shape_example =
    pin_code_shape (200 ∷ 17 ∷ 3 ∷ []) (omega arith, (omega arith, (omega arith, tt)))

-- What the two sides of the run above exchange.
abbrev first_message : Bytes
first_message =
    (handshake_agreement sample_primitives sample_codecs 5 6 random_bytes random_bytes refl refl).1

abbrev answering : Ukey2Responder ℕ
answering =
    (handshake_agreement sample_primitives sample_codecs 5 6 random_bytes random_bytes refl refl).2

abbrev last_message : Bytes
last_message =
    (handshake_agreement sample_primitives sample_codecs 5 6 random_bytes random_bytes refl
      refl).0.client_finish_raw

handshake_is_committed_example :
    (announced sample_primitives sample_codecs first_message
      ≡ some (sample_primitives.sha512 last_message))
    × (length answering.commitment ≡ 64)
handshake_is_committed_example =
    handshake_is_committed sample_primitives sample_codecs 6 random_bytes first_message _
      last_message answering _
      (handshake_agreement sample_primitives sample_codecs 5 6 random_bytes random_bytes refl
        refl).8
      (handshake_agreement sample_primitives sample_codecs 5 6 random_bytes random_bytes refl
        refl).10
