-- ===== src/Discovery/QrSession.antt =====
-- `QuickShareQrSession` of src/quick_share_qr.rs: what a QR code stands for, and the wait for the phone that
-- has scanned it. p256's point and signature are parameters, and what happens in each round of the
-- wait is an argument.
use hi_rodrop.Prelude.{
  Bool, Option, none, some, List, [], ◌∷◌, ◌++◌, Result, ok, err, ok_or, ◌>>=◌, ◌≡◌, length,
  if◌then◌else◌,
}
use hi_rodrop.Prelude.Bytes.{Bytes}
use hi_rodrop.Prelude.Utf8.{Text, chars, ascii}
use hi_rodrop.Crypto.Primitives.{Primitives}
use hi_rodrop.Discovery.External.{Base64, Aead}
use hi_rodrop.Discovery.Service.{ServiceEvent, SocketAddr, socket_addresses}
use hi_rodrop.Discovery.Qr.{QuickShareQrEndpoint, endpoint_if_token_matches}

pub data QrError : Type 0 where
  key_derivation mdns timed_out cancelled : QrError

-- p256's compressed point of the public key, and its ECDSA signature as `r || s`.
pub record QrKeys (SecretKey : Type 0) : Type 0 where
  pub compressed : SecretKey → Bytes
  pub length-compressed : (k : SecretKey) → length (compressed k) ≡ 33
  pub sign : SecretKey → Bytes → Bytes

pub record QuickShareQrSession (SecretKey : Type 0) : Type 0 where
  pub secret_key : SecretKey
  pub encoded_public_key : Bytes
  pub advertising_token : Bytes
  pub name_encryption_key : Bytes

-- Without a salt, HKDF takes as many zeros as its hash has bytes.
abbrev pub no_salt : Bytes
no_salt =
    0 ∷ 0 ∷ 0 ∷ 0 ∷ 0 ∷ 0 ∷ 0 ∷ 0 ∷ 0 ∷ 0 ∷ 0 ∷ 0 ∷ 0 ∷ 0 ∷ 0 ∷ 0 ∷ 0 ∷ 0 ∷ 0 ∷ 0 ∷ 0 ∷ 0 ∷ 0 ∷ 0
    ∷ 0 ∷ 0 ∷ 0 ∷ 0 ∷ 0 ∷ 0 ∷ 0 ∷ 0 ∷ []

-- A round of the wait: whether the flag is set and whether the deadline has passed, then what the channel of
-- mdns-sd delivers; without an event, whether the deadline has passed by then.
pub data Delivered : Type 0 where
  event : ServiceEvent → Delivered
  nothing : Bool → Delivered

pub record Round : Type 0 where
  pub is_cancelled : Bool
  pub is_late : Bool
  pub delivered : Delivered

abbrev pub Found : Type 0
Found = Result QrError (QuickShareQrEndpoint SocketAddr)

-- `break` with a result, or another round.
abbrev pub or_on : Option Found → Option Found → Option Found
or_on none rest = rest
or_on (some result) rest = some result

abbrev pub break_found : Option (QuickShareQrEndpoint SocketAddr) → Option Found
break_found none = none
break_found (some endpoint) = some (ok endpoint)

module _ {SecretKey PublicKey : Type 0} (prim : Primitives SecretKey PublicKey)
    (keys : QrKeys SecretKey) where
  unfoldable pub derive_16 : Bytes → Bytes → Result QrError Bytes
  derive_16 ikm info = ok_or (prim.hkdf_expand no_salt ikm info 16) QrError.key_derivation

  unfoldable pub from_secret_key : SecretKey → Result QrError (QuickShareQrSession SecretKey)
  from_secret_key secret_key = do
    let encoded_public_key = 0 ∷ 0 ∷ keys.compressed secret_key
    advertising_token ← derive_16 encoded_public_key (ascii "advertisingContext")
    name_encryption_key ← derive_16 encoded_public_key (ascii "encryptionKey")
    ok (record {
      secret_key = secret_key;
      encoded_public_key = encoded_public_key;
      advertising_token = advertising_token;
      name_encryption_key = name_encryption_key;
    })

  abbrev pub sign_auth_key : QuickShareQrSession SecretKey → Bytes → Bytes
  sign_auth_key session auth_key = keys.sign session.secret_key auth_key

module _ {SecretKey : Type 0} (base64 : Base64) (aead : Aead)
    (session : QuickShareQrSession SecretKey) where
  unfoldable pub url : Text
  url = chars "https://quickshare.google/qrcode#key=" ++ base64.encode session.encoded_public_key

  -- The addresses of a service, the first that matches.
  unfoldable pub match_addresses : Option Text → List SocketAddr → Option Found
  match_addresses info [] = none
  match_addresses info (address ∷ addresses) =
      or_on
        (break_found (
          endpoint_if_token_matches base64 aead info address session.advertising_token
            session.name_encryption_key))
        (match_addresses info addresses)

  unfoldable pub look_at : Delivered → Option Found
  look_at (Delivered.event (ServiceEvent.resolved service)) =
      match_addresses service.endpoint_info (socket_addresses service)
  look_at (Delivered.event _) = none
  look_at (Delivered.nothing late) = if late then some (err QrError.timed_out) else none

  abbrev pub take_round : Round → Option Found
  take_round round =
      if round.is_cancelled
      then some (err QrError.cancelled)
      else if round.is_late
      then some (err QrError.timed_out)
      else look_at round.delivered

  -- `none` while the loop goes on behind the rounds.
  unfoldable pub discover_rounds : List Round → Option Found
  discover_rounds [] = none
  discover_rounds (round ∷ rounds) = or_on (take_round round) (discover_rounds rounds)
