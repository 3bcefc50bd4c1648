-- ===== src/Discovery/QrWait.antt =====
-- The keys of a QR code and the end of the wait for the phone (src/quick_share_qr.rs).
use hi_rodrop.Prelude.{
  suc, ◌≡◌, ◌≢◌, refl, ap, inl, inr, Bool, Bool-cases, true, false, ◌||◌, Option, none, some, List,
  [], ◌∷◌, ok, length, arith,
}
use hi_rodrop.Prelude.Utf8.{ascii}
use hi_rodrop.Crypto.Primitives.{Primitives}
use hi_rodrop.Discovery.External.{Base64, Aead}
use hi_rodrop.Discovery.QrSession.{
  QrKeys, QuickShareQrSession, Round, Found, no_salt, or_on, take_round, derive_16, from_secret_key,
  discover_rounds,
}

module _ {SecretKey PublicKey : Type 0} (prim : Primitives SecretKey PublicKey)
    (keys : QrKeys SecretKey) where
  -- A QR code can be made for every secret key: the key on it has 35 bytes, and the token and the key for
  -- the name, which are derived from it, 16 each, as AES-128-GCM and the match of the token ask.
  pub from_secret_key_lengths :
      (k : SecretKey)
      → (session : QuickShareQrSession SecretKey) × (from_secret_key prim keys k ≡ ok session)
        × (length session.encoded_public_key ≡ 35)
        × (length session.advertising_token ≡ 16)
        × (length session.name_encryption_key ≡ 16)
  unfolding from_secret_key derive_16
  from_secret_key_lengths k =
      let encoded = 0 ∷ 0 ∷ keys.compressed k in
      let (token, e, m) =
        prim.hkdf_total no_salt encoded (ascii "advertisingContext") 16 (omega arith) in
      let (key, f, n) = prim.hkdf_total no_salt encoded (ascii "encryptionKey") 16 (omega arith) in
      (
        record {
          secret_key = k;
          encoded_public_key = encoded;
          advertising_token = token;
          name_encryption_key = key;
        },
        rw (e, f) refl,
        ap (λ n. suc (suc n)) (keys.length-compressed k),
        m,
        n,
      )

-- A round in which the flag is set or the deadline has passed.
abbrev pub is_over : Round → Bool
is_over round = round.is_cancelled || round.is_late

unfoldable pub any_over : List Round → Bool
any_over [] = false
any_over (round ∷ rounds) = is_over round || any_over rounds

later : (x : Option Found) {y : Option Found} → or_on x y ≡ none → y ≡ none
later none h = h
later (some r) h = absurd (cc h)

module _ {SecretKey : Type 0} (base64 : Base64) (aead : Aead)
    (session : QuickShareQrSession SecretKey) where
  -- The wait for the phone ends: it has a result once the flag was set or the deadline has passed at the
  -- begin of any round.
  pub discover_rounds_end :
      (rounds : List Round)
      → any_over rounds ≡ true
      → discover_rounds base64 aead session rounds ≢ none
  unfolding discover_rounds any_over
  discover_rounds_end [] h e = absurd (cc h)
  discover_rounds_end (round ∷ rounds) h e = elim (Bool-cases round.is_cancelled) [
    | inl c ↦ absurd (cc (rw c at e))
    | inr c ↦ elim (Bool-cases round.is_late) [
      | inl l ↦ absurd (cc (rw (c, l) at e))
      | inr l ↦
          discover_rounds_end rounds (rw (c, l) at h)
            (later (take_round base64 aead session round) e)
    ]
  ]
