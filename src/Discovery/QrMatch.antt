-- ===== src/Discovery/QrMatch.antt =====
-- Which endpoints src/quick_share_qr.rs takes for the phone.
use hi_rodrop.Prelude.{
  ℕ, zero, suc, ◌/◌, ◌%◌, ◌<◌, ◌≤◌, ◌&&◌, ◌||◌, not, ◌==◌, inl, inr, Bool-cases, bit_and, refl, ◌≡◌,
  Bool, true, [], ◌∷◌, ◌++◌, All, All-append, le→ltb, le→leb, Option, none, some, ◌+◌, false, arith,
  length, length-append, take, drop, take-append, drop-append,
}
use hi_rodrop.Prelude.Utf8.{Text, IsScalar, as_bytes}
use hi_rodrop.Prelude.Utf8.RoundTrip.{as_bytes-IsByte, from_utf8-as_bytes}
use hi_rodrop.Discovery.External.{Base64, Aead}
use hi_rodrop.Discovery.Announced.{shown-Read, parse_visible_name-Read}
use hi_rodrop.Discovery.Visible.{is_hidden}
use hi_rodrop.Discovery.Qr.{found, hidden_name, decrypt_hidden_name, endpoint_if_token_matches}
use hi_rodrop.Prelude.Bytes.{IsByte, Bytes}
use hi_rodrop.Discovery.QrRecords.{has_token, HasRecord, first_record}
use hi_rodrop.Discovery.QrTokens.{has_token_iff}

not-true : (b : Bool) → ¬ (b ≡ true) → b ≡ false
not-true b h = ground arith

drop-exact : (n : ℕ) (xs ys : Bytes) → length xs ≡ n → drop n (xs ++ ys) ≡ ys
drop-exact n xs ys h = rw (← h) (drop-append xs ys)

take-exact : (n : ℕ) (xs ys : Bytes) → length xs ≡ n → take n (xs ++ ys) ≡ xs
take-exact n xs ys h = rw (← h) (take-append xs ys)

front-is_hidden :
    (front back : Bytes)
    → length front ≡ 17
    → is_hidden front ≡ true
    → is_hidden (front ++ back) ≡ true
front-is_hidden [] back h e = absurd (omega arith)
front-is_hidden (b ∷ bs) back h e = e

first_record-here :
    {A : Type 0} (choose : ℕ → Bytes → Option A) (t : ℕ) (v rest : Bytes) (a : A)
    → choose t v ≡ some a
    → first_record choose (t ∷ (length v ∷ (v ++ rest))) ≡ some a
unfolding first_record
first_record-here choose t v rest a e = rw (
  le→leb (length v) (length (v ++ rest)) (omega (arith, length-append v rest)),
  take-append v rest,
  e,
)

open_name :
    (aead : Aead) (key nonce token : Bytes) (name : Text)
    → All IsScalar name
    → length key ≡ 16
    → length nonce ≡ 12
    → hidden_name aead token key 1 (nonce ++ aead.encrypt key nonce (as_bytes name) token)
      ≡ some name
open_name aead key nonce token name s hk hn =
    let sealed = aead.encrypt key nonce (as_bytes name) token in
    rw (
      le→leb 28 (length (nonce ++ sealed)) (
          omega (
            arith,
            length-append nonce sealed,
            aead.length-encrypt key nonce (as_bytes name) token,
          )),
      take-exact 12 nonce sealed hn,
      drop-exact 12 nonce sealed hn,
      aead.decrypt-encrypt key nonce (as_bytes name) token hk hn,
      from_utf8-as_bytes name s,
    )

-- Endpoint info as a phone that shows itself sends it, before the records.
abbrev pub visible_info : ℕ → Bytes → Text → Bytes
visible_info first metadata name = first ∷ (metadata ++ (length (as_bytes name) ∷ as_bytes name))

-- Whether, of all numbers below another, those whose fifth bit is 0 have the flag clear.
unfoldable all_clear : ℕ → Bool
all_clear zero = true
all_clear (suc n) =
    let rest = all_clear n in rest && (not ((n / 16) % 2 == 0) || (bit_and n 0x10 == 0))

all_clear-at :
    (n first : ℕ) → all_clear n ≡ true → first < n → (first / 16) % 2 ≡ 0 → bit_and first 0x10 ≡ 0
unfolding all_clear
all_clear-at zero first h small seen = absurd (omega arith)
all_clear-at (suc n) first h small seen = elim (Bool-cases (first == n)) [
  | inl e ↦ ground arith
  | inr e ↦ all_clear-at n first (ground arith) (ground arith) seen
]

not_flagged : (first : ℕ) → first < 256 → (first / 16) % 2 ≡ 0 → bit_and first 0x10 ≡ 0
unfolding all_clear
not_flagged first small seen = all_clear-at 256 first refl small seen

module _ {Address : Type 0} (base64 : Base64) (aead : Aead) where
  -- A visible endpoint is taken for the phone exactly by its records. Of any endpoint info of a byte without
  -- the hidden flag, whatever its other seven bits say of version and type, 16 bytes of metadata,
  -- and a name of at most 255 bytes of UTF-8 behind its length, with any records behind it, the
  -- search answers with the name and the address if a whole record of type 1 holds this session's
  -- token, and with nothing otherwise.
  pub endpoint_if_token_matches-visible :
      (address : Address) (token key metadata records : Bytes) (first : ℕ) (name : Text)
      → first < 256
      → (first / 16) % 2 ≡ 0
      → All IsScalar name
      → length (as_bytes name) ≤ 255
      → length metadata ≡ 16
      → All IsByte metadata
      → All IsByte records
      → (HasRecord 1 token records
          → endpoint_if_token_matches base64 aead
              (some (base64.encode (visible_info first metadata name ++ records)))
              address
              token
              key
            ≡ some (found name address))
        × (¬ HasRecord 1 token records
            → endpoint_if_token_matches base64 aead
                (some (base64.encode (visible_info first metadata name ++ records)))
                address
                token
                key
              ≡ none)
  unfolding endpoint_if_token_matches
  endpoint_if_token_matches-visible address token key metadata records first name small seen s fits
        h b rb =
      let info = visible_info first metadata name ++ records in
      let r = shown-Read first metadata (as_bytes name) records h (not_flagged first small seen) in
      let bytes : All IsByte (visible_info first metadata name) = (
        omega (arith, small),
        All-append IsByte metadata (length (as_bytes name) ∷ as_bytes name) b
            (omega (arith, fits), as_bytes-IsByte name s),
      ) in
      let whole =
        base64.decode-encode info
          (All-append IsByte (visible_info first metadata name) records bytes rb) in
      let parsed = parse_visible_name-Read name info s r in
      let size = le→ltb (length info) 17 (omega arith) in
      (
        (λ m. rw (whole, size, r.shown, parsed, r.rest_at, (has_token_iff token records).1 m)),
        (λ m. rw (
          whole,
          size,
          r.shown,
          parsed,
          r.rest_at,
          not-true (has_token token records) (λ e. m ((has_token_iff token records).0 e)),
        )),
      )

  -- A hidden endpoint gives its name to the holder of the session's keys: behind 17 bytes with the
  -- hidden flag, the first record holds the name, encrypted under the key of 16 bytes and a nonce of
  -- 12 with the token as associated data, and the search answers with this name and the address.
  pub endpoint_if_token_matches-hidden :
      (address : Address) (token key nonce front records : Bytes) (name : Text)
      → All IsScalar name
      → length key ≡ 16
      → length nonce ≡ 12
      → length front ≡ 17
      → is_hidden front ≡ true
      → All IsByte (
          front
          ++ (1
              ∷ ((length (as_bytes name) + 28)
                  ∷ ((nonce ++ aead.encrypt key nonce (as_bytes name) token) ++ records))))
      → endpoint_if_token_matches base64 aead
          (some (
            base64.encode (
              front
              ++ (1
                  ∷ ((length (as_bytes name) + 28)
                      ∷ ((nonce ++ aead.encrypt key nonce (as_bytes name) token) ++ records))))))
          address
          token
          key
        ≡ some (found name address)
  unfolding endpoint_if_token_matches decrypt_hidden_name
  endpoint_if_token_matches-hidden address token key nonce front records name s hk hn hf hh b =
      let sealed = aead.encrypt key nonce (as_bytes name) token in
      let value = nonce ++ sealed in
      let content = 1 ∷ ((length (as_bytes name) + 28) ∷ (value ++ records)) in
      let info = front ++ content in
      let sized : length value ≡ length (as_bytes name) + 28 =
        omega (
          arith,
          length-append nonce sealed,
          aead.length-encrypt key nonce (as_bytes name) token,
        ) in
      let opened : hidden_name aead token key 1 value ≡ some name =
        open_name aead key nonce token name s hk hn in
      rw (
        base64.decode-encode info b,
        le→ltb (length info) 17 (omega (arith, length-append front content)),
        front-is_hidden front content hf hh,
        hk,
        drop-exact 17 front content hf,
        ← sized,
        first_record-here (hidden_name aead token key) 1 value records name opened,
      )
