-- ===== src/Tests/Discovery.antt =====
-- The properties of discovery at concrete advertisements.
use hi_rodrop.Prelude.{
  ℕ, ◌≡◌, ◌↔◌, ◌+◌, ◌++◌, refl, none, some, [], ◌∷◌, ok, arith, length, replicate, true, All,
}
use hi_rodrop.Prelude.Bytes.{Bytes, IsByte}
use hi_rodrop.Prelude.Utf8.{Text, chars, as_bytes}
use hi_rodrop.Discovery.Advertisement.{
  QuickShareDeviceType, QuickShareAdvertisementData, from_parts,
}
use hi_rodrop.Discovery.Visible.{decode_visible_endpoint_info}
use hi_rodrop.Discovery.Announced.{IsName, decode_visible_endpoint_info-from_parts}
use hi_rodrop.Discovery.QrRecords.{has_token, HasRecord}
use hi_rodrop.Discovery.Qr.{found, endpoint_if_token_matches}
use hi_rodrop.Discovery.QrTokens.{has_token_iff}
use hi_rodrop.Discovery.QrMatch.{
  visible_info, endpoint_if_token_matches-visible, endpoint_if_token_matches-hidden,
}
use hi_rodrop.Samples.Discovery.{sample_base64, sample_aead}

abbrev name : Text
name = chars "Pixel"

name-IsName : IsName name
unfolding as_bytes
name-IsName = record { scalars = ground arith; nonempty = omega arith; fits = omega arith }

abbrev address : ℕ
address = 192

abbrev metadata : Bytes
metadata = replicate 16 7

metadata-IsByte : All IsByte metadata
metadata-IsByte = ground arith

decode_visible_endpoint_info-from_parts_example :
    (a : QuickShareAdvertisementData) × (from_parts sample_base64
        (65 ∷ 66 ∷ [])
        metadata
        QuickShareDeviceType.phone
        name
      ≡ ok a)
    × (decode_visible_endpoint_info sample_base64 a.endpoint_info
        ≡ some (name, QuickShareDeviceType.phone))
decode_visible_endpoint_info-from_parts_example =
    decode_visible_endpoint_info-from_parts sample_base64 (65 ∷ 66 ∷ []) metadata
      QuickShareDeviceType.phone name name-IsName refl metadata-IsByte

has_token_iff_example :
    (has_token (8 ∷ 9 ∷ []) (1 ∷ 2 ∷ 8 ∷ 9 ∷ []) ≡ true)
    ↔ HasRecord 1 (8 ∷ 9 ∷ []) (1 ∷ 2 ∷ 8 ∷ 9 ∷ [])
has_token_iff_example = has_token_iff (8 ∷ 9 ∷ []) (1 ∷ 2 ∷ 8 ∷ 9 ∷ [])

abbrev records : Bytes
records = 1 ∷ 2 ∷ 8 ∷ 9 ∷ []

-- A phone that shows itself, with a version in the first three bits.
endpoint_if_token_matches-visible_example :
    (HasRecord 1 (8 ∷ 9 ∷ []) records
      → endpoint_if_token_matches sample_base64 sample_aead
          (some (visible_info 0x42 metadata name ++ records))
          address
          (8 ∷ 9 ∷ [])
          []
        ≡ some (found name address))
    × (¬ HasRecord 1 (8 ∷ 9 ∷ []) records
        → endpoint_if_token_matches sample_base64 sample_aead
            (some (visible_info 0x42 metadata name ++ records))
            address
            (8 ∷ 9 ∷ [])
            []
          ≡ none)
endpoint_if_token_matches-visible_example =
    endpoint_if_token_matches-visible sample_base64 sample_aead address (8 ∷ 9 ∷ []) [] metadata
      records 0x42 name (omega arith) refl (name-IsName.scalars) (name-IsName.fits) refl
      metadata-IsByte (omega arith, (omega arith, (omega arith, (omega arith, tt))))

abbrev key : Bytes
key = replicate 16 4

abbrev nonce : Bytes
nonce = replicate 12 5

-- A hidden endpoint: the flag is set in its first byte.
abbrev front : Bytes
front = 0x10 ∷ replicate 16 6

abbrev hidden_info : Bytes
hidden_info =
    front
    ++ (1
        ∷ ((length (as_bytes name) + 28)
            ∷ ((nonce ++ sample_aead.encrypt key nonce (as_bytes name) (8 ∷ [])) ++ [])))

hidden_info-IsByte : All IsByte hidden_info
unfolding as_bytes
hidden_info-IsByte = ground arith

endpoint_if_token_matches-hidden_example :
    endpoint_if_token_matches sample_base64 sample_aead (some hidden_info) address (8 ∷ []) key
    ≡ some (found name address)
endpoint_if_token_matches-hidden_example =
    endpoint_if_token_matches-hidden sample_base64 sample_aead address (8 ∷ []) key nonce front []
      name (name-IsName.scalars) refl refl refl refl hidden_info-IsByte
