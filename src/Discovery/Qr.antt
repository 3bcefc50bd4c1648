-- ===== src/Discovery/Qr.antt =====
-- `endpoint_if_token_matches` and `decrypt_hidden_name` of src/quick_share_qr.rs: which advertised
-- endpoint is the phone that scanned this QR code. An address is a value that is handed through.
use hi_rodrop.Prelude.{
  ℕ, Option, none, some, ◌&&◌, ltb, leb, ◌==◌, if◌then◌else◌, length, take, drop, and_then,
}
use hi_rodrop.Prelude.Bytes.{Bytes}
use hi_rodrop.Prelude.Utf8.{Text, from_utf8}
use hi_rodrop.Discovery.External.{Base64, Aead}
use hi_rodrop.Discovery.Visible.{is_hidden, parse_visible_name}
use hi_rodrop.Discovery.QrRecords.{has_token, first_record}

pub record QuickShareQrEndpoint (Address : Type 0) : Type 0 where
  pub name : Text
  pub address : Address

abbrev pub found : {Address : Type 0} → Text → Address → QuickShareQrEndpoint Address
found name address = record { name = name; address = address }

-- A record of type 1 with a nonce, a tag and a name that decrypts to UTF-8.
abbrev pub hidden_name : Aead → Bytes → Bytes → ℕ → Bytes → Option Text
hidden_name aead token key record_type value =
    if (record_type == 1) && leb 28 (length value)
    then and_then (aead.decrypt key (take 12 value) (drop 12 value) token) from_utf8
    else none

module _ {Address : Type 0} (base64 : Base64) (aead : Aead) where
  unfoldable pub decrypt_hidden_name :
      Bytes → Address → Bytes → Bytes → Option (QuickShareQrEndpoint Address)
  decrypt_hidden_name info address token key =
      if length key == 16
      then and_then (first_record (hidden_name aead token key) (drop 17 info))
          (λ name. some (found name address))
      else none

  unfoldable pub endpoint_if_token_matches :
      Option Text → Address → Bytes → Bytes → Option (QuickShareQrEndpoint Address)
  endpoint_if_token_matches encoded_info address expected_token key =
      and_then encoded_info λ encoded. and_then (base64.decode encoded) λ info.
        if ltb (length info) 17
        then none
        else if is_hidden info
        then decrypt_hidden_name info address expected_token key
        else and_then (parse_visible_name info) λ parsed.
          if has_token expected_token (drop parsed.1 info)
          then some (found parsed.0 address)
          else none
