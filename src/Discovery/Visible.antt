-- ===== src/Discovery/Visible.antt =====
-- Endpoint info as src/quick_share_discovery.rs, src/quick_share_qr.rs and the connection request of
-- src/quick_share_receiver.rs read it: 18 fixed bytes and the name behind them.
use hi_rodrop.Prelude.{
  ℕ, ◌+◌, ◌-◌, ◌/◌, Bool, Option, none, some, ◌||◌, not, ltb, leb, ◌==◌, if◌then◌else◌, length,
  take, drop, get_or, bit_and, and_then, keep_if,
}
use hi_rodrop.Prelude.Bytes.{Bytes}
use hi_rodrop.Prelude.Utf8.{Text, from_utf8}
use hi_rodrop.Discovery.External.{Base64}
use hi_rodrop.Discovery.Advertisement.{QuickShareDeviceType}

-- `info[0] & 0x10 != 0`
abbrev pub is_hidden : Bytes → Bool
is_hidden info = not (bit_and (get_or info 0 0) 0x10 == 0)

-- `(info[0] >> 1) & 0x07`
abbrev pub device_bits : Bytes → ℕ
device_bits info = bit_and (get_or info 0 0 / 2) 0x07

-- `18_usize.checked_add(length).filter(|end| *end <= info.len())`; a byte cannot overflow the sum.
abbrev pub name_end : Bytes → Option ℕ
name_end info = keep_if (λ end. leb end (length info)) (some (18 + get_or info 17 0))

-- `&info[18..end]`
abbrev pub name_bytes : Bytes → ℕ → Bytes
name_bytes info end = take (end - 18) (drop 18 info)

abbrev pub device_type_of : ℕ → QuickShareDeviceType
device_type_of n =
    if n == 1
    then QuickShareDeviceType.phone
    else if n == 2
    then QuickShareDeviceType.tablet
    else if n == 3
    then QuickShareDeviceType.laptop
    else QuickShareDeviceType.unknown

-- `parse_visible_name` of the QR code path
unfoldable pub parse_visible_name : Bytes → Option (Text × ℕ)
parse_visible_name info =
    if ltb (length info) 18 || is_hidden info
    then none
    else and_then (name_end info)
        λ end. and_then (from_utf8 (name_bytes info end)) λ name. some (name, end)

module _ (base64 : Base64) where
  unfoldable pub decode_visible_endpoint_info : Text → Option (Text × QuickShareDeviceType)
  decode_visible_endpoint_info encoded = and_then (base64.decode encoded) λ info.
      if ltb (length info) 18 || is_hidden info
      then none
      else and_then (name_end info) λ end.
        and_then (from_utf8 (name_bytes info end))
          λ name. some (name, device_type_of (device_bits info))
