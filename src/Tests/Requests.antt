-- ===== src/Tests/Requests.antt =====
-- A connection request at a concrete device name.
use hi_rodrop.Prelude.{ℕ, ◌≡◌, refl, ok, [], ◌∷◌, arith, replicate, All}
use hi_rodrop.Prelude.Bytes.{Bytes, IsByte}
use hi_rodrop.Prelude.Utf8.{Text, chars, as_bytes}
use hi_rodrop.Wire.{OfflineFrame}
use hi_rodrop.Discovery.Announced.{IsName}
use hi_rodrop.Sender.Connection.{connection_frame}
use hi_rodrop.Receiver.Requests.{IncomingPeer, parse_connection_request}
use hi_rodrop.Receiver.Requests.Peer.{parse_connection_request-connection_frame}
use hi_rodrop.Samples.Messages.{sample_codecs}
use hi_rodrop.Samples.Discovery.{sample_base64}

abbrev desk : Text
desk = chars "Desk"

desk-IsName : IsName desk
unfolding as_bytes
desk-IsName = record { scalars = ground arith; nonempty = omega arith; fits = omega arith }

abbrev zeros : Bytes
zeros = replicate 16 0

zeros-IsByte : All IsByte zeros
zeros-IsByte = ground arith

abbrev local : ℕ
local = 127

abbrev desk_peer : IncomingPeer ℕ
desk_peer = record { name = desk; device_type = 3; address = local }

parse_connection_request-connection_frame_example :
    (frame : OfflineFrame) × (connection_frame sample_base64 (65 ∷ 66 ∷ 67 ∷ 68 ∷ []) zeros desk
      ≡ ok frame)
    × (parse_connection_request sample_codecs.offline_frame
          (sample_codecs.offline_frame.encode frame)
          local
        ≡ ok desk_peer)
parse_connection_request-connection_frame_example =
    parse_connection_request-connection_frame sample_codecs.offline_frame sample_base64
      (65 ∷ 66 ∷ 67 ∷ 68 ∷ []) zeros desk local desk-IsName refl zeros-IsByte
