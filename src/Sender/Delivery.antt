-- ===== src/Sender/Delivery.antt =====
-- `send_prepared_files` of src/quick_share_sender.rs, from the connected stream to the end. Timeouts and
-- other settings of the socket have no part in it.
pub mod Rejected
use Prim.Native.String.{String}
use hi_rodrop.Prelude.{
  ℕ, suc, Bool, true, false, Option, map, none, some, List, [], ◌∷◌, ◌++◌, Result, ok, err, ok_or,
  map_err, guard, and_then, unwrap_or,
}
use hi_rodrop.Prelude.Int.{ℤ, pos, is_value}
use hi_rodrop.Prelude.Bytes.{Bytes}
use hi_rodrop.Prelude.Utf8.{Text, chars}
use hi_rodrop.Prelude.Exec.{Exec, pure, raise, lift, focus, ◌>>=◌, ◌>>◌}
use hi_rodrop.Wire.{
  OfflineFrame, OfflineFrameType, offline_frame_type_enumeration, ConnectionResponseFrame,
  ConnectionResponseStatus, connection_response_status_enumeration, OsType, SharingFrame,
  SharingFrameType, sharing_frame_type_enumeration, SharingResponseStatus,
  sharing_response_status_enumeration,
}
use hi_rodrop.Wire.Enumeration.{as_i32}
use hi_rodrop.Transport.{ErrorKind, FrameIoError, Stream, read_frame, write_frame}
use hi_rodrop.Crypto.Errors.{CryptoError}
use hi_rodrop.Crypto.Channel.{SecureChannel}
use hi_rodrop.Crypto.Handshake.{begin, complete_initiator}
use hi_rodrop.Session.{Platform, Endpoint, Conversation, Talk, on_endpoint, on_own}
use hi_rodrop.Discovery.External.{Base64}
use hi_rodrop.Discovery.EndpointId.{generate}
use hi_rodrop.Receiver.Introduction.{connection_accept}
use hi_rodrop.Sender.Errors.{SendError}
use hi_rodrop.Sender.Assembler.{BytesAssembler, new_assembler}
use hi_rodrop.Sender.Files.{OutgoingFile}
use hi_rodrop.Sender.Connection.{connection_frame}
use hi_rodrop.Sender.Session.{
  send_errors, Step, require_offline_type, require_sharing_type, read_next_sharing_frame,
  send_paired_key_encryption, send_paired_key_result, send_introduction,
}
use hi_rodrop.Sender.Sending.{Socket, SendProgress, Sending, Send, report, send_each, total_size}
use hi_rodrop.Sender.Closing.{finalize_transfer}

-- The connection before its channel, and what the progress callback was told.
pub record Line : Type 0 where
  pub stream : Stream
  pub drawn : ℕ
  pub progress : List SendProgress

abbrev pub on_stream : {A : Type 0} → Exec Stream FrameIoError A → Exec Line SendError A
on_stream = focus (λ s. s.stream) (λ t s. record s { stream = t }) SendError.frame

abbrev pub on_crypto : {A : Type 0} → Result CryptoError A → Exec Line SendError A
on_crypto r = lift (map_err SendError.crypto r)

abbrev pub tell : SendProgress → Exec Line SendError (Unit {0})
tell event s = (ok tt, record s { progress = s.progress ++ event ∷ [] })

-- What the negotiation ends with.
pub record Negotiated : Type 0 where
  pub channel : SecureChannel
  pub auth_key : Bytes
  pub safe_to_disconnect_version : ℤ

-- With the channel: the assembler, and how far the sending is.
pub record Outgoing : Type 0 where
  pub assembler : BytesAssembler
  pub sending : Sending

abbrev pub Deliver : Type 0 → Type 0
Deliver A = Talk Outgoing SendError A

abbrev pub on_step : {A : Type 0} → Step A → Deliver A
on_step =
    focus (λ s. record { endpoint = s.endpoint; own = s.own.assembler })
      (λ t s. record s { endpoint = t.endpoint; own = record s.own { assembler = t.own } }) (λ e. e)

abbrev pub on_send : {A : Type 0} → Send A → Deliver A
on_send =
    focus (λ s. record { endpoint = s.endpoint; own = s.own.sending })
      (λ t s. record s { endpoint = t.endpoint; own = record s.own { sending = t.own } }) (λ e. e)

-- What went over the stream, and what the callback was told.
abbrev pub Sent : Type 0
Sent = Stream × List SendProgress

abbrev pub response_of : OfflineFrame → Option ConnectionResponseFrame
response_of frame = and_then frame.v1 (λ v1. v1.connection_response)

-- The status of a sharing response.
abbrev pub sharing_status : SharingFrame → Option ℤ
sharing_status frame =
    and_then (and_then frame.v1 (λ v1. v1.connection_response)) (λ response. response.status)

-- What the program takes from its surroundings besides the crates: the operating system, the socket, and what
-- opening and reading a file returns.
pub record Surroundings : Type 0 where
  pub os_type : OsType
  pub socket : Socket
  pub contents : OutgoingFile → Result ErrorKind (List (Result ErrorKind Bytes))

-- "連線確認", "配對金鑰" and "檔案資訊"
abbrev pub phases : String × String × String
phases = ("連線確認", "配對金鑰", "檔案資訊")

module _ {SecretKey PublicKey : Type 0} (platform : Platform SecretKey PublicKey)
    (base64 : Base64) where
  open platform use {primitives, codecs}

  abbrev pub draw : ℕ → Exec Line SendError Bytes
  draw size s = (ok (platform.random.bytes s.drawn size), record s { drawn = suc s.drawn })

  unfoldable pub send_connection_request : Text → Exec Line SendError (Unit {0})
  send_connection_request display_name = do
    entropy ← draw 4
    metadata ← draw 16
    frame ← lift (connection_frame base64 (generate entropy) metadata display_name)
    on_stream (write_frame (codecs.offline_frame.encode frame))

  unfoldable pub send_plain_connection_accept : OsType → Exec Line SendError (Unit {0})
  send_plain_connection_accept os_type =
      on_stream (write_frame (codecs.offline_frame.encode (connection_accept os_type)))

  unfoldable pub check_response : OfflineFrame → Exec Line SendError ℤ
  check_response frame = do
    lift (require_offline_type frame OfflineFrameType.connection_response)
    lift (
        guard
          (is_value (and_then (response_of frame) (λ response. response.response))
            (as_i32 ConnectionResponseStatus.accept))
          (SendError.protocol "phone rejected the LAN connection"))
    pure (
        unwrap_or (and_then (response_of frame) (λ response. response.safe_to_disconnect_version))
          (pos 0))

  unfoldable pub negotiate : OsType → SecretKey → Text → Exec Line SendError Negotiated
  negotiate os_type secret display_name = do
    tell SendProgress.connecting
    tell (SendProgress.negotiating "Nearby Connections")
    send_connection_request display_name
    random ← draw 32
    begun ← on_crypto (begin primitives codecs secret random)
    on_stream (write_frame begun.1)
    tell (SendProgress.negotiating "UKEY2")
    server_init ← on_stream read_frame
    completed ← on_crypto (complete_initiator primitives codecs begun.0 server_init)
    on_stream (write_frame completed.0)
    send_plain_connection_accept os_type
    tell (SendProgress.negotiating phases.0)
    response_raw ← on_stream read_frame
    server_response ← lift (ok_or (codecs.offline_frame.decode response_raw) SendError.protobuf)
    version ← check_response server_response
    tell (SendProgress.verification_pin completed.2)
    pure (record {
      channel = completed.1;
      auth_key = completed.3;
      safe_to_disconnect_version = version;
    })

module _ {SecretKey PublicKey : Type 0} (platform : Platform SecretKey PublicKey) where
  abbrev pub expect : SharingFrameType → Step SharingFrame
  expect kind = do
    frame ← read_next_sharing_frame platform
    lift (require_sharing_type frame kind)
    pure frame

  abbrev pub told : SendProgress → Deliver (Unit {0})
  told event = on_send (report event)

  -- Up to the receiver's answer; `sign` signs for a session that a QR code started.
  unfoldable pub introduce :
      Option (Bytes → Bytes) → Bytes → List OutgoingFile → Deliver SharingFrame
  introduce sign auth_key files = do
    told (SendProgress.negotiating phases.1)
    on_endpoint (send_paired_key_encryption platform (and_then sign (λ f. some (f auth_key))))
    on_step (expect SharingFrameType.paired_key_encryption)
    on_endpoint (send_paired_key_result platform)
    on_step (expect SharingFrameType.paired_key_result)
    told (SendProgress.negotiating phases.2)
    on_endpoint (send_introduction platform files)
    told SendProgress.waiting_for_acceptance
    on_step (expect SharingFrameType.response)

  unfoldable pub require_acceptance : SharingFrame → Deliver (Unit {0})
  require_acceptance response = lift (
      guard (is_value (sharing_status response) (as_i32 SharingResponseStatus.accept))
        SendError.rejected)

  -- Behind the acceptance.
  unfoldable pub send_accepted : Surroundings → List OutgoingFile → ℤ → Deliver (Unit {0})
  send_accepted here files version = do
    on_send (send_each platform here.socket here.contents (total_size files) files)
    told SendProgress.finalizing
    on_endpoint (finalize_transfer platform version)
    told SendProgress.complete

  unfoldable pub deliver :
      Surroundings → Option (Bytes → Bytes) → Negotiated → List OutgoingFile → Deliver (Unit {0})
  deliver here sign negotiated files = do
    response ← introduce sign negotiated.auth_key files
    require_acceptance response
    send_accepted here files negotiated.safe_to_disconnect_version

  abbrev pub conversation : Negotiated → Line → Conversation Outgoing
  conversation negotiated line = record {
    endpoint = record { stream = line.stream; channel = negotiated.channel; drawn = line.drawn };
    own = record {
      assembler = new_assembler;
      sending = record { looks = 0; opened = []; sent_bytes = 0; progress = line.progress };
    };
  }

  unfoldable pub deliver_negotiated :
      Surroundings
      → Option (Bytes → Bytes)
      → List OutgoingFile
      → Result SendError Negotiated × Line
      → Result SendError (Unit {0}) × Sent
  deliver_negotiated here sign files (ok negotiated, line) =
      let (result, s) = deliver here sign negotiated files (conversation negotiated line) in
      (result, (s.endpoint.stream, s.own.sending.progress))
  deliver_negotiated here sign files (err e, line) = (err e, (line.stream, line.progress))

module _ {SecretKey PublicKey : Type 0} (platform : Platform SecretKey PublicKey)
    (base64 : Base64) where
  unfoldable pub send_prepared_files :
      Surroundings
      → SecretKey
      → Option (Bytes → Bytes)
      → Text
      → List OutgoingFile
      → Line
      → Result SendError (Unit {0}) × Sent
  send_prepared_files here secret sign display_name files line =
      deliver_negotiated platform here sign files
        (negotiate platform base64 here.os_type secret display_name line)
