-- ===== src/Receiver/Introduction.antt =====
-- `receive_connection` of src/quick_share_receiver.rs up to the user's answer. The callback that asks the user is
-- its answers: how often it has none yet, with what happens in the meantime, and then the decision.
use hi_rodrop.Prelude.{
  ℕ, zero, suc, Bool, true, false, Option, none, some, List, [], ◌∷◌, Result, ok, err, ok_or,
  map_err, and_then, if◌then◌else◌,
}
use hi_rodrop.Prelude.Int.{pos, is_value}
use hi_rodrop.Prelude.Bytes.{Bytes}
use hi_rodrop.Prelude.Utf8.{Text}
use hi_rodrop.Prelude.Exec.{Exec, pure, lift, focus, ◌>>=◌, ◌>>◌}
use hi_rodrop.Wire.{
  OfflineFrame, OfflineV1Frame, OfflineFrameType, offline_frame_type_enumeration, OsType,
  os_type_enumeration, ConnectionResponseStatus, connection_response_status_enumeration,
  SharingFrameType, sharing_frame_type_enumeration, SharingFrame, IntroductionFrame, offline_frame,
  offline_v1_frame,
}
use hi_rodrop.Wire.Enumeration.{as_i32}
use hi_rodrop.Transport.{ErrorKind, FrameIoError, Stream, read_frame, write_frame}
use hi_rodrop.Crypto.Errors.{CryptoError}
use hi_rodrop.Crypto.Channel.{SecureChannel}
use hi_rodrop.Crypto.Handshake.{accept_client_init, complete_responder}
use hi_rodrop.Session.{
  Platform, Endpoint, on_endpoint, read_encrypted_offline, send_encrypted_offline,
  answer_keep_alive,
}
use hi_rodrop.Receiver.Errors.{ReceiveError}
use hi_rodrop.Receiver.Requests.{IncomingPeer, require_offline_type, parse_connection_request}
use hi_rodrop.Receiver.Offer.{TransferOffer, transfer_offer}
use hi_rodrop.Receiver.Session.{
  receive_errors, require_sharing_type, Step, read_next_sharing_frame, send_paired_key_encryption,
  send_paired_key_result,
}

-- The frame of `send_plain_connection_accept`; the operating system is that of the build.
abbrev pub connection_accept : OsType → OfflineFrame
connection_accept os_type =
    offline_frame (record (offline_v1_frame OfflineFrameType.connection_response) {
      connection_response = some (record {
        status = some (pos 0);
        handshake_data = none;
        response = some (as_i32 ConnectionResponseStatus.accept);
        os_info = some (record { os_type = some (as_i32 os_type) });
        multiplex_socket_bitmask = some (pos 0);
        nearby_connections_version = none;
        safe_to_disconnect_version = some (pos 1);
        keep_alive_timeout_millis = some (pos 600000);
      });
    })

abbrev pub waiting_keep_alive : OfflineFrame
waiting_keep_alive = offline_frame (record (offline_v1_frame OfflineFrameType.keep_alive) {
  keep_alive = some (record { ack = some false; seq_num = none });
})

-- A round without a decision: whether five seconds have passed since the last keep-alive, and what the
-- look at the socket returns.
pub record Waiting : Type 0 where
  pub is_due : Bool
  pub available : Result ErrorKind ℕ

pub record Consent : Type 0 where
  pub waiting : List Waiting
  pub decision : Bool

abbrev pub is_available : Result ErrorKind ℕ → Result ReceiveError Bool
is_available (ok zero) = err (ReceiveError.protocol "disconnected while waiting for consent")
is_available (ok (suc n)) = ok true
is_available (err ErrorKind.would_block) = ok false
is_available (err kind) = err (ReceiveError.io kind)

-- The connection before its channel: the stream, and how much was drawn from the source of random bytes.
pub record Line : Type 0 where
  pub stream : Stream
  pub drawn : ℕ

abbrev pub on_stream : {A : Type 0} → Exec Stream FrameIoError A → Exec Line ReceiveError A
on_stream = focus (λ s. s.stream) (λ t s. record s { stream = t }) ReceiveError.frame

abbrev pub on_crypto : {A : Type 0} → Result CryptoError A → Exec Line ReceiveError A
on_crypto r = lift (map_err ReceiveError.crypto r)

-- What the handshake ends with.
pub record Greeted (Address : Type 0) : Type 0 where
  pub peer : IncomingPeer Address
  pub channel : SecureChannel
  pub pin : Text
  pub fingerprint : Text

module _ {SecretKey PublicKey : Type 0} (platform : Platform SecretKey PublicKey) where
  open platform use {primitives, codecs}

  abbrev pub draw_random : Exec Line ReceiveError Bytes
  draw_random s = (ok (platform.random.bytes s.drawn 32), record s { drawn = suc s.drawn })

  abbrev pub expect : SharingFrameType → Step SharingFrame
  expect kind = do
    frame ← read_next_sharing_frame platform
    lift (require_sharing_type frame kind)
    pure frame

  -- Up to the introduction.
  unfoldable pub introduce : Step IntroductionFrame
  introduce = do
    on_endpoint (send_paired_key_encryption platform)
    expect SharingFrameType.paired_key_encryption
    on_endpoint (send_paired_key_result platform)
    expect SharingFrameType.paired_key_result
    introduction ← expect SharingFrameType.introduction
    lift (
        ok_or (and_then introduction.v1 (λ v1. v1.introduction))
          (ReceiveError.protocol "missing introduction"))

  -- Only a keep-alive that asks is answered; any other frame is dropped.
  unfoldable pub answer_waiting : Option OfflineV1Frame → Exec Endpoint ReceiveError (Unit {0})
  answer_waiting none = pure tt
  answer_waiting (some v1) =
      if is_value v1.frame_type (as_i32 OfflineFrameType.keep_alive)
      then answer_keep_alive platform receive_errors v1.keep_alive
      else pure tt

  unfoldable pub read_waiting : Bool → Exec Endpoint ReceiveError (Unit {0})
  read_waiting false = pure tt
  read_waiting true = do
    frame ← read_encrypted_offline platform receive_errors
    answer_waiting frame.v1

  unfoldable pub wait_once : Waiting → Exec Endpoint ReceiveError (Unit {0})
  wait_once round = do
    if round.is_due
        then send_encrypted_offline platform receive_errors waiting_keep_alive
        else pure tt
    available ← lift (is_available round.available)
    read_waiting available

  unfoldable pub wait_consent : List Waiting → Exec Endpoint ReceiveError (Unit {0})
  wait_consent [] = pure tt
  wait_consent (round ∷ rounds) = wait_once round >> wait_consent rounds

  -- What the user is asked, and the answer.
  unfoldable pub ask :
      {Address : Type 0}
      → Greeted Address
      → (TransferOffer Address → Consent)
      → Step (IntroductionFrame × Bool)
  ask greeted consent = do
    introduction ← introduce
    offer ← lift (transfer_offer greeted.peer greeted.pin greeted.fingerprint introduction)
    let answer = consent offer
    on_endpoint (wait_consent answer.waiting)
    pure (introduction, answer.decision)

  -- Up to the answer to the connection response.
  unfoldable pub greet :
      {Address : Type 0} → OsType → SecretKey → Address → Exec Line ReceiveError (Greeted Address)
  greet os_type secret address = do
    request_raw ← on_stream read_frame
    peer ← lift (parse_connection_request codecs.offline_frame request_raw address)
    client_init ← on_stream read_frame
    random ← draw_random
    accepted ← on_crypto (accept_client_init primitives codecs secret random client_init)
    on_stream (write_frame accepted.1)
    client_finish ← on_stream read_frame
    finished ← on_crypto (complete_responder primitives codecs accepted.0 client_finish)
    response_raw ← on_stream read_frame
    client_response ← lift (ok_or (codecs.offline_frame.decode response_raw) ReceiveError.protobuf)
    lift (require_offline_type client_response OfflineFrameType.connection_response)
    on_stream (write_frame (codecs.offline_frame.encode (connection_accept os_type)))
    pure (record { peer = peer; channel = finished.0; pin = finished.1; fingerprint = finished.2 })
