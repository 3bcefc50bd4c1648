-- ===== src/Receiver/Connection.antt =====
-- `receive_connection` of src/quick_share_receiver.rs: a connection that was accepted, from the request to the
-- disconnection. Timeouts and other settings of the socket have no part in it.
pub mod Unasked
pub mod Confined
use hi_rodrop.Prelude.{
  ℕ, zero, suc, Bool, true, false, not, Option, none, some, List, [], ◌∷◌, Result, ok, err, ok_or,
  map_err, and_then, unwrap_or, if◌then◌else◌,
}
use hi_rodrop.Prelude.Int.{ℤ, pos, is_value}
use hi_rodrop.Prelude.Bytes.{Bytes}
use hi_rodrop.Prelude.Utf8.{Text}
use hi_rodrop.Prelude.Exec.{Exec, pure, raise, lift, focus, ◌>>=◌, ◌>>◌}
use hi_rodrop.Wire.{
  OfflineFrame, OfflineV1Frame, OfflineFrameType, offline_frame_type_enumeration, OsType,
  os_type_enumeration, ConnectionResponseStatus, connection_response_status_enumeration,
  SharingFrameType, sharing_frame_type_enumeration, SharingFrame, SharingResponseStatus,
  IntroductionFrame, KeepAliveFrame, offline_frame, offline_v1_frame,
}
use hi_rodrop.Wire.Enumeration.{as_i32}
use hi_rodrop.Transport.{ErrorKind, FrameIoError, Stream, read_frame, write_frame}
use hi_rodrop.Crypto.Errors.{CryptoError}
use hi_rodrop.Crypto.Channel.{SecureChannel}
use hi_rodrop.Crypto.Handshake.{accept_client_init, complete_responder}
use hi_rodrop.Storage.FilePath.{FilePath}
use hi_rodrop.Storage.Disk.{Disk, Io}
use hi_rodrop.Session.{
  Platform, Endpoint, Conversation, Talk, on_endpoint, on_own, read_encrypted_offline,
  send_encrypted_offline, answer_keep_alive,
}
use hi_rodrop.Receiver.Errors.{ReceiveError}
use hi_rodrop.Receiver.Requests.{IncomingPeer, require_offline_type, parse_connection_request}
use hi_rodrop.Receiver.Assembler.{BytesAssembler}
use hi_rodrop.Receiver.Pending.{PendingTransfer}
use hi_rodrop.Receiver.Pending.Prepare.{prepare}
use hi_rodrop.Receiver.Pending.Texts.{cleanup_parts}
use hi_rodrop.Receiver.Offer.{TransferOffer, transfer_offer}
use hi_rodrop.Receiver.Session.{
  receive_errors, require_sharing_type, Step, read_next_sharing_frame, send_paired_key_encryption,
  send_paired_key_result, send_sharing_response,
}
use hi_rodrop.Receiver.Transfer.{ReceiveProgress, Incoming, transfer_of, receive_all}
use hi_rodrop.Receiver.Introduction.{
  Consent, Line, Greeted, on_stream, on_crypto, connection_accept, greet, ask,
}

abbrev pub plain_disconnection : OfflineFrame
plain_disconnection = offline_frame (offline_v1_frame OfflineFrameType.disconnection)

-- With the channel: the conversation, the disk, and what the progress callback was told.
pub record Room : Type 0 where
  pub talk : Conversation BytesAssembler
  pub disk : Disk
  pub progress : List ReceiveProgress

abbrev pub on_talk : {A : Type 0} → Step A → Exec Room ReceiveError A
on_talk = focus (λ s. s.talk) (λ t s. record s { talk = t }) (λ e. e)

abbrev pub on_files : {A : Type 0} → Exec Disk ReceiveError A → Exec Room ReceiveError A
on_files = focus (λ s. s.disk) (λ d s. record s { disk = d }) (λ e. e)

abbrev pub incoming : PendingTransfer → Room → Conversation Incoming
incoming pending s = record {
  endpoint = s.talk.endpoint;
  own = record {
    assembler = s.talk.own;
    receiving = record { transfer = pending; disk = s.disk };
    progress = s.progress;
  };
}

abbrev pub room_of : Conversation Incoming → Disk → Room
room_of s disk = record {
  talk = record { endpoint = s.endpoint; own = s.own.assembler };
  disk = disk;
  progress = s.own.progress;
}

pub record TransferSummary (Address : Type 0) : Type 0 where
  pub peer : IncomingPeer Address
  pub saved_paths : List FilePath

-- The configuration, and what the program takes from its surroundings: what `create_dir_all` does for the
-- download directory, the id of the process, random numbers for names, the time, and the
-- operating system.
pub record Surroundings : Type 0 where
  pub download_directory : FilePath
  pub create_dir_all : Io (Unit {0})
  pub process_id : ℕ
  pub random : ℕ → ℕ
  pub clock : ℕ → ℕ
  pub os_type : OsType

module _ {SecretKey PublicKey : Type 0} (platform : Platform SecretKey PublicKey)
    (here : Surroundings) where
  -- The parts are removed when the transfer fails.
  unfoldable pub receive_or_clean : PendingTransfer → Exec Room ReceiveError (List FilePath)
  receive_or_clean pending s =
      let (result, t) = receive_all platform here.clock (incoming pending s) in
      let disk = t.own.receiving.disk in
      (
        result,
        room_of t
            (elim result [ ok paths ↦ disk | err e ↦ cleanup_parts (transfer_of t.own) disk ]),
      )

  -- Behind an acceptance.
  unfoldable pub receive_accepted : IntroductionFrame → Exec Room ReceiveError (List FilePath)
  receive_accepted introduction = do
    on_files (focus (λ d. d) (λ d _. d) ReceiveError.io here.create_dir_all)
    pending ← on_files (prepare here.download_directory here.process_id here.random introduction)
    on_talk (on_endpoint (send_sharing_response platform SharingResponseStatus.accept))
    paths ← receive_or_clean pending
    on_talk (on_endpoint (send_encrypted_offline platform receive_errors plain_disconnection))
    pure paths

  unfoldable pub decide : Bool → IntroductionFrame → Exec Room ReceiveError (List FilePath)
  decide false introduction =
      on_talk (on_endpoint (send_sharing_response platform SharingResponseStatus.reject))
      >> raise ReceiveError.rejected
  decide true introduction = receive_accepted introduction

  unfoldable pub serve :
      {Address : Type 0}
      → Greeted Address
      → (TransferOffer Address → Consent)
      → Exec Room ReceiveError (TransferSummary Address)
  serve greeted consent = do
    answered ← on_talk (ask platform greeted consent)
    paths ← decide answered.1 answered.0
    pure (record { peer = greeted.peer; saved_paths = paths })

  -- The channel is new, and nothing is buffered.
  abbrev pub room : Line → SecureChannel → Disk → Room
  room line channel disk = record {
    talk = record {
      endpoint = record { stream = line.stream; channel = channel; drawn = line.drawn };
      own = record { buffers = [] };
    };
    disk = disk;
    progress = [];
  }

  unfoldable pub serve_greeted :
      {Address : Type 0}
      → (TransferOffer Address → Consent)
      → Disk
      → Result ReceiveError (Greeted Address) × Line
      → Result ReceiveError (TransferSummary Address) × Disk
  serve_greeted consent disk (ok greeted, line) =
      let (result, s) = serve greeted consent (room line greeted.channel disk) in (result, s.disk)
  serve_greeted consent disk (err e, line) = (err e, disk)

  unfoldable pub receive_connection :
      {Address : Type 0}
      → SecretKey
      → Address
      → (TransferOffer Address → Consent)
      → Line
      → Disk
      → Result ReceiveError (TransferSummary Address) × Disk
  receive_connection secret address consent line disk =
      serve_greeted consent disk (greet platform here.os_type secret address line)
