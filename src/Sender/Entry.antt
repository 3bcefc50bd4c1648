-- ===== src/Sender/Entry.antt =====
-- `send_files_via_qr_cancelable` and `send_files_to_device` of src/quick_share_sender.rs: the selection, the
-- wait for the phone and the connection, in this order. What connecting to an address returns is a
-- parameter; `undecided` says that the wait goes on behind the rounds that are given.
use hi_rodrop.Prelude.{ℕ, Option, none, some, List, [], ◌∷◌, ◌++◌, Result, ok, err}
use hi_rodrop.Prelude.Bytes.{Bytes}
use hi_rodrop.Prelude.Utf8.{Text}
use hi_rodrop.Storage.FilePath.{FilePath}
use hi_rodrop.Transport.{ErrorKind, Stream}
use hi_rodrop.Session.{Platform}
use hi_rodrop.Discovery.External.{Base64, Aead}
use hi_rodrop.Discovery.Service.{SocketAddr}
use hi_rodrop.Discovery.QrSession.{
  QrKeys, QuickShareQrSession, Round, Found, sign_auth_key, discover_rounds,
}
use hi_rodrop.Sender.Errors.{SendError}
use hi_rodrop.Sender.Files.{OutgoingFile}
use hi_rodrop.Sender.Selection.{Entry}
use hi_rodrop.Sender.Preparation.{Stop, failed, Metadata, prepare_files}
use hi_rodrop.Sender.Sending.{SendProgress}
use hi_rodrop.Sender.Delivery.{Surroundings, send_prepared_files}

-- How a sending ends, and what the callback was told.
pub data Ending : Type 0 where
  sent : Ending
  stopped : Stop → Ending
  undecided : Ending

abbrev pub Told : Type 0
Told = Ending × List SendProgress

abbrev pub ending_of : Result SendError (Unit {0}) → Ending
ending_of (ok tt) = sent
ending_of (err e) = stopped (failed e)

module _ {SecretKey PublicKey : Type 0} (platform : Platform SecretKey PublicKey) (base64 : Base64)
    (here : Surroundings) (stat : FilePath → Result Text Metadata) (draw : ℕ → ℕ) (patience : ℕ)
    (secret : SecretKey) (display_name : Text) where
  -- `TcpStream::connect_timeout`, and then the connection.
  unfoldable pub connect_and_send :
      Option (Bytes → Bytes)
      → List OutgoingFile
      → List SendProgress
      → Result ErrorKind Stream
      → Told
  connect_and_send sign files progress (err kind) =
      (stopped (failed (SendError.io kind)), progress ++ SendProgress.connecting ∷ [])
  connect_and_send sign files progress (ok stream) =
      let (result, outcome) =
        send_prepared_files platform base64 here secret sign display_name files
          (record { stream = stream; drawn = 0; progress = progress }) in
      (ending_of result, outcome.1)

  unfoldable pub send_to : Result ErrorKind Stream → Result Stop (List OutgoingFile) → Told
  send_to connected (err e) = (stopped e, [])
  send_to connected (ok files) = connect_and_send none files [] connected

  unfoldable pub send_files_to_device : Result ErrorKind Stream → List (FilePath × Entry) → Told
  send_files_to_device connected selection =
      send_to connected (prepare_files stat draw patience selection)

  unfoldable pub send_to_found :
      (SocketAddr → Result ErrorKind Stream)
      → (Bytes → Bytes)
      → List OutgoingFile
      → Option Found
      → Told
  send_to_found connect sign files none = (undecided, SendProgress.waiting_for_qr_scan ∷ [])
  send_to_found connect sign files (some (err e)) =
      (stopped (failed SendError.qr), SendProgress.waiting_for_qr_scan ∷ [])
  send_to_found connect sign files (some (ok endpoint)) =
      connect_and_send (some sign) files
        (SendProgress.waiting_for_qr_scan ∷ SendProgress.phone_found endpoint.name ∷ [])
        (connect endpoint.address)

  unfoldable pub send_via_qr :
      (SocketAddr → Result ErrorKind Stream)
      → (Bytes → Bytes)
      → Option Found
      → Result Stop (List OutgoingFile)
      → Told
  send_via_qr connect sign found (err e) = (stopped e, [])
  send_via_qr connect sign found (ok files) = send_to_found connect sign files found

  -- The rounds of the wait are what happens until the flag is set, the deadline passes or a phone is found.
  unfoldable pub send_files_via_qr_cancelable :
      Aead
      → QrKeys SecretKey
      → QuickShareQrSession SecretKey
      → List Round
      → (SocketAddr → Result ErrorKind Stream)
      → List (FilePath × Entry)
      → Told
  send_files_via_qr_cancelable aead keys qr rounds connect selection =
      send_via_qr connect (sign_auth_key platform.primitives keys qr)
        (discover_rounds base64 aead qr rounds) (prepare_files stat draw patience selection)
