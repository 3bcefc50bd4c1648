-- ===== src/Sender/Sending.antt =====
-- The files of `send_prepared_files` of src/quick_share_sender.rs: the chunks of each file, and between
-- them the frames that the peer sends. What the socket answers to a look at it, and the disk to
-- the reads of a file, are parameters; an answer that is to be asked again (`Interrupted`) is none.
pub mod Frames
use Prim.Native.String.{String}
use hi_rodrop.Prelude.{
  ℕ, zero, suc, ◌+◌, ◌==◌, Bool, true, false, not, Option, none, some, List, [], ◌∷◌, ◌++◌, length,
  Result, ok, err, map_err, if◌then◌else◌,
}
use hi_rodrop.Prelude.Bytes.{Bytes}
use hi_rodrop.Prelude.Utf8.{Text}
use hi_rodrop.Prelude.Exec.{Exec, pure, raise, lift, gets, modify, ◌>>=◌, ◌>>◌}
use hi_rodrop.Wire.{OfflineFrame, OfflineV1Frame, OfflineFrameType, offline_frame_type_enumeration}
use hi_rodrop.Transport.{ErrorKind}
use hi_rodrop.Storage.FilePath.{FilePath}
use hi_rodrop.Session.{
  Platform, Talk, on_endpoint, on_own, read_encrypted_offline, send_encrypted_offline,
  answer_keep_alive, frame_type_of, transfer_frame,
}
use hi_rodrop.Sender.Errors.{SendError}
use hi_rodrop.Sender.Files.{OutgoingFile, file_transfer}
use hi_rodrop.Sender.Session.{send_errors}

-- The answers of the socket: to the n-th change of its mode, and to the n-th look, with the number of bytes
-- that it would read.
pub record Socket : Type 0 where
  pub set_nonblocking : ℕ → Bool → Result ErrorKind (Unit {0})
  pub peek : ℕ → Result ErrorKind ℕ

-- `QuickShareSendProgress`
pub data SendProgress : Type 0 where
  waiting_for_qr_scan : SendProgress
  phone_found : Text → SendProgress
  connecting : SendProgress
  negotiating : String → SendProgress
  verification_pin : Text → SendProgress
  waiting_for_acceptance finalizing : SendProgress
  sending : ℕ → ℕ → Text → SendProgress
  complete : SendProgress

-- How often the socket was looked at, the files that were opened, what has been sent, and what the callback
-- was told.
pub record Sending : Type 0 where
  pub looks : ℕ
  pub opened : List FilePath
  pub sent_bytes : ℕ
  pub progress : List SendProgress

abbrev pub Send : Type 0 → Type 0
Send A = Talk Sending SendError A

abbrev pub acknowledged_frames : ℕ
acknowledged_frames = 8

abbrev pub gone : SendError
gone = SendError.protocol "receiver disconnected during transfer"

-- Whether there is something to read.
abbrev pub is_available : Result ErrorKind ℕ → Result SendError Bool
is_available (err ErrorKind.would_block) = ok false
is_available (err kind) = err (SendError.io kind)
is_available (ok zero) = err gone
is_available (ok (suc n)) = ok true

abbrev pub report : SendProgress → Send (Unit {0})
report event = on_own (modify (λ s. record s { progress = s.progress ++ event ∷ [] }))

abbrev pub on_io : {A : Type 0} → Result ErrorKind A → Send A
on_io r = lift (map_err SendError.io r)

abbrev pub count_open : FilePath → Sending → Sending
count_open path s = record s { opened = s.opened ++ path ∷ [] }

abbrev pub count_sent : ℕ → Sending → Sending
count_sent size s = record s { sent_bytes = s.sent_bytes + size }

abbrev pub count_look : Sending → Sending
count_look s = record s { looks = suc s.looks }

module _ {SecretKey PublicKey : Type 0} (platform : Platform SecretKey PublicKey)
    (socket : Socket) where
  unfoldable pub look : Send Bool
  look = do
    n ← on_own (gets (λ s. s.looks))
    on_io (socket.set_nonblocking n true)
    let available = socket.peek n
    on_own (modify count_look)
    on_io (socket.set_nonblocking n false)
    lift (is_available available)

  unfoldable pub acknowledge_frame : Option OfflineFrameType → OfflineV1Frame → Send (Unit {0})
  acknowledge_frame (some OfflineFrameType.keep_alive) v1 =
      on_endpoint (answer_keep_alive platform send_errors v1.keep_alive)
  acknowledge_frame (some OfflineFrameType.disconnection) v1 = raise gone
  acknowledge_frame other v1 = pure tt

  abbrev pub acknowledge_version : Option OfflineV1Frame → Send (Unit {0})
  acknowledge_version none = pure tt
  acknowledge_version (some v1) = acknowledge_frame (frame_type_of v1) v1

  unfoldable pub acknowledge_one : Send (Unit {0})
  acknowledge_one = do
    frame ← on_endpoint (read_encrypted_offline platform send_errors)
    acknowledge_version frame.v1

  -- A round of the `for`: it ends the function when there is nothing to read.
  abbrev pub go_round : Send (Unit {0}) → Bool → Send (Unit {0})
  go_round rest false = pure tt
  go_round rest true = acknowledge_one >> rest

  unfoldable pub acknowledge_rounds : ℕ → Send (Unit {0})
  acknowledge_rounds zero = pure tt
  acknowledge_rounds (suc n) = look >>= go_round (acknowledge_rounds n)

  unfoldable pub acknowledge_pending_peer_frames : Send (Unit {0})
  acknowledge_pending_peer_frames = acknowledge_rounds acknowledged_frames

  unfoldable pub send_file_chunk : OutgoingFile → ℕ → Bytes → Bool → Send (Unit {0})
  send_file_chunk file offset body last = on_endpoint (
      send_encrypted_offline platform send_errors
        (transfer_frame (file_transfer file offset body last)))

  -- Behind the last read of a file.
  unfoldable pub end_file : OutgoingFile → ℕ → Send (Unit {0})
  end_file file offset = send_file_chunk file offset [] true >> acknowledge_pending_peer_frames

  unfoldable pub report_sent : ℕ → OutgoingFile → Send (Unit {0})
  report_sent total file = do
    sent ← on_own (gets (λ s. s.sent_bytes))
    report (SendProgress.sending sent total file.name)

  -- The loop over one file, by what its reads return; a read of no bytes is its end.
  unfoldable pub send_reads : ℕ → OutgoingFile → ℕ → List (Result ErrorKind Bytes) → Send (Unit {0})
  send_reads total file offset [] = acknowledge_pending_peer_frames >> end_file file offset
  send_reads total file offset (err kind ∷ reads) =
      acknowledge_pending_peer_frames >> raise (SendError.io kind)
  send_reads total file offset (ok [] ∷ reads) =
      acknowledge_pending_peer_frames >> end_file file offset
  send_reads total file offset (ok (b ∷ bs) ∷ reads) = do
    acknowledge_pending_peer_frames
    send_file_chunk file offset (b ∷ bs) false
    on_own (modify (count_sent (length (b ∷ bs))))
    report_sent total file
    send_reads total file (offset + length (b ∷ bs)) reads

  -- `File::open`, after which the file can be read: `contents` is what opening it and each read of it
  -- returns.
  unfoldable pub open_file :
      (OutgoingFile → Result ErrorKind (List (Result ErrorKind Bytes)))
      → OutgoingFile
      → Send (List (Result ErrorKind Bytes))
  open_file contents file = on_own (modify (count_open file.path)) >> on_io (contents file)

  unfoldable pub send_each :
      (OutgoingFile → Result ErrorKind (List (Result ErrorKind Bytes)))
      → ℕ
      → List OutgoingFile
      → Send (Unit {0})
  send_each contents total [] = pure tt
  send_each contents total (file ∷ files) = do
    reads ← open_file contents file
    send_reads total file 0 reads
    send_each contents total files

abbrev pub total_size : List OutgoingFile → ℕ
total_size [] = 0
total_size (file ∷ files) = file.size + total_size files
