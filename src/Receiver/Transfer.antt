-- ===== src/Receiver/Transfer.antt =====
-- `PendingTransfer::receive_all` of src/quick_share_receiver.rs: the loop that takes the files and texts of an
-- accepted transfer off the channel. What it hands to the progress callback is kept in a list. The
-- wall clock is read by its time at a draw of the random source.
pub mod Termination
pub mod Confined
pub mod Inside
pub mod Saved
use hi_rodrop.Prelude.{
  ℕ, Bool, true, false, not, ◌||◌, Option, none, some, List, [], ◌∷◌, ◌++◌, if◌then◌else◌, ok,
  ok_or, and_then,
}
use hi_rodrop.Prelude.Int.{ℤ, ◌==ℤ◌}
use hi_rodrop.Prelude.Bytes.{Bytes}
use hi_rodrop.Prelude.Utf8.{Text}
use hi_rodrop.Prelude.Exec.{Exec, pure, raise, lift, gets, modify, focus, ◌>>=◌, ◌>>◌}
use hi_rodrop.Prelude.Map.{is_empty}
use hi_rodrop.Wire.{
  OfflineFrame, OfflineV1Frame, OfflineFrameType, PayloadTransferFrame, PayloadType,
  payload_type_enumeration,
}
use hi_rodrop.Wire.Enumeration.{try_from}
use hi_rodrop.Storage.FilePath.{FilePath}
use hi_rodrop.Session.{
  Platform, Conversation, Talk, on_endpoint, on_own, draw_u64, listen, answer_keep_alive,
  frame_type_of,
}
use hi_rodrop.Receiver.Errors.{ReceiveError}
use hi_rodrop.Receiver.Assembler.{BytesAssembler, push}
use hi_rodrop.Receiver.Session.{receive_errors}
use hi_rodrop.Receiver.Pending.{PendingTransfer, Receiving, Step}
use hi_rodrop.Receiver.Pending.Prepare.{contains_key}
use hi_rodrop.Receiver.Pending.Chunk.{receive_file_chunk, receive_file_bytes}
use hi_rodrop.Receiver.Pending.Texts.{receive_text}

-- `QuickShareReceiveProgress::Receiving`
pub record ReceiveProgress : Type 0 where
  pub received_bytes : ℕ
  pub total_bytes : ℕ
  pub file_name : Text

pub record Incoming : Type 0 where
  pub assembler : BytesAssembler
  pub receiving : Receiving
  pub progress : List ReceiveProgress

abbrev pub Take : Type 0 → Type 0
Take A = Talk Incoming ReceiveError A

abbrev pub on_assembler :
    {A : Type 0} → Exec BytesAssembler ReceiveError A → Exec Incoming ReceiveError A
on_assembler = focus (λ s. s.assembler) (λ a s. record s { assembler = a }) (λ e. e)

abbrev pub on_receiving : {A : Type 0} → Step A → Exec Incoming ReceiveError A
on_receiving = focus (λ s. s.receiving) (λ r s. record s { receiving = r }) (λ e. e)

abbrev pub transfer_of : Incoming → PendingTransfer
transfer_of s = s.receiving.transfer

abbrev pub progress_of : Incoming → Text → ReceiveProgress
progress_of s name = record {
  received_bytes = (transfer_of s).received_bytes;
  total_bytes = (transfer_of s).total_bytes;
  file_name = name;
}

-- The call of the progress callback.
abbrev pub report : Text → Exec Incoming ReceiveError (Unit {0})
report name = modify (λ s. record s { progress = s.progress ++ progress_of s name ∷ [] })

abbrev pub report_some : Option Text → Exec Incoming ReceiveError (Unit {0})
report_some none = pure tt
report_some (some name) = report name

unfoldable pub has_id : ℤ → List ℤ → Bool
has_id id [] = false
has_id id (x ∷ xs) = (x ==ℤ id) || has_id id xs

-- `HashSet::remove`
unfoldable pub remove_id : ℤ → List ℤ → List ℤ
remove_id id [] = []
remove_id id (x ∷ xs) = let rest = remove_id id xs in if x ==ℤ id then rest else x ∷ rest

abbrev pub forget_preview : ℤ → Exec Incoming ReceiveError (Unit {0})
forget_preview id = modify λ s. record s {
  receiving = record s.receiving {
    transfer = record s.receiving.transfer {
      preview_payload_ids = remove_id id s.receiving.transfer.preview_payload_ids;
    };
  };
}

-- Files or texts are still waited for.
abbrev pub is_waiting : PendingTransfer → Bool
is_waiting t = not (is_empty t.files) || not (is_empty t.texts)

unfoldable pub receive_file : PayloadTransferFrame → Exec Incoming ReceiveError (Unit {0})
receive_file transfer = on_receiving (receive_file_chunk transfer) >>= report_some

-- Where a byte payload goes: to a file or a text that waits for it, and otherwise nowhere.
unfoldable pub receive_payload : ℕ → ℕ → ℤ → Bytes → Exec Incoming ReceiveError (Unit {0})
receive_payload timestamp random id bytes = do
  transfer ← gets transfer_of
  if contains_key id transfer.files
      then on_receiving (receive_file_bytes id bytes) >>= report
      else if contains_key id transfer.texts
      then on_receiving (receive_text timestamp random id bytes) >>= report
      else if has_id id transfer.preview_payload_ids
      then forget_preview id
      else pure tt

abbrev pub receive_done : ℕ → ℕ → Option (ℤ × Bytes) → Exec Incoming ReceiveError (Unit {0})
receive_done timestamp random none = pure tt
receive_done timestamp random (some (id, bytes)) = receive_payload timestamp random id bytes

unfoldable pub receive_bytes : ℕ → ℕ → PayloadTransferFrame → Exec Incoming ReceiveError (Unit {0})
receive_bytes timestamp random transfer =
    on_assembler (push transfer) >>= receive_done timestamp random

abbrev pub payload_type_of : PayloadTransferFrame → Option PayloadType
payload_type_of transfer =
    and_then (and_then transfer.payload_header (λ header. header.payload_type)) try_from

unfoldable pub receive_transfer :
    ℕ → ℕ → Option PayloadType → PayloadTransferFrame → Exec Incoming ReceiveError (Unit {0})
receive_transfer timestamp random (some PayloadType.file) transfer = receive_file transfer
receive_transfer timestamp random (some PayloadType.bytes) transfer =
    receive_bytes timestamp random transfer
receive_transfer timestamp random other transfer =
    raise (ReceiveError.protocol "unsupported payload type")

-- The test of the `while`, behind each round.
abbrev pub until_complete : Take (Option (Unit {0}))
until_complete = gets (λ s. if is_waiting (transfer_of s.own) then none else some tt)

-- `mem::take` of the completed paths
abbrev pub take_completed : Take (List FilePath)
take_completed s = (
  ok (transfer_of s.own).completed,
  record s {
    own = record s.own {
      receiving = record s.own.receiving {
        transfer = record s.own.receiving.transfer { completed = [] };
      };
    };
  },
)

module _ {SecretKey PublicKey : Type 0} (platform : Platform SecretKey PublicKey)
    (clock : ℕ → ℕ) where
  -- A random number is drawn for each transfer; only the last resort of a text's name uses it.
  abbrev pub receive_with : PayloadTransferFrame → ℕ → Take (Unit {0})
  receive_with transfer random = do
    timestamp ← gets (λ s. clock s.endpoint.drawn)
    on_own (receive_transfer timestamp random (payload_type_of transfer) transfer)

  unfoldable pub receive_frame : Option OfflineFrameType → OfflineV1Frame → Take (Unit {0})
  receive_frame (some OfflineFrameType.keep_alive) v1 =
      on_endpoint (answer_keep_alive platform receive_errors v1.keep_alive)
  receive_frame (some OfflineFrameType.payload_transfer) v1 = do
    transfer ← lift (ok_or v1.payload_transfer (ReceiveError.protocol "missing payload transfer"))
    random ← on_endpoint (draw_u64 platform receive_errors)
    receive_with transfer random
  receive_frame (some OfflineFrameType.disconnection) v1 = raise ReceiveError.disconnected
  receive_frame other v1 = pure tt

  unfoldable pub receive_offline : OfflineFrame → Take (Option (Unit {0}))
  receive_offline frame = do
    v1 ← lift (ok_or frame.v1 (ReceiveError.protocol "missing encrypted v1 frame"))
    receive_frame (frame_type_of v1) v1
    until_complete

  abbrev pub while_waiting : Bool → Take (Unit {0})
  while_waiting true = listen platform receive_errors ReceiveError.disconnected receive_offline
  while_waiting false = pure tt

  unfoldable pub receive_all : Take (List FilePath)
  receive_all = do
    waiting ← gets (λ s. is_waiting (transfer_of s.own))
    while_waiting waiting
    take_completed
