-- ===== src/Receiver/Transfer/Inside.antt =====
-- Where src/quick_share_receiver.rs puts the texts, and all that `receive_all` takes.
use hi_rodrop.Prelude.{
  ℕ, ◌≡◌, refl, sym, ◌∙◌, inl, inr, some, none, Option, [], ◌∷◌, ◌++◌, arith, length, ◌==◌,
  Bool-cases, Bool, true, not, ◌&&◌, Option-cases, Result-cases, All, All-append,
}
use mathlib.Core.List.{append-nil}
use hi_rodrop.Prelude.Int.{ℤ}
use hi_rodrop.Prelude.Bytes.{Bytes, eq_bytes}
use hi_rodrop.Prelude.Utf8.{Text, chars}
use hi_rodrop.Prelude.Decimal.{decimal}
use hi_rodrop.Prelude.Exec.{pure, ◌>>◌, Keeps, Keeps-bind}
use hi_rodrop.Prelude.Map.{lookup, AllValues-lookup}
use hi_rodrop.Wire.{TextType, PayloadTransferFrame}
use hi_rodrop.Storage.FilePath.{FilePath}
use hi_rodrop.Storage.Disk.{write_new}
use hi_rodrop.Storage.Destination.{unique_destination}
use hi_rodrop.Storage.Parents.Inside.{IsBelow}
use hi_rodrop.Receiver.Assembler.{push}
use hi_rodrop.Receiver.Pending.{
  PendingFile, PendingText, PendingTransfer, Receiving, on_disk, change, file_name,
}
use hi_rodrop.Receiver.Pending.Chunk.{
  read_file_transfer, receive_chunk, receive_file_chunk, count_bytes, receive_bytes,
  receive_file_bytes,
}
use hi_rodrop.Storage.Names.{is_blank, is_control, is_forbidden}
use hi_rodrop.Storage.SafeNames.{IsSafe, IsClean}
use hi_rodrop.Prelude.Decimal.{decimal-IsDigit}
use hi_rodrop.Storage.Destination.Inside.{digit-IsClean, unique_destination-IsEntry}
use hi_rodrop.Receiver.Pending.Texts.{
  text_name, suffix, complete_path, remove_text, save_text, take_text, receive_text, unnamed_text,
}
use hi_rodrop.Wire.{PayloadType}
use hi_rodrop.Receiver.Pending.Prepare.{contains_key}
use hi_rodrop.Receiver.Transfer.{
  Incoming, transfer_of, is_waiting, on_assembler, on_receiving, report, report_some, has_id,
  forget_preview, receive_file, receive_payload, receive_done, receive_transfer, payload_type_of,
  receive_with, receive_frame, until_complete, receive_offline, while_waiting, take_completed,
  receive_all,
}
use hi_rodrop.Receiver.Transfer as Transfer
use hi_rodrop.Receiver.Transfer.Confined.{
  IsKept, IsConfined, Confined, completes, receive_chunk-Confined, receive_bytes-Confined,
}

abbrev all_clean : Text → Bool
all_clean [] = true
all_clean (c ∷ cs) = not (is_control c) && (not (is_forbidden c) && all_clean cs)

all_clean-IsClean : (s : Text) → all_clean s ≡ true → All IsClean s
all_clean-IsClean [] h = tt
all_clean-IsClean (c ∷ cs) h = ((ground arith, ground arith), all_clean-IsClean cs (ground arith))

suffix-IsClean : (t : TextType) → All IsClean (suffix t)
suffix-IsClean TextType.url = all_clean-IsClean (chars "url.txt") refl
suffix-IsClean _ = all_clean-IsClean (chars "txt") refl

text_name-IsSafe : (timestamp : ℕ) (t : TextType) → IsSafe (text_name timestamp t)
unfolding text_name eq_bytes is_blank
text_name-IsSafe timestamp t =
    let tail : Text = chars "." ++ suffix t in
    record {
      clean =
          All-append IsClean (chars "Quick Share ") (decimal timestamp ++ tail)
            (all_clean-IsClean (chars "Quick Share ") refl)
            (All-append IsClean (decimal timestamp) tail
              (digit-IsClean (decimal timestamp) (decimal-IsDigit timestamp))
              ((refl, refl), suffix-IsClean t));
      no_dots = refl;
      not_blank = refl;
    }

module _ (directory : FilePath) where
  text_place :
      (s : Receiving) (timestamp random : ℕ) (t : TextType)
      → IsConfined directory s.transfer
      → IsBelow directory
          (unique_destination s.disk s.transfer.download_directory (text_name timestamp t) random)
  text_place s timestamp random t c =
      let (name, e, safe) =
        unique_destination-IsEntry s.disk s.transfer.download_directory (text_name timestamp t)
          random (text_name-IsSafe timestamp t) in
      (
        s.transfer.download_directory,
        ([], c.download_directory ∙ sym (append-nil directory), tt),
        (name, e, safe),
      )

  save_text-Confined :
      (timestamp random : ℕ) (bytes : Bytes) (t : PendingText)
      → Keeps (Confined directory) (save_text timestamp random bytes t)
  unfolding save_text
  save_text-Confined timestamp random bytes t s0 c0 =
      let at : FilePath =
        unique_destination s0.disk s0.transfer.download_directory (text_name timestamp t.text_type)
          random in
      Keeps-bind (Confined directory) (on_disk (write_new at bytes))
        (λ u. change (complete_path at) >> pure (file_name at unnamed_text)) (λ s c. c)
        (λ u s c.
          completes directory at s.transfer (text_place s0 timestamp random t.text_type c0) c)
        (record s0 { transfer = count_bytes (length bytes) s0.transfer }) (counted s0 c0)
    where
      counted :
          (s : Receiving)
          → IsConfined directory s.transfer
          → IsConfined directory (count_bytes (length bytes) s.transfer)
      counted s c = record {
        files = c.files;
        completed = c.completed;
        download_directory = c.download_directory;
      }

  take_text-Confined :
      (timestamp random : ℕ) (id : ℤ) (bytes : Bytes) (o : Option PendingText)
      → Keeps (Confined directory) (take_text timestamp random id bytes o)
  unfolding take_text
  take_text-Confined timestamp random id bytes none = λ s c. c
  take_text-Confined timestamp random id bytes (some t) =
      elim (Bool-cases (length bytes == t.expected_size)) [
        | inr e ↦ rw e (λ s c. removed s c)
        | inl e ↦ rw e (λ s c.
            save_text-Confined timestamp random bytes t
              (record s { transfer = remove_text id s.transfer }) (removed s c))
      ]
    where
      removed :
          (s : Receiving)
          → IsConfined directory s.transfer
          → IsConfined directory (remove_text id s.transfer)
      removed s c = record {
        files = c.files;
        completed = c.completed;
        download_directory = c.download_directory;
      }

  receive_text-Confined :
      (timestamp random : ℕ) (id : ℤ) (bytes : Bytes)
      → Keeps (Confined directory) (receive_text timestamp random id bytes)
  unfolding receive_text
  receive_text-Confined timestamp random id bytes s =
      take_text-Confined timestamp random id bytes (lookup id s.transfer.texts) s

  kept :
      (id : ℤ) (f : PendingFile) (t : PendingTransfer)
      → lookup id t.files ≡ some f
      → IsConfined directory t
      → IsKept directory f
  kept id f t l c = AllValues-lookup (IsKept directory) id f t.files l c.files

  receive_file_chunk-Confined :
      (transfer : PayloadTransferFrame) → Keeps (Confined directory) (receive_file_chunk transfer)
  unfolding receive_file_chunk receive_chunk
  receive_file_chunk-Confined transfer s c = elim (Result-cases (read_file_transfer transfer)) [
    | inr (x, e) ↦ rw e c
    | inl ((id, chunk), e) ↦ elim (Option-cases (lookup id s.transfer.files)) [
      | inl l ↦ rw (e, l) c
      | inr (f, l) ↦
          rw (e, l) (receive_chunk-Confined directory id f chunk (kept id f s.transfer l c) s c)
    ]
  ]

  receive_file_bytes-Confined :
      (id : ℤ) (bytes : Bytes) → Keeps (Confined directory) (receive_file_bytes id bytes)
  unfolding receive_file_bytes receive_bytes
  receive_file_bytes-Confined id bytes s c = elim (Option-cases (lookup id s.transfer.files)) [
    | inl l ↦ rw l c
    | inr (f, l) ↦
        rw l (receive_bytes-Confined directory id bytes f (kept id f s.transfer l c).0 s c)
  ]

  abbrev pub Below : Incoming → Type 0
  Below s = IsConfined directory (transfer_of s)

  receive_payload_confined :
      (timestamp random : ℕ) (id : ℤ) (bytes : Bytes)
      → Keeps Below (receive_payload timestamp random id bytes)
  unfolding receive_payload
  receive_payload_confined timestamp random id bytes s =
      elim (Bool-cases (contains_key id (transfer_of s).files)) [
        | inl e ↦ rw e (
            Keeps-bind Below (on_receiving (receive_file_bytes id bytes)) report
              (λ s. receive_file_bytes-Confined id bytes s.receiving) (λ name s c. c) s)
        | inr e ↦ elim (Bool-cases (contains_key id (transfer_of s).texts)) [
          | inl l ↦
              rw (e, l)
                (Keeps-bind Below (on_receiving (receive_text timestamp random id bytes)) report
                  (λ s. receive_text-Confined timestamp random id bytes s.receiving) (λ name s c. c)
                  s)
          | inr l ↦ elim (Bool-cases (has_id id (transfer_of s).preview_payload_ids)) [
            | inl h ↦
                rw (e, l, h)
                  (λ c. record {
                    files = c.files;
                    completed = c.completed;
                    download_directory = c.download_directory;
                  })
            | inr h ↦ rw (e, l, h) (λ c. c)
          ]
        ]
      ]

  receive_done_confined :
      (timestamp random : ℕ) (done : Option (ℤ × Bytes))
      → Keeps Below (receive_done timestamp random done)
  receive_done_confined timestamp random none = λ s c. c
  receive_done_confined timestamp random (some (id, bytes)) =
      receive_payload_confined timestamp random id bytes

  report_some_confined : (name : Option Text) → Keeps Below (report_some name)
  report_some_confined none = λ s c. c
  report_some_confined (some name) = λ s c. c

  pub receive_transfer_confined :
      (timestamp random : ℕ) (kind : Option PayloadType) (transfer : PayloadTransferFrame)
      → Keeps Below (receive_transfer timestamp random kind transfer)
  unfolding receive_transfer receive_file Transfer.receive_bytes
  receive_transfer_confined timestamp random (some PayloadType.file) transfer =
      Keeps-bind Below (on_receiving (receive_file_chunk transfer)) report_some
        (λ s. receive_file_chunk-Confined transfer s.receiving) report_some_confined
  receive_transfer_confined timestamp random (some PayloadType.bytes) transfer =
      Keeps-bind Below (on_assembler (push transfer)) (receive_done timestamp random) (λ s c. c)
        (receive_done_confined timestamp random)
  receive_transfer_confined timestamp random _ transfer = λ s c. c
