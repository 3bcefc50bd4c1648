-- ===== src/Tests/Transfer.antt =====
-- The properties of an accepted transfer and of a whole connection at concrete inputs.
use hi_rodrop.Prelude.{
  Bool, true, false, replicate, ℕ, ◌≡◌, refl, some, none, [], ◌∷◌, ok, err, arith,
}
use hi_rodrop.Prelude.Int.{◌+ℤ◌, pos, checked_add_i32}
use hi_rodrop.Prelude.Bytes.{eq_bytes}
use hi_rodrop.Prelude.Utf8.{chars}
use hi_rodrop.Prelude.Loop.{repeat, go_on}
use hi_rodrop.Wire.{TextType, OsType}
use hi_rodrop.Transport.{ErrorKind, write_frame, write_all, read_frame, read_exact}
use hi_rodrop.Prelude.Decimal.{decimal}
use hi_rodrop.Prelude.Map.{lookup, insert, remove}
use hi_rodrop.Storage.FilePath.{FilePath, join, components, eq_path}
use hi_rodrop.Storage.Destination.{
  unique_destination, find_free, candidate_name, stem_and_extension, split_last_dot,
}
use hi_rodrop.Receiver.Pending.Texts.{receive_text, take_text, save_text, text_name}
use hi_rodrop.Storage.Disk.{Disk, Node, write_new}
use hi_rodrop.Crypto.Envelope.{seal, unseal}
use hi_rodrop.Crypto.Channel.{encrypt_offline_frame, decrypt_offline_frame}
use hi_rodrop.Session.{
  Endpoint, Conversation, send_frames, send_encrypted_offline, send_sealed, read_encrypted_offline,
  transfer_frame, listen, listen_round,
}
use hi_rodrop.Receiver.Errors.{ReceiveError}
use hi_rodrop.Receiver.Assembler.{
  new_assembler, data_transfer, body_chunk, last_chunk, push, read_transfer, push_chunk, extend,
  finish, complete,
}
use hi_rodrop.Receiver.Pending.{PendingTransfer, as_i64}
use hi_rodrop.Receiver.Session.{receive_errors}
use hi_rodrop.Receiver.Transfer.{
  while_waiting, Incoming, transfer_of, receive_offline, receive_frame, receive_transfer,
  receive_bytes, receive_payload, receive_all,
}
use hi_rodrop.Receiver.Transfer.Termination.{receive_all_complete, receive_all_ends}
use hi_rodrop.Sender.Session.{send_errors}
use hi_rodrop.Receiver.Offer.{TransferOffer}
use hi_rodrop.Receiver.Introduction.{Consent, Line}
use hi_rodrop.Receiver.Connection.{Surroundings, receive_connection}
use hi_rodrop.Receiver.Connection.Unasked.{IsRefused, receive_connection_declined}
use hi_rodrop.Sender.Connection.{connection_request_frame}
use hi_rodrop.Samples.Messages.{sample_codecs}
use hi_rodrop.Samples.Serial.{print_all, parse_all}
use hi_rodrop.Samples.Platform.{sample_platform, stream_of, endpoint_of}

-- "hi", as the text with the id 5
abbrev text_sent : Endpoint
text_sent =
    (send_frames sample_platform send_errors
      (transfer_frame
          (data_transfer (pos 5) (pos 2) (body_chunk last_chunk (pos 0) (some (104 ∷ 105 ∷ []))))
        ∷ [])
      (endpoint_of [])).1

abbrev downloads : FilePath
downloads = chars "d" ∷ []

abbrev disk : Disk
disk = record { node = λ p. none; unreadable = λ p. false; faults = [] }

abbrev waiting_text : PendingTransfer
waiting_text = record {
  files = [];
  texts = (pos 5, record { expected_size = 2; text_type = TextType.text }) ∷ [];
  preview_payload_ids = [];
  download_directory = downloads;
  completed = [];
  total_bytes = 2;
  received_bytes = 0;
}

abbrev receiver : Conversation Incoming
receiver = record {
  endpoint = endpoint_of text_sent.stream.output;
  own = record {
    assembler = new_assembler;
    receiving = record { transfer = waiting_text; disk = disk };
    progress = [];
  };
}

abbrev clock : ℕ → ℕ
clock n = 7

abbrev text_path : FilePath
text_path = chars "d" ∷ chars "Quick Share 7.txt" ∷ []

text_received : (receive_all sample_platform clock receiver).0 ≡ ok (text_path ∷ [])
unfolding send_frames send_encrypted_offline send_sealed write_frame write_all encrypt_offline_frame
    seal print_all checked_add_i32 as_i64 receive_all listen repeat read_encrypted_offline
    read_frame read_exact decrypt_offline_frame unseal parse_all eq_bytes receive_offline
    receive_frame receive_transfer receive_bytes push read_transfer push_chunk lookup extend finish
    complete insert remove receive_payload receive_text take_text save_text text_name decimal
    unique_destination find_free candidate_name stem_and_extension split_last_dot join components
    eq_path write_new ◌+ℤ◌
text_received = refl

abbrev finished : Conversation Incoming
finished = (receive_all sample_platform clock receiver).1

receive_all_complete_example :
    (u : Conversation Incoming) × (while_waiting sample_platform clock true receiver ≡ (ok tt, u))
    × (text_path ∷ [] ≡ (transfer_of u.own).completed)
    × ((transfer_of finished.own).files ≡ [])
    × ((transfer_of finished.own).texts ≡ [])
    × ((transfer_of finished.own).completed ≡ [])
receive_all_complete_example =
    receive_all_complete sample_platform clock receiver finished (text_path ∷ [])
      (λ i. (text_received i, finished))

receive_all_ends_example :
    let loop =
      listen sample_platform receive_errors ReceiveError.disconnected
        (receive_offline sample_platform clock) in
    let round =
      listen_round sample_platform receive_errors (receive_offline sample_platform clock) in
    (repeat ReceiveError.rejected 1000 round receiver ≡ loop receiver)
    × (loop receiver ≡ go_on loop (round receiver))
unfolding send_frames send_encrypted_offline send_sealed write_frame write_all encrypt_offline_frame
    seal print_all checked_add_i32
receive_all_ends_example =
    receive_all_ends sample_platform clock receiver 1000 ReceiveError.rejected (omega arith)

abbrev here : Surroundings
here = record {
  download_directory = downloads;
  create_dir_all = λ d. (ok tt, d);
  process_id = 1;
  random = λ n. n;
  clock = clock;
  os_type = OsType.linux;
}

-- A connection that begins with a request.
abbrev line : Line
line = record {
  stream =
      stream_of
        (write_frame
          (sample_codecs.offline_frame.encode
            (connection_request_frame (chars "AB12") (chars "PC") (replicate 18 0)))
          (stream_of [])).1.output;
  drawn = 0;
}

abbrev answering : Bool → TransferOffer ℕ → Consent
answering decision offer = record {
  waiting = record { is_due = true; available = err ErrorKind.would_block } ∷ [];
  decision = decision;
}

receive_connection_declined_example :
    IsRefused disk (receive_connection sample_platform here 3 0 (answering false) line disk)
receive_connection_declined_example =
    receive_connection_declined sample_platform here 3 0 (answering false) line disk (λ offer. refl)

abbrev part_path : FilePath
part_path = chars "d" ∷ chars ".hirodrop-1-0.part" ∷ []

abbrev waiting_file : PendingTransfer
waiting_file = record waiting_text {
  files =
      (
        pos 4,
        record {
          expected_size = 3;
          received = 1;
          final_path = chars "d" ∷ chars "a" ∷ [];
          part_path = part_path;
        },
      )
      ∷ [];
}

abbrev with_part : Disk
with_part = record { node = λ p. some (Node.file (7 ∷ [])); unreadable = λ p. false; faults = [] }
