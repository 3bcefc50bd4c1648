-- ===== src/Tests/Connection.antt =====
-- A connection of src/quick_share_receiver.rs that succeeds: the sender of src/quick_share_sender.rs brings a
-- picture of three bytes in a folder.
use hi_rodrop.Prelude.{
  All, Result, [], err, false, map, none, ok, refl, replicate, some, true, ℕ, ◌++◌, ◌∷◌, ◌≡◌,
}
use hi_rodrop.Prelude.Int.{checked_add_i32, pos}
use hi_rodrop.Prelude.Bytes.{Bytes, eq_bytes}
use hi_rodrop.Prelude.Utf8.{Text, as_bytes, chars, from_utf8}
use hi_rodrop.Wire.{FileType, OsType, ukey2_message_type_enumeration}
use hi_rodrop.Transport.{read_frame, write_frame}
use hi_rodrop.Crypto.Errors.{CryptoError}
use hi_rodrop.Crypto.Channel.{
  SecureChannel, decrypt_offline_frame, encrypt_offline_frame, new_channel,
}
use hi_rodrop.Crypto.Handshake.{
  Ukey2Initiator, Ukey2Responder, accept_client_init, begin, client_finish, complete_initiator,
  complete_responder,
}
use hi_rodrop.Session.{
  Endpoint, listen, read_encrypted_offline, send_encrypted_offline, send_frames, transfer_frame,
}
use hi_rodrop.Storage.FilePath.{FilePath, components, eq_path, join}
use hi_rodrop.Storage.Disk.{Node, Disk, create_dir, create_new, rename, sync_all, write_file}
use hi_rodrop.Storage.Parents.Inside.{IsBelow}
use hi_rodrop.Receiver.Connection.Confined.{receive_connection-IsBelow}
use hi_rodrop.Sender.Files.{OutgoingFile, file_transfers}
use hi_rodrop.Sender.Session.{
  send_errors, send_introduction, send_paired_key_encryption, send_paired_key_result,
}
use hi_rodrop.Sender.Connection.{connection_request_frame}
use hi_rodrop.Receiver.Errors.{ReceiveError}
use hi_rodrop.Receiver.Offer.{TransferOffer, offer_each, offer_file, transfer_offer}
use hi_rodrop.Receiver.Introduction.{
  Consent, Line, ask, connection_accept, greet, introduce, wait_consent,
}
use hi_rodrop.Receiver.Connection.{
  Surroundings, TransferSummary, decide, receive_accepted, receive_connection, receive_or_clean,
  serve, serve_greeted,
}
use hi_rodrop.Samples.Messages.{sample_codecs}
use hi_rodrop.Samples.Primitives.{sample_primitives}
use hi_rodrop.Samples.Platform.{sample_keys, sample_platform, stream_of}
use hi_rodrop.Receiver.Session.{
  read_next_sharing_frame, require_sharing_type, send_sharing_response, take_frame, take_offline,
  take_transfer,
}
use hi_rodrop.Receiver.Assembler.{complete, extend, finish, push, push_chunk, read_transfer}
use hi_rodrop.Receiver.Requests.{parse_connection_request, require_offline_type}
use hi_rodrop.Receiver.Transfer.{
  receive_all, receive_file, receive_frame, receive_offline, receive_transfer,
}
use hi_rodrop.Receiver.Pending.{as_i64}
use hi_rodrop.Receiver.Pending.Prepare.{
  add_size, check_total, declared_size, open_part, place_file, prepare, prepare_file, prepare_files,
  prepare_texts,
}
use hi_rodrop.Receiver.Pending.Chunk.{
  finish_file, read_file_transfer, receive_chunk, receive_file_chunk, save, write_body,
}
use hi_rodrop.Storage.Names.{
  is_blank, replace_char, sanitize_file_name, sanitize_path_component, split,
}
use hi_rodrop.Storage.Parents.{enter, enter_directory, safe_parent_directory, walk, walk_folder}
use hi_rodrop.Storage.Destination.{unique_destination}
use hi_rodrop.Crypto.PublicKeys.{
  decode_generic_public_key, encode_generic_public_key, signed_coordinate, unsigned_coordinate,
}
use hi_rodrop.Crypto.Envelope.{seal, unseal}
use hi_rodrop.Crypto.Keys.{derive_session_keys, hkdf}
use hi_rodrop.Samples.Serial.{parse_all, print_all}
use hi_rodrop.Prelude.Loop.{repeat}
use hi_rodrop.Prelude.Decimal.{zero_padded}
use hi_rodrop.Prelude.Map.{insert, lookup}

abbrev downloads : FilePath
downloads = chars "d" ∷ []

abbrev photo : OutgoingFile
photo = record {
  path = chars "a.png" ∷ [];
  name = chars "a.png";
  parent_folder = some (chars "x");
  size = 3;
  payload_id = pos 4;
  file_type = FileType.image;
  mime_type = chars "image/png";
  last_modified_timestamp_millis = pos 0;
}

abbrev written : Bytes → Bytes
written frame = (write_frame frame (stream_of [])).1.output

abbrev random_bytes : Bytes
random_bytes = replicate 32 3

-- The sender holds the secret 5, the receiver 6.
abbrev init_raw : Result CryptoError (Ukey2Initiator ℕ × Bytes) → Bytes
init_raw (ok begun) = begun.1
init_raw (err e) = []

abbrev client_raw : Bytes
client_raw = init_raw (begin sample_primitives sample_codecs 5 random_bytes)

abbrev server_raw : Bytes
server_raw =
    init_raw_of (accept_client_init sample_primitives sample_codecs 6 random_bytes client_raw)
  where
    init_raw_of : Result CryptoError (Ukey2Responder ℕ × Bytes) → Bytes
    init_raw_of (ok accepted) = accepted.1
    init_raw_of (err e) = []

abbrev initiator : Ukey2Initiator ℕ
initiator = record {
  client_init_raw = client_raw;
  client_finish_raw = client_finish sample_primitives sample_codecs 5;
  secret_key = 5;
}

abbrev channel_of : Result CryptoError (Bytes × SecureChannel × Text × Bytes) → SecureChannel
channel_of (ok completed) = completed.1
channel_of (err e) = new_channel sample_keys

-- The sender's side behind the handshake.
abbrev connected : Endpoint
connected = record {
  stream = stream_of [];
  channel = channel_of (complete_initiator sample_primitives sample_codecs initiator server_raw);
  drawn = 0;
}

abbrev sent : Endpoint
sent =
    let paired = (send_paired_key_encryption sample_platform none connected).1 in
    let answered = (send_paired_key_result sample_platform paired).1 in
    let introduced = (send_introduction sample_platform (photo ∷ []) answered).1 in
    (send_frames sample_platform send_errors
      (map transfer_frame (file_transfers photo 0 ((1 ∷ 2 ∷ []) ∷ (3 ∷ []) ∷ []))) introduced).1

abbrev line : Line
line = record {
  stream = stream_of (
      written (
        sample_codecs.offline_frame.encode
          (connection_request_frame (chars "AB12") (chars "PC") (replicate 18 0)))
      ++ (written client_raw
          ++ (written initiator.client_finish_raw
              ++ (written (sample_codecs.offline_frame.encode (connection_accept OsType.linux))
                  ++ sent.stream.output))));
  drawn = 0;
}

abbrev disk : Disk
disk = record { node = λ p. none; unreadable = λ p. false; faults = [] }

abbrev here : Surroundings
here = record {
  download_directory = downloads;
  create_dir_all = λ d. (ok tt, d);
  process_id = 1;
  random = λ n. n;
  clock = λ n. 7;
  os_type = OsType.linux;
}

abbrev agreeing : TransferOffer ℕ → Consent
agreeing offer = record { waiting = []; decision = true }

abbrev connection : Result ReceiveError (TransferSummary ℕ) × Disk
connection = receive_connection sample_platform here 6 0 agreeing line disk

-- Where the picture is saved.
abbrev saved : FilePath
saved = chars "d" ∷ chars "x" ∷ chars "a.png" ∷ []

abbrev summary : TransferSummary ℕ
summary = record {
  peer = record { name = []; device_type = 0; address = 0 };
  saved_paths = saved ∷ [];
}

-- The picture stands where it is said to.
succeeds :
    (connection.0 ≡ ok summary) × (connection.1.node saved ≡ some (Node.file (1 ∷ 2 ∷ 3 ∷ [])))
unfolding receive_or_clean receive_accepted decide serve serve_greeted receive_connection introduce
    wait_consent ask greet require_sharing_type take_transfer take_frame take_offline
    read_next_sharing_frame hi_rodrop.Receiver.Session.send_sharing_frame
    hi_rodrop.Receiver.Session.send_paired_key_encryption
    hi_rodrop.Receiver.Session.send_paired_key_result send_sharing_response complete finish extend
    push_chunk read_transfer push require_offline_type parse_connection_request offer_file
    offer_each transfer_offer receive_file receive_transfer receive_frame receive_offline
    receive_all as_i64 declared_size add_size open_part place_file prepare_file prepare_files
    prepare_texts check_total prepare read_file_transfer write_body save finish_file receive_chunk
    receive_file_chunk hi_rodrop.Sender.Session.send_sharing_frame send_paired_key_encryption
    send_paired_key_result send_introduction file_transfers send_encrypted_offline
    read_encrypted_offline send_frames listen read_frame write_frame create_new create_dir
    write_file sync_all rename components join eq_path replace_char is_blank sanitize_path_component
    sanitize_file_name split enter enter_directory walk walk_folder safe_parent_directory
    unique_destination encrypt_offline_frame decrypt_offline_frame signed_coordinate
    unsigned_coordinate encode_generic_public_key decode_generic_public_key seal unseal hkdf
    derive_session_keys begin complete_initiator accept_client_init complete_responder print_all
    parse_all repeat zero_padded checked_add_i32 lookup insert as_bytes from_utf8 eq_bytes
succeeds = (refl, refl)

receive_connection-IsBelow_example : All (IsBelow downloads) (saved ∷ [])
receive_connection-IsBelow_example =
    receive_connection-IsBelow sample_platform here 6 0 agreeing line disk summary (succeeds.0)
