-- ===== src/Tests/Closing.antt =====
-- The properties of the sender behind the introduction at a concrete connection.
use hi_rodrop.Prelude.{
  ◌≡◌, refl, sym, ap, ◌∙◌, true, false, some, none, map, List, [], ◌∷◌, ◌++◌, ok, err, arith,
  Result,
}
use mathlib.Core.Path.{subst}
use hi_rodrop.Prelude.Int.{pos, checked_add_i32, is_value, ◌+ℤ◌}
use hi_rodrop.Prelude.Bytes.{Bytes, eq_bytes}
use hi_rodrop.Prelude.Map.{lookup, insert, remove}
use hi_rodrop.Wire.Enumeration.{as_i32}
use hi_rodrop.Prelude.Utf8.{chars}
use hi_rodrop.Prelude.Loop.{repeat, go_on}
use hi_rodrop.Wire.{
  OfflineFrame, OfflineFrameType, offline_frame_type_enumeration, offline_v1, offline_v1_frame,
  SharingFrame, SharingResponseStatus, sharing_response_status_enumeration, FileType, OsType,
}
use hi_rodrop.Transport.{ErrorKind, write_frame, write_all, read_frame, read_exact}
use hi_rodrop.Crypto.Envelope.{seal, unseal}
use hi_rodrop.Crypto.Channel.{encrypt_offline_frame, decrypt_offline_frame}
use hi_rodrop.Session.{
  listen, Endpoint, Conversation, send_frames, send_encrypted_offline, read_encrypted_offline,
  send_sealed, transfer_frame,
}
use hi_rodrop.Session.Delivery.{AreMatched, Brings}
use hi_rodrop.Session.Arrival.{sent_frames, heard}
use hi_rodrop.Sender.Errors.{SendError}
use hi_rodrop.Sender.Assembler.{new_assembler, push, push_chunk, read_transfer, finish, complete}
use hi_rodrop.Receiver.Assembler.{extend}
use hi_rodrop.Sender.Files.{OutgoingFile}
use hi_rodrop.Sender.Session.{
  send_errors, require_sharing_type, take_offline, take_frame, send_paired_key_encryption,
  send_paired_key_result, send_introduction, send_sharing_frame, read_next_sharing_frame,
}
use hi_rodrop.Receiver.Pending.{as_i64}
use hi_rodrop.Sender.Closing.{disconnection, closing_round, wait_for_close}
use hi_rodrop.Sender.Closing.Termination.{wait_for_close_ends}
use hi_rodrop.Sender.Closing.Outcome.{wait_for_close-outcome, wait_for_close-disconnection}
use hi_rodrop.Receiver.Session as Receiver
use hi_rodrop.Sender.Sending.{Socket, Sending, send_each}
use hi_rodrop.Sender.Sending.Frames.{seen, all_transfers, send_each-file_transfers}
use hi_rodrop.Sender.Delivery.{
  Negotiated, Outgoing, Surroundings, sharing_status, introduce, deliver,
}
use hi_rodrop.Sender.Delivery.Rejected.{refused, deliver_unaccepted}
use hi_rodrop.Samples.Serial.{print_all, parse_all}
use hi_rodrop.Samples.Platform.{sample_platform, sample_keys, endpoint_of}

-- The receiver sends a frame that is passed over, and then asks for a safe disconnection.
abbrev idle : List OfflineFrame
idle = offline_v1 OfflineFrameType.auto_resume ∷ []

abbrev after_idle : Endpoint
after_idle = (send_frames sample_platform send_errors idle (endpoint_of [])).1

idle_sent : send_frames sample_platform send_errors idle (endpoint_of []) ≡ (ok tt, after_idle)
unfolding send_frames send_encrypted_offline send_sealed write_frame write_all encrypt_offline_frame
    seal print_all checked_add_i32
idle_sent = refl

abbrev goodbye : List OfflineFrame
goodbye = disconnection true false ∷ []

abbrev after_goodbye : Endpoint
after_goodbye = (send_frames sample_platform send_errors goodbye after_idle).1

goodbye_sent : send_frames sample_platform send_errors goodbye after_idle ≡ (ok tt, after_goodbye)
unfolding send_frames send_encrypted_offline send_sealed write_frame write_all encrypt_offline_frame
    seal print_all checked_add_i32
goodbye_sent = refl

abbrev same_keys : AreMatched sample_keys sample_keys
same_keys = record { key = refl; hmac_key = refl; key_size = refl }

-- What the first frame is on the wire.
abbrev idle_wire : Bytes
idle_wire =
    (sent_frames sample_platform send_errors idle 0 (endpoint_of []) after_idle sample_keys
      same_keys refl idle_sent).0

idle_comes :
    (rest : Bytes)
    → Brings sample_platform.primitives sample_platform.codecs 0 sample_keys idle rest
        (idle_wire ++ rest)
idle_comes =
    (sent_frames sample_platform send_errors idle 0 (endpoint_of []) after_idle sample_keys
      same_keys refl idle_sent).2

one_sent : after_idle.channel.send_sequence ≡ pos 1
unfolding send_frames send_encrypted_offline send_sealed write_frame write_all encrypt_offline_frame
    seal print_all checked_add_i32
one_sent = refl

still_same : AreMatched after_idle.channel.keys sample_keys
unfolding send_frames send_encrypted_offline send_sealed write_frame write_all encrypt_offline_frame
    seal print_all checked_add_i32
still_same = same_keys

abbrev goodbye_wire : Bytes
goodbye_wire =
    (sent_frames sample_platform send_errors goodbye 1 after_idle after_goodbye sample_keys
      still_same one_sent goodbye_sent).0

goodbye_comes :
    (rest : Bytes)
    → Brings sample_platform.primitives sample_platform.codecs 1 sample_keys goodbye rest
        (goodbye_wire ++ rest)
goodbye_comes =
    (sent_frames sample_platform send_errors goodbye 1 after_idle after_goodbye sample_keys
      still_same one_sent goodbye_sent).2

abbrev all_wire : Bytes
all_wire = idle_wire ++ (goodbye_wire ++ [])

wait_for_close-disconnection_example :
    wait_for_close sample_platform (endpoint_of all_wire)
    ≡ send_encrypted_offline sample_platform send_errors
        (disconnection false true)
        (heard (endpoint_of all_wire) [] 2)
wait_for_close-disconnection_example =
    wait_for_close-disconnection sample_platform idle 0
      (record (offline_v1_frame OfflineFrameType.disconnection) {
        disconnection = some (record {
          request_safe_to_disconnect = some true;
          ack_safe_to_disconnect = some false;
        });
      })
      (disconnection true false) [] (endpoint_of all_wire) (refl, tt) refl refl refl
      (goodbye_wire ++ []) (idle_comes (goodbye_wire ++ [])) (goodbye_comes [])

-- The receiver closes the connection instead.
wait_for_close-outcome_example :
    (wait_for_close sample_platform (endpoint_of (idle_wire ++ []))).0 ≡ ok tt
wait_for_close-outcome_example =
    wait_for_close-outcome sample_platform idle 0 (endpoint_of (idle_wire ++ [])) (refl, tt) refl
      (idle_comes [])

abbrev heard_in : Endpoint
heard_in = endpoint_of after_goodbye.stream.output

wait_for_close_ends_example :
    (repeat SendError.qr 1000 (closing_round sample_platform) heard_in
      ≡ wait_for_close sample_platform heard_in)
    × (wait_for_close sample_platform heard_in
        ≡ go_on (wait_for_close sample_platform) (closing_round sample_platform heard_in))
unfolding send_frames send_encrypted_offline send_sealed write_frame write_all encrypt_offline_frame
    seal print_all checked_add_i32
wait_for_close_ends_example =
    wait_for_close_ends sample_platform heard_in 1000 SendError.qr (omega arith)

abbrev silent_socket : Socket
silent_socket = record { set_nonblocking = λ n b. ok tt; peek = λ n. err ErrorKind.would_block }

abbrev photo : OutgoingFile
photo = record {
  path = chars "photo.png" ∷ [];
  name = chars "photo.png";
  parent_folder = none;
  size = 3;
  payload_id = pos 4;
  file_type = FileType.image;
  mime_type = chars "image/png";
  last_modified_timestamp_millis = pos 0;
}

abbrev pieces : OutgoingFile → List Bytes
pieces file = (1 ∷ 2 ∷ []) ∷ (3 ∷ []) ∷ []

abbrev reading : OutgoingFile → Result ErrorKind (List (Result ErrorKind Bytes))
reading file = ok (ok (1 ∷ 2 ∷ []) ∷ ok (3 ∷ []) ∷ [])

abbrev sender : Conversation Sending
sender = record {
  endpoint = endpoint_of [];
  own = record { looks = 0; opened = []; sent_bytes = 0; progress = [] };
}

send_each-file_transfers_example :
    seen (send_each sample_platform silent_socket reading 3 (photo ∷ []) sender)
    ≡ send_frames sample_platform send_errors
        (map transfer_frame (all_transfers pieces (photo ∷ [])))
        (endpoint_of [])
send_each-file_transfers_example =
    send_each-file_transfers sample_platform silent_socket ((λ n b. refl), λ n. refl) reading pieces
      3 (photo ∷ []) (refl, tt) (((λ e. cc e), ((λ e. cc e), tt)), tt) sender

abbrev here : Surroundings
here = record { os_type = OsType.linux; socket = silent_socket; contents = reading }

abbrev negotiated : Negotiated
negotiated = record {
  channel = (endpoint_of []).channel;
  auth_key = [];
  safe_to_disconnect_version = pos 1;
}

-- The receiver rejects what is offered.
abbrev rejection : Endpoint
rejection =
    let offered = (Receiver.send_paired_key_encryption sample_platform (endpoint_of [])).1 in
    let paired = (Receiver.send_paired_key_result sample_platform offered).1 in
    (Receiver.send_sharing_response sample_platform SharingResponseStatus.reject paired).1

abbrev outgoing : Conversation Outgoing
outgoing = record {
  endpoint = endpoint_of rejection.stream.output;
  own = record {
    assembler = new_assembler;
    sending = record { looks = 0; opened = []; sent_bytes = 0; progress = [] };
  };
}

answer :
    (introduce sample_platform none [] (photo ∷ []) outgoing).0
    ≡ ok (Receiver.sharing_response sample_platform SharingResponseStatus.reject)
unfolding introduce send_frames send_encrypted_offline send_sealed write_frame write_all
    encrypt_offline_frame seal print_all checked_add_i32 as_i64 send_paired_key_encryption
    send_paired_key_result send_introduction require_sharing_type send_sharing_frame
    read_next_sharing_frame listen repeat read_encrypted_offline read_frame read_exact
    decrypt_offline_frame unseal parse_all eq_bytes take_offline take_frame push read_transfer
    push_chunk lookup extend finish insert remove ◌+ℤ◌ Receiver.send_paired_key_encryption
    Receiver.send_paired_key_result Receiver.send_sharing_response Receiver.send_sharing_frame
    complete
answer = refl

answers_no :
    (response : SharingFrame) (t : Conversation Outgoing)
    → introduce sample_platform none [] (photo ∷ []) outgoing ≡ (ok response, t)
    → is_value (sharing_status response) (as_i32 SharingResponseStatus.accept) ≡ false
answers_no response t e =
    let same : Receiver.sharing_response sample_platform SharingResponseStatus.reject ≡ response =
      cc (sym answer ∙ ap (λ p. p.0) e) in
    subst (λ r. is_value (sharing_status r) (as_i32 SharingResponseStatus.accept) ≡ false) same refl

abbrev introduced : Result SendError SharingFrame × Conversation Outgoing
introduced = introduce sample_platform none [] (photo ∷ []) outgoing

deliver_unaccepted_example :
    deliver sample_platform here none negotiated (photo ∷ []) outgoing
    ≡ (refused introduced.0, introduced.1)
deliver_unaccepted_example =
    deliver_unaccepted sample_platform here none negotiated (photo ∷ []) outgoing answers_no
