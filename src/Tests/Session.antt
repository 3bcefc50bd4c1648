-- ===== src/Tests/Session.antt =====
-- The properties of a session's messages at a concrete pair of sides.
use hi_rodrop.Prelude.{◌≡◌, sym, refl, none, List, [], ◌∷◌, ok, arith}
use hi_rodrop.Prelude.Int.{ℤ, checked_add_i32}
use hi_rodrop.Prelude.Map.{lookup}
use hi_rodrop.Prelude.Loop.{repeat, go_on}
use hi_rodrop.Wire.{OfflineFrame, OfflineFrameType, offline_frame_type_enumeration, offline_v1}
use hi_rodrop.Transport.{write_frame, write_all}
use hi_rodrop.Crypto.Envelope.{seal}
use hi_rodrop.Crypto.Channel.{encrypt_offline_frame}
use hi_rodrop.Session.{
  Endpoint, Conversation, send_frames, send_encrypted_offline, send_sealed, listen_round,
}
use hi_rodrop.Receiver.Errors.{ReceiveError}
use hi_rodrop.Receiver.Assembler.{BytesAssembler, new_assembler}
use hi_rodrop.Receiver.Session.{receive_errors, take_offline, read_next_sharing_frame}
use hi_rodrop.Receiver.Session.Termination.{read_next_sharing_frame_ends}
use hi_rodrop.Receiver.Session.Delivery.{read_next_sharing_frame-send_sharing_frame}
use hi_rodrop.Receiver.Pending.{as_i64}
use hi_rodrop.Session.Arrival.{heard}
use mathlib.Core.List.{append-nil}
use hi_rodrop.Sender.Session.{send_errors, send_sharing_frame, paired_key_result}
use hi_rodrop.Samples.Serial.{print_all}
use hi_rodrop.Samples.Platform.{sample_platform, endpoint_of}

-- A frame that is passed over.
abbrev noise : List OfflineFrame
noise = offline_v1 OfflineFrameType.auto_resume ∷ []

abbrev after_noise : Endpoint
after_noise = (send_frames sample_platform send_errors noise (endpoint_of [])).1

abbrev after_message : Endpoint
after_message = (send_sharing_frame sample_platform paired_key_result after_noise).1

abbrev receiver : Conversation BytesAssembler
receiver = record { endpoint = endpoint_of after_message.stream.output; own = new_assembler }

noise_sent : send_frames sample_platform send_errors noise (endpoint_of []) ≡ (ok tt, after_noise)
unfolding send_frames send_encrypted_offline send_sealed write_frame write_all encrypt_offline_frame
    seal print_all checked_add_i32
noise_sent = refl

message_sent :
    send_sharing_frame sample_platform paired_key_result after_noise ≡ (ok tt, after_message)
unfolding send_sharing_frame send_frames send_encrypted_offline send_sealed write_frame write_all
    encrypt_offline_frame seal print_all checked_add_i32 as_i64
message_sent = refl

read_next_sharing_frame-send_sharing_frame_example :
    let r' = read_next_sharing_frame sample_platform receiver in
    (r'.0 ≡ ok paired_key_result)
    × (r'.1.endpoint ≡ heard receiver.endpoint [] 3)
    × ((j : ℤ) → lookup j r'.1.own.buffers ≡ none)
unfolding print_all lookup
read_next_sharing_frame-send_sharing_frame_example =
    read_next_sharing_frame-send_sharing_frame sample_platform noise 0 paired_key_result
      (endpoint_of []) after_noise after_message after_message.stream.output [] receiver (refl, tt)
      (record { key = refl; hmac_key = refl; key_size = refl }) refl refl noise_sent message_sent
      refl (sym (append-nil after_message.stream.output)) refl (omega arith)

read_next_sharing_frame_ends_example :
    (repeat ReceiveError.rejected 1000
        (listen_round sample_platform receive_errors (take_offline sample_platform))
        receiver
      ≡ read_next_sharing_frame sample_platform receiver)
    × (read_next_sharing_frame sample_platform receiver
        ≡ go_on
            (read_next_sharing_frame sample_platform)
            (listen_round sample_platform receive_errors (take_offline sample_platform) receiver))
unfolding send_sharing_frame send_frames send_encrypted_offline send_sealed write_frame write_all
    encrypt_offline_frame seal print_all checked_add_i32 as_i64
read_next_sharing_frame_ends_example =
    read_next_sharing_frame_ends sample_platform receiver 1000 ReceiveError.rejected (omega arith)
