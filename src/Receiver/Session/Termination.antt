-- ===== src/Receiver/Session/Termination.antt =====
-- The loop of `read_next_sharing_frame` of src/quick_share_receiver.rs ends.
use hi_rodrop.Prelude.{ℕ, ◌<◌, ◌≡◌, inl, inr, Bool-cases, Option, none, some, ok_or}
use hi_rodrop.Prelude.Int.{ℤ}
use hi_rodrop.Prelude.Bytes.{Bytes}
use hi_rodrop.Prelude.Exec.{lift, pure, Keeps, Keeps-bind}
use hi_rodrop.Prelude.Loop.{repeat, go_on}
use hi_rodrop.Wire.{
  OfflineFrame, OfflineV1Frame, OfflineFrameType, PayloadTransferFrame, PayloadType,
  payload_type_enumeration,
}
use hi_rodrop.Session.{
  Platform, Conversation, on_endpoint, on_own, unread, listen_round, answer_keep_alive,
  frame_type_of,
}
use hi_rodrop.Session.Listening.{Unread, listen_step, listen_enough}
use hi_rodrop.Session.Reading.{answer_keep_alive-Keeps}
use hi_rodrop.Receiver.Errors.{ReceiveError}
use hi_rodrop.Receiver.Assembler.{BytesAssembler, push}
use hi_rodrop.Receiver.Session.{
  receive_errors, has_payload_type, decode_message, take_transfer, take_frame, take_offline,
  read_next_sharing_frame,
}

module _ {SecretKey PublicKey : Type 0} (platform : Platform SecretKey PublicKey) where
  decode_message-Keeps :
      (k : ℕ) (done : Option (ℤ × Bytes)) → Keeps (Unread k) (decode_message platform done)
  decode_message-Keeps k none = λ s h. h
  decode_message-Keeps k (some (id, bytes)) =
      Keeps-bind (Unread k)
        (lift (ok_or (platform.sharing_frame.decode bytes) ReceiveError.protobuf))
        (λ frame. pure (some frame)) (λ s h. h) (λ frame s h. h)

  take_transfer-Keeps :
      (k : ℕ) (transfer : PayloadTransferFrame) → Keeps (Unread k) (take_transfer platform transfer)
  unfolding take_transfer
  take_transfer-Keeps k transfer = elim (Bool-cases (has_payload_type transfer PayloadType.bytes)) [
    | inl e ↦ rw e (
        Keeps-bind (Unread k) (on_own (push transfer)) (decode_message platform) (λ s h. h)
          (decode_message-Keeps k))
    | inr e ↦ rw e (λ s h. h)
  ]

  take_frame-Keeps :
      (k : ℕ) (kind : Option OfflineFrameType) (v1 : OfflineV1Frame)
      → Keeps (Unread k) (take_frame platform kind v1)
  unfolding take_frame
  take_frame-Keeps k (some OfflineFrameType.keep_alive) v1 =
      Keeps-bind (Unread k) (on_endpoint (answer_keep_alive platform receive_errors v1.keep_alive))
        (λ u. pure none)
        (λ s. answer_keep_alive-Keeps platform receive_errors k v1.keep_alive s.endpoint)
        (λ u s h. h)
  take_frame-Keeps k (some OfflineFrameType.payload_transfer) v1 =
      Keeps-bind (Unread k)
        (lift (ok_or v1.payload_transfer (ReceiveError.protocol "missing payload transfer")))
        (take_transfer platform) (λ s h. h) (take_transfer-Keeps k)
  take_frame-Keeps k (some OfflineFrameType.disconnection) v1 = λ s h. h
  take_frame-Keeps k _ v1 = λ s h. h

  pub take_offline-Keeps :
      (frame : OfflineFrame) (k : ℕ) → Keeps (Unread k) (take_offline platform frame)
  unfolding take_offline
  take_offline-Keeps frame k =
      Keeps-bind (Unread k)
        (lift (ok_or frame.v1 (ReceiveError.protocol "missing encrypted v1 frame")))
        (λ v1. take_frame platform (frame_type_of v1) v1) (λ s h. h)
        (λ v1. take_frame-Keeps k (frame_type_of v1) v1)

  -- Whatever has come in, the loop ends: any fuel above the number of bytes to read gives the same,
  -- whatever the model would return at the end of the fuel, and the function satisfies the
  -- equation of the source's loop.
  pub read_next_sharing_frame_ends :
      (s : Conversation BytesAssembler) (n : ℕ) (stuck : ReceiveError)
      → unread s < n
      → (repeat stuck n (listen_round platform receive_errors (take_offline platform)) s
          ≡ read_next_sharing_frame platform s)
        × (read_next_sharing_frame platform s
            ≡ go_on
                (read_next_sharing_frame platform)
                (listen_round platform receive_errors (take_offline platform) s))
  unfolding read_next_sharing_frame
  read_next_sharing_frame_ends s n stuck h = (
    listen_enough platform receive_errors (take_offline platform) take_offline-Keeps
        ReceiveError.disconnected stuck s n h,
    listen_step platform receive_errors (take_offline platform) take_offline-Keeps
        ReceiveError.disconnected s,
  )
