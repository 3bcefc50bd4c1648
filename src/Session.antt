-- ===== src/Session.antt =====
-- What the two sides of a session share: a TCP stream with a secure channel over it
-- (`send_encrypted_offline`, `read_encrypted_offline`, `send_keep_alive_ack` and `send_sharing_frame` of
-- src/quick_share_receiver.rs, which src/quick_share_sender.rs repeats with its own type of errors).
-- `OsRng` is a source of random bytes and of random `u64` that is read draw by draw.

pub mod Reading
pub mod Delivery
pub mod Arrival
pub mod Listening
use hi_rodrop.Prelude.{
  ℕ, suc, ◌<◌, ◌^◌, ◌≡◌, true, false, not, Option, some, List, [], ◌∷◌, length, ok, and_then,
  unwrap_or, if◌then◌else◌,
}
use hi_rodrop.Prelude.Bytes.{Bytes}
use hi_rodrop.Prelude.Exec.{Exec, pure, focus, ◌>>=◌, ◌>>◌}
use hi_rodrop.Prelude.Loop.{repeat}
use hi_rodrop.Wire.{
  OfflineFrame, OfflineV1Frame, OfflineFrameType, offline_frame_type_enumeration, KeepAliveFrame,
  SharingFrame, PayloadTransferFrame, offline_frame, offline_v1_frame,
}
use hi_rodrop.Wire.Enumeration.{try_from}
use hi_rodrop.Wire.Codec.{Codec}
use hi_rodrop.Transport.{FrameIoError, Stream, read_frame, write_frame}
use hi_rodrop.Crypto.Errors.{CryptoError}
use hi_rodrop.Crypto.Primitives.{Primitives, Codecs}
use hi_rodrop.Crypto.Channel.{SecureChannel, encrypt_offline_frame, decrypt_offline_frame}

-- The n-th draw: as many bytes as asked for, or a `u64`.
pub record Random : Type 0 where
  pub bytes : ℕ → ℕ → Bytes
  pub length-bytes : (n size : ℕ) → length (bytes n size) ≡ size
  pub u64 : ℕ → ℕ
  pub u64-lt : (n : ℕ) → u64 n < 2 ^ 64

-- The crates that a session calls.
pub record Platform (SecretKey PublicKey : Type 0) : Type 0 where
  pub primitives : Primitives SecretKey PublicKey
  pub codecs : Codecs
  pub sharing_frame : Codec SharingFrame
  pub random : Random

-- How the errors of the parts become errors of a side (`#[from]`).
pub record Errors (E : Type 0) : Type 0 where
  pub frame : FrameIoError → E
  pub crypto : CryptoError → E

pub record Endpoint : Type 0 where
  pub stream : Stream
  pub channel : SecureChannel
  pub drawn : ℕ

abbrev pub keep_alive_ack : Option ℕ → OfflineFrame
keep_alive_ack sequence = offline_frame (record (offline_v1_frame OfflineFrameType.keep_alive) {
  keep_alive = some (record { ack = some true; seq_num = sequence });
})

abbrev pub transfer_frame : PayloadTransferFrame → OfflineFrame
transfer_frame transfer =
    offline_frame (record (offline_v1_frame OfflineFrameType.payload_transfer) {
      payload_transfer = some transfer;
    })

-- An endpoint with what its side keeps besides.
pub record Conversation (Own : Type 0) : Type 0 where
  pub endpoint : Endpoint
  pub own : Own

abbrev pub Talk : Type 0 → Type 0 → Type 0 → Type 0
Talk Own E A = Exec (Conversation Own) E A

module _ {Own E A : Type 0} where
  abbrev pub on_endpoint : Exec Endpoint E A → Talk Own E A
  on_endpoint = focus (λ s. s.endpoint) (λ e s. record s { endpoint = e }) (λ e. e)

  abbrev pub on_own : Exec Own E A → Talk Own E A
  on_own = focus (λ s. s.own) (λ a s. record s { own = a }) (λ e. e)

-- How many bytes wait to be read.
abbrev pub unread : {Own : Type 0} → Conversation Own → ℕ
unread s = length s.endpoint.stream.input

module _ {SecretKey PublicKey : Type 0} (platform : Platform SecretKey PublicKey) {E : Type 0}
    (errors : Errors E) where
  open platform use {primitives, codecs, random}

  abbrev pub on_stream : {A : Type 0} → Exec Stream FrameIoError A → Exec Endpoint E A
  on_stream = focus (λ s. s.stream) (λ t s. record s { stream = t }) errors.frame

  abbrev pub on_channel : {A : Type 0} → Exec SecureChannel CryptoError A → Exec Endpoint E A
  on_channel = focus (λ s. s.channel) (λ c s. record s { channel = c }) errors.crypto

  -- `OsRng.fill_bytes`
  abbrev pub draw_bytes : ℕ → Exec Endpoint E Bytes
  draw_bytes size s = (ok (random.bytes s.drawn size), record s { drawn = suc s.drawn })

  -- `OsRng.next_u64`
  abbrev pub draw_u64 : Exec Endpoint E ℕ
  draw_u64 s = (ok (random.u64 s.drawn), record s { drawn = suc s.drawn })

  unfoldable pub send_sealed : OfflineFrame → Bytes → Exec Endpoint E (Unit {0})
  send_sealed frame iv = do
    encrypted ← on_channel (encrypt_offline_frame primitives codecs iv frame)
    on_stream (write_frame encrypted)

  unfoldable pub send_encrypted_offline : OfflineFrame → Exec Endpoint E (Unit {0})
  unfolding send_sealed
  send_encrypted_offline frame = draw_bytes 16 >>= send_sealed frame

  unfoldable pub read_encrypted_offline : Exec Endpoint E OfflineFrame
  read_encrypted_offline = do
    encrypted ← on_stream read_frame
    on_channel (decrypt_offline_frame primitives codecs encrypted)

  unfoldable pub send_keep_alive_ack : Option ℕ → Exec Endpoint E (Unit {0})
  send_keep_alive_ack sequence = send_encrypted_offline (keep_alive_ack sequence)

  -- A keep-alive is answered with its own number, unless it is an answer itself.
  unfoldable pub answer_keep_alive : Option KeepAliveFrame → Exec Endpoint E (Unit {0})
  answer_keep_alive keep_alive =
      if not (unwrap_or (and_then keep_alive (λ frame. frame.ack)) false)
      then send_keep_alive_ack (and_then keep_alive (λ frame. frame.seq_num))
      else pure tt

  -- One frame after the other.
  unfoldable pub send_frames : List OfflineFrame → Exec Endpoint E (Unit {0})
  send_frames [] = pure tt
  send_frames (frame ∷ frames) = send_encrypted_offline frame >> send_frames frames

  -- A loop that reads a frame in each round and looks at it. It has one round more than there are bytes
  -- to read as fuel; at its end the model would return `stuck`.
  abbrev pub listen_round : {Own A : Type 0} → (OfflineFrame → Talk Own E A) → Talk Own E A
  listen_round take_offline = on_endpoint read_encrypted_offline >>= take_offline

  unfoldable pub listen :
      {Own A : Type 0} → E → (OfflineFrame → Talk Own E (Option A)) → Talk Own E A
  listen stuck take_offline s = repeat stuck (suc (unread s)) (listen_round take_offline) s

-- `v1.frame_type.and_then(|value| OfflineFrameType::try_from(value).ok())`
abbrev pub frame_type_of : OfflineV1Frame → Option OfflineFrameType
frame_type_of v1 = and_then v1.frame_type try_from
