-- ===== src/Session/Reading.antt =====
-- What reading and writing do to the bytes that wait on the stream (src/quick_share_receiver.rs and
-- src/quick_share_sender.rs): a frame that is read takes some away, and nothing that is sent does.
use hi_rodrop.Prelude.{
  ◌<◌, ◌≡◌, refl, ap, inl, inr, ◌++◌, ok, Option, Bool-cases, ℕ, arith, length, take, length-append,
  Result-cases, unwrap_or, and_then, false,
}
use hi_rodrop.Prelude.Bytes.{Bytes}
use hi_rodrop.Prelude.Exec.{Keeps, Keeps-bind}
use hi_rodrop.Wire.{OfflineFrame, KeepAliveFrame}
use hi_rodrop.Crypto.Channel.{encrypt_offline_frame}
use hi_rodrop.Prelude.Loop.{Lowers}
use hi_rodrop.Transport.{Stream, read_frame, write_frame, write_all}
use hi_rodrop.Transport.Frames.{read_frame_sound}
use hi_rodrop.Session.{
  Platform, Errors, Endpoint, on_stream, on_channel, draw_bytes, send_encrypted_offline,
  send_sealed, read_encrypted_offline, send_keep_alive_ack, answer_keep_alive, keep_alive_ack,
}

abbrev pub waiting : Endpoint → ℕ
waiting s = length s.stream.input

abbrev pub Waits : ℕ → Endpoint → Type 0
Waits k s = waiting s ≡ k

pub read_frame-Lowers : Lowers (λ (s : Stream). length s.input) read_frame
read_frame-Lowers s t frame e =
    let (h, _, w, _) = read_frame_sound s t frame e in
    omega (
      arith,
      h,
      ap length w,
      length-append (take 4 s.input) (frame ++ t.input),
      length-append frame t.input,
    )

write_frame_keeps :
    (frame : Bytes) (s : Stream) → length (write_frame frame s).1.input ≡ length s.input
unfolding write_frame write_all
write_frame_keeps frame s = ground arith

module _ {SecretKey PublicKey : Type 0} (platform : Platform SecretKey PublicKey) {E : Type 0}
    (errors : Errors E) where
  pub read_encrypted_offline-Lowers : Lowers waiting (read_encrypted_offline platform errors)
  unfolding read_encrypted_offline
  read_encrypted_offline-Lowers s t frame e = elim (Result-cases (read_frame s.stream).0) [
    | inl (raw, r) ↦ from raw (read_frame s.stream).1 (pair raw r)
    | inr (x, r) ↦ absurd (cc (rw r at e))
  ]
    where
      pair :
          (raw : Bytes)
          → (read_frame s.stream).0 ≡ ok raw
          → read_frame s.stream ≡ (ok raw, (read_frame s.stream).1)
      pair raw r = rw (← r) refl

      from : (raw : Bytes) (u : Stream) → read_frame s.stream ≡ (ok raw, u) → waiting t < waiting s
      from raw u r =
          let same : waiting t ≡ length u.input = ground (arith, r, e) in
          omega (arith, same, read_frame-Lowers s.stream u raw r)

  write-Keeps :
      (k : ℕ) (raw : Bytes) → Keeps (Waits k) (on_stream platform errors (write_frame raw))
  write-Keeps k raw s h = omega (arith, h, write_frame_keeps raw s.stream)

  pub send_encrypted_offline-Keeps :
      (k : ℕ) (frame : OfflineFrame)
      → Keeps (Waits k) (send_encrypted_offline platform errors frame)
  unfolding send_encrypted_offline
  send_encrypted_offline-Keeps k frame =
      Keeps-bind (Waits k) (draw_bytes platform errors 16) (send_sealed platform errors frame)
        (λ s h. h)
        (λ iv.
          Keeps-bind (Waits k)
            (on_channel platform errors
              (encrypt_offline_frame platform.primitives platform.codecs iv frame))
            (λ raw. on_stream platform errors (write_frame raw)) (λ s h. h) (write-Keeps k))

  pub answer_keep_alive-Keeps :
      (k : ℕ) (keep_alive : Option KeepAliveFrame)
      → Keeps (Waits k) (answer_keep_alive platform errors keep_alive)
  unfolding answer_keep_alive send_keep_alive_ack
  answer_keep_alive-Keeps k keep_alive =
      elim (Bool-cases (unwrap_or (and_then keep_alive (λ frame. frame.ack)) false)) [
        | inl e ↦ rw e (λ s h. h)
        | inr e ↦ rw e (
            send_encrypted_offline-Keeps k
              (keep_alive_ack (and_then keep_alive (λ frame. frame.seq_num))))
      ]
