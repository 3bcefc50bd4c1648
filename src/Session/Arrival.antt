-- ===== src/Session/Arrival.antt =====
-- The bytes that one endpoint of a session writes, as the other endpoint reads them (`send_encrypted_offline`
-- and `read_encrypted_offline` of src/quick_share_receiver.rs and src/quick_share_sender.rs).
use hi_rodrop.Prelude.{ℕ, suc, ◌+◌, ◌≡◌, refl, sym, ap, ◌∙◌, List, [], ◌∷◌, ◌++◌, ok, arith, length}
use mathlib.Core.List.{append_assoc, append-nil}
use hi_rodrop.Prelude.Int.{pos}
use hi_rodrop.Prelude.Bytes.{Bytes}
use hi_rodrop.Prelude.Exec.{bind_ok, bind_inverse, focus_inverse, focus_ok}
use hi_rodrop.Wire.{OfflineFrame}
use hi_rodrop.Transport.{write_frame, read_frame}
use hi_rodrop.Transport.Frames.{framed, IsFrame, read_frame-framed}
use hi_rodrop.Crypto.Keys.{SessionKeys}
use hi_rodrop.Crypto.Channel.{encrypt_offline_frame, decrypt_offline_frame}
use hi_rodrop.Crypto.Channel.Delivery.{received_to}
use hi_rodrop.Session.{
  Platform, Errors, Endpoint, on_stream, on_channel, send_encrypted_offline, read_encrypted_offline,
  send_frames,
}
use hi_rodrop.Session.Delivery.{AreMatched, write_frame_inverse, Opens, Brings, opened, counted}

-- The endpoint once it has read up to here and accepted `n` messages.
abbrev pub heard : Endpoint → Bytes → ℕ → Endpoint
heard r rest n = record r {
  stream = record r.stream { input = rest };
  channel = received_to n r.channel;
}

module _ {SecretKey PublicKey : Type 0} (platform : Platform SecretKey PublicKey) {E : Type 0}
    (errors : Errors E) where
  open platform use {primitives, codecs, random}

  -- The endpoint after `count` messages more, with these bytes behind what it had written.
  pub record Sent (s t : Endpoint) (n : ℕ) (bytes : Bytes) : Type 0 where
    pub output : t.stream.output ≡ s.stream.output ++ bytes
    pub keys : t.channel.keys ≡ s.channel.keys
    pub sequence : t.channel.send_sequence ≡ pos n
    pub received : t.channel.receive_sequence ≡ s.channel.receive_sequence
    pub input : t.stream.input ≡ s.stream.input

  sent_one :
      (n : ℕ) (s t : Endpoint) (keys : SessionKeys) (frame : OfflineFrame)
      → AreMatched s.channel.keys keys
      → s.channel.send_sequence ≡ pos n
      → send_encrypted_offline platform errors frame s ≡ (ok tt, t)
      → (wire : Bytes) × IsFrame wire
        × Opens primitives codecs n keys wire frame
        × Sent s t (suc n) (framed wire)
  unfolding send_encrypted_offline
  sent_one n s t keys frame matched count e =
      let u : Endpoint = record s { drawn = suc s.drawn } in
      let iv : Bytes = random.bytes s.drawn 16 in
      let encrypt = encrypt_offline_frame primitives codecs iv frame in
      let (wire, v, e1, e2) =
        bind_inverse (on_channel platform errors encrypt)
          (λ raw. on_stream platform errors (write_frame raw)) u t tt e in
      let (c, e3, e4) =
        focus_inverse (λ (x : Endpoint). x.channel) (λ c x. record x { channel = c }) errors.crypto
          encrypt u v wire e1 in
      let (w, e5, e6) =
        focus_inverse (λ (x : Endpoint). x.stream) (λ c x. record x { stream = c }) errors.frame
          (write_frame wire) v t tt e2 in
      let (size, fine, e7) = write_frame_inverse wire v.stream w e5 in
      let e8 =
        counted primitives codecs n s.channel keys iv frame matched count
          (random.length-bytes s.drawn 16) wire c e3 in
      (
        wire,
        size,
        opened primitives codecs n s.channel keys iv frame matched count
            (random.length-bytes s.drawn 16) wire c e3,
        rw (e6, e7, e4, e8)
            (record { output = refl; keys = refl; sequence = refl; received = refl; input = refl }),
      )

  Brings-next :
      (n : ℕ) (keys : SessionKeys) (frame : OfflineFrame) (frames : List OfflineFrame)
      (wire bytes rest : Bytes)
      → IsFrame wire
      → Opens primitives codecs n keys wire frame
      → Brings primitives codecs (suc n) keys frames rest (bytes ++ rest)
      → Brings primitives codecs n keys (frame ∷ frames) rest ((framed wire ++ bytes) ++ rest)
  Brings-next n keys frame frames wire bytes rest size opens h =
      (wire, bytes ++ rest, size, append_assoc (framed wire) bytes rest, opens, h)

  -- What was sent with success comes in as the same frames, before whatever is sent after it.
  pub sent_frames :
      (frames : List OfflineFrame) (n : ℕ) (s t : Endpoint) (keys : SessionKeys)
      → AreMatched s.channel.keys keys
      → s.channel.send_sequence ≡ pos n
      → send_frames platform errors frames s ≡ (ok tt, t)
      → (bytes : Bytes) × Sent s t (n + length frames) bytes
        × ((rest : Bytes) → Brings primitives codecs n keys frames rest (bytes ++ rest))
  unfolding send_frames
  sent_frames [] n s t keys matched count e =
      let same : s ≡ t = cc e in
      (
        [],
        rw (← same) (record {
          output = sym (append-nil s.stream.output);
          keys = refl;
          sequence = count ∙ ap pos (omega arith);
          received = refl;
          input = refl;
        }),
        λ rest. refl,
      )
  sent_frames (frame ∷ frames) n s t keys matched count e =
      let (_, u, e1, e2) =
        bind_inverse (send_encrypted_offline platform errors frame)
          (λ _. send_frames platform errors frames) s t tt e in
      let (wire, size, opens, h) = sent_one n s u keys frame matched count e1 in
      let (bytes, k, brings) =
        sent_frames frames (suc n) u t keys (rw h.keys matched) h.sequence e2 in
      (
        framed wire ++ bytes,
        record {
          output = k.output ∙ rw h.output (append_assoc s.stream.output (framed wire) bytes);
          keys = k.keys ∙ h.keys;
          sequence = k.sequence ∙ ap pos (omega arith);
          received = k.received ∙ h.received;
          input = k.input ∙ h.input;
        },
        λ rest. Brings-next n keys frame frames wire bytes rest size opens (brings rest),
      )

  pub reads_one :
      (n : ℕ) (r : Endpoint) (keys : SessionKeys) (frame : OfflineFrame) (wire rest : Bytes)
      → r.channel.keys ≡ keys
      → r.channel.receive_sequence ≡ pos n
      → IsFrame wire
      → r.stream.input ≡ framed wire ++ rest
      → Opens primitives codecs n keys wire frame
      → read_encrypted_offline platform errors r ≡ (ok frame, heard r rest (suc n))
  unfolding read_encrypted_offline
  reads_one n r keys frame wire rest k c size i opens =
      bind_ok (on_stream platform errors read_frame)
        (λ raw. on_channel platform errors (decrypt_offline_frame primitives codecs raw)) r
        (record r { stream = record r.stream { input = rest } }) wire
        (focus_ok (λ (x : Endpoint). x.stream) (λ c x. record x { stream = c }) errors.frame
          read_frame r (record r.stream { input = rest }) wire
          (read_frame-framed wire rest r.stream size i))
      ∙ focus_ok (λ (x : Endpoint). x.channel) (λ c x. record x { channel = c }) errors.crypto
          (decrypt_offline_frame primitives codecs wire)
          (record r { stream = record r.stream { input = rest } }) (received_to (suc n) r.channel)
          frame (opens r.channel k c)
