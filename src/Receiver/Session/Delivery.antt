-- ===== src/Receiver/Session/Delivery.antt =====
-- A message that src/quick_share_sender.rs sends, src/quick_share_receiver.rs reads.
use hi_rodrop.Prelude.{
  ℕ, suc, ◌+◌, ◌≤◌, ◌≡◌, refl, sym, ap, ◌∙◌, Bool, true, false, inl, inr, Option, none, some, List,
  [], ◌∷◌, ◌++◌, length, ok, arith, Option-cases, unwrap_or, and_then, All,
}
use mathlib.Core.Path.{subst}
use mathlib.Core.List.{append_cancel_left, append_assoc}
use hi_rodrop.Prelude.Int.{ℤ, pos, ==ℤ_iff}
use hi_rodrop.Prelude.Bytes.{Bytes}
use hi_rodrop.Prelude.Map.{lookup, insert, remove, lookup-insert, lookup-remove}
use hi_rodrop.Prelude.Loop.{go_on}
use hi_rodrop.Wire.{OfflineFrame, OfflineV1Frame, OfflineFrameType, KeepAliveFrame, SharingFrame}
use hi_rodrop.Transport.{max_wire_frame_bytes}
use hi_rodrop.Crypto.Keys.{SessionKeys}
use hi_rodrop.Session.{
  Platform, Endpoint, Conversation, listen_round, frame_type_of, send_frames, transfer_frame,
  answer_keep_alive,
}
use hi_rodrop.Session.Delivery.{AreMatched, Brings}
use hi_rodrop.Session.Arrival.{sent_frames, heard}
use hi_rodrop.Session.Listening.{listen_round-hears, listen_step}
use hi_rodrop.Receiver.Errors.{ReceiveError}
use hi_rodrop.Receiver.Assembler.{BytesAssembler, data_transfer, body_chunk, last_chunk, buffer_of}
use hi_rodrop.Receiver.Assembler.Reassembly.{push-extends, push-completes_empty, buffer_of-insert}
use hi_rodrop.Receiver.Pending.{as_i64}
use hi_rodrop.Receiver.Session.{
  receive_errors, take_offline, take_frame, take_transfer, read_next_sharing_frame,
}
use hi_rodrop.Receiver.Session.Termination.{take_offline-Keeps}
use hi_rodrop.Sender.Session as Sender

-- A frame that the loop passes over: an answered keep-alive, or of a type that it does not handle.
abbrev pub quiet_kind : Option OfflineFrameType → Option KeepAliveFrame → Bool
quiet_kind (some OfflineFrameType.keep_alive) k = unwrap_or (and_then k (λ frame. frame.ack)) false
quiet_kind (some OfflineFrameType.payload_transfer) k = false
quiet_kind (some OfflineFrameType.disconnection) k = false
quiet_kind _ k = true

abbrev pub is_quiet : OfflineFrame → Bool
is_quiet frame = elim frame.v1 [
  | none ↦ false
  | some v1 ↦ quiet_kind (frame_type_of v1) v1.keep_alive
]

abbrev pub IsQuiet : OfflineFrame → Type 0
IsQuiet frame = is_quiet frame ≡ true

-- The assembler once a message has come and gone.
abbrev pub emptied : ℤ → Bytes → BytesAssembler → BytesAssembler
emptied id body s = record { buffers = remove id (insert id body s.buffers) }

lookup-emptied :
    (id j : ℤ) (body : Bytes) (s : BytesAssembler)
    → lookup id s.buffers ≡ none
    → lookup j (emptied id body s).buffers ≡ lookup j s.buffers
lookup-emptied id j body s fresh = ground (
  arith,
  lookup-remove id j (insert id body s.buffers),
  lookup-insert id j body s.buffers,
  ==ℤ_iff id j,
  fresh,
)

module _ {SecretKey PublicKey : Type 0} (platform : Platform SecretKey PublicKey) where
  open platform use {primitives, codecs}

  quiet_frame :
      (kind : Option OfflineFrameType) (v1 : OfflineV1Frame) (s : Conversation BytesAssembler)
      → quiet_kind kind v1.keep_alive ≡ true
      → take_frame platform kind v1 s ≡ (ok none, s)
  unfolding take_frame answer_keep_alive
  quiet_frame (some OfflineFrameType.keep_alive) v1 s h = rw h refl
  quiet_frame (some OfflineFrameType.payload_transfer) v1 s h = absurd (cc h)
  quiet_frame (some OfflineFrameType.disconnection) v1 s h = absurd (cc h)
  quiet_frame _ v1 s h = refl

  quiet_offline :
      (frame : OfflineFrame) (s : Conversation BytesAssembler)
      → IsQuiet frame
      → take_offline platform frame s ≡ (ok none, s)
  unfolding take_offline
  quiet_offline frame s h = elim (Option-cases frame.v1) [
    | inl e ↦ absurd (cc (rw e at h))
    | inr (v1, e) ↦ rw e (quiet_frame (frame_type_of v1) v1 s (rw e at h))
  ]

  -- One frame that the loop passes over, and with it any number of them.
  skips_one :
      (frame : OfflineFrame) (tail : Bytes) (k : ℕ) (s : Conversation BytesAssembler)
      → IsQuiet frame
      → listen_round platform receive_errors (take_offline platform) s
        ≡ take_offline platform frame (record s { endpoint = heard s.endpoint tail k })
      → read_next_sharing_frame platform s
        ≡ read_next_sharing_frame platform (record s { endpoint = heard s.endpoint tail k })
  unfolding read_next_sharing_frame
  skips_one frame tail k s quiet e =
      listen_step platform receive_errors (take_offline platform) (take_offline-Keeps platform)
        ReceiveError.disconnected s
      ∙ ap (go_on (read_next_sharing_frame platform))
          (e ∙ quiet_offline frame (record s { endpoint = heard s.endpoint tail k }) quiet)

  skips :
      (noise : List OfflineFrame) (n : ℕ) (keys : SessionKeys) (rest : Bytes)
      (s : Conversation BytesAssembler)
      → All IsQuiet noise
      → s.endpoint.channel.keys ≡ keys
      → s.endpoint.channel.receive_sequence ≡ pos n
      → Brings primitives codecs n keys noise rest s.endpoint.stream.input
      → read_next_sharing_frame platform s
        ≡ read_next_sharing_frame platform
            (record s { endpoint = heard s.endpoint rest (n + length noise) })
  skips [] n keys rest s quiet k c b =
      ap (λ e. read_next_sharing_frame platform (record s { endpoint = e })) (here s.endpoint c b)
    where
      here :
          (e : Endpoint)
          → e.channel.receive_sequence ≡ pos n
          → e.stream.input ≡ rest
          → e ≡ heard e rest (n + 0)
      here e c b =
          let same : pos (n + 0) ≡ e.channel.receive_sequence = ap pos (omega arith) ∙ sym c in
          rw (← b, same) refl
  skips (frame ∷ noise) n keys rest s quiet k c b =
      let (tail, later, e) =
        listen_round-hears platform receive_errors (take_offline platform) n keys frame noise rest s
          k c b in
      let next : suc n + length noise ≡ n + suc (length noise) = omega arith in
      skips_one frame tail (suc n) s quiet.0 e
      ∙ skips noise (suc n) keys rest (record s { endpoint = heard s.endpoint tail (suc n) })
          quiet.1 k refl later
      ∙ ap (λ m. read_next_sharing_frame platform (record s { endpoint = heard s.endpoint rest m }))
          next

  abbrev body_frame : ℤ → Bytes → OfflineFrame
  body_frame id body =
      transfer_frame (data_transfer id (pos (length body)) (body_chunk (pos 0) (pos 0) (some body)))

  abbrev end_frame : ℤ → Bytes → OfflineFrame
  end_frame id body =
      transfer_frame
        (data_transfer id (pos (length body)) (body_chunk last_chunk (pos (length body)) (some [])))

  takes_body :
      (id : ℤ) (body : Bytes) (s : Conversation BytesAssembler)
      → lookup id s.own.buffers ≡ none
      → length body ≤ max_wire_frame_bytes
      → take_offline platform (body_frame id body) s
        ≡ (ok none, record s { own = record { buffers = insert id body s.own.buffers } })
  unfolding take_offline take_frame take_transfer
  takes_body id body s fresh small =
      rw (push-extends id (length body) [] body s.own (rw fresh refl) (omega arith) small) refl

  takes_end :
      (id : ℤ) (body : Bytes) (message : SharingFrame) (s : Conversation BytesAssembler)
      → buffer_of id s.own.buffers ≡ body
      → length body ≤ max_wire_frame_bytes
      → platform.sharing_frame.decode body ≡ some message
      → take_offline platform (end_frame id body) s
        ≡ (ok (some message), record s { own = record { buffers = remove id s.own.buffers } })
  unfolding take_offline take_frame take_transfer
  takes_end id body message s e small d = rw (push-completes_empty id body s.own e small, d) refl

  reads_message :
      (n : ℕ) (keys : SessionKeys) (id : ℤ) (body rest : Bytes) (message : SharingFrame)
      (s : Conversation BytesAssembler)
      → s.endpoint.channel.keys ≡ keys
      → s.endpoint.channel.receive_sequence ≡ pos n
      → Brings primitives codecs n keys
          (body_frame id body ∷ end_frame id body ∷ [])
          rest
          s.endpoint.stream.input
      → lookup id s.own.buffers ≡ none
      → length body ≤ max_wire_frame_bytes
      → platform.sharing_frame.decode body ≡ some message
      → read_next_sharing_frame platform s ≡ (
        ok message,
        record { endpoint = heard s.endpoint rest (suc (suc n)); own = emptied id body s.own },
      )
  unfolding read_next_sharing_frame
  reads_message n keys id body rest message s k c b fresh small d =
      let take = take_offline platform in
      let step =
        listen_step platform receive_errors take (take_offline-Keeps platform)
          ReceiveError.disconnected in
      let again = go_on (read_next_sharing_frame platform) in
      let (tail, later, e) =
        listen_round-hears platform receive_errors take n keys (body_frame id body)
          (end_frame id body ∷ []) rest s k c b in
      let u : Conversation BytesAssembler = record {
        endpoint = heard s.endpoint tail (suc n);
        own = record { buffers = insert id body s.own.buffers };
      } in
      let (tail', last, e') =
        listen_round-hears platform receive_errors take (suc n) keys (end_frame id body) [] rest u k
          refl later in
      let end : Conversation BytesAssembler = record u {
        endpoint = heard u.endpoint tail' (suc (suc n));
      } in
      step s
      ∙ ap again (
          e
          ∙ takes_body id body (record s { endpoint = heard s.endpoint tail (suc n) }) fresh small)
      ∙ step u
      ∙ ap again
          (e' ∙ takes_end id body message end (buffer_of-insert id body s.own.buffers) small d)
      ∙ ap
          (λ t. (
            ok message,
            record { endpoint = heard s.endpoint t (suc (suc n)); own = emptied id body s.own },
          ))
          last

  -- A message that one side sends, behind any number of frames that the loop passes over (answered
  -- keep-alives, or frames of types that it does not handle), is what the other side's loop reads:
  -- when both sides are in step, sending has succeeded, the message is at most one wire frame
  -- and nothing was buffered under its id. The reader then stands exactly behind it, has counted
  -- every frame, has written nothing, and its assembler holds what it held before.
  pub read_next_sharing_frame-send_sharing_frame :
      (noise : List OfflineFrame) (n : ℕ) (message : SharingFrame) (s t u : Endpoint)
      (sent rest : Bytes) (r : Conversation BytesAssembler)
      → All IsQuiet noise
      → AreMatched s.channel.keys r.endpoint.channel.keys
      → s.channel.send_sequence ≡ pos n
      → r.endpoint.channel.receive_sequence ≡ pos n
      → send_frames platform Sender.send_errors noise s ≡ (ok tt, t)
      → Sender.send_sharing_frame platform message t ≡ (ok tt, u)
      → u.stream.output ≡ s.stream.output ++ sent
      → r.endpoint.stream.input ≡ sent ++ rest
      → lookup (as_i64 (platform.random.u64 t.drawn)) r.own.buffers ≡ none
      → length (platform.sharing_frame.encode message) ≤ max_wire_frame_bytes
      → let r' = read_next_sharing_frame platform r in
        (r'.0 ≡ ok message)
        × (r'.1.endpoint ≡ heard r.endpoint rest (n + length noise + 2))
        × ((j : ℤ) → lookup j r'.1.own.buffers ≡ lookup j r.own.buffers)
  unfolding Sender.send_sharing_frame
  read_next_sharing_frame-send_sharing_frame noise n message s t u sent rest r quiet matched count
        received e1 e2 o i fresh small =
      let id = as_i64 (platform.random.u64 t.drawn) in
      let body = platform.sharing_frame.encode message in
      let (bytes, k, brings) =
        sent_frames platform Sender.send_errors noise n s t r.endpoint.channel.keys matched count
          e1 in
      let (bytes', k', brings') =
        sent_frames platform Sender.send_errors (body_frame id body ∷ end_frame id body ∷ [])
          (n + length noise) (record t { drawn = suc t.drawn }) u r.endpoint.channel.keys
          (rw k.keys matched) k.sequence e2 in
      let whole : sent ≡ bytes ++ bytes' =
        append_cancel_left s.stream.output sent (bytes ++ bytes') (
          sym o
          ∙ k'.output
          ∙ ap (λ b. b ++ bytes') k.output
          ∙ append_assoc s.stream.output bytes bytes') in
      let input : r.endpoint.stream.input ≡ bytes ++ (bytes' ++ rest) =
        i ∙ ap (λ b. b ++ rest) whole ∙ append_assoc bytes bytes' rest in
      let v : Conversation BytesAssembler = record r {
        endpoint = heard r.endpoint (bytes' ++ rest) (n + length noise);
      } in
      let all =
        skips noise n r.endpoint.channel.keys (bytes' ++ rest) r quiet refl received (
          subst (Brings primitives codecs n r.endpoint.channel.keys noise (bytes' ++ rest))
            (sym input) (brings (bytes' ++ rest)))
        ∙ reads_message (n + length noise) r.endpoint.channel.keys id body rest message v refl refl
            (brings' rest) fresh small (platform.sharing_frame.decode-encode message) in
      (
        ap (λ p. p.0) all,
        ap (λ p. p.1.endpoint) all ∙ ap (heard r.endpoint rest) (omega arith),
        λ j. ap (λ p. lookup j p.1.own.buffers) all ∙ lookup-emptied id j body r.own fresh,
      )
