-- ===== src/Sender/Sending/Frames.antt =====
-- What the loop over the files of `send_prepared_files` of src/quick_share_sender.rs sends.
use hi_rodrop.Prelude.{
  ℕ, suc, ◌+◌, ◌≡◌, ◌≢◌, refl, ap, ◌∙◌, Bool, true, false, List, [], ◌∷◌, ◌++◌, All, map, length,
  Result, ok, err,
}
use hi_rodrop.Prelude.Bytes.{Bytes}
use hi_rodrop.Prelude.Exec.{Exec, continue, convert, pure, ◌>>=◌, ◌>>◌, modify}
use hi_rodrop.Wire.{PayloadTransferFrame}
use hi_rodrop.Transport.{ErrorKind}
use hi_rodrop.Session.{
  Platform, Endpoint, Conversation, on_endpoint, on_own, send_encrypted_offline, send_frames,
  transfer_frame,
}
use hi_rodrop.Sender.Errors.{SendError}
use hi_rodrop.Sender.Files.{OutgoingFile, file_transfer, file_transfers}
use hi_rodrop.Sender.Session.{send_errors}
use hi_rodrop.Sender.Sending.{
  Socket, Sending, SendProgress, Send, on_io, count_open, open_file, count_sent, count_look, look,
  acknowledge_rounds, acknowledge_pending_peer_frames, send_file_chunk, end_file, report_sent,
  send_reads, send_each,
}

-- A peer that sends nothing while the files go out.
abbrev pub IsSilent : Socket → Type 0
IsSilent socket =
    ((n : ℕ) → (b : Bool) → socket.set_nonblocking n b ≡ ok tt)
    × ((n : ℕ) → socket.peek n ≡ err ErrorKind.would_block)

-- How an action went, without what its side keeps besides the endpoint.
abbrev pub seen :
    {A : Type 0} → Result SendError A × Conversation Sending → Result SendError A × Endpoint
seen r = (r.0, r.1.endpoint)

-- An action that does to the endpoint what another one does.
abbrev pub Mirrors : Send (Unit {0}) → Exec Endpoint SendError (Unit {0}) → Type 0
Mirrors m n = (s : Conversation Sending) → seen (m s) ≡ n s.endpoint

Mirrors-on_endpoint : (n : Exec Endpoint SendError (Unit {0})) → Mirrors (on_endpoint n) n
Mirrors-on_endpoint n s = from (n s.endpoint)
  where
    from :
        (r : Result SendError (Unit {0}) × Endpoint)
        → ◌≡◌ {A = Result SendError (Unit {0}) × Endpoint} (convert (λ e. e) r.0, r.1) r
    from (ok tt, t) = refl
    from (err e, t) = refl

Mirrors-then :
    (m k : Send (Unit {0})) (n l : Exec Endpoint SendError (Unit {0}))
    → Mirrors m n
    → Mirrors k l
    → Mirrors (m >> k) (n >> l)
Mirrors-then m k n l h j s =
    from (m s)
    ∙ ap (λ (r : Result SendError (Unit {0}) × Endpoint). continue (λ _. l) r.0 r.1) (h s)
  where
    from :
        (r : Result SendError (Unit {0}) × Conversation Sending)
        → seen (continue (λ _. k) r.0 r.1) ≡ continue (λ _. l) r.0 r.1.endpoint
    from (ok a, t) = j t
    from (err e, t) = refl

-- The transfers of all files.
abbrev pub all_transfers :
    (OutgoingFile → List Bytes) → List OutgoingFile → List PayloadTransferFrame
all_transfers bodies [] = []
all_transfers bodies (file ∷ files) =
    file_transfers file 0 (bodies file) ++ all_transfers bodies files

module _ {SecretKey PublicKey : Type 0} (platform : Platform SecretKey PublicKey) (socket : Socket)
    (silent : IsSilent socket) where
  looks :
      (s : Conversation Sending)
      → look platform socket s ≡ (ok false, record s { own = count_look s.own })
  unfolding look
  looks s = rw (silent.0 s.own.looks true, silent.1 s.own.looks, silent.0 s.own.looks false) refl

  acknowledges : Mirrors (acknowledge_pending_peer_frames platform socket) (pure tt)
  unfolding acknowledge_pending_peer_frames acknowledge_rounds
  acknowledges s = rw (looks s) refl

  send_frames_both :
      (xs ys : List PayloadTransferFrame) (t : Endpoint)
      → (send_frames platform send_errors (map transfer_frame xs)
            >> send_frames platform send_errors (map transfer_frame ys))
          t
        ≡ send_frames platform send_errors (map transfer_frame (xs ++ ys)) t
  unfolding send_frames
  send_frames_both [] ys t = refl
  send_frames_both (x ∷ xs) ys t =
      from (send_frames_both xs ys)
        (send_encrypted_offline platform send_errors (transfer_frame x) t)
    where
      from :
          ((u : Endpoint)
            → (send_frames platform send_errors (map transfer_frame xs)
                  >> send_frames platform send_errors (map transfer_frame ys))
                u
              ≡ send_frames platform send_errors (map transfer_frame (xs ++ ys)) u)
          → (r : Result SendError (Unit {0}) × Endpoint)
          → (continue (λ _. send_frames platform send_errors (map transfer_frame xs)) r.0
                >> send_frames platform send_errors (map transfer_frame ys))
              r.1
            ≡ continue
                (λ _. send_frames platform send_errors (map transfer_frame (xs ++ ys)))
                r.0
                r.1
      from ih (ok a, u) = ih u
      from ih (err e, u) = refl

  ends :
      (file : OutgoingFile) (offset : ℕ)
      → Mirrors
          (end_file platform socket file offset)
          (send_frames platform send_errors (map transfer_frame (file_transfers file offset [])))
  unfolding end_file send_file_chunk send_frames file_transfers
  ends file offset =
      let send =
        send_encrypted_offline platform send_errors
          (transfer_frame (file_transfer file offset [] true)) in
      Mirrors-then (on_endpoint send) (acknowledge_pending_peer_frames platform socket) send
        (pure tt) (Mirrors-on_endpoint send) acknowledges

  send_reads_frames :
      (total : ℕ) (file : OutgoingFile) (offset : ℕ) (bodies : List Bytes)
      → All (λ body. body ≢ []) bodies
      → Mirrors (send_reads platform socket total file offset (map ok bodies)) (
          send_frames platform send_errors (map transfer_frame (file_transfers file offset bodies)))
  unfolding send_reads send_frames file_transfers send_file_chunk report_sent
  send_reads_frames total file offset [] full =
      Mirrors-then (acknowledge_pending_peer_frames platform socket)
        (end_file platform socket file offset) (pure tt)
        (send_frames platform send_errors (map transfer_frame (file_transfers file offset [])))
        acknowledges (ends file offset)
  send_reads_frames total file offset ([] ∷ bodies) full = absurd (full.0 refl)
  send_reads_frames total file offset ((b ∷ bs) ∷ bodies) full =
      let send =
        send_encrypted_offline platform send_errors
          (transfer_frame (file_transfer file offset (b ∷ bs) false)) in
      let next = offset + suc (length bs) in
      let rest = send_reads platform socket total file next (map ok bodies) in
      let later =
        send_frames platform send_errors (map transfer_frame (file_transfers file next bodies)) in
      let told =
        on_own (modify (count_sent (suc (length bs))))
        >> (report_sent platform socket total file >> rest) in
      let after : Mirrors told later =
        λ s. send_reads_frames total file next bodies full.1 (told_own s) in
      Mirrors-then (acknowledge_pending_peer_frames platform socket)
        (send_file_chunk platform socket file offset (b ∷ bs) false >> told) (pure tt)
        (send >> later) acknowledges
        (Mirrors-then (on_endpoint send) told send later (Mirrors-on_endpoint send) after)
    where
      told_own : Conversation Sending → Conversation Sending
      told_own s =
          let sent = s.own.sent_bytes + suc (length bs) in
          record s {
            own = record s.own {
              sent_bytes = sent;
              progress = s.own.progress ++ SendProgress.sending sent total file.name ∷ [];
            };
          }

  -- While the peer sends nothing, and every file opens and is read to its end in pieces, the loop over the files
  -- does to the endpoint what sending the chunks of all files in order does: the same frames go
  -- out, and it fails exactly where and how sending one of them fails.
  pub send_each-file_transfers :
      (contents : OutgoingFile → Result ErrorKind (List (Result ErrorKind Bytes)))
      (bodies : OutgoingFile → List Bytes) (total : ℕ) (files : List OutgoingFile)
      → All (λ file. contents file ≡ ok (map ok (bodies file))) files
      → All (λ file. All (λ body. body ≢ []) (bodies file)) files
      → (s : Conversation Sending)
      → seen (send_each platform socket contents total files s)
        ≡ send_frames platform send_errors
            (map transfer_frame (all_transfers bodies files))
            s.endpoint
  unfolding send_each open_file send_frames
  send_each-file_transfers contents bodies total [] reads full s = refl
  send_each-file_transfers contents bodies total (file ∷ files) reads full s =
      let reading = send_reads platform socket total file 0 in
      let rest = send_each platform socket contents total files in
      let opening : Conversation Sending = record s { own = count_open file.path s.own } in
      ap (λ r. seen ((on_io r >>= (λ reads'. reading reads' >> rest)) opening)) reads.0
      ∙ Mirrors-then (reading (map ok (bodies file))) rest
          (send_frames platform send_errors
            (map transfer_frame (file_transfers file 0 (bodies file))))
          (send_frames platform send_errors (map transfer_frame (all_transfers bodies files)))
          (send_reads_frames total file 0 (bodies file) full.0)
          (send_each-file_transfers contents bodies total files reads.1 full.1) opening
      ∙ send_frames_both (file_transfers file 0 (bodies file)) (all_transfers bodies files)
          s.endpoint
