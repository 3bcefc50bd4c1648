-- ===== src/Receiver/Connection/Confined.antt =====
-- Where a connection of src/quick_share_receiver.rs saves what it receives.
use hi_rodrop.Prelude.{List, All, ◌≡◌, refl, Bool, true, false, Result, ok, err}
use mathlib.Core.Path.{subst}
use hi_rodrop.Prelude.Exec.{
  Exec, pure, raise, ◌>>=◌, ◌>>◌, focus, convert, Holds, Ensures, Ensures-bind, Ensures-after,
}
use hi_rodrop.Wire.{IntroductionFrame, SharingResponseStatus}
use hi_rodrop.Storage.FilePath.{FilePath}
use hi_rodrop.Storage.Disk.{Disk}
use hi_rodrop.Storage.Parents.Inside.{IsBelow}
use hi_rodrop.Session.{Platform, Conversation, on_endpoint, send_encrypted_offline}
use hi_rodrop.Receiver.Errors.{ReceiveError}
use hi_rodrop.Receiver.Pending.{PendingTransfer}
use hi_rodrop.Receiver.Pending.Prepare.{prepare}
use hi_rodrop.Receiver.Offer.{TransferOffer}
use hi_rodrop.Receiver.Session.{receive_errors, send_sharing_response}
use hi_rodrop.Receiver.Transfer.{Incoming, receive_all}
use hi_rodrop.Receiver.Transfer.Saved.{receive_all-prepare-IsBelow}
use hi_rodrop.Receiver.Introduction.{Consent, Line, Greeted, ask, greet}
use hi_rodrop.Receiver.Connection.{
  Room, Surroundings, TransferSummary, incoming, on_talk, on_files, plain_disconnection, decide,
  receive_or_clean, receive_accepted, serve, room, serve_greeted, receive_connection,
}

module _ {SecretKey PublicKey : Type 0} (platform : Platform SecretKey PublicKey)
    (here : Surroundings) where
  abbrev Saves : List FilePath → Type 0
  Saves paths = All (IsBelow here.download_directory) paths

  preparing : IntroductionFrame → Exec Disk ReceiveError PendingTransfer
  preparing introduction = prepare here.download_directory here.process_id here.random introduction

  -- A transfer that `prepare` let through.
  abbrev IsPrepared : IntroductionFrame → PendingTransfer → Type 0
  IsPrepared introduction pending =
      (d : Disk) × (e : Disk) × (preparing introduction d ≡ (ok pending, e))

  prepares :
      (introduction : IntroductionFrame)
      → Ensures (IsPrepared introduction) (on_files (preparing introduction))
  prepares introduction s = from (preparing introduction s.disk) refl
    where
      from :
          (r : Result ReceiveError PendingTransfer × Disk)
          → preparing introduction s.disk ≡ r
          → Holds (IsPrepared introduction) (convert (λ e. e) r.0)
      from (ok pending, d) e = (s.disk, d, e)
      from (err x, d) e = tt

  saves :
      (introduction : IntroductionFrame) (pending : PendingTransfer)
      → IsPrepared introduction pending
      → Ensures Saves (receive_or_clean platform here pending)
  unfolding receive_or_clean preparing
  saves introduction pending (d, e, p) s =
      from (receive_all platform here.clock (incoming pending s)) refl
    where
      from :
          (r : Result ReceiveError (List FilePath) × Conversation Incoming)
          → receive_all platform here.clock (incoming pending s) ≡ r
          → Holds Saves r.0
      from (ok paths, t) h =
          receive_all-prepare-IsBelow platform here.clock here.download_directory here.process_id
            here.random introduction pending d e (incoming pending s) t paths p refl h
      from (err x, t) h = tt

  accepted-Saves :
      (introduction : IntroductionFrame)
      → Ensures Saves (receive_accepted platform here introduction)
  unfolding receive_accepted preparing
  accepted-Saves introduction =
      let answer =
        on_talk (on_endpoint (send_sharing_response platform SharingResponseStatus.accept)) in
      let bye =
        on_talk
          (on_endpoint (send_encrypted_offline platform receive_errors plain_disconnection)) in
      let ends : List FilePath → Exec Room ReceiveError (List FilePath) =
        λ paths. bye >> pure paths in
      let takes : PendingTransfer → Exec Room ReceiveError (List FilePath) =
        λ pending. receive_or_clean platform here pending >>= ends in
      let goes : PendingTransfer → Exec Room ReceiveError (List FilePath) =
        λ pending. answer >> takes pending in
      Ensures-after Saves (on_files (focus (λ d. d) (λ d _. d) ReceiveError.io here.create_dir_all))
        (λ _. on_files (preparing introduction) >>= goes)
        (λ _.
          Ensures-bind (IsPrepared introduction) Saves (on_files (preparing introduction)) goes
            (prepares introduction)
            (λ pending p.
              Ensures-after Saves answer (λ _. takes pending)
                (λ _.
                  Ensures-bind Saves Saves (receive_or_clean platform here pending) ends
                    (saves introduction pending p)
                    (λ paths h. Ensures-after Saves bye (λ _. pure paths) (λ _ s. h)))))

  decide-Saves :
      (accepted : Bool) (introduction : IntroductionFrame)
      → Ensures Saves (decide platform here accepted introduction)
  unfolding decide
  decide-Saves true introduction = accepted-Saves introduction
  decide-Saves false introduction =
      Ensures-after Saves
        (on_talk (on_endpoint (send_sharing_response platform SharingResponseStatus.reject)))
        (λ _. raise ReceiveError.rejected) (λ _ s. tt)

  receive_connection-Reports :
      {Address : Type 0} (secret : SecretKey) (address : Address)
      (consent : TransferOffer Address → Consent) (line : Line) (disk : Disk)
      → Holds
          (λ (summary : TransferSummary Address).
            All (IsBelow here.download_directory) summary.saved_paths)
          (receive_connection platform here secret address consent line disk).0
  unfolding receive_connection serve_greeted serve
  receive_connection-Reports {Address} secret address consent line disk =
      from (greet platform here.os_type secret address line)
    where
      Reports : TransferSummary Address → Type 0
      Reports summary = Saves summary.saved_paths

      summary_of : Greeted Address → List FilePath → TransferSummary Address
      summary_of greeted paths = record { peer = greeted.peer; saved_paths = paths }

      from :
          (r : Result ReceiveError (Greeted Address) × Line)
          → Holds Reports (serve_greeted platform here consent disk r).0
      from (ok greeted, line') =
          Ensures-after Reports (on_talk (ask platform greeted consent))
            (λ answered. decide platform here answered.1 answered.0 >>= λ paths.
              pure (summary_of greeted paths))
            (λ answered.
              Ensures-bind Saves Reports (decide platform here answered.1 answered.0)
                (λ paths. pure (summary_of greeted paths)) (decide-Saves answered.1 answered.0)
                (λ paths h s. h))
            (room platform here line' greeted.channel disk)
      from (err e, line') = tt

  -- Whatever the peer sends and whatever the user is asked, every path that a connection reports as saved
  -- when it succeeds is strictly below the download directory: an entry, by a safe name, of a
  -- directory that is the download directory or is reached from it by safe names.
  pub receive_connection-IsBelow :
      {Address : Type 0} (secret : SecretKey) (address : Address)
      (consent : TransferOffer Address → Consent) (line : Line) (disk : Disk)
      (summary : TransferSummary Address)
      → (receive_connection platform here secret address consent line disk).0 ≡ ok summary
      → All (IsBelow here.download_directory) summary.saved_paths
  receive_connection-IsBelow {Address} secret address consent line disk summary e =
      subst
        (Holds (λ (found : TransferSummary Address).
          All (IsBelow here.download_directory) found.saved_paths))
        e (receive_connection-Reports secret address consent line disk)
