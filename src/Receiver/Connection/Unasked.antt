-- ===== src/Receiver/Connection/Unasked.antt =====
-- What a connection of src/quick_share_receiver.rs leaves behind that the user does not accept.
use hi_rodrop.Prelude.{List, ◌≡◌, ◌≢◌, refl, sym, ap, ◌∙◌, Bool, false, Result, ok, err}
use mathlib.Core.Path.{subst}
use hi_rodrop.Prelude.Exec.{
  convert, pure, raise, lift, ◌>>=◌, ◌>>◌, Holds, Ensures, Ensures-after, bind_cases,
}
use hi_rodrop.Wire.{IntroductionFrame, SharingResponseStatus}
use hi_rodrop.Storage.FilePath.{FilePath}
use hi_rodrop.Storage.Disk.{Disk}
use hi_rodrop.Session.{Platform, on_endpoint}
use hi_rodrop.Receiver.Errors.{ReceiveError}
use hi_rodrop.Receiver.Offer.{TransferOffer, transfer_offer}
use hi_rodrop.Receiver.Session.{Step, send_sharing_response}
use hi_rodrop.Receiver.Introduction.{Consent, Line, Greeted, introduce, wait_consent, ask, greet}
use hi_rodrop.Receiver.Connection.{
  Room, Surroundings, on_talk, decide, serve, room, serve_greeted, receive_connection,
}

abbrev pub Declines : {Address : Type 0} → (TransferOffer Address → Consent) → Type 0
Declines consent = (offer : TransferOffer _) → (consent offer).decision ≡ false

-- It fails, and the disk is as it was.
abbrev pub IsRefused : {A : Type 0} → Disk → Result ReceiveError A × Disk → Type 0
IsRefused disk r = (r.1 ≡ disk) × ((a : _) → r.0 ≢ ok a)

abbrev IsRefusedRoom : {A : Type 0} → Disk → Result ReceiveError A × Room → Type 0
IsRefusedRoom disk r = IsRefused disk (r.0, r.1.disk)

held :
    {A : Type 0} (P : A → Type 0) (r : Result ReceiveError A) (a : A)
    → convert (λ e. e) r ≡ ok a
    → Holds P r
    → P a
held P (ok b) a h p = subst P (cc h) p
held P (err e) a h p = absurd (cc h)

module _ {SecretKey PublicKey : Type 0} (platform : Platform SecretKey PublicKey) where
  asked :
      {Address : Type 0} (greeted : Greeted Address) (consent : TransferOffer Address → Consent)
      → Declines consent
      → Ensures (λ (a : IntroductionFrame × Bool). a.1 ≡ false) (ask platform greeted consent)
  unfolding ask
  asked {Address} greeted consent declines =
      let P : IntroductionFrame × Bool → Type 0 = λ a. a.1 ≡ false in
      let offer_of = transfer_offer greeted.peer greeted.pin greeted.fingerprint in
      let waits : TransferOffer Address → Step (Unit {0}) =
        λ offer. on_endpoint (wait_consent platform (consent offer).waiting) in
      Ensures-after P (introduce platform)
        (λ introduction. lift (offer_of introduction) >>= λ offer.
          waits offer >> pure (introduction, (consent offer).decision))
        (λ introduction.
          Ensures-after P (lift (offer_of introduction))
            (λ offer. waits offer >> pure (introduction, (consent offer).decision))
            (λ offer.
              Ensures-after P (waits offer) (λ _. pure (introduction, (consent offer).decision))
                (λ _ s. declines offer)))

module _ {SecretKey PublicKey : Type 0} (platform : Platform SecretKey PublicKey)
    (here : Surroundings) where
  reject_refused :
      (introduction : IntroductionFrame) (s : Room)
      → IsRefusedRoom s.disk (decide platform here false introduction s)
  unfolding decide
  reject_refused introduction s =
      bind_cases (IsRefusedRoom s.disk)
        (on_talk (on_endpoint (send_sharing_response platform SharingResponseStatus.reject)))
        (λ _. raise ReceiveError.rejected) s (λ e t h. (ap (λ p. p.1.disk) (sym h), λ a k. cc k))
        (λ _ t h. (ap (λ p. p.1.disk) (sym h), λ a k. cc k))

  decline_refused :
      {A : Type 0} (disk : Disk) (f : List FilePath → A) (introduction : IntroductionFrame)
      (s : Room)
      → s.disk ≡ disk
      → IsRefusedRoom disk ((decide platform here false introduction >>= λ paths. pure (f paths)) s)
  decline_refused disk f introduction s same =
      let (kept, fails) = reject_refused introduction s in
      bind_cases (IsRefusedRoom disk) (decide platform here false introduction)
        (λ paths. pure (f paths)) s
        (λ e t h. (ap (λ p. p.1.disk) (sym h) ∙ kept ∙ same, λ a k. cc k))
        (λ a t h. absurd (fails a (ap (λ p. p.0) h)))

  serve_refused :
      {Address : Type 0} (greeted : Greeted Address) (consent : TransferOffer Address → Consent)
      → Declines consent
      → (s : Room) → IsRefusedRoom s.disk (serve platform here greeted consent s)
  unfolding serve
  serve_refused greeted consent declines s =
      bind_cases (IsRefusedRoom s.disk) (on_talk (ask platform greeted consent))
        (λ answered. decide platform here answered.1 answered.0 >>= λ paths.
          pure (record { peer = greeted.peer; saved_paths = paths }))
        s (λ e t h. (ap (λ p. p.1.disk) (sym h), λ a k. cc k))
        (λ answered t h.
          let no_consent : answered.1 ≡ false =
            held (λ (a : IntroductionFrame × Bool). a.1 ≡ false)
              (ask platform greeted consent s.talk).0 answered (ap (λ p. p.0) h)
              (asked platform greeted consent declines s.talk) in
          rw no_consent (
            decline_refused s.disk (λ paths. record { peer = greeted.peer; saved_paths = paths })
              answered.0 t (ap (λ p. p.1.disk) (sym h))))

  -- A connection whose transfer the user does not accept, whatever is offered, fails and leaves the disk as
  -- it was: whatever the peer sends, nothing is written and nothing is removed.
  pub receive_connection_declined :
      {Address : Type 0} (secret : SecretKey) (address : Address)
      (consent : TransferOffer Address → Consent) (line : Line) (disk : Disk)
      → Declines consent
      → IsRefused disk (receive_connection platform here secret address consent line disk)
  unfolding receive_connection serve_greeted
  receive_connection_declined secret address consent line disk declines =
      from (greet platform here.os_type secret address line)
    where
      from :
          (r : Result ReceiveError (Greeted _) × Line)
          → IsRefused disk (serve_greeted platform here consent disk r)
      from (ok greeted, line') =
          serve_refused greeted consent declines (room platform here line' greeted.channel disk)
      from (err e, line') = (refl, λ a k. cc k)
