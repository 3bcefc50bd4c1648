-- ===== src/Sender/Delivery/Rejected.antt =====
-- What `send_prepared_files` of src/quick_share_sender.rs does without the receiver's acceptance.
use hi_rodrop.Prelude.{err, Result, List, ◌≡◌, sym, ap, false, ok, Option}
use hi_rodrop.Prelude.Bytes.{Bytes}
use hi_rodrop.Prelude.Exec.{◌>>◌, bind_cases}
use hi_rodrop.Prelude.Int.{is_value}
use hi_rodrop.Wire.{SharingFrame, SharingResponseStatus, sharing_response_status_enumeration}
use hi_rodrop.Wire.Enumeration.{as_i32}
use hi_rodrop.Session.{Platform, Conversation}
use hi_rodrop.Sender.Errors.{SendError}
use hi_rodrop.Sender.Files.{OutgoingFile}
use hi_rodrop.Sender.Delivery.{
  Negotiated, Outgoing, Surroundings, sharing_status, introduce, require_acceptance, send_accepted,
  deliver,
}

-- How a delivery fails by what its introduction ended with, where that is no acceptance.
abbrev pub refused : Result SendError SharingFrame → Result SendError (Unit {0})
refused (ok response) = err SendError.rejected
refused (err e) = err e

module _ {SecretKey PublicKey : Type 0} (platform : Platform SecretKey PublicKey) where
  -- Unless the receiver answers the introduction with an acceptance, the sending fails: by the rejection if
  -- there is an answer, and by the error of the introduction otherwise. All that it leaves is what
  -- the introduction left: no file has been opened, and nothing sent or reported, behind the
  -- receiver's answer or behind the error.
  pub deliver_unaccepted :
      (here : Surroundings) (sign : Option (Bytes → Bytes)) (negotiated : Negotiated)
      (files : List OutgoingFile) (s : Conversation Outgoing)
      → ((response : SharingFrame) (t : Conversation Outgoing)
          → introduce platform sign negotiated.auth_key files s ≡ (ok response, t)
          → is_value (sharing_status response) (as_i32 SharingResponseStatus.accept) ≡ false)
      → deliver platform here sign negotiated files s ≡ (
        refused (introduce platform sign negotiated.auth_key files s).0,
        (introduce platform sign negotiated.auth_key files s).1,
      )
  unfolding deliver require_acceptance
  deliver_unaccepted here sign negotiated files s unaccepted =
      bind_cases
        (λ r. r ≡ (
          refused (introduce platform sign negotiated.auth_key files s).0,
          (introduce platform sign negotiated.auth_key files s).1,
        ))
        (introduce platform sign negotiated.auth_key files)
        (λ response.
          require_acceptance platform response
          >> send_accepted platform here files negotiated.safe_to_disconnect_version)
        s (λ e t h. ap (λ p. (refused p.0, p.1)) (sym h))
        (λ response t h. rw (unaccepted response t h) (ap (λ p. (refused p.0, p.1)) (sym h)))
