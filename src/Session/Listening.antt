-- ===== src/Session/Listening.antt =====
-- The loops of src/quick_share_receiver.rs and src/quick_share_sender.rs that read a frame in each round.
use hi_rodrop.Prelude.{ℕ, suc, ◌<◌, ◌≡◌, refl, Option, List, ◌∷◌, arith}
use hi_rodrop.Prelude.Bytes.{Bytes}
use hi_rodrop.Prelude.Int.{pos}
use hi_rodrop.Prelude.Exec.{Keeps, bind_ok, focus_ok}
use hi_rodrop.Prelude.Loop.{
  repeat, go_on, Falls, Falls-bind, Lowers, Lowers-focus, repeat_step, repeat_same,
}
use hi_rodrop.Wire.{OfflineFrame}
use hi_rodrop.Crypto.Keys.{SessionKeys}
use hi_rodrop.Session.{
  Platform, Errors, Conversation, Talk, on_endpoint, unread, read_encrypted_offline, listen_round,
  listen,
}
use hi_rodrop.Session.Reading.{waiting, read_encrypted_offline-Lowers}
use hi_rodrop.Session.Delivery.{Brings}
use hi_rodrop.Session.Arrival.{heard, reads_one}

module _ {Own : Type 0} where
  abbrev pub Unread : ℕ → Conversation Own → Type 0
  Unread k s = unread s ≡ k

module _ {SecretKey PublicKey : Type 0} (platform : Platform SecretKey PublicKey) {E : Type 0}
    (errors : Errors E) {Own A : Type 0} (take_offline : OfflineFrame → Talk Own E (Option A)) where
  open platform use {primitives, codecs}

  pub read-Lowers : Lowers unread (on_endpoint {Own = Own} (read_encrypted_offline platform errors))
  read-Lowers =
      Lowers-focus (λ s. s.endpoint) (λ e s. record s { endpoint = e }) (λ e. e) waiting
        (read_encrypted_offline platform errors) (λ u s. refl)
        (read_encrypted_offline-Lowers platform errors)

  -- Of the input of such a loop, the next frame is looked at.
  pub listen_round-hears :
      (n : ℕ) (keys : SessionKeys) (frame : OfflineFrame) (frames : List OfflineFrame)
      (rest : Bytes) (s : Conversation Own)
      → s.endpoint.channel.keys ≡ keys
      → s.endpoint.channel.receive_sequence ≡ pos n
      → Brings primitives codecs n keys (frame ∷ frames) rest s.endpoint.stream.input
      → (tail : Bytes) × Brings primitives codecs (suc n) keys frames rest tail
        × (listen_round platform errors take_offline s
            ≡ take_offline frame (record s { endpoint = heard s.endpoint tail (suc n) }))
  listen_round-hears n keys frame frames rest s k c (wire, tail, size, i, opens, later) = (
    tail,
    later,
    bind_ok (on_endpoint (read_encrypted_offline platform errors)) take_offline s
        (record s { endpoint = heard s.endpoint tail (suc n) }) frame
        (focus_ok (λ x. x.endpoint) (λ e x. record x { endpoint = e }) (λ e. e)
          (read_encrypted_offline platform errors) s (heard s.endpoint tail (suc n)) frame
          (reads_one platform errors n s.endpoint keys frame wire tail k c size i opens)),
  )

  -- Where looking at a frame leaves alone what is to be read, the loop ends.
  module _ (keep : (frame : OfflineFrame) (k : ℕ) → Keeps (Unread k) (take_offline frame)) where
    pub listen_round-Falls : Falls unread (listen_round platform errors take_offline)
    listen_round-Falls =
        Falls-bind unread (on_endpoint (read_encrypted_offline platform errors)) take_offline
          read-Lowers keep

    pub listen_step :
        (stuck : E) (s : Conversation Own)
        → listen platform errors stuck take_offline s
          ≡ go_on
              (listen platform errors stuck take_offline)
              (listen_round platform errors take_offline s)
    unfolding listen
    listen_step stuck s =
        repeat_step unread (listen_round platform errors take_offline) stuck listen_round-Falls s

    pub listen_enough :
        (stuck other : E) (s : Conversation Own) (n : ℕ)
        → unread s < n
        → repeat other n (listen_round platform errors take_offline) s
          ≡ listen platform errors stuck take_offline s
    unfolding listen
    listen_enough stuck other s n h =
        repeat_same unread (listen_round platform errors take_offline) other stuck
          listen_round-Falls n (suc (unread s)) s h (omega arith)
