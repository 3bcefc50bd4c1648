-- ===== src/Receiver/Offer.antt =====
-- `transfer_offer` of src/quick_share_receiver.rs: what the user is asked to accept.
use hi_rodrop.Prelude.{
  ℕ, Bool, true, false, List, [], ◌∷◌, ◌++◌, Result, ok, ok_or, unwrap_or, ◌>>=◌,
}
use hi_rodrop.Prelude.Utf8.{Text, chars}
use hi_rodrop.Wire.{FileMetadata, TextMetadata, IntroductionFrame}
use hi_rodrop.Receiver.Errors.{ReceiveError}
use hi_rodrop.Receiver.Requests.{IncomingPeer}
use hi_rodrop.Receiver.Pending.Prepare.{declared_size}

pub record TransferOfferItem : Type 0 where
  pub name : Text
  pub size : ℕ
  pub is_text : Bool

pub record TransferOffer (Address : Type 0) : Type 0 where
  pub peer : IncomingPeer Address
  pub pin : Text
  pub peer_fingerprint : Text
  pub items : List TransferOfferItem

unfoldable pub offer_file : FileMetadata → Result ReceiveError TransferOfferItem
offer_file file = do
  name ← ok_or file.name ReceiveError.unsafe_metadata
  size ← declared_size file.size
  ok (record { name = name; size = size; is_text = false })

unfoldable pub offer_text : TextMetadata → Result ReceiveError TransferOfferItem
offer_text text = do
  size ← declared_size text.size
  ok (record {
    name = unwrap_or text.text_title (chars "Shared text");
    size = size;
    is_text = true;
  })

-- One item for each entry, in order; the first error ends it.
unfoldable pub offer_each :
    {A : Type 0}
    → (A → Result ReceiveError TransferOfferItem)
    → List A
    → Result ReceiveError (List TransferOfferItem)
offer_each offer [] = ok []
offer_each offer (x ∷ xs) = do item ← offer x; items ← offer_each offer xs; ok (item ∷ items)

unfoldable pub transfer_offer :
    {Address : Type 0}
    → IncomingPeer Address
    → Text
    → Text
    → IntroductionFrame
    → Result ReceiveError (TransferOffer Address)
transfer_offer peer pin peer_fingerprint introduction = do
  files ← offer_each offer_file introduction.file_metadata
  texts ← offer_each offer_text introduction.text_metadata
  ok (record {
    peer = peer;
    pin = pin;
    peer_fingerprint = peer_fingerprint;
    items = files ++ texts;
  })
