-- ===== src/Wire/Attachment.antt =====
-- The introduction of src/quick_share_wire.rs: what a sender says of its files and texts.
use hi_rodrop.Prelude.{ℕ, Bool, List, [], ◌∷◌, Option, some, ◌≡◌, refl}
use hi_rodrop.Prelude.Int.{ℤ}
use hi_rodrop.Prelude.Utf8.{Text}
use hi_rodrop.Wire.Enumeration.{Enumeration, find_code}

pub data SharingUseCase : Type 0 where
  unknown nearby_share remote_copy : SharingUseCase

abbrev pub sharing_use_case_code : SharingUseCase → ℕ
sharing_use_case_code SharingUseCase.unknown = 0
sharing_use_case_code SharingUseCase.nearby_share = 1
sharing_use_case_code SharingUseCase.remote_copy = 2

abbrev pub sharing_use_case_variants : List SharingUseCase
sharing_use_case_variants =
    SharingUseCase.unknown ∷ SharingUseCase.nearby_share ∷ SharingUseCase.remote_copy ∷ []

pub sharing_use_case_covers :
    (v : SharingUseCase)
    → find_code sharing_use_case_code sharing_use_case_variants (sharing_use_case_code v) ≡ some v
sharing_use_case_covers SharingUseCase.unknown = refl
sharing_use_case_covers SharingUseCase.nearby_share = refl
sharing_use_case_covers SharingUseCase.remote_copy = refl

instance abbrev pub sharing_use_case_enumeration : Enumeration SharingUseCase
sharing_use_case_enumeration = record {
  code = sharing_use_case_code;
  variants = sharing_use_case_variants;
  covers = sharing_use_case_covers;
}

pub record FileMetadata : Type 0 where
  pub name : Option Text
  pub file_type : Option ℤ
  pub payload_id : Option ℤ
  pub size : Option ℤ
  pub mime_type : Option Text
  pub id : Option ℤ
  pub parent_folder : Option Text

pub data FileType : Type 0 where
  unknown image video android_app audio document contact_card : FileType

abbrev pub file_type_code : FileType → ℕ
file_type_code FileType.unknown = 0
file_type_code FileType.image = 1
file_type_code FileType.video = 2
file_type_code FileType.android_app = 3
file_type_code FileType.audio = 4
file_type_code FileType.document = 5
file_type_code FileType.contact_card = 6

abbrev pub file_type_variants : List FileType
file_type_variants =
    FileType.unknown ∷ FileType.image ∷ FileType.video ∷ FileType.android_app ∷ FileType.audio
    ∷ FileType.document ∷ FileType.contact_card ∷ []

pub file_type_covers :
    (v : FileType) → find_code file_type_code file_type_variants (file_type_code v) ≡ some v
file_type_covers FileType.unknown = refl
file_type_covers FileType.image = refl
file_type_covers FileType.video = refl
file_type_covers FileType.android_app = refl
file_type_covers FileType.audio = refl
file_type_covers FileType.document = refl
file_type_covers FileType.contact_card = refl

instance abbrev pub file_type_enumeration : Enumeration FileType
file_type_enumeration = record {
  code = file_type_code;
  variants = file_type_variants;
  covers = file_type_covers;
}

pub record TextMetadata : Type 0 where
  pub text_title : Option Text
  pub text_type : Option ℤ
  pub payload_id : Option ℤ
  pub size : Option ℤ
  pub id : Option ℤ
  pub is_sensitive_text : Option Bool

pub record IntroductionFrame : Type 0 where
  pub file_metadata : List FileMetadata
  pub text_metadata : List TextMetadata
  pub required_package : Option Text
  pub start_transfer : Option Bool
  pub use_case : Option ℤ
  pub preview_payload_ids : List ℤ

pub data TextType : Type 0 where
  unknown text url address phone_number : TextType

abbrev pub text_type_code : TextType → ℕ
text_type_code TextType.unknown = 0
text_type_code TextType.text = 1
text_type_code TextType.url = 2
text_type_code TextType.address = 3
text_type_code TextType.phone_number = 4

abbrev pub text_type_variants : List TextType
text_type_variants =
    TextType.unknown ∷ TextType.text ∷ TextType.url ∷ TextType.address ∷ TextType.phone_number ∷ []

pub text_type_covers :
    (v : TextType) → find_code text_type_code text_type_variants (text_type_code v) ≡ some v
text_type_covers TextType.unknown = refl
text_type_covers TextType.text = refl
text_type_covers TextType.url = refl
text_type_covers TextType.address = refl
text_type_covers TextType.phone_number = refl

instance abbrev pub text_type_enumeration : Enumeration TextType
text_type_enumeration = record {
  code = text_type_code;
  variants = text_type_variants;
  covers = text_type_covers;
}
