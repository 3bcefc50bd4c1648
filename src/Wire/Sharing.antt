-- ===== src/Wire/Sharing.antt =====
-- The sharing frames of src/quick_share_wire.rs: introduction, consent and paired keys.
use hi_rodrop.Prelude.{ℕ, List, [], ◌∷◌, Option, some, ◌≡◌, refl}
use hi_rodrop.Prelude.Int.{ℤ}
use hi_rodrop.Prelude.Bytes.{Bytes}
use hi_rodrop.Wire.Enumeration.{Enumeration, find_code}
use hi_rodrop.Wire.Attachment.{IntroductionFrame}

pub data SharingVersion : Type 0 where
  unknown v1 : SharingVersion

abbrev pub sharing_version_code : SharingVersion → ℕ
sharing_version_code SharingVersion.unknown = 0
sharing_version_code SharingVersion.v1 = 1

abbrev pub sharing_version_variants : List SharingVersion
sharing_version_variants = SharingVersion.unknown ∷ SharingVersion.v1 ∷ []

pub sharing_version_covers :
    (v : SharingVersion)
    → find_code sharing_version_code sharing_version_variants (sharing_version_code v) ≡ some v
sharing_version_covers SharingVersion.unknown = refl
sharing_version_covers SharingVersion.v1 = refl

instance abbrev pub sharing_version_enumeration : Enumeration SharingVersion
sharing_version_enumeration = record {
  code = sharing_version_code;
  variants = sharing_version_variants;
  covers = sharing_version_covers;
}

pub data SharingFrameType : Type 0 where
  unknown introduction response paired_key_encryption paired_key_result certificate_info :
      SharingFrameType
  cancel progress_update : SharingFrameType

abbrev pub sharing_frame_type_code : SharingFrameType → ℕ
sharing_frame_type_code SharingFrameType.unknown = 0
sharing_frame_type_code SharingFrameType.introduction = 1
sharing_frame_type_code SharingFrameType.response = 2
sharing_frame_type_code SharingFrameType.paired_key_encryption = 3
sharing_frame_type_code SharingFrameType.paired_key_result = 4
sharing_frame_type_code SharingFrameType.certificate_info = 5
sharing_frame_type_code SharingFrameType.cancel = 6
sharing_frame_type_code SharingFrameType.progress_update = 7

abbrev pub sharing_frame_type_variants : List SharingFrameType
sharing_frame_type_variants =
    SharingFrameType.unknown ∷ SharingFrameType.introduction ∷ SharingFrameType.response
    ∷ SharingFrameType.paired_key_encryption ∷ SharingFrameType.paired_key_result
    ∷ SharingFrameType.certificate_info ∷ SharingFrameType.cancel ∷ SharingFrameType.progress_update
    ∷ []

pub sharing_frame_type_covers :
    (v : SharingFrameType)
    → find_code sharing_frame_type_code sharing_frame_type_variants (sharing_frame_type_code v)
      ≡ some v
sharing_frame_type_covers SharingFrameType.unknown = refl
sharing_frame_type_covers SharingFrameType.introduction = refl
sharing_frame_type_covers SharingFrameType.response = refl
sharing_frame_type_covers SharingFrameType.paired_key_encryption = refl
sharing_frame_type_covers SharingFrameType.paired_key_result = refl
sharing_frame_type_covers SharingFrameType.certificate_info = refl
sharing_frame_type_covers SharingFrameType.cancel = refl
sharing_frame_type_covers SharingFrameType.progress_update = refl

instance abbrev pub sharing_frame_type_enumeration : Enumeration SharingFrameType
sharing_frame_type_enumeration = record {
  code = sharing_frame_type_code;
  variants = sharing_frame_type_variants;
  covers = sharing_frame_type_covers;
}

pub record SharingConnectionResponse : Type 0 where
  pub status : Option ℤ

pub data SharingResponseStatus : Type 0 where
  unknown accept reject not_enough_space unsupported_attachment_type timed_out :
      SharingResponseStatus

abbrev pub sharing_response_status_code : SharingResponseStatus → ℕ
sharing_response_status_code SharingResponseStatus.unknown = 0
sharing_response_status_code SharingResponseStatus.accept = 1
sharing_response_status_code SharingResponseStatus.reject = 2
sharing_response_status_code SharingResponseStatus.not_enough_space = 3
sharing_response_status_code SharingResponseStatus.unsupported_attachment_type = 4
sharing_response_status_code SharingResponseStatus.timed_out = 5

abbrev pub sharing_response_status_variants : List SharingResponseStatus
sharing_response_status_variants =
    SharingResponseStatus.unknown ∷ SharingResponseStatus.accept ∷ SharingResponseStatus.reject
    ∷ SharingResponseStatus.not_enough_space ∷ SharingResponseStatus.unsupported_attachment_type
    ∷ SharingResponseStatus.timed_out ∷ []

pub sharing_response_status_covers :
    (v : SharingResponseStatus)
    → find_code sharing_response_status_code sharing_response_status_variants
        (sharing_response_status_code v)
      ≡ some v
sharing_response_status_covers SharingResponseStatus.unknown = refl
sharing_response_status_covers SharingResponseStatus.accept = refl
sharing_response_status_covers SharingResponseStatus.reject = refl
sharing_response_status_covers SharingResponseStatus.not_enough_space = refl
sharing_response_status_covers SharingResponseStatus.unsupported_attachment_type = refl
sharing_response_status_covers SharingResponseStatus.timed_out = refl

instance abbrev pub sharing_response_status_enumeration : Enumeration SharingResponseStatus
sharing_response_status_enumeration = record {
  code = sharing_response_status_code;
  variants = sharing_response_status_variants;
  covers = sharing_response_status_covers;
}

pub record SharingPairedKeyEncryption : Type 0 where
  pub signed_data : Option Bytes
  pub secret_id_hash : Option Bytes
  pub optional_signed_data : Option Bytes
  pub qr_code_handshake_data : Option Bytes

pub record SharingPairedKeyResult : Type 0 where
  pub status : Option ℤ
  pub os_type : Option ℤ

pub record SharingV1Frame : Type 0 where
  pub frame_type : Option ℤ
  pub introduction : Option IntroductionFrame
  pub connection_response : Option SharingConnectionResponse
  pub paired_key_encryption : Option SharingPairedKeyEncryption
  pub paired_key_result : Option SharingPairedKeyResult

pub record SharingFrame : Type 0 where
  pub version : Option ℤ
  pub v1 : Option SharingV1Frame

pub data PairedKeyStatus : Type 0 where
  unknown success fail unable : PairedKeyStatus

abbrev pub paired_key_status_code : PairedKeyStatus → ℕ
paired_key_status_code PairedKeyStatus.unknown = 0
paired_key_status_code PairedKeyStatus.success = 1
paired_key_status_code PairedKeyStatus.fail = 2
paired_key_status_code PairedKeyStatus.unable = 3

abbrev pub paired_key_status_variants : List PairedKeyStatus
paired_key_status_variants =
    PairedKeyStatus.unknown ∷ PairedKeyStatus.success ∷ PairedKeyStatus.fail
    ∷ PairedKeyStatus.unable ∷ []

pub paired_key_status_covers :
    (v : PairedKeyStatus)
    → find_code paired_key_status_code paired_key_status_variants (paired_key_status_code v)
      ≡ some v
paired_key_status_covers PairedKeyStatus.unknown = refl
paired_key_status_covers PairedKeyStatus.success = refl
paired_key_status_covers PairedKeyStatus.fail = refl
paired_key_status_covers PairedKeyStatus.unable = refl

instance abbrev pub paired_key_status_enumeration : Enumeration PairedKeyStatus
paired_key_status_enumeration = record {
  code = paired_key_status_code;
  variants = paired_key_status_variants;
  covers = paired_key_status_covers;
}

pub data SharingOsType : Type 0 where
  unknown android chrome_os ios windows macos : SharingOsType

abbrev pub sharing_os_type_code : SharingOsType → ℕ
sharing_os_type_code SharingOsType.unknown = 0
sharing_os_type_code SharingOsType.android = 1
sharing_os_type_code SharingOsType.chrome_os = 2
sharing_os_type_code SharingOsType.ios = 3
sharing_os_type_code SharingOsType.windows = 4
sharing_os_type_code SharingOsType.macos = 5

abbrev pub sharing_os_type_variants : List SharingOsType
sharing_os_type_variants =
    SharingOsType.unknown ∷ SharingOsType.android ∷ SharingOsType.chrome_os ∷ SharingOsType.ios
    ∷ SharingOsType.windows ∷ SharingOsType.macos ∷ []

pub sharing_os_type_covers :
    (v : SharingOsType)
    → find_code sharing_os_type_code sharing_os_type_variants (sharing_os_type_code v) ≡ some v
sharing_os_type_covers SharingOsType.unknown = refl
sharing_os_type_covers SharingOsType.android = refl
sharing_os_type_covers SharingOsType.chrome_os = refl
sharing_os_type_covers SharingOsType.ios = refl
sharing_os_type_covers SharingOsType.windows = refl
sharing_os_type_covers SharingOsType.macos = refl

instance abbrev pub sharing_os_type_enumeration : Enumeration SharingOsType
sharing_os_type_enumeration = record {
  code = sharing_os_type_code;
  variants = sharing_os_type_variants;
  covers = sharing_os_type_covers;
}
