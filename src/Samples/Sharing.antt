-- ===== src/Samples/Sharing.antt =====
-- The sharing frames, field by field.
use hi_rodrop.Prelude.{refl, Bool, Option, List}
use hi_rodrop.Prelude.Int.{ℤ}
use hi_rodrop.Prelude.Bytes.{Bytes}
use hi_rodrop.Prelude.Utf8.{Text}
use hi_rodrop.Wire.{
  FileMetadata, TextMetadata, IntroductionFrame, SharingConnectionResponse,
  SharingPairedKeyEncryption, SharingPairedKeyResult, SharingV1Frame, SharingFrame,
}
use hi_rodrop.Samples.Serial.{
  Serial, serial_ℕ, serial_ℤ, serial_Bool, serial_Option, serial_List, ◌&◌, fields,
}

abbrev pub FileMetadataFields : Type 0
FileMetadataFields =
    Option Text × (Option ℤ × (Option ℤ × (Option ℤ × (Option Text × (Option ℤ × Option Text)))))

abbrev pub file_metadata_of : FileMetadataFields → FileMetadata
file_metadata_of (x0, (x1, (x2, (x3, (x4, (x5, x6)))))) = record {
  name = x0;
  file_type = x1;
  payload_id = x2;
  size = x3;
  mime_type = x4;
  id = x5;
  parent_folder = x6;
}

abbrev pub file_metadata : Serial FileMetadata
file_metadata =
    fields
      ((serial_Option (serial_List serial_ℕ))
        & (serial_Option serial_ℤ)
        & (serial_Option serial_ℤ)
        & (serial_Option serial_ℤ)
        & (serial_Option (serial_List serial_ℕ))
        & (serial_Option serial_ℤ)
        & (serial_Option (serial_List serial_ℕ)))
      (λ m.
        (m.name, (m.file_type, (m.payload_id, (m.size, (m.mime_type, (m.id, m.parent_folder)))))))
      file_metadata_of (λ m. refl)

abbrev pub TextMetadataFields : Type 0
TextMetadataFields = Option Text × (Option ℤ × (Option ℤ × (Option ℤ × (Option ℤ × Option Bool))))

abbrev pub text_metadata_of : TextMetadataFields → TextMetadata
text_metadata_of (x0, (x1, (x2, (x3, (x4, x5))))) = record {
  text_title = x0;
  text_type = x1;
  payload_id = x2;
  size = x3;
  id = x4;
  is_sensitive_text = x5;
}

abbrev pub text_metadata : Serial TextMetadata
text_metadata =
    fields
      ((serial_Option (serial_List serial_ℕ))
        & (serial_Option serial_ℤ)
        & (serial_Option serial_ℤ)
        & (serial_Option serial_ℤ)
        & (serial_Option serial_ℤ)
        & (serial_Option serial_Bool))
      (λ m. (m.text_title, (m.text_type, (m.payload_id, (m.size, (m.id, m.is_sensitive_text))))))
      text_metadata_of (λ m. refl)

abbrev pub IntroductionFrameFields : Type 0
IntroductionFrameFields =
    List FileMetadata × (List TextMetadata × (Option Text × (Option Bool × (Option ℤ × List ℤ))))

abbrev pub introduction_frame_of : IntroductionFrameFields → IntroductionFrame
introduction_frame_of (x0, (x1, (x2, (x3, (x4, x5))))) = record {
  file_metadata = x0;
  text_metadata = x1;
  required_package = x2;
  start_transfer = x3;
  use_case = x4;
  preview_payload_ids = x5;
}

abbrev pub introduction_frame : Serial IntroductionFrame
introduction_frame =
    fields
      ((serial_List file_metadata)
        & (serial_List text_metadata)
        & (serial_Option (serial_List serial_ℕ))
        & (serial_Option serial_Bool)
        & (serial_Option serial_ℤ)
        & (serial_List serial_ℤ))
      (λ m. (
        m.file_metadata,
        (
          m.text_metadata,
          (m.required_package, (m.start_transfer, (m.use_case, m.preview_payload_ids))),
        ),
      ))
      introduction_frame_of (λ m. refl)

abbrev pub SharingConnectionResponseFields : Type 0
SharingConnectionResponseFields = Option ℤ

abbrev pub connection_response_of : SharingConnectionResponseFields → SharingConnectionResponse
connection_response_of x0 = record { status = x0 }

abbrev pub connection_response : Serial SharingConnectionResponse
connection_response =
    fields ((serial_Option serial_ℤ)) (λ m. m.status) connection_response_of (λ m. refl)

abbrev pub SharingPairedKeyEncryptionFields : Type 0
SharingPairedKeyEncryptionFields = Option Bytes × (Option Bytes × (Option Bytes × Option Bytes))

abbrev pub paired_key_encryption_of : SharingPairedKeyEncryptionFields → SharingPairedKeyEncryption
paired_key_encryption_of (x0, (x1, (x2, x3))) = record {
  signed_data = x0;
  secret_id_hash = x1;
  optional_signed_data = x2;
  qr_code_handshake_data = x3;
}

abbrev pub paired_key_encryption : Serial SharingPairedKeyEncryption
paired_key_encryption =
    fields
      ((serial_Option (serial_List serial_ℕ))
        & (serial_Option (serial_List serial_ℕ))
        & (serial_Option (serial_List serial_ℕ))
        & (serial_Option (serial_List serial_ℕ)))
      (λ m. (m.signed_data, (m.secret_id_hash, (m.optional_signed_data, m.qr_code_handshake_data))))
      paired_key_encryption_of (λ m. refl)

abbrev pub SharingPairedKeyResultFields : Type 0
SharingPairedKeyResultFields = Option ℤ × Option ℤ

abbrev pub paired_key_result_of : SharingPairedKeyResultFields → SharingPairedKeyResult
paired_key_result_of (x0, x1) = record { status = x0; os_type = x1 }

abbrev pub paired_key_result : Serial SharingPairedKeyResult
paired_key_result =
    fields ((serial_Option serial_ℤ) & (serial_Option serial_ℤ)) (λ m. (m.status, m.os_type))
      paired_key_result_of (λ m. refl)

abbrev pub SharingV1FrameFields : Type 0
SharingV1FrameFields =
    Option ℤ
    × (Option IntroductionFrame
        × (Option SharingConnectionResponse
            × (Option SharingPairedKeyEncryption × Option SharingPairedKeyResult)))

abbrev pub sharing_v1_frame_of : SharingV1FrameFields → SharingV1Frame
sharing_v1_frame_of (x0, (x1, (x2, (x3, x4)))) = record {
  frame_type = x0;
  introduction = x1;
  connection_response = x2;
  paired_key_encryption = x3;
  paired_key_result = x4;
}

abbrev pub sharing_v1_frame : Serial SharingV1Frame
sharing_v1_frame =
    fields
      ((serial_Option serial_ℤ)
        & (serial_Option introduction_frame)
        & (serial_Option connection_response)
        & (serial_Option paired_key_encryption)
        & (serial_Option paired_key_result))
      (λ m. (
        m.frame_type,
        (m.introduction, (m.connection_response, (m.paired_key_encryption, m.paired_key_result))),
      ))
      sharing_v1_frame_of (λ m. refl)

abbrev pub SharingFrameFields : Type 0
SharingFrameFields = Option ℤ × Option SharingV1Frame

abbrev pub sharing_frame_of : SharingFrameFields → SharingFrame
sharing_frame_of (x0, x1) = record { version = x0; v1 = x1 }

abbrev pub sharing_frame : Serial SharingFrame
sharing_frame =
    fields ((serial_Option serial_ℤ) & (serial_Option sharing_v1_frame)) (λ m. (m.version, m.v1))
      sharing_frame_of (λ m. refl)
