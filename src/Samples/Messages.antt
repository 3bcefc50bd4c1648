-- ===== src/Samples/Messages.antt =====
-- The messages of the handshake and of the envelope, field by field.
use hi_rodrop.Prelude.{refl, Option, List}
use hi_rodrop.Prelude.Int.{ℤ}
use hi_rodrop.Prelude.Bytes.{Bytes}
use hi_rodrop.Prelude.Utf8.{Text}
use hi_rodrop.Wire.{
  Ukey2Message, CipherCommitment, Ukey2ClientInit, Ukey2ServerInit, Ukey2ClientFinished,
  EcP256PublicKey, GenericPublicKey, SecureMessage, SecureHeader, HeaderAndBody, GcmMetadata,
  DeviceToDeviceMessage,
}
use hi_rodrop.Crypto.Primitives.{Codecs}
use hi_rodrop.Samples.Frames.{offline_frame}
use hi_rodrop.Samples.Serial.{
  Serial, serial_ℕ, serial_ℤ, serial_Option, serial_List, ◌&◌, fields, codec,
}

abbrev pub Ukey2MessageFields : Type 0
Ukey2MessageFields = Option ℤ × Option Bytes

abbrev pub ukey2_message_of : Ukey2MessageFields → Ukey2Message
ukey2_message_of (x0, x1) = record { message_type = x0; message_data = x1 }

abbrev pub ukey2_message : Serial Ukey2Message
ukey2_message =
    fields ((serial_Option serial_ℤ) & (serial_Option (serial_List serial_ℕ)))
      (λ m. (m.message_type, m.message_data)) ukey2_message_of (λ m. refl)

abbrev pub CipherCommitmentFields : Type 0
CipherCommitmentFields = Option ℤ × Option Bytes

abbrev pub cipher_commitment_of : CipherCommitmentFields → CipherCommitment
cipher_commitment_of (x0, x1) = record { handshake_cipher = x0; commitment = x1 }

abbrev pub cipher_commitment : Serial CipherCommitment
cipher_commitment =
    fields ((serial_Option serial_ℤ) & (serial_Option (serial_List serial_ℕ)))
      (λ m. (m.handshake_cipher, m.commitment)) cipher_commitment_of (λ m. refl)

abbrev pub Ukey2ClientInitFields : Type 0
Ukey2ClientInitFields = Option ℤ × (Option Bytes × (List CipherCommitment × Option Text))

abbrev pub ukey2_client_init_of : Ukey2ClientInitFields → Ukey2ClientInit
ukey2_client_init_of (x0, (x1, (x2, x3))) = record {
  version = x0;
  random = x1;
  cipher_commitments = x2;
  next_protocol = x3;
}

abbrev pub ukey2_client_init : Serial Ukey2ClientInit
ukey2_client_init =
    fields
      ((serial_Option serial_ℤ)
        & (serial_Option (serial_List serial_ℕ))
        & (serial_List cipher_commitment)
        & (serial_Option (serial_List serial_ℕ)))
      (λ m. (m.version, (m.random, (m.cipher_commitments, m.next_protocol)))) ukey2_client_init_of
      (λ m. refl)

abbrev pub Ukey2ServerInitFields : Type 0
Ukey2ServerInitFields = Option ℤ × (Option Bytes × (Option ℤ × Option Bytes))

abbrev pub ukey2_server_init_of : Ukey2ServerInitFields → Ukey2ServerInit
ukey2_server_init_of (x0, (x1, (x2, x3))) = record {
  version = x0;
  random = x1;
  handshake_cipher = x2;
  public_key = x3;
}

abbrev pub ukey2_server_init : Serial Ukey2ServerInit
ukey2_server_init =
    fields
      ((serial_Option serial_ℤ)
        & (serial_Option (serial_List serial_ℕ))
        & (serial_Option serial_ℤ)
        & (serial_Option (serial_List serial_ℕ)))
      (λ m. (m.version, (m.random, (m.handshake_cipher, m.public_key)))) ukey2_server_init_of
      (λ m. refl)

abbrev pub Ukey2ClientFinishedFields : Type 0
Ukey2ClientFinishedFields = Option Bytes

abbrev pub ukey2_client_finished_of : Ukey2ClientFinishedFields → Ukey2ClientFinished
ukey2_client_finished_of x0 = record { public_key = x0 }

abbrev pub ukey2_client_finished : Serial Ukey2ClientFinished
ukey2_client_finished =
    fields ((serial_Option (serial_List serial_ℕ))) (λ m. m.public_key) ukey2_client_finished_of
      (λ m. refl)

abbrev pub EcP256PublicKeyFields : Type 0
EcP256PublicKeyFields = Bytes × Bytes

abbrev pub ec_p256_public_key_of : EcP256PublicKeyFields → EcP256PublicKey
ec_p256_public_key_of (x0, x1) = record { x = x0; y = x1 }

abbrev pub ec_p256_public_key : Serial EcP256PublicKey
ec_p256_public_key =
    fields ((serial_List serial_ℕ) & (serial_List serial_ℕ)) (λ m. (m.x, m.y)) ec_p256_public_key_of
      (λ m. refl)

abbrev pub GenericPublicKeyFields : Type 0
GenericPublicKeyFields = Option ℤ × Option EcP256PublicKey

abbrev pub generic_public_key_of : GenericPublicKeyFields → GenericPublicKey
generic_public_key_of (x0, x1) = record { key_type = x0; ec_p256_public_key = x1 }

abbrev pub generic_public_key : Serial GenericPublicKey
generic_public_key =
    fields ((serial_Option serial_ℤ) & (serial_Option ec_p256_public_key))
      (λ m. (m.key_type, m.ec_p256_public_key)) generic_public_key_of (λ m. refl)

abbrev pub SecureMessageFields : Type 0
SecureMessageFields = Bytes × Bytes

abbrev pub secure_message_of : SecureMessageFields → SecureMessage
secure_message_of (x0, x1) = record { header_and_body = x0; signature = x1 }

abbrev pub secure_message : Serial SecureMessage
secure_message =
    fields ((serial_List serial_ℕ) & (serial_List serial_ℕ)) (λ m. (m.header_and_body, m.signature))
      secure_message_of (λ m. refl)

abbrev pub SecureHeaderFields : Type 0
SecureHeaderFields = Option ℤ × (Option ℤ × (Option Bytes × Option Bytes))

abbrev pub secure_header_of : SecureHeaderFields → SecureHeader
secure_header_of (x0, (x1, (x2, x3))) = record {
  signature_scheme = x0;
  encryption_scheme = x1;
  iv = x2;
  public_metadata = x3;
}

abbrev pub secure_header : Serial SecureHeader
secure_header =
    fields
      ((serial_Option serial_ℤ)
        & (serial_Option serial_ℤ)
        & (serial_Option (serial_List serial_ℕ))
        & (serial_Option (serial_List serial_ℕ)))
      (λ m. (m.signature_scheme, (m.encryption_scheme, (m.iv, m.public_metadata)))) secure_header_of
      (λ m. refl)

abbrev pub HeaderAndBodyFields : Type 0
HeaderAndBodyFields = SecureHeader × Bytes

abbrev pub header_and_body_of : HeaderAndBodyFields → HeaderAndBody
header_and_body_of (x0, x1) = record { header = x0; body = x1 }

abbrev pub header_and_body : Serial HeaderAndBody
header_and_body =
    fields (secure_header & (serial_List serial_ℕ)) (λ m. (m.header, m.body)) header_and_body_of
      (λ m. refl)

abbrev pub GcmMetadataFields : Type 0
GcmMetadataFields = Option ℤ × Option ℤ

abbrev pub gcm_metadata_of : GcmMetadataFields → GcmMetadata
gcm_metadata_of (x0, x1) = record { metadata_type = x0; version = x1 }

abbrev pub gcm_metadata : Serial GcmMetadata
gcm_metadata =
    fields ((serial_Option serial_ℤ) & (serial_Option serial_ℤ)) (λ m. (m.metadata_type, m.version))
      gcm_metadata_of (λ m. refl)

abbrev pub DeviceToDeviceMessageFields : Type 0
DeviceToDeviceMessageFields = Option Bytes × Option ℤ

abbrev pub device_to_device_message_of : DeviceToDeviceMessageFields → DeviceToDeviceMessage
device_to_device_message_of (x0, x1) = record { message = x0; sequence_number = x1 }

abbrev pub device_to_device_message : Serial DeviceToDeviceMessage
device_to_device_message =
    fields ((serial_Option (serial_List serial_ℕ)) & (serial_Option serial_ℤ))
      (λ m. (m.message, m.sequence_number)) device_to_device_message_of (λ m. refl)

abbrev pub sample_codecs : Codecs
sample_codecs = record {
  ukey2_message = codec ukey2_message;
  client_init = codec ukey2_client_init;
  server_init = codec ukey2_server_init;
  client_finished = codec ukey2_client_finished;
  generic_public_key = codec generic_public_key;
  secure_message = codec secure_message;
  header_and_body = codec header_and_body;
  gcm_metadata = codec gcm_metadata;
  device_message = codec device_to_device_message;
  offline_frame = codec offline_frame;
}
