-- ===== src/Wire/Codec.antt =====
-- prost's `encode_to_vec` and `decode`, which the program calls for each message and does not
-- implement. The law is prost's promise that a message decodes from its own encoding.
use hi_rodrop.Prelude.{◌≡◌, Option, some}
use hi_rodrop.Prelude.Bytes.{Bytes}

pub record Codec (M : Type 0) : Type 0 where
  pub encode : M → Bytes
  pub decode : Bytes → Option M
  pub decode-encode : (m : M) → decode (encode m) ≡ some m
