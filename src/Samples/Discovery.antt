-- ===== src/Samples/Discovery.antt =====
-- Stand-ins for base64 and AES-GCM: the text is the bytes, and a message gets a tag of 16 zeros.
use hi_rodrop.Prelude.{
  ◌+◌, ◌-◌, ◌≡◌, refl, some, ap, ◌++◌, arith, length, take, replicate, take-append, length-append,
}
use hi_rodrop.Prelude.Bytes.{Bytes}
use hi_rodrop.Discovery.External.{Base64, Aead}

abbrev pub sample_base64 : Base64
sample_base64 = record { encode = λ b. b; decode = λ t. some t; decode-encode = λ b h. refl }

abbrev tagged : Bytes → Bytes
tagged m = m ++ replicate 16 0

abbrev untagged : Bytes → Bytes
untagged c = take (length c - 16) c

pub untagged-tagged : (m : Bytes) → untagged (tagged m) ≡ m
untagged-tagged m =
    let n : length (tagged m) - 16 ≡ length m = omega (arith, length-append m (replicate 16 0)) in
    rw n (take-append m (replicate 16 0))

pub length-tagged : (m : Bytes) → length (tagged m) ≡ length m + 16
length-tagged m = omega (arith, length-append m (replicate 16 0))

abbrev pub sample_aead : Aead
sample_aead = record {
  encrypt = λ key nonce m aad. tagged m;
  decrypt = λ key nonce c aad. some (untagged c);
  decrypt-encrypt = λ key nonce m aad hk hn. ap some (untagged-tagged m);
  length-encrypt = λ key nonce m aad. length-tagged m;
}
