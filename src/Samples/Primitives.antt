-- ===== src/Samples/Primitives.antt =====
-- Stand-ins for sha2, hkdf, hmac, aes, cbc and p256: keys are numbers and nothing is secret.
use hi_rodrop.Prelude.{
  ℕ, ◌*◌, ◌≡◌, refl, ap, Option, none, some, [], ◌∷◌, ◌++◌, arith, length, take, drop, replicate,
  length-take, length-append, length-replicate, drop-append,
}
use hi_rodrop.Prelude.Bytes.{Bytes}
use hi_rodrop.Crypto.Primitives.{Primitives}

-- The first `n` bytes, filled up with zeros.
abbrev pub cut : ℕ → Bytes → Bytes
cut n m = take n (m ++ replicate n 0)

pub length-cut : (n : ℕ) (m : Bytes) → length (cut n m) ≡ n
length-cut n m = omega (
  arith,
  length-take n (m ++ replicate n 0),
  length-append m (replicate n 0),
  length-replicate {A = ℕ} n 0,
)

abbrev pub coordinate : ℕ → Bytes
coordinate k = k ∷ replicate 31 0

abbrev pub point : Bytes → Option ℕ
point [] = none
point (k ∷ ks) = some k

pub product_comm : (a b : ℕ) → a * b ≡ b * a
product_comm a b = grind arith

abbrev pub sample_primitives : Primitives ℕ ℕ
sample_primitives = record {
  sha256 = λ m. m;
  sha512 = cut 64;
  length-sha512 = length-cut 64;
  hkdf_expand = λ salt ikm info n. some (cut n (ikm ++ (info ++ salt)));
  hkdf_total = λ salt ikm info n h.
      (cut n (ikm ++ (info ++ salt)), refl, length-cut n (ikm ++ (info ++ salt)));
  hmac_sha256 = λ key m. some (key ++ m);
  hmac_total = λ key m. (key ++ m, refl);
  cbc_encrypt = λ key iv m. some (iv ++ m);
  cbc_decrypt = λ key iv c. some (some (drop (length iv) c));
  cbc_round_trip =
      λ key iv m hk hi. (iv ++ m, refl, ap (λ (b : Bytes). some (some b)) (drop-append iv m));
  public_key = λ k. k;
  diffie_hellman = λ a b. a * b ∷ [];
  diffie_hellman_comm = λ a b. ap (λ (n : ℕ). n ∷ []) (product_comm a b);
  affine_x = coordinate;
  affine_y = coordinate;
  length-affine_x = λ k. refl;
  length-affine_y = λ k. refl;
  from_affine = λ x y. point x;
  from_affine-affine = λ k. refl;
  to_sec1_bytes = λ k. 4 ∷ k ∷ [];
}
