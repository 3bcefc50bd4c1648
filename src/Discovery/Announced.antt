-- ===== src/Discovery/Announced.antt =====
-- What src/quick_share.rs advertises, read back by the browser of src/quick_share_discovery.rs.
use hi_rodrop.Prelude.{
  ℕ, zero, suc, ◌+◌, ◌*◌, ◌/◌, ◌≤◌, ◌<◌, ◌≡◌, ◌⊎◌, refl, sym, ◌∙◌, false, some, List, [], ◌∷◌, ◌++◌,
  arith, ok, err, length, drop, get_or, All, All-append, length-append, take-append, drop-append,
  le→ltb, ◌↔◌, bit_and,
}
use mathlib.Core.Path.{subst}
use mathlib.Core.List.{append_assoc, append-nil}
use hi_rodrop.Prelude.Bytes.{Bytes, IsByte}
use hi_rodrop.Prelude.Utf8.{Text, IsScalar, as_bytes}
use hi_rodrop.Prelude.Utf8.RoundTrip.{as_bytes-IsByte, plus-minus, from_utf8-as_bytes}
use hi_rodrop.Discovery.External.{Base64}
use hi_rodrop.Discovery.EndpointId.{QuickShareError}
use hi_rodrop.Discovery.Advertisement.{
  QuickShareDeviceType, QuickShareAdvertisementData, device_type_code, instance_bytes,
  endpoint_info_bytes, from_parts,
}
use hi_rodrop.Discovery.Visible.{
  is_hidden, device_bits, name_bytes, device_type_of, parse_visible_name,
  decode_visible_endpoint_info,
}

-- A name that fits the length byte.
pub record IsName (name : Text) : Type 0 where
  pub scalars : All IsScalar name
  pub nonempty : 0 < length (as_bytes name)
  pub fits : length (as_bytes name) ≤ 255

module _ {A : Type 0} where
  get_or-behind :
      (n : ℕ) (xs : List A) (y d : A) (ys : List A)
      → length xs ≡ n
      → get_or (xs ++ (y ∷ ys)) n d ≡ y
  get_or-behind zero [] y d ys h = refl
  get_or-behind (suc n) [] y d ys h = absurd (omega arith)
  get_or-behind zero (x ∷ xs) y d ys h = absurd (omega arith)
  get_or-behind (suc n) (x ∷ xs) y d ys h = get_or-behind n xs y d ys (omega arith)

  drop-behind :
      (n : ℕ) (xs : List A) (y : A) (ys : List A)
      → length xs ≡ n
      → drop (suc n) (xs ++ (y ∷ ys)) ≡ ys
  drop-behind zero [] y ys h = refl
  drop-behind (suc n) [] y ys h = absurd (omega arith)
  drop-behind zero (x ∷ xs) y ys h = absurd (omega arith)
  drop-behind (suc n) (x ∷ xs) y ys h = drop-behind n xs y ys (omega arith)

visible : (t : QuickShareDeviceType) → bit_and (device_type_code t * 2) 0x10 ≡ 0
visible QuickShareDeviceType.unknown = refl
visible QuickShareDeviceType.phone = refl
visible QuickShareDeviceType.tablet = refl
visible QuickShareDeviceType.laptop = refl

pub device_type-bits :
    (t : QuickShareDeviceType) → device_type_of (bit_and (device_type_code t * 2 / 2) 0x07) ≡ t
device_type-bits QuickShareDeviceType.unknown = refl
device_type-bits QuickShareDeviceType.phone = refl
device_type-bits QuickShareDeviceType.tablet = refl
device_type-bits QuickShareDeviceType.laptop = refl

code-IsByte : (t : QuickShareDeviceType) → IsByte (device_type_code t * 2)
code-IsByte t = ground arith

-- The parts of endpoint info with bytes behind the name, as the readers take them apart.
pub record Read (metadata : Bytes) (t : QuickShareDeviceType) (name rest : Bytes) (info : Bytes)
    : Type 0 where
  pub long : 18 + length name ≤ length info
  pub shown : is_hidden info ≡ false
  pub length_byte : get_or info 17 0 ≡ length name
  pub name_at : name_bytes info (18 + length name) ≡ name
  pub rest_at : drop (18 + length name) info ≡ rest
  pub bits : device_type_of (device_bits info) ≡ t

drop-nil : (n : ℕ) → drop n (let e : Bytes = [] in e) ≡ []
drop-nil zero = refl
drop-nil (suc n) = refl

drop-add : (m n : ℕ) (xs : Bytes) → drop (m + n) xs ≡ drop n (drop m xs)
drop-add zero n xs = let e : zero + n ≡ n = omega arith in rw e
drop-add (suc m) n [] = drop-nil (suc m + n) ∙ sym (drop-nil n)
drop-add (suc m) n (x ∷ xs) =
    let e : suc m + n ≡ suc (m + n) = omega arith in rw e (drop-add m n xs)

-- The same with any first byte that does not have the hidden flag.
pub shown-Read :
    (first : ℕ) (metadata name rest : Bytes)
    → length metadata ≡ 16
    → bit_and first 0x10 ≡ 0
    → Read metadata
        (device_type_of (bit_and (first / 2) 0x07))
        name
        rest
        ((first ∷ (metadata ++ (length name ∷ name))) ++ rest)
shown-Read first metadata name rest h seen =
    rw (append_assoc metadata (length name ∷ name) rest) (record {
      long =
          omega
            (arith, length-append metadata (length name ∷ (name ++ rest)), length-append name rest);
      shown = rw seen refl;
      length_byte = get_or-behind 16 metadata (length name) 0 (name ++ rest) h;
      name_at = rw (behind, plus-minus 18 (length name)) (take-append name rest);
      rest_at = rw (drop-add 18, behind) (drop-append name rest);
      bits = refl;
    })
  where
    behind : drop 18 (first ∷ (metadata ++ (length name ∷ (name ++ rest)))) ≡ name ++ rest
    behind = drop-behind 16 metadata (length name) (name ++ rest) h

pub endpoint_info-Read :
    (metadata : Bytes) (t : QuickShareDeviceType) (name rest : Bytes)
    → length metadata ≡ 16
    → Read metadata t name rest (endpoint_info_bytes metadata t name ++ rest)
endpoint_info-Read metadata t name rest h =
    subst (λ kind. Read metadata kind name rest (endpoint_info_bytes metadata t name ++ rest))
      (device_type-bits t) (shown-Read (device_type_code t * 2) metadata name rest h (visible t))

pub info-IsByte :
    (metadata : Bytes) (t : QuickShareDeviceType) (name : Bytes)
    → length name ≤ 255
    → All IsByte metadata
    → All IsByte name
    → All IsByte (endpoint_info_bytes metadata t name)
info-IsByte metadata t name h m n =
    (code-IsByte t, All-append IsByte metadata (length name ∷ name) m (omega arith, n))

-- What the readers need of their tests at such bytes.
pub parse_visible_name-Read :
    {metadata : Bytes} {t : QuickShareDeviceType} (name : Text) {rest : Bytes} (info : Bytes)
    → All IsScalar name
    → Read metadata t (as_bytes name) rest info
    → parse_visible_name info ≡ some (name, 18 + length (as_bytes name))
unfolding parse_visible_name
parse_visible_name-Read name info s r =
    rw (le→ltb (length info) 18 (omega arith), r.shown, r.length_byte)
      (ground (arith, r.name_at, from_utf8-as_bytes name s))

module _ (base64 : Base64) where
  decode-Read :
      {metadata : Bytes} {t : QuickShareDeviceType} (name : Text) {rest : Bytes} (info : Bytes)
      → All IsScalar name
      → All IsByte info
      → Read metadata t (as_bytes name) rest info
      → decode_visible_endpoint_info base64 (base64.encode info) ≡ some (name, t)
  unfolding decode_visible_endpoint_info
  decode-Read name info s b r =
      rw
        (base64.decode-encode info b, le→ltb (length info) 18 (omega arith), r.shown, r.length_byte)
        (ground (arith, r.name_at, r.bits, from_utf8-as_bytes name s))

  -- Whatever is advertised is found: for every device type, every 16 bytes of metadata and every name of
  -- 1 to 255 bytes of UTF-8, an advertisement is built, and the browser reads the name and the type
  -- of its TXT record.
  pub decode_visible_endpoint_info-from_parts :
      (endpoint_id metadata : Bytes) (t : QuickShareDeviceType) (name : Text)
      → IsName name
      → length metadata ≡ 16
      → All IsByte metadata
      → (a : QuickShareAdvertisementData) × (from_parts base64 endpoint_id metadata t name ≡ ok a)
        × (decode_visible_endpoint_info base64 a.endpoint_info ≡ some (name, t))
  unfolding from_parts
  decode_visible_endpoint_info-from_parts endpoint_id metadata t name n h b =
      let info = endpoint_info_bytes metadata t (as_bytes name) in
      (
        record {
          endpoint_id = endpoint_id;
          instance_name = base64.encode (instance_bytes endpoint_id);
          endpoint_info = base64.encode info;
        },
        ground arith,
        decode-Read name info n.scalars
            (info-IsByte metadata t (as_bytes name) n.fits b (as_bytes-IsByte name n.scalars))
            (rw (append-nil info) at (endpoint_info-Read metadata t (as_bytes name) [] h)),
      )

  -- A name that is empty or longer than the length byte can say is refused, and no other.
  pub from_parts_refuses :
      (endpoint_id metadata : Bytes) (t : QuickShareDeviceType) (name : Text)
      → (from_parts base64 endpoint_id metadata t name ≡ err QuickShareError.invalid_device_name)
        ↔ ((length (as_bytes name) ≡ 0) ⊎ (255 < length (as_bytes name)))
  unfolding from_parts
  from_parts_refuses endpoint_id metadata t name = ground arith
