-- ===== src/Samples/Serial.antt =====
-- Encodings that say where they end, put together from the parts of a message.
use hi_rodrop.Prelude.{
  ℕ, zero, suc, ◌≡◌, refl, sym, ◌∙◌, ap, Bool, true, false, Option, none, some, List, [], ◌∷◌, ◌++◌,
  length, and_then,
}
use mathlib.Core.List.{append_assoc, append-nil}
use hi_rodrop.Prelude.Int.{ℤ, pos, negsuc}
use hi_rodrop.Prelude.Bytes.{Bytes}
use hi_rodrop.Wire.Codec.{Codec}

pub record Serial (A : Type 0) : Type 0 where
  pub print : A → Bytes
  pub parse : Bytes → Option (A × Bytes)
  pub parse-print : (a : A) (rest : Bytes) → parse (print a ++ rest) ≡ some (a, rest)

abbrev parse_ℕ : Bytes → Option (ℕ × Bytes)
parse_ℕ [] = none
parse_ℕ (n ∷ rest) = some (n, rest)

abbrev pub serial_ℕ : Serial ℕ
serial_ℕ = record { print = λ n. n ∷ []; parse = parse_ℕ; parse-print = λ n rest. refl }

abbrev parse_ℤ : Bytes → Option (ℤ × Bytes)
parse_ℤ (zero ∷ n ∷ rest) = some (pos n, rest)
parse_ℤ (suc t ∷ n ∷ rest) = some (negsuc n, rest)
parse_ℤ _ = none

abbrev print_ℤ : ℤ → Bytes
print_ℤ (pos n) = 0 ∷ n ∷ []
print_ℤ (negsuc n) = 1 ∷ n ∷ []

pub parse-print_ℤ : (a : ℤ) (rest : Bytes) → parse_ℤ (print_ℤ a ++ rest) ≡ some (a, rest)
parse-print_ℤ (pos n) rest = refl
parse-print_ℤ (negsuc n) rest = refl

abbrev pub serial_ℤ : Serial ℤ
serial_ℤ = record { print = print_ℤ; parse = parse_ℤ; parse-print = parse-print_ℤ }

abbrev parse_Bool : Bytes → Option (Bool × Bytes)
parse_Bool (zero ∷ rest) = some (false, rest)
parse_Bool (suc t ∷ rest) = some (true, rest)
parse_Bool _ = none

abbrev print_Bool : Bool → Bytes
print_Bool false = 0 ∷ []
print_Bool true = 1 ∷ []

pub parse-print_Bool :
    (a : Bool) (rest : Bytes) → parse_Bool (print_Bool a ++ rest) ≡ some (a, rest)
parse-print_Bool false rest = refl
parse-print_Bool true rest = refl

abbrev pub serial_Bool : Serial Bool
serial_Bool = record { print = print_Bool; parse = parse_Bool; parse-print = parse-print_Bool }

module _ {A : Type 0} (s : Serial A) where
  abbrev parse_Option : Bytes → Option (Option A × Bytes)
  parse_Option (zero ∷ rest) = some (none, rest)
  parse_Option (suc t ∷ rest) = and_then (s.parse rest) (λ p. some (some p.0, p.1))
  parse_Option _ = none

  abbrev print_Option : Option A → Bytes
  print_Option none = 0 ∷ []
  print_Option (some a) = 1 ∷ s.print a

  pub parse-print_Option :
      (o : Option A) (rest : Bytes) → parse_Option (print_Option o ++ rest) ≡ some (o, rest)
  parse-print_Option none rest = refl
  parse-print_Option (some a) rest = rw (s.parse-print a rest) refl

  abbrev pub serial_Option : Serial (Option A)
  serial_Option = record {
    print = print_Option;
    parse = parse_Option;
    parse-print = parse-print_Option;
  }

  unfoldable pub print_all : List A → Bytes
  print_all [] = []
  print_all (a ∷ xs) = s.print a ++ print_all xs

  unfoldable pub parse_all : ℕ → Bytes → Option (List A × Bytes)
  parse_all zero rest = some ([], rest)
  parse_all (suc n) rest =
      and_then (s.parse rest) λ p. and_then (parse_all n p.1) λ q. some (p.0 ∷ q.0, q.1)

  pub parse-print_all :
      (xs : List A) (rest : Bytes) → parse_all (length xs) (print_all xs ++ rest) ≡ some (xs, rest)
  unfolding print_all parse_all
  parse-print_all [] rest = refl
  parse-print_all (a ∷ xs) rest =
      rw
        (
          append_assoc (s.print a) (print_all xs) rest,
          s.parse-print a (print_all xs ++ rest),
          parse-print_all xs rest,
        )
        refl

  abbrev parse_List : Bytes → Option (List A × Bytes)
  parse_List [] = none
  parse_List (n ∷ rest) = parse_all n rest

  abbrev pub serial_List : Serial (List A)
  serial_List = record {
    print = λ xs. length xs ∷ print_all xs;
    parse = parse_List;
    parse-print = parse-print_all;
  }

  -- The whole of the bytes.
  abbrev pub codec : Codec A
  codec = record {
    encode = s.print;
    decode = λ b. and_then (s.parse b) (λ p. some p.0);
    decode-encode = λ a.
        let e : s.parse (s.print a) ≡ some (a, []) =
          ap s.parse (sym (append-nil (s.print a))) ∙ s.parse-print a [] in
        rw e refl;
  }

module _ {A B : Type 0} where
  infixr 30 ◌&◌
  abbrev pub ◌&◌ : Serial A → Serial B → Serial (A × B)
  s & t = record {
    print = λ p. s.print p.0 ++ t.print p.1;
    parse = λ b. and_then (s.parse b) λ p. and_then (t.parse p.1) λ q. some ((p.0, q.0), q.1);
    parse-print = λ p rest.
        rw
          (
            append_assoc (s.print p.0) (t.print p.1) rest,
            s.parse-print p.0 (t.print p.1 ++ rest),
            t.parse-print p.1 rest,
          )
          refl;
  }

  -- A message is taken apart into its fields and built from them.
  abbrev pub fields : Serial B → (f : A → B) → (g : B → A) → ((a : A) → g (f a) ≡ a) → Serial A
  fields s f g e = record {
    print = λ a. s.print (f a);
    parse = λ b. and_then (s.parse b) (λ p. some (g p.0, p.1));
    parse-print = λ a rest. rw (s.parse-print (f a) rest, e a) refl;
  }
