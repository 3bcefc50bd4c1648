-- ===== src/Prelude/Exec.antt =====
-- A function that takes `&mut` state and may fail: what was done before a failure stays done, so the
-- state comes back beside the error too. `focus` runs an action on a part of a larger state.
use mathlib.Core.Path.{◌≡◌, refl, sym, ap, ◌∙◌}
use hi_rodrop.Prelude.Results.{Result, ok, err}

abbrev pub Exec {ℓ κ μ} : Type ℓ → Type κ → Type μ → Type (ℓ ⊔ κ ⊔ μ)
Exec S E A = S → Result E A × S

module _ {ℓ κ μ} {S : Type ℓ} {E : Type κ} {A : Type μ} where
  abbrev pub pure : A → Exec S E A
  pure a s = (ok a, s)

  abbrev pub raise : E → Exec S E A
  raise e s = (err e, s)

  abbrev pub lift : Result E A → Exec S E A
  lift r s = (r, s)

  abbrev pub gets : (S → A) → Exec S E A
  gets f s = (ok (f s), s)

module _ {ℓ κ μ ν} {S : Type ℓ} {E : Type κ} {A : Type μ} {B : Type ν} where
  abbrev pub continue : (A → Exec S E B) → Result E A → Exec S E B
  continue f (ok a) s = f a s
  continue f (err e) s = (err e, s)

  infixl 5 ◌>>=◌ ◌>>◌
  abbrev pub ◌>>=◌ : Exec S E A → (A → Exec S E B) → Exec S E B
  ◌>>=◌ m f s = continue f (m s).0 (m s).1

  abbrev pub ◌>>◌ : Exec S E A → Exec S E B → Exec S E B
  m >> k = m >>= λ _. k

module _ {ℓ κ} {S : Type ℓ} {E : Type κ} where
  abbrev pub modify : (S → S) → Exec S E (Unit {0})
  modify f s = (ok tt, f s)

-- Errors convert on the way out, as `?` does.
abbrev pub convert {ℓ κ μ} :
    {E : Type ℓ} {F : Type κ} {A : Type μ} → (E → F) → Result E A → Result F A
convert f (ok a) = ok a
convert f (err e) = err (f e)

abbrev pub focus {ℓ κ μ ν ξ} :
    {S : Type ℓ} {T : Type κ} {E : Type μ} {F : Type ν} {A : Type ξ}
    → (S → T)
    → (T → S → S)
    → (E → F)
    → Exec T E A
    → Exec S F A
focus get put f m s = (convert f (m (get s)).0, put (m (get s)).1 s)

-- A step that succeeds hands its value and its state on; one that fails ends the block.
pub bind_ok {ℓ κ μ ν} :
    {S : Type ℓ} {E : Type κ} {A : Type μ} {B : Type ν} (m : Exec S E A) (f : A → Exec S E B)
    (s t : S) (a : A)
    → m s ≡ (ok a, t)
    → (m >>= f) s ≡ f a t
bind_ok m f s t a e = λ i. continue f (e i).0 (e i).1

pub bind_err {ℓ κ μ ν} :
    {S : Type ℓ} {E : Type κ} {A : Type μ} {B : Type ν} (m : Exec S E A) (f : A → Exec S E B)
    (s t : S) (x : E)
    → m s ≡ (err x, t)
    → (m >>= f) s ≡ (err x, t)
bind_err m f s t x e = λ i. continue f (e i).0 (e i).1

-- A property of the state that an action keeps, whether it succeeds or fails.
abbrev pub Keeps {ℓ κ μ ν} :
    {S : Type ℓ} {E : Type κ} {A : Type μ} → (S → Type ν) → Exec S E A → Type (ℓ ⊔ ν)
Keeps {S = S} P m = (s : S) → P s → P (m s).1

Keeps-continue {ℓ κ μ ν ξ} :
    {S : Type ℓ} {E : Type κ} {A : Type μ} {B : Type ν} (P : S → Type ξ) (f : A → Exec S E B)
    → ((a : A) → Keeps P (f a))
    → (r : Result E A) → Keeps P (continue f r)
Keeps-continue P f k (ok a) s h = k a s h
Keeps-continue P f k (err e) s h = h

pub Keeps-bind {ℓ κ μ ν ξ} :
    {S : Type ℓ} {E : Type κ} {A : Type μ} {B : Type ν} (P : S → Type ξ) (first : Exec S E A)
    (later : A → Exec S E B)
    → Keeps P first
    → ((result : A) → Keeps P (later result))
    → Keeps P (first >>= later)
Keeps-bind P first later h k s p = Keeps-continue P later k (first s).0 (first s).1 (h s p)

-- What an action returns, when it returns.
abbrev pub Holds {ℓ κ μ} : {E : Type ℓ} {A : Type κ} → (A → Type μ) → Result E A → Type μ
Holds P (ok a) = P a
Holds P (err e) = Unit {μ}

abbrev pub Ensures {ℓ κ μ ν} :
    {S : Type ℓ} {E : Type κ} {A : Type μ} → (A → Type ν) → Exec S E A → Type (ℓ ⊔ ν)
Ensures {S = S} P m = (s : S) → Holds P (m s).0

Ensures-continue {ℓ κ μ ν ξ ζ} :
    {S : Type ℓ} {E : Type κ} {A : Type μ} {B : Type ν} (P : A → Type ξ) (Q : B → Type ζ)
    (f : A → Exec S E B)
    → ((a : A) → P a → Ensures Q (f a))
    → (r : Result E A) (s : S) → Holds P r
    → Holds Q (continue f r s).0
Ensures-continue P Q f k (ok a) s h = k a h s
Ensures-continue P Q f k (err e) s h = tt

pub Ensures-bind {ℓ κ μ ν ξ ζ} :
    {S : Type ℓ} {E : Type κ} {A : Type μ} {B : Type ν} (P : A → Type ξ) (Q : B → Type ζ)
    (m : Exec S E A) (f : A → Exec S E B)
    → Ensures P m
    → ((a : A) → P a → Ensures Q (f a))
    → Ensures Q (m >>= f)
Ensures-bind P Q m f h k s = Ensures-continue P Q f k (m s).0 (m s).1 (h s)

-- How a block that has succeeded began.
pub bind_inverse {ℓ κ μ ν} :
    {S : Type ℓ} {E : Type κ} {A : Type μ} {B : Type ν} (m : Exec S E A) (f : A → Exec S E B)
    (s t : S) (b : B)
    → (m >>= f) s ≡ (ok b, t)
    → (a : A) × (u : S) × (m s ≡ (ok a, u)) × (f a u ≡ (ok b, t))
bind_inverse {S = S} {E} {A} {B} m f s t b e = from (m s) refl e
  where
    from :
        (r : Result E A × S)
        → m s ≡ r
        → continue f r.0 r.1 ≡ (ok b, t)
        → (a : A) × (u : S) × (m s ≡ (ok a, u)) × (f a u ≡ (ok b, t))
    from (ok a, u) h k = (a, u, h, k)
    from (err x, u) h k = absurd (cc k)

-- How an action on a part that has succeeded went there.
pub focus_inverse {ℓ κ μ ν ξ} :
    {S : Type ℓ} {T : Type κ} {E : Type μ} {F : Type ν} {A : Type ξ} (get : S → T) (put : T → S → S)
    (f : E → F) (m : Exec T E A) (s t : S) (a : A)
    → focus get put f m s ≡ (ok a, t)
    → (u : T) × (m (get s) ≡ (ok a, u)) × (t ≡ put u s)
focus_inverse {S = S} {T} {E} {F} {A} get put f m s t a e = from (m (get s)) refl e
  where
    from :
        (r : Result E A × T)
        → m (get s) ≡ r
        → ◌≡◌ {A = Result F A × S} (convert f r.0, put r.1 s) (ok a, t)
        → (u : T) × (m (get s) ≡ (ok a, u)) × (t ≡ put u s)
    from (ok b, u) h k = (u, h ∙ cc k, ap (λ (p : Result F A × S). p.1) (sym k))
    from (err x, u) h k = absurd (cc k)

-- An action on a part that goes so there.
pub focus_ok {ℓ κ μ ν ξ} :
    {S : Type ℓ} {T : Type κ} {E : Type μ} {F : Type ν} {A : Type ξ} (get : S → T) (put : T → S → S)
    (f : E → F) (m : Exec T E A) (s : S) (u : T) (a : A)
    → m (get s) ≡ (ok a, u)
    → focus get put f m s ≡ (ok a, put u s)
focus_ok get put f m s u a e = λ i. (convert f (e i).0, put (e i).1 s)

-- The rule of a block whose later part relies on what the earlier part returns.
module _ {ℓ κ μ ν ξ ζ} {S : Type ℓ} {E : Type κ} {A : Type μ} {B : Type ν} (P : S → Type ξ)
    (Q : A → Type ζ) where
  Keeps-continue_given :
      (f : A → Exec S E B)
      → ((a : A) → Q a → Keeps P (f a))
      → (r : Result E A) (s : S) → Holds Q r
      → P s
      → P (continue f r s).1
  Keeps-continue_given f k (ok a) s q h = k a q s h
  Keeps-continue_given f k (err e) s q h = h

  pub Keeps-bind_given :
      (m : Exec S E A) (f : A → Exec S E B)
      → Keeps P m
      → Ensures Q m
      → ((a : A) → Q a → Keeps P (f a))
      → Keeps P (m >>= f)
  Keeps-bind_given m f h q k s p = Keeps-continue_given f k (m s).0 (m s).1 (q s) (h s p)

module _ {ℓ κ μ ν} {S : Type ℓ} {E : Type κ} {A : Type μ} {B : Type ν} where
  -- A block that promises something by its later part alone.
  pub Ensures-after {ξ} :
      (Q : B → Type ξ) (m : Exec S E A) (f : A → Exec S E B)
      → ((a : A) → Ensures Q (f a))
      → Ensures Q (m >>= f)
  Ensures-after Q m f h s = from (m s).0 (m s).1
    where
      from : (r : Result E A) (t : S) → Holds Q (continue f r t).0
      from (ok a) t = h a t
      from (err e) t = tt

  -- A block has failed in its first step, or has come to its later part.
  pub bind_cases {ξ} :
      (Q : Result E B × S → Type ξ) (m : Exec S E A) (f : A → Exec S E B) (s : S)
      → ((e : E) (t : S) → m s ≡ (err e, t) → Q (err e, t))
      → ((a : A) (t : S) → m s ≡ (ok a, t) → Q (f a t))
      → Q ((m >>= f) s)
  bind_cases Q m f s h k = from (m s) refl
    where
      from : (r : Result E A × S) → m s ≡ r → Q (continue f r.0 r.1)
      from (ok a, t) e = k a t e
      from (err x, t) e = h x t e
