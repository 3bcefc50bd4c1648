-- ===== src/Prelude/Loop.antt =====
-- Rust's `loop` over a state: a round hands out the value that breaks the loop, or `none` to go round again.
-- It takes fuel, and `stuck` is what it would return at the end of the fuel. Where a measure falls in
-- every round that goes on, fuel above the measure is enough, and then neither shows in the result.
use mathlib.Core.Path.{◌≡◌, refl, ap, ◌∙◌}
use mathlib.Core.Option.{Option, none, some}
use mathlib.Core.Logic.{◌≢◌}
use native.Mathlib.Omega.{arith}
use Prim.Native.Nat.{ℕ, zero, suc, ◌<◌}
use hi_rodrop.Prelude.Results.{Result, ok, err}
use hi_rodrop.Prelude.Exec.{focus, convert, Exec, continue, ◌>>=◌, Keeps}

module _ {ℓ κ μ} {S : Type ℓ} {E : Type κ} {A : Type μ} where
  abbrev pub go_on : Exec S E A → Result E (Option A) × S → Result E A × S
  go_on rest (ok none, s) = rest s
  go_on rest (ok (some a), s) = (ok a, s)
  go_on rest (err e, s) = (err e, s)

  unfoldable pub repeat : E → ℕ → Exec S E (Option A) → Exec S E A
  repeat stuck zero round s = (err stuck, s)
  repeat stuck (suc n) round s = go_on (repeat stuck n round) (round s)

  -- The measure of the state falls in every round after which the loop goes on.
  abbrev pub Falls : (S → ℕ) → Exec S E (Option A) → Type (ℓ ⊔ κ ⊔ μ)
  Falls measure round = (s t : S) → round s ≡ (ok none, t) → measure t < measure s

  repeat_same_from :
      (measure : S → ℕ) (round : Exec S E (Option A)) (x y : E)
      → Falls measure round
      → (n m : ℕ)
      → ((t : S) → measure t < n → measure t < m → repeat x n round t ≡ repeat y m round t)
      → (s : S) (r : Result E (Option A) × S) → round s ≡ r
      → measure s < suc n
      → measure s < suc m
      → go_on (repeat x n round) r ≡ go_on (repeat y m round) r
  repeat_same_from measure round x y f n m ih s (ok none, t) e h k =
      ih t (omega (arith, f s t e)) (omega (arith, f s t e))
  repeat_same_from measure round x y f n m ih s (ok (some a), t) e h k = refl
  repeat_same_from measure round x y f n m ih s (err z, t) e h k = refl

  pub repeat_same :
      (measure : S → ℕ) (round : Exec S E (Option A)) (x y : E)
      → Falls measure round
      → (n m : ℕ) (s : S) → measure s < n
      → measure s < m
      → repeat x n round s ≡ repeat y m round s
  unfolding repeat
  repeat_same measure round x y f zero m s h k = absurd (omega arith)
  repeat_same measure round x y f (suc n) zero s h k = absurd (omega arith)
  repeat_same measure round x y f (suc n) (suc m) s h k =
      repeat_same_from measure round x y f n m (repeat_same measure round x y f n m) s (round s)
        refl h k

  -- One round of a loop whose fuel is above the measure of the state.
  pub repeat_step :
      (measure : S → ℕ) (round : Exec S E (Option A)) (stuck : E)
      → Falls measure round
      → (s : S)
      → repeat stuck (suc (measure s)) round s
        ≡ go_on (λ t. repeat stuck (suc (measure t)) round t) (round s)
  unfolding repeat
  repeat_step measure round stuck f s = step (round s) refl
    where
      step :
          (r : Result E (Option A) × S)
          → round s ≡ r
          → go_on (repeat stuck (measure s) round) r
            ≡ go_on (λ t. repeat stuck (suc (measure t)) round t) r
      step (ok none, t) e =
          repeat_same measure round stuck stuck f (measure s) (suc (measure t)) t (f s t e)
            (omega arith)
      step (ok (some a), t) e = refl
      step (err z, t) e = refl

-- An action that brings the measure down whenever it succeeds.
abbrev pub Lowers {ℓ κ μ} :
    {S : Type ℓ} {E : Type κ} {A : Type μ} → (S → ℕ) → Exec S E A → Type (ℓ ⊔ κ ⊔ μ)
Lowers {S = S} {A = A} measure m = (s t : S) (a : A) → m s ≡ (ok a, t) → measure t < measure s

module _ {ℓ κ μ ν} {S : Type ℓ} {E : Type κ} {A : Type μ} {B : Type ν} where
  -- A round that begins with such an action and then leaves the measure alone.
  Falls-continue :
      (measure : S → ℕ) (f : A → Exec S E (Option B))
      → ((a : A) (k : ℕ) → Keeps (λ s. measure s ≡ k) (f a))
      → (k : ℕ) (r : Result E A × S) → ((a : A) (u : S) → r ≡ (ok a, u) → measure u < k)
      → (t : S) → continue f r.0 r.1 ≡ (ok none, t)
      → measure t < k
  Falls-continue measure f keep k (ok a, u) low t e =
      let same : measure (f a u).1 ≡ measure u = keep a (measure u) u refl in
      let last : measure (f a u).1 ≡ measure t =
        ap (λ (p : Result E (Option B) × S). measure p.1) e in
      omega (arith, low a u refl, same, last)
  Falls-continue measure f keep k (err x, u) low t e = absurd (cc e)

  pub Falls-bind :
      (measure : S → ℕ) (m : Exec S E A) (f : A → Exec S E (Option B))
      → Lowers measure m
      → ((a : A) (k : ℕ) → Keeps (λ s. measure s ≡ k) (f a))
      → Falls measure (m >>= f)
  Falls-bind measure m f low keep s t e =
      Falls-continue measure f keep (measure s) (m s) (λ a u h. low s u a h) t e

-- What lowers a measure of a part lowers that measure of the whole.
module _ {ℓ κ μ ν ξ} {S : Type ℓ} {T : Type κ} {E : Type μ} {F : Type ν} {A : Type ξ} where
  Lowers-convert :
      (get : S → T) (put : T → S → S) (f : E → F) (measure : T → ℕ)
      → ((u : T) (s : S) → get (put u s) ≡ u)
      → (s : S) (r : Result E A × T)
      → ((a : A) (u : T) → r ≡ (ok a, u) → measure u < measure (get s))
      → (t : S) (a : A) → ◌≡◌ {A = Result F A × S} (convert f r.0, put r.1 s) (ok a, t)
      → measure (get t) < measure (get s)
  Lowers-convert get put f measure back s (ok b, u) low t a e =
      let last : measure (get (put u s)) ≡ measure (get t) =
        ap (λ (p : Result F A × S). measure (get p.1)) e in
      omega (arith, low b u refl, last, ap measure (back u s))
  Lowers-convert get put f measure back s (err x, u) low t a e = absurd (cc e)

  pub Lowers-focus :
      (get : S → T) (put : T → S → S) (f : E → F) (measure : T → ℕ) (m : Exec T E A)
      → ((u : T) (s : S) → get (put u s) ≡ u)
      → Lowers measure m
      → Lowers (λ s. measure (get s)) (focus get put f m)
  Lowers-focus get put f measure m back low s t a e =
      Lowers-convert get put f measure back s (m (get s)) (λ b u h. low (get s) u b h) t a e

module _ {ℓ κ μ ν} {S : Type ℓ} {E : Type κ} {A : Type μ} where
  Keeps-go_on :
      (P : S → Type ν) (rest : Exec S E A)
      → Keeps P rest
      → (r : Result E (Option A) × S) → P r.1
      → P (go_on rest r).1
  Keeps-go_on P rest k (ok none, s) h = k s h
  Keeps-go_on P rest k (ok (some a), s) h = h
  Keeps-go_on P rest k (err e, s) h = h

  -- The invariant rule.
  pub Keeps-repeat :
      (P : S → Type ν) (stuck : E) (n : ℕ) (round : Exec S E (Option A))
      → Keeps P round
      → Keeps P (repeat stuck n round)
  unfolding repeat
  Keeps-repeat P stuck zero round k s h = h
  Keeps-repeat P stuck (suc n) round k s h =
      Keeps-go_on P (repeat stuck n round) (Keeps-repeat P stuck n round k) (round s) (k s h)

-- A loop that has ended well has ended in a round that broke it.
module _ {ℓ κ μ} {S : Type ℓ} {E : Type κ} {A : Type μ} where
  last_round :
      (rest : Exec S E A) (round : Exec S E (Option A)) (s t : S) (a : A)
      → ((u : S) → rest u ≡ (ok a, t) → (v : S) × (round v ≡ (ok (some a), t)))
      → (r : Result E (Option A) × S) → round s ≡ r
      → go_on rest r ≡ (ok a, t)
      → (v : S) × (round v ≡ (ok (some a), t))
  last_round rest round s t a earlier (ok none, u) h k = earlier u k
  last_round rest round s t a earlier (ok (some b), u) h k = (s, h ∙ cc k)
  last_round rest round s t a earlier (err x, u) h k = absurd (cc k)

  pub repeat_inverse :
      (stuck : E) (n : ℕ) (round : Exec S E (Option A)) (s t : S) (a : A)
      → repeat stuck n round s ≡ (ok a, t)
      → (u : S) × (round u ≡ (ok (some a), t))
  unfolding repeat
  repeat_inverse stuck zero round s t a e = absurd (cc e)
  repeat_inverse stuck (suc n) round s t a e =
      last_round (repeat stuck n round) round s t a (λ u k. repeat_inverse stuck n round u t a k)
        (round s) refl e

-- A `match` on how an action went.
abbrev pub resume {ℓ κ μ ν} :
    {S : Type ℓ} {E : Type κ} {A : Type μ} {B : Type ν}
    → (Result E A → Exec S E B)
    → Exec S E A
    → Exec S E B
resume f m s = f (m s).0 (m s).1

module _ {ℓ κ μ ν} {S : Type ℓ} {E : Type κ} {A : Type μ} {B : Type ν} where
  Falls-resumed :
      (measure : S → ℕ) (f : Result E A → Exec S E (Option B))
      → ((a : A) (k : ℕ) → Keeps (λ s. measure s ≡ k) (f (ok a)))
      → ((x : E) (s t : S) → f (err x) s ≢ (ok none, t))
      → (k : ℕ) (r : Result E A × S) → ((a : A) (u : S) → r ≡ (ok a, u) → measure u < k)
      → (t : S) → f r.0 r.1 ≡ (ok none, t)
      → measure t < k
  Falls-resumed measure f keep ends k (ok a, u) low t e =
      let same : measure (f (ok a) u).1 ≡ measure u = keep a (measure u) u refl in
      let last : measure (f (ok a) u).1 ≡ measure t =
        ap (λ (p : Result E (Option B) × S). measure p.1) e in
      omega (arith, low a u refl, same, last)
  Falls-resumed measure f keep ends k (err x, u) low t e = absurd (ends x u t e)

  -- A round that looks at the result of such an action and goes on only if it has succeeded.
  pub Falls-resume :
      (measure : S → ℕ) (m : Exec S E A) (f : Result E A → Exec S E (Option B))
      → Lowers measure m
      → ((a : A) (k : ℕ) → Keeps (λ s. measure s ≡ k) (f (ok a)))
      → ((x : E) (s t : S) → f (err x) s ≢ (ok none, t))
      → Falls measure (resume f m)
  Falls-resume measure m f low keep ends s t e =
      Falls-resumed measure f keep ends (measure s) (m s) (λ a u h. low s u a h) t e
