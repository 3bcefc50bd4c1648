-- ===== src/Storage/SafeNames.antt =====
-- Which names src/quick_share_receiver.rs lets through.
use hi_rodrop.Prelude.{
  ℕ, ◌≡◌, refl, sym, ◌∙◌, ◌↔◌, ◌⊎◌, inl, inr, Bool, false, [], ◌∷◌, ◌++◌, ◌||◌, ◌==◌, arith, ok,
  map, length, All, Bool-cases, length-map,
}
use native.Mathlib.Decide.{ℕ_discrete}
use mathlib.Core.List.{append_assoc, append-nil}
use mathlib.Core.Path.{subst}
use hi_rodrop.Prelude.Bytes.{eq_bytes}
use hi_rodrop.Prelude.Utf8.{Text}
use hi_rodrop.Storage.Names.{
  is_separator, is_control, is_forbidden, replace_char, is_blank, is_dots, sanitize_path_component,
  last_segment, sanitize_file_name,
}

-- No separator, no control character and none that a file system reserves.
abbrev pub IsClean : ℕ → Type 0
IsClean c = (is_control c ≡ false) × (is_forbidden c ≡ false)

-- A name for one entry of a directory.
pub record IsSafe (s : Text) : Type 0 where
  pub clean : All IsClean s
  pub no_dots : is_dots s ≡ false
  pub not_blank : is_blank s ≡ false

or_false : (a b : Bool) → (a || b) ≡ false → (a ≡ false) × (b ≡ false)
or_false a b h = ground arith

replace_char-IsClean : (c : ℕ) → IsClean (replace_char c)
unfolding replace_char
replace_char-IsClean c = elim (Bool-cases (is_control c || is_forbidden c)) [
  | inl e ↦ rw e (refl, refl)
  | inr e ↦ rw e (or_false (is_control c) (is_forbidden c) e)
]

map-IsClean : (s : Text) → All IsClean (map replace_char s)
map-IsClean [] = tt
map-IsClean (c ∷ cs) = (replace_char-IsClean c, map-IsClean cs)

clean_unchanged : (c : ℕ) → IsClean c → replace_char c ≡ c
unfolding replace_char
clean_unchanged c h = rw (h.0, h.1)

map-clean : (s : Text) → All IsClean s → map replace_char s ≡ s
map-clean [] h = refl
map-clean (c ∷ cs) h = rw (clean_unchanged c h.0, map-clean cs h.1)

replace_char-cases : (c : ℕ) → (replace_char c ≡ c) ⊎ (replace_char c ≡ 95)
unfolding replace_char
replace_char-cases c = elim (Bool-cases (is_control c || is_forbidden c)) [
  | inl e ↦ inr (rw e)
  | inr e ↦ inl (rw e)
]

-- Only a dot becomes a dot.
replace_char-dot : (c : ℕ) → (replace_char c == 46) ≡ (c == 46)
replace_char-dot c = elim (ℕ_discrete c 46) [
  | yes e ↦ rw e (unfold replace_char in refl)
  | no h ↦ ground (arith, replace_char-cases c)
]

is_dots-map : (s : Text) → is_dots (map replace_char s) ≡ is_dots s
unfolding eq_bytes
is_dots-map [] = refl
is_dots-map (c ∷ []) = rw (replace_char-dot c)
is_dots-map (c ∷ d ∷ []) = rw (replace_char-dot c, replace_char-dot d)
is_dots-map (c ∷ d ∷ e ∷ s) = rw (replace_char-dot c, replace_char-dot d)

-- A path component that is let through is a safe name, as long as the one that was sent.
pub sanitize_path_component-IsSafe :
    (component s : Text)
    → sanitize_path_component component ≡ ok s
    → IsSafe s × (length s ≡ length component)
unfolding sanitize_path_component
sanitize_path_component-IsSafe component s h = elim (Bool-cases (is_dots component)) [
  | inl e ↦ cc (rw e at h)
  | inr e ↦ elim (Bool-cases (is_blank (map replace_char component))) [
    | inl b ↦ cc (rw (e, b) at h)
    | inr b ↦
        let same : map replace_char component ≡ s = cc (rw (e, b) at h) in
        subst (λ t. IsSafe t × (length t ≡ length component)) same
          (
            record {
              clean = map-IsClean component;
              no_dots = rw (is_dots-map component) e;
              not_blank = b;
            },
            length-map component replace_char,
          )
  ]
]

clean_no_separator : (c : ℕ) → IsClean c → is_separator c ≡ false
clean_no_separator c h = ground arith

last_segment-clean : (s current : Text) → All IsClean s → last_segment current s ≡ current ++ s
unfolding last_segment
last_segment-clean [] current h = sym (append-nil current)
last_segment-clean (c ∷ s) current h =
    rw (clean_no_separator c h.0)
      (last_segment-clean s (current ++ c ∷ []) h.1 ∙ append_assoc current (c ∷ []) s)

-- Whatever name the peer sent, what is let through has no separator, no control or reserved
-- character, is not blank and is neither empty nor `.` nor `..`.
pub sanitize_file_name-IsSafe : (name s : Text) → sanitize_file_name name ≡ ok s → IsSafe s
unfolding sanitize_file_name
sanitize_file_name-IsSafe name s h = elim (Bool-cases (is_dots (last_segment [] name))) [
  | inl e ↦ cc (rw e at h)
  | inr e ↦ (sanitize_path_component-IsSafe (last_segment [] name) s (rw e at h)).0
]

sanitize_file_name_safe : (s : Text) → IsSafe s → sanitize_file_name s ≡ ok s
unfolding sanitize_file_name sanitize_path_component
sanitize_file_name_safe s h =
    rw (last_segment-clean s [] h.clean, h.no_dots, h.no_dots, map-clean s h.clean, h.not_blank)

-- The file names that are kept as they are, are exactly the safe ones.
pub sanitize_file_name_iff : (s : Text) → IsSafe s ↔ (sanitize_file_name s ≡ ok s)
sanitize_file_name_iff s = (sanitize_file_name_safe s, sanitize_file_name-IsSafe s s)
