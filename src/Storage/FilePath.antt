-- ===== src/Storage/FilePath.antt =====
-- `PathBuf` of std as its list of components, and `push`, which may replace the whole path.
use hi_rodrop.Prelude.{
  ℕ, ◌≡◌, refl, sym, ◌∙◌, ap, Bool, true, false, List, [], ◌∷◌, ◌++◌, ◌&&◌, ◌||◌, ◌==◌, arith, All,
  if◌then◌else◌, ◌↔◌,
}
use mathlib.Core.List.{append_assoc, append-nil}
use hi_rodrop.Prelude.Bytes.{eq_bytes, eq_bytes_iff}
use hi_rodrop.Prelude.Utf8.{Text}
use hi_rodrop.Storage.SafeNames.{IsClean, IsSafe}

abbrev pub FilePath : Type 0
FilePath = List Text

-- Empty components and `.` are no components.
abbrev keep_component : Text → FilePath → FilePath
keep_component c rest = if eq_bytes c [] || eq_bytes c (46 ∷ []) then rest else c ∷ rest

unfoldable pub components : Text → Text → FilePath
components current [] = keep_component current []
components current (c ∷ cs) =
    let here = keep_component current (components [] cs) in
    let on = components (current ++ c ∷ []) cs in if c == 47 then here else on

abbrev is_absolute : Text → Bool
is_absolute [] = false
is_absolute (c ∷ cs) = c == 47

unfoldable pub join : FilePath → Text → FilePath
join directory name =
    if is_absolute name then components [] name else directory ++ components [] name

unfoldable pub eq_path : FilePath → FilePath → Bool
eq_path [] [] = true
eq_path (a ∷ p) (b ∷ q) = eq_bytes a b && eq_path p q
eq_path _ _ = false

pub eq_path_iff : (p q : FilePath) → (eq_path p q ≡ true) ↔ (p ≡ q)
unfolding eq_path
eq_path_iff [] [] = ground arith
eq_path_iff [] (b ∷ q) = ground arith
eq_path_iff (a ∷ p) [] = ground arith
eq_path_iff (a ∷ p) (b ∷ q) = ground (arith, eq_bytes_iff a b, eq_path_iff p q)

no_slash : (c : ℕ) → IsClean c → (c == 47) ≡ false
no_slash c h = ground arith

components-clean :
    (s current : Text) → All IsClean s → components current s ≡ keep_component (current ++ s) []
unfolding components
components-clean [] current h = ap (λ (t : Text). keep_component t []) (sym (append-nil current))
components-clean (c ∷ cs) current h = rw (no_slash c h.0) (
    components-clean cs (current ++ c ∷ []) h.1
    ∙ ap (λ (t : Text). keep_component t []) (append_assoc current (c ∷ []) cs))

one_component : (s : Text) → IsSafe s → components [] s ≡ s ∷ []
one_component s h = ground (arith, components-clean s [] h.clean, h.no_dots)

join-relative :
    (directory : FilePath) (s : Text)
    → is_absolute s ≡ false
    → join directory s ≡ directory ++ components [] s
unfolding join
join-relative directory s h = rw h refl

safe_is_relative : (s : Text) → IsSafe s → is_absolute s ≡ false
safe_is_relative [] h = refl
safe_is_relative (c ∷ cs) h = no_slash c h.clean.0

-- A safe name is joined to a directory as one entry of it.
pub join-IsSafe :
    (directory : FilePath) (s : Text) → IsSafe s → join directory s ≡ directory ++ (s ∷ [])
join-IsSafe directory s h =
    join-relative directory s (safe_is_relative s h)
    ∙ ap (λ (p : FilePath). directory ++ p) (one_component s h)
