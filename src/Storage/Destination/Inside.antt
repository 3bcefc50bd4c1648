-- ===== src/Storage/Destination/Inside.antt =====
-- The names that `unique_destination` of src/quick_share_receiver.rs puts together are safe ones.
use hi_rodrop.Prelude.{
  ℕ, ◌<◌, ◌-◌, ◌^◌, ◌≡◌, inl, inr, refl, false, Option, none, some, [], ◌∷◌, ◌++◌, arith, All,
  All-append, length, length-append, Bool-cases, Option-cases, ◌==◌,
}
use hi_rodrop.Prelude.Bytes.{eq_bytes}
use hi_rodrop.Prelude.Utf8.{Text, chars}
use hi_rodrop.Prelude.Decimal.{decimal, IsDigit, decimal-IsDigit}
use hi_rodrop.Storage.Names.{is_dots, is_blank}
use hi_rodrop.Storage.SafeNames.{IsClean, IsSafe}
use hi_rodrop.Storage.FilePath.{FilePath, join, join-IsSafe}
use hi_rodrop.Storage.Disk.{Disk, exists}
use hi_rodrop.Storage.Destination.{
  put_before, split_last_dot, stem_of_parts, stem_and_extension, candidate_name, find_free,
  last_resort, unique_destination,
}
use hi_rodrop.Storage.Destination.Free.{find_free-free}

pub digit-IsClean : (s : Text) → All IsDigit s → All IsClean s
digit-IsClean [] h = tt
digit-IsClean (c ∷ cs) h = (ground (arith, h.0), digit-IsClean cs h.1)

pub long_no_dots : (s : Text) → 2 < length s → is_dots s ≡ false
unfolding eq_bytes
long_no_dots [] h = absurd (omega (arith, h))
long_no_dots (a ∷ []) h = absurd (omega (arith, h))
long_no_dots (a ∷ b ∷ []) h = absurd (omega (arith, h))
long_no_dots (a ∷ b ∷ c ∷ s) h = ground arith

is_blank-append : (s t : Text) → is_blank t ≡ false → is_blank (s ++ t) ≡ false
unfolding is_blank
is_blank-append [] t h = h
is_blank-append (c ∷ s) t h = ground (arith, is_blank-append s t h)

-- The parts of a name are as clean as the name.
abbrev AreClean : Text × Option Text → Type 0
AreClean (stem, none) = All IsClean stem
AreClean (stem, some extension) = All IsClean stem × All IsClean extension

abbrev PartsClean : Option (Text × Text) → Type 0
PartsClean none = Unit {0}
PartsClean (some (before, after)) = All IsClean before × All IsClean after

put_before-clean :
    (c : ℕ) (cs : Text) (o : Option (Text × Text))
    → IsClean c
    → All IsClean cs
    → PartsClean o
    → PartsClean (put_before c cs o)
put_before-clean c cs (some (before, after)) hc hs h = ((hc, h.0), h.1)
put_before-clean c cs none hc hs h = elim (Bool-cases (c == 46)) [
  | inl e ↦ rw e (tt, hs)
  | inr e ↦ rw e tt
]

split_last_dot-clean : (s : Text) → All IsClean s → PartsClean (split_last_dot s)
unfolding split_last_dot
split_last_dot-clean [] h = tt
split_last_dot-clean (c ∷ cs) h =
    put_before-clean c cs (split_last_dot cs) h.0 h.1 (split_last_dot-clean cs h.1)

stem_of_parts-clean :
    (s : Text) (o : Option (Text × Text))
    → All IsClean s
    → PartsClean o
    → AreClean (stem_of_parts s o)
stem_of_parts-clean s none h p = h
stem_of_parts-clean s (some (before, after)) h p = elim (Bool-cases (eq_bytes before [])) [
  | inl e ↦ rw e h
  | inr e ↦ rw e p
]

stem_and_extension-clean : (s : Text) → IsSafe s → AreClean (stem_and_extension s)
unfolding stem_and_extension
stem_and_extension-clean s h =
    rw (h.no_dots)
      (stem_of_parts-clean s (split_last_dot s) h.clean (split_last_dot-clean s h.clean))

candidate_name-IsSafe :
    (stem : Text) (extension : Option Text) (index : ℕ)
    → AreClean (stem, extension)
    → IsSafe (candidate_name stem extension index)
unfolding candidate_name is_blank
candidate_name-IsSafe stem none index h =
    let tail : Text = decimal index ++ chars ")" in
    record {
      clean = All-append IsClean stem (chars " (" ++ tail) h (
        (refl, refl),
        (
          (refl, refl),
          All-append IsClean (decimal index) (chars ")")
              (digit-IsClean (decimal index) (decimal-IsDigit index)) ((refl, refl), tt),
        ),
      );
      no_dots = long_no_dots (stem ++ (chars " (" ++ tail)) (
          omega (
            arith,
            length-append stem (chars " (" ++ tail),
            length-append (decimal index) (chars ")"),
          ));
      not_blank = is_blank-append stem (chars " (" ++ tail) refl;
    }
candidate_name-IsSafe stem (some extension) index h =
    let tail : Text = decimal index ++ (chars ")." ++ extension) in
    record {
      clean = All-append IsClean stem (chars " (" ++ tail) h.0 (
        (refl, refl),
        (
          (refl, refl),
          All-append IsClean (decimal index) (chars ")." ++ extension)
              (digit-IsClean (decimal index) (decimal-IsDigit index))
              ((refl, refl), ((refl, refl), h.1)),
        ),
      );
      no_dots = long_no_dots (stem ++ (chars " (" ++ tail)) (
          omega (
            arith,
            length-append stem (chars " (" ++ tail),
            length-append (decimal index) (chars ")." ++ extension),
          ));
      not_blank = is_blank-append stem (chars " (" ++ tail) refl;
    }

last_resort-IsSafe : (random : ℕ) → IsSafe (last_resort random)
unfolding eq_bytes is_blank
last_resort-IsSafe random = record {
  clean =
      All-append IsClean (chars "hirodrop-") (decimal random)
        (
          (refl, refl),
          (
            (refl, refl),
            (
              (refl, refl),
              (
                (refl, refl),
                ((refl, refl), ((refl, refl), ((refl, refl), ((refl, refl), ((refl, refl), tt))))),
              ),
            ),
          ),
        )
        (digit-IsClean (decimal random) (decimal-IsDigit random));
  no_dots = refl;
  not_blank = refl;
}

-- A path that is one safe name below a directory.
abbrev pub IsEntry : FilePath → FilePath → Type 0
IsEntry directory p = (s : Text) × (p ≡ directory ++ (s ∷ [])) × IsSafe s

entry : (directory : FilePath) (s : Text) → IsSafe s → IsEntry directory (join directory s)
entry directory s h = (s, join-IsSafe directory s h, h)

-- For a safe name, what is chosen stands in the directory itself under a safe name.
pub unique_destination-IsEntry :
    (disk : Disk) (directory : FilePath) (name : Text) (random : ℕ)
    → IsSafe name
    → IsEntry directory (unique_destination disk directory name random)
unfolding unique_destination
unique_destination-IsEntry disk directory name random h =
    elim (Bool-cases (exists disk (join directory name))) [
      | inr x ↦ rw x (entry directory name h)
      | inl x ↦
          let stem = (stem_and_extension name).0 in
          let extension = (stem_and_extension name).1 in
          elim (Option-cases (find_free disk directory stem extension (2 ^ 32 - 2) 1)) [
            | inl f ↦ rw (x, f) (entry directory (last_resort random) (last_resort-IsSafe random))
            | inr (p, f) ↦
                let (i, e) = (find_free-free disk directory stem extension (2 ^ 32 - 2) 1 p f).1 in
                rw (x, f, e)
                  (entry directory (candidate_name stem extension i)
                    (candidate_name-IsSafe stem extension i (stem_and_extension-clean name h)))
          ]
    ]
