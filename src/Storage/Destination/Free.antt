-- ===== src/Storage/Destination/Free.antt =====
-- Where `unique_destination` of src/quick_share_receiver.rs puts a file.
use hi_rodrop.Prelude.{
  ℕ, zero, suc, ◌≤◌, ◌<◌, ◌==◌, true, none, ◌+◌, ◌-◌, ◌^◌, ◌≡◌, ◌⊎◌, inl, inr, refl, sym, false,
  Option, some, arith, Bool-cases, Option-cases,
}
use hi_rodrop.Prelude.Utf8.{Text}
use hi_rodrop.Storage.FilePath.{FilePath, join}
use hi_rodrop.Storage.Disk.{Disk, Node, is_found, exists}
use hi_rodrop.Storage.Destination.{
  stem_and_extension, candidate_name, find_free, last_resort, unique_destination,
}

pub find_free-free :
    (disk : Disk) (directory : FilePath) (stem : Text) (extension : Option Text) (count index : ℕ)
    (p : FilePath)
    → find_free disk directory stem extension count index ≡ some p
    → (exists disk p ≡ false) × ((i : ℕ) × (p ≡ join directory (candidate_name stem extension i)))
unfolding find_free
find_free-free disk directory stem extension zero index p e = absurd (ground (arith, e))
find_free-free disk directory stem extension (suc count) index p e =
    elim (Bool-cases (exists disk (join directory (candidate_name stem extension index)))) [
      | inl x ↦ find_free-free disk directory stem extension count (index + 1) p (rw x at e)
      | inr x ↦
          let here : join directory (candidate_name stem extension index) ≡ p = cc (rw x at e) in
          (rw (← here) x, (index, sym here))
    ]

-- Nothing is found at a path: nothing stands there, or only a link that leads nowhere, or what stands there
-- cannot be asked about.
abbrev pub IsNotFound : Disk → FilePath → Type 0
IsNotFound disk p =
    (disk.unreadable p ≡ true) ⊎ ((disk.node p ≡ none) ⊎ (disk.node p ≡ some (Node.symlink false)))

is_found-IsNotFound :
    (n : Option Node) → is_found n ≡ false → (n ≡ none) ⊎ (n ≡ some (Node.symlink false))
is_found-IsNotFound none h = inl refl
is_found-IsNotFound (some (Node.symlink false)) h = inr refl
is_found-IsNotFound (some (Node.symlink true)) h = absurd (cc h)
is_found-IsNotFound (some (Node.file content)) h = absurd (cc h)
is_found-IsNotFound (some Node.directory) h = absurd (cc h)
is_found-IsNotFound (some Node.special) h = absurd (cc h)

exists-IsNotFound : (disk : Disk) (p : FilePath) → exists disk p ≡ false → IsNotFound disk p
exists-IsNotFound disk p h = elim (Bool-cases (disk.unreadable p)) [
  | inl u ↦ inl u
  | inr u ↦ inr (is_found-IsNotFound (disk.node p) (rw u at h))
]

module _ (disk : Disk) (directory : FilePath) (stem : Text) (extension : Option Text) where
  -- All numbers from one on and below another are taken.
  abbrev pub AreTaken : ℕ → ℕ → Type 0
  AreTaken from to =
      (j : ℕ)
      → from ≤ j
      → j < to
      → exists disk (join directory (candidate_name stem extension j)) ≡ true

  taken_first :
      (index to : ℕ)
      → exists disk (join directory (candidate_name stem extension index)) ≡ true
      → AreTaken (index + 1) to
      → AreTaken index to
  taken_first index to x h j a b = elim (Bool-cases (j == index)) [
    | inl e ↦ let same : j ≡ index = ground arith in rw same x
    | inr e ↦ h j (ground arith) b
  ]

  find_free-all :
      (count index : ℕ)
      → find_free disk directory stem extension count index ≡ none
      → AreTaken index (index + count)
  unfolding find_free
  find_free-all zero index e = λ j a b. absurd (omega (arith, a, b))
  find_free-all (suc count) index e =
      elim (Bool-cases (exists disk (join directory (candidate_name stem extension index)))) [
        | inl x ↦
            taken_first index (index + suc count) x
              (λ j a b. find_free-all count (index + 1) (rw x at e) j a (omega (arith, b)))
        | inr x ↦ absurd (cc (rw x at e))
      ]

  find_free-first :
      (count index : ℕ) (p : FilePath)
      → find_free disk directory stem extension count index ≡ some p
      → (i : ℕ) × (index ≤ i)
        × (p ≡ join directory (candidate_name stem extension i))
        × AreTaken index i
  unfolding find_free
  find_free-first zero index p e = absurd (ground (arith, e))
  find_free-first (suc count) index p e =
      elim (Bool-cases (exists disk (join directory (candidate_name stem extension index)))) [
        | inl x ↦
            let (i, a, same, taken) = find_free-first count (index + 1) p (rw x at e) in
            (i, omega (arith, a), same, taken_first index i x taken)
        | inr x ↦ (index, omega arith, cc (rw x at e), λ j a b. absurd (omega (arith, a, b)))
      ]

-- A file gets its own name if nothing is found there, else the first number that nothing is found at, and only
-- when all numbers below 2 ^ 32 - 1 are taken the random name of the last resort; nothing is
-- found where it is put, but for the last resort. What is not found is missing, a link that
-- leads nowhere, or unreadable.
pub unique_destination-free :
    (disk : Disk) (directory : FilePath) (name : Text) (random : ℕ)
    → let chosen = unique_destination disk directory name random in
      let initial = join directory name in
      let stem = (stem_and_extension name).0 in
      let extension = (stem_and_extension name).1 in
      (IsNotFound disk chosen × (chosen ≡ initial))
      ⊎ ((exists disk initial ≡ true)
          × ((IsNotFound disk chosen
                × ((i : ℕ) × (1 ≤ i)
                    × (chosen ≡ join directory (candidate_name stem extension i))
                    × AreTaken disk directory stem extension 1 i))
              ⊎ (AreTaken disk directory stem extension 1 (2 ^ 32 - 1)
                  × (chosen ≡ join directory (last_resort random)))))
unfolding unique_destination
unique_destination-free disk directory name random =
    let stem = (stem_and_extension name).0 in
    let extension = (stem_and_extension name).1 in
    elim (Bool-cases (exists disk (join directory name))) [
      | inr x ↦ rw x (inl (exists-IsNotFound disk (join directory name) x, refl))
      | inl x ↦ elim (Option-cases (find_free disk directory stem extension (2 ^ 32 - 2) 1)) [
        | inl f ↦
            rw (x, f)
              (inr (refl, inr (find_free-all disk directory stem extension (2 ^ 32 - 2) 1 f, refl)))
        | inr (p, f) ↦
            rw (x, f)
              (inr (
                refl,
                inl (
                  exists-IsNotFound disk p
                      (find_free-free disk directory stem extension (2 ^ 32 - 2) 1 p f).0,
                  find_free-first disk directory stem extension (2 ^ 32 - 2) 1 p f,
                ),
              ))
      ]
    ]
