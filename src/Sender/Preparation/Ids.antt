-- ===== src/Sender/Preparation/Ids.antt =====
-- The ids that `prepare_files` of src/quick_share_sender.rs draws.
use hi_rodrop.Prelude.{
  ℕ, zero, suc, ◌+◌, ◌^◌, ◌<◌, ◌≡◌, refl, inl, inr, Bool-cases, true, false, some, List, arith,
}
use hi_rodrop.Prelude.Int.{ℤ, pos}
use hi_rodrop.Sender.Preparation.{is_used, is_new, id_of, pick_id}

-- An id that the peers take: positive, an `i64`, and none of those given.
abbrev pub IsFresh : List ℕ → ℤ → Type 0
IsFresh ids id = (n : ℕ) × (id ≡ pos n) × (0 < n) × (n < 2 ^ 63) × (is_used n ids ≡ false)

module _ (draw : ℕ → ℕ) where
  pub pick_id-IsFresh :
      (fuel n : ℕ) (ids : List ℕ) (id next : ℕ)
      → pick_id draw fuel n ids ≡ some (id, next)
      → IsFresh ids (pos id)
  unfolding pick_id
  pick_id-IsFresh zero n ids id next e = absurd (cc e)
  pick_id-IsFresh (suc fuel) n ids id next e = elim (Bool-cases (is_new (id_of (draw n)) ids)) [
    | inr x ↦ pick_id-IsFresh fuel (suc n) ids id next (rw x at e)
    | inl x ↦
        let same : id_of (draw n) ≡ id = cc (rw x at e) in
        (id, refl, ground (arith, same, x), ground (arith, same), ground (arith, same, x))
  ]

  -- The search for an id ends as soon as one of the draws is new: if the draw `k` places on is not
  -- 0 (as an `i64`) and not used, more fuel than `k` is enough.
  pub pick_id_ends :
      (k fuel n : ℕ) (ids : List ℕ)
      → k < fuel
      → is_new (id_of (draw (n + k))) ids ≡ true
      → (r : ℕ × ℕ) × (pick_id draw fuel n ids ≡ some r)
  unfolding pick_id
  pick_id_ends k zero n ids h e = absurd (omega arith)
  pick_id_ends zero (suc fuel) n ids h e =
      let same : n + 0 ≡ n = omega arith in ((id_of (draw n), suc n), rw (rw same at e) refl)
  pick_id_ends (suc k) (suc fuel) n ids h e = elim (Bool-cases (is_new (id_of (draw n)) ids)) [
    | inl x ↦ ((id_of (draw n), suc n), rw x refl)
    | inr x ↦
        let same : n + suc k ≡ suc n + k = omega arith in
        rw x (pick_id_ends k fuel (suc n) ids (omega arith) (rw same at e))
  ]
