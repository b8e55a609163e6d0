-- ===== src/Storage/Entries.antt =====
-- The laws of `may_load`, `save` and `remove`, and the sums over a map.
use migaloo_core.Prelude.{
  ℕ, ◌+◌, ◌≡◌, refl, true, none, some, [], ◌∷◌, if◌then◌else◌, arith, Bool-cases, inl, inr, subst,
}
use migaloo_core.Storage.Keys.{Key}
use migaloo_core.Storage.{Map, may_load, save, remove, total, amount_at}

module _ {ℓ} {K : Type 0} {V : Type ℓ} ⦃key : Key K⦄ where
  -- Every key of the map is above `k`.
  abbrev pub Above : K → Map K V → Type 0
  Above k [] = Unit
  Above k ((j, v) ∷ m) = (key.lt k j ≡ true) × Above k m

  -- The keys ascend.
  abbrev pub IsSorted : Map K V → Type 0
  IsSorted [] = Unit
  IsSorted ((k, v) ∷ m) = Above k m × IsSorted m

  pub may_load-save :
      (j k : K) (v : V) (m : Map K V)
      → may_load j (save k v m) ≡ (if key.eq k j then some v else may_load j m)
  unfolding may_load save
  may_load-save j k v [] = refl
  may_load-save j k v ((i, w) ∷ m) = ground (
    arith,
    may_load-save j k v m,
    key.eq_sound i k,
    key.eq_sound k j,
    key.eq_refl j,
    key.eq_refl k,
  )

  pub may_load-remove :
      (j k : K) (m : Map K V)
      → may_load j (remove k m) ≡ (if key.eq k j then none else may_load j m)
  unfolding may_load remove
  may_load-remove j k [] = ground arith
  may_load-remove j k ((i, w) ∷ m) = ground (
    arith,
    may_load-remove j k m,
    key.eq_sound i k,
    key.eq_sound k j,
    key.eq_refl j,
    key.eq_refl k,
  )

  pub Above-trans : (j k : K) (m : Map K V) → key.lt j k ≡ true → Above k m → Above j m
  Above-trans j k [] h a = tt
  Above-trans j k ((i, w) ∷ m) h a = (key.lt_trans j k i h a.0, Above-trans j k m h a.1)

  pub may_load-Above : (k : K) (m : Map K V) → Above k m → may_load k m ≡ none
  unfolding may_load
  may_load-Above k [] a = refl
  may_load-Above k ((i, w) ∷ m) a =
      ground (arith, may_load-Above k m a.1, key.eq_sound i k, key.lt_irrefl k)

  pub Above-save :
      (j k : K) (v : V) (m : Map K V) → key.lt j k ≡ true → Above j m → Above j (save k v m)
  unfolding save
  Above-save j k v [] h a = ground arith
  Above-save j k v ((i, w) ∷ m) h a = ground (arith, Above-save j k v m h a.1)

  pub Above-remove : (j k : K) (m : Map K V) → Above j m → Above j (remove k m)
  unfolding remove
  Above-remove j k [] a = tt
  Above-remove j k ((i, w) ∷ m) a = ground (arith, Above-remove j k m a.1)

  pub save-IsSorted : (k : K) (v : V) (m : Map K V) → IsSorted m → IsSorted (save k v m)
  unfolding save
  save-IsSorted k v [] s = (tt, tt)
  save-IsSorted k v ((i, w) ∷ m) s = ground (
    arith,
    save-IsSorted k v m s.1,
    key.eq_sound i k,
    key.lt_total k i,
    key.eq_sound k i,
    key.eq_refl k,
    Above-trans k i m,
    Above-save i k v m,
  )

  pub remove-IsSorted : (k : K) (m : Map K V) → IsSorted m → IsSorted (remove k m)
  unfolding remove
  remove-IsSorted k [] s = tt
  remove-IsSorted k ((i, w) ∷ m) s = ground (arith, remove-IsSorted k m s.1, Above-remove i k m s.0)

  -- Removing a key that is not there changes nothing.
  pub remove-Above : (k : K) (m : Map K V) → Above k m → remove k m ≡ m
  unfolding remove
  remove-Above k [] a = refl
  remove-Above k ((i, w) ∷ m) a =
      ground (arith, remove-Above k m a.1, key.eq_sound i k, key.lt_irrefl k)

  -- A write replaces the number at its key in the sum.
  pub total-save :
      (f : V → ℕ) (k : K) (v : V) (m : Map K V)
      → IsSorted m
      → total f (save k v m) + amount_at f (may_load k m) ≡ total f m + f v
  unfolding save may_load
  total-save f k v [] s = ground arith
  total-save f k v ((i, w) ∷ m) s =
      ground
        (arith, total-save f k v m s.1, key.eq_sound i k, may_load-Above k m, Above-trans k i m)

  pub total-save_twice :
      (f : V → ℕ) (k : K) (v w : V) (m : Map K V)
      → IsSorted m
      → total f (save k v (save k w m)) + amount_at f (may_load k m) ≡ total f m + f v
  total-save_twice f k v w m s = ground (
    arith,
    total-save f k v (save k w m) (save-IsSorted k w m s),
    total-save f k w m s,
    may_load-save k k w m,
    key.eq_refl k,
  )

  pub total-remove :
      (f : V → ℕ) (k : K) (m : Map K V)
      → IsSorted m
      → total f (remove k m) + amount_at f (may_load k m) ≡ total f m
  unfolding remove may_load
  total-remove f k [] s = ground arith
  total-remove f k ((i, w) ∷ m) s =
      ground
        (arith, total-remove f k m s.1, key.eq_sound i k, remove-Above i m s.0, remove-Above k m)

module _ {ℓ κ} {K : Type 0} {V : Type ℓ} ⦃key : Key K⦄ where
  -- What holds of every entry.
  abbrev pub Holds : (K → V → Type κ) → Map K V → Type κ
  Holds P [] = Unit
  Holds P ((k, v) ∷ m) = P k v × Holds P m

  pub Holds-save :
      (P : K → V → Type κ) (k : K) (v : V) (m : Map K V) → P k v → Holds P m → Holds P (save k v m)
  unfolding save
  Holds-save P k v [] p h = (p, tt)
  Holds-save P k v ((i, w) ∷ m) p h = ground (arith, Holds-save P k v m p h.1)

  pub Holds-remove : (P : K → V → Type κ) (k : K) (m : Map K V) → Holds P m → Holds P (remove k m)
  unfolding remove
  Holds-remove P k [] h = tt
  Holds-remove P k ((i, w) ∷ m) h = ground (arith, Holds-remove P k m h.1)

  pub Holds-may_load :
      (P : K → V → Type κ) (k : K) (v : V) (m : Map K V) → Holds P m → may_load k m ≡ some v → P k v
  unfolding may_load
  Holds-may_load P k v [] h e = cc
  Holds-may_load P k v ((i, w) ∷ m) h e = elim (Bool-cases (key.eq i k)) [
    | inl same ↦
        let found : w ≡ v = ground arith in
        subst (λ x. P x v) (key.eq_sound i k same) (subst (λ x. P i x) found h.0)
    | inr other ↦ Holds-may_load P k v m h.1 (rw other at e)
  ]
