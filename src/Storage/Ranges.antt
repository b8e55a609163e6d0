-- ===== src/Storage/Ranges.antt =====
-- A range over a map: some of its entries, in order.
use migaloo_core.Prelude.{ℕ, zero, suc, ◌≡◌, Bool, true, some, [], ◌∷◌, arith, take, retain}
use migaloo_core.Storage.Keys.{Key}
use migaloo_core.Storage.{Map, may_load, remove}
use migaloo_core.Storage.Entries.{Above, IsSorted, Holds, may_load-remove}

module _ {ℓ} {K : Type 0} {V : Type ℓ} ⦃key : Key K⦄ where
  Above-retain : (p : K × V → Bool) (k : K) (m : Map K V) → Above k m → Above k (retain p m)
  Above-retain p k [] a = tt
  Above-retain p k (e ∷ m) a = ground (arith, Above-retain p k m a.1)

  pub IsSorted-retain : (p : K × V → Bool) (m : Map K V) → IsSorted m → IsSorted (retain p m)
  IsSorted-retain p [] s = tt
  IsSorted-retain p (e ∷ m) s = ground (arith, IsSorted-retain p m s.1, Above-retain p e.0 m s.0)

  Above-take : (n : ℕ) (k : K) (m : Map K V) → Above k m → Above k (take n m)
  Above-take zero k m a = tt
  Above-take (suc n) k [] a = tt
  Above-take (suc n) k (e ∷ m) a = (a.0, Above-take n k m a.1)

  pub IsSorted-take : (n : ℕ) (m : Map K V) → IsSorted m → IsSorted (take n m)
  IsSorted-take zero m s = tt
  IsSorted-take (suc n) [] s = tt
  IsSorted-take (suc n) (e ∷ m) s = (Above-take n e.0 m s.0, IsSorted-take n m s.1)

  -- Every entry of the range is an entry of the map.
  abbrev pub IsPresent : Map K V → K → V → Type ℓ
  IsPresent m k v = may_load k m ≡ some v

  IsPresent-below :
      (k : K) (v : V) (m r : Map K V)
      → Above k r
      → Holds (IsPresent m) r
      → Holds (IsPresent ((k, v) ∷ m)) r
  unfolding may_load
  IsPresent-below k v m [] a h = tt
  IsPresent-below k v m ((i, w) ∷ r) a h =
      (ground (arith, key.eq_sound k i, key.lt_irrefl i), IsPresent-below k v m r a.1 h.1)

  pub IsPresent-self : (m : Map K V) → IsSorted m → Holds (IsPresent m) m
  unfolding may_load
  IsPresent-self [] s = tt
  IsPresent-self ((k, v) ∷ m) s =
      (ground (arith, key.eq_refl k), IsPresent-below k v m m s.0 (IsPresent-self m s.1))

  -- Removing a key below the range leaves the range present.
  pub IsPresent-remove :
      (k : K) (m r : Map K V) → Above k r → Holds (IsPresent m) r → Holds (IsPresent (remove k m)) r
  IsPresent-remove k m [] a h = tt
  IsPresent-remove k m ((i, w) ∷ r) a h = (
    ground (arith, may_load-remove i k m, key.eq_sound k i, key.lt_irrefl i, h.0),
    IsPresent-remove k m r a.1 h.1,
  )

module _ {ℓ κ} {K : Type 0} {V : Type ℓ} ⦃key : Key K⦄ (P : K → V → Type κ) where
  pub Holds-retain : (p : K × V → Bool) (m : Map K V) → Holds P m → Holds P (retain p m)
  Holds-retain p [] h = tt
  Holds-retain p (e ∷ m) h = ground (arith, Holds-retain p m h.1)

  pub Holds-take : (n : ℕ) (m : Map K V) → Holds P m → Holds P (take n m)
  Holds-take zero m h = tt
  Holds-take (suc n) [] h = tt
  Holds-take (suc n) (e ∷ m) h = (h.0, Holds-take n m h.1)

  -- What the test passes has what the test stands for.
  pub Holds-test :
      (p : K × V → Bool) (m : Map K V)
      → ((k : K) (v : V) → p (k, v) ≡ true → P k v)
      → Holds P (retain p m)
  Holds-test p [] h = tt
  Holds-test p ((k, v) ∷ m) h = ground (arith, h k v, Holds-test p m h)
