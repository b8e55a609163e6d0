-- ===== src/Storage.antt =====
-- A contract's map under its keys, as the code uses cw_storage_plus: `may_load`, `save`, `remove`,
-- and `range` in ascending order. A map is the list of its entries, in ascending order of the keys.
pub mod Keys
pub mod Entries
pub mod Ranges
use migaloo_core.Storage.Keys.{Key}
use migaloo_core.Prelude.{
  ℕ, ◌+◌, Bool, true, false, Option, none, some, List, [], ◌∷◌, if◌then◌else◌,
}

abbrev pub Map {ℓ} : Type 0 → Type ℓ → Type ℓ
Map K V = List (K × V)

module _ {ℓ} {K : Type 0} {V : Type ℓ} ⦃key : Key K⦄ where
  unfoldable pub may_load : K → Map K V → Option V
  may_load k [] = none
  may_load k ((j, v) ∷ m) = if key.eq j k then some v else may_load k m

  unfoldable pub save : K → V → Map K V → Map K V
  save k v [] = (k, v) ∷ []
  save k v ((j, w) ∷ m) =
      let rest = save k v m in
      if key.eq j k then (k, v) ∷ m else if key.lt k j then (k, v) ∷ (j, w) ∷ m else (j, w) ∷ rest

  unfoldable pub remove : K → Map K V → Map K V
  remove k [] = []
  remove k ((j, w) ∷ m) = let rest = remove k m in if key.eq j k then rest else (j, w) ∷ rest

-- The sum of a number over the entries.
abbrev pub total {ℓ} : {K : Type 0} {V : Type ℓ} → (V → ℕ) → Map K V → ℕ
total f [] = 0
total f ((k, v) ∷ m) = f v + total f m

abbrev pub amount_at {ℓ} : {V : Type ℓ} → (V → ℕ) → Option V → ℕ
amount_at f none = 0
amount_at f (some v) = f v
