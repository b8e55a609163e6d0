-- ===== src/Asset/Sums.antt =====
-- What the lists of assets hold of one asset, under `aggregate_assets` and `deduct_assets`.
use migaloo_core.Prelude.{ℕ, ◌+◌, ◌≡◌, true, List, [], ◌∷◌, if◌then◌else◌, arith, ok, >>=-eq-ok}
use migaloo_core.Cosmwasm.{Cosmwasm, checked_add_lem, checked_sub_lem}
use migaloo_core.Asset.{
  AssetInfo, Asset, equal, add_asset, aggregate_assets, deduct_asset, deduct_assets,
}

-- The total amount of one asset in a list.
abbrev pub amount_of : AssetInfo → List Asset → ℕ
amount_of i [] = 0
amount_of i (a ∷ others) =
    let rest = amount_of i others in if equal a.info i then a.amount + rest else rest

pub equal_trans : (a b i : AssetInfo) → equal a b ≡ true → equal a i ≡ equal b i
equal_trans a b i h = ground arith

module _ ⦃cw : Cosmwasm⦄ where
  pub amount_of-add_asset :
      (i : AssetInfo) (a : Asset) (xs : List Asset) (ys : List Asset)
      → add_asset a xs ≡ ok ys
      → amount_of i ys ≡ amount_of i xs + amount_of i (a ∷ [])
  unfolding add_asset
  amount_of-add_asset i a [] ys h = ground arith
  amount_of-add_asset i a (x ∷ xs) ys h =
      grind (arith, checked_add_lem, equal_trans x.info a.info i, amount_of-add_asset i a xs)

  -- Aggregation moves every amount, and no other, into the sum: per asset, the result holds what
  -- the two lists hold together.
  pub amount_of-aggregate_assets :
      (i : AssetInfo) (xs ys : List Asset) (zs : List Asset)
      → aggregate_assets xs ys ≡ ok zs
      → amount_of i zs ≡ amount_of i xs + amount_of i ys
  unfolding aggregate_assets
  amount_of-aggregate_assets i xs [] zs h = ground arith
  amount_of-aggregate_assets i xs (y ∷ ys) zs h =
      let (s, e, k) = >>=-eq-ok (add_asset y xs) _ h in
      ground (arith, amount_of-add_asset i y xs s e, amount_of-aggregate_assets i s ys zs k)

  pub amount_of-deduct_asset :
      (i : AssetInfo) (a : Asset) (xs : List Asset) (ys : List Asset)
      → deduct_asset a xs ≡ ok ys
      → amount_of i ys + amount_of i (a ∷ []) ≡ amount_of i xs
  unfolding deduct_asset
  amount_of-deduct_asset i a [] ys h = ground arith
  amount_of-deduct_asset i a (x ∷ xs) ys h =
      grind (arith, checked_sub_lem, equal_trans x.info a.info i, amount_of-deduct_asset i a xs)

  -- Deduction takes off exactly what is deducted, per asset.
  pub amount_of-deduct_assets :
      (i : AssetInfo) (xs ys : List Asset) (zs : List Asset)
      → deduct_assets xs ys ≡ ok zs
      → amount_of i zs + amount_of i ys ≡ amount_of i xs
  unfolding deduct_assets
  amount_of-deduct_assets i xs [] zs h = ground arith
  amount_of-deduct_assets i xs (y ∷ ys) zs h =
      let (s, e, k) = >>=-eq-ok (deduct_asset y xs) _ h in
      ground (arith, amount_of-deduct_asset i y xs s e, amount_of-deduct_assets i s ys zs k)
