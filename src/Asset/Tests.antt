-- ===== src/Asset/Tests.antt =====
-- Concrete runs of the sums and differences of asset lists.
use migaloo_core.Prelude.{ℕ, ◌+◌, ◌≡◌, refl, [], ◌∷◌, ok}
use migaloo_core.Cosmwasm.{Cosmwasm, documented}
use migaloo_core.Asset.{
  Asset, native_token, token, aggregate_assets, add_asset, deduct_assets, deduct_asset,
}
use migaloo_core.Asset.Sums.{amount_of, amount_of-aggregate_assets, amount_of-deduct_assets}

instance abbrev cosmwasm : Cosmwasm
cosmwasm = documented

abbrev coins : ℕ → ℕ → Asset
coins d n = record { info = native_token d; amount = n }

abbrev tokens : ℕ → ℕ → Asset
tokens c n = record { info = token c; amount = n }

sum_runs :
    aggregate_assets (coins 1 10 ∷ tokens 1 5 ∷ []) (tokens 1 3 ∷ coins 2 4 ∷ [])
    ≡ ok (coins 1 10 ∷ tokens 1 8 ∷ coins 2 4 ∷ [])
unfolding aggregate_assets add_asset
sum_runs = refl

difference_runs :
    deduct_assets (coins 1 10 ∷ tokens 1 8 ∷ []) (tokens 1 3 ∷ coins 1 4 ∷ [])
    ≡ ok (coins 1 6 ∷ tokens 1 5 ∷ [])
unfolding deduct_assets deduct_asset
difference_runs = refl

amount_of-aggregate_assets_example :
    amount_of (token 1) (coins 1 10 ∷ tokens 1 8 ∷ coins 2 4 ∷ [])
    ≡ amount_of (token 1) (coins 1 10 ∷ tokens 1 5 ∷ [])
      + amount_of (token 1) (tokens 1 3 ∷ coins 2 4 ∷ [])
amount_of-aggregate_assets_example =
    amount_of-aggregate_assets (token 1) (coins 1 10 ∷ tokens 1 5 ∷ [])
      (tokens 1 3 ∷ coins 2 4 ∷ []) (coins 1 10 ∷ tokens 1 8 ∷ coins 2 4 ∷ []) sum_runs

amount_of-deduct_assets_example :
    amount_of (token 1) (coins 1 6 ∷ tokens 1 5 ∷ [])
      + amount_of (token 1) (tokens 1 3 ∷ coins 1 4 ∷ [])
    ≡ amount_of (token 1) (coins 1 10 ∷ tokens 1 8 ∷ [])
amount_of-deduct_assets_example =
    amount_of-deduct_assets (token 1) (coins 1 10 ∷ tokens 1 8 ∷ []) (tokens 1 3 ∷ coins 1 4 ∷ [])
      (coins 1 6 ∷ tokens 1 5 ∷ []) difference_runs
