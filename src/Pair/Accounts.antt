-- ===== src/Pair/Accounts.antt =====
-- The fees that the pair keeps account of: terraswap_pair/src/state.rs, with
-- `get_protocol_fee_for_asset` and `instantiate_fees` of helpers.rs.
use migaloo_core.Prelude.{
  ℕ, Option, none, some, List, [], ◌∷◌, ◌==◌, if◌then◌else◌, find, Result, ok, ◌>>=◌, ok_or,
}
use migaloo_core.Cosmwasm.{Cosmwasm, StdError, checked_add}
use migaloo_core.Asset.{Asset, AssetInfo}
use migaloo_core.Asset.Queries.{get_id}
use migaloo_core.Pair.Reverse.{panic_or}

module _ ⦃cw : Cosmwasm⦄ where
  -- The amounts are added with an operator that panics.
  unfoldable pub store_fee : ℕ → ℕ → List Asset → Result StdError (List Asset)
  store_fee fee_amount asset_id [] = ok []
  store_fee fee_amount asset_id (x ∷ xs) = do
    rest ← store_fee fee_amount asset_id xs
    let more = (do
      amount ← panic_or (checked_add 128 x.amount fee_amount)
      ok (record x { amount = amount } ∷ rest))
    if get_id x.info == asset_id then more else ok (x ∷ rest)

unfoldable pub get_fees_for_asset : ℕ → List Asset → Result StdError Asset
get_fees_for_asset asset_id fees =
    ok_or (find (λ x. get_id x.info == asset_id) fees) StdError.generic_err

abbrev pub amount_or_zero : Option Asset → ℕ
amount_or_zero none = 0
amount_or_zero (some x) = x.amount

unfoldable pub get_protocol_fee_for_asset : List Asset → ℕ → ℕ
get_protocol_fee_for_asset collected asset_id =
    amount_or_zero (find (λ x. get_id x.info == asset_id) collected)

unfoldable pub instantiate_fees : AssetInfo → AssetInfo → List Asset
instantiate_fees asset_info_0 asset_info_1 =
    record { info = asset_info_0; amount = 0 } ∷ record { info = asset_info_1; amount = 0 } ∷ []
