-- ===== src/Pair/Trades.antt =====
-- `swap` of terraswap_pair/src/commands.rs, without the osmosis feature.
use migaloo_core.Prelude.{
  ℕ, Option, List, [], ◌∷◌, ◌++◌, ◌==◌, if◌then◌else◌, Result, ok, err, ◌>>=◌, ◌>>◌,
}
use migaloo_core.Cosmwasm.{Cosmwasm, Addr, MessageInfo, CosmosMsg, checked_add, checked_sub}
use migaloo_core.Asset.{
  Asset, AssetInfo, equal, into_msg, into_burn_msg, assert_sent_native_token_balance,
}
use migaloo_core.Asset.Queries.{get_id}
use migaloo_core.Pair.{ContractError, State, Chain, lift, asset_mismatch}
use migaloo_core.Pair.Curve.{checked}
use migaloo_core.Pair.Swap.{SwapComputation, compute_swap}
use migaloo_core.Pair.Limits.{assert_max_spread, unwrap_or}
use migaloo_core.Pair.Accounts.{store_fee}
use migaloo_core.Pair.Pools.{query_pools, less_protocol_fee}

-- The pools and their decimals, the one of the offer first.
pub record Sides : Type 0 where
  pub offer_pool : Asset
  pub ask_pool : Asset
  pub offer_decimal : ℕ
  pub ask_decimal : ℕ

unfoldable pub choose_sides : AssetInfo → Asset → Asset → ℕ × ℕ → Result ContractError Sides
choose_sides offer pool_0 pool_1 (decimal_0, decimal_1) =
    if equal offer pool_0.info
    then ok (record {
      offer_pool = pool_0;
      ask_pool = pool_1;
      offer_decimal = decimal_0;
      ask_decimal = decimal_1;
    })
    else if equal offer pool_1.info
    then ok (record {
      offer_pool = pool_1;
      ask_pool = pool_0;
      offer_decimal = decimal_1;
      ask_decimal = decimal_0;
    })
    else err asset_mismatch

unfoldable pub return_messages : AssetInfo → ℕ → Addr → List CosmosMsg
return_messages ask amount receiver =
    if amount == 0 then [] else into_msg (record { info = ask; amount = amount }) receiver ∷ []

unfoldable pub burn_messages : AssetInfo → ℕ → List CosmosMsg
burn_messages ask amount =
    if amount == 0 then [] else into_burn_msg (record { info = ask; amount = amount }) ∷ []

module _ ⦃cw : Cosmwasm⦄ where
  -- A pool as it was before the offer, without the protocol fees.
  unfoldable pub swap_pool : List Asset → Asset → Asset → Result ContractError Asset
  swap_pool collected offer_asset pool = do
    net ← less_protocol_fee collected pool
    let less_offer = (do
      amount ← checked (checked_sub net.amount offer_asset.amount)
      ok (record net { amount = amount }))
    if equal net.info offer_asset.info then less_offer else ok net

  -- The fees of a swap in the accounts; a burn fee of zero is not stored.
  unfoldable pub store_fees : State → AssetInfo → SwapComputation → Result ContractError State
  store_fees s ask c = do
    let burned = lift (store_fee c.burn_fee_amount (get_id ask) s.all_time_burned_fees)
    all_time_burned_fees ← if c.burn_fee_amount == 0 then ok s.all_time_burned_fees else burned
    collected ← lift (store_fee c.protocol_fee_amount (get_id ask) s.collected_protocol_fees)
    all_time ←
        lift (store_fee c.protocol_fee_amount (get_id ask) s.all_time_collected_protocol_fees)
    ok (record s {
      collected_protocol_fees = collected;
      all_time_collected_protocol_fees = all_time;
      all_time_burned_fees = all_time_burned_fees;
    })

  -- The return and the three fees.
  unfoldable pub gross_of : SwapComputation → Result ContractError ℕ
  gross_of c = do
    two ← checked (checked_add 128 c.swap_fee_amount c.protocol_fee_amount)
    fees ← checked (checked_add 128 two c.burn_fee_amount)
    checked (checked_add 128 c.return_amount fees)

  unfoldable pub swap :
      Chain
      → State
      → MessageInfo
      → Addr
      → Asset
      → Option ℕ
      → Option ℕ
      → Option Addr
      → Result ContractError (State × List CosmosMsg)
  swap chain s info sender offer_asset belief_price max_spread to = do
    lift (assert_sent_native_token_balance offer_asset info)
    (pool_0, pool_1) ← lift (query_pools chain.balance s.pair_info)
    net_0 ← swap_pool s.collected_protocol_fees offer_asset pool_0
    net_1 ← swap_pool s.collected_protocol_fees offer_asset pool_1
    sides ← choose_sides offer_asset.info net_0 net_1 s.pair_info.asset_decimals
    c ←
        compute_swap sides.offer_pool.amount sides.ask_pool.amount offer_asset.amount
          s.config.pool_fees s.pair_info.pair_type sides.offer_decimal sides.ask_decimal
    gross ← gross_of c
    lift (assert_max_spread belief_price max_spread offer_asset.amount gross c.spread_amount)
    s' ← store_fees s sides.ask_pool.info c
    ok (
      s',
      return_messages sides.ask_pool.info c.return_amount (unwrap_or to sender)
          ++ burn_messages sides.ask_pool.info c.burn_fee_amount,
    )
