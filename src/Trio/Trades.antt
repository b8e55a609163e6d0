-- ===== src/Trio/Trades.antt =====
-- `swap` of stableswap_3pool/src/commands.rs, without the osmosis feature.
use migaloo_core.Prelude.{ℕ, Option, List, ◌++◌, ◌==◌, if◌then◌else◌, Result, ok, err, ◌>>=◌, ◌>>◌}
use migaloo_core.Cosmwasm.{Cosmwasm, Addr, MessageInfo, CosmosMsg}
use migaloo_core.Asset.{Asset, AssetInfo, equal, assert_sent_native_token_balance}
use migaloo_core.Asset.Queries.{get_id}
use migaloo_core.Pair.{ContractError, Chain, lift, asset_mismatch}
use migaloo_core.Pair.Swap.{SwapComputation}
use migaloo_core.Pair.Limits.{assert_max_spread, unwrap_or}
use migaloo_core.Pair.Accounts.{store_fee}
use migaloo_core.Pair.Trades.{return_messages, burn_messages, swap_pool, gross_of}
use migaloo_core.Trio.{State}
use migaloo_core.Trio.Amp.{invariant_of}
use migaloo_core.Trio.Swap.{compute_swap}
use migaloo_core.Trio.Liquidity.{query_pools}

pub record Roles : Type 0 where
  pub ask_pool : Asset
  pub offer_pool : Asset
  pub unswapped_pool : Asset

-- The pool of the offer among the two that are not asked for.
unfoldable pub choose_offer : AssetInfo → Asset → Asset → Asset → Result ContractError Roles
choose_offer offer ask_pool p q =
    if equal offer p.info
    then ok (record { ask_pool = ask_pool; offer_pool = p; unswapped_pool = q })
    else if equal offer q.info
    then ok (record { ask_pool = ask_pool; offer_pool = q; unswapped_pool = p })
    else err asset_mismatch

unfoldable pub choose_roles :
    AssetInfo → AssetInfo → Asset → Asset → Asset → Result ContractError Roles
unfolding choose_offer
choose_roles ask offer pool_0 pool_1 pool_2 =
    if equal ask pool_0.info
    then choose_offer offer pool_0 pool_1 pool_2
    else if equal ask pool_1.info
    then choose_offer offer pool_1 pool_0 pool_2
    else if equal ask pool_2.info
    then choose_offer offer pool_2 pool_0 pool_1
    else err asset_mismatch

module _ ⦃cw : Cosmwasm⦄ where
  -- The fees of a swap in the accounts; a burn fee of zero is not stored.
  unfoldable pub store_fees : State → AssetInfo → SwapComputation → Result ContractError State
  store_fees s ask c = do
    let burned = lift (store_fee c.burn_fee_amount (get_id ask) s.all_time_burned_fees)
    all_time_burned_fees ← if c.burn_fee_amount == 0 then ok s.all_time_burned_fees else burned
    collected ← lift (store_fee c.protocol_fee_amount (get_id ask) s.collected_protocol_fees)
    all_time ←
        lift (store_fee c.protocol_fee_amount (get_id ask) s.all_time_collected_protocol_fees)
    ok (record s {
      collected_protocol_fees = collected;
      all_time_collected_protocol_fees = all_time;
      all_time_burned_fees = all_time_burned_fees;
    })

  unfoldable pub swap :
      Chain
      → ℕ
      → State
      → MessageInfo
      → Addr
      → Asset
      → AssetInfo
      → Option ℕ
      → Option ℕ
      → Option Addr
      → Result ContractError (State × List CosmosMsg)
  unfolding choose_roles store_fees
  swap chain height s info sender offer_asset ask_asset belief_price max_spread to = do
    lift (assert_sent_native_token_balance offer_asset info)
    (pool_0, pool_1, pool_2) ← lift (query_pools chain.balance s.trio_info)
    net_0 ← swap_pool s.collected_protocol_fees offer_asset pool_0
    net_1 ← swap_pool s.collected_protocol_fees offer_asset pool_1
    net_2 ← swap_pool s.collected_protocol_fees offer_asset pool_2
    roles ← choose_roles ask_asset offer_asset.info net_0 net_1 net_2
    c ←
        compute_swap roles.offer_pool.amount roles.ask_pool.amount roles.unswapped_pool.amount
          offer_asset.amount s.config.pool_fees (invariant_of s.config height)
    gross ← gross_of c
    lift (assert_max_spread belief_price max_spread offer_asset.amount gross c.spread_amount)
    s' ← store_fees s roles.ask_pool.info c
    ok (
      s',
      return_messages roles.ask_pool.info c.return_amount (unwrap_or to sender)
          ++ burn_messages roles.ask_pool.info c.burn_fee_amount,
    )
