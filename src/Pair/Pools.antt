-- ===== src/Pair/Pools.antt =====
-- The pools of the pair, and its LP token: `PairInfoRaw::query_pools` of
-- packages/white-whale-std/src/pool_network/asset.rs, and what the handlers of
-- terraswap_pair/src/commands.rs do with them, without the features of token factories.
use migaloo_core.Prelude.{ℕ, List, Result, ok, ◌>>=◌, ok_or}
use migaloo_core.Cosmwasm.{Cosmwasm, Addr, CosmosMsg, StdError, checked_sub, addr_humanize}
use migaloo_core.Asset.{Asset, AssetInfo}
use migaloo_core.Asset.Queries.{
  AssetInfoRaw, raw_token, raw_native_token, get_id, to_normal, query_pool,
}
use migaloo_core.Pair.{ContractError, PairInfoRaw, std}
use migaloo_core.Pair.Curve.{checked}
use migaloo_core.Pair.Accounts.{get_protocol_fee_for_asset}

unfoldable pub mint_lp_token_msg : Addr → Addr → ℕ → CosmosMsg
mint_lp_token_msg liquidity_token recipient amount =
    CosmosMsg.cw20_mint liquidity_token recipient amount

unfoldable pub burn_lp_token_msg : Addr → ℕ → CosmosMsg
burn_lp_token_msg liquidity_token amount = CosmosMsg.cw20_burn liquidity_token amount

module _ ⦃cw : Cosmwasm⦄ where
  unfoldable pub query_pools :
      (AssetInfo → Result StdError ℕ) → PairInfoRaw → Result StdError (Asset × Asset)
  query_pools balance pair_info = do
    info_0 ← to_normal pair_info.asset_infos.0
    info_1 ← to_normal pair_info.asset_infos.1
    amount_0 ← query_pool balance info_0
    amount_1 ← query_pool balance info_1
    ok (record { info = info_0; amount = amount_0 }, record { info = info_1; amount = amount_1 })

  -- The part of a pool that is not a protocol fee still to be collected.
  unfoldable pub less_protocol_fee : List Asset → Asset → Result ContractError Asset
  less_protocol_fee collected pool = do
    amount ←
        checked (checked_sub pool.amount (get_protocol_fee_for_asset collected (get_id pool.info)))
    ok (record pool { amount = amount })

  unfoldable pub liquidity_token_of : AssetInfoRaw → Result ContractError Addr
  liquidity_token_of (raw_token contract_addr) =
      ok_or (addr_humanize contract_addr) (std StdError.generic_err)
  liquidity_token_of (raw_native_token denom) = ok denom
