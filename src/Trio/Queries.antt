-- ===== src/Trio/Queries.antt =====
-- The queries of the pool of three: stableswap_3pool/src/queries.rs, without the osmosis feature.
-- The balance of an address is what the chain answers. `query_config` and `query_fees` are the
-- pair's.
use migaloo_core.Prelude.{ℕ, Result, ok, ◌>>=◌}
use migaloo_core.Cosmwasm.{Cosmwasm, Addr, StdError}
use migaloo_core.Asset.{Asset, AssetInfo}
use migaloo_core.Asset.Queries.{to_normal, get_total_share}
use migaloo_core.Pair.{ContractError, lift}
use migaloo_core.Pair.Swap.{SwapComputation}
use migaloo_core.Pair.Reverse.{OfferAmountComputation}
use migaloo_core.Pair.Pools.{less_protocol_fee, liquidity_token_of}
use migaloo_core.Pair.Queries.{Balances, human, pool_of}
use migaloo_core.Trio.{State}
use migaloo_core.Trio.Amp.{invariant_of}
use migaloo_core.Trio.Swap.{compute_swap, compute_offer_amount}
use migaloo_core.Trio.Liquidity.{query_pools}
use migaloo_core.Trio.Trades.{choose_roles}

pub record TrioInfo : Type 0 where
  pub asset_infos : AssetInfo × AssetInfo × AssetInfo
  pub contract_addr : Addr
  pub liquidity_token : AssetInfo
  pub asset_decimals : ℕ × ℕ × ℕ

pub record PoolResponse : Type 0 where
  pub assets : Asset × Asset × Asset
  pub total_share : ℕ

module _ ⦃cw : Cosmwasm⦄ where
  -- `TrioInfoRaw::to_normal`
  unfoldable pub query_trio_info : State → Result ContractError TrioInfo
  query_trio_info s = do
    liquidity_token ← lift (to_normal s.trio_info.liquidity_token)
    contract_addr ← human s.trio_info.contract_addr
    info_0 ← lift (to_normal s.trio_info.asset_infos.0)
    info_1 ← lift (to_normal s.trio_info.asset_infos.1)
    info_2 ← lift (to_normal s.trio_info.asset_infos.2)
    ok (record {
      asset_infos = (info_0, info_1, info_2);
      contract_addr = contract_addr;
      liquidity_token = liquidity_token;
      asset_decimals = s.trio_info.asset_decimals;
    })

  unfoldable pub query_pool :
      Balances → (Addr → Result StdError ℕ) → State → Result ContractError PoolResponse
  query_pool balances total_supply s = do
    contract_addr ← human s.trio_info.contract_addr
    (pool_0, pool_1, pool_2) ← lift (query_pools (balances contract_addr) s.trio_info)
    asset_0 ← pool_of s.collected_protocol_fees pool_0
    asset_1 ← pool_of s.collected_protocol_fees pool_1
    asset_2 ← pool_of s.collected_protocol_fees pool_2
    liquidity_token ← liquidity_token_of s.trio_info.liquidity_token
    total_share ← lift (get_total_share total_supply liquidity_token)
    ok (record { assets = (asset_0, asset_1, asset_2); total_share = total_share })

  -- The pools without the protocol fees.
  unfoldable pub net_pools : Balances → State → Result ContractError (Asset × Asset × Asset)
  net_pools balances s = do
    contract_addr ← human s.trio_info.contract_addr
    (pool_0, pool_1, pool_2) ← lift (query_pools (balances contract_addr) s.trio_info)
    net_0 ← less_protocol_fee s.collected_protocol_fees pool_0
    net_1 ← less_protocol_fee s.collected_protocol_fees pool_1
    net_2 ← less_protocol_fee s.collected_protocol_fees pool_2
    ok (net_0, net_1, net_2)

  unfoldable pub query_simulation :
      Balances → ℕ → State → Asset → AssetInfo → Result ContractError SwapComputation
  unfolding net_pools
  query_simulation balances height s offer_asset ask_asset = do
    (net_0, net_1, net_2) ← net_pools balances s
    roles ← choose_roles ask_asset offer_asset.info net_0 net_1 net_2
    compute_swap roles.offer_pool.amount roles.ask_pool.amount roles.unswapped_pool.amount
        offer_asset.amount s.config.pool_fees (invariant_of s.config height)

  unfoldable pub query_reverse_simulation :
      Balances → ℕ → State → Asset → AssetInfo → Result ContractError OfferAmountComputation
  unfolding net_pools
  query_reverse_simulation balances height s ask_asset offer_asset = do
    (net_0, net_1, net_2) ← net_pools balances s
    roles ← choose_roles ask_asset.info offer_asset net_0 net_1 net_2
    compute_offer_amount roles.offer_pool.amount roles.ask_pool.amount roles.unswapped_pool.amount
        ask_asset.amount s.config.pool_fees (invariant_of s.config height)
