-- ===== src/Pair/Queries.antt =====
-- The queries of the pair: terraswap_pair/src/queries.rs, without the osmosis feature. The balance of
-- an address is what the chain answers.
use migaloo_core.Prelude.{
  ℕ, Option, none, some, Bool, true, List, [], ◌∷◌, Result, ok, ◌>>=◌, ok_or,
}
use migaloo_core.Cosmwasm.{Cosmwasm, Addr, StdError, checked_sub, addr_humanize}
use migaloo_core.Asset.{Asset, AssetInfo}
use migaloo_core.Asset.Queries.{get_id, to_normal, get_total_share}
use migaloo_core.Pair.{ContractError, Config, PairType, State, std, lift}
use migaloo_core.Pair.Curve.{or_panic}
use migaloo_core.Pair.Swap.{SwapComputation, compute_swap}
use migaloo_core.Pair.Accounts.{get_protocol_fee_for_asset, get_fees_for_asset}
use migaloo_core.Pair.Pools.{query_pools, less_protocol_fee, liquidity_token_of}
use migaloo_core.Pair.Trades.{choose_sides}

abbrev pub Balances : Type 0
Balances = Addr → AssetInfo → Result StdError ℕ

pub record PairInfo : Type 0 where
  pub asset_infos : AssetInfo × AssetInfo
  pub contract_addr : Addr
  pub liquidity_token : AssetInfo
  pub asset_decimals : ℕ × ℕ
  pub pair_type : PairType

pub record PoolResponse : Type 0 where
  pub assets : Asset × Asset
  pub total_share : ℕ

unfoldable pub query_config : State → Config
query_config s = s.config

-- All fees of the pair's life only where they are asked for and kept.
unfoldable pub query_fees :
    Option ℕ → Option Bool → List Asset → Option (List Asset) → Result ContractError (List Asset)
query_fees asset_id (some true) fees (some all_time_fees) = ok all_time_fees
query_fees (some asset_id) all_time fees all_time_fees = do
  fee ← lift (get_fees_for_asset asset_id fees)
  ok (fee ∷ [])
query_fees none all_time fees all_time_fees = ok fees

module _ ⦃cw : Cosmwasm⦄ where
  abbrev pub human : ℕ → Result ContractError Addr
  human contract_addr = ok_or (addr_humanize contract_addr) (std StdError.generic_err)

  -- `PairInfoRaw::to_normal`
  unfoldable pub query_pair_info : State → Result ContractError PairInfo
  query_pair_info s = do
    liquidity_token ← lift (to_normal s.pair_info.liquidity_token)
    contract_addr ← human s.pair_info.contract_addr
    info_0 ← lift (to_normal s.pair_info.asset_infos.0)
    info_1 ← lift (to_normal s.pair_info.asset_infos.1)
    ok (record {
      asset_infos = (info_0, info_1);
      contract_addr = contract_addr;
      liquidity_token = liquidity_token;
      asset_decimals = s.pair_info.asset_decimals;
      pair_type = s.pair_info.pair_type;
    })

  -- The fees are taken off with an operator that panics.
  unfoldable pub pool_of : List Asset → Asset → Result ContractError Asset
  pool_of collected pool = do
    amount ←
        or_panic (checked_sub pool.amount (get_protocol_fee_for_asset collected (get_id pool.info)))
    ok (record pool { amount = amount })

  unfoldable pub query_pool :
      Balances → (Addr → Result StdError ℕ) → State → Result ContractError PoolResponse
  query_pool balances total_supply s = do
    contract_addr ← human s.pair_info.contract_addr
    (pool_0, pool_1) ← lift (query_pools (balances contract_addr) s.pair_info)
    asset_0 ← pool_of s.collected_protocol_fees pool_0
    asset_1 ← pool_of s.collected_protocol_fees pool_1
    liquidity_token ← liquidity_token_of s.pair_info.liquidity_token
    total_share ← lift (get_total_share total_supply liquidity_token)
    ok (record { assets = (asset_0, asset_1); total_share = total_share })

  -- The pools without the protocol fees.
  unfoldable pub net_pools : Balances → State → Result ContractError (Asset × Asset)
  net_pools balances s = do
    contract_addr ← human s.pair_info.contract_addr
    (pool_0, pool_1) ← lift (query_pools (balances contract_addr) s.pair_info)
    net_0 ← less_protocol_fee s.collected_protocol_fees pool_0
    net_1 ← less_protocol_fee s.collected_protocol_fees pool_1
    ok (net_0, net_1)

  unfoldable pub query_simulation : Balances → State → Asset → Result ContractError SwapComputation
  unfolding net_pools
  query_simulation balances s offer_asset = do
    (net_0, net_1) ← net_pools balances s
    sides ← choose_sides offer_asset.info net_0 net_1 s.pair_info.asset_decimals
    compute_swap sides.offer_pool.amount sides.ask_pool.amount offer_asset.amount s.config.pool_fees
        s.pair_info.pair_type sides.offer_decimal sides.ask_decimal
