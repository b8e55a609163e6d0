-- ===== src/Pair/Creation.antt =====
-- A new pair: `instantiate` and `reply` of terraswap_pair/src/contract.rs, and `create_lp_token` of
-- helpers.rs, without the features of token factories.
use migaloo_core.Prelude.{ℕ, Bool, true, if◌then◌else◌, Result, ok, err, ◌>>=◌, ◌>>◌, ok_or}
use migaloo_core.Cosmwasm.{Cosmwasm, Addr, StdError, addr_canonicalize}
use migaloo_core.Asset.{AssetInfo}
use migaloo_core.Asset.Queries.{raw_token, raw_native_token, to_raw, to_normal}
use migaloo_core.Pair.{
  ContractError, PoolFee, FeatureToggle, Config, PairType, PairInfoRaw, State, Chain, std,
  token_factory_not_enabled, lift, pool_fee_is_valid,
}
use migaloo_core.Pair.Accounts.{instantiate_fees}
use migaloo_core.Pair.Messages.{no_denom, valid_addr}

pub record InstantiateMsg : Type 0 where
  pub asset_infos : AssetInfo × AssetInfo
  pub token_code_id : ℕ
  pub asset_decimals : ℕ × ℕ
  pub pool_fees : PoolFee
  pub fee_collector_addr : Addr
  pub pair_type : PairType
  pub token_factory_lp : Bool

-- The code id of the LP token to create.
unfoldable pub create_lp_token : InstantiateMsg → Result ContractError ℕ
create_lp_token msg =
    if msg.token_factory_lp then err token_factory_not_enabled else ok msg.token_code_id

module _ ⦃cw : Cosmwasm⦄ where
  -- The LP token is set by the reply.
  unfoldable pub instantiate : Chain → Addr → InstantiateMsg → Result ContractError (State × ℕ)
  unfolding create_lp_token
  instantiate chain sender msg = do
    contract_addr ← ok_or (addr_canonicalize chain.contract_address) (std StdError.generic_err)
    raw_0 ← lift (to_raw msg.asset_infos.0)
    raw_1 ← lift (to_raw msg.asset_infos.1)
    asset_info_0 ← lift (to_normal raw_0)
    asset_info_1 ← lift (to_normal raw_1)
    lift (chain.get_label asset_info_0)
    lift (chain.get_label asset_info_1)
    lift (pool_fee_is_valid msg.pool_fees)
    owner ← valid_addr sender
    collector ← valid_addr msg.fee_collector_addr
    let pair_info : PairInfoRaw = record {
      asset_infos = (raw_0, raw_1);
      contract_addr = contract_addr;
      liquidity_token = raw_native_token no_denom;
      asset_decimals = msg.asset_decimals;
      pair_type = msg.pair_type;
    }
    let feature_toggle : FeatureToggle = record {
      withdrawals_enabled = true;
      deposits_enabled = true;
      swaps_enabled = true;
    }
    let config : Config = record {
      owner = owner;
      fee_collector_addr = collector;
      pool_fees = msg.pool_fees;
      feature_toggle = feature_toggle;
    }
    let s : State = record {
      pair_info = pair_info;
      config = config;
      collected_protocol_fees = instantiate_fees asset_info_0 asset_info_1;
      all_time_collected_protocol_fees = instantiate_fees asset_info_0 asset_info_1;
      all_time_burned_fees = instantiate_fees asset_info_0 asset_info_1;
    }
    code_id ← create_lp_token msg
    ok (s, code_id)

  -- The answer is what the data of the reply decodes to.
  unfoldable pub reply : State → Result StdError Addr → Result StdError State
  reply s answer = do
    liquidity_token ← answer
    contract_addr ← ok_or (addr_canonicalize liquidity_token) StdError.generic_err
    let pair_info : PairInfoRaw = record s.pair_info { liquidity_token = raw_token contract_addr }
    ok (record s { pair_info = pair_info })
