-- ===== src/Trio/Creation.antt =====
-- A new pool of three: `instantiate` and `reply` of stableswap_3pool/src/contract.rs, and
-- `instantiate_fees` and `create_lp_token` of helpers.rs, without the features of token factories.
use migaloo_core.Prelude.{
  ℕ, Bool, true, ltb, if◌then◌else◌, List, [], ◌∷◌, Result, ok, err, ◌>>=◌, ◌>>◌, fail_if, ok_or,
}
use migaloo_core.Cosmwasm.{Cosmwasm, Addr, StdError, addr_canonicalize}
use migaloo_core.Asset.{Asset, AssetInfo}
use migaloo_core.Asset.Queries.{raw_token, raw_native_token, to_raw, to_normal}
use migaloo_core.Pair.{
  ContractError, PoolFee, FeatureToggle, Chain, std, token_factory_not_enabled, lift,
  pool_fee_is_valid,
}
use migaloo_core.Pair.Messages.{no_denom, valid_addr}
use migaloo_core.Trio.{Config, TrioInfoRaw, State}
use migaloo_core.Trio.Messages.{min_amp, max_amp}

pub record InstantiateMsg : Type 0 where
  pub asset_infos : AssetInfo × AssetInfo × AssetInfo
  pub token_code_id : ℕ
  pub asset_decimals : ℕ × ℕ × ℕ
  pub pool_fees : PoolFee
  pub fee_collector_addr : Addr
  pub amp_factor : ℕ
  pub token_factory_lp : Bool

unfoldable pub instantiate_fees : AssetInfo → AssetInfo → AssetInfo → List Asset
instantiate_fees asset_info_0 asset_info_1 asset_info_2 =
    record { info = asset_info_0; amount = 0 }
    ∷ record { info = asset_info_1; amount = 0 }
    ∷ record { info = asset_info_2; amount = 0 }
    ∷ []

-- The code id of the LP token to create.
unfoldable pub create_lp_token : InstantiateMsg → Result ContractError ℕ
create_lp_token msg =
    if msg.token_factory_lp then err token_factory_not_enabled else ok msg.token_code_id

module _ ⦃cw : Cosmwasm⦄ where
  -- The LP token is set by the reply.
  unfoldable pub instantiate : Chain → ℕ → Addr → InstantiateMsg → Result ContractError (State × ℕ)
  unfolding create_lp_token
  instantiate chain height sender msg = do
    contract_addr ← ok_or (addr_canonicalize chain.contract_address) (std StdError.generic_err)
    raw_0 ← lift (to_raw msg.asset_infos.0)
    raw_1 ← lift (to_raw msg.asset_infos.1)
    raw_2 ← lift (to_raw msg.asset_infos.2)
    asset_info_0 ← lift (to_normal raw_0)
    asset_info_1 ← lift (to_normal raw_1)
    asset_info_2 ← lift (to_normal raw_2)
    lift (chain.get_label asset_info_0)
    lift (chain.get_label asset_info_1)
    lift (chain.get_label asset_info_2)
    lift (pool_fee_is_valid msg.pool_fees)
    fail_if (ltb msg.amp_factor min_amp) (std StdError.generic_err)
    fail_if (ltb max_amp msg.amp_factor) (std StdError.generic_err)
    owner ← valid_addr sender
    collector ← valid_addr msg.fee_collector_addr
    let trio_info : TrioInfoRaw = record {
      asset_infos = (raw_0, raw_1, raw_2);
      contract_addr = contract_addr;
      liquidity_token = raw_native_token no_denom;
      asset_decimals = msg.asset_decimals;
    }
    let feature_toggle : FeatureToggle = record {
      withdrawals_enabled = true;
      deposits_enabled = true;
      swaps_enabled = true;
    }
    let config : Config = record {
      owner = owner;
      fee_collector_addr = collector;
      pool_fees = msg.pool_fees;
      feature_toggle = feature_toggle;
      initial_amp = msg.amp_factor;
      future_amp = msg.amp_factor;
      initial_amp_block = height;
      future_amp_block = height;
    }
    let s : State = record {
      trio_info = trio_info;
      config = config;
      collected_protocol_fees = instantiate_fees asset_info_0 asset_info_1 asset_info_2;
      all_time_collected_protocol_fees = instantiate_fees asset_info_0 asset_info_1 asset_info_2;
      all_time_burned_fees = instantiate_fees asset_info_0 asset_info_1 asset_info_2;
    }
    code_id ← create_lp_token msg
    ok (s, code_id)

  -- The answer is what the data of the reply decodes to.
  unfoldable pub reply : State → Result StdError Addr → Result StdError State
  reply s answer = do
    liquidity_token ← answer
    contract_addr ← ok_or (addr_canonicalize liquidity_token) StdError.generic_err
    let trio_info : TrioInfoRaw = record s.trio_info { liquidity_token = raw_token contract_addr }
    ok (record s { trio_info = trio_info })
