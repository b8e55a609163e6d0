-- ===== src/Vault/Creation.antt =====
-- A new vault: `instantiate` of contract.rs, `initialize_fee` of state.rs and
-- reply/lp_instantiate.rs of the vault.
use migaloo_core.Prelude.{
  ℕ, ◌&&◌, Bool, true, List, [], ◌∷◌, ltb, if◌then◌else◌, Result, ok, err, ◌>>=◌, ◌>>◌, fail_if,
  ok_or,
}
use migaloo_core.Cosmwasm.{Cosmwasm, Addr, StdError, addr_validate}
use migaloo_core.Asset.{Asset, AssetInfo, token, native_token}
use migaloo_core.Fee.{VaultFee, are_valid}
use migaloo_core.Vault.{
  Config, State, VaultError, std, token_factory_asset_burn_disabled, token_factory_not_enabled,
  Chain, Message, instantiate_lp_token, lift,
}
use migaloo_core.Vault.Messages.{has_factory_token, no_denom}

pub record InstantiateMsg : Type 0 where
  pub owner : Addr
  pub asset_info : AssetInfo
  pub token_id : ℕ
  pub vault_fees : VaultFee
  pub fee_collector_addr : Addr
  pub token_factory_lp : Bool

abbrev pub initialize_fee : AssetInfo → Asset
initialize_fee asset_info = record { info = asset_info; amount = 0 }

module _ ⦃cw : Cosmwasm⦄ where
  -- The LP asset is set by the reply. The token factory is not among the default features.
  unfoldable pub instantiate : Chain → InstantiateMsg → Result VaultError (State × List Message)
  instantiate ch msg = do
    fail_if (has_factory_token ch msg.asset_info && ltb 0 msg.vault_fees.burn_fee.share)
        token_factory_asset_burn_disabled
    lift (are_valid msg.vault_fees)
    owner ← ok_or (addr_validate msg.owner) (std StdError.generic_err)
    collector ← ok_or (addr_validate msg.fee_collector_addr) (std StdError.generic_err)
    let config : Config = record {
      owner = owner;
      asset_info = msg.asset_info;
      flash_loan_enabled = true;
      deposit_enabled = true;
      withdraw_enabled = true;
      lp_asset = native_token no_denom;
      fee_collector_addr = collector;
      fees = msg.vault_fees;
    }
    let s : State = record {
      config = config;
      collected_protocol_fees = initialize_fee msg.asset_info;
      all_time_collected_protocol_fees = initialize_fee msg.asset_info;
      all_time_burned_fees = initialize_fee msg.asset_info;
      loan_counter = 0;
    }
    if msg.token_factory_lp
        then err token_factory_not_enabled
        else (do lift (ch.get_label msg.asset_info); ok (s, instantiate_lp_token msg.token_id ∷ []))

  -- The answer is what the data of the reply decodes to.
  unfoldable pub lp_instantiate : State → Result StdError Addr → Result VaultError State
  lp_instantiate s answer = do
    contract_address ← lift answer
    token_address ← ok_or (addr_validate contract_address) (std StdError.generic_err)
    let config : Config = record s.config { lp_asset = token token_address }
    ok (record s { config = config })
