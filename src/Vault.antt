-- ===== src/Vault.antt =====
-- The flash-loan vault contract, contracts/liquidity_hub/vault-network/vault/src, with
-- packages/white-whale-std/src/vault_network/vault.rs. This file holds its data and state;
-- `Creation`, `Loans`, `Liquidity` and `Messages` hold its functions, the other children their proofs.
pub mod Loans
pub mod Liquidity
pub mod Messages
pub mod Repayment
pub mod Shares
pub mod Soundness
pub mod Creation
pub mod Reachable
mod Tests
use migaloo_core.Prelude.{ℕ, Bool, List, Result, ok, err}
use migaloo_core.Cosmwasm.{Addr, Denom, CosmosMsg, StdError}
use migaloo_core.Asset.{Asset, AssetInfo}
use migaloo_core.Fee.{VaultFee}

pub record Config : Type 0 where
  pub owner : Addr
  pub asset_info : AssetInfo
  pub flash_loan_enabled : Bool
  pub deposit_enabled : Bool
  pub withdraw_enabled : Bool
  pub lp_asset : AssetInfo
  pub fee_collector_addr : Addr
  pub fees : VaultFee

-- CONFIG, the three fee items and LOAN_COUNTER.
pub record State : Type 0 where
  pub config : Config
  pub collected_protocol_fees : Asset
  pub all_time_collected_protocol_fees : Asset
  pub all_time_burned_fees : Asset
  pub loan_counter : ℕ

pub data VaultError : Type 0 where
  std : StdError → VaultError
  deposits_disabled flash_loans_disabled withdraws_disabled : VaultError
  funds_mismatch unauthorized external_callback negative_profit : VaultError
  deposit_during_loan token_factory_asset_burn_disabled : VaultError
  invalid_initial_liquidity_amount asset_mismatch token_factory_not_enabled : VaultError

-- What the vault reads of the chain during a call: its own address and balances, the supply of a
-- token, an allowance for the vault, whether the text of a denom is that of a factory token, and
-- whether an asset has a label, a text that the name of the LP token is made of.
pub record Chain : Type 0 where
  pub contract_address : Addr
  pub balance : AssetInfo → Result StdError ℕ
  pub total_supply : Addr → Result StdError ℕ
  pub allowance : Addr → Addr → Result StdError ℕ
  pub is_factory_token : Denom → Bool
  pub get_label : AssetInfo → Result StdError (Unit {0})

-- The messages of a response; the callback of a flash loan is a call of the vault itself. The LP
-- token is instantiated from a code id.
pub data Message : Type 0 where
  send : CosmosMsg → Message
  call_after_trade : Addr → ℕ → ℕ → Message
  instantiate_lp_token : ℕ → Message

-- An error of the standard library, raised in a handler.
abbrev pub lift {ℓ} : {A : Type ℓ} → Result StdError A → Result VaultError A
lift (ok a) = ok a
lift (err e) = err (std e)
