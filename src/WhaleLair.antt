-- ===== src/WhaleLair.antt =====
-- The bonding contract: contracts/liquidity_hub/whale_lair/src and
-- packages/white-whale-std/src/whale_lair.rs. This file holds its data and state; `Weights`,
-- `Checks`, `Commands` and `Queries` hold its functions, the other children their proofs.
pub mod Weights
pub mod Checks
pub mod Commands
pub mod Messages
pub mod Queries
pub mod Bonded
pub mod Unbonding
pub mod Withdrawal
pub mod Growth
mod Tests
use migaloo_core.Prelude.{ℕ, Option, List, []}
use migaloo_core.Cosmwasm.{Addr, StdError}
use migaloo_core.Asset.{Asset, AssetInfo}
use migaloo_core.Storage.{Map}

pub record Config : Type 0 where
  pub owner : Addr
  pub unbonding_period : ℕ
  pub growth_rate : ℕ
  pub bonding_assets : List AssetInfo
  pub fee_distributor_addr : Addr

pub record Bond : Type 0 where
  pub asset : Asset
  pub timestamp : ℕ
  pub weight : ℕ

pub record GlobalIndex : Type 0 where
  pub bonded_amount : ℕ
  pub bonded_assets : List Asset
  pub timestamp : ℕ
  pub weight : ℕ

abbrev pub default_global_index : GlobalIndex
default_global_index = record { bonded_amount = 0; bonded_assets = []; timestamp = 0; weight = 0 }

-- BOND is keyed by address and denom, UNBOND by address, denom and time of the unbonding.
pub record State : Type 0 where
  pub config : Config
  pub bonds : Map (ℕ × ℕ) Bond
  pub unbonds : Map (ℕ × ℕ × ℕ) Bond
  pub global : Option GlobalIndex

pub data ContractError : Type 0 where
  std : StdError → ContractError
  unauthorized invalid_bonding_asset asset_mismatch unclaimed_rewards : ContractError
  new_epoch_not_created_yet insufficient_bond invalid_unbonding_amount : ContractError
  nothing_to_unbond nothing_to_withdraw invalid_growth_rate : ContractError
  invalid_bonding_assets_limit : ContractError
