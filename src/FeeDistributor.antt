-- ===== src/FeeDistributor.antt =====
-- The fee distributor contract: contracts/liquidity_hub/fee_distributor/src and
-- packages/white-whale-std/src/fee_distributor.rs. This file holds its data and state; `Epochs`,
-- `Creation`, `Claim` and `Messages` hold its functions, the other children their proofs.
pub mod Epochs
pub mod Creation
pub mod Claim
pub mod Messages
pub mod Listing
pub mod Claimable
pub mod Rewards
pub mod Accounting
pub mod Forwarding
pub mod Grace
mod Tests
use migaloo_core.Prelude.{ℕ, List, [], Result, ok, err}
use migaloo_core.Cosmwasm.{Addr, StdError}
use migaloo_core.Asset.{Asset, AssetInfo}
use migaloo_core.Storage.{Map}
use migaloo_core.EpochManager.{EpochConfig}
use migaloo_core.WhaleLair.{GlobalIndex, default_global_index}
use migaloo_core.WhaleLair.Queries.{BondedResponse, BondingWeightResponse}

pub record Config : Type 0 where
  pub owner : Addr
  pub bonding_contract_addr : Addr
  pub fee_collector_addr : Addr
  pub grace_period : ℕ
  pub epoch_config : EpochConfig
  pub distribution_asset : AssetInfo

pub record Epoch : Type 0 where
  pub id : ℕ
  pub start_time : ℕ
  pub total : List Asset
  pub available : List Asset
  pub claimed : List Asset
  pub global_index : GlobalIndex

abbrev pub default_epoch : Epoch
default_epoch = record {
  id = 0;
  start_time = 0;
  total = [];
  available = [];
  claimed = [];
  global_index = default_global_index;
}

-- LAST_CLAIMED_EPOCH is keyed by address, EPOCHS by epoch id.
pub record State : Type 0 where
  pub config : Config
  pub last_claimed_epoch : Map ℕ ℕ
  pub epochs : Map ℕ Epoch

pub data ContractError : Type 0 where
  std : StdError → ContractError
  unauthorized current_epoch_not_expired genesis_epoch_not_started : ContractError
  nothing_to_claim invalid_reward invalid_grace_period grace_period_decrease : ContractError
  invalid_epoch_duration cannot_read_epoch unknown_reply_id : ContractError

-- The answers of the bonding contract at the time of the call, by contract address.
pub record LairQueries : Type 0 where
  pub bonded : Addr → Addr → Result StdError BondedResponse
  pub weight : Addr → Addr → ℕ → GlobalIndex → Result StdError BondingWeightResponse
  pub global_index : Addr → Result StdError GlobalIndex

-- An error of the standard library, raised in a handler.
abbrev pub lift {ℓ} : {A : Type ℓ} → Result StdError A → Result ContractError A
lift (ok a) = ok a
lift (err e) = err (std e)
