-- ===== src/FeeDistributor/Messages.antt =====
-- The configuration and the dispatch of fee_distributor: helpers.rs, `update_config` of commands.rs,
-- `instantiate` and `execute` of contract.rs.
use migaloo_core.Prelude.{
  ℕ, ◌||◌, Option, none, some, List, [], ltb, ◌==◌, not, Result, ok, ◌>>=◌, ◌>>◌, fail_if, ok_or,
}
use migaloo_core.Cosmwasm.{Cosmwasm, Addr, MessageInfo, CosmosMsg, StdError, addr_validate}
use migaloo_core.Asset.{AssetInfo}
use migaloo_core.EpochManager.{EpochConfig}
use migaloo_core.WhaleLair.Commands.{or_default}
use migaloo_core.FeeDistributor.{
  Config, State, ContractError, std, unauthorized, invalid_grace_period, invalid_epoch_duration,
  grace_period_decrease, LairQueries,
}
use migaloo_core.FeeDistributor.Creation.{ForwardFees, create_new_epoch}
use migaloo_core.FeeDistributor.Claim.{claim}

abbrev pub max_grace_period : ℕ
max_grace_period = 30

abbrev pub day_in_nanoseconds : ℕ
day_in_nanoseconds = 86400000000000

unfoldable pub validate_grace_period : ℕ → Result ContractError (Unit {0})
validate_grace_period grace_period =
    fail_if (ltb grace_period 1 || ltb max_grace_period grace_period) invalid_grace_period

unfoldable pub validate_epoch_config : EpochConfig → Result ContractError (Unit {0})
validate_epoch_config config =
    fail_if (ltb config.duration day_in_nanoseconds) invalid_epoch_duration

-- The message to instantiate the contract.
pub record InstantiateMsg : Type 0 where
  pub bonding_contract_addr : Addr
  pub fee_collector_addr : Addr
  pub grace_period : ℕ
  pub epoch_config : EpochConfig
  pub distribution_asset : AssetInfo

-- The fields of `ExecuteMsg::UpdateConfig`.
pub record ConfigUpdate : Type 0 where
  pub owner : Option Addr
  pub bonding_contract_addr : Option Addr
  pub fee_collector_addr : Option Addr
  pub grace_period : Option ℕ
  pub distribution_asset : Option AssetInfo
  pub epoch_config : Option EpochConfig

pub data ExecuteMsg : Type 0 where
  new_epoch_msg claim_msg : ExecuteMsg
  update_config_msg : ConfigUpdate → ExecuteMsg

unfoldable pub new_epoch_config :
    EpochConfig → Option EpochConfig → Result ContractError EpochConfig
unfolding validate_epoch_config
new_epoch_config old none = ok old
new_epoch_config old (some config) = do validate_epoch_config config; ok config

-- A grace period never gets shorter.
unfoldable pub new_grace_period : ℕ → Option ℕ → Result ContractError ℕ
unfolding validate_grace_period
new_grace_period old none = ok old
new_grace_period old (some grace_period) = do
  validate_grace_period grace_period
  fail_if (ltb grace_period old) grace_period_decrease
  ok grace_period

-- What a call asks of the chain: the submessage for a new epoch, or messages that send funds.
pub data Response : Type 0 where
  forward : ForwardFees → Response
  messages : List CosmosMsg → Response

module _ ⦃cw : Cosmwasm⦄ where
  unfoldable pub valid_addr : Addr → Result ContractError Addr
  valid_addr a = ok_or (addr_validate a) (std StdError.generic_err)

  unfoldable pub new_addr : Addr → Option Addr → Result ContractError Addr
  unfolding valid_addr
  new_addr old none = ok old
  new_addr old (some a) = valid_addr a

  unfoldable pub instantiate : MessageInfo → InstantiateMsg → Result ContractError State
  unfolding validate_grace_period validate_epoch_config valid_addr
  instantiate info msg = do
    validate_grace_period msg.grace_period
    validate_epoch_config msg.epoch_config
    owner ← valid_addr info.sender
    bonding ← valid_addr msg.bonding_contract_addr
    collector ← valid_addr msg.fee_collector_addr
    let config : Config = record {
      owner = owner;
      bonding_contract_addr = bonding;
      fee_collector_addr = collector;
      grace_period = msg.grace_period;
      epoch_config = msg.epoch_config;
      distribution_asset = msg.distribution_asset;
    }
    ok (record { config = config; last_claimed_epoch = []; epochs = [] })

  unfoldable pub update_config : State → MessageInfo → ConfigUpdate → Result ContractError State
  unfolding new_addr new_epoch_config new_grace_period
  update_config s info u = do
    fail_if (not (info.sender == s.config.owner)) unauthorized
    owner ← new_addr s.config.owner u.owner
    bonding ← new_addr s.config.bonding_contract_addr u.bonding_contract_addr
    collector ← new_addr s.config.fee_collector_addr u.fee_collector_addr
    epoch_config ← new_epoch_config s.config.epoch_config u.epoch_config
    grace_period ← new_grace_period s.config.grace_period u.grace_period
    let config : Config = record {
      owner = owner;
      bonding_contract_addr = bonding;
      fee_collector_addr = collector;
      grace_period = grace_period;
      epoch_config = epoch_config;
      distribution_asset = or_default s.config.distribution_asset u.distribution_asset;
    }
    ok (record s { config = config })

  unfoldable pub execute :
      LairQueries → State → ℕ → MessageInfo → ExecuteMsg → Result ContractError (State × Response)
  execute q s block_time info new_epoch_msg = do
    submessage ← create_new_epoch s block_time
    ok (s, forward submessage)
  execute q s block_time info claim_msg = do r ← claim q s info; ok (r.0, messages r.1)
  execute q s block_time info (update_config_msg u) = do
    s' ← update_config s info u
    ok (s', messages [])
