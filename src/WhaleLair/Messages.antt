-- ===== src/WhaleLair/Messages.antt =====
-- The configuration and the dispatch of whale_lair: `update_config` of commands.rs and `execute`
-- of contract.rs.
use migaloo_core.Prelude.{
  ℕ, not, Option, none, some, List, [], ◌==◌, Result, ok, ◌>>=◌, ◌>>◌, fail_if, ok_or,
}
use migaloo_core.Cosmwasm.{Cosmwasm, Addr, Denom, MessageInfo, CosmosMsg, StdError, addr_validate}
use migaloo_core.Asset.{Asset}
use migaloo_core.WhaleLair.{Config, State, ContractError, std, unauthorized}
use migaloo_core.WhaleLair.Checks.{DistributorQueries, validate_growth_rate}
use migaloo_core.WhaleLair.Commands.{or_default, bond, unbond, withdraw}

pub data ExecuteMsg : Type 0 where
  bond_msg unbond_msg : Asset → ExecuteMsg
  withdraw_msg : Denom → ExecuteMsg
  update_config_msg : Option Addr → Option ℕ → Option ℕ → Option Addr → ExecuteMsg

module _ ⦃cw : Cosmwasm⦄ where
  -- `if let Some(a) = option { target = addr_validate(a)?; }`
  unfoldable pub new_addr : Addr → Option Addr → Result ContractError Addr
  new_addr old none = ok old
  new_addr old (some a) = ok_or (addr_validate a) (std StdError.generic_err)

  unfoldable pub new_growth_rate : ℕ → Option ℕ → Result ContractError ℕ
  unfolding validate_growth_rate
  new_growth_rate old none = ok old
  new_growth_rate old (some rate) = do validate_growth_rate rate; ok rate

  unfoldable pub update_config :
      State
      → MessageInfo
      → Option Addr
      → Option ℕ
      → Option ℕ
      → Option Addr
      → Result ContractError (State × List CosmosMsg)
  unfolding new_addr new_growth_rate
  update_config s info owner unbonding_period growth_rate fee_distributor_addr = do
    fail_if (not (s.config.owner == info.sender)) unauthorized
    owner' ← new_addr s.config.owner owner
    rate ← new_growth_rate s.config.growth_rate growth_rate
    distributor ← new_addr s.config.fee_distributor_addr fee_distributor_addr
    let config : Config = record {
      owner = owner';
      unbonding_period = or_default s.config.unbonding_period unbonding_period;
      growth_rate = rate;
      bonding_assets = s.config.bonding_assets;
      fee_distributor_addr = distributor;
    }
    ok (record s { config = config }, [])

  unfoldable pub execute :
      DistributorQueries
      → State
      → ℕ
      → MessageInfo
      → ExecuteMsg
      → Result ContractError (State × List CosmosMsg)
  execute q s block_time info (bond_msg asset) = bond q s block_time info asset
  execute q s block_time info (unbond_msg asset) = unbond q s block_time info asset
  execute q s block_time info (withdraw_msg denom) = withdraw s block_time info.sender denom
  execute q s block_time info (update_config_msg owner period rate distributor) =
      update_config s info owner period rate distributor
