-- ===== src/EpochManager.antt =====
-- The epoch manager contract: contracts/liquidity_hub/epoch-manager/src/{contract,commands,queries,
-- state}.rs and packages/white-whale-std/src/epoch_manager/epoch_manager.rs. A handler returns the
-- new state with the submessages for the hooks, or an error, after which the chain restores the
-- state of before the call. Times are nanoseconds.
pub mod Creation
pub mod Access
mod Tests
use migaloo_core.Prelude.{
  ℕ, ◌*◌, ◌-◌, ◌≡◌, Bool, true, false, not, Option, none, some, List, [], ◌∷◌, map, ltb, ◌==◌,
  if◌then◌else◌, Result, ok, err, ◌>>=◌, ◌>>◌, fail_if, ok_or,
}
use migaloo_core.Cosmwasm.{
  Cosmwasm, Addr, StdError, checked_add, checked_sub, checked_mul, addr_validate,
}
use migaloo_core.Controllers.{Controllers}

pub record EpochConfig : Type 0 where
  pub duration : ℕ
  pub genesis_epoch : ℕ

pub record EpochV2 : Type 0 where
  pub id : ℕ
  pub start_time : ℕ

-- The items of state.rs: ADMIN, CONFIG, EPOCH and HOOKS.
pub record State : Type 0 where
  pub admin : Option Addr
  pub epoch_config : EpochConfig
  pub epoch : EpochV2
  pub hooks : List Addr

pub data ContractError : Type 0 where
  std : StdError → ContractError
  admin_error hook_error epoch_overflow current_epoch_not_expired : ContractError

pub data ExecuteMsg : Type 0 where
  create_epoch_msg : ExecuteMsg
  add_hook_msg remove_hook_msg : Addr → ExecuteMsg
  update_config_msg : Option Addr → Option EpochConfig → ExecuteMsg

-- A submessage to a hook, with the epoch that `EpochChangedHookMsg` carries.
pub record HookMsg : Type 0 where
  pub contract_addr : Addr
  pub current_epoch : EpochV2

-- `prepare_hooks`: one submessage for each hook.
unfoldable pub prepare_hooks : EpochV2 → List Addr → List HookMsg
prepare_hooks epoch = map (λ hook. record { contract_addr = hook; current_epoch = epoch })

module _ ⦃cw : Cosmwasm⦄ ⦃ct : Controllers⦄ where
  unfoldable pub instantiate : ℕ → Addr → EpochV2 → EpochConfig → Result ContractError State
  instantiate block_time sender start_epoch config = do
    fail_if (ltb start_epoch.start_time block_time) (std StdError.generic_err)
    fail_if (not (config.genesis_epoch == start_epoch.start_time)) (std StdError.generic_err)
    ok (record { admin = some sender; epoch_config = config; epoch = start_epoch; hooks = [] })

  unfoldable pub add_hook : State → Addr → Addr → Result ContractError (State × List HookMsg)
  add_hook s sender contract_addr = do
    hook ← ok_or (addr_validate contract_addr) (std StdError.generic_err)
    hooks ← ok_or (ct.execute_add_hook s.admin sender s.hooks hook) hook_error
    ok (record s { hooks = hooks }, [])

  unfoldable pub remove_hook : State → Addr → Addr → Result ContractError (State × List HookMsg)
  remove_hook s sender contract_addr = do
    hook ← ok_or (addr_validate contract_addr) (std StdError.generic_err)
    hooks ← ok_or (ct.execute_remove_hook s.admin sender s.hooks hook) hook_error
    ok (record s { hooks = hooks }, [])

  -- `minus_nanos` and `plus_nanos` panic where the time does not fit.
  unfoldable pub create_epoch : State → ℕ → Result ContractError (State × List HookMsg)
  create_epoch s block_time = do
    elapsed ← ok_or (checked_sub block_time s.epoch.start_time) (std StdError.panicked)
    fail_if (ltb elapsed s.epoch_config.duration) current_epoch_not_expired
    id ← ok_or (checked_add 64 s.epoch.id 1) epoch_overflow
    start_time ←
        ok_or (checked_add 64 s.epoch.start_time s.epoch_config.duration) (std StdError.panicked)
    let epoch : EpochV2 = record { id = id; start_time = start_time }
    ok (record s { epoch = epoch }, prepare_hooks epoch s.hooks)

  set_owner : State → Option Addr → Result ContractError State
  set_owner s none = ok s
  set_owner s (some owner) = do
    new_admin ← ok_or (addr_validate owner) (std StdError.generic_err)
    ok (record s { admin = some new_admin })

  set_epoch_config : State → Option EpochConfig → State
  set_epoch_config s none = s
  set_epoch_config s (some config) = record s { epoch_config = config }

  unfoldable pub update_config :
      State → Addr → Option Addr → Option EpochConfig → Result ContractError (State × List HookMsg)
  unfolding set_owner set_epoch_config
  update_config s sender owner config = do
    fail_if (not (ct.is_admin s.admin sender)) admin_error
    s' ← set_owner s owner
    ok (set_epoch_config s' config, [])

  unfoldable pub execute :
      State → ℕ → Addr → ExecuteMsg → Result ContractError (State × List HookMsg)
  execute s block_time sender create_epoch_msg = create_epoch s block_time
  execute s block_time sender (add_hook_msg a) = add_hook s sender a
  execute s block_time sender (remove_hook_msg a) = remove_hook s sender a
  execute s block_time sender (update_config_msg owner config) = update_config s sender owner config

  -- `saturating_sub` stops at 0, as `-` does; the products and differences panic.
  unfoldable pub query_epoch : State → ℕ → Result StdError EpochV2
  query_epoch s id = if s.epoch.id == id then ok s.epoch else (do
    back ← ok_or (checked_mul 64 s.epoch_config.duration (s.epoch.id - id)) StdError.panicked
    start_time ← ok_or (checked_sub s.epoch.start_time back) StdError.panicked
    ok (record { id = id; start_time = start_time }))
