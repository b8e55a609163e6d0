-- ===== src/EpochManager/Access.antt =====
-- Who may change what in the epoch manager.
use migaloo_core.Prelude.{ℕ, ◌≡◌, ◌≢◌, List, some, arith, ok}
use migaloo_core.Cosmwasm.{Cosmwasm, Addr}
use migaloo_core.Controllers.{Controllers}
use migaloo_core.EpochManager.{
  State, HookMsg, ExecuteMsg, create_epoch_msg, add_hook_msg, remove_hook_msg, update_config_msg,
  create_epoch, add_hook, remove_hook, update_config, execute,
}

module _ ⦃cw : Cosmwasm⦄ ⦃ct : Controllers⦄ where
  -- Whatever message somebody other than the admin sends, if it succeeds, then the admin, the
  -- configuration and the hooks are as before: only the epoch may have moved on.
  pub execute_by_others :
      (s : State) (t : ℕ) (sender : Addr) (msg : ExecuteMsg) (r : State × List HookMsg)
      → s.admin ≢ some sender
      → execute s t sender msg ≡ ok r
      → (r.0.admin ≡ s.admin) × (r.0.epoch_config ≡ s.epoch_config) × (r.0.hooks ≡ s.hooks)
  unfolding execute create_epoch add_hook remove_hook update_config
  execute_by_others s t sender create_epoch_msg r other h = ground arith
  execute_by_others s t sender (add_hook_msg a) r other h = grind (arith, ct.add_hook_admin)
  execute_by_others s t sender (remove_hook_msg a) r other h = grind (arith, ct.remove_hook_admin)
  execute_by_others s t sender (update_config_msg owner config) r other h =
      ground (arith, ct.is_admin_iff s.admin sender)
