-- ===== src/FeeDistributor/Grace.antt =====
-- The configuration of the fee distributor stays sound.
use migaloo_core.Prelude.{
  ℕ, List, not, ◌==◌, fail_if, ◌≤◌, ◌≡◌, ◌≢◌, Option, none, some, arith, ok, >>=-eq-ok,
}
use migaloo_core.Cosmwasm.{Cosmwasm, MessageInfo, CosmosMsg}
use migaloo_core.EpochManager.{EpochConfig}
use migaloo_core.FeeDistributor.{State, LairQueries, unauthorized}
use migaloo_core.FeeDistributor.Creation.{create_new_epoch}
use migaloo_core.FeeDistributor.Claim.{claim}
use migaloo_core.FeeDistributor.Messages.{
  max_grace_period, day_in_nanoseconds, InstantiateMsg, ExecuteMsg, new_epoch_msg, claim_msg,
  update_config_msg, Response, instantiate, update_config, new_addr, new_epoch_config,
  new_grace_period, execute, ConfigUpdate,
}

-- The grace period is between 1 and the maximum, and an epoch lasts a day at least.
pub record IsSound (s : State) : Type 0 where
  pub some_grace : 1 ≤ s.config.grace_period
  pub bounded_grace : s.config.grace_period ≤ max_grace_period
  pub a_day : day_in_nanoseconds ≤ s.config.epoch_config.duration

module _ ⦃cw : Cosmwasm⦄ where
  pub instantiate-IsSound :
      (info : MessageInfo) (msg : InstantiateMsg) (s : State)
      → instantiate info msg ≡ ok s
      → IsSound s
  unfolding instantiate
  instantiate-IsSound info msg s h = ground arith

  new_grace_period_lem :
      (old : ℕ) (o : Option ℕ) (n : ℕ)
      → new_grace_period old o ≡ ok n
      → 1 ≤ old
      → old ≤ max_grace_period
      → (old ≤ n) × (1 ≤ n) × (n ≤ max_grace_period)
  unfolding new_grace_period
  new_grace_period_lem old none n h a b = ground arith
  new_grace_period_lem old (some g) n h a b = ground arith

  new_epoch_config_lem :
      (old : EpochConfig) (o : Option EpochConfig) (c : EpochConfig)
      → new_epoch_config old o ≡ ok c
      → day_in_nanoseconds ≤ old.duration
      → day_in_nanoseconds ≤ c.duration
  unfolding new_epoch_config
  new_epoch_config_lem old none c h d = ground arith
  new_epoch_config_lem old (some e) c h d = ground arith

  update_config-IsSound :
      (s : State) (info : MessageInfo) (u : ConfigUpdate) (s' : State)
      → IsSound s
      → update_config s info u ≡ ok s'
      → IsSound s'
        × (s.config.grace_period ≤ s'.config.grace_period)
        × (info.sender ≡ s.config.owner)
  unfolding update_config
  update_config-IsSound s info u s' v h =
      let (_, e0, h0) =
        >>=-eq-ok (fail_if (not (info.sender == s.config.owner)) unauthorized) _ h in
      let (o, _, h1) = >>=-eq-ok (new_addr s.config.owner u.owner) _ h0 in
      let (b, _, h2) =
        >>=-eq-ok (new_addr s.config.bonding_contract_addr u.bonding_contract_addr) _ h1 in
      let (f, _, h3) = >>=-eq-ok (new_addr s.config.fee_collector_addr u.fee_collector_addr) _ h2 in
      let (c, ec, h4) = >>=-eq-ok (new_epoch_config s.config.epoch_config u.epoch_config) _ h3 in
      let (g, eg, h5) = >>=-eq-ok (new_grace_period s.config.grace_period u.grace_period) _ h4 in
      let (longer, low, high) =
        new_grace_period_lem s.config.grace_period u.grace_period g eg v.some_grace
          v.bounded_grace in
      let day = new_epoch_config_lem s.config.epoch_config u.epoch_config c ec v.a_day in
      (
        record { some_grace = ground arith; bounded_grace = ground arith; a_day = ground arith },
        ground arith,
        ground arith,
      )

  claim-config :
      (q : LairQueries) (s : State) (info : MessageInfo) (r : State × List CosmosMsg)
      → claim q s info ≡ ok r
      → r.0.config ≡ s.config
  unfolding claim
  claim-config q s info r h = ground arith

  -- Every message keeps the configuration sound and never shortens the grace period; somebody
  -- other than the owner cannot change the configuration at all.
  pub execute-IsSound :
      (q : LairQueries) (s : State) (t : ℕ) (info : MessageInfo) (msg : ExecuteMsg)
      (r : State × Response)
      → IsSound s
      → execute q s t info msg ≡ ok r
      → IsSound r.0
        × (s.config.grace_period ≤ r.0.config.grace_period)
        × (info.sender ≢ s.config.owner → r.0.config ≡ s.config)
  unfolding execute
  execute-IsSound q s t info new_epoch_msg r v h =
      let (m, _, k) = >>=-eq-ok (create_new_epoch s t) _ h in
      (ground arith, ground arith, λ other. ground arith)
  execute-IsSound q s t info claim_msg r v h =
      let (c, e, k) = >>=-eq-ok (claim q s info) _ h in
      let same = claim-config q s info c e in (ground arith, ground arith, λ other. ground arith)
  execute-IsSound q s t info (update_config_msg u) r v h =
      let (s', e, k) = >>=-eq-ok (update_config s info u) _ h in
      let (sound, longer, owner) = update_config-IsSound s info u s' v e in
      let final : s' ≡ r.0 = ground arith in
      (rw (← final) sound, rw (← final) longer, λ other. absurd (other owner))
