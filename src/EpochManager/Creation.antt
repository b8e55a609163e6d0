-- ===== src/EpochManager/Creation.antt =====
-- Creating epochs, `create_epoch` and `query_epoch` of the epoch manager.
use migaloo_core.Prelude.{
  ℕ, zero, suc, refl, err, ◌++◌, ◌+◌, ◌-◌, ◌*◌, ◌^◌, ◌≤◌, ◌<◌, ◌≡◌, List, [], ◌∷◌, length, arith,
  Result, ok, ◌>>=◌, >>=-eq-ok,
}
use migaloo_core.Cosmwasm.{
  Addr, Cosmwasm, checked_add_lem, checked_sub_lem, checked_mul_lem, cosmwasm_laws,
}
use migaloo_core.Controllers.{Controllers}
use migaloo_core.EpochManager.{
  State, EpochV2, HookMsg, ContractError, prepare_hooks, current_epoch_not_expired, create_epoch,
  query_epoch,
}

-- The epoch after one, with the next id and one duration later.
abbrev pub epoch_after : EpochV2 → ℕ → EpochV2
epoch_after e duration = record { id = e.id + 1; start_time = e.start_time + duration }

-- Every hook is told of an epoch.
abbrev pub told : EpochV2 → List Addr → List HookMsg
told e [] = []
told e (hook ∷ hooks) = record { contract_addr = hook; current_epoch = e } ∷ told e hooks

-- Every hook is told of `n` epochs after one, one epoch after the other.
abbrev pub announcements : EpochV2 → ℕ → ℕ → List Addr → List HookMsg
announcements e duration zero hooks = []
announcements e duration (suc n) hooks =
    told (epoch_after e duration) hooks ++ announcements (epoch_after e duration) duration n hooks

abbrev pub repeat : ℕ → ℕ → List ℕ
repeat zero t = []
repeat (suc n) t = t ∷ repeat n t

module _ ⦃cw : Cosmwasm⦄ ⦃ct : Controllers⦄ where
  -- Calls of `create_epoch` at the given block times, one after the other.
  unfoldable pub create_epochs : State → List ℕ → Result ContractError State
  create_epochs s [] = ok s
  create_epochs s (t ∷ ts) = do r ← create_epoch s t; create_epochs r.0 ts

  pub create_epoch_step :
      (s : State) (t : ℕ) (r : State × List HookMsg)
      → create_epoch s t ≡ ok r
      → (r.0.epoch.id ≡ s.epoch.id + 1)
        × (r.0.epoch.start_time ≡ s.epoch.start_time + s.epoch_config.duration)
        × (r.0.epoch.start_time ≤ t)
        × (r.0.epoch.start_time < 2 ^ 64)
        × (r.0.epoch_config ≡ s.epoch_config)
  unfolding create_epoch
  create_epoch_step s t r h = grind (arith, checked_add_lem, checked_sub_lem)

  -- The chain's schedule: after any number of created epochs the id has grown by that number and
  -- the start time by that many durations, whatever the block times were.
  pub create_epochs_schedule :
      (s : State) (ts : List ℕ) (s' : State)
      → create_epochs s ts ≡ ok s'
      → (s'.epoch.id ≡ s.epoch.id + length ts)
        × (s'.epoch.start_time ≡ s.epoch.start_time + s.epoch_config.duration * length ts)
        × (s'.epoch_config ≡ s.epoch_config)
  unfolding create_epochs
  create_epochs_schedule s [] s' h = ground arith
  create_epochs_schedule s (t ∷ ts) s' h =
      let (r, e, k) = >>=-eq-ok (create_epoch s t) _ h in
      grind (arith, create_epoch_step s t r e, create_epochs_schedule r.0 ts s' k)

  -- The same calls with the messages that they send, in their order.
  unfoldable pub create_and_tell : State → List ℕ → Result ContractError (State × List HookMsg)
  create_and_tell s [] = ok (s, [])
  create_and_tell s (t ∷ ts) = do
    r ← create_epoch s t
    later ← create_and_tell r.0 ts
    ok (later.0, r.1 ++ later.1)

  create_epoch_due :
      (s : State) (t : ℕ)
      → s.epoch.start_time + s.epoch_config.duration ≤ t
      → t < 2 ^ 64
      → s.epoch.id + 1 < 2 ^ 64
      → create_epoch s t
        ≡ ok (
          record s { epoch = epoch_after s.epoch s.epoch_config.duration },
          told (epoch_after s.epoch s.epoch_config.duration) s.hooks,
        )
  unfolding create_epoch prepare_hooks
  create_epoch_due s t due bt bi = simp cosmwasm_laws (ground arith)

  create_epoch_early :
      (s : State) (t : ℕ)
      → s.epoch.start_time ≤ t
      → t < s.epoch.start_time + s.epoch_config.duration
      → create_epoch s t ≡ err current_epoch_not_expired
  unfolding create_epoch
  create_epoch_early s t begun early = simp cosmwasm_laws (ground arith)

  -- However late the chain is, calls of `create_epoch` at one block time catch up, and go no
  -- further: where `n` durations have passed since the current epoch began, but not one more, and
  -- neither the block time nor the last id reaches 2 ^ 64, just `n` calls succeed. They send every
  -- hook a message for each of the new epochs, in their order, whose ids go up by one and whose
  -- starts by one duration each, and one more call fails, since the last epoch has not expired.
  pub create_epochs_catch_up :
      (s : State) (t n : ℕ)
      → s.epoch.start_time + n * s.epoch_config.duration ≤ t
      → t < s.epoch.start_time + n * s.epoch_config.duration + s.epoch_config.duration
      → t < 2 ^ 64
      → s.epoch.id + n < 2 ^ 64
      → let last : State = record s {
        epoch = record {
          id = s.epoch.id + n;
          start_time = s.epoch.start_time + n * s.epoch_config.duration;
        };
      } in
        (create_and_tell s (repeat n t)
          ≡ ok (last, announcements s.epoch s.epoch_config.duration n s.hooks))
        × (create_epoch last t ≡ err current_epoch_not_expired)
  unfolding create_and_tell
  create_epochs_catch_up s t zero begun early bt bi =
      let id : s.epoch.id + 0 ≡ s.epoch.id = omega arith in
      let start : s.epoch.start_time + 0 * s.epoch_config.duration ≡ s.epoch.start_time =
        omega arith in
      rw id (rw start (refl, create_epoch_early s t (omega arith) (omega arith)))
  create_epochs_catch_up s t (suc n) begun early bt bi =
      let next : State = record s { epoch = epoch_after s.epoch s.epoch_config.duration } in
      let expanded : suc n * s.epoch_config.duration
          ≡ s.epoch_config.duration + n * s.epoch_config.duration =
        grind arith in
      let step = create_epoch_due s t (omega arith) bt (omega arith) in
      let (runs, ends) =
        create_epochs_catch_up next t n (omega arith) (omega arith) bt (omega arith) in
      let ids : s.epoch.id + 1 + n ≡ s.epoch.id + suc n = omega arith in
      let starts : s.epoch.start_time + s.epoch_config.duration + n * s.epoch_config.duration
          ≡ s.epoch.start_time + suc n * s.epoch_config.duration =
        omega arith in
      rw (← ids) (rw (← starts) (rw step (rw runs refl, ends)))

  create_epochs_bound :
      (s : State) (ts : List ℕ) (s' : State)
      → create_epochs s ts ≡ ok s'
      → s.epoch.start_time < 2 ^ 64
      → s'.epoch.start_time < 2 ^ 64
  unfolding create_epochs
  create_epochs_bound s [] s' h b = ground arith
  create_epochs_bound s (t ∷ ts) s' h b =
      let (r, e, k) = >>=-eq-ok (create_epoch s t) _ h in
      create_epochs_bound r.0 ts s' k (create_epoch_step s t r e).3

  -- `query_epoch` recovers the past: however many calls of `create_epoch` have succeeded since, with
  -- no other message in between that could change the duration, the query for an earlier id gives
  -- the epoch as it was when it was current, if its start time was below 2 ^ 64.
  pub query_epoch_history :
      (s : State) (ts : List ℕ) (s' : State)
      → s.epoch.start_time < 2 ^ 64
      → create_epochs s ts ≡ ok s'
      → query_epoch s' s.epoch.id ≡ ok s.epoch
  unfolding query_epoch
  query_epoch_history s ts s' b h =
      let (i, t, c) = create_epochs_schedule s ts s' h in
      let bound : s'.epoch.start_time < 2 ^ 64 = create_epochs_bound s ts s' h b in
      grind (arith, checked_mul_lem, checked_sub_lem)

  -- The query for an epoch that is yet to come answers with the current start time, whatever the
  -- id and the duration are.
  pub query_epoch_future :
      (s : State) (id : ℕ)
      → s.epoch.id < id
      → query_epoch s id ≡ ok (record { id = id; start_time = s.epoch.start_time })
  unfolding query_epoch
  query_epoch_future s id h =
      let none_back : s.epoch.id - id ≡ 0 = omega arith in
      grind (arith, checked_mul_lem, checked_sub_lem)
