-- ===== src/EpochManager/Tests.antt =====
-- Concrete runs of the epoch manager.
use migaloo_core.Prelude.{ℕ, ◌+◌, ◌≡◌, ◌*◌, ◌/◌, refl, [], ◌∷◌, some, arith, ok, err}
use migaloo_core.Cosmwasm.{Cosmwasm, documented}
use migaloo_core.Controllers.{Controllers, registry}
use migaloo_core.EpochManager.{
  State, create_epoch, query_epoch, execute, create_epoch_msg, current_epoch_not_expired,
  prepare_hooks,
}
use migaloo_core.EpochManager.Creation.{
  create_epochs, create_and_tell, announcements, repeat, create_epochs_catch_up,
  create_epochs_schedule, query_epoch_history, query_epoch_future,
}
use migaloo_core.EpochManager.Access.{execute_by_others}

instance abbrev cosmwasm : Cosmwasm
cosmwasm = documented

instance abbrev controllers : Controllers
controllers = registry

-- A one-day epoch that started at day 10.
abbrev day : ℕ
day = 86400000000000

abbrev start : State
start = record {
  admin = some 7;
  epoch_config = record { duration = day; genesis_epoch = 10 * day };
  epoch = record { id = 3; start_time = 10 * day };
  hooks = 21 ∷ 22 ∷ [];
}

abbrev two_days_on : State
two_days_on = record start { epoch = record { id = 5; start_time = 12 * day } }

runs : create_epochs start (11 * day ∷ 13 * day ∷ []) ≡ ok two_days_on
unfolding create_epochs create_epoch
runs = refl

too_early : create_epoch start (10 * day + 5) ≡ err current_epoch_not_expired
unfolding create_epoch
too_early = refl

-- At noon of day 12 two epochs are due.
create_epochs_catch_up_example :
    (create_and_tell start (repeat 2 (12 * day + day / 2))
      ≡ ok (
        record start { epoch = record { id = 5; start_time = 12 * day } },
        announcements start.epoch day 2 start.hooks,
      ))
    × (create_epoch
          (record start { epoch = record { id = 5; start_time = 12 * day } })
          (12 * day + day / 2)
        ≡ err current_epoch_not_expired)
create_epochs_catch_up_example =
    create_epochs_catch_up start (12 * day + day / 2) 2 (omega arith) (omega arith) (omega arith)
      (omega arith)

create_epochs_schedule_example :
    (two_days_on.epoch.id ≡ start.epoch.id + 2)
    × (two_days_on.epoch.start_time ≡ start.epoch.start_time + day * 2)
    × (two_days_on.epoch_config ≡ start.epoch_config)
create_epochs_schedule_example =
    create_epochs_schedule start (11 * day ∷ 13 * day ∷ []) two_days_on runs

query_epoch_history_example : query_epoch two_days_on 3 ≡ ok start.epoch
query_epoch_history_example =
    query_epoch_history start (11 * day ∷ 13 * day ∷ []) two_days_on (omega arith) runs

query_epoch_future_example : query_epoch start 9 ≡ ok (record { id = 9; start_time = 10 * day })
query_epoch_future_example = query_epoch_future start 9 (omega arith)

created :
    execute start (11 * day) 8 create_epoch_msg
    ≡ ok (
      record start { epoch = record { id = 4; start_time = 11 * day } },
      prepare_hooks (record { id = 4; start_time = 11 * day }) start.hooks,
    )
unfolding execute create_epoch
created = refl

execute_by_others_example :
    let s : State = record start { epoch = record { id = 4; start_time = 11 * day } } in
    (s.admin ≡ start.admin) × (s.epoch_config ≡ start.epoch_config) × (s.hooks ≡ start.hooks)
execute_by_others_example =
    execute_by_others start (11 * day) 8 create_epoch_msg _ (λ e. ground arith) created
