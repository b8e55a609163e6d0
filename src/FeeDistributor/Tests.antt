-- ===== src/FeeDistributor/Tests.antt =====
-- Concrete runs of the fee distributor.
use migaloo_core.Prelude.{
  find, Option, ℕ, ◌+◌, ◌*◌, ◌/◌, ◌≤◌, ◌≡◌, ◌≢◌, refl, List, [], ◌∷◌, map, none, some, arith, ok,
}
use migaloo_core.Cosmwasm.{Cosmwasm, documented, decimal_one, MessageInfo, CosmosMsg}
use migaloo_core.Asset.{
  Asset, AssetInfo, native_token, into_msg, message_of, aggregate_assets, add_asset,
}
use migaloo_core.Asset.Sums.{amount_of}
use migaloo_core.Storage.{total, may_load, save}
use migaloo_core.Storage.Keys.{nat_key}
use migaloo_core.Storage.Entries.{IsSorted, Holds}
use migaloo_core.WhaleLair.{default_global_index}
use migaloo_core.FeeDistributor.{Config, Epoch, State, LairQueries}
use migaloo_core.FeeDistributor.Epochs.{
  descending, get_claimable_epochs, get_expiring_epoch, unclaimed_epochs, query_claimable,
}
use migaloo_core.FeeDistributor.Creation.{forward_expiring, reply}
use migaloo_core.FeeDistributor.Claim.{
  take_from, take_reward, add_to, add_claimed, record_claimed, check_fee, pay_reward, claim_fee,
  claim_fees, claim_epochs, claim,
}
use migaloo_core.FeeDistributor.Messages.{
  day_in_nanoseconds, update_config, new_addr, new_epoch_config, new_grace_period,
  validate_grace_period, update_config_msg, messages, execute, ConfigUpdate,
}
use migaloo_core.FeeDistributor.Listing.{IsDescending}
use migaloo_core.FeeDistributor.Claimable.{
  has_id, IsStart, claimable_at, query_claimable-claimable_at,
}
use migaloo_core.FeeDistributor.Accounting.{IsWell, available_of, claim_conserves}
use migaloo_core.FeeDistributor.Forwarding.{reply_conserves}
use migaloo_core.FeeDistributor.Grace.{IsSound, execute-IsSound}

instance abbrev cosmwasm : Cosmwasm
cosmwasm = documented

-- A bonding contract where 7 has half of the weight, and whose global index is the default.
abbrev lair : LairQueries
lair = record {
  bonded = λ contract address. ok (record {
    total_bonded = 10;
    bonded_assets = record { info = native_token 5; amount = 10 } ∷ [];
    first_bonded_epoch_id = 0;
  });
  weight = λ contract address t index.
      ok (record { weight = 10; global_weight = 20; share = decimal_one / 2; timestamp = t });
  global_index = λ contract. ok default_global_index;
}

abbrev fees : ℕ → List Asset
fees n = record { info = native_token 6; amount = n } ∷ []

abbrev epoch_with : ℕ → List Asset → List Asset → List Asset → Epoch
epoch_with id all left paid = record {
  id = id;
  start_time = id * day_in_nanoseconds;
  total = all;
  available = left;
  claimed = paid;
  global_index = default_global_index;
}

abbrev settings : Config
settings = record {
  owner = 1;
  bonding_contract_addr = 2;
  fee_collector_addr = 3;
  grace_period = 2;
  epoch_config = record { duration = day_in_nanoseconds; genesis_epoch = day_in_nanoseconds };
  distribution_asset = native_token 6;
}

abbrev start : State
start = record {
  config = settings;
  last_claimed_epoch = [];
  epochs =
      (1, epoch_with 1 (fees 100) (fees 100) [])
      ∷ (2, epoch_with 2 (fees 50) (fees 40) (fees 10))
      ∷ [];
}

abbrev claimed_by_7 : State
claimed_by_7 = record start {
  last_claimed_epoch = (7, 2) ∷ [];
  epochs =
      (1, epoch_with 1 (fees 100) (fees 50) (fees 50))
      ∷ (2, epoch_with 2 (fees 50) (fees 15) (fees 35))
      ∷ [];
}

abbrev by : ℕ → MessageInfo
by who = record { sender = who; funds = [] }

abbrev payout : List CosmosMsg
payout = CosmosMsg.bank_send 7 (record { denom = 6; amount = 75 } ∷ []) ∷ []

listed :
    query_claimable lair start 7
    ≡ ok (epoch_with 2 (fees 50) (fees 40) (fees 10) ∷ epoch_with 1 (fees 100) (fees 100) [] ∷ [])
unfolding query_claimable unclaimed_epochs get_claimable_epochs descending may_load
listed = refl

claim_runs : claim lair start (by 7) ≡ ok (claimed_by_7, payout)
unfolding claim query_claimable unclaimed_epochs get_claimable_epochs descending may_load save
    claim_epochs claim_fees claim_fee check_fee pay_reward take_reward take_from record_claimed
    add_claimed add_to aggregate_assets add_asset into_msg message_of
claim_runs = refl

-- The epoch 1 leaves the grace period, and its fees join those of the epoch 3.
abbrev after_reply : State
after_reply = record start {
  epochs =
      (1, epoch_with 1 (fees 100) [] [])
      ∷ (2, epoch_with 2 (fees 50) (fees 40) (fees 10))
      ∷ (3, epoch_with 3 (fees 130) (fees 130) [])
      ∷ [];
}

reply_runs : reply lair start 1 (some (epoch_with 3 (fees 30) (fees 30) [])) ≡ ok after_reply
unfolding reply forward_expiring get_expiring_epoch get_claimable_epochs descending save
    aggregate_assets add_asset
reply_runs = refl

query_claimable-claimable_at_example :
    (from : Option ℕ) × IsStart lair start 7 from
    × IsDescending
        (epoch_with 2 (fees 50) (fees 40) (fees 10) ∷ epoch_with 1 (fees 100) (fees 100) [] ∷ [])
    × ((k : ℕ)
        → find (has_id k) (
            epoch_with 2 (fees 50) (fees 40) (fees 10) ∷ epoch_with 1 (fees 100) (fees 100) [] ∷ [])
          ≡ claimable_at start.epochs 2 from k)
query_claimable-claimable_at_example =
    query_claimable-claimable_at lair start 7 _ ((refl, tt), (tt, tt)) (refl, (refl, tt)) listed

claim_conserves_example :
    (paid : List Asset) × (payout ≡ map (λ fee. into_msg fee 7) paid)
    × ((j : AssetInfo)
        → amount_of j paid + total (available_of j) claimed_by_7.epochs
          ≡ total (available_of j) start.epochs)
    × IsSorted claimed_by_7.epochs
    × Holds IsWell claimed_by_7.epochs
    × (claimed_by_7.config ≡ start.config)
claim_conserves_example =
    claim_conserves lair start (by 7) (claimed_by_7, payout) ((refl, tt), (tt, tt))
      ((refl, (tt, tt)), ((refl, (tt, tt)), tt)) claim_runs

reply_conserves_example :
    IsSorted after_reply.epochs
    × ((j : AssetInfo)
        → total (available_of j) after_reply.epochs
          ≡ total (available_of j) start.epochs + amount_of j (fees 30))
    × (after_reply.config ≡ start.config)
    × (after_reply.last_claimed_epoch ≡ start.last_claimed_epoch)
unfolding may_load
reply_conserves_example =
    reply_conserves lair start 1 (epoch_with 3 (fees 30) (fees 30) []) after_reply (omega arith)
      ((refl, tt), (tt, tt)) (refl, (refl, tt)) refl refl reply_runs

abbrev longer_grace : ConfigUpdate
longer_grace = record {
  owner = none;
  bonding_contract_addr = none;
  fee_collector_addr = none;
  grace_period = some 21;
  distribution_asset = none;
  epoch_config = none;
}

abbrev with_longer_grace : State
with_longer_grace = record start { config = record settings { grace_period = 21 } }

update_runs :
    execute lair start 0 (by 1) (update_config_msg longer_grace)
    ≡ ok (with_longer_grace, messages [])
unfolding execute update_config new_addr new_epoch_config new_grace_period validate_grace_period
update_runs = refl

start-IsSound : IsSound start
start-IsSound = record {
  some_grace = omega arith;
  bounded_grace = omega arith;
  a_day = omega arith;
}

execute-IsSound_example :
    IsSound with_longer_grace
    × (2 ≤ 21)
    × (◌≢◌ {A = ℕ} 1 1 → with_longer_grace.config ≡ start.config)
execute-IsSound_example =
    execute-IsSound lair start 0 (by 1) (update_config_msg longer_grace)
      (with_longer_grace, messages []) start-IsSound update_runs
