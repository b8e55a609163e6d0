-- ===== src/WhaleLair/Tests.antt =====
-- Concrete runs of the bonding contract.
use migaloo_core.Prelude.{
  ℕ, ◌+◌, ◌-◌, ◌*◌, ◌/◌, ◌≤◌, arith, ◌≡◌, refl, List, [], ◌∷◌, none, some, ok, ◌>>=◌,
}
use migaloo_core.Cosmwasm.{Cosmwasm, documented, decimal_one, MessageInfo, CosmosMsg}
use migaloo_core.Asset.{
  Asset, native_token, aggregate_assets, add_asset, deduct_assets, deduct_asset,
}
use migaloo_core.Storage.{total, may_load, save, remove}
use migaloo_core.WhaleLair.{Bond, State}
use migaloo_core.WhaleLair.Weights.{get_weight, update_local_weight, update_global_weight}
use migaloo_core.WhaleLair.Checks.{DistributorQueries}
use migaloo_core.WhaleLair.Commands.{
  bond, unbond, withdraw, unbondings_of, bond_local, raise_bond, bond_global, raise_index,
  unbond_local, lower_bond, keep_bond, unbond_global, lower_index, withdraw_loop, withdraw_one,
}
use migaloo_core.WhaleLair.Queries.{query_withdrawable, query_weight, weight_loop, bonds_of}
use migaloo_core.WhaleLair.Growth.{get_weight_twice}
use migaloo_core.WhaleLair.Bonded.{IsCounted, bonded, bond-IsCounted}
use migaloo_core.WhaleLair.Unbonding.{unbond-IsCounted, unbond_conserves}
use migaloo_core.WhaleLair.Withdrawal.{matured_amount, withdraw_pays}

instance abbrev cosmwasm : Cosmwasm
cosmwasm = documented

-- A distributor whose first epoch is still to come and which has nothing to claim.
abbrev quiet : DistributorQueries
quiet = record {
  claimable = λ distributor address. ok [];
  current_epoch = λ distributor. ok (record { id = 0; start_time = 0 });
  epoch_config = λ distributor. ok (record { duration = 86400000000000; genesis_epoch = 0 });
}

abbrev second : ℕ
second = 1000000000

-- Denom 5 can be bonded, unbonding takes 10 seconds, and a token gains a weight of 1 each second.
abbrev start : State
start = record {
  config = record {
    owner = 1;
    unbonding_period = 10 * second;
    growth_rate = decimal_one;
    bonding_assets = native_token 5 ∷ [];
    fee_distributor_addr = 2;
  };
  bonds = [];
  unbonds = [];
  global = none;
}

abbrev tokens : ℕ → Asset
tokens n = record { info = native_token 5; amount = n }

abbrev paying : ℕ → ℕ → MessageInfo
paying who n = record { sender = who; funds = record { denom = 5; amount = n } ∷ [] }

abbrev bond_at : ℕ → ℕ → ℕ → Bond
bond_at t n w = record { asset = tokens n; timestamp = t * second; weight = w }

abbrev bonded_50 : State
bonded_50 = record start {
  bonds = ((7, 5), bond_at 100 50 50) ∷ [];
  global = some (record {
    bonded_amount = 50;
    bonded_assets = tokens 50 ∷ [];
    timestamp = 100 * second;
    weight = 50;
  });
}

-- Two seconds later 20 of the 50 are unbonded, with 40 % of the weight.
abbrev unbonding_20 : State
unbonding_20 = record start {
  bonds = ((7, 5), bond_at 102 30 90) ∷ [];
  unbonds = ((7, 5, 102 * second), bond_at 102 20 0) ∷ [];
  global = some (record {
    bonded_amount = 30;
    bonded_assets = tokens 30 ∷ [];
    timestamp = 102 * second;
    weight = 90;
  });
}

-- The same address unbonds 10 more in the same block: the record of the 20 is overwritten.
abbrev unbonding_10 : State
unbonding_10 = record start {
  bonds = ((7, 5), bond_at 102 20 61) ∷ [];
  unbonds = ((7, 5, 102 * second), bond_at 102 10 0) ∷ [];
  global = some (record {
    bonded_amount = 20;
    bonded_assets = tokens 20 ∷ [];
    timestamp = 102 * second;
    weight = 61;
  });
}

abbrev withdrawn : State
withdrawn = record unbonding_20 { unbonds = [] }

abbrev refund : ℕ → List CosmosMsg
refund n = CosmosMsg.bank_send 7 (record { denom = 5; amount = n } ∷ []) ∷ []

bond_runs : bond quiet start (100 * second) (paying 7 50) (tokens 50) ≡ ok (bonded_50, [])
unfolding bond bond_local raise_bond bond_global raise_index update_local_weight
    update_global_weight get_weight save may_load aggregate_assets add_asset
bond_runs = refl

unbond_runs : unbond quiet bonded_50 (102 * second) (paying 7 0) (tokens 20) ≡ ok (unbonding_20, [])
unfolding unbond unbond_local lower_bond keep_bond unbond_global lower_index update_local_weight
    update_global_weight get_weight save remove may_load deduct_assets deduct_asset
unbond_runs = refl

unbond_again_runs :
    unbond quiet unbonding_20 (102 * second) (paying 7 0) (tokens 10) ≡ ok (unbonding_10, [])
unfolding unbond unbond_local lower_bond keep_bond unbond_global lower_index update_local_weight
    update_global_weight get_weight save remove may_load deduct_assets deduct_asset
unbond_again_runs = refl

withdraw_runs : withdraw unbonding_20 (120 * second) 7 5 ≡ ok (withdrawn, refund 20)
unfolding withdraw withdraw_loop withdraw_one unbondings_of remove
withdraw_runs = refl

-- 7 bonds 1, 8 bonds 1 a hundred seconds later, 7 bonds 1000 a hundred seconds after that: the new
-- tokens weigh as if they had been there from the first bond of 7, but in the global index only
-- from the bond of 8, so 7 has almost twice the global weight.
abbrev late_bond : State
late_bond = record start {
  bonds = ((7, 5), bond_at 300 1001 201201) ∷ ((8, 5), bond_at 200 1 1) ∷ [];
  global = some (record {
    bonded_amount = 1002;
    bonded_assets = tokens 1002 ∷ [];
    timestamp = 300 * second;
    weight = 101402;
  });
}

late_bond_runs :
    (do
      a ← bond quiet start (100 * second) (paying 7 1) (tokens 1)
      b ← bond quiet a.0 (200 * second) (paying 8 1) (tokens 1)
      bond quiet b.0 (300 * second) (paying 7 1000) (tokens 1000))
    ≡ ok (late_bond, [])
unfolding bond bond_local raise_bond bond_global raise_index update_local_weight
    update_global_weight get_weight save may_load aggregate_assets add_asset
late_bond_runs = refl

late_bond_share :
    query_weight late_bond (300 * second) 7 none
    ≡ ok (record {
      weight = 201201;
      global_weight = 101402;
      share = 1984191633301118321;
      timestamp = 300 * second;
    })
unfolding query_weight weight_loop bonds_of get_weight
late_bond_share = refl

get_weight_twice_example :
    (102 * second / 1000000000 ≤ 103 * second / 1000000000)
    × (103 * second / 1000000000 ≤ 104 * second / 1000000000)
    × (90 ≤ 120)
    × (120 ≤ 150)
    × (150 ≤ 150)
    × (150 ≤ 150 + 1)
unfolding get_weight
get_weight_twice_example =
    get_weight_twice (103 * second) (104 * second) 90 30 decimal_one (102 * second) 120 150 150
      (omega arith) (omega arith) refl refl refl

bond-IsCounted_example : IsCounted bonded_50 × (total bonded bonded_50.bonds ≡ 0 + 50)
bond-IsCounted_example =
    bond-IsCounted quiet start (100 * second) (paying 7 50) (tokens 50) (bonded_50, [])
      (record { sorted = tt; filed = tt; counted = refl }) bond_runs

bonded_50-IsCounted : IsCounted bonded_50
bonded_50-IsCounted = record { sorted = (tt, tt); filed = (refl, tt); counted = refl }

unbond-IsCounted_example : IsCounted unbonding_20 × (total bonded unbonding_20.bonds + 20 ≡ 50)
unbond-IsCounted_example =
    unbond-IsCounted quiet bonded_50 (102 * second) (paying 7 0) (tokens 20) (unbonding_20, [])
      bonded_50-IsCounted unbond_runs

-- The 20 that were unbonding are lost.
unbond_conserves_example : ◌≡◌ {A = ℕ} (20 + 10 + 20) (30 + 20)
unfolding may_load
unbond_conserves_example =
    unbond_conserves quiet unbonding_20 (102 * second) (paying 7 0) (tokens 10) (unbonding_10, []) 5
      (record { sorted = (tt, tt); filed = (refl, tt); counted = refl }) (tt, tt) refl
      unbond_again_runs

withdraw_pays_example :
    let paid =
      matured_amount (120 * second - 10 * second) (unbondings_of unbonding_20.unbonds 7 5) in
    (refund 20 ≡ refund paid)
    × (total bonded withdrawn.unbonds + paid ≡ total bonded unbonding_20.unbonds)
    × (withdrawn ≡ record unbonding_20 { unbonds = [] })
    × (query_withdrawable unbonding_20 (120 * second) 7 5 ≡ ok paid)
withdraw_pays_example =
    withdraw_pays unbonding_20 (120 * second) 7 5 (withdrawn, refund 20) (tt, tt) (refl, tt) refl
      withdraw_runs
