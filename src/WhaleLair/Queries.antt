-- ===== src/WhaleLair/Queries.antt =====
-- The queries of whale_lair/src/queries.rs. The pages of `query_unbonding` and the set of denoms
-- that `query_weight` builds and never reads are not modelled.
use migaloo_core.Prelude.{
  ℕ, Bool, Option, none, some, List, [], ◌∷◌, ltb, ◌==◌, if◌then◌else◌, take, retain, Result, ok,
  ◌>>=◌, ok_or,
}
use migaloo_core.Cosmwasm.{
  Cosmwasm, Addr, Denom, StdError, checked_add, from_ratio, seconds, addr_validate,
}
use migaloo_core.Asset.{Asset}
use migaloo_core.Storage.{Map}
use migaloo_core.WhaleLair.{Bond, GlobalIndex, default_global_index, State, ContractError}
use migaloo_core.WhaleLair.Weights.{get_weight}
use migaloo_core.WhaleLair.Checks.{DistributorQueries, calculate_epoch}
use migaloo_core.WhaleLair.Commands.{
  or_default, max_page_limit, bonding_assets_limit, unbondings_of, is_matured,
}

pub record BondedResponse : Type 0 where
  pub total_bonded : ℕ
  pub bonded_assets : List Asset
  pub first_bonded_epoch_id : ℕ

pub record BondingWeightResponse : Type 0 where
  pub weight : ℕ
  pub global_weight : ℕ
  pub share : ℕ
  pub timestamp : ℕ

abbrev is_bond_of : Addr → (ℕ × ℕ) × Bond → Bool
is_bond_of address e = e.0.0 == address

-- The bonds of an address in ascending order of the denom.
unfoldable pub bonds_of : ℕ → Map (ℕ × ℕ) Bond → Addr → Map (ℕ × ℕ) Bond
bonds_of limit m address = take limit (retain (is_bond_of address) m)

-- The timestamp with which the search for the first bond begins.
abbrev pub far_future : ℕ
far_future = 16725229261000000000

module _ ⦃cw : Cosmwasm⦄ where
  -- The loop of `query_bonded`: the sum, the assets in order, and the earliest timestamp.
  unfoldable pub bonded_loop : Map (ℕ × ℕ) Bond → ℕ → ℕ → Result StdError (ℕ × List Asset × ℕ)
  bonded_loop [] total first = ok (total, [], first)
  bonded_loop ((k, b) ∷ bonds) total first = do
    let first' : ℕ = if ltb (seconds b.timestamp) (seconds first) then b.timestamp else first
    total' ← ok_or (checked_add 128 total b.asset.amount) StdError.overflow
    r ← bonded_loop bonds total' first'
    ok (r.0, b.asset ∷ r.1, r.2)

  bonded_response : DistributorQueries → State → Map (ℕ × ℕ) Bond → Result StdError BondedResponse
  bonded_response q s [] =
      ok (record { total_bonded = 0; bonded_assets = []; first_bonded_epoch_id = 0 })
  bonded_response q s (e ∷ bonds) = do
    r ← bonded_loop (e ∷ bonds) 0 far_future
    config ← q.epoch_config s.config.fee_distributor_addr
    first ← calculate_epoch config r.2
    ok (record { total_bonded = r.0; bonded_assets = r.1; first_bonded_epoch_id = first })

  unfoldable pub query_bonded : DistributorQueries → State → Addr → Result StdError BondedResponse
  unfolding bonded_response
  query_bonded q s address = do
    owner ← ok_or (addr_validate address) StdError.generic_err
    bonded_response q s (bonds_of bonding_assets_limit s.bonds owner)

  -- One round of the loop of `query_withdrawable`.
  unfoldable pub withdrawable_one : ℕ → ℕ → Bond → ℕ → Result ContractError ℕ
  unfolding is_matured
  withdrawable_one timestamp period b amount = do
    matured ← is_matured timestamp period b
    if matured
        then ok_or (checked_add 128 amount b.asset.amount) (ContractError.std StdError.overflow)
        else ok amount

  unfoldable pub withdrawable_loop : ℕ → ℕ → Map (ℕ × ℕ × ℕ) Bond → ℕ → Result ContractError ℕ
  withdrawable_loop timestamp period [] amount = ok amount
  withdrawable_loop timestamp period ((k, b) ∷ unbondings) amount = do
    amount' ← withdrawable_one timestamp period b amount
    withdrawable_loop timestamp period unbondings amount'

  unfoldable pub query_withdrawable : State → ℕ → Addr → Denom → Result ContractError ℕ
  query_withdrawable s timestamp address denom = do
    owner ← ok_or (addr_validate address) (ContractError.std StdError.generic_err)
    withdrawable_loop timestamp s.config.unbonding_period (unbondings_of s.unbonds owner denom) 0

  -- The loop of `query_weight`: the weights of the bonds at the time asked for.
  unfoldable pub weight_loop : ℕ → ℕ → Map (ℕ × ℕ) Bond → ℕ → Result StdError ℕ
  weight_loop timestamp growth_rate [] total = ok total
  weight_loop timestamp growth_rate ((k, b) ∷ bonds) total = do
    weight ← get_weight timestamp b.weight b.asset.amount growth_rate b.timestamp
    total' ← ok_or (checked_add 128 total weight) StdError.overflow
    weight_loop timestamp growth_rate bonds total'

  unfoldable pub chosen_index : State → Option GlobalIndex → Result StdError GlobalIndex
  chosen_index s (some index) = ok index
  chosen_index s none = ok_or s.global StdError.generic_err

  unfoldable pub query_weight :
      State → ℕ → Addr → Option GlobalIndex → Result StdError BondingWeightResponse
  unfolding chosen_index
  query_weight s timestamp address given = do
    owner ← ok_or (addr_validate address) StdError.generic_err
    total ← weight_loop timestamp s.config.growth_rate (bonds_of max_page_limit s.bonds owner) 0
    index ← chosen_index s given
    global ←
        get_weight timestamp index.weight index.bonded_amount s.config.growth_rate index.timestamp
    share ← ok_or (from_ratio 128 total global) StdError.panicked
    ok (record { weight = total; global_weight = global; share = share; timestamp = timestamp })

  unfoldable pub query_total_bonded : State → BondedResponse
  query_total_bonded s =
      let index : GlobalIndex = or_default default_global_index s.global in
      record {
        total_bonded = index.bonded_amount;
        bonded_assets = index.bonded_assets;
        first_bonded_epoch_id = 0;
      }
