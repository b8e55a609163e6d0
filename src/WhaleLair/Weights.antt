-- ===== src/WhaleLair/Weights.antt =====
-- The weight of a bond, whale_lair/src/state.rs.
use migaloo_core.Prelude.{ℕ, some, ◌==◌, if◌then◌else◌, Result, ok, err, ◌>>=◌, ok_or}
use migaloo_core.Cosmwasm.{
  Cosmwasm, Addr, StdError, checked_add, checked_sub, checked_mul, mul_floor, seconds,
}
use migaloo_core.Asset.{AssetInfo, token, native_token}
use migaloo_core.Storage.{save}
use migaloo_core.Storage.Keys.{pair_key}
use migaloo_core.WhaleLair.{Bond, GlobalIndex, State, ContractError, std, asset_mismatch}

-- An error of the standard library, raised in a handler.
abbrev pub lift {ℓ} : {A : Type ℓ} → Result StdError A → Result ContractError A
lift (ok a) = ok a
lift (err e) = err (std e)

module _ ⦃cw : Cosmwasm⦄ where
  -- A bond that was never stamped has not aged.
  unfoldable pub time_factor : ℕ → ℕ → Result StdError ℕ
  time_factor current_timestamp timestamp =
      if timestamp == 0
      then ok 0
      else ok_or (checked_sub (seconds current_timestamp) (seconds timestamp)) StdError.generic_err

  unfoldable pub get_weight : ℕ → ℕ → ℕ → ℕ → ℕ → Result StdError ℕ
  unfolding time_factor
  get_weight current_timestamp weight amount growth_rate timestamp = do
    factor ← time_factor current_timestamp timestamp
    grown ← ok_or (checked_mul 128 amount factor) StdError.overflow
    growth ← ok_or (mul_floor 128 grown growth_rate) StdError.panicked
    ok_or (checked_add 128 weight growth) StdError.overflow

  -- The denom under which a bond is stored.
  unfoldable pub bond_denom : AssetInfo → Result ContractError ℕ
  bond_denom (token _) = err asset_mismatch
  bond_denom (native_token denom) = ok denom

  -- The bond with its new weight, and the bonds in which it has been saved.
  unfoldable pub update_local_weight : State → Addr → ℕ → Bond → Result ContractError (State × Bond)
  unfolding bond_denom
  update_local_weight s address timestamp bond = do
    weight ←
        lift
          (get_weight timestamp bond.weight bond.asset.amount s.config.growth_rate bond.timestamp)
    let aged : Bond = record bond { weight = weight; timestamp = timestamp }
    denom ← bond_denom aged.asset.info
    ok (record s { bonds = save (address, denom) aged s.bonds }, aged)

  unfoldable pub update_global_weight :
      State → ℕ → GlobalIndex → Result ContractError (State × GlobalIndex)
  update_global_weight s timestamp global_index = do
    weight ← lift (
        get_weight timestamp global_index.weight global_index.bonded_amount s.config.growth_rate
          global_index.timestamp)
    let aged : GlobalIndex = record global_index { weight = weight; timestamp = timestamp }
    ok (record s { global = some aged }, aged)
