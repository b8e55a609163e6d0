-- ===== src/WhaleLair/Checks.antt =====
-- The checks of whale_lair/src/helpers.rs. What the fee distributor answers to a query is an
-- argument: the epochs that are claimable, and the current epoch.
use migaloo_core.Prelude.{
  ℕ, Bool, false, not, ◌||◌, ◌&&◌, List, [], ◌∷◌, ltb, ◌==◌, if◌then◌else◌, any, is_empty, Result,
  ok, ◌>>=◌, fail_if, ok_or,
}
use migaloo_core.Cosmwasm.{
  Cosmwasm, Addr, Denom, Coin, MessageInfo, StdError, checked_add, checked_sub, checked_div,
  seconds, decimal_one,
}
use migaloo_core.Asset.{Asset, AssetInfo, token, native_token}
use migaloo_core.EpochManager.{EpochConfig}
use migaloo_core.WhaleLair.{
  State, ContractError, std, asset_mismatch, unclaimed_rewards, new_epoch_not_created_yet,
  invalid_growth_rate,
}
use migaloo_core.WhaleLair.Weights.{lift}

unfoldable pub validate_growth_rate : ℕ → Result ContractError (Unit {0})
validate_growth_rate growth_rate = fail_if (ltb decimal_one growth_rate) invalid_growth_rate

-- A bonding asset that is a token compares as the empty denom.
abbrev pub is_bonding_denom : Denom → AssetInfo → Bool
is_bonding_denom denom (native_token d) = d == denom
is_bonding_denom denom (token _) = 0 == denom

-- Exactly one coin, which is the asset.
abbrev pub is_exact_payment : List Coin → Asset → Denom → Bool
is_exact_payment [] asset denom = false
is_exact_payment (c ∷ []) asset denom =
    not (c.amount == 0) && c.amount == asset.amount && c.denom == denom
is_exact_payment (c ∷ d ∷ funds) asset denom = false

unfoldable pub validate_funds :
    State → MessageInfo → Asset → Denom → Result ContractError (Unit {0})
validate_funds s info asset denom =
    fail_if
      (not (is_exact_payment info.funds asset denom)
        || not (any (is_bonding_denom denom) s.config.bonding_assets))
      asset_mismatch

-- The current epoch of the fee distributor: its id and start time.
pub record CurrentEpoch : Type 0 where
  pub id : ℕ
  pub start_time : ℕ

-- The answers of the fee distributor at the time of the call, by contract address.
pub record DistributorQueries : Type 0 where
  -- the ids of the epochs that the address can claim
  pub claimable : Addr → Addr → Result StdError (List ℕ)
  pub current_epoch : Addr → Result StdError CurrentEpoch
  pub epoch_config : Addr → Result StdError EpochConfig

unfoldable pub validate_claimed :
    DistributorQueries → State → MessageInfo → Result ContractError (Unit {0})
validate_claimed q s info = do
  epochs ← lift (q.claimable s.config.fee_distributor_addr info.sender)
  fail_if (not (is_empty epochs)) unclaimed_rewards

abbrev pub day_in_seconds : ℕ
day_in_seconds = 86400

module _ ⦃cw : Cosmwasm⦄ where
  unfoldable pub validate_bonding_for_current_epoch :
      DistributorQueries → State → ℕ → Result ContractError (Unit {0})
  validate_bonding_for_current_epoch q s block_time = do
    epoch ← lift (q.current_epoch s.config.fee_distributor_addr)
    if epoch.id == 0 then ok tt else (do
      elapsed ←
          ok_or (checked_sub (seconds block_time) (seconds epoch.start_time))
            (std StdError.panicked)
      fail_if (ltb day_in_seconds elapsed) new_epoch_not_created_yet)

  unfoldable pub calculate_epoch : EpochConfig → ℕ → Result StdError ℕ
  calculate_epoch c timestamp = if ltb timestamp c.genesis_epoch then ok 0 else (do
    elapsed ← ok_or (checked_sub timestamp c.genesis_epoch) StdError.overflow
    epochs ← ok_or (checked_div elapsed c.duration) StdError.divide_by_zero
    ok_or (checked_add 64 epochs 1) StdError.overflow)
