-- ===== src/Trio/Amp.antt =====
-- The amplification coefficient and its ramp: `StableSwap` and `compute_amp_factor` of
-- stableswap_3pool/src/stableswap_math/curve.rs. The callers unwrap the result, so no value is a panic.
use migaloo_core.Prelude.{ℕ, ltb, leb, if◌then◌else◌, Result, ok, ◌>>=◌}
use migaloo_core.Cosmwasm.{Cosmwasm, checked_add, checked_sub, checked_mul, checked_div, try_into}
use migaloo_core.Pair.{ContractError}
use migaloo_core.Pair.Curve.{or_panic}
use migaloo_core.Trio.{Config}

pub record StableSwap : Type 0 where
  pub initial_amp_factor : ℕ
  pub target_amp_factor : ℕ
  pub current_ts : ℕ
  pub start_ramp_ts : ℕ
  pub stop_ramp_ts : ℕ

-- `StableSwap::new` of a configuration, at a block height
unfoldable pub invariant_of : Config → ℕ → StableSwap
invariant_of config height = record {
  initial_amp_factor = config.initial_amp;
  target_amp_factor = config.future_amp;
  current_ts = height;
  start_ramp_ts = config.initial_amp_block;
  stop_ramp_ts = config.future_amp_block;
}

module _ ⦃cw : Cosmwasm⦄ where
  -- The part of the way that has passed.
  unfoldable pub amp_delta : ℕ → ℕ → ℕ → Result ContractError ℕ
  amp_delta amp_range time_delta time_range = do
    product ← or_panic (checked_mul 128 amp_range time_delta)
    quotient ← or_panic (checked_div product time_range)
    or_panic (try_into 64 quotient)

  unfoldable pub ramp_up : ℕ → ℕ → ℕ → ℕ → Result ContractError ℕ
  ramp_up initial target time_delta time_range = do
    amp_range ← or_panic (checked_sub target initial)
    delta ← amp_delta amp_range time_delta time_range
    or_panic (checked_add 64 initial delta)

  unfoldable pub ramp_down : ℕ → ℕ → ℕ → ℕ → Result ContractError ℕ
  ramp_down initial target time_delta time_range = do
    amp_range ← or_panic (checked_sub initial target)
    delta ← amp_delta amp_range time_delta time_range
    or_panic (checked_sub initial delta)

  unfoldable pub compute_amp_factor : StableSwap → Result ContractError ℕ
  unfolding ramp_up ramp_down
  compute_amp_factor v =
      let up = ramp_up v.initial_amp_factor v.target_amp_factor in
      let down = ramp_down v.initial_amp_factor v.target_amp_factor in
      let ramp = (do
        time_range ← or_panic (checked_sub v.stop_ramp_ts v.start_ramp_ts)
        time_delta ← or_panic (checked_sub v.current_ts v.start_ramp_ts)
        if leb v.initial_amp_factor v.target_amp_factor
            then up time_delta time_range
            else down time_delta time_range) in
      if ltb v.current_ts v.stop_ramp_ts then ramp else ok v.target_amp_factor
