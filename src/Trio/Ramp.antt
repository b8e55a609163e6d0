-- ===== src/Trio/Ramp.antt =====
-- The amplification coefficient is always found and stays between the two ends of its ramp.
use migaloo_core.Prelude.{
  ℕ, ◌+◌, ◌-◌, ◌*◌, ◌/◌, ◌^◌, ◌≤◌, ◌<◌, ◌≡◌, ◌≢◌, refl, arith, Bool-cases, inl, inr, some, leb, ltb,
  ok, min, max,
}
use migaloo_core.Cosmwasm.{
  Cosmwasm, checked_add, checked_sub, checked_mul, checked_div, try_into, checked_add_lem,
  checked_sub_lem, checked_mul_lem, checked_div_lem, try_into_lem,
}
use migaloo_core.Trio.Amp.{StableSwap, amp_delta, ramp_up, ramp_down, compute_amp_factor}
use migaloo_core.Checked.{quotient_bounds}
use native.Mathlib.Nat.{mul-le-mul, mul-le-mul_left, le_of_mul-le-mul_right}

-- A ramp that has started; the coefficients and the block fit in 64 bits.
abbrev pub HasStarted : StableSwap → Type 0
HasStarted v =
    (v.initial_amp_factor < 2 ^ 64)
    × (v.target_amp_factor < 2 ^ 64)
    × (v.current_ts < 2 ^ 64)
    × (v.start_ramp_ts ≤ v.current_ts)

-- Between two numbers, whichever is larger.
abbrev pub IsBetween : ℕ → ℕ → ℕ → Type 0
IsBetween a b n = (min a b ≤ n) × (n ≤ max a b)

part_at_most :
    (range delta time q : ℕ) → time ≢ 0 → delta ≤ time → q ≡ range * delta / time → q ≤ range
part_at_most range delta time q some_time passed q_is =
    let (low, _) = quotient_bounds (range * delta) time q some_time q_is in
    let scaled = mul-le-mul_left range passed in
    le_of_mul-le-mul_right (low_trans (q * time) (range * delta) (range * time) low scaled)
      (omega arith)
  where
    low_trans : (a b c : ℕ) → a ≤ b → b ≤ c → a ≤ c
    low_trans a b c h k = omega arith

module _ ⦃cw : Cosmwasm⦄ where
  amp_delta_lem :
      (range delta time : ℕ)
      → range < 2 ^ 64
      → delta < time
      → delta < 2 ^ 64
      → (q : ℕ) × (amp_delta range delta time ≡ ok q) × (q ≤ range)
  unfolding amp_delta
  amp_delta_lem range delta time small passed short =
      let bound =
        part_at_most range delta time (range * delta / time) (omega arith) (omega arith) refl in
      let fitting = mul-le-mul (le_of range small) (le_of delta short) in
      let product : checked_mul 128 range delta ≡ some (range * delta) =
        grind (arith, checked_mul_lem) in
      let quotient : checked_div (range * delta) time ≡ some (range * delta / time) =
        grind (arith, checked_div_lem) in
      let narrow : try_into 64 (range * delta / time) ≡ some (range * delta / time) =
        grind (arith, try_into_lem) in
      (range * delta / time, rw product (rw quotient (rw narrow)), bound)
    where
      le_of : (a : ℕ) → a < 2 ^ 64 → a ≤ 2 ^ 64 - 1
      le_of a h = omega arith

  ramp_up_lem :
      (a b delta time : ℕ)
      → a ≤ b
      → b < 2 ^ 64
      → delta < time
      → delta < 2 ^ 64
      → (n : ℕ) × (ramp_up a b delta time ≡ ok n) × IsBetween a b n
  unfolding ramp_up
  ramp_up_lem a b delta time le small passed short =
      let (q, found, part) = amp_delta_lem (b - a) delta time (omega arith) passed short in
      let range : checked_sub b a ≡ some (b - a) = grind (arith, checked_sub_lem) in
      let sum : checked_add 64 a q ≡ some (a + q) = grind (arith, checked_add_lem) in
      (a + q, rw range (rw found (rw sum)), (omega arith, omega arith))

  ramp_down_lem :
      (a b delta time : ℕ)
      → b ≤ a
      → a < 2 ^ 64
      → delta < time
      → delta < 2 ^ 64
      → (n : ℕ) × (ramp_down a b delta time ≡ ok n) × IsBetween a b n
  unfolding ramp_down
  ramp_down_lem a b delta time le small passed short =
      let (q, found, part) = amp_delta_lem (a - b) delta time (omega arith) passed short in
      let range : checked_sub a b ≡ some (a - b) = grind (arith, checked_sub_lem) in
      let rest : checked_sub a q ≡ some (a - q) = grind (arith, checked_sub_lem) in
      (a - q, rw range (rw found (rw rest)), (omega arith, omega arith))

  -- For a ramp that has started, with coefficients and a block that fit in 64 bits,
  -- `compute_amp_factor` does not panic, and what it gives is between the two ends of the ramp; from
  -- the last block of the ramp on it is the target.
  pub compute_amp_factor-IsBetween :
      (v : StableSwap)
      → HasStarted v
      → (n : ℕ) × (compute_amp_factor v ≡ ok n)
        × IsBetween v.initial_amp_factor v.target_amp_factor n
        × (v.stop_ramp_ts ≤ v.current_ts → n ≡ v.target_amp_factor)
  unfolding compute_amp_factor
  compute_amp_factor-IsBetween v (small, small', now, started) =
      elim (Bool-cases (ltb v.current_ts v.stop_ramp_ts)) [
        | inl running ↦
            let whole : checked_sub v.stop_ramp_ts v.start_ramp_ts
                ≡ some (v.stop_ramp_ts - v.start_ramp_ts) =
              ground (arith, checked_sub_lem v.stop_ramp_ts v.start_ramp_ts) in
            let passed : checked_sub v.current_ts v.start_ramp_ts
                ≡ some (v.current_ts - v.start_ramp_ts) =
              grind (arith, checked_sub_lem) in
            elim (Bool-cases (leb v.initial_amp_factor v.target_amp_factor)) [
              | inl up ↦
                  let (n, found, between) =
                    ramp_up_lem v.initial_amp_factor v.target_amp_factor
                      (v.current_ts - v.start_ramp_ts) (v.stop_ramp_ts - v.start_ramp_ts)
                      (ground arith) small' (ground arith) (omega arith) in
                  (
                    n,
                    rw running (rw whole (rw passed (rw up found))),
                    between,
                    λ over. absurd (ground arith),
                  )
              | inr down ↦
                  let (n, found, between) =
                    ramp_down_lem v.initial_amp_factor v.target_amp_factor
                      (v.current_ts - v.start_ramp_ts) (v.stop_ramp_ts - v.start_ramp_ts)
                      (ground arith) small (ground arith) (omega arith) in
                  (
                    n,
                    rw running (rw whole (rw passed (rw down found))),
                    between,
                    λ over. absurd (ground arith),
                  )
            ]
        | inr over ↦ (v.target_amp_factor, rw over, (omega arith, omega arith), λ h. refl)
      ]
