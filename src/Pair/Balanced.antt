-- ===== src/Pair/Balanced.antt =====
-- The invariant of balanced pools, `compute_d` of terraswap_pair/src/helpers.rs.
use migaloo_core.Prelude.{
  ℕ, suc, ◌+◌, ◌-◌, ◌*◌, ◌/◌, ◌^◌, ◌≤◌, ◌<◌, ◌≡◌, ◌≢◌, refl, ap, ◌∙◌, arith, true, false, some,
  ◌==◌, Result, ok,
}
use migaloo_core.Cosmwasm.{
  Cosmwasm, checked_add, checked_sub, checked_mul, checked_div, checked_add_lem, checked_sub_lem,
  checked_mul_lem, checked_div_lem,
}
use migaloo_core.Pair.{ContractError}
use migaloo_core.Pair.Curve.{n_coins, are_close}
use migaloo_core.Pair.Deposits.{settle, compute_next_d, divide_pool, next_d, compute_d}
use native.Mathlib.Nat.{mul-le-mul, mul-div_cancel}

le_of : (a b : ℕ) → a < b → a ≤ b
le_of a b h = omega arith

module _ ⦃cw : Cosmwasm⦄ where
  -- A product of numbers below bounds fits where the product of the bounds does.
  mul_some : (a b m n : ℕ) → a ≤ m → b ≤ n → m * n < 2 ^ 512 → checked_mul 512 a b ≡ some (a * b)
  mul_some a b m n la lb fitting = let less = mul-le-mul la lb in grind (arith, checked_mul_lem)

  add_some : (a b : ℕ) → a + b < 2 ^ 512 → checked_add 512 a b ≡ some (a + b)
  add_some a b fitting = grind (arith, checked_add_lem)

  div_some : (a b q : ℕ) → b ≢ 0 → a ≡ q * b → checked_div a b ≡ some q
  div_some a b q some_b is =
      let quotient : q * b / b ≡ q = mul-div_cancel q (omega arith) in
      rw is (grind (arith, checked_div_lem))

  divide_pool_lem : (d : ℕ) → d ≢ 0 → d < 2 ^ 128 → divide_pool d d d ≡ ok d
  unfolding divide_pool
  divide_pool_lem d some_d small =
      rw (mul_some d d (2 ^ 128) (2 ^ 128) (omega arith) (omega arith) (omega arith))
        (rw (div_some (d * d) d d some_d refl))

  compute_next_d_lem :
      (amp d : ℕ)
      → d ≢ 0
      → d < 2 ^ 128
      → amp ≢ 0
      → amp * 2 < 2 ^ 64
      → compute_next_d amp d d d ≡ ok d
  unfolding compute_next_d
  compute_next_d_lem amp d some_d small some_amp fitting =
      let ann : checked_mul 64 amp n_coins ≡ some (amp * 2) = grind (arith, checked_mul_lem) in
      let less_one : checked_sub (amp * 2) 1 ≡ some (amp * 2 - 1) =
        grind (arith, checked_sub_lem) in
      let one_more : checked_add 128 n_coins 1 ≡ some 3 = grind (arith, checked_add_lem) in
      let leverage =
        mul_some d (amp * 2) (2 ^ 128) (2 ^ 64) (omega arith) (omega arith) (omega arith) in
      let shared = mul_some d n_coins (2 ^ 128) 2 (omega arith) (omega arith) (omega arith) in
      let leverage_bound =
        mul-le-mul (le_of d (2 ^ 128) small) (le_of (amp * 2) (2 ^ 64) fitting) in
      let sum = add_some (d * 2) (d * (amp * 2)) (omega arith) in
      let numerator =
        mul_some d (d * 2 + d * (amp * 2)) (2 ^ 128) (2 ^ 200) (omega arith) (omega arith)
          (omega arith) in
      let left =
        mul_some d (amp * 2 - 1) (2 ^ 128) (2 ^ 64) (omega arith) (omega arith) (omega arith) in
      let right = mul_some d 3 (2 ^ 128) 3 (omega arith) (omega arith) (omega arith) in
      let left_bound =
        mul-le-mul (le_of d (2 ^ 128) small) (le_of (amp * 2 - 1) (2 ^ 64) (omega arith)) in
      let denominator = add_some (d * (amp * 2 - 1)) (d * 3) (omega arith) in
      let step : amp * 2 ≡ amp * 2 - 1 + 1 = omega arith in
      let expanded : d * (amp * 2) ≡ d * (amp * 2 - 1) + d =
        ap (λ (n : ℕ). d * n) step ∙ grind arith in
      let same : d * 2 + d * (amp * 2) ≡ d * (amp * 2 - 1) + d * 3 = omega arith in
      let some_denominator : d * (amp * 2 - 1) + d * 3 ≢ 0 = omega arith in
      let quotient =
        div_some (d * (d * 2 + d * (amp * 2))) (d * (amp * 2 - 1) + d * 3) d some_denominator
          (ap (λ (n : ℕ). d * n) same) in
      rw ann (
        rw leverage (
          rw shared (
            rw sum (
              rw numerator
                (rw less_one (rw left (rw one_more (rw right (rw denominator (rw quotient))))))))))

  next_d_lem :
      (amp d : ℕ) → d ≢ 0 → d < 2 ^ 128 → amp ≢ 0 → amp * 2 < 2 ^ 64 → next_d amp d d d d ≡ ok d
  unfolding next_d
  next_d_lem amp d some_d small some_amp fitting =
      rw (divide_pool_lem d some_d small) (
        rw (divide_pool_lem d some_d small)
          (compute_next_d_lem amp d some_d small some_amp fitting))

  settle_lem :
      (rounds : ℕ) (step : ℕ → Result ContractError ℕ) (d : ℕ)
      → step d ≡ ok d
      → settle (suc rounds) step d ≡ ok d
  unfolding settle
  settle_lem rounds step d fixed =
      let close : are_close 1 d d ≡ true = ground arith in rw fixed (rw close)

  -- For balanced pools `compute_d` does not panic, and the invariant is the sum of the pools: for
  -- pools that are not empty and whose sum fits in 128 bits, and an amplification that is not zero
  -- and whose double fits in 64 bits.
  pub compute_d-balanced :
      (amp x : ℕ)
      → x ≢ 0
      → x + x < 2 ^ 128
      → amp ≢ 0
      → amp * 2 < 2 ^ 64
      → compute_d amp x x ≡ ok (x + x)
  unfolding compute_d
  compute_d-balanced amp x some_x small some_amp fitting =
      let sum : checked_add 128 x x ≡ some (x + x) = grind (arith, checked_add_lem) in
      let coins : checked_mul 128 x n_coins ≡ some (x + x) = grind (arith, checked_mul_lem) in
      let not_empty : (x + x == 0) ≡ false = ground arith in
      rw sum (
        rw not_empty (
          rw coins (
            settle_lem 255 (next_d amp (x + x) (x + x) (x + x)) (x + x)
              (next_d_lem amp (x + x) (omega arith) small some_amp fitting))))
