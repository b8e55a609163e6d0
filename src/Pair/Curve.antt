-- ===== src/Pair/Curve.antt =====
-- The stableswap curve of the pair: `calculate_stableswap_d` and `calculate_stableswap_y` of
-- terraswap_pair/src/helpers.rs, with the decimals of math.rs.
use migaloo_core.Prelude.{
  ℕ, zero, suc, ◌-◌, ◌^◌, Bool, Option, leb, ◌==◌, if◌then◌else◌, Result, ok, err, ◌>>=◌, ok_or,
}
use migaloo_core.Cosmwasm.{
  Cosmwasm, StdError, decimal_one, decimal_places, checked_add, checked_sub, checked_mul,
  checked_div, from_ratio, mul_floor, multiply_ratio, from_atomics, try_into,
}
use migaloo_core.Pair.{ContractError, std, converge_error, decimal_overflow, swap_overflow_error}

abbrev pub newton_iterations : ℕ
newton_iterations = 32

abbrev pub n_coins : ℕ
n_coins = 2

pub data StableSwapDirection : Type 0 where
  simulate reverse_simulate : StableSwapDirection

-- An operator that panics where the result is none, and a checked call.
abbrev pub or_panic : Option ℕ → Result ContractError ℕ
or_panic o = ok_or o (std StdError.panicked)

abbrev pub checked : Option ℕ → Result ContractError ℕ
checked o = ok_or o (std StdError.overflow)

-- Two numbers that differ by `precision` at most.
abbrev pub are_close : ℕ → ℕ → ℕ → Bool
are_close precision a b = if leb a b then leb (b - a) precision else leb (a - b) precision

-- Newton's method in a bounded number of rounds; it ends when a step moves by the precision at most.
unfoldable pub newton :
    ℕ → (ℕ → Result ContractError ℕ) → Result ContractError ℕ → ℕ → Result ContractError ℕ
newton zero step precision x = err converge_error
newton (suc rounds) step precision x = do
  y ← step x
  p ← precision
  let rest = newton rounds step precision y
  if are_close p x y then ok y else rest

module _ ⦃cw : Cosmwasm⦄ where
  unfoldable pub decimal_with_precision : ℕ → ℕ → Result ContractError ℕ
  decimal_with_precision value precision = ok_or (from_atomics 256 value precision) decimal_overflow

  -- A precision above the decimal places panics.
  unfoldable pub to_uint256_with_precision : ℕ → ℕ → Result ContractError ℕ
  to_uint256_with_precision value precision = do
    places ← or_panic (checked_sub decimal_places precision)
    ok_or (checked_div value (10 ^ places)) (std StdError.divide_by_zero)

  -- `new_d`: `d` multiplied by `d` and divided by a pool times the number of coins, for each pool.
  unfoldable pub fold_pool : ℕ → ℕ → ℕ → ℕ → Result ContractError ℕ
  fold_pool coins d acc pool = do
    mul_pools ← checked (mul_floor 256 pool coins)
    checked (multiply_ratio 256 acc d mul_pools)

  -- One round: ((ann * sum + new_d * n) * d) / ((ann - 1) * d + (n + 1) * new_d).
  unfoldable pub d_step : ℕ → ℕ → ℕ → ℕ → ℕ → ℕ → Result ContractError ℕ
  d_step offer_pool ask_pool coins ann sum_pools d = do
    first ← fold_pool coins d d offer_pool
    new_d ← fold_pool coins d first ask_pool
    weighted ← checked (mul_floor 256 ann sum_pools)
    shared ← checked (mul_floor 256 new_d coins)
    numerator ← checked (checked_add 256 weighted shared)
    scaled ← checked (mul_floor 256 numerator d)
    less_one ← checked (checked_sub ann decimal_one)
    left ← checked (mul_floor 256 less_one d)
    one_more ← checked (checked_add 256 coins decimal_one)
    right ← checked (mul_floor 256 one_more new_d)
    denominator ← checked (checked_add 256 left right)
    checked (from_ratio 256 scaled denominator)

  unfoldable pub calculate_stableswap_d : ℕ → ℕ → ℕ → ℕ → Result ContractError ℕ
  calculate_stableswap_d offer_pool ask_pool amp precision = do
    coins ← or_panic (from_ratio 256 n_coins 1)
    sum_pools ← checked (checked_add 256 offer_pool ask_pool)
    if sum_pools == 0 then ok 0 else (do
      product ← checked (checked_mul 256 amp n_coins)
      ann ← or_panic (from_ratio 256 product 1)
      newton newton_iterations (d_step offer_pool ask_pool coins ann sum_pools)
          (decimal_with_precision 1 precision) sum_pools)

  -- One round: (y * y + c) / (2 * y + b - d).
  unfoldable pub y_step : ℕ → ℕ → ℕ → ℕ → Result ContractError ℕ
  y_step b c d y = do
    square ← checked (checked_mul 256 y y)
    numerator ← checked (checked_add 256 square c)
    twice ← checked (checked_add 256 y y)
    sum ← checked (checked_add 256 twice b)
    denominator ← checked (checked_sub sum d)
    ok_or (checked_div numerator denominator) (std StdError.divide_by_zero)

  unfoldable pub new_pool_sum : ℕ → ℕ → ℕ → StableSwapDirection → Result ContractError ℕ
  new_pool_sum offer_pool ask_pool offer_amount simulate =
      checked (checked_add 256 offer_pool offer_amount)
  new_pool_sum offer_pool ask_pool offer_amount reverse_simulate =
      checked (checked_sub ask_pool offer_amount)

  unfoldable pub to_u128 : ℕ → Result ContractError ℕ
  to_u128 n = ok_or (try_into 128 n) swap_overflow_error

  unfoldable pub calculate_stableswap_y :
      ℕ → ℕ → ℕ → ℕ → ℕ → StableSwapDirection → Result ContractError ℕ
  calculate_stableswap_y offer_pool ask_pool offer_amount amp ask_precision direction = do
    ann ← checked (checked_mul 256 amp n_coins)
    decimal_d ← calculate_stableswap_d offer_pool ask_pool amp ask_precision
    d ← to_uint256_with_precision decimal_d ask_precision
    decimal_sum ← new_pool_sum offer_pool ask_pool offer_amount direction
    pool_sum ← to_uint256_with_precision decimal_sum ask_precision
    pools ← checked (checked_mul 256 pool_sum n_coins)
    first ← checked (multiply_ratio 256 d d pools)
    anns ← checked (checked_mul 256 ann n_coins)
    c ← checked (multiply_ratio 256 first d anns)
    part ← ok_or (checked_div d ann) (std StdError.divide_by_zero)
    b ← checked (checked_add 256 pool_sum part)
    y ← newton newton_iterations (y_step b c d) (ok 1) d
    to_u128 y
