-- ===== src/Pair/Deposits.antt =====
-- The shares of a deposit into a stableswap pool: `compute_d` and
-- `compute_lp_mint_amount_for_stableswap_deposit` of terraswap_pair/src/helpers.rs. Each `unwrap`
-- panics where there is no value.
use migaloo_core.Prelude.{
  ℕ, zero, suc, Option, none, some, leb, ◌==◌, if◌then◌else◌, Result, ok, ◌>>=◌,
}
use migaloo_core.Cosmwasm.{Cosmwasm, checked_add, checked_sub, checked_mul, checked_div, try_into}
use migaloo_core.Pair.{ContractError}
use migaloo_core.Pair.Curve.{or_panic, are_close, n_coins}

abbrev pub max_rounds : ℕ
max_rounds = 256

-- The loop of `compute_d`: it breaks when a step moves by one at most, and goes on with what it has
-- when the rounds are over.
unfoldable pub settle : ℕ → (ℕ → Result ContractError ℕ) → ℕ → Result ContractError ℕ
settle zero step d = ok d
settle (suc rounds) step d = do
  d' ← step d
  let rest = settle rounds step d'
  if are_close 1 d d' then ok d' else rest

module _ ⦃cw : Cosmwasm⦄ where
  unfoldable pub compute_next_d : ℕ → ℕ → ℕ → ℕ → Result ContractError ℕ
  compute_next_d amp_factor d_init d_prod sum_x = do
    ann ← or_panic (checked_mul 64 amp_factor n_coins)
    leverage ← or_panic (checked_mul 512 sum_x ann)
    shared ← or_panic (checked_mul 512 d_prod n_coins)
    numerator_sum ← or_panic (checked_add 512 shared leverage)
    numerator ← or_panic (checked_mul 512 d_init numerator_sum)
    less_one ← or_panic (checked_sub ann 1)
    left ← or_panic (checked_mul 512 d_init less_one)
    one_more ← or_panic (checked_add 128 n_coins 1)
    right ← or_panic (checked_mul 512 d_prod one_more)
    denominator ← or_panic (checked_add 512 left right)
    or_panic (checked_div numerator denominator)

  -- `d_prod` after one of the two pools.
  unfoldable pub divide_pool : ℕ → ℕ → ℕ → Result ContractError ℕ
  divide_pool d amount_times_coins d_prod = do
    product ← or_panic (checked_mul 512 d_prod d)
    or_panic (checked_div product amount_times_coins)

  unfoldable pub next_d : ℕ → ℕ → ℕ → ℕ → ℕ → Result ContractError ℕ
  unfolding divide_pool
  next_d amp_factor amount_a_times_coins amount_b_times_coins sum_x d = do
    first ← divide_pool d amount_a_times_coins d
    d_prod ← divide_pool d amount_b_times_coins first
    compute_next_d amp_factor d d_prod sum_x

  unfoldable pub compute_d : ℕ → ℕ → ℕ → Result ContractError ℕ
  compute_d amp_factor amount_a amount_b = do
    sum_x ← or_panic (checked_add 128 amount_a amount_b)
    if sum_x == 0 then ok 0 else (do
      a ← or_panic (checked_mul 128 amount_a n_coins)
      b ← or_panic (checked_mul 128 amount_b n_coins)
      settle max_rounds (next_d amp_factor a b sum_x) sum_x)

  -- No shares where the invariant does not grow.
  unfoldable pub compute_lp_mint_amount_for_stableswap_deposit :
      ℕ → ℕ → ℕ → ℕ → ℕ → ℕ → Result ContractError (Option ℕ)
  compute_lp_mint_amount_for_stableswap_deposit amp_factor deposit_amount_a deposit_amount_b
        swap_amount_a swap_amount_b pool_token_supply =
      do
        d_0 ← compute_d amp_factor swap_amount_a swap_amount_b
        a ← or_panic (checked_add 128 swap_amount_a deposit_amount_a)
        b ← or_panic (checked_add 128 swap_amount_b deposit_amount_b)
        d_1 ← compute_d amp_factor a b
        if leb d_1 d_0 then ok none else (do
          growth ← or_panic (checked_sub d_1 d_0)
          product ← or_panic (checked_mul 512 pool_token_supply growth)
          quotient ← or_panic (checked_div product d_0)
          amount ← or_panic (try_into 128 quotient)
          ok (some amount))
