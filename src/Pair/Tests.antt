-- ===== src/Pair/Tests.antt =====
-- Concrete runs of swaps.
mod Calls
use migaloo_core.Prelude.{ℕ, ◌+◌, ◌-◌, ◌*◌, ◌/◌, ◌^◌, ◌≤◌, ◌≡◌, refl, ok, err, arith}
use migaloo_core.Cosmwasm.{Cosmwasm, StdError, documented}
use migaloo_core.Fee.{compute, is_valid}
use migaloo_core.Pair.Charges.{less_fees_due}
use migaloo_core.Pair.{PoolFee, std, constant_product, stable_swap, pool_fee_is_valid, aggregate}
use migaloo_core.Pair.Curve.{
  or_panic, checked, to_u128, simulate, newton, fold_pool, d_step, calculate_stableswap_d, y_step,
  new_pool_sum, calculate_stableswap_y, to_uint256_with_precision, decimal_with_precision,
}
use migaloo_core.Pair.Swap.{
  SwapComputation, gross_return, spread_of, less_fees, compute_swap, swap_computation,
  stable_return,
}
use migaloo_core.Pair.Root.{IsRoot, calculate_stableswap_y-IsRoot}
use migaloo_core.Pair.Deposits.{compute_d}
use migaloo_core.Pair.Balanced.{compute_d-balanced}
use migaloo_core.Pair.Product.{compute_swap-product, compute_swap_back}

instance abbrev pub cosmwasm : Cosmwasm
cosmwasm = documented

abbrev pub percent : ℕ
percent = 10000000000000000

-- 1 % for the protocol, 2 % for the pool, 3 % to burn.
abbrev pub fees : PoolFee
fees = record {
  protocol_fee = record { share = percent };
  swap_fee = record { share = 2 * percent };
  burn_fee = record { share = 3 * percent };
}

-- 1000 into a pool of 10000 and 22000: worth 2000, 200 below the price of the pool.
abbrev pub there : SwapComputation
there = record {
  return_amount = 1880;
  spread_amount = 200;
  swap_fee_amount = 40;
  protocol_fee_amount = 20;
  burn_fee_amount = 60;
}

abbrev back : SwapComputation
back = record {
  return_amount = 888;
  spread_amount = 88;
  swap_fee_amount = 18;
  protocol_fee_amount = 9;
  burn_fee_amount = 28;
}

there_runs : compute_swap 10000 22000 1000 fees constant_product 6 6 ≡ ok there
unfolding compute_swap gross_return spread_of swap_computation less_fees to_u128 compute
there_runs = refl

back_runs : compute_swap 20040 11000 1880 fees constant_product 6 6 ≡ ok back
unfolding compute_swap gross_return spread_of swap_computation less_fees to_u128 compute
back_runs = refl

-- Where the ask pool is so much smaller that the price rounds to nothing, the spread cannot be
-- computed and the swap panics.
no_price :
    compute_swap (20 * 10 ^ 18) 10 (200 * 10 ^ 18) fees constant_product 6 6
    ≡ err (std StdError.panicked)
unfolding compute_swap gross_return spread_of
no_price = refl

compute_swap-product_example : (1960 ≤ 22000) × (10000 * 22000 ≤ (10000 + 1000) * (22000 - 1960))
compute_swap-product_example = compute_swap-product 10000 22000 1000 fees 6 6 there there_runs

compute_swap_back_example : ◌≤◌ 888 1000
compute_swap_back_example =
    compute_swap_back 10000 22000 1000 fees fees 6 6 there back there_runs back_runs

valid_runs : pool_fee_is_valid fees ≡ ok tt
unfolding pool_fee_is_valid aggregate is_valid
valid_runs = refl

swap_fee_runs : compute fees.swap_fee 2000 ≡ ok 40
unfolding compute
swap_fee_runs = refl

protocol_fee_runs : compute fees.protocol_fee 2000 ≡ ok 20
unfolding compute
protocol_fee_runs = refl

burn_fee_runs : compute fees.burn_fee 2000 ≡ ok 60
unfolding compute
burn_fee_runs = refl

less_fees_due_example :
    (less_fees or_panic 2000 40 20 60 ≡ ok (2000 - (40 + 20 + 60)))
    × (less_fees checked 2000 40 20 60 ≡ ok (2000 - (40 + 20 + 60)))
    × (40 + 20 + 60 ≤ 2000)
less_fees_due_example =
    less_fees_due fees 2000 40 20 60 tt valid_runs swap_fee_runs protocol_fee_runs burn_fee_runs

-- On a stableswap pool of one million and one million, with an amplification of 100 and 6 decimals.
abbrev million : ℕ
million = 1000000 * 10 ^ 18

stable_y : calculate_stableswap_y million million (1000 * 10 ^ 18) 100 6 simulate ≡ ok 999000009900
unfolding calculate_stableswap_y newton fold_pool d_step calculate_stableswap_d y_step new_pool_sum
    to_uint256_with_precision decimal_with_precision to_u128
stable_y = refl

abbrev stable_there : SwapComputation
stable_there = record {
  return_amount = 939990694;
  spread_amount = 9900;
  swap_fee_amount = 19999802;
  protocol_fee_amount = 9999901;
  burn_fee_amount = 29999703;
}

stable_runs : compute_swap (10 ^ 12) (10 ^ 12) (10 ^ 9) fees (stable_swap 100) 6 6 ≡ ok stable_there
unfolding compute_swap stable_return swap_computation less_fees compute calculate_stableswap_y
    newton fold_pool d_step calculate_stableswap_d y_step new_pool_sum to_uint256_with_precision
    decimal_with_precision to_u128
stable_runs = refl

-- The invariant of the two pools is two million.
abbrev two_million : ℕ
two_million = 2000000 * 10 ^ 18

stable_d : calculate_stableswap_d million million 100 6 ≡ ok two_million
unfolding newton fold_pool d_step calculate_stableswap_d decimal_with_precision
stable_d = refl

calculate_stableswap_y-IsRoot_example :
    (decimal_d : ℕ) × (d : ℕ) × (decimal_sum : ℕ) × (pool_sum : ℕ) × (calculate_stableswap_d million
        million 100 6
      ≡ ok decimal_d)
    × (to_uint256_with_precision decimal_d 6 ≡ ok d)
    × (new_pool_sum million million (1000 * 10 ^ 18) simulate ≡ ok decimal_sum)
    × (to_uint256_with_precision decimal_sum 6 ≡ ok pool_sum)
    × IsRoot (pool_sum + d / (100 * 2)) (d * d / (pool_sum * 2) * d / (100 * 2 * 2)) d 999000009900
calculate_stableswap_y-IsRoot_example =
    calculate_stableswap_y-IsRoot million million (1000 * 10 ^ 18) 100 6 simulate 999000009900
      stable_y

compute_d-balanced_example : compute_d 100 1000000 1000000 ≡ ok (1000000 + 1000000)
compute_d-balanced_example =
    compute_d-balanced 100 1000000 (ground arith) (ground arith) (ground arith) (ground arith)
