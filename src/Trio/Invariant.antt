-- ===== src/Trio/Invariant.antt =====
-- The stableswap invariant of three pools: `compute_d`, `compute_y` and what is computed with them in
-- stableswap_3pool/src/stableswap_math/curve.rs. Each `unwrap` panics where there is no value.
use migaloo_core.Prelude.{ℕ, Option, none, some, leb, ◌==◌, if◌then◌else◌, Result, ok, ◌>>=◌}
use migaloo_core.Cosmwasm.{Cosmwasm, checked_add, checked_sub, checked_mul, checked_div, try_into}
use migaloo_core.Pair.{ContractError}
use migaloo_core.Pair.Curve.{or_panic}
use migaloo_core.Pair.Deposits.{max_rounds, settle}
use migaloo_core.Trio.Amp.{StableSwap, compute_amp_factor}

abbrev pub n_coins : ℕ
n_coins = 3

abbrev pub max_y_rounds : ℕ
max_y_rounds = 1000

pub record SwapResult : Type 0 where
  pub new_source_amount : ℕ
  pub new_destination_amount : ℕ
  pub amount_swapped : ℕ

module _ ⦃cw : Cosmwasm⦄ where
  unfoldable pub compute_next_d : ℕ → ℕ → ℕ → ℕ → Result ContractError ℕ
  compute_next_d amp_factor d_init d_prod sum_x = do
    ann ← or_panic (checked_mul 64 amp_factor n_coins)
    leverage ← or_panic (checked_mul 256 sum_x ann)
    shared ← or_panic (checked_mul 256 d_prod n_coins)
    numerator_sum ← or_panic (checked_add 256 shared leverage)
    numerator ← or_panic (checked_mul 256 d_init numerator_sum)
    less_one ← or_panic (checked_sub ann 1)
    left ← or_panic (checked_mul 256 d_init less_one)
    one_more ← or_panic (checked_add 8 n_coins 1)
    right ← or_panic (checked_mul 256 d_prod one_more)
    denominator ← or_panic (checked_add 256 left right)
    or_panic (checked_div numerator denominator)

  -- A value multiplied by d and divided by a number: one of the steps to `d_prod` and to `c`.
  unfoldable pub scale_by : ℕ → ℕ → ℕ → Result ContractError ℕ
  scale_by d divisor value = do
    product ← or_panic (checked_mul 256 value d)
    or_panic (checked_div product divisor)

  -- One round of `compute_d`, from the amounts times the number of coins.
  unfoldable pub next_d : ℕ → ℕ → ℕ → ℕ → ℕ → ℕ → Result ContractError ℕ
  unfolding scale_by
  next_d amp_factor a b c sum_x d = do
    first ← scale_by d a d
    second ← scale_by d b first
    d_prod ← scale_by d c second
    compute_next_d amp_factor d d_prod sum_x

  unfoldable pub compute_d : StableSwap → ℕ → ℕ → ℕ → Result ContractError ℕ
  unfolding next_d
  compute_d v amount_a amount_b amount_c = do
    two ← or_panic (checked_add 128 amount_b amount_c)
    sum_x ← or_panic (checked_add 128 amount_a two)
    if sum_x == 0 then ok 0 else (do
      amp_factor ← compute_amp_factor v
      a ← or_panic (checked_mul 128 amount_a n_coins)
      b ← or_panic (checked_mul 128 amount_b n_coins)
      c ← or_panic (checked_mul 128 amount_c n_coins)
      settle max_rounds (next_d amp_factor a b c sum_x) sum_x)

  -- No shares where the invariant does not grow.
  unfoldable pub compute_mint_amount_for_deposit :
      StableSwap → ℕ × ℕ × ℕ → ℕ × ℕ × ℕ → ℕ → Result ContractError (Option ℕ)
  compute_mint_amount_for_deposit v (deposit_a, deposit_b, deposit_c) (swap_a, swap_b, swap_c)
        pool_token_supply =
      do
        d_0 ← compute_d v swap_a swap_b swap_c
        a ← or_panic (checked_add 128 swap_a deposit_a)
        b ← or_panic (checked_add 128 swap_b deposit_b)
        c ← or_panic (checked_add 128 swap_c deposit_c)
        d_1 ← compute_d v a b c
        if leb d_1 d_0 then ok none else (do
          growth ← or_panic (checked_sub d_1 d_0)
          product ← or_panic (checked_mul 256 pool_token_supply growth)
          quotient ← or_panic (checked_div product d_0)
          amount ← or_panic (try_into 128 quotient)
          ok (some amount))

  -- One round of `compute_y_raw`: (y * y + c) / (2 * y + b - d).
  unfoldable pub next_y : ℕ → ℕ → ℕ → ℕ → Result ContractError ℕ
  next_y b c d y = do
    square ← or_panic (checked_mul 256 y y)
    numerator ← or_panic (checked_add 256 square c)
    twice ← or_panic (checked_mul 256 y 2)
    sum ← or_panic (checked_add 256 twice b)
    denominator ← or_panic (checked_sub sum d)
    or_panic (checked_div numerator denominator)

  unfoldable pub compute_y_raw : StableSwap → ℕ → ℕ → ℕ → Result ContractError ℕ
  unfolding scale_by next_y
  compute_y_raw v swap_in no_swap d = do
    amp_factor ← compute_amp_factor v
    ann ← or_panic (checked_mul 64 amp_factor n_coins)
    in_times_coins ← or_panic (checked_mul 128 swap_in n_coins)
    first ← scale_by d in_times_coins d
    no_swap_times_coins ← or_panic (checked_mul 128 no_swap n_coins)
    second ← scale_by d no_swap_times_coins first
    ann_times_coins ← or_panic (checked_mul 64 ann n_coins)
    c ← scale_by d ann_times_coins second
    part ← or_panic (checked_div d ann)
    with_in ← or_panic (checked_add 256 part swap_in)
    b ← or_panic (checked_add 256 with_in no_swap)
    settle max_y_rounds (next_y b c d) d

  unfoldable pub compute_y : StableSwap → ℕ → ℕ → ℕ → Result ContractError ℕ
  compute_y v x no_swap d = do amount ← compute_y_raw v x no_swap d; or_panic (try_into 128 amount)

  unfoldable pub swap_to : StableSwap → ℕ → ℕ → ℕ → ℕ → Result ContractError SwapResult
  swap_to v source_amount swap_source_amount swap_destination_amount unswaped_amount = do
    new_source ← or_panic (checked_add 128 swap_source_amount source_amount)
    d ← compute_d v swap_source_amount swap_destination_amount unswaped_amount
    y ← compute_y v new_source unswaped_amount d
    gap ← or_panic (checked_sub swap_destination_amount y)
    dy ← or_panic (checked_sub gap 1)
    new_destination ← or_panic (checked_sub swap_destination_amount dy)
    ok (record {
      new_source_amount = new_source;
      new_destination_amount = new_destination;
      amount_swapped = dy;
    })

  unfoldable pub reverse_sim : StableSwap → ℕ → ℕ → ℕ → ℕ → Result ContractError ℕ
  reverse_sim v ask_amount swap_source_amount swap_destination_amount unswaped_amount = do
    rest ← or_panic (checked_sub swap_destination_amount ask_amount)
    d ← compute_d v swap_source_amount swap_destination_amount unswaped_amount
    y ← compute_y v rest unswaped_amount d
    or_panic (checked_sub y swap_source_amount)
