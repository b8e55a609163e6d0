-- ===== src/Pair/Limits.antt =====
-- The limits on slippage: `assert_slippage_tolerance` of terraswap_pair/src/helpers.rs for deposits
-- and `assert_max_spread` of packages/white-whale-std/src/pool_network/swap.rs for swaps.
use migaloo_core.Prelude.{
  ℕ, ◌-◌, min, Bool, Option, none, some, ltb, if◌then◌else◌, Result, ok, err, ◌>>=◌, ◌>>◌, fail_if,
  ok_or, false,
}
use migaloo_core.Cosmwasm.{
  Cosmwasm, StdError, decimal_one, checked_add, checked_sub, from_ratio, mul_floor, inv,
}
use migaloo_core.Pair.{
  ContractError, PairType, stable_swap, constant_product, std, max_slippage_assertion,
}
use migaloo_core.Pair.Curve.{or_panic, checked}
use migaloo_core.Pair.Reverse.{panic_or}

-- 0.01
abbrev pub default_slippage : ℕ
default_slippage = 10000000000000000

-- 0.5
abbrev pub max_allowed_slippage : ℕ
max_allowed_slippage = 500000000000000000

abbrev pub unwrap_or : Option ℕ → ℕ → ℕ
unwrap_or none d = d
unwrap_or (some n) d = n

module _ ⦃cw : Cosmwasm⦄ where
  -- Whether the ratio of two deposits, lowered by the tolerance, is above that of two pools.
  unfoldable pub price_dropped : ℕ → ℕ → ℕ → ℕ → ℕ → Result ContractError Bool
  price_dropped deposit_0 deposit_1 one_minus_slippage_tolerance pool_0 pool_1 = do
    ratio ← or_panic (from_ratio 256 deposit_0 deposit_1)
    lowered ← or_panic (mul_floor 256 ratio one_minus_slippage_tolerance)
    pool_ratio ← or_panic (from_ratio 256 pool_0 pool_1)
    ok (ltb pool_ratio lowered)

  -- The second price is computed only where the first did not drop.
  unfoldable pub assert_prices : ℕ → ℕ × ℕ → ℕ × ℕ → Result ContractError (Unit {0})
  assert_prices rest (deposit_0, deposit_1) (pool_0, pool_1) = do
    dropped ← price_dropped deposit_0 deposit_1 rest pool_0 pool_1
    let other = (do
      dropped_too ← price_dropped deposit_1 deposit_0 rest pool_1 pool_0
      fail_if dropped_too max_slippage_assertion)
    if dropped then err max_slippage_assertion else other

  unfoldable pub assert_share : ℕ → ℕ × ℕ → ℕ × ℕ → ℕ → ℕ → Result ContractError (Unit {0})
  assert_share rest (deposit_0, deposit_1) (pool_0, pool_1) amount pool_token_supply = do
    pools_total ← checked (checked_add 256 pool_0 pool_1)
    deposits_total ← checked (checked_add 256 deposit_0 deposit_1)
    pool_ratio ← or_panic (from_ratio 256 pools_total pool_token_supply)
    deposit_ratio ← or_panic (from_ratio 256 deposits_total amount)
    lowered ← or_panic (mul_floor 256 pool_ratio rest)
    fail_if (ltb deposit_ratio lowered) max_slippage_assertion

  unfoldable pub assert_ratios :
      PairType → ℕ → ℕ × ℕ → ℕ × ℕ → ℕ → ℕ → Result ContractError (Unit {0})
  unfolding assert_prices assert_share
  assert_ratios (stable_swap amp) rest deposits pools amount supply =
      assert_share rest deposits pools amount supply
  assert_ratios constant_product rest deposits pools amount supply =
      assert_prices rest deposits pools

  unfoldable pub assert_slippage_tolerance :
      Option ℕ → ℕ × ℕ → ℕ × ℕ → PairType → ℕ → ℕ → Result ContractError (Unit {0})
  unfolding assert_ratios
  assert_slippage_tolerance none deposits pools pair_type amount supply = ok tt
  assert_slippage_tolerance (some slippage_tolerance) deposits pools pair_type amount supply = do
    fail_if (ltb decimal_one slippage_tolerance) (std StdError.generic_err)
    rest ← or_panic (checked_sub decimal_one slippage_tolerance)
    assert_ratios pair_type rest deposits pools amount supply

  -- Whether a part of an amount, as a ratio, is above the limit.
  unfoldable pub ratio_exceeds : ℕ → ℕ → ℕ → Result StdError Bool
  ratio_exceeds part amount limit = do
    ratio ← panic_or (from_ratio 256 part amount)
    ok (ltb limit ratio)

  -- The ratio is computed only where the return is less than expected.
  unfoldable pub belief_exceeds : ℕ → ℕ → ℕ → ℕ → Result StdError Bool
  belief_exceeds belief_price offer_amount return_amount limit = do
    inverse ← ok_or (inv belief_price) StdError.generic_err
    expected_return ← panic_or (mul_floor 128 offer_amount inverse)
    let ratio = ratio_exceeds (expected_return - return_amount) expected_return limit
    if ltb return_amount expected_return then ratio else ok false

  unfoldable pub spread_exceeds : Option ℕ → ℕ → ℕ → ℕ → ℕ → Result StdError Bool
  unfolding belief_exceeds ratio_exceeds
  spread_exceeds (some belief_price) offer_amount return_amount spread_amount limit =
      belief_exceeds belief_price offer_amount return_amount limit
  spread_exceeds none offer_amount return_amount spread_amount limit = do
    gross ← panic_or (checked_add 128 return_amount spread_amount)
    ratio_exceeds spread_amount gross limit

  unfoldable pub assert_max_spread : Option ℕ → Option ℕ → ℕ → ℕ → ℕ → Result StdError (Unit {0})
  unfolding spread_exceeds
  assert_max_spread belief_price max_spread offer_amount return_amount spread_amount = do
    exceeded ←
        spread_exceeds belief_price offer_amount return_amount spread_amount
          (min (unwrap_or max_spread default_slippage) max_allowed_slippage)
    fail_if exceeded StdError.generic_err
