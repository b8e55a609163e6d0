-- ===== src/Trio/Swap.antt =====
-- `compute_swap`, `compute_offer_amount` and `assert_slippage_tolerance` of
-- stableswap_3pool/src/helpers.rs, without the osmosis feature.
use migaloo_core.Prelude.{
  ℕ, ◌-◌, Option, none, some, ltb, if◌then◌else◌, Result, ok, ◌>>=◌, ◌>>◌, fail_if,
}
use migaloo_core.Cosmwasm.{
  Cosmwasm, StdError, decimal_one, checked_add, checked_sub, from_ratio, mul_floor, try_into,
}
use migaloo_core.Fee.{compute}
use migaloo_core.Pair.{ContractError, PoolFee, std, lift, max_slippage_assertion}
use migaloo_core.Pair.Curve.{or_panic, checked}
use migaloo_core.Pair.Swap.{SwapComputation, less_fees}
use migaloo_core.Pair.Reverse.{OfferAmountComputation}
use migaloo_core.Trio.Amp.{StableSwap}
use migaloo_core.Trio.Invariant.{swap_to, reverse_sim}

-- How far two amounts are apart.
abbrev pub difference : ℕ → ℕ → ℕ
difference a b = if ltb b a then a - b else b - a

module _ ⦃cw : Cosmwasm⦄ where
  unfoldable pub compute_swap :
      ℕ → ℕ → ℕ → ℕ → PoolFee → StableSwap → Result ContractError SwapComputation
  compute_swap offer_pool ask_pool unswapped_pool offer_amount pool_fees invariant = do
    result ← swap_to invariant offer_amount offer_pool ask_pool unswapped_pool
    let gross = result.amount_swapped
    swap_fee ← lift (compute pool_fees.swap_fee gross)
    protocol_fee ← lift (compute pool_fees.protocol_fee gross)
    burn_fee ← lift (compute pool_fees.burn_fee gross)
    net ← less_fees or_panic gross swap_fee protocol_fee burn_fee
    return_amount ← checked (try_into 128 net)
    spread_amount ← checked (try_into 128 (difference offer_amount gross))
    swap_fee_amount ← checked (try_into 128 swap_fee)
    protocol_fee_amount ← checked (try_into 128 protocol_fee)
    burn_fee_amount ← checked (try_into 128 burn_fee)
    ok (record {
      return_amount = return_amount;
      spread_amount = spread_amount;
      swap_fee_amount = swap_fee_amount;
      protocol_fee_amount = protocol_fee_amount;
      burn_fee_amount = burn_fee_amount;
    })

  -- The shares of the fees are `Decimal`s here, so they are added and inverted in 128 bits.
  unfoldable pub before_commission : PoolFee → ℕ → Result ContractError ℕ
  before_commission pool_fees ask_amount = do
    two ← or_panic (checked_add 128 pool_fees.swap_fee.share pool_fees.protocol_fee.share)
    fees ← or_panic (checked_add 128 two pool_fees.burn_fee.share)
    one_minus_commission ← or_panic (checked_sub decimal_one fees)
    factor ← or_panic (from_ratio 128 decimal_one one_minus_commission)
    or_panic (mul_floor 128 ask_amount factor)

  unfoldable pub compute_offer_amount :
      ℕ → ℕ → ℕ → ℕ → PoolFee → StableSwap → Result ContractError OfferAmountComputation
  unfolding before_commission
  compute_offer_amount offer_pool ask_pool unswapped_pool ask_amount pool_fees invariant = do
    before ← before_commission pool_fees ask_amount
    offer_amount ← reverse_sim invariant before offer_pool ask_pool unswapped_pool
    swap_fee ← lift (compute pool_fees.swap_fee before)
    protocol_fee ← lift (compute pool_fees.protocol_fee before)
    burn_fee ← lift (compute pool_fees.burn_fee before)
    swap_fee_amount ← checked (try_into 128 swap_fee)
    protocol_fee_amount ← checked (try_into 128 protocol_fee)
    burn_fee_amount ← checked (try_into 128 burn_fee)
    ok (record {
      offer_amount = offer_amount;
      spread_amount = difference before offer_amount;
      swap_fee_amount = swap_fee_amount;
      protocol_fee_amount = protocol_fee_amount;
      burn_fee_amount = burn_fee_amount;
    })

  unfoldable pub assert_shares : ℕ → ℕ × ℕ × ℕ → ℕ × ℕ × ℕ → ℕ → ℕ → Result ContractError (Unit {0})
  assert_shares rest (deposit_0, deposit_1, deposit_2) (pool_0, pool_1, pool_2) amount
        pool_token_supply =
      do
        two_pools ← checked (checked_add 256 pool_0 pool_1)
        pools_total ← checked (checked_add 256 two_pools pool_2)
        two_deposits ← checked (checked_add 256 deposit_0 deposit_1)
        deposits_total ← checked (checked_add 256 two_deposits deposit_2)
        pool_ratio ← or_panic (from_ratio 256 pools_total pool_token_supply)
        deposit_ratio ← or_panic (from_ratio 256 deposits_total amount)
        lowered ← or_panic (mul_floor 256 pool_ratio rest)
        fail_if (ltb deposit_ratio lowered) max_slippage_assertion

  unfoldable pub assert_slippage_tolerance :
      Option ℕ → ℕ × ℕ × ℕ → ℕ × ℕ × ℕ → ℕ → ℕ → Result ContractError (Unit {0})
  unfolding assert_shares
  assert_slippage_tolerance none deposits pools amount supply = ok tt
  assert_slippage_tolerance (some slippage_tolerance) deposits pools amount supply = do
    fail_if (ltb decimal_one slippage_tolerance) (std StdError.generic_err)
    rest ← or_panic (checked_sub decimal_one slippage_tolerance)
    assert_shares rest deposits pools amount supply
