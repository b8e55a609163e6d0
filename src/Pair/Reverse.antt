-- ===== src/Pair/Reverse.antt =====
-- `compute_offer_amount` of terraswap_pair/src/helpers.rs, without the osmosis feature: what to offer
-- in a constant product pool for an amount asked of it. Its operators panic.
use migaloo_core.Prelude.{ℕ, ◌-◌, Option, Result, ok, ◌>>=◌, ok_or}
use migaloo_core.Cosmwasm.{
  Cosmwasm, StdError, decimal_one, checked_add, checked_sub, checked_mul, from_ratio, mul_floor,
  multiply_ratio, try_into,
}
use migaloo_core.Fee.{compute}
use migaloo_core.Pair.{PoolFee}

pub record OfferAmountComputation : Type 0 where
  pub offer_amount : ℕ
  pub spread_amount : ℕ
  pub swap_fee_amount : ℕ
  pub protocol_fee_amount : ℕ
  pub burn_fee_amount : ℕ

abbrev pub panic_or : Option ℕ → Result StdError ℕ
panic_or o = ok_or o StdError.panicked

module _ ⦃cw : Cosmwasm⦄ where
  -- `inv_one_minus_commission`
  unfoldable pub commission_factor : PoolFee → Result StdError ℕ
  commission_factor pool_fees = do
    two ← panic_or (checked_add 256 pool_fees.swap_fee.share pool_fees.protocol_fee.share)
    fees ← panic_or (checked_add 256 two pool_fees.burn_fee.share)
    one_minus_commission ← panic_or (checked_sub decimal_one fees)
    panic_or (from_ratio 256 decimal_one one_minus_commission)

  -- The offer after which a constant product pool has `before_commission` less of the asked asset.
  unfoldable pub offer_for : ℕ → ℕ → ℕ → Result StdError ℕ
  offer_for offer_pool ask_pool before_commission = do
    cp ← panic_or (checked_mul 256 offer_pool ask_pool)
    rest ← panic_or (checked_sub ask_pool before_commission)
    new_pool ← panic_or (multiply_ratio 256 1 cp rest)
    panic_or (checked_sub new_pool offer_pool)

  unfoldable pub as_uint128 : ℕ → Result StdError ℕ
  as_uint128 n = ok_or (try_into 128 n) StdError.overflow

  unfoldable pub compute_offer_amount : ℕ → ℕ → ℕ → PoolFee → Result StdError OfferAmountComputation
  compute_offer_amount offer_pool ask_pool ask_amount pool_fees = do
    factor ← commission_factor pool_fees
    before_commission ← panic_or (mul_floor 256 ask_amount factor)
    offer ← offer_for offer_pool ask_pool before_commission
    price ← panic_or (from_ratio 256 ask_pool offer_pool)
    before_spread ← panic_or (mul_floor 256 offer price)
    swap_fee ← compute pool_fees.swap_fee before_commission
    protocol_fee ← compute pool_fees.protocol_fee before_commission
    burn_fee ← compute pool_fees.burn_fee before_commission
    offer_amount ← as_uint128 offer
    spread_amount ← as_uint128 (before_spread - before_commission)
    swap_fee_amount ← as_uint128 swap_fee
    protocol_fee_amount ← as_uint128 protocol_fee
    burn_fee_amount ← as_uint128 burn_fee
    ok (record {
      offer_amount = offer_amount;
      spread_amount = spread_amount;
      swap_fee_amount = swap_fee_amount;
      protocol_fee_amount = protocol_fee_amount;
      burn_fee_amount = burn_fee_amount;
    })
