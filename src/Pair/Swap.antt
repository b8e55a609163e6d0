-- ===== src/Pair/Swap.antt =====
-- `compute_swap` of terraswap_pair/src/helpers.rs, without the osmosis feature.
use migaloo_core.Prelude.{ℕ, ◌-◌, Option, Result, ok, ◌>>=◌}
use migaloo_core.Cosmwasm.{Cosmwasm, checked_add, checked_sub, checked_mul, from_ratio, mul_floor}
use migaloo_core.Fee.{compute}
use migaloo_core.Pair.{PoolFee, ContractError, PairType, stable_swap, constant_product, lift}
use migaloo_core.Pair.Curve.{
  or_panic, checked, to_u128, decimal_with_precision, to_uint256_with_precision,
  calculate_stableswap_y, simulate,
}

pub record SwapComputation : Type 0 where
  pub return_amount : ℕ
  pub spread_amount : ℕ
  pub swap_fee_amount : ℕ
  pub protocol_fee_amount : ℕ
  pub burn_fee_amount : ℕ

-- What a subtraction of fees does where they exceed the amount: a panic of the operator, or an error.
abbrev pub Subtraction : Type 0
Subtraction = Option ℕ → Result ContractError ℕ

module _ ⦃cw : Cosmwasm⦄ where
  -- What the offer is worth before fees in a constant product pool.
  unfoldable pub gross_return : ℕ → ℕ → ℕ → Result ContractError ℕ
  gross_return offer_pool ask_pool offer_amount = do
    product ← or_panic (checked_mul 256 ask_pool offer_amount)
    sum ← or_panic (checked_add 256 offer_pool offer_amount)
    ratio ← or_panic (from_ratio 256 product sum)
    or_panic (mul_floor 256 1 ratio)

  -- How far it is from the price of the pool.
  unfoldable pub spread_of : ℕ → ℕ → ℕ → ℕ → Result ContractError ℕ
  spread_of offer_pool ask_pool offer_amount return_amount = do
    exchange_rate ← or_panic (from_ratio 256 ask_pool offer_pool)
    ideal ← or_panic (mul_floor 256 offer_amount exchange_rate)
    or_panic (checked_sub ideal return_amount)

  -- What the offer is worth before fees on the stableswap curve.
  unfoldable pub stable_return : ℕ → ℕ → ℕ → ℕ → ℕ → Result ContractError ℕ
  stable_return offer_pool ask_pool offer_amount amp ask_precision = do
    new_pool ← calculate_stableswap_y offer_pool ask_pool offer_amount amp ask_precision simulate
    pool ← to_uint256_with_precision ask_pool ask_precision
    checked (checked_sub pool new_pool)

  -- The return less the three fees.
  unfoldable pub less_fees : Subtraction → ℕ → ℕ → ℕ → ℕ → Result ContractError ℕ
  less_fees subtraction gross swap_fee protocol_fee burn_fee = do
    a ← subtraction (checked_sub gross swap_fee)
    b ← subtraction (checked_sub a protocol_fee)
    subtraction (checked_sub b burn_fee)

  -- The fees, and all five amounts in 128 bits.
  unfoldable pub swap_computation :
      Subtraction → PoolFee → ℕ → ℕ → Result ContractError SwapComputation
  swap_computation subtraction pool_fees gross spread = do
    swap_fee ← lift (compute pool_fees.swap_fee gross)
    protocol_fee ← lift (compute pool_fees.protocol_fee gross)
    burn_fee ← lift (compute pool_fees.burn_fee gross)
    net ← less_fees subtraction gross swap_fee protocol_fee burn_fee
    return_amount ← to_u128 net
    spread_amount ← to_u128 spread
    swap_fee_amount ← to_u128 swap_fee
    protocol_fee_amount ← to_u128 protocol_fee
    burn_fee_amount ← to_u128 burn_fee
    ok (record {
      return_amount = return_amount;
      spread_amount = spread_amount;
      swap_fee_amount = swap_fee_amount;
      protocol_fee_amount = protocol_fee_amount;
      burn_fee_amount = burn_fee_amount;
    })

  unfoldable pub compute_swap :
      ℕ → ℕ → ℕ → PoolFee → PairType → ℕ → ℕ → Result ContractError SwapComputation
  compute_swap offer_pool ask_pool offer_amount pool_fees constant_product offer_precision
        ask_precision =
      do
        gross ← gross_return offer_pool ask_pool offer_amount
        spread ← spread_of offer_pool ask_pool offer_amount gross
        swap_computation or_panic pool_fees gross spread
  compute_swap offer_pool ask_pool offer_amount pool_fees (stable_swap amp) offer_precision
        ask_precision =
      do
        offer ← decimal_with_precision offer_pool offer_precision
        ask ← decimal_with_precision ask_pool ask_precision
        amount ← decimal_with_precision offer_amount offer_precision
        gross ← stable_return offer ask amount amp ask_precision
        ideal ← to_uint256_with_precision amount ask_precision
        swap_computation checked pool_fees gross (ideal - gross)
