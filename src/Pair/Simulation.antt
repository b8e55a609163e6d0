-- ===== src/Pair/Simulation.antt =====
-- `query_reverse_simulation` of terraswap_pair/src/queries.rs, without the osmosis feature.
use migaloo_core.Prelude.{ℕ, ◌-◌, ◌^◌, ltb, leb, ◌==◌, if◌then◌else◌, Result, ok, ◌>>=◌}
use migaloo_core.Cosmwasm.{
  Cosmwasm, decimal_one, checked_sub, checked_mul, checked_div, mul_floor, inv, try_into,
}
use migaloo_core.Fee.{compute}
use migaloo_core.Asset.{Asset}
use migaloo_core.Pair.{ContractError, PoolFee, PairType, State, stable_swap, constant_product, lift}
use migaloo_core.Pair.Curve.{
  checked, decimal_with_precision, to_uint256_with_precision, calculate_stableswap_y,
  reverse_simulate,
}
use migaloo_core.Pair.Reverse.{OfferAmountComputation, compute_offer_amount}
use migaloo_core.Pair.Limits.{unwrap_or}
use migaloo_core.Pair.Trades.{Sides, choose_sides}
use migaloo_core.Pair.Queries.{Balances, net_pools}

module _ ⦃cw : Cosmwasm⦄ where
  -- What an amount asked for is before the fees.
  unfoldable pub amount_before_fees : PoolFee → ℕ → ℕ → Result ContractError ℕ
  amount_before_fees pool_fees ask_amount ask_decimal = do
    a ← checked (checked_sub decimal_one pool_fees.protocol_fee.share)
    b ← checked (checked_sub a pool_fees.swap_fee.share)
    rest ← checked (checked_sub b pool_fees.burn_fee.share)
    amount ← decimal_with_precision ask_amount ask_decimal
    checked (mul_floor 256 (unwrap_or (inv rest) decimal_one) amount)

  -- From the larger of the two precisions into that of the offer.
  unfoldable pub convert_precision : ℕ → ℕ → ℕ → Result ContractError ℕ
  convert_precision offer_amount max_precision offer_decimal =
      if max_precision == offer_decimal
      then ok offer_amount
      else if ltb max_precision offer_decimal
      then checked (checked_mul 128 offer_amount (10 ^ (offer_decimal - max_precision)))
      else checked (checked_div offer_amount (10 ^ (max_precision - offer_decimal)))

  unfoldable pub stable_offer : ℕ → ℕ → ℕ → ℕ → ℕ → ℕ → Result ContractError ℕ
  unfolding convert_precision
  stable_offer offer ask before_fees amp max_precision offer_decimal = do
    new_offer_pool_amount ←
        calculate_stableswap_y offer ask before_fees amp max_precision reverse_simulate
    pool ← to_uint256_with_precision offer max_precision
    old_pool_amount ← checked (try_into 128 pool)
    offer_amount ← checked (checked_sub new_offer_pool_amount old_pool_amount)
    convert_precision offer_amount max_precision offer_decimal

  unfoldable pub reverse_computation :
      PairType → Sides → ℕ → PoolFee → Result ContractError OfferAmountComputation
  unfolding amount_before_fees stable_offer
  reverse_computation constant_product sides ask_amount pool_fees =
      lift (compute_offer_amount sides.offer_pool.amount sides.ask_pool.amount ask_amount pool_fees)
  reverse_computation (stable_swap amp) sides ask_amount pool_fees = do
    offer_pool ← decimal_with_precision sides.offer_pool.amount sides.offer_decimal
    ask_pool ← decimal_with_precision sides.ask_pool.amount sides.ask_decimal
    before_fees ← amount_before_fees pool_fees ask_amount sides.ask_decimal
    before_fees_offer ← to_uint256_with_precision before_fees sides.offer_decimal
    before_fees_ask ← to_uint256_with_precision before_fees sides.ask_decimal
    let max_precision =
        if leb sides.offer_decimal sides.ask_decimal then sides.ask_decimal else sides.offer_decimal
    offer_amount ←
        stable_offer offer_pool ask_pool before_fees amp max_precision sides.offer_decimal
    before ← checked (try_into 128 before_fees_offer)
    swap_fee ← lift (compute pool_fees.swap_fee before_fees_ask)
    protocol_fee ← lift (compute pool_fees.protocol_fee before_fees_ask)
    burn_fee ← lift (compute pool_fees.burn_fee before_fees_ask)
    swap_fee_amount ← checked (try_into 128 swap_fee)
    protocol_fee_amount ← checked (try_into 128 protocol_fee)
    burn_fee_amount ← checked (try_into 128 burn_fee)
    ok (record {
      offer_amount = offer_amount;
      spread_amount = offer_amount - before;
      swap_fee_amount = swap_fee_amount;
      protocol_fee_amount = protocol_fee_amount;
      burn_fee_amount = burn_fee_amount;
    })

  -- The asked asset is the ask side, so the other one is offered.
  abbrev pub turned : Sides → Sides
  turned sides = record {
    offer_pool = sides.ask_pool;
    ask_pool = sides.offer_pool;
    offer_decimal = sides.ask_decimal;
    ask_decimal = sides.offer_decimal;
  }

  unfoldable pub query_reverse_simulation :
      Balances → State → Asset → Result ContractError OfferAmountComputation
  unfolding reverse_computation
  query_reverse_simulation balances s ask_asset = do
    (net_0, net_1) ← net_pools balances s
    sides ← choose_sides ask_asset.info net_0 net_1 s.pair_info.asset_decimals
    reverse_computation s.pair_info.pair_type (turned sides) ask_asset.amount s.config.pool_fees
