-- ===== src/Pair/Offers.antt =====
-- What `compute_offer_amount` quotes is the offer that a swap needs.
use migaloo_core.Prelude.{
  ℕ, ◌+◌, ◌-◌, ◌*◌, ◌/◌, ◌≤◌, ◌<◌, ◌≡◌, ◌≢◌, ap, arith, ok, >>=-elim, ok-injective,
}
use migaloo_core.Cosmwasm.{
  Cosmwasm, StdError, decimal_one, checked_add, checked_sub, checked_mul, multiply_ratio, mul_floor,
  from_ratio,
}
use migaloo_core.Fee.{compute}
use migaloo_core.Pair.{PoolFee}
use migaloo_core.Pair.Swap.{gross_return}
use migaloo_core.Pair.Reverse.{
  OfferAmountComputation, panic_or, commission_factor, offer_for, as_uint128, compute_offer_amount,
}
use migaloo_core.Pair.Product.{gross_return_lem, gross_return_above}
use native.Mathlib.Nat.{le_of_mul-le-mul_right, lt_of_mul-lt-mul_left}
use migaloo_core.Checked.{
  checked_add-ok, mul_floor-ok, from_ratio-ok, checked_sub-ok, checked_mul-ok, multiply_ratio-ok,
  try_into-ok, quotient_bounds,
}

-- The new pool times what the other pool keeps is the product of the pools, rounded down.
offer_bounds :
    (o a b x cp rest pool : ℕ)
    → cp ≡ o * a
    → rest + b ≡ a
    → rest ≢ 0
    → pool ≡ 1 * cp / rest
    → x + o ≡ pool
    → (b < a) × ((o + x) * (a - b) ≤ o * a) × (o * a < (o + x + 1) * (a - b))
offer_bounds o a b x cp rest pool cp_is rest_is some_rest pool_is offer_is =
    let (low, high) = quotient_bounds (1 * cp) rest pool some_rest pool_is in
    let kept : a - b ≡ rest = omega arith in
    let sum : o + x ≡ pool = omega arith in
    let product : o * a ≡ 1 * cp = omega arith in
    (omega arith, rw kept (rw sum (rw product low)), rw kept (rw sum (rw product (grind arith))))

at_most_quote :
    (o a b q x g : ℕ) → o + x ≢ 0 → q + b ≡ a → (o + x) * q ≤ o * a → g * (o + x) ≤ a * x → g ≤ b
at_most_quote o a b q x g some_pool sum kept gross =
    let split = ap (λ (n : ℕ). (o + x) * n) sum in
    let all_at_once : g * (o + x) ≤ b * (o + x) = grind arith in
    le_of_mul-le-mul_right all_at_once (omega arith)

at_least_quote :
    (o a b q x g : ℕ)
    → q + b ≡ a
    → o * a < (o + x + 1) * q
    → a * (x + 1) < (o + (x + 1)) * (g + 1)
    → b ≤ g
at_least_quote o a b q x g sum kept gross =
    let split = ap (λ (n : ℕ). (o + x + 1) * n) sum in
    let all_at_once : (o + x + 1) * b < (o + x + 1) * (g + 1) = grind arith in
    let below = lt_of_mul-lt-mul_left (o + x + 1) all_at_once in omega arith

-- The three fees of a pool, in parts of one.
abbrev pub all_fees : PoolFee → ℕ
all_fees fees = fees.swap_fee.share + fees.protocol_fee.share + fees.burn_fee.share

-- One divided by a part of one, rounded down to 18 decimals.
abbrev pub inverse_of : ℕ → ℕ
inverse_of part = decimal_one * decimal_one / part

module _ ⦃cw : Cosmwasm⦄ where
  offer_for_lem :
      (o a b x : ℕ)
      → offer_for o a b ≡ ok x
      → (b < a) × ((o + x) * (a - b) ≤ o * a) × (o * a < (o + x + 1) * (a - b))
  unfolding offer_for
  offer_for_lem o a b x h = >>=-elim (panic_or (checked_mul 256 o a)) h (λ cp e1 h1.
      >>=-elim (panic_or (checked_sub a b)) h1 (λ rest e2 h2.
        >>=-elim (panic_or (multiply_ratio 256 1 cp rest)) h2 (λ pool e3 h3.
          let (cp_is, _) = checked_mul-ok StdError.panicked 256 o a cp e1 in
          let rest_is = checked_sub-ok StdError.panicked a b rest e2 in
          let (some_rest, pool_is) = multiply_ratio-ok StdError.panicked 256 1 cp rest pool e3 in
          let offer_is = checked_sub-ok StdError.panicked pool o x h3 in
          offer_bounds o a b x cp rest pool cp_is rest_is some_rest pool_is offer_is)))

  -- The spread and the fees do not change the offer.
  compute_offer_amount_lem :
      (o a n : ℕ) (fees : PoolFee) (r : OfferAmountComputation)
      → compute_offer_amount o a n fees ≡ ok r
      → (f : ℕ) × (b : ℕ) × (commission_factor fees ≡ ok f)
        × (panic_or (mul_floor 256 n f) ≡ ok b)
        × (offer_for o a b ≡ ok r.offer_amount)
  unfolding compute_offer_amount as_uint128
  compute_offer_amount_lem o a n fees r h = >>=-elim (commission_factor fees) h (λ f e1 h1.
      >>=-elim (panic_or (mul_floor 256 n f)) h1 (λ b e2 h2.
        >>=-elim (offer_for o a b) h2 (λ x e3 h3.
          >>=-elim (panic_or (from_ratio 256 a o)) h3 (λ price _ h4.
            >>=-elim (panic_or (mul_floor 256 x price)) h4 (λ ideal _ h5.
              >>=-elim (compute fees.swap_fee b) h5 (λ s _ h6.
                >>=-elim (compute fees.protocol_fee b) h6 (λ p _ h7.
                  >>=-elim (compute fees.burn_fee b) h7 (λ u _ h8.
                    >>=-elim (as_uint128 x) h8 (λ x' e9 h9.
                      let (same, _) = try_into-ok StdError.overflow 128 x x' e9 in
                      let offer_is : x' ≡ r.offer_amount =
                        >>=-elim (as_uint128 (ideal - b)) h9 (λ _ _ h10.
                          >>=-elim (as_uint128 s) h10 (λ _ _ h11.
                            >>=-elim (as_uint128 p) h11 (λ _ _ h12.
                              >>=-elim (as_uint128 u) h12
                                (λ _ _ h13. ap (λ c. c.offer_amount) (ok-injective h13))))) in
                      (f, b, e1, e2, rw e3 (rw (← same) (rw offer_is))))))))))))

  commission_factor_lem :
      (fees : PoolFee) (f : ℕ)
      → commission_factor fees ≡ ok f
      → (all_fees fees < decimal_one) × (f ≡ inverse_of (decimal_one - all_fees fees))
  unfolding commission_factor
  commission_factor_lem fees f h =
      >>=-elim (panic_or (checked_add 256 fees.swap_fee.share fees.protocol_fee.share)) h
        λ two e1 h1. >>=-elim (panic_or (checked_add 256 two fees.burn_fee.share)) h1 λ sum e2 h2.
          >>=-elim (panic_or (checked_sub decimal_one sum)) h2 λ rest e3 h3.
            let (two_is, _) =
              checked_add-ok StdError.panicked 256 fees.swap_fee.share fees.protocol_fee.share two
                e1 in
            let (sum_is, _) = checked_add-ok StdError.panicked 256 two fees.burn_fee.share sum e2 in
            let rest_is = checked_sub-ok StdError.panicked decimal_one sum rest e3 in
            let (some_rest, f_is) = from_ratio-ok StdError.panicked 256 decimal_one rest f h3 in
            let left : decimal_one - all_fees fees ≡ rest = omega arith in
            (omega arith, rw left f_is)

  -- The offer that `compute_offer_amount` quotes for an amount asked for is the right one to within
  -- one unit: the fees are below one together, and with the inverse of one minus the fees, rounded
  -- down to 18 decimals, times the amount, rounded down to a whole number, as the worth, what is
  -- quoted, offered to the same constant product pools, is worth no more than that before fees, and
  -- one unit more is worth no less, if neither of the two swaps panics.
  pub compute_offer_amount-gross_return :
      (o a n : ℕ) (fees : PoolFee) (r : OfferAmountComputation) (g g' : ℕ)
      → compute_offer_amount o a n fees ≡ ok r
      → gross_return o a r.offer_amount ≡ ok g
      → gross_return o a (r.offer_amount + 1) ≡ ok g'
      → let worth = n * inverse_of (decimal_one - all_fees fees) / decimal_one in
        (all_fees fees < decimal_one) × (g ≤ worth) × (worth ≤ g')
  compute_offer_amount-gross_return o a n fees r g g' quote run run' =
      let (f, b, e1, e2, e3) = compute_offer_amount_lem o a n fees r quote in
      let (below, low, high) = offer_for_lem o a b r.offer_amount e3 in
      let (some_pool, gross) = gross_return_lem o a r.offer_amount g run in
      let above = gross_return_above o a (r.offer_amount + 1) g' run' in
      let sum : a - b + b ≡ a = omega arith in
      let (less, f_is) = commission_factor_lem fees f e1 in
      let b_is = mul_floor-ok StdError.panicked 256 n f b e2 in
      rw (← f_is) (
        rw (← b_is) (
          less,
          at_most_quote o a b (a - b) r.offer_amount g some_pool sum low gross,
          at_least_quote o a b (a - b) r.offer_amount g' sum high above,
        ))
