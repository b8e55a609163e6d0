-- ===== src/Pair/Shares.antt =====
-- The shares of deposits into the pair, and what they give back.
use migaloo_core.Prelude.{
  ℕ, ◌+◌, ◌*◌, ◌/◌, ◌≤◌, ◌<◌, ◌≡◌, ◌≢◌, sym, ap, arith, min, Bool-cases, inl, inr, List, ◌==◌, ok,
  >>=-elim, ok-injective, ok_or,
}
use migaloo_core.Cosmwasm.{
  Cosmwasm, decimal_one, checked_sub, checked_mul, multiply_ratio, mul_floor, from_ratio, try_into,
}
use migaloo_core.Uint.{Uint, integer_sqrt, integer_sqrt_below, integer_sqrt_above}
use migaloo_core.Asset.{Asset, minimum_liquidity_amount}
use migaloo_core.Pair.{
  std, constant_product, liquidity_share_computation, invalid_initial_liquidity_amount,
}
use migaloo_core.Cosmwasm.{StdError}
use migaloo_core.Pair.Curve.{or_panic}
use migaloo_core.Pair.Pools.{less_protocol_fee}
use migaloo_core.Pair.Liquidity.{initial_share, later_share, refund}
use migaloo_core.Checked.{
  checked_mul-ok, checked_sub-ok, multiply_ratio-ok, from_ratio-ok, mul_floor-ok, try_into-ok,
  quotient_bounds,
}
use native.Mathlib.Nat.{mul-le-mul_left, mul-le-mul_right, le_of_mul-le-mul_right}

-- Part of a pool by a ratio of shares that is rounded down.
part_below :
    (net n total ratio back : ℕ)
    → total ≢ 0
    → ratio ≡ n * decimal_one / total
    → back ≡ net * ratio / decimal_one
    → back * total ≤ net * n
part_below net n total ratio back some_total ratio_is back_is =
    let (low, _) = quotient_bounds (n * decimal_one) total ratio some_total ratio_is in
    let (part, _) = quotient_bounds (net * ratio) decimal_one back (omega arith) back_is in
    let scaled = mul-le-mul_left net low in
    let more = mul-le-mul_right total part in
    let all_at_once : back * total * decimal_one ≤ net * n * decimal_one = grind arith in
    le_of_mul-le-mul_right all_at_once (omega arith)

-- A deposit's shares are no more than the deposit's part of the pool, so they give back no more.
no_gain :
    (p d total n back : ℕ)
    → total + n ≢ 0
    → n * p ≤ d * total
    → back * (total + n) ≤ (p + d) * n
    → back ≤ d
no_gain p d total n back some_total fair refunded =
    let all_at_once : back * (total + n) ≤ d * (total + n) = grind arith in
    le_of_mul-le-mul_right all_at_once (omega arith)

module _ ⦃cw : Cosmwasm⦄ where
  refund_lem :
      (collected : List Asset) (ratio : ℕ) (pool net back : Asset)
      → less_protocol_fee collected pool ≡ ok net
      → refund collected ratio pool ≡ ok back
      → back.amount ≡ net.amount * ratio / decimal_one
  unfolding refund
  refund_lem collected ratio pool net back e h =
      >>=-elim (or_panic (mul_floor 128 net.amount ratio)) (rw e at h) (λ n found done.
        let n_is = mul_floor-ok (std StdError.panicked) 128 net.amount ratio n found in
        let back_is = ap (λ x. x.amount) (ok-injective done) in omega arith)

  later_share_lem :
      (d0 d1 p0 p1 total n : ℕ)
      → later_share constant_product d0 d1 p0 p1 total ≡ ok n
      → (n * p0 ≤ d0 * total) × (n * p1 ≤ d1 * total)
  unfolding later_share
  later_share_lem d0 d1 p0 p1 total n h =
      >>=-elim (or_panic (multiply_ratio 128 d0 total p0)) h (λ m0 e0 h0.
        >>=-elim (or_panic (multiply_ratio 128 d1 total p1)) h0 (λ m1 e1 h1.
          let (some_0, m0_is) = multiply_ratio-ok (std StdError.panicked) 128 d0 total p0 m0 e0 in
          let (some_1, m1_is) = multiply_ratio-ok (std StdError.panicked) 128 d1 total p1 m1 e1 in
          let (low_0, _) = quotient_bounds (d0 * total) p0 m0 some_0 m0_is in
          let (low_1, _) = quotient_bounds (d1 * total) p1 m1 some_1 m1_is in
          let least : min m0 m1 ≡ n = ok-injective h1 in
          let less_0 : n ≤ m0 = omega arith in
          let less_1 : n ≤ m1 = omega arith in
          let scaled_0 = mul-le-mul_right p0 less_0 in
          let scaled_1 = mul-le-mul_right p1 less_1 in (omega arith, omega arith)))

  -- In a constant product pair, shares that a deposit into pools with a supply of shares was given, when
  -- withdrawn at once, give back at most the deposit of each asset: for the ratio of the shares to the
  -- new supply, and pools that are, less their fees, the old pools and the deposits.
  pub later_share-refund :
      (d0 d1 p0 p1 total n ratio : ℕ) (collected : List Asset)
      (pool_0 pool_1 net_0 net_1 back_0 back_1 : Asset)
      → later_share constant_product d0 d1 p0 p1 total ≡ ok n
      → or_panic (from_ratio 128 n (total + n)) ≡ ok ratio
      → less_protocol_fee collected pool_0 ≡ ok net_0
      → less_protocol_fee collected pool_1 ≡ ok net_1
      → net_0.amount ≡ p0 + d0
      → net_1.amount ≡ p1 + d1
      → refund collected ratio pool_0 ≡ ok back_0
      → refund collected ratio pool_1 ≡ ok back_1
      → (back_0.amount ≤ d0) × (back_1.amount ≤ d1)
  later_share-refund d0 d1 p0 p1 total n ratio collected pool_0 pool_1 net_0 net_1 back_0 back_1
        shares r e0 e1 is_0 is_1 f0 f1 =
      let (fair_0, fair_1) = later_share_lem d0 d1 p0 p1 total n shares in
      let (some_total, ratio_is) =
        from_ratio-ok (std StdError.panicked) 128 n (total + n) ratio r in
      let part_0 =
        part_below net_0.amount n (total + n) ratio back_0.amount some_total ratio_is
          (refund_lem collected ratio pool_0 net_0 back_0 e0 f0) in
      let part_1 =
        part_below net_1.amount n (total + n) ratio back_1.amount some_total ratio_is
          (refund_lem collected ratio pool_1 net_1 back_1 e1 f1) in
      (
        no_gain p0 d0 total n back_0.amount some_total fair_0 (rw (← is_0) part_0),
        no_gain p1 d1 total n back_1.amount some_total fair_1 (rw (← is_1) part_1),
      )

module _ ⦃cw : Cosmwasm⦄ ⦃uint : Uint⦄ where
  -- The minimum and the share of a first deposit into a constant product pair are together the
  -- integer square root of the product of the two deposits, and the share is not zero.
  pub initial_share-integer_sqrt :
      (d0 d1 minimum share : ℕ)
      → initial_share constant_product d0 d1 ≡ ok (minimum, share)
      → (minimum ≡ minimum_liquidity_amount)
        × (share ≢ 0)
        × ((minimum + share) * (minimum + share) ≤ d0 * d1)
        × (d0 * d1 < (minimum + share + 1) * (minimum + share + 1))
  unfolding initial_share
  initial_share-integer_sqrt d0 d1 minimum share h =
      >>=-elim (ok_or (checked_mul 256 d0 d1) liquidity_share_computation) h (λ product e1 h1.
        >>=-elim (or_panic (try_into 128 (integer_sqrt product))) h1 (λ total e2 h2.
          >>=-elim
            (ok_or (checked_sub total minimum_liquidity_amount) invalid_initial_liquidity_amount) h2
            (λ rest e3 h3.
              let (product_is, _) =
                checked_mul-ok liquidity_share_computation 256 d0 d1 product e1 in
              let (total_is, _) =
                try_into-ok (std StdError.panicked) 128 (integer_sqrt product) total e2 in
              let rest_is =
                checked_sub-ok invalid_initial_liquidity_amount total minimum_liquidity_amount rest
                  e3 in
              let low = integer_sqrt_below product in
              let high = integer_sqrt_above product in
              elim (Bool-cases (rest == 0)) [
                | inl nothing ↦ absurd (let no = rw nothing at h3 in cc)
                | inr something ↦
                    let same = ok-injective (rw something at h3) in
                    let minimum_is : minimum_liquidity_amount ≡ minimum = ap (λ x. x.0) same in
                    let share_is : rest ≡ share = ap (λ x. x.1) same in
                    let sum : minimum + share ≡ integer_sqrt product = omega arith in
                    (
                      sym minimum_is,
                      ground arith,
                      rw sum (rw (← product_is) low),
                      rw sum (rw (← product_is) high),
                    )
              ])))
