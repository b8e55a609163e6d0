-- ===== src/Pair/Charges.antt =====
-- Fees that are valid never exceed what they are charged on.
use migaloo_core.Prelude.{ℕ, ◌+◌, ◌-◌, ◌*◌, ◌/◌, ◌≤◌, ◌<◌, ◌≡◌, refl, arith, some, ok}
use migaloo_core.Cosmwasm.{
  Cosmwasm, decimal_one, checked_add_lem, checked_sub, checked_sub_lem, mul_floor_lem,
}
use migaloo_core.Fee.{Fee, compute, is_valid}
use migaloo_core.Pair.{PoolFee, aggregate, pool_fee_is_valid}
use migaloo_core.Pair.Curve.{or_panic, checked}
use migaloo_core.Pair.Swap.{Subtraction, less_fees}
use native.Mathlib.Nat.{div-mul-le_self, mul-le-mul_left, le_of_mul-le-mul_right}

shares_within :
    (e g a b c x y z : ℕ)
    → 0 < e
    → x * e ≤ g * a
    → y * e ≤ g * b
    → z * e ≤ g * c
    → a + b + c ≤ e
    → x + y + z ≤ g
shares_within e g a b c x y z pos hx hy hz below =
    let all_shares = mul-le-mul_left g below in
    let all_at_once : (x + y + z) * e ≤ g * e = grind arith in
    le_of_mul-le-mul_right all_at_once pos

module _ ⦃cw : Cosmwasm⦄ where
  pool_fee_is_valid_lem :
      (fees : PoolFee) (u : Unit {0})
      → pool_fee_is_valid fees ≡ ok u
      → fees.swap_fee.share + fees.protocol_fee.share + fees.burn_fee.share ≤ decimal_one
  unfolding pool_fee_is_valid aggregate is_valid
  pool_fee_is_valid_lem fees u h = grind (arith, checked_add_lem)

  compute_lem : (fee : Fee) (g n : ℕ) → compute fee g ≡ ok n → n * decimal_one ≤ g * fee.share
  unfolding compute
  compute_lem fee g n h =
      let value : n ≡ g * fee.share / decimal_one = grind (arith, mul_floor_lem) in
      rw value (div-mul-le_self (g * fee.share) decimal_one)

  less_fees_lem :
      (f : Subtraction) (g s p b : ℕ)
      → ((m : ℕ) → f (some m) ≡ ok m)
      → s + p + b ≤ g
      → less_fees f g s p b ≡ ok (g - (s + p + b))
  unfolding less_fees
  less_fees_lem f g s p b total within =
      let first : checked_sub g s ≡ some (g - s) = grind (arith, checked_sub_lem) in
      let second : checked_sub (g - s) p ≡ some (g - s - p) = grind (arith, checked_sub_lem) in
      let third : checked_sub (g - s - p) b ≡ some (g - (s + p + b)) =
        grind (arith, checked_sub_lem) in
      rw first (rw (total (g - s)) (rw second (rw (total (g - s - p)) (rw third (total _)))))

  -- With valid pool fees, the three fees on an amount can be taken off it one after the other: the
  -- subtractions of `compute_swap` do not panic or fail, and what is left and the fees are the amount.
  pub less_fees_due :
      (fees : PoolFee) (g s p b : ℕ) (u : Unit {0})
      → pool_fee_is_valid fees ≡ ok u
      → compute fees.swap_fee g ≡ ok s
      → compute fees.protocol_fee g ≡ ok p
      → compute fees.burn_fee g ≡ ok b
      → (less_fees or_panic g s p b ≡ ok (g - (s + p + b)))
        × (less_fees checked g s p b ≡ ok (g - (s + p + b)))
        × (s + p + b ≤ g)
  less_fees_due fees g s p b u v es ep eb =
      let within : s + p + b ≤ g =
        shares_within decimal_one g fees.swap_fee.share fees.protocol_fee.share fees.burn_fee.share
          s p b (omega arith) (compute_lem fees.swap_fee g s es)
          (compute_lem fees.protocol_fee g p ep) (compute_lem fees.burn_fee g b eb)
          (pool_fee_is_valid_lem fees u v) in
      (
        less_fees_lem or_panic g s p b (λ m. refl) within,
        less_fees_lem checked g s p b (λ m. refl) within,
        within,
      )
