-- ===== src/Pair/Root.antt =====
-- What Newton's method of `calculate_stableswap_y` finds: the root of y * y + b * y = c + d * y.
use migaloo_core.Prelude.{
  ℕ, zero, suc, ◌+◌, ◌-◌, ◌*◌, ◌/◌, ◌≤◌, ◌<◌, ◌≡◌, ◌≢◌, ◌⊎◌, inl, inr, refl, ap, arith, true, leb,
  ◌==◌, Bool-cases, Result, ok, >>=-eq-ok, ok_or,
}
use migaloo_core.Cosmwasm.{
  Cosmwasm, StdError, checked_add, checked_mul, checked_div, multiply_ratio, checked_add_lem,
  checked_sub_lem, checked_mul_lem, checked_div_lem,
}
use migaloo_core.Pair.{ContractError, std, swap_overflow_error}
use migaloo_core.Pair.Curve.{
  StableSwapDirection, newton, are_close, y_step, to_u128, calculate_stableswap_y,
  calculate_stableswap_d, to_uint256_with_precision, new_pool_sum, newton_iterations, n_coins,
  checked,
}
use migaloo_core.Checked.{
  checked_add-ok, checked_mul-ok, checked_div-ok, multiply_ratio-ok, try_into-ok, quotient_bounds,
}

-- A value that Newton's method returns is one step from a value that is close to it.
newton_lem :
    (rounds : ℕ) (step : ℕ → Result ContractError ℕ) (p x y : ℕ)
    → newton rounds step (ok p) x ≡ ok y
    → (z : ℕ) × (step z ≡ ok y) × (are_close p z y ≡ true)
unfolding newton
newton_lem zero step p x y h = absurd (cc)
newton_lem (suc rounds) step p x y h =
    let (x', e, h1) = >>=-eq-ok (step x) _ h in
    elim (Bool-cases (are_close p x x')) [
      | inl close ↦ let same : x' ≡ y = ground arith in (x, rw (← same) e, rw (← same) close)
      | inr far ↦ newton_lem rounds step p x' y (ground arith)
    ]

-- The larger root of y * y + b * y = c + d * y, up to one unit of the equation from above and less
-- than one unit of y from below.
abbrev pub IsRoot : ℕ → ℕ → ℕ → ℕ → Type 0
IsRoot b c d y =
    (y * y + b * y ≤ c + d * y + 1) × (c + d * (y + 1) < (y + 1) * (y + 1) + b * (y + 1))

-- One step from a value at most one away.
below_root :
    (b c d z y k : ℕ)
    → k + d ≡ z + z + b
    → y * k ≤ z * z + c
    → (z ≡ y) ⊎ ((z ≡ y + 1) ⊎ (z + 1 ≡ y))
    → y * y + b * y ≤ c + d * y + 1
below_root b c d z y k e low (inl same) =
    let scaled = ap (λ (t : ℕ). y * t) e in
    let squares : z * z ≡ y * y = rw same in let mixed : y * z ≡ y * y = rw same in grind arith
below_root b c d z y k e low (inr (inl more)) =
    let scaled = ap (λ (t : ℕ). y * t) e in
    let squares : z * z ≡ y * y + y + y + 1 = rw more (grind arith) in
    let mixed : y * z ≡ y * y + y = rw more (grind arith) in grind arith
below_root b c d z y k e low (inr (inr less)) =
    let scaled = ap (λ (t : ℕ). y * t) e in
    let squares : y * y ≡ z * z + z + z + 1 = rw (← less) (grind arith) in
    let mixed : y * z ≡ z * z + z = rw (← less) (grind arith) in grind arith

square_gap : (z t e : ℕ) → z + e ≡ t → t * z + t * z ≤ t * t + z * z
square_gap z t e h =
    let squares : t * t ≡ z * z + z * e + z * e + e * e = rw (← h) (grind arith) in
    let mixed : t * z ≡ z * z + z * e = rw (← h) (grind arith) in omega arith

squares_dominate : (z t : ℕ) → t * z + t * z ≤ t * t + z * z
squares_dominate z t = elim (Bool-cases (leb z t)) [
  | inl le ↦ square_gap z t (t - z) (ground arith)
  | inr gt ↦
      let gap = square_gap t z (z - t) (ground arith) in
      let swapped : z * t ≡ t * z = grind arith in omega arith
]

above_root : (b c d z t k : ℕ) → k + d ≡ z + z + b → z * z + c < k * t → c + d * t < t * t + b * t
above_root b c d z t k e high =
    let scaled = ap (λ (n : ℕ). n * t) e in let dominated = squares_dominate z t in grind arith

-- The coefficients of the equation, from the steps that compute them.
combine :
    (b c d y y' s amp ann pools anns first part : ℕ)
    → y ≡ y'
    → ann ≡ amp * n_coins
    → pools ≡ s * n_coins
    → anns ≡ ann * n_coins
    → first ≡ d * d / pools
    → c ≡ first * d / anns
    → part ≡ d / ann
    → b ≡ s + part
    → IsRoot b c d y'
    → IsRoot (s + d / (amp * 2)) (d * d / (s * 2) * d / (amp * 2 * 2)) d y
combine b c d y y' s amp ann pools anns first part same ann_is pools_is anns_is first_is c_is
      part_is b_is root =
    let b_final : b ≡ s + d / (amp * 2) = rw b_is (rw part_is (rw ann_is refl)) in
    let c_final : c ≡ d * d / (s * 2) * d / (amp * 2 * 2) =
      rw c_is (rw first_is (rw pools_is (rw anns_is (rw ann_is refl)))) in
    rw (← b_final) (rw (← c_final) (rw same root))

close_cases : (z y : ℕ) → are_close 1 z y ≡ true → (z ≡ y) ⊎ ((z ≡ y + 1) ⊎ (z + 1 ≡ y))
close_cases z y h = elim (Bool-cases (leb z y)) [
  | inl le ↦ elim (Bool-cases (z == y)) [
    | inl same ↦ inl (ground arith)
    | inr differs ↦ inr (inr (ground arith))
  ]
  | inr gt ↦ inr (inl (ground arith))
]

module _ ⦃cw : Cosmwasm⦄ where
  y_step_lem :
      (b c d z y : ℕ)
      → y_step b c d z ≡ ok y
      → (k : ℕ) × (k + d ≡ z + z + b) × (k ≢ 0) × (y ≡ (z * z + c) / k)
  unfolding y_step
  y_step_lem b c d z y h = (
    z + z + b - d,
    grind (arith, checked_mul_lem, checked_add_lem, checked_sub_lem, checked_div_lem),
    grind (arith, checked_mul_lem, checked_add_lem, checked_sub_lem, checked_div_lem),
    grind (arith, checked_mul_lem, checked_add_lem, checked_sub_lem, checked_div_lem),
  )

  newton-IsRoot :
      (rounds b c d x y : ℕ) → newton rounds (y_step b c d) (ok 1) x ≡ ok y → IsRoot b c d y
  newton-IsRoot rounds b c d x y h =
      let (z, e, close) = newton_lem rounds (y_step b c d) 1 x y h in
      let (k, ek, some_k, ey) = y_step_lem b c d z y e in
      let (low, high) = quotient_bounds (z * z + c) k y some_k ey in
      (below_root b c d z y k ek low (close_cases z y close), above_root b c d z (y + 1) k ek high)

  -- A pool amount that `calculate_stableswap_y` returns is the larger root of the curve's equation
  -- y * y + b * y = c + d * y, where d is the invariant of the two pools, b the sum of the new pool
  -- and d / ann, and c the product of d, d / (2 * pool) and d / (2 * ann), rounded down: the left side
  -- exceeds the right by one at most, and at y + 1 the left side is larger.
  pub calculate_stableswap_y-IsRoot :
      (offer_pool ask_pool offer_amount amp precision : ℕ) (direction : StableSwapDirection) (y : ℕ)
      → calculate_stableswap_y offer_pool ask_pool offer_amount amp precision direction ≡ ok y
      → (decimal_d : ℕ) × (d : ℕ) × (decimal_sum : ℕ) × (pool_sum : ℕ) × (calculate_stableswap_d
            offer_pool ask_pool amp precision
          ≡ ok decimal_d)
        × (to_uint256_with_precision decimal_d precision ≡ ok d)
        × (new_pool_sum offer_pool ask_pool offer_amount direction ≡ ok decimal_sum)
        × (to_uint256_with_precision decimal_sum precision ≡ ok pool_sum)
        × IsRoot (pool_sum + d / (amp * 2)) (d * d / (pool_sum * 2) * d / (amp * 2 * 2)) d y
  unfolding calculate_stableswap_y to_u128
  calculate_stableswap_y-IsRoot o a x amp precision direction y h =
      let (ann, e1, h1) = >>=-eq-ok (checked (checked_mul 256 amp n_coins)) _ h in
      let (dd, e2, h2) = >>=-eq-ok (calculate_stableswap_d o a amp precision) _ h1 in
      let (d, e3, h3) = >>=-eq-ok (to_uint256_with_precision dd precision) _ h2 in
      let (ds, e4, h4) = >>=-eq-ok (new_pool_sum o a x direction) _ h3 in
      let (s, e5, h5) = >>=-eq-ok (to_uint256_with_precision ds precision) _ h4 in
      let (pools, e6, h6) = >>=-eq-ok (checked (checked_mul 256 s n_coins)) _ h5 in
      let (first, e7, h7) = >>=-eq-ok (checked (multiply_ratio 256 d d pools)) _ h6 in
      let (anns, e8, h8) = >>=-eq-ok (checked (checked_mul 256 ann n_coins)) _ h7 in
      let (c, e9, h9) = >>=-eq-ok (checked (multiply_ratio 256 first d anns)) _ h8 in
      let (part, e10, h10) =
        >>=-eq-ok (ok_or (checked_div d ann) (std StdError.divide_by_zero)) _ h9 in
      let (b, e11, h11) = >>=-eq-ok (checked (checked_add 256 s part)) _ h10 in
      let (y', e12, h12) = >>=-eq-ok (newton newton_iterations (y_step b c d) (ok 1) d) _ h11 in
      let overflow = std StdError.overflow in
      let (same, _) = try_into-ok swap_overflow_error 128 y' y h12 in
      let (ann_is, _) = checked_mul-ok overflow 256 amp n_coins ann e1 in
      let (pools_is, _) = checked_mul-ok overflow 256 s n_coins pools e6 in
      let (anns_is, _) = checked_mul-ok overflow 256 ann n_coins anns e8 in
      let (_, first_is) = multiply_ratio-ok overflow 256 d d pools first e7 in
      let (_, c_is) = multiply_ratio-ok overflow 256 first d anns c e9 in
      let (_, part_is) = checked_div-ok (std StdError.divide_by_zero) d ann part e10 in
      let (b_is, _) = checked_add-ok overflow 256 s part b e11 in
      (
        dd,
        d,
        ds,
        s,
        e2,
        e3,
        e4,
        e5,
        combine b c d y y' s amp ann pools anns first part same ann_is pools_is anns_is first_is
            c_is part_is b_is (newton-IsRoot newton_iterations b c d d y' e12),
      )
