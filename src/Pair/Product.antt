-- ===== src/Pair/Product.antt =====
-- Swaps in a constant product pool never lower the product, and no round trip gains.
use migaloo_core.Prelude.{
  ℕ, ◌+◌, ◌-◌, ◌*◌, ◌/◌, ◌≤◌, ◌<◌, ◌≡◌, ◌≢◌, refl, ap, arith, Option, none, some, ok, >>=-eq-ok,
}
use migaloo_core.Cosmwasm.{
  Cosmwasm, decimal_one, checked_add_lem, checked_sub_lem, checked_mul_lem, from_ratio_lem,
  checked_sub, mul_floor_lem, try_into_lem,
}
use migaloo_core.Fee.{compute}
use migaloo_core.Pair.{PoolFee, constant_product, lift}
use migaloo_core.Pair.Curve.{or_panic, to_u128}
use migaloo_core.Pair.Swap.{
  SwapComputation, gross_return, spread_of, Subtraction, less_fees, swap_computation, compute_swap,
}
use migaloo_core.Checked.{quotient_bounds}
use native.Mathlib.Nat.{div-mul-le_self, mul-le-mul_left, mul-le-mul_right, le_of_mul-le-mul_right}

-- Two roundings down of a quotient stay below it.
rounded_down : (e p n r g : ℕ) → 0 < e → r * n ≤ p * e → g * e ≤ r → g * n ≤ p
rounded_down e p n r g pos ratio part =
    let sold = mul-le-mul_right n part in
    let all_at_once : g * n * e ≤ p * e = grind arith in le_of_mul-le-mul_right all_at_once pos

-- Nor is it less than the exact quotient by one.
rounded_above :
    (p n r g : ℕ) → p * decimal_one < n * (r + 1) → r + 1 ≤ (g + 1) * decimal_one → p < n * (g + 1)
rounded_above p n r g ratio part =
    let scaled = mul-le-mul_left n part in
    let swapped : n * ((g + 1) * decimal_one) ≡ n * (g + 1) * decimal_one = grind arith in
    omega (arith, ratio, scaled, swapped)

or_panic_lem : (o : Option ℕ) (m : ℕ) → or_panic o ≡ ok m → o ≡ some m
or_panic_lem none m h = cc
or_panic_lem (some n) m h = ground arith

module _ ⦃cw : Cosmwasm⦄ where
  pub gross_return_lem :
      (o a x g : ℕ) → gross_return o a x ≡ ok g → (o + x ≢ 0) × (g * (o + x) ≤ a * x)
  unfolding gross_return
  gross_return_lem o a x g h =
      let value : g ≡ 1 * (a * x * decimal_one / (o + x)) / decimal_one =
        grind (arith, checked_mul_lem, checked_add_lem, from_ratio_lem, mul_floor_lem) in
      let some_pool : o + x ≢ 0 =
        grind (arith, checked_mul_lem, checked_add_lem, from_ratio_lem, mul_floor_lem) in
      let ratio = div-mul-le_self (a * x * decimal_one) (o + x) in
      let part = div-mul-le_self (1 * (a * x * decimal_one / (o + x))) decimal_one in
      (
        some_pool,
        rounded_down decimal_one (a * x) (o + x) (a * x * decimal_one / (o + x)) g (omega arith)
            ratio (omega (arith, value, part)),
      )

  pub gross_return_above : (o a x g : ℕ) → gross_return o a x ≡ ok g → a * x < (o + x) * (g + 1)
  unfolding gross_return
  gross_return_above o a x g h =
      let value : g ≡ 1 * (a * x * decimal_one / (o + x)) / decimal_one =
        grind (arith, checked_mul_lem, checked_add_lem, from_ratio_lem, mul_floor_lem) in
      let some_pool : o + x ≢ 0 =
        grind (arith, checked_mul_lem, checked_add_lem, from_ratio_lem, mul_floor_lem) in
      let (_, ratio) = quotient_bounds (a * x * decimal_one) (o + x) _ some_pool refl in
      rounded_above (a * x) (o + x) (a * x * decimal_one / (o + x)) g ratio (omega (arith, value))

  less_fees_lem :
      (f : Subtraction) (g s p b n : ℕ)
      → ((o : Option ℕ) (m : ℕ) → f o ≡ ok m → o ≡ some m)
      → less_fees f g s p b ≡ ok n
      → n + s + p + b ≡ g
  unfolding less_fees
  less_fees_lem f g s p b n faithful h =
      let (x, ex, h1) = >>=-eq-ok (f (checked_sub g s)) _ h in
      let (y, ey, h2) = >>=-eq-ok (f (checked_sub x p)) _ h1 in
      let first = faithful (checked_sub g s) x ex in
      let second = faithful (checked_sub x p) y ey in
      let third = faithful (checked_sub y b) n h2 in grind (arith, checked_sub_lem)

  to_u128_lem : (n m : ℕ) → to_u128 n ≡ ok m → m ≡ n
  unfolding to_u128
  to_u128_lem n m h = grind (arith, try_into_lem)

  -- The parts of a swap add up to what the offer is worth.
  swap_computation_lem :
      (f : Subtraction) (fees : PoolFee) (g sp : ℕ) (r : SwapComputation)
      → ((o : Option ℕ) (m : ℕ) → f o ≡ ok m → o ≡ some m)
      → swap_computation f fees g sp ≡ ok r
      → r.return_amount + r.swap_fee_amount + r.protocol_fee_amount + r.burn_fee_amount ≡ g
  unfolding swap_computation
  swap_computation_lem f fees g sp r faithful h =
      let (s, _, h3) = >>=-eq-ok (lift (compute fees.swap_fee g)) _ h in
      let (p, _, h4) = >>=-eq-ok (lift (compute fees.protocol_fee g)) _ h3 in
      let (b, _, h5) = >>=-eq-ok (lift (compute fees.burn_fee g)) _ h4 in
      let (n, en, h6) = >>=-eq-ok (less_fees f g s p b) _ h5 in
      let (n', en', h7) = >>=-eq-ok (to_u128 n) _ h6 in
      let (sp', _, h8) = >>=-eq-ok (to_u128 sp) _ h7 in
      let (s', es', h9) = >>=-eq-ok (to_u128 s) _ h8 in
      let (p', ep', h10) = >>=-eq-ok (to_u128 p) _ h9 in
      let (b', eb', h11) = >>=-eq-ok (to_u128 b) _ h10 in
      ground (
        arith,
        less_fees_lem f g s p b n faithful en,
        to_u128_lem n n' en',
        to_u128_lem s s' es',
        to_u128_lem p p' ep',
        to_u128_lem b b' eb',
      )

  -- In a constant product pool that is the gross return.
  pub compute_swap_lem :
      (o a x : ℕ) (fees : PoolFee) (i j : ℕ) (r : SwapComputation)
      → compute_swap o a x fees constant_product i j ≡ ok r
      → (g : ℕ) × (gross_return o a x ≡ ok g)
        × (r.return_amount + r.swap_fee_amount + r.protocol_fee_amount + r.burn_fee_amount ≡ g)
  unfolding compute_swap
  compute_swap_lem o a x fees i j r h =
      let (g, eg, h1) = >>=-eq-ok (gross_return o a x) _ h in
      let (sp, _, h2) = >>=-eq-ok (spread_of o a x g) _ h1 in
      (g, eg, swap_computation_lem or_panic fees g sp r or_panic_lem h2)

-- What leaves the pool with a swap: the return, the burn fee and the protocol fee, which is set
-- aside. The swap fee stays.
abbrev pub outflow : SwapComputation → ℕ
outflow r = r.return_amount + r.protocol_fee_amount + r.burn_fee_amount

below_pool : (o a x g : ℕ) → o + x ≢ 0 → g * (o + x) ≤ a * x → g ≤ a
below_pool o a x g some_pool h =
    let more = mul-le-mul_left a (x_le_sum o x) in
    let all_at_once : g * (o + x) ≤ a * (o + x) = grind arith in
    le_of_mul-le-mul_right all_at_once (omega arith)
  where
    x_le_sum : (o x : ℕ) → x ≤ o + x
    x_le_sum o x = omega arith

product_kept :
    (o a x g out q : ℕ) → g * (o + x) ≤ a * x → out ≤ g → q + out ≡ a → o * a ≤ (o + x) * q
product_kept o a x g out q h le sum =
    let less = mul-le-mul_left (o + x) le in
    let split : (o + x) * (q + out) ≡ (o + x) * a = ap (λ n. (o + x) * n) sum in grind arith

back_at_most :
    (o a x g out q y g' : ℕ)
    → g * (o + x) ≤ a * x
    → out ≤ g
    → y ≤ out
    → q + out ≡ a
    → q + y ≢ 0
    → g' * (q + y) ≤ (o + x) * y
    → g' ≤ x
back_at_most o a x g out q y g' h le low sum some_pool back =
    let less = mul-le-mul_left x le in
    let lower = mul-le-mul_left o low in
    let lowest = mul-le-mul_left o le in
    let split : x * (q + out) ≡ x * a = ap (λ n. x * n) sum in
    let all_at_once : g' * (q + y) ≤ x * (q + y) = grind arith in
    le_of_mul-le-mul_right all_at_once (omega arith)

module _ ⦃cw : Cosmwasm⦄ where
  -- A successful swap takes no more out of the ask pool than it holds, and the product of the two
  -- pools is afterwards at least what it was, after the burn and the protocol fees have left, too.
  pub compute_swap-product :
      (o a x : ℕ) (fees : PoolFee) (i j : ℕ) (r : SwapComputation)
      → compute_swap o a x fees constant_product i j ≡ ok r
      → (outflow r ≤ a) × (o * a ≤ (o + x) * (a - outflow r))
  compute_swap-product o a x fees i j r h =
      let (g, eg, sum) = compute_swap_lem o a x fees i j r h in
      let (some_pool, bound) = gross_return_lem o a x g eg in
      let below = below_pool o a x g some_pool bound in
      let low : outflow r ≤ g = omega arith in
      let rest : a - outflow r + outflow r ≡ a = omega arith in
      (omega arith, product_kept o a x g (outflow r) (a - outflow r) bound low rest)

  -- Swapping the return of a swap straight back gives at most the amount that was offered first,
  -- whatever the fees are.
  pub compute_swap_back :
      (o a x : ℕ) (fees fees' : PoolFee) (i j : ℕ) (r r' : SwapComputation)
      → compute_swap o a x fees constant_product i j ≡ ok r
      → compute_swap (a - outflow r) (o + x) r.return_amount fees' constant_product j i ≡ ok r'
      → r'.return_amount ≤ x
  compute_swap_back o a x fees fees' i j r r' h h' =
      let (g, eg, sum) = compute_swap_lem o a x fees i j r h in
      let (some_pool, bound) = gross_return_lem o a x g eg in
      let below = below_pool o a x g some_pool bound in
      let (g', eg', sum') =
        compute_swap_lem (a - outflow r) (o + x) r.return_amount fees' j i r' h' in
      let (some_back, bound') = gross_return_lem (a - outflow r) (o + x) r.return_amount g' eg' in
      let low : outflow r ≤ g = omega arith in
      let rest : a - outflow r + outflow r ≡ a = omega arith in
      let back =
        back_at_most o a x g (outflow r) (a - outflow r) r.return_amount g' bound low (omega arith)
          rest some_back bound' in
      omega (arith, back, sum')
