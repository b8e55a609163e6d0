-- ===== src/Checked.antt =====
-- What a checked call of the package gave, if it gave something.
use migaloo_core.Prelude.{
  ℕ, ◌+◌, ◌*◌, ◌/◌, ◌≤◌, ◌<◌, ◌^◌, ◌≡◌, ◌≢◌, arith, Option, none, some, ok, ok_or,
}
use migaloo_core.Cosmwasm.{
  Cosmwasm, decimal_one, checked_add, checked_sub, checked_mul, checked_div, multiply_ratio,
  mul_floor, from_ratio, try_into, checked_add_lem, checked_sub_lem, checked_mul_lem,
  checked_div_lem, multiply_ratio_lem, mul_floor_lem, from_ratio_lem, try_into_lem,
}

pub ok_or-eq-ok {ℓ κ} :
    {E : Type ℓ} {A : Type κ} (o : Option A) (e : E) (a : A) → ok_or o e ≡ ok a → o ≡ some a
ok_or-eq-ok none e a h = cc
ok_or-eq-ok (some b) e a h = ground arith

-- How far a quotient that is rounded down is from the exact one.
pub quotient_bounds : (n k q : ℕ) → k ≢ 0 → q ≡ n / k → (q * k ≤ n) × (n < k * (q + 1))
quotient_bounds n k q some_k e = grind arith

module _ {ℓ} {E : Type ℓ} ⦃cw : Cosmwasm⦄ (e : E) where
  pub checked_add-ok :
      (w a b n : ℕ) → ok_or (checked_add w a b) e ≡ ok n → (n ≡ a + b) × (n < 2 ^ w)
  checked_add-ok w a b n h =
      let found = ok_or-eq-ok (checked_add w a b) e n h in grind (arith, checked_add_lem)

  pub checked_sub-ok : (a b n : ℕ) → ok_or (checked_sub a b) e ≡ ok n → n + b ≡ a
  checked_sub-ok a b n h =
      let found = ok_or-eq-ok (checked_sub a b) e n h in grind (arith, checked_sub_lem)

  pub checked_mul-ok :
      (w a b n : ℕ) → ok_or (checked_mul w a b) e ≡ ok n → (n ≡ a * b) × (n < 2 ^ w)
  checked_mul-ok w a b n h =
      let found = ok_or-eq-ok (checked_mul w a b) e n h in grind (arith, checked_mul_lem)

  pub checked_div-ok : (a b n : ℕ) → ok_or (checked_div a b) e ≡ ok n → (b ≢ 0) × (n ≡ a / b)
  checked_div-ok a b n h =
      let found = ok_or-eq-ok (checked_div a b) e n h in grind (arith, checked_div_lem)

  pub multiply_ratio-ok :
      (w a n d m : ℕ) → ok_or (multiply_ratio w a n d) e ≡ ok m → (d ≢ 0) × (m ≡ a * n / d)
  multiply_ratio-ok w a n d m h =
      let found = ok_or-eq-ok (multiply_ratio w a n d) e m h in grind (arith, multiply_ratio_lem)

  pub mul_floor-ok : (w a d n : ℕ) → ok_or (mul_floor w a d) e ≡ ok n → n ≡ a * d / decimal_one
  mul_floor-ok w a d n h =
      let found = ok_or-eq-ok (mul_floor w a d) e n h in grind (arith, mul_floor_lem)

  pub from_ratio-ok :
      (w n d m : ℕ) → ok_or (from_ratio w n d) e ≡ ok m → (d ≢ 0) × (m ≡ n * decimal_one / d)
  from_ratio-ok w n d m h =
      let found = ok_or-eq-ok (from_ratio w n d) e m h in grind (arith, from_ratio_lem)

  pub try_into-ok : (w n m : ℕ) → ok_or (try_into w n) e ≡ ok m → (m ≡ n) × (n < 2 ^ w)
  try_into-ok w n m h = let found = ok_or-eq-ok (try_into w n) e m h in grind (arith, try_into_lem)
