-- ===== src/Uint.antt =====
-- What the contracts use of the `uint` package: the wide integers of `construct_uint`.
use migaloo_core.Prelude.{
  ℕ, zero, suc, ◌+◌, ◌*◌, ◌/◌, ◌≤◌, ◌<◌, ◌≡◌, leb, ◌==◌, if◌then◌else◌, arith, Bool-cases, inl, inr,
}

-- `integer_sqrt`, the largest number whose square is not above the argument.
pub record Uint : Type 0 where
  pub integer_sqrt : ℕ → ℕ
  pub integer_sqrt_below : (n : ℕ) → integer_sqrt n * integer_sqrt n ≤ n
  pub integer_sqrt_above : (n : ℕ) → n < (integer_sqrt n + 1) * (integer_sqrt n + 1)

module _ ⦃u : Uint⦄ where
  abbrev pub integer_sqrt : ℕ → ℕ
  integer_sqrt = u.integer_sqrt

  pub integer_sqrt_below : (n : ℕ) → u.integer_sqrt n * u.integer_sqrt n ≤ n
  integer_sqrt_below = u.integer_sqrt_below

  pub integer_sqrt_above : (n : ℕ) → n < (u.integer_sqrt n + 1) * (u.integer_sqrt n + 1)
  integer_sqrt_above = u.integer_sqrt_above

-- The next digit of a square root in base two.
digit : ℕ → ℕ → ℕ
digit r n = if leb ((2 * r + 1) * (2 * r + 1)) n then 2 * r + 1 else 2 * r

-- Square roots digit by digit; the argument is fuel enough.
root : ℕ → ℕ → ℕ
root zero n = 0
root (suc fuel) n = let rest = digit (root fuel (n / 4)) n in if n == 0 then 0 else rest

even_square : (r : ℕ) → (2 * r) * (2 * r) ≡ 4 * (r * r)
even_square r = grind arith

odd_square : (r : ℕ) → (2 * r + 1) * (2 * r + 1) ≡ 4 * (r * r) + 4 * r + 1
odd_square r = grind arith

next_square : (r : ℕ) → (2 * r + 1 + 1) * (2 * r + 1 + 1) ≡ 4 * ((r + 1) * (r + 1))
next_square r = grind arith

digit_bounds :
    (r n : ℕ)
    → r * r ≤ n / 4
    → n / 4 < (r + 1) * (r + 1)
    → (digit r n * digit r n ≤ n) × (n < (digit r n + 1) * (digit r n + 1))
unfolding digit
digit_bounds r n low high =
    let lower : 4 * (r * r) ≤ n = omega arith in
    let higher : n < 4 * ((r + 1) * (r + 1)) = omega arith in
    (
      ground (arith, even_square r, odd_square r, next_square r),
      ground (arith, even_square r, odd_square r, next_square r),
    )

root_bounds :
    (fuel n : ℕ)
    → n ≤ fuel
    → (root fuel n * root fuel n ≤ n) × (n < (root fuel n + 1) * (root fuel n + 1))
unfolding root
root_bounds zero n h = (omega arith, omega arith)
root_bounds (suc fuel) n h = elim (Bool-cases (n == 0)) [
  | inl none_left ↦ ground arith
  | inr some_left ↦
      let (low, high) = root_bounds fuel (n / 4) (ground arith) in
      ground (arith, digit_bounds (root fuel (n / 4)) n low high)
]

unfoldable pub square_root : ℕ → ℕ
unfolding root digit
square_root n = root n n

pub square_root_below : (n : ℕ) → square_root n * square_root n ≤ n
unfolding square_root
square_root_below n = (root_bounds n n (omega arith)).0

pub square_root_above : (n : ℕ) → n < (square_root n + 1) * (square_root n + 1)
unfolding square_root
square_root_above n = (root_bounds n n (omega arith)).1

-- An implementation, which shows that the laws can be met; tests run with it.
abbrev pub digitwise : Uint
digitwise = record {
  integer_sqrt = square_root;
  integer_sqrt_below = square_root_below;
  integer_sqrt_above = square_root_above;
}
