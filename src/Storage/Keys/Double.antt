-- ===== src/Storage/Keys/Double.antt =====
-- A pair of numbers as a key, in lexicographic order.
use migaloo_core.Prelude.{ℕ, ◌≡◌, Bool, true, false, ◌&&◌, ◌||◌, ltb, ◌==◌, arith}

abbrev pub eq : ℕ × ℕ → ℕ × ℕ → Bool
eq a b = a.0 == b.0 && a.1 == b.1

abbrev pub lt : ℕ × ℕ → ℕ × ℕ → Bool
lt a b = ltb a.0 b.0 || (a.0 == b.0 && ltb a.1 b.1)

pub eq_refl : (a : ℕ × ℕ) → eq a a ≡ true
eq_refl a = ground arith

pub eq_sound : (a b : ℕ × ℕ) → eq a b ≡ true → a ≡ b
eq_sound a b h = ground arith

pub lt_irrefl : (a : ℕ × ℕ) → lt a a ≡ false
lt_irrefl a = ground arith

pub lt_trans : (a b c : ℕ × ℕ) → lt a b ≡ true → lt b c ≡ true → lt a c ≡ true
lt_trans a b c h k = ground arith

pub lt_total : (a b : ℕ × ℕ) → eq a b ≡ false → lt a b ≡ false → lt b a ≡ true
lt_total a b h k = ground arith
