-- ===== src/Storage/Keys/Single.antt =====
-- A number as a key.
use migaloo_core.Prelude.{ℕ, ◌≡◌, Bool, true, false, ltb, ◌==◌, arith}

abbrev pub eq : ℕ → ℕ → Bool
eq a b = a == b

abbrev pub lt : ℕ → ℕ → Bool
lt a b = ltb a b

pub eq_refl : (a : ℕ) → eq a a ≡ true
eq_refl a = ground arith

pub eq_sound : (a b : ℕ) → eq a b ≡ true → a ≡ b
eq_sound a b h = ground arith

pub lt_irrefl : (a : ℕ) → lt a a ≡ false
lt_irrefl a = ground arith

pub lt_trans : (a b c : ℕ) → lt a b ≡ true → lt b c ≡ true → lt a c ≡ true
lt_trans a b c h k = ground arith

pub lt_total : (a b : ℕ) → eq a b ≡ false → lt a b ≡ false → lt b a ≡ true
lt_total a b h k = ground arith
