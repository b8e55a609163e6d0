-- ===== src/Storage/Keys.antt =====
-- Keys of the contracts' maps: numbers, and tuples of them in lexicographic order.
mod Single
mod Double
mod Triple
use migaloo_core.Prelude.{ℕ, ◌≡◌, Bool, true, false}

pub record Key (K : Type 0) : Type 0 where
  pub eq : K → K → Bool
  pub lt : K → K → Bool
  pub eq_refl : (a : K) → eq a a ≡ true
  pub eq_sound : (a b : K) → eq a b ≡ true → a ≡ b
  pub lt_irrefl : (a : K) → lt a a ≡ false
  pub lt_trans : (a b c : K) → lt a b ≡ true → lt b c ≡ true → lt a c ≡ true
  pub lt_total : (a b : K) → eq a b ≡ false → lt a b ≡ false → lt b a ≡ true

instance abbrev pub nat_key : Key ℕ
nat_key = record {
  eq = Single.eq;
  lt = Single.lt;
  eq_refl = Single.eq_refl;
  eq_sound = Single.eq_sound;
  lt_irrefl = Single.lt_irrefl;
  lt_trans = Single.lt_trans;
  lt_total = Single.lt_total;
}

instance abbrev pub pair_key : Key (ℕ × ℕ)
pair_key = record {
  eq = Double.eq;
  lt = Double.lt;
  eq_refl = Double.eq_refl;
  eq_sound = Double.eq_sound;
  lt_irrefl = Double.lt_irrefl;
  lt_trans = Double.lt_trans;
  lt_total = Double.lt_total;
}

instance abbrev pub triple_key : Key (ℕ × ℕ × ℕ)
triple_key = record {
  eq = Triple.eq;
  lt = Triple.lt;
  eq_refl = Triple.eq_refl;
  eq_sound = Triple.eq_sound;
  lt_irrefl = Triple.lt_irrefl;
  lt_trans = Triple.lt_trans;
  lt_total = Triple.lt_total;
}
