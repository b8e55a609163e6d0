-- ===== src/WhaleLair/Growth.antt =====
-- How weights grow: `get_weight` of whale_lair/src/state.rs.
use migaloo_core.Prelude.{ℕ, ◌+◌, ◌-◌, ◌*◌, ◌/◌, ◌≤◌, ◌≡◌, ◌≢◌, ap, ◌∙◌, arith, ok}
use migaloo_core.Cosmwasm.{
  Cosmwasm, decimal_one, checked_add_lem, checked_sub_lem, checked_mul_lem, mul_floor_lem,
  seconds_lem,
}
use migaloo_core.WhaleLair.Weights.{get_weight}

-- Growth in two steps is the growth in one, but for what the first step rounds off.
two_steps :
    (w first second both w1 w2 w3 : ℕ)
    → both ≡ first + second
    → w1 ≡ w + first / decimal_one
    → w2 ≡ w1 + second / decimal_one
    → w3 ≡ w + both / decimal_one
    → (w2 ≤ w3) × (w3 ≤ w2 + 1)
two_steps w first second both w1 w2 w3 sum is_1 is_2 is_3 = (omega arith, omega arith)

module _ ⦃cw : Cosmwasm⦄ where
  -- The seconds that have passed are not negative, and the weight has grown with them.
  get_weight_lem :
      (now weight amount growth_rate since w : ℕ)
      → since ≢ 0
      → get_weight now weight amount growth_rate since ≡ ok w
      → (since / 1000000000 ≤ now / 1000000000)
        × (w
            ≡ weight + amount * (now / 1000000000 - since / 1000000000) * growth_rate / decimal_one)
  unfolding get_weight
  get_weight_lem now weight amount growth_rate since w stamped h =
      grind (arith, checked_add_lem, checked_sub_lem, checked_mul_lem, mul_floor_lem, seconds_lem)

  -- It does not matter how often a weight is brought up to date: for a bond that has a timestamp,
  -- and where all of them succeed, two updates, the first at a time that is not zero, give what one update to the later time
  -- gives, or one less, for what the first one rounds off. The weight never falls, and updates that
  -- succeed do not go back in time by a second or more.
  pub get_weight_twice :
      (first second weight amount growth_rate since w1 w2 w : ℕ)
      → since ≢ 0
      → first ≢ 0
      → get_weight first weight amount growth_rate since ≡ ok w1
      → get_weight second w1 amount growth_rate first ≡ ok w2
      → get_weight second weight amount growth_rate since ≡ ok w
      → (since / 1000000000 ≤ first / 1000000000)
        × (first / 1000000000 ≤ second / 1000000000)
        × (weight ≤ w1)
        × (w1 ≤ w2)
        × (w2 ≤ w)
        × (w ≤ w2 + 1)
  get_weight_twice first second weight amount growth_rate since w1 w2 w stamped started h1 h2 h =
      let (ordered, is_1) = get_weight_lem first weight amount growth_rate since w1 stamped h1 in
      let (later, is_2) = get_weight_lem second w1 amount growth_rate first w2 started h2 in
      let (_, is_w) = get_weight_lem second weight amount growth_rate since w stamped h in
      let ages : second / 1000000000 - since / 1000000000
          ≡ first / 1000000000 - since / 1000000000 + (second / 1000000000 - first / 1000000000) =
        omega arith in
      let split : amount * (second / 1000000000 - since / 1000000000) * growth_rate
          ≡ amount * (first / 1000000000 - since / 1000000000) * growth_rate
            + amount * (second / 1000000000 - first / 1000000000) * growth_rate =
        ap (λ (n : ℕ). amount * n * growth_rate) ages ∙ grind arith in
      let (low, high) = two_steps weight _ _ _ w1 w2 w split is_1 is_2 is_w in
      (ordered, later, omega arith, omega arith, low, high)
