-- ===== src/FeeDistributor/Rewards.antt =====
-- Taking a reward from an epoch: the rounds of `claim` of fee_distributor/src/commands.rs. What is
-- added to the payout is what comes off the available fees.
use migaloo_core.Prelude.{
  ℕ, ◌+◌, ◌≡◌, true, false, some, List, [], ◌∷◌, arith, All, find, ok, >>=-eq-ok, Bool-cases, inl,
  inr,
}
use migaloo_core.Cosmwasm.{Cosmwasm, checked_sub_lem}
use migaloo_core.Asset.{Asset, AssetInfo, equal}
use migaloo_core.Asset.Sums.{amount_of, equal_trans}
use migaloo_core.Storage.Keys.{nat_key}
use migaloo_core.FeeDistributor.Claim.{take_from, take_reward}

-- No entry of the list is of the asset.
abbrev pub IsOther : AssetInfo → Asset → Type 0
IsOther i a = equal a.info i ≡ false

-- Every asset has one entry at most.
abbrev pub IsDistinct : List Asset → Type 0
IsDistinct [] = Unit
IsDistinct (a ∷ assets) = All (IsOther a.info) assets × IsDistinct assets

module _ ⦃cw : Cosmwasm⦄ where
  take_from_lem :
      (a : Asset) (i : AssetInfo) (reward : ℕ) (a' : Asset)
      → take_from a i reward ≡ ok a'
      → (a'.info ≡ a.info)
        × (equal a.info i ≡ true → a'.amount + reward ≡ a.amount)
        × (equal a.info i ≡ false → a' ≡ a)
  unfolding take_from
  take_from_lem a i reward a' h =
      (grind (arith, checked_sub_lem), λ e. grind (arith, checked_sub_lem), λ e. ground arith)

  -- Where the asset has no entry nothing is taken.
  take_reward_other :
      (xs : List Asset) (i : AssetInfo) (reward : ℕ) (ys : List Asset)
      → All (IsOther i) xs
      → take_reward xs i reward ≡ ok ys
      → ys ≡ xs
  unfolding take_reward
  take_reward_other [] i reward ys a h = ground arith
  take_reward_other (x ∷ xs) i reward ys a h =
      let (x', e, h1) = >>=-eq-ok (take_from x i reward) _ h in
      let (xs', e', h2) = >>=-eq-ok (take_reward xs i reward) _ h1 in
      ground (arith, take_from_lem x i reward x' e, take_reward_other xs i reward xs' a.1 e')

  take_reward-others :
      (j : AssetInfo) (xs : List Asset) (i : AssetInfo) (reward : ℕ) (ys : List Asset)
      → All (IsOther j) xs
      → take_reward xs i reward ≡ ok ys
      → All (IsOther j) ys
  unfolding take_reward
  take_reward-others j [] i reward ys a h = let same : [] ≡ ys = ground arith in rw (← same) tt
  take_reward-others j (x ∷ xs) i reward ys a h =
      let (x', e, h1) = >>=-eq-ok (take_from x i reward) _ h in
      let (xs', e', h2) = >>=-eq-ok (take_reward xs i reward) _ h1 in
      let same : x' ∷ xs' ≡ ys = ground arith in
      let (info, _, _) = take_from_lem x i reward x' e in
      rw (← same) (rw info a.0, take_reward-others j xs i reward xs' a.1 e')

  pub take_reward-IsDistinct :
      (xs : List Asset) (i : AssetInfo) (reward : ℕ) (ys : List Asset)
      → IsDistinct xs
      → take_reward xs i reward ≡ ok ys
      → IsDistinct ys
  unfolding take_reward
  take_reward-IsDistinct [] i reward ys d h = let same : [] ≡ ys = ground arith in rw (← same) tt
  take_reward-IsDistinct (x ∷ xs) i reward ys d h =
      let (x', e, h1) = >>=-eq-ok (take_from x i reward) _ h in
      let (xs', e', h2) = >>=-eq-ok (take_reward xs i reward) _ h1 in
      let same : x' ∷ xs' ≡ ys = ground arith in
      let (info, _, _) = take_from_lem x i reward x' e in
      rw (← same) (
        rw info (take_reward-others x.info xs i reward xs' d.0 e'),
        take_reward-IsDistinct xs i reward xs' d.1 e',
      )

  -- Entries that differ from an entry of the asset differ from the asset.
  others_of_match :
      (a i : AssetInfo) (xs : List Asset)
      → equal a i ≡ true
      → All (IsOther a) xs
      → All (IsOther i) xs
  others_of_match a i [] e h = tt
  others_of_match a i (x ∷ xs) e h = (ground arith, others_of_match a i xs e h.1)

  -- From distinct entries, one of them of the asset, just the reward is taken.
  pub amount_of-take_reward :
      (j : AssetInfo) (xs : List Asset) (i : AssetInfo) (reward : ℕ) (ys : List Asset) (a : Asset)
      → IsDistinct xs
      → find (λ x. equal x.info i) xs ≡ some a
      → take_reward xs i reward ≡ ok ys
      → amount_of j ys + amount_of j (record { info = i; amount = reward } ∷ []) ≡ amount_of j xs
  unfolding take_reward
  amount_of-take_reward j [] i reward ys a d f h = ground arith
  amount_of-take_reward j (x ∷ xs) i reward ys a d f h =
      let (x', e, h1) = >>=-eq-ok (take_from x i reward) _ h in
      let (xs', e', h2) = >>=-eq-ok (take_reward xs i reward) _ h1 in
      let same : x' ∷ xs' ≡ ys = ground arith in
      let (info, taken, kept) = take_from_lem x i reward x' e in
      elim (Bool-cases (equal x.info i)) [
        | inl match ↦
            let rest =
              take_reward_other xs i reward xs' (others_of_match x.info i xs match d.0) e' in
            rw (← same) (ground (arith, rest, info, taken match, equal_trans x.info i j match))
        | inr other ↦
            let rest = amount_of-take_reward j xs i reward xs' a d.1 (ground arith) e' in
            rw (← same) (ground (arith, rest, kept other))
      ]
