-- ===== src/FeeDistributor/Accounting.antt =====
-- The accounts of `claim` of fee_distributor/src/commands.rs: per asset, what is paid out and what
-- stays available in all epochs sum up to what was available.
use migaloo_core.Prelude.{
  ℕ, ◌+◌, ◌≡◌, refl, ap, ◌∙◌, false, some, List, [], ◌∷◌, map, ◌==◌, arith, All, find, is_empty,
  Result, ok, err, >>=-eq-ok, fail_if, ok_or, Bool-cases, inl, inr,
}
use migaloo_core.Cosmwasm.{Cosmwasm, Addr, MessageInfo, CosmosMsg, StdError, mul_floor}
use migaloo_core.Asset.{Asset, AssetInfo, equal, into_msg, aggregate_assets}
use migaloo_core.Asset.Sums.{amount_of, amount_of-aggregate_assets}
use migaloo_core.Storage.{Map, may_load, save, total}
use migaloo_core.Storage.Keys.{nat_key}
use migaloo_core.Storage.Entries.{
  IsSorted, Holds, save-IsSorted, total-save, may_load-save, Holds-save, Holds-may_load,
}
use migaloo_core.FeeDistributor.{Epoch, State, LairQueries, std, lift, nothing_to_claim}
use migaloo_core.FeeDistributor.Epochs.{query_claimable}
use migaloo_core.FeeDistributor.Claim.{
  take_reward, record_claimed, check_fee, pay_reward, Claiming, claim_fee, claim_fees, claim_epochs,
  claim,
}
use migaloo_core.FeeDistributor.Listing.{
  IsStored, IsBelow, IsListing, IsFiled, query_claimable-IsListing,
}
use migaloo_core.FeeDistributor.Rewards.{IsDistinct, take_reward-IsDistinct, amount_of-take_reward}

pub lift_ok {ℓ} : {A : Type ℓ} {m : Result StdError A} {a : A} → lift m ≡ ok a → m ≡ ok a
lift_ok {m = ok b} h = ground arith
lift_ok {m = err e} h = cc

-- An epoch lies under its id, and lists each available asset once.
abbrev pub IsWell : ℕ → Epoch → Type 0
IsWell k e = (e.id ≡ k) × IsDistinct e.available

-- What all epochs together have available of an asset.
abbrev pub available_of : AssetInfo → Epoch → ℕ
available_of j e = amount_of j e.available

module _ ⦃cw : Cosmwasm⦄ (j : AssetInfo) where
  -- The fees to pay out and what is available sum up to `n`, and the epoch at hand is as stored.
  abbrev IsBalanced : ℕ → Map ℕ Epoch → List Asset → Type 0
  IsBalanced n m fees =
      IsSorted m × Holds IsWell m × (amount_of j fees + total (available_of j) m ≡ n)

  pay_reward_lem :
      (e : Epoch) (i : AssetInfo) (reward : ℕ) (e' : Epoch)
      → IsDistinct e.available
      → check_fee e.available i ≡ ok tt
      → pay_reward e i reward ≡ ok e'
      → (e'.id ≡ e.id)
        × IsDistinct e'.available
        × (available_of j e' + amount_of j (record { info = i; amount = reward } ∷ [])
            ≡ available_of j e)
  unfolding check_fee pay_reward
  pay_reward_lem e i reward e' d c h =
      let (a, ea, _) =
        >>=-eq-ok (ok_or (find (λ a. equal a.info i) e.available) (std StdError.generic_err)) _ c in
      let (xs, ex, h1) = >>=-eq-ok (take_reward e.available i reward) _ h in
      let (cs, ec, h2) = >>=-eq-ok (record_claimed e.claimed i reward) _ h1 in
      let found : find (λ a. equal a.info i) e.available ≡ some a = ground arith in
      let same : xs ≡ e'.available = ground arith in
      (
        ground arith,
        rw (← same) (take_reward-IsDistinct e.available i reward xs d ex),
        rw (← same) (amount_of-take_reward j e.available i reward xs a d found ex),
      )

  -- One round keeps the balance, and touches no epoch but the one at hand.
  claim_fee_lem :
      (n share : ℕ) (fee : Asset) (m : Map ℕ Epoch) (e : Epoch) (fees : List Asset) (r : Claiming)
      → IsBalanced n m fees
      → IsStored m e
      → claim_fee share fee (m, e, fees) ≡ ok r
      → IsBalanced n r.0 r.2
        × IsStored r.0 r.1
        × (r.1.id ≡ e.id)
        × ((k : ℕ) → (e.id == k) ≡ false → may_load k r.0 ≡ may_load k m)
  unfolding claim_fee
  claim_fee_lem n share fee m e fees r b st h =
      let (reward, _, h1) =
        >>=-eq-ok (ok_or (mul_floor 128 fee.amount share) (std StdError.overflow)) _ h in
      elim (Bool-cases (reward == 0)) [
        | inl zero_reward ↦
            let same : (m, e, fees) ≡ r = ground arith in rw (← same) (b, st, refl, λ k ne. refl)
        | inr some_reward ↦
            let part : List Asset = record { info = fee.info; amount = reward } ∷ [] in
            let h2 = rw some_reward at h1 in
            let (_, ec, h3) = >>=-eq-ok (check_fee e.available fee.info) _ h2 in
            let (fees', ef, h4) = >>=-eq-ok (lift (aggregate_assets fees part)) _ h3 in
            let (e', ee, h5) = >>=-eq-ok (pay_reward e fee.info reward) _ h4 in
            let same : (save e'.id e' m, e', fees') ≡ r = ground arith in
            let summed = amount_of-aggregate_assets j fees part fees' (lift_ok ef) in
            let well = Holds-may_load IsWell e.id e m b.1 st in
            let (id, d, paid) = pay_reward_lem e fee.info reward e' well.1 ec ee in
            let loaded = λ (k : ℕ). may_load-save k e'.id e' m in
            let moved = total-save (available_of j) e'.id e' m b.0 in
            let before : may_load e'.id m ≡ some e = rw id st in
            rw (← same) (
              (
                save-IsSorted e'.id e' m b.0,
                Holds-save IsWell e'.id e' m (refl, d) b.1,
                ground (arith, summed, paid, moved, before, b.2),
              ),
              ground (arith, loaded e'.id, nat_key.eq_refl e'.id),
              id,
              λ k ne. ground (arith, loaded k, id),
            )
      ]

  claim_fees_lem :
      (n share : ℕ) (total_fees : List Asset) (m : Map ℕ Epoch) (e : Epoch) (fees : List Asset)
      (r : Claiming)
      → IsBalanced n m fees
      → IsStored m e
      → claim_fees share total_fees (m, e, fees) ≡ ok r
      → IsBalanced n r.0 r.2 × ((k : ℕ) → (e.id == k) ≡ false → may_load k r.0 ≡ may_load k m)
  unfolding claim_fees
  claim_fees_lem n share [] m e fees r b st h =
      let same : (m, e, fees) ≡ r = ground arith in rw (← same) (b, λ k ne. refl)
  claim_fees_lem n share (fee ∷ total_fees) m e fees r b st h =
      let (c, ec, h1) = >>=-eq-ok (claim_fee share fee (m, e, fees)) _ h in
      let (b', st', id, other) = claim_fee_lem n share fee m e fees c b st ec in
      let (b'', rest) = claim_fees_lem n share total_fees c.0 c.1 c.2 r b' st' h1 in
      (b'', λ k ne. rest k (rw id ne) ∙ other k ne)

  -- The epochs below the one at hand are still as the list has them.
  still-IsStored :
      (e : Epoch) (m m' : Map ℕ Epoch) (epochs : List Epoch)
      → ((k : ℕ) → (e.id == k) ≡ false → may_load k m' ≡ may_load k m)
      → All (IsBelow e.id) epochs
      → All (IsStored m) epochs
      → All (IsStored m') epochs
  still-IsStored e m m' [] same below st = tt
  still-IsStored e m m' (x ∷ epochs) same below st =
      let differs : (e.id == x.id) ≡ false = ground arith in
      (same x.id differs ∙ st.0, still-IsStored e m m' epochs same below.1 st.1)

  claim_epochs_lem :
      (n : ℕ) (q : LairQueries) (s : State) (a : Addr) (epochs : List Epoch) (m : Map ℕ Epoch)
      (fees : List Asset) (r : Map ℕ Epoch × List Asset)
      → IsBalanced n m fees
      → IsListing m epochs
      → claim_epochs q s a epochs (m, fees) ≡ ok r
      → IsBalanced n r.0 r.1
  unfolding claim_epochs
  claim_epochs_lem n q s a [] m fees r b l h =
      let same : (m, fees) ≡ r = ground arith in rw (← same) b
  claim_epochs_lem n q s a (e ∷ epochs) m fees r b l h =
      let (w, _, h1) =
        >>=-eq-ok (lift (q.weight s.config.bonding_contract_addr a e.start_time e.global_index)) _
          h in
      let (c, ec, h2) = >>=-eq-ok (claim_fees w.share e.total (m, e, fees)) _ h1 in
      let (b', other) = claim_fees_lem n w.share e.total m e fees c b l.0.0 ec in
      claim_epochs_lem n q s a epochs c.0 c.2 r b'
        (still-IsStored e m c.0 epochs other l.1.0 l.0.1, l.1.1) h2

well-IsFiled : (m : Map ℕ Epoch) → Holds IsWell m → Holds IsFiled m
well-IsFiled [] h = tt
well-IsFiled ((k, e) ∷ m) h = (h.0.0, well-IsFiled m h.1)

module _ ⦃cw : Cosmwasm⦄ where
  -- Where the epochs are in order, each under its id and with one available entry per asset, a
  -- successful `claim` pays the sender a list of fees, one message each, such that for every asset
  -- what is paid and what all epochs have available afterwards sum up to what all epochs had
  -- available before; the epochs are again in order, under their ids and with one entry per asset,
  -- and the configuration is unchanged.
  pub claim_conserves :
      (q : LairQueries) (s : State) (info : MessageInfo) (r : State × List CosmosMsg)
      → IsSorted s.epochs
      → Holds IsWell s.epochs
      → claim q s info ≡ ok r
      → (fees : List Asset) × (r.1 ≡ map (λ fee. into_msg fee info.sender) fees)
        × ((j : AssetInfo)
            → amount_of j fees + total (available_of j) r.0.epochs
              ≡ total (available_of j) s.epochs)
        × IsSorted r.0.epochs
        × Holds IsWell r.0.epochs
        × (r.0.config ≡ s.config)
  unfolding claim
  claim_conserves q s info r o w h =
      let (epochs, e0, h0) = >>=-eq-ok (lift (query_claimable q s info.sender)) _ h in
      let (_, _, h1) = >>=-eq-ok (fail_if (is_empty epochs) nothing_to_claim) _ h0 in
      let (c, ec, h2) = >>=-eq-ok (claim_epochs q s info.sender epochs (s.epochs, [])) _ h1 in
      let listed =
        query_claimable-IsListing q s info.sender epochs o (well-IsFiled s.epochs w) (lift_ok e0) in
      let final : c.0 ≡ r.0.epochs = ground arith in
      let balanced = λ (j : AssetInfo).
        claim_epochs_lem j (total (available_of j) s.epochs) q s info.sender epochs s.epochs [] c
          (o, w, ground arith) listed ec in
      let any_asset : AssetInfo = AssetInfo.token 0 in
      let (o', w', _) = balanced any_asset in
      (
        c.1,
        ground arith,
        λ j. ground (arith, (balanced j).2, ap (total (available_of j)) final),
        rw (← final) o',
        rw (← final) w',
        ground arith,
      )
