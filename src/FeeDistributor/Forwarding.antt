-- ===== src/FeeDistributor/Forwarding.antt =====
-- The accounts of `reply` of fee_distributor/src/contract.rs: the fees that nobody claimed move on.
use migaloo_core.Prelude.{
  ℕ, ◌+◌, ◌≡◌, ◌≢◌, refl, sym, ap, ◌∙◌, false, Option, none, some, List, [], ◌∷◌, ◌==◌, not,
  if◌then◌else◌, arith, ok, ◌≤◌, length, subst, Bool-cases, >>=-eq-ok, fail_if, inl, inr, All,
}
use migaloo_core.Cosmwasm.{Cosmwasm}
use migaloo_core.Asset.{AssetInfo, aggregate_assets}
use migaloo_core.Asset.Sums.{amount_of, amount_of-aggregate_assets}
use migaloo_core.Storage.{Map, may_load, save, total}
use migaloo_core.Storage.Keys.{nat_key}
use migaloo_core.Storage.Entries.{IsSorted, Holds, save-IsSorted, total-save, may_load-save}
use migaloo_core.FeeDistributor.{Epoch, default_epoch, State, LairQueries, lift, unknown_reply_id}
use migaloo_core.FeeDistributor.Epochs.{get_expiring_epoch, get_claimable_epochs, last_or}
use migaloo_core.FeeDistributor.Creation.{forward_expiring, reply, epoch_creation_reply_id}
use migaloo_core.FeeDistributor.Listing.{IsStored, IsFiled, get_claimable_epochs-IsListing}
use migaloo_core.FeeDistributor.Accounting.{available_of, lift_ok}

none-some {ℓ} : {A : Type ℓ} {a : A} → none ≢ some a
none-some h = cc

-- The last epoch of a list that is not empty is one of its epochs.
last-IsStored :
    (m : Map ℕ Epoch) (d e : Epoch) (epochs : List Epoch)
    → All (IsStored m) (e ∷ epochs)
    → IsStored m (last_or d (e ∷ epochs))
last-IsStored m d e [] h = h.0
last-IsStored m d e (x ∷ epochs) h = last-IsStored m e x epochs h.1

last_of_full :
    (m : Map ℕ Epoch) (n : ℕ) (epochs : List Epoch) (e : Epoch)
    → 1 ≤ n
    → All (IsStored m) epochs
    → (if length epochs == n then some (last_or default_epoch epochs) else none) ≡ some e
    → IsStored m e
last_of_full m n [] e g st h = ground arith
last_of_full m n (x ∷ epochs) e g st h =
    let last : last_or default_epoch (x ∷ epochs) ≡ e = ground arith in
    rw (← last) (last-IsStored m default_epoch x epochs st)

-- An id that is not there differs from one that is.
fresh_differs :
    (e : Epoch) (k : ℕ) (m : Map ℕ Epoch) → IsStored m e → may_load k m ≡ none → (e.id == k) ≡ false
fresh_differs e k m st fresh = elim (Bool-cases (e.id == k)) [
  | inl same ↦
      let found : may_load k m ≡ some e =
        subst (λ i. may_load i m ≡ some e) (nat_key.eq_sound e.id k same) st in
      absurd (none-some (sym fresh ∙ found))
  | inr differs ↦ differs
]

expiring-IsStored :
    (s : State) (e : Epoch)
    → 1 ≤ s.config.grace_period
    → IsSorted s.epochs
    → Holds IsFiled s.epochs
    → get_expiring_epoch s ≡ some e
    → IsStored s.epochs e
unfolding get_expiring_epoch
expiring-IsStored s e g o f h =
    last_of_full s.epochs s.config.grace_period (get_claimable_epochs s) e g
      (get_claimable_epochs-IsListing s o f).0 h

module _ ⦃cw : Cosmwasm⦄ where
  forward_expiring_lem :
      (j : AssetInfo) (m : Map ℕ Epoch) (expiring : Option Epoch) (new : Epoch) (m' : Map ℕ Epoch)
      → IsSorted m
      → ((e : Epoch) → expiring ≡ some e → IsStored m e)
      → may_load new.id m ≡ none
      → new.available ≡ new.total
      → forward_expiring m expiring new ≡ ok m'
      → IsSorted m'
        × (total (available_of j) m' ≡ total (available_of j) m + amount_of j new.available)
  unfolding forward_expiring
  forward_expiring_lem j m none new m' o st fresh eq h =
      let same : save new.id new m ≡ m' = ground arith in
      let moved = total-save (available_of j) new.id new m o in
      rw (← same) (save-IsSorted new.id new m o, ground (arith, moved, fresh))
  forward_expiring_lem j m (some e) new m' o st fresh eq h =
      let (fees, ef, h1) = >>=-eq-ok (lift (aggregate_assets new.total e.available)) _ h in
      let emptied : Epoch = record e { available = [] } in
      let filled : Epoch = record new { total = fees; available = fees } in
      let same : save new.id filled (save e.id emptied m) ≡ m' = ground arith in
      let sorted = save-IsSorted e.id emptied m o in
      let stored = st e refl in
      let first = total-save (available_of j) e.id emptied m o in
      let second = total-save (available_of j) new.id filled (save e.id emptied m) sorted in
      let loaded = may_load-save new.id e.id emptied m in
      let summed = amount_of-aggregate_assets j new.total e.available fees (lift_ok ef) in
      let differs : (e.id == new.id) ≡ false = fresh_differs e new.id m stored fresh in
      rw (← same) (
        save-IsSorted new.id filled (save e.id emptied m) sorted,
        ground (arith, first, second, loaded, summed, stored, fresh, differs, ap (amount_of j) eq),
      )

  -- Where the epochs are in order, each under its id, and the grace period is not zero, the reply
  -- of the fee collector with a new epoch, under a fresh id and with all its fees available, adds
  -- just those fees: for every asset, the available fees of all epochs grow by what the epoch
  -- brings, although the fees of the expiring epoch move into the new one.
  pub reply_conserves :
      (q : LairQueries) (s : State) (id : ℕ) (new : Epoch) (s' : State)
      → 1 ≤ s.config.grace_period
      → IsSorted s.epochs
      → Holds IsFiled s.epochs
      → may_load new.id s.epochs ≡ none
      → new.available ≡ new.total
      → reply q s id (some new) ≡ ok s'
      → IsSorted s'.epochs
        × ((j : AssetInfo)
            → total (available_of j) s'.epochs
              ≡ total (available_of j) s.epochs + amount_of j new.available)
        × (s'.config ≡ s.config)
        × (s'.last_claimed_epoch ≡ s.last_claimed_epoch)
  unfolding reply
  reply_conserves q s id new s' g o f fresh eq h =
      let (_, _, h1) =
        >>=-eq-ok (fail_if (not (id == epoch_creation_reply_id)) unknown_reply_id) _ h in
      let (index, _, h2) = >>=-eq-ok (lift (q.global_index s.config.bonding_contract_addr)) _ h1 in
      let indexed : Epoch = record new { global_index = index } in
      let (m, em, h3) = >>=-eq-ok (forward_expiring s.epochs (get_expiring_epoch s) indexed) _ h2 in
      let final : m ≡ s'.epochs = ground arith in
      let moved = λ (j : AssetInfo).
        forward_expiring_lem j s.epochs (get_expiring_epoch s) indexed m o
          (λ e x. expiring-IsStored s e g o f x) fresh eq em in
      (
        rw (← final) (moved (AssetInfo.token 0)).0,
        λ j. rw (← final) (moved j).1,
        ground arith,
        ground arith,
      )
