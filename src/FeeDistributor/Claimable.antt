-- ===== src/FeeDistributor/Claimable.antt =====
-- Which epochs an address can claim: `query_claimable` of fee_distributor/src/state.rs.
use migaloo_core.Prelude.{
  ℕ, zero, suc, ◌≤◌, ◌≡◌, refl, subst, sym, ◌∙◌, inl, inr, Bool-cases, Bool, true, false, not,
  Option, none, some, List, [], ◌∷◌, ◌++◌, ltb, ◌==◌, ◌&&◌, if◌then◌else◌, arith, take, retain,
  find, is_empty, All, All-take, ok, >>=-elim, ok-injective,
}
use migaloo_core.Cosmwasm.{Addr}
use migaloo_core.Storage.{Map, may_load}
use migaloo_core.Storage.Keys.{nat_key}
use migaloo_core.Storage.Entries.{IsSorted, Holds}
use migaloo_core.FeeDistributor.{Epoch, State, LairQueries}
use migaloo_core.WhaleLair.Queries.{BondedResponse}
use migaloo_core.FeeDistributor.Epochs.{
  descending, get_claimable_epochs, unclaimed_epochs, query_claimable,
}
use migaloo_core.FeeDistributor.Listing.{
  IsFiled, IsAbove, IsBelow, IsDescending, Above-descending, descending_sorted, IsDescending-take,
  IsDescending-retain,
}

abbrev pub has_id : ℕ → Epoch → Bool
has_id k e = e.id == k

-- How many epochs have a larger id.
newer_of : ℕ → List Epoch → ℕ
newer_of k [] = 0
newer_of k (e ∷ epochs) = let rest = newer_of k epochs in if ltb k e.id then suc rest else rest

abbrev pub newer : ℕ → Map ℕ Epoch → ℕ
newer k [] = 0
newer k ((j, e) ∷ m) = let rest = newer k m in if ltb k j then suc rest else rest

abbrev pub filter : (Epoch → Bool) → Option Epoch → Option Epoch
filter p none = none
filter p (some e) = if p e then some e else none

find-Above : (k : ℕ) (epochs : List Epoch) → All (IsAbove k) epochs → find (has_id k) epochs ≡ none
find-Above k [] a = refl
find-Above k (e ∷ epochs) a = ground (arith, find-Above k epochs a.1)

find-Below :
    (k j : ℕ) (epochs : List Epoch) → All (IsBelow j) epochs → j ≤ k → find (has_id k) epochs ≡ none
find-Below k j [] a h = refl
find-Below k j (e ∷ epochs) a h = ground (arith, find-Below k j epochs a.1 h)

newer_of-Below :
    (k j : ℕ) (epochs : List Epoch) → All (IsBelow j) epochs → j ≤ k → newer_of k epochs ≡ 0
unfolding newer_of
newer_of-Below k j [] a h = refl
newer_of-Below k j (e ∷ epochs) a h = ground (arith, newer_of-Below k j epochs a.1 h)

-- Ids differ, so a list that is filtered has an epoch just where the epoch passes the filter.
find-retain :
    (p : Epoch → Bool) (k : ℕ) (epochs : List Epoch)
    → IsDescending epochs
    → find (has_id k) (retain p epochs) ≡ filter p (find (has_id k) epochs)
find-retain p k [] d = refl
find-retain p k (e ∷ epochs) d =
    let rest = find-retain p k epochs d.1 in
    let below = find-Below k e.id epochs d.0 in ground (arith, rest, below)

find-after :
    (start k : ℕ) (epochs : List Epoch)
    → IsDescending epochs
    → find (has_id k) (retain (λ e. ltb start e.id) epochs)
      ≡ (if ltb start k then find (has_id k) epochs else none)
find-after start k [] d = ground arith
find-after start k (e ∷ epochs) d =
    ground (arith, find-after start k epochs d.1, find-Below k e.id epochs d.0)

-- The first `n` are those with fewer than `n` newer ones.
find-take :
    (n k : ℕ) (epochs : List Epoch)
    → IsDescending epochs
    → find (has_id k) (take n epochs)
      ≡ (if ltb (newer_of k epochs) n then find (has_id k) epochs else none)
unfolding newer_of
find-take zero k epochs d = ground arith
find-take (suc n) k [] d = ground arith
find-take (suc n) k (e ∷ epochs) d =
    let rest = find-take n k epochs d.1 in
    let gone = find-Below k e.id epochs d.0 in
    let oldest = newer_of-Below k e.id epochs d.0 in
    let cut = find-Below k e.id (take n epochs) (All-take (IsBelow e.id) n epochs d.0) in
    ground (arith, rest, gone, oldest, cut)

find-append :
    (k : ℕ) (epochs others : List Epoch)
    → find (has_id k) epochs ≡ none
    → find (has_id k) (epochs ++ others) ≡ find (has_id k) others
find-append k [] others h = refl
find-append k (e ∷ epochs) others h = ground (arith, find-append k epochs others)

find-snoc :
    (k : ℕ) (epochs : List Epoch) (e : Epoch)
    → (e.id == k) ≡ false
    → find (has_id k) (epochs ++ e ∷ []) ≡ find (has_id k) epochs
find-snoc k [] e h = ground arith
find-snoc k (x ∷ epochs) e h = ground (arith, find-snoc k epochs e h)

newer_of-snoc :
    (k : ℕ) (epochs : List Epoch) (e : Epoch)
    → newer_of k (epochs ++ e ∷ [])
      ≡ (if ltb k e.id then suc (newer_of k epochs) else newer_of k epochs)
unfolding newer_of
newer_of-snoc k [] e = ground arith
newer_of-snoc k (x ∷ epochs) e = ground (arith, newer_of-snoc k epochs e)

find-descending :
    (k : ℕ) (m : Map ℕ Epoch)
    → IsSorted m
    → Holds IsFiled m
    → find (has_id k) (descending m) ≡ may_load k m
unfolding descending may_load
find-descending k [] s f = refl
find-descending k ((j, e) ∷ m) s f =
    let rest = find-descending k m s.1 f.1 in
    let above = Above-descending j m s.0 f.1 in
    elim (Bool-cases (j == k)) [
      | inl same ↦
          let here : e.id ≡ k = ground arith in
          let gone =
            find-Above k (descending m)
              (subst (λ i. All (IsAbove i) (descending m)) (sym f.0 ∙ here) above) in
          rw (find-append k (descending m) (e ∷ []) gone) (ground arith)
      | inr other ↦ rw (find-snoc k (descending m) e (ground arith)) (ground (arith, rest))
    ]

newer_of-descending :
    (k : ℕ) (m : Map ℕ Epoch) → Holds IsFiled m → newer_of k (descending m) ≡ newer k m
unfolding descending newer_of
newer_of-descending k [] f = refl
newer_of-descending k ((j, e) ∷ m) f =
    rw (newer_of-snoc k (descending m) e) (ground (arith, newer_of-descending k m f.1))

-- The id after which an address can claim: that of the last claimed epoch, or else that of the
-- first bonded one; none where it has neither claimed nor bonded.
pub data IsStart (q : LairQueries) (s : State) (a : Addr) : Option ℕ → Type 0 where
  last_claimed :
      (last : ℕ) → may_load a s.last_claimed_epoch ≡ some last → IsStart q s a (some last)
  first_bonded :
      (b : BondedResponse)
      → may_load a s.last_claimed_epoch ≡ none
      → q.bonded s.config.bonding_contract_addr a ≡ ok b
      → is_empty b.bonded_assets ≡ false
      → IsStart q s a (some b.first_bonded_epoch_id)
  never_bonded :
      (b : BondedResponse)
      → may_load a s.last_claimed_epoch ≡ none
      → q.bonded s.config.bonding_contract_addr a ≡ ok b
      → is_empty b.bonded_assets ≡ true
      → IsStart q s a none

abbrev pub is_after : Option ℕ → ℕ → Bool
is_after none k = false
is_after (some start) k = ltb start k

-- The epoch under an id, if it can be claimed: it is stored, fewer epochs than the grace period are
-- newer, it is after the start, and something of it is available.
abbrev pub claimable_at : Map ℕ Epoch → ℕ → Option ℕ → ℕ → Option Epoch
claimable_at m grace_period start k =
    if ltb (newer k m) grace_period && is_after start k
    then filter (λ e. not (is_empty e.available)) (may_load k m)
    else none

unclaimed_lem :
    (q : LairQueries) (s : State) (a : Addr) (o : Option ℕ) (epochs r : List Epoch)
    → may_load a s.last_claimed_epoch ≡ o
    → IsDescending epochs
    → unclaimed_epochs q s a o epochs ≡ ok r
    → (start : Option ℕ) × IsStart q s a start
      × IsDescending r
      × ((k : ℕ) → find (has_id k) r ≡ (if is_after start k then find (has_id k) epochs else none))
unfolding unclaimed_epochs
unclaimed_lem q s a (some last) epochs r claimed d h =
    let same : retain (λ e. ltb last e.id) epochs ≡ r = ok-injective h in
    (
      some last,
      last_claimed last claimed,
      rw (← same) (IsDescending-retain (λ e. ltb last e.id) epochs d),
      λ k. rw (← same) (find-after last k epochs d),
    )
unclaimed_lem q s a none epochs r claimed d h =
    >>=-elim (q.bonded s.config.bonding_contract_addr a) h λ b eb rest.
      elim (Bool-cases (is_empty b.bonded_assets)) [
        | inl never ↦
            let same : [] ≡ r = ok-injective (rw never at rest) in
            (none, never_bonded b claimed eb never, rw (← same) tt, λ k. rw (← same) refl)
        | inr before ↦
            let later : List Epoch = retain (λ e. ltb b.first_bonded_epoch_id e.id) epochs in
            let same : later ≡ r = ok-injective (rw before at rest) in
            (
              some b.first_bonded_epoch_id,
              first_bonded b claimed eb before,
              rw (← same) (IsDescending-retain (λ e. ltb b.first_bonded_epoch_id e.id) epochs d),
              λ k. rw (← same) (find-after b.first_bonded_epoch_id k epochs d),
            )
      ]

-- `query_claimable` gives exactly the epochs that the address can claim, newest first: where the
-- epochs are stored in order, each under its id, there is an id after which the address can claim,
-- that of the epoch it claimed last, or else that of the first one it bonded in, or none where it has
-- bonded nothing, and the list has the epoch of an id if it is stored, fewer epochs than the grace
-- period are newer, its id is after that start and something of it is still available, and no other.
pub query_claimable-claimable_at :
    (q : LairQueries) (s : State) (a : Addr) (r : List Epoch)
    → IsSorted s.epochs
    → Holds IsFiled s.epochs
    → query_claimable q s a ≡ ok r
    → (start : Option ℕ) × IsStart q s a start
      × IsDescending r
      × ((k : ℕ) → find (has_id k) r ≡ claimable_at s.epochs s.config.grace_period start k)
unfolding query_claimable get_claimable_epochs
query_claimable-claimable_at q s a r o f h =
    let newest = descending s.epochs in
    let sorted = descending_sorted s.epochs o f in
    let claimable = IsDescending-take s.config.grace_period newest sorted in
    >>=-elim (unclaimed_epochs q s a (may_load a s.last_claimed_epoch) (get_claimable_epochs s)) h
      λ epochs e rest.
        let (start, is_start, d, found) =
          unclaimed_lem q s a (may_load a s.last_claimed_epoch) (get_claimable_epochs s) epochs refl
            claimable e in
        let same : retain (λ e. not (is_empty e.available)) epochs ≡ r = ok-injective rest in
        (
          start,
          is_start,
          rw (← same) (IsDescending-retain (λ e. not (is_empty e.available)) epochs d),
          λ k. rw (← same) (
              rw (find-retain (λ e. not (is_empty e.available)) k epochs d) (
                rw (found k) (
                  rw (find-take s.config.grace_period k newest sorted) (
                    rw (find-descending k s.epochs o f)
                      (rw (newer_of-descending k s.epochs f) (ground arith)))))),
        )
