-- ===== src/FeeDistributor/Listing.antt =====
-- The lists of epochs that the queries give: newest first, each as it is stored.
use migaloo_core.Prelude.{
  ℕ, zero, suc, ◌<◌, ◌≡◌, sym, subst, inl, inr, Bool-cases, Bool, not, Option, none, some, List, [],
  ◌∷◌, ◌++◌, ltb, arith, take, retain, is_empty, All, All-append, All-take, All-retain, ok,
  >>=-eq-ok,
}
use migaloo_core.Cosmwasm.{Addr}
use migaloo_core.Storage.{Map, may_load}
use migaloo_core.Storage.Keys.{nat_key}
use migaloo_core.Storage.Entries.{Above, IsSorted, Holds}
use migaloo_core.FeeDistributor.{Epoch, State, LairQueries}
use migaloo_core.FeeDistributor.Epochs.{
  descending, get_claimable_epochs, unclaimed_epochs, query_claimable,
}

-- An epoch is stored under its id.
abbrev pub IsFiled : ℕ → Epoch → Type 0
IsFiled k e = e.id ≡ k

abbrev pub IsStored : Map ℕ Epoch → Epoch → Type 0
IsStored m e = may_load e.id m ≡ some e

abbrev pub IsAbove : ℕ → Epoch → Type 0
IsAbove k e = k < e.id

abbrev pub IsBelow : ℕ → Epoch → Type 0
IsBelow k e = e.id < k

-- Newest first.
abbrev pub IsDescending : List Epoch → Type 0
IsDescending [] = Unit
IsDescending (e ∷ epochs) = All (IsBelow e.id) epochs × IsDescending epochs

pub Above-descending :
    (k : ℕ) (m : Map ℕ Epoch) → Above k m → Holds IsFiled m → All (IsAbove k) (descending m)
unfolding descending
Above-descending k [] a f = tt
Above-descending k ((j, e) ∷ m) a f =
    All-append (IsAbove k) (descending m) (e ∷ []) (Above-descending k m a.1 f.1) (ground arith, tt)

IsStored-below :
    (j : ℕ) (e : Epoch) (m : Map ℕ Epoch) (epochs : List Epoch)
    → All (IsAbove j) epochs
    → All (IsStored m) epochs
    → All (IsStored ((j, e) ∷ m)) epochs
unfolding may_load
IsStored-below j e m [] a h = tt
IsStored-below j e m (x ∷ epochs) a h = (ground arith, IsStored-below j e m epochs a.1 h.1)

descending-IsStored :
    (m : Map ℕ Epoch) → IsSorted m → Holds IsFiled m → All (IsStored m) (descending m)
unfolding descending may_load
descending-IsStored [] s f = tt
descending-IsStored ((j, e) ∷ m) s f =
    All-append (IsStored ((j, e) ∷ m)) (descending m) (e ∷ [])
      (IsStored-below j e m (descending m) (Above-descending j m s.0 f.1)
        (descending-IsStored m s.1 f.1))
      (ground arith, tt)

IsDescending-snoc :
    (epochs : List Epoch) (e : Epoch)
    → IsDescending epochs
    → All (IsAbove e.id) epochs
    → IsDescending (epochs ++ e ∷ [])
IsDescending-snoc [] e d a = (tt, tt)
IsDescending-snoc (x ∷ epochs) e d a =
    (All-append (IsBelow x.id) epochs (e ∷ []) d.0 (a.0, tt), IsDescending-snoc epochs e d.1 a.1)

pub descending_sorted :
    (m : Map ℕ Epoch) → IsSorted m → Holds IsFiled m → IsDescending (descending m)
unfolding descending
descending_sorted [] s f = tt
descending_sorted ((j, e) ∷ m) s f =
    IsDescending-snoc (descending m) e (descending_sorted m s.1 f.1)
      (Above-descending e.id m (subst (λ k. Above k m) (sym f.0) s.0) f.1)

pub IsDescending-take :
    (n : ℕ) (epochs : List Epoch) → IsDescending epochs → IsDescending (take n epochs)
IsDescending-take zero epochs d = tt
IsDescending-take (suc n) [] d = tt
IsDescending-take (suc n) (e ∷ epochs) d =
    (All-take (IsBelow e.id) n epochs d.0, IsDescending-take n epochs d.1)

pub IsDescending-retain :
    (p : Epoch → Bool) (epochs : List Epoch) → IsDescending epochs → IsDescending (retain p epochs)
IsDescending-retain p [] d = tt
IsDescending-retain p (e ∷ epochs) d =
    ground (arith, All-retain (IsBelow e.id) p epochs d.0, IsDescending-retain p epochs d.1)

-- The list of the epochs within the grace period is newest first, each as stored.
abbrev pub IsListing : Map ℕ Epoch → List Epoch → Type 0
IsListing m epochs = All (IsStored m) epochs × IsDescending epochs

pub get_claimable_epochs-IsListing :
    (s : State)
    → IsSorted s.epochs
    → Holds IsFiled s.epochs
    → IsListing s.epochs (get_claimable_epochs s)
unfolding get_claimable_epochs
get_claimable_epochs-IsListing s o f = (
  All-take (IsStored s.epochs) s.config.grace_period (descending s.epochs)
      (descending-IsStored s.epochs o f),
  IsDescending-take s.config.grace_period (descending s.epochs) (descending_sorted s.epochs o f),
)

retain-IsListing :
    (p : Epoch → Bool) (m : Map ℕ Epoch) (epochs : List Epoch)
    → IsListing m epochs
    → IsListing m (retain p epochs)
retain-IsListing p m epochs l =
    (All-retain (IsStored m) p epochs l.0, IsDescending-retain p epochs l.1)

unclaimed-IsListing :
    (q : LairQueries) (s : State) (a : Addr) (o : Option ℕ) (m : Map ℕ Epoch)
    (epochs r : List Epoch)
    → IsListing m epochs
    → unclaimed_epochs q s a o epochs ≡ ok r
    → IsListing m r
unfolding unclaimed_epochs
unclaimed-IsListing q s a (some last) m epochs r l h =
    let same : retain (λ e. ltb last e.id) epochs ≡ r = ground arith in
    rw (← same) (retain-IsListing (λ e. ltb last e.id) m epochs l)
unclaimed-IsListing q s a none m epochs r l h =
    let (b, _, k) = >>=-eq-ok (q.bonded s.config.bonding_contract_addr a) _ h in
    let later : List Epoch = retain (λ e. ltb b.first_bonded_epoch_id e.id) epochs in
    elim (Bool-cases (is_empty b.bonded_assets)) [
      | inl never ↦ let same : [] ≡ r = ground arith in rw (← same) (tt, tt)
      | inr before ↦
          let same : later ≡ r = ground arith in
          rw (← same) (retain-IsListing (λ e. ltb b.first_bonded_epoch_id e.id) m epochs l)
    ]

-- So is the list of what an address can claim.
pub query_claimable-IsListing :
    (q : LairQueries) (s : State) (a : Addr) (r : List Epoch)
    → IsSorted s.epochs
    → Holds IsFiled s.epochs
    → query_claimable q s a ≡ ok r
    → IsListing s.epochs r
unfolding query_claimable
query_claimable-IsListing q s a r o f h =
    let (epochs, e, k) =
      >>=-eq-ok (unclaimed_epochs q s a (may_load a s.last_claimed_epoch) (get_claimable_epochs s))
        _ h in
    let listed =
      unclaimed-IsListing q s a (may_load a s.last_claimed_epoch) s.epochs (get_claimable_epochs s)
        epochs (get_claimable_epochs-IsListing s o f) e in
    let same : retain (λ e. not (is_empty e.available)) epochs ≡ r = ground arith in
    rw (← same) (retain-IsListing (λ e. not (is_empty e.available)) s.epochs epochs listed)
