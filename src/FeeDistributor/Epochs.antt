-- ===== src/FeeDistributor/Epochs.antt =====
-- The epochs of fee_distributor/src/state.rs, newest first.
use migaloo_core.Prelude.{
  ℕ, not, Option, none, some, List, [], ◌∷◌, ◌++◌, ltb, ◌==◌, if◌then◌else◌, length, take, retain,
  is_empty, Result, ok, ◌>>=◌,
}
use migaloo_core.Cosmwasm.{Addr, StdError}
use migaloo_core.Storage.{Map, may_load}
use migaloo_core.Storage.Keys.{nat_key}
use migaloo_core.WhaleLair.Commands.{or_default}
use migaloo_core.FeeDistributor.{Epoch, default_epoch, State, LairQueries}

-- `range(.., Order::Descending)`: the epochs of the map, the highest id first.
unfoldable pub descending : Map ℕ Epoch → List Epoch
descending [] = []
descending ((k, e) ∷ m) = descending m ++ e ∷ []

abbrev pub head_or : Epoch → List Epoch → Epoch
head_or d [] = d
head_or d (e ∷ epochs) = e

abbrev pub last_or : Epoch → List Epoch → Epoch
last_or d [] = d
last_or d (e ∷ epochs) = last_or e epochs

unfoldable pub get_current_epoch : State → Epoch
unfolding descending
get_current_epoch s = head_or default_epoch (descending s.epochs)

unfoldable pub get_epoch : State → ℕ → Epoch
get_epoch s id = or_default default_epoch (may_load id s.epochs)

-- The epochs within the grace period.
unfoldable pub get_claimable_epochs : State → List Epoch
unfolding descending
get_claimable_epochs s = take s.config.grace_period (descending s.epochs)

-- The epoch that leaves the grace period when the next one is created.
unfoldable pub get_expiring_epoch : State → Option Epoch
unfolding get_claimable_epochs
get_expiring_epoch s =
    let epochs = get_claimable_epochs s in
    if length epochs == s.config.grace_period then some (last_or default_epoch epochs) else none

-- The epochs after the last claimed one; without one, those after the first bond.
unfoldable pub unclaimed_epochs :
    LairQueries → State → Addr → Option ℕ → List Epoch → Result StdError (List Epoch)
unclaimed_epochs q s address (some last_claimed) epochs =
    ok (retain (λ e. ltb last_claimed e.id) epochs)
unclaimed_epochs q s address none epochs = do
  bonded ← q.bonded s.config.bonding_contract_addr address
  if is_empty bonded.bonded_assets
      then ok []
      else ok (retain (λ e. ltb bonded.first_bonded_epoch_id e.id) epochs)

unfoldable pub query_claimable : LairQueries → State → Addr → Result StdError (List Epoch)
unfolding unclaimed_epochs get_claimable_epochs
query_claimable q s address = do
  epochs ←
      unclaimed_epochs q s address (may_load address s.last_claimed_epoch) (get_claimable_epochs s)
  ok (retain (λ e. not (is_empty e.available)) epochs)
