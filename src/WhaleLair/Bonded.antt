-- ===== src/WhaleLair/Bonded.antt =====
-- The invariant of the bonds: the global index counts what is bonded. `bond` and `unbond` keep it.
use migaloo_core.Prelude.{
  ℕ, ◌+◌, ◌≡◌, Option, List, arith, ok, >>=-eq-ok, ap, Option-cases, inl, inr,
}
use migaloo_core.Cosmwasm.{Cosmwasm, Addr, Denom, MessageInfo, CosmosMsg, checked_add_lem}
use migaloo_core.Asset.{Asset, AssetInfo, native_token}
use migaloo_core.Storage.{Map, may_load, save, total, amount_at}
use migaloo_core.Storage.Keys.{pair_key}
use migaloo_core.Storage.Entries.{
  IsSorted, Holds, save-IsSorted, total-save_twice, Holds-save, Holds-may_load,
}
use migaloo_core.WhaleLair.{Bond, GlobalIndex, default_global_index, State}
use migaloo_core.WhaleLair.Weights.{update_local_weight, update_global_weight}
use migaloo_core.WhaleLair.Checks.{
  DistributorQueries, validate_funds, validate_claimed, validate_bonding_for_current_epoch,
}
use migaloo_core.WhaleLair.Commands.{
  or_default, native_denom, empty_bond, raise_bond, raise_index, bond_local, bond_global, bond,
}

abbrev pub bonded : Bond → ℕ
bonded b = b.asset.amount

-- A bond lies under its own denom.
abbrev pub IsFiled : ℕ × ℕ → Bond → Type 0
IsFiled k b = b.asset.info ≡ native_token k.1

abbrev pub index_of : State → GlobalIndex
index_of s = or_default default_global_index s.global

-- The bonds are in order and filed by denom, and the global index counts all of them.
pub record IsCounted (s : State) : Type 0 where
  pub sorted : IsSorted s.bonds
  pub filed : Holds IsFiled s.bonds
  pub counted : (index_of s).bonded_amount ≡ total bonded s.bonds

module _ ⦃cw : Cosmwasm⦄ where
  pub update_local_weight_lem :
      (s : State) (a : Addr) (t : ℕ) (b : Bond) (d : Denom) (r : State × Bond)
      → b.asset.info ≡ native_token d
      → update_local_weight s a t b ≡ ok r
      → (r.0 ≡ record s { bonds = save (a, d) r.1 s.bonds })
        × (r.1.asset ≡ b.asset)
        × (r.1.timestamp ≡ t)
  unfolding update_local_weight
  update_local_weight_lem s a t b d r i h = ground arith

  raise_bond_lem :
      (b : Bond) (asset : Asset) (b' : Bond)
      → raise_bond b asset ≡ ok b'
      → (b'.asset.info ≡ b.asset.info) × (b'.asset.amount ≡ b.asset.amount + asset.amount)
  unfolding raise_bond
  raise_bond_lem b asset b' h = grind (arith, checked_add_lem)

  -- The bond that is found, or the empty one, is filed right.
  filed_default :
      (m : Map (ℕ × ℕ) Bond) (a : Addr) (d : Denom) (asset : Asset)
      → Holds IsFiled m
      → asset.info ≡ native_token d
      → (or_default (empty_bond asset) (may_load (a, d) m)).asset.info ≡ native_token d
  filed_default m a d asset f i = elim (Option-cases (may_load (a, d) m)) [
    | inl new ↦ rw new i
    | inr (b, old) ↦ rw old (Holds-may_load IsFiled (a, d) b m f old)
  ]

  default_amount :
      (o : Option Bond) (asset : Asset)
      → (or_default (empty_bond asset) o).asset.amount ≡ amount_at bonded o
  default_amount o asset = ground arith

  bond_local_lem :
      (s : State) (t : ℕ) (a : Addr) (d : Denom) (asset : Asset) (r : State × Bond)
      → Holds IsFiled s.bonds
      → asset.info ≡ native_token d
      → bond_local s t a d asset ≡ ok r
      → (r.0 ≡ record s { bonds = save (a, d) r.1 (save (a, d) r.1 s.bonds) })
        × (r.1.asset.info ≡ native_token d)
        × (r.1.asset.amount ≡ amount_at bonded (may_load (a, d) s.bonds) + asset.amount)
  unfolding bond_local
  bond_local_lem s t a d asset r f i h =
      let old : Bond = or_default (empty_bond asset) (may_load (a, d) s.bonds) in
      let (b, e, k) = >>=-eq-ok (raise_bond old asset) _ h in
      let (l, e', k') = >>=-eq-ok (update_local_weight s a t b) _ k in
      ground (
        arith,
        raise_bond_lem old asset b e,
        filed_default s.bonds a d asset f i,
        default_amount (may_load (a, d) s.bonds) asset,
        update_local_weight_lem s a t b d l,
      )

  -- The local half raises the sum of the bonds by the asset, and keeps their order.
  bond_local_counts :
      (s : State) (t : ℕ) (a : Addr) (d : Denom) (asset : Asset) (r : State × Bond)
      → IsSorted s.bonds
      → Holds IsFiled s.bonds
      → asset.info ≡ native_token d
      → bond_local s t a d asset ≡ ok r
      → IsSorted r.0.bonds
        × Holds IsFiled r.0.bonds
        × (total bonded r.0.bonds ≡ total bonded s.bonds + asset.amount)
        × (r.0.global ≡ s.global)
  bond_local_counts s t a d asset r o f i h =
      let (e, filed, amount) = bond_local_lem s t a d asset r f i h in
      let once : Map (ℕ × ℕ) Bond = save (a, d) r.1 s.bonds in
      let o1 : IsSorted once = save-IsSorted (a, d) r.1 s.bonds o in
      let f1 : Holds IsFiled once = Holds-save IsFiled (a, d) r.1 s.bonds filed f in
      let bonds : r.0.bonds ≡ save (a, d) r.1 once = ap State.bonds e in
      (
        rw bonds (save-IsSorted (a, d) r.1 once o1),
        rw bonds (Holds-save IsFiled (a, d) r.1 once filed f1),
        rw bonds (omega (arith, total-save_twice bonded (a, d) r.1 r.1 s.bonds o, amount)),
        ap State.global e,
      )

  raise_index_lem :
      (i : GlobalIndex) (asset : Asset) (i' : GlobalIndex)
      → raise_index i asset ≡ ok i'
      → i'.bonded_amount ≡ i.bonded_amount + asset.amount
  unfolding raise_index
  raise_index_lem i asset i' h = grind (arith, checked_add_lem)

  pub update_global_weight_lem :
      (s : State) (t : ℕ) (i : GlobalIndex) (r : State × GlobalIndex)
      → update_global_weight s t i ≡ ok r
      → (r.0.bonds ≡ s.bonds) × (r.1.bonded_amount ≡ i.bonded_amount) × (r.0.unbonds ≡ s.unbonds)
  unfolding update_global_weight
  update_global_weight_lem s t i r h = ground arith

  bond_global_lem :
      (s : State) (t : ℕ) (asset : Asset) (s' : State)
      → bond_global s t asset ≡ ok s'
      → (s'.bonds ≡ s.bonds)
        × ((index_of s').bonded_amount ≡ (index_of s).bonded_amount + asset.amount)
  unfolding bond_global
  bond_global_lem s t asset s' h =
      let (i, e, k) = >>=-eq-ok (raise_index (index_of s) asset) _ h in
      let (r, e', k') = >>=-eq-ok (update_global_weight s t i) _ k in
      ground (arith, raise_index_lem (index_of s) asset i e, update_global_weight_lem s t i r e')

  -- The state of the local half and of the global half of `bond`, together.
  bond_halves-IsCounted :
      (s : State) (t : ℕ) (a : Addr) (d : Denom) (asset : Asset) (r : State × Bond) (s' : State)
      → IsCounted s
      → asset.info ≡ native_token d
      → bond_local s t a d asset ≡ ok r
      → bond_global r.0 t asset ≡ ok s'
      → IsCounted s' × (total bonded s'.bonds ≡ total bonded s.bonds + asset.amount)
  bond_halves-IsCounted s t a d asset r s' v i h k =
      let (o, f, sum, same) = bond_local_counts s t a d asset r v.sorted v.filed i h in
      let (e, amount) = bond_global_lem r.0 t asset s' k in
      (
        record {
          sorted = rw e o;
          filed = rw e f;
          counted = ground (arith, v.counted, amount, e, sum, same);
        },
        rw e sum,
      )

  pub native_denom_lem : (i : AssetInfo) (d : Denom) → native_denom i ≡ ok d → i ≡ native_token d
  unfolding native_denom
  native_denom_lem i d h = ground arith

  -- A successful `bond` keeps the bonds in order, filed by denom and counted by the global index,
  -- and raises what is bonded by exactly the asset.
  pub bond-IsCounted :
      (q : DistributorQueries) (s : State) (t : ℕ) (info : MessageInfo) (asset : Asset)
      (r : State × List CosmosMsg)
      → IsCounted s
      → bond q s t info asset ≡ ok r
      → IsCounted r.0 × (total bonded r.0.bonds ≡ total bonded s.bonds + asset.amount)
  unfolding bond
  bond-IsCounted q s t info asset r v h =
      let (d, ed, h1) = >>=-eq-ok (native_denom asset.info) _ h in
      let (_, _, h2) = >>=-eq-ok (validate_funds s info asset d) _ h1 in
      let (_, _, h3) = >>=-eq-ok (validate_claimed q s info) _ h2 in
      let (_, _, h4) = >>=-eq-ok (validate_bonding_for_current_epoch q s t) _ h3 in
      let (l, el, h5) = >>=-eq-ok (bond_local s t info.sender d asset) _ h4 in
      let (s', eg, h6) = >>=-eq-ok (bond_global l.0 t asset) _ h5 in
      let final : s' ≡ r.0 = ground arith in
      rw (← final) (
        bond_halves-IsCounted s t info.sender d asset l s' v (native_denom_lem asset.info d ed) el
          eg)
