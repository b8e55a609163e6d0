-- ===== src/WhaleLair/Unbonding.antt =====
-- `unbond` of whale_lair/src/commands.rs: it keeps the invariant of the bonds, and what it records.
use migaloo_core.Prelude.{
  ℕ, ◌+◌, ◌≤◌, ◌≡◌, ap, ◌∙◌, some, List, ◌==◌, arith, ok, >>=-eq-ok, fail_if, ok_or, inl, inr,
  Bool-cases, ltb,
}
use migaloo_core.Cosmwasm.{Cosmwasm, Addr, Denom, MessageInfo, CosmosMsg, checked_sub_lem}
use migaloo_core.Asset.{Asset, native_token}
use migaloo_core.Storage.{Map, may_load, save, total, amount_at}
use migaloo_core.Storage.Keys.{Key, pair_key, triple_key}
use migaloo_core.Storage.Entries.{
  IsSorted, Holds, save-IsSorted, remove-IsSorted, total-save, total-remove, may_load-save,
  Holds-save, Holds-remove, Holds-may_load,
}
use migaloo_core.WhaleLair.{
  Bond, GlobalIndex, State, insufficient_bond, invalid_unbonding_amount, nothing_to_unbond,
}
use migaloo_core.WhaleLair.Weights.{update_local_weight, update_global_weight}
use migaloo_core.WhaleLair.Checks.{
  DistributorQueries, validate_claimed, validate_bonding_for_current_epoch,
}
use migaloo_core.WhaleLair.Commands.{
  native_denom, lower_bond, lower_index, keep_bond, unbond_local, unbond_global, record_unbonding,
  unbond,
}
use migaloo_core.WhaleLair.Bonded.{
  bonded, IsFiled, index_of, IsCounted, update_local_weight_lem, update_global_weight_lem,
  native_denom_lem,
}

module _ ⦃cw : Cosmwasm⦄ where
  keep_bond_counts :
      (m : Map (ℕ × ℕ) Bond) (a : Addr) (d : Denom) (b : Bond)
      → IsSorted m
      → Holds IsFiled m
      → b.asset.info ≡ native_token d
      → IsSorted (keep_bond m a d b)
        × Holds IsFiled (keep_bond m a d b)
        × (total bonded (keep_bond m a d b) + amount_at bonded (may_load (a, d) m)
            ≡ total bonded m + b.asset.amount)
  unfolding keep_bond
  keep_bond_counts m a d b o f i = elim (Bool-cases (b.asset.amount == 0)) [
    | inl gone ↦ rw gone (
      remove-IsSorted (a, d) m o,
      Holds-remove IsFiled (a, d) m f,
      ground (arith, total-remove bonded (a, d) m o),
    )
    | inr left ↦ rw left (
      save-IsSorted (a, d) b m o,
      Holds-save IsFiled (a, d) b m i f,
      ground (arith, total-save bonded (a, d) b m o),
    )
  ]

  lower_bond_lem :
      (b : Bond) (asset : Asset) (l : Bond × ℕ)
      → lower_bond b asset ≡ ok l
      → (l.0.asset.info ≡ b.asset.info)
        × (l.0.asset.amount + asset.amount ≡ b.asset.amount)
        × (l.1 ≤ b.weight)
        × (l.0.weight + l.1 ≡ b.weight)
  unfolding lower_bond
  lower_bond_lem b asset l h = grind (arith, checked_sub_lem)

  stored :
      (m m' : Map (ℕ × ℕ) Bond) (a : Addr) (d : Denom) (b : Bond)
      → m' ≡ save (a, d) b m
      → may_load (a, d) m' ≡ some b
  stored m m' a d b e =
      rw e (ground (arith, may_load-save (a, d) (a, d) b m, Key.eq_refl pair_key (a, d)))

  -- The local half takes the asset off the sum of the bonds, and keeps their order.
  unbond_local_counts :
      (s : State) (t : ℕ) (a : Addr) (d : Denom) (asset : Asset) (b : Bond) (r : State × ℕ)
      → IsSorted s.bonds
      → Holds IsFiled s.bonds
      → may_load (a, d) s.bonds ≡ some b
      → unbond_local s t a d asset b ≡ ok r
      → IsSorted r.0.bonds
        × Holds IsFiled r.0.bonds
        × (total bonded r.0.bonds + asset.amount ≡ total bonded s.bonds)
        × (r.0.global ≡ s.global)
        × (r.0.unbonds ≡ s.unbonds)
  unfolding unbond_local
  unbond_local_counts s t a d asset b r o f e h =
      let filed : b.asset.info ≡ native_token d = Holds-may_load IsFiled (a, d) b s.bonds f e in
      let (_, _, h1) =
        >>=-eq-ok (fail_if (ltb b.asset.amount asset.amount) insufficient_bond) _ h in
      let (u, eu, h2) = >>=-eq-ok (update_local_weight s a t b) _ h1 in
      let (l, el, h3) = >>=-eq-ok (lower_bond u.1 asset) _ h2 in
      let (eu0, eu1, _) = update_local_weight_lem s a t b d u filed eu in
      let (li, la, _, _) = lower_bond_lem u.1 asset l el in
      let bonds : u.0.bonds ≡ save (a, d) u.1 s.bonds = ap State.bonds eu0 in
      let o1 : IsSorted u.0.bonds = rw bonds (save-IsSorted (a, d) u.1 s.bonds o) in
      let f1 : Holds IsFiled u.0.bonds =
        rw bonds (Holds-save IsFiled (a, d) u.1 s.bonds (ap Asset.info eu1 ∙ filed) f) in
      let (ko, kf, kt) =
        keep_bond_counts u.0.bonds a d l.0 o1 f1 (li ∙ (ap Asset.info eu1 ∙ filed)) in
      let final : record (u.0) { bonds = keep_bond u.0.bonds a d l.0 } ≡ r.0 = ground arith in
      let there : may_load (a, d) u.0.bonds ≡ some u.1 = stored s.bonds u.0.bonds a d u.1 bonds in
      let sum : total bonded u.0.bonds + b.asset.amount ≡ total bonded s.bonds + u.1.asset.amount =
        rw bonds (omega (arith, total-save bonded (a, d) u.1 s.bonds o, ap (amount_at bonded) e)) in
      rw (← final) (
        ko,
        kf,
        omega (arith, kt, ap (amount_at bonded) there, la, sum, ap Asset.amount eu1),
        ap State.global eu0,
        ap State.unbonds eu0,
      )

  lower_index_lem :
      (i : GlobalIndex) (asset : Asset) (slash : ℕ) (i' : GlobalIndex)
      → lower_index i asset slash ≡ ok i'
      → i'.bonded_amount + asset.amount ≡ i.bonded_amount
  unfolding lower_index
  lower_index_lem i asset slash i' h = grind (arith, checked_sub_lem)

  unbond_global_lem :
      (s : State) (t : ℕ) (asset : Asset) (slash : ℕ) (s' : State)
      → unbond_global s t asset slash ≡ ok s'
      → (s'.bonds ≡ s.bonds)
        × (s'.unbonds ≡ s.unbonds)
        × ((index_of s').bonded_amount + asset.amount ≡ (index_of s).bonded_amount)
  unfolding unbond_global
  unbond_global_lem s t asset slash s' h =
      let (u, eu, k) = >>=-eq-ok (update_global_weight s t (index_of s)) _ h in
      let (i, ei, k') = >>=-eq-ok (lower_index u.1 asset slash) _ k in
      ground (
        arith,
        lower_index_lem u.1 asset slash i ei,
        update_global_weight_lem s t (index_of s) u eu,
      )

  -- The parts of a successful `unbond`.
  abbrev Parts : State → ℕ → MessageInfo → Asset → State → Type 0
  Parts s t info asset s' =
      (d : Denom) × (b : Bond) × (l : State × ℕ) × (asset.info ≡ native_token d)
      × (may_load (info.sender, d) s.bonds ≡ some b)
      × (unbond_local s t info.sender d asset b ≡ ok l)
      × (unbond_global (record_unbonding l.0 t info.sender d asset) t asset l.1 ≡ ok s')

  unbond-Parts :
      (q : DistributorQueries) (s : State) (t : ℕ) (info : MessageInfo) (asset : Asset)
      (r : State × List CosmosMsg)
      → unbond q s t info asset ≡ ok r
      → Parts s t info asset r.0
  unfolding unbond
  unbond-Parts q s t info asset r h =
      let (_, _, h0) = >>=-eq-ok (fail_if (asset.amount == 0) invalid_unbonding_amount) _ h in
      let (d, ed, h1) = >>=-eq-ok (native_denom asset.info) _ h0 in
      let (_, _, h2) = >>=-eq-ok (validate_claimed q s info) _ h1 in
      let (_, _, h3) = >>=-eq-ok (validate_bonding_for_current_epoch q s t) _ h2 in
      let (b, eb, h4) =
        >>=-eq-ok (ok_or (may_load (info.sender, d) s.bonds) nothing_to_unbond) _ h3 in
      let (l, el, h5) = >>=-eq-ok (unbond_local s t info.sender d asset b) _ h4 in
      let (s', eg, h6) =
        >>=-eq-ok (unbond_global (record_unbonding l.0 t info.sender d asset) t asset l.1) _ h5 in
      let final : s' ≡ r.0 = ground arith in
      (d, b, l, native_denom_lem asset.info d ed, ground arith, el, eg ∙ ap ok final)

  -- A successful `unbond` keeps the bonds in order, filed and counted by the global index, and
  -- takes exactly the asset off what is bonded.
  pub unbond-IsCounted :
      (q : DistributorQueries) (s : State) (t : ℕ) (info : MessageInfo) (asset : Asset)
      (r : State × List CosmosMsg)
      → IsCounted s
      → unbond q s t info asset ≡ ok r
      → IsCounted r.0 × (total bonded r.0.bonds + asset.amount ≡ total bonded s.bonds)
  unbond-IsCounted q s t info asset r v h =
      let (d, b, l, _, eb, el, eg) = unbond-Parts q s t info asset r h in
      let (o, f, sum, same, _) =
        unbond_local_counts s t info.sender d asset b l v.sorted v.filed eb el in
      let (e, _, amount) =
        unbond_global_lem (record_unbonding l.0 t info.sender d asset) t asset l.1 r.0 eg in
      (
        record {
          sorted = rw e o;
          filed = rw e f;
          counted = ground (arith, v.counted, amount, e, sum, same);
        },
        rw e sum,
      )

  -- Where the tokens of an `unbond` go: what is bonded and what is unbonding, together, stay the
  -- same, except that an unbonding of the same address, denom and time as the new one is lost.
  pub unbond_conserves :
      (q : DistributorQueries) (s : State) (t : ℕ) (info : MessageInfo) (asset : Asset)
      (r : State × List CosmosMsg) (d : Denom)
      → IsCounted s
      → IsSorted s.unbonds
      → asset.info ≡ native_token d
      → unbond q s t info asset ≡ ok r
      → total bonded r.0.bonds
          + total bonded r.0.unbonds
          + amount_at bonded (may_load (info.sender, d, t) s.unbonds)
        ≡ total bonded s.bonds + total bonded s.unbonds
  unbond_conserves q s t info asset r d v o i h =
      let (d', b, l, i', eb, el, eg) = unbond-Parts q s t info asset r h in
      let same_denom : d' ≡ d = ground arith in
      let (_, _, sum, _, unbonds) =
        unbond_local_counts s t info.sender d' asset b l v.sorted v.filed eb el in
      let (e, e', _) =
        unbond_global_lem (record_unbonding l.0 t info.sender d' asset) t asset l.1 r.0 eg in
      let new : Bond = record { asset = asset; timestamp = t; weight = 0 } in
      rw (e, e', unbonds, same_denom)
        (omega (arith, sum, total-save bonded (info.sender, d, t) new s.unbonds o))
