-- ===== src/WhaleLair/Withdrawal.antt =====
-- `withdraw` of whale_lair/src/commands.rs, and its query `query_withdrawable`.
use migaloo_core.Prelude.{
  ℕ, ◌+◌, ◌-◌, ◌≤◌, ◌≡◌, ap, some, List, [], ◌∷◌, leb, if◌then◌else◌, arith, ok, >>=-eq-ok, fail_if,
  is_empty, inl, inr, Bool-cases, retain,
}
use migaloo_core.Cosmwasm.{
  Cosmwasm, Addr, Denom, CosmosMsg, addr_validate, checked_add_lem, checked_sub_lem,
}
use migaloo_core.Asset.{native_token}
use migaloo_core.Storage.{Map, remove, total, amount_at}
use migaloo_core.Storage.Keys.{triple_key}
use migaloo_core.Storage.Entries.{IsSorted, Holds, remove-IsSorted, total-remove}
use migaloo_core.Storage.Ranges.{
  IsPresent, IsSorted-retain, IsSorted-take, IsPresent-self, IsPresent-remove, Holds-retain,
  Holds-take, Holds-test,
}
use migaloo_core.WhaleLair.{Bond, State, nothing_to_withdraw}
use migaloo_core.WhaleLair.Commands.{
  unbondings_of, is_unbonding_of, withdraw_one, withdraw_loop, withdraw, max_page_limit,
}
use migaloo_core.WhaleLair.Queries.{withdrawable_one, withdrawable_loop, query_withdrawable}
use migaloo_core.WhaleLair.Bonded.{bonded}

abbrev Unbondings : Type 0
Unbondings = Map (ℕ × ℕ × ℕ) Bond

-- An unbonding lies under its own denom.
abbrev pub IsFiled : ℕ × ℕ × ℕ → Bond → Type 0
IsFiled k b = b.asset.info ≡ native_token k.1

abbrev IsOf : Addr → Denom → ℕ × ℕ × ℕ → Bond → Type 0
IsOf a d k b = (k.0 ≡ a) × (k.1 ≡ d)

-- What is past the unbonding period at a time.
abbrev pub matured_amount : ℕ → Unbondings → ℕ
matured_amount limit [] = 0
matured_amount limit ((k, b) ∷ m) =
    let rest = matured_amount limit m in
    if leb b.timestamp limit then b.asset.amount + rest else rest

module _ ⦃cw : Cosmwasm⦄ where
  -- One round: the query counts what is paid; a matured unbonding leaves the map, another stays.
  one_lem :
      (t period : ℕ) (a : Addr) (d : Denom) (k : ℕ × ℕ × ℕ) (b : Bond) (m : Unbondings) (refund : ℕ)
      (r : Unbondings × ℕ)
      → IsFiled k b
      → k.0 ≡ a
      → k.1 ≡ d
      → withdraw_one t period a k b m refund ≡ ok r
      → (withdrawable_one t period b refund ≡ ok r.1)
        × (period ≤ t)
        × (r.1 ≡ refund + matured_amount (t - period) ((k, b) ∷ []))
        × (r.0 ≡ (if leb b.timestamp (t - period) then remove k m else m))
  unfolding withdraw_one withdrawable_one
  one_lem t period a d k b m refund r f ea ed h = grind (arith, checked_add_lem, checked_sub_lem)

  -- The whole loop: what leaves the map is what is refunded, all that has matured and nothing else.
  loop_lem :
      (t period : ℕ) (a : Addr) (d : Denom) (us m : Unbondings) (refund : ℕ) (r : Unbondings × ℕ)
      → Holds IsFiled us
      → Holds (IsOf a d) us
      → IsSorted us
      → IsSorted m
      → Holds (IsPresent m) us
      → withdraw_loop t period a us m refund ≡ ok r
      → (withdrawable_loop t period us refund ≡ ok r.1)
        × (r.1 ≡ refund + matured_amount (t - period) us)
        × (total bonded r.0 + r.1 ≡ total bonded m + refund)
        × IsSorted r.0
  unfolding withdraw_loop withdrawable_loop
  loop_lem t period a d [] m refund r f o su sm p h = ground arith
  loop_lem t period a d ((k, b) ∷ us) m refund r f o su sm p h =
      let (r1, e1, h1) = >>=-eq-ok (withdraw_one t period a k b m refund) _ h in
      let (q1, _, a1, m1) = one_lem t period a d k b m refund r1 f.0 o.0.0 o.0.1 e1 in
      elim (Bool-cases (leb b.timestamp (t - period))) [
        | inl due ↦
            let left : r1.0 ≡ remove k m = ground arith in
            let rest =
              loop_lem t period a d us r1.0 r1.1 r f.1 o.1 su.1 (rw left (remove-IsSorted k m sm))
                (rw left (IsPresent-remove k m us su.0 p.1)) h1 in
            ground (
              arith,
              rest,
              total-remove bonded k m sm,
              ap (amount_at bonded) p.0,
              ap (total bonded) left,
            )
        | inr not_due ↦
            let left : r1.0 ≡ m = ground arith in
            let rest =
              loop_lem t period a d us r1.0 r1.1 r f.1 o.1 su.1 (rw left sm) (rw left p.1) h1 in
            ground (arith, rest, ap (total bonded) left)
      ]

  unbondings_of_lem :
      (m : Unbondings) (a : Addr) (d : Denom)
      → IsSorted m
      → Holds IsFiled m
      → Holds IsFiled (unbondings_of m a d)
        × Holds (IsOf a d) (unbondings_of m a d)
        × IsSorted (unbondings_of m a d)
        × Holds (IsPresent m) (unbondings_of m a d)
  unfolding unbondings_of
  unbondings_of_lem m a d s f =
      let mine : Unbondings = retain (is_unbonding_of a d) m in
      (
        Holds-take IsFiled max_page_limit mine (Holds-retain IsFiled (is_unbonding_of a d) m f),
        Holds-take (IsOf a d) max_page_limit mine
            (Holds-test (IsOf a d) (is_unbonding_of a d) m (λ k v h. ground arith)),
        IsSorted-take max_page_limit mine (IsSorted-retain (is_unbonding_of a d) m s),
        Holds-take (IsPresent m) max_page_limit mine
            (Holds-retain (IsPresent m) (is_unbonding_of a d) m (IsPresent-self m s)),
      )

  -- Where the unbondings are in order and filed by denom and the caller's address is valid, a
  -- successful `withdraw` sends one coin to the caller: the sum of those of the first thirty
  -- unbondings of the denom that are past the unbonding period. Just that amount leaves the recorded
  -- unbondings, nothing else of the state changes, and `query_withdrawable`, which validates the
  -- address first, had announced it.
  pub withdraw_pays :
      (s : State) (t : ℕ) (a : Addr) (d : Denom) (r : State × List CosmosMsg)
      → IsSorted s.unbonds
      → Holds IsFiled s.unbonds
      → addr_validate a ≡ some a
      → withdraw s t a d ≡ ok r
      → let refund = matured_amount (t - s.config.unbonding_period) (unbondings_of s.unbonds a d) in
        (r.1 ≡ CosmosMsg.bank_send a (record { denom = d; amount = refund } ∷ []) ∷ [])
        × (total bonded r.0.unbonds + refund ≡ total bonded s.unbonds)
        × (r.0 ≡ record s { unbonds = r.0.unbonds })
        × (query_withdrawable s t a d ≡ ok refund)
  unfolding withdraw query_withdrawable
  withdraw_pays s t a d r o f valid h =
      let us : Unbondings = unbondings_of s.unbonds a d in
      let (fu, ou, su, pu) = unbondings_of_lem s.unbonds a d o f in
      let (_, _, h1) = >>=-eq-ok (fail_if (is_empty us) nothing_to_withdraw) _ h in
      let (l, e, h2) =
        >>=-eq-ok (withdraw_loop t s.config.unbonding_period a us s.unbonds 0) _ h1 in
      rw valid
        (ground (arith, loop_lem t s.config.unbonding_period a d us s.unbonds 0 l fu ou su o pu e))
