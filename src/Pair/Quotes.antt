-- ===== src/Pair/Quotes.antt =====
-- A swap pays what `query_simulation` answered before the offer arrived.
use migaloo_core.Prelude.{
  ℕ, ◌+◌, ◌≡◌, sym, ap, arith, Option, some, if◌then◌else◌, List, ◌++◌, Result, ok, >>=-eq-ok,
  >>=-elim, ok-injective, ok_or, subst,
}
use migaloo_core.Cosmwasm.{
  Cosmwasm, Addr, MessageInfo, CosmosMsg, StdError, checked_sub_lem, addr_humanize, addr_validate,
  addr_validate_lem,
}
use migaloo_core.Asset.{
  Asset, AssetInfo, token, native_token, equal, assert_sent_native_token_balance,
}
use migaloo_core.Asset.Queries.{to_normal, query_pool}
use migaloo_core.Pair.{State, Chain, PairInfoRaw, lift, lift-eq-ok}
use migaloo_core.Pair.Swap.{SwapComputation}
use migaloo_core.Pair.Limits.{unwrap_or, assert_max_spread}
use migaloo_core.Pair.Pools.{query_pools, less_protocol_fee}
use migaloo_core.Pair.Trades.{
  Sides, choose_sides, swap_pool, swap, gross_of, store_fees, return_messages, burn_messages,
}
use migaloo_core.Pair.Queries.{Balances, net_pools, query_simulation}
use migaloo_core.Checked.{ok_or-eq-ok}

-- An amount of an asset when an offer has come in.
abbrev pub received : Asset → AssetInfo → ℕ → ℕ
received offer a n = if equal a offer.info then n + offer.amount else n

abbrev pub receive : Asset → Asset → Asset
receive offer pool = record pool { amount = received offer pool.info pool.amount }

-- Balances before an offer came in and after.
abbrev pub HasReceived :
    Asset → (AssetInfo → Result StdError ℕ) → (AssetInfo → Result StdError ℕ) → Type 0
HasReceived offer before after =
    (a : AssetInfo) (n : ℕ) → before a ≡ ok n → after a ≡ ok (received offer a n)

module _ ⦃cw : Cosmwasm⦄ (offer : Asset) where
  query_pool-receive :
      (before after : AssetInfo → Result StdError ℕ) (a : AssetInfo) (n : ℕ)
      → HasReceived offer before after
      → query_pool before a ≡ ok n
      → query_pool after a ≡ ok (received offer a n)
  unfolding query_pool
  query_pool-receive before after (native_token denom) n arrived h =
      arrived (native_token denom) n h
  query_pool-receive before after (token contract_addr) n arrived h =
      let (b, e, found) =
        >>=-eq-ok (ok_or (addr_validate contract_addr) StdError.generic_err) _ h in
      let valid = ok_or-eq-ok (addr_validate contract_addr) StdError.generic_err b e in
      let same = addr_validate_lem contract_addr b valid in
      let moved : after (token contract_addr) ≡ ok (received offer (token contract_addr) n) =
        arrived (token contract_addr) n (subst (λ t. before (token t) ≡ ok n) same found) in
      rw valid (rw same moved)

  query_pools-receive :
      (before after : AssetInfo → Result StdError ℕ) (info : PairInfoRaw) (p q : Asset)
      → HasReceived offer before after
      → query_pools before info ≡ ok (p, q)
      → query_pools after info ≡ ok (receive offer p, receive offer q)
  unfolding query_pools
  query_pools-receive before after info p q arrived h =
      >>=-elim (to_normal info.asset_infos.0) h (λ i e1 h1.
        >>=-elim (to_normal info.asset_infos.1) h1 (λ j e2 h2.
          >>=-elim (query_pool before i) h2 (λ m e3 h3.
            >>=-elim (query_pool before j) h3 (λ n e4 h4. rw e1 (
              rw e2 (
                rw (query_pool-receive before after i m arrived e3) (
                  rw (query_pool-receive before after j n arrived e4) (
                    ap (λ (x : Asset × Asset). ok (receive offer x.0, receive offer x.1))
                      (ok-injective h4)))))))))

  -- A pool after the offer, less its fees and the offer, is the pool before less its fees.
  swap_pool-receive :
      (collected : List Asset) (pool net : Asset)
      → less_protocol_fee collected pool ≡ ok net
      → swap_pool collected offer (receive offer pool) ≡ ok net
  unfolding swap_pool less_protocol_fee
  swap_pool-receive collected pool net h = grind (arith, checked_sub_lem)

  net_pools_lem :
      (balances : Balances) (s : State) (self : Addr) (p q : Asset)
      → addr_humanize s.pair_info.contract_addr ≡ some self
      → net_pools balances s ≡ ok (p, q)
      → (p0 : Asset) × (q0 : Asset) × (query_pools (balances self) s.pair_info ≡ ok (p0, q0))
        × (less_protocol_fee s.collected_protocol_fees p0 ≡ ok p)
        × (less_protocol_fee s.collected_protocol_fees q0 ≡ ok q)
  unfolding net_pools
  net_pools_lem balances s self p q human h =
      >>=-elim (lift (query_pools (balances self) s.pair_info)) (rw human at h) (λ (p0, q0) e1 h1.
        >>=-elim (less_protocol_fee s.collected_protocol_fees p0) h1 (λ p' e2 h2.
          >>=-elim (less_protocol_fee s.collected_protocol_fees q0) h2 (λ q' e3 h3. (
            p0,
            q0,
            lift-eq-ok (query_pools (balances self) s.pair_info) e1,
            rw e2 (ap (λ x. ok x.0) (ok-injective h3)),
            rw e3 (ap (λ x. ok x.1) (ok-injective h3)),
          ))))

  -- A swap that goes through pays to its receiver and burns what `query_simulation` answered before
  -- the offer arrived in the pair's balance, and books that answer's fees on the same asset, which
  -- is one side of the pair, the offered asset being the other.
  pub swap-query_simulation :
      (balances : Balances) (chain : Chain) (s s' : State) (info : MessageInfo) (sender : Addr)
      (belief_price max_spread : Option ℕ) (to : Option Addr) (messages : List CosmosMsg)
      (c : SwapComputation)
      → addr_humanize s.pair_info.contract_addr ≡ some chain.contract_address
      → HasReceived offer (balances chain.contract_address) chain.balance
      → query_simulation balances s offer ≡ ok c
      → swap chain s info sender offer belief_price max_spread to ≡ ok (s', messages)
      → (p : Asset) × (q : Asset) × (sides : Sides) × (net_pools balances s ≡ ok (p, q))
        × (choose_sides offer.info p q s.pair_info.asset_decimals ≡ ok sides)
        × (messages
            ≡ return_messages sides.ask_pool.info c.return_amount (unwrap_or to sender)
              ++ burn_messages sides.ask_pool.info c.burn_fee_amount)
        × (store_fees s sides.ask_pool.info c ≡ ok s')
  unfolding query_simulation net_pools swap
  swap-query_simulation balances chain s s' info sender belief max to messages c human arrived quote
        done =
      >>=-elim (net_pools balances s) quote (λ (p, q) e1 h1.
        let (p0, q0, found, less_p, less_q) =
          net_pools_lem balances s chain.contract_address p q human e1 in
        >>=-elim (choose_sides offer.info p q s.pair_info.asset_decimals) h1 (λ sides e2 e3.
          >>=-elim (lift (assert_sent_native_token_balance offer info)) done (λ u e4 h4.
            let h5 =
              rw
                (query_pools-receive (balances chain.contract_address) chain.balance s.pair_info p0
                  q0 arrived found)
                at h4 in
            let h6 = rw (swap_pool-receive s.collected_protocol_fees p0 p less_p) at h5 in
            let h7 = rw (swap_pool-receive s.collected_protocol_fees q0 q less_q) at h6 in
            let h8 = rw e2 at h7 in
            let h9 = rw e3 at h8 in
            >>=-elim (gross_of c) h9 (λ gross e5 h10.
              >>=-elim (lift (assert_max_spread belief max offer.amount gross c.spread_amount)) h10
                (λ v e6 h11. >>=-elim (store_fees s sides.ask_pool.info c) h11 (λ s'' e7 h12. (
                  p,
                  q,
                  sides,
                  e1,
                  e2,
                  sym (ap (λ x. x.1) (ok-injective h12)),
                  rw e7 (ap (λ x. ok x.0) (ok-injective h12)),
                )))))))
