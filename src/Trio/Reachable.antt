-- ===== src/Trio/Reachable.antt =====
-- The amplification coefficient in every state that calls of the pool of three lead to.
use migaloo_core.Prelude.{
  ℕ, ◌≤◌, ◌<◌, ◌^◌, ◌≡◌, sym, ap, arith, List, ltb, Result, ok, >>=-elim, ok-injective, ok_or,
  fail_if,
}
use migaloo_core.Cosmwasm.{Cosmwasm, Addr, MessageInfo, CosmosMsg, StdError, addr_canonicalize}
use migaloo_core.Asset.Queries.{to_raw, to_normal}
use migaloo_core.Pair.{Chain, lift, std, pool_fee_is_valid}
use migaloo_core.Pair.Messages.{valid_addr}
use migaloo_core.Trio.{State}
use migaloo_core.Trio.Amp.{invariant_of, compute_amp_factor}
use migaloo_core.Trio.Messages.{min_amp, max_amp, ExecuteMsg, execute}
use migaloo_core.Trio.Creation.{InstantiateMsg, create_lp_token, instantiate, reply}
use migaloo_core.Trio.Admissible.{
  IsRamped, IsRamped-later, compute_amp_factor-bounds, execute-IsRamped,
}

module _ ⦃cw : Cosmwasm⦄ where
  instantiate-IsRamped :
      (chain : Chain) (height : ℕ) (sender : Addr) (msg : InstantiateMsg) (r : State × ℕ)
      → instantiate chain height sender msg ≡ ok r
      → IsRamped height r.0.config
  unfolding instantiate
  instantiate-IsRamped chain height sender msg r h =
      >>=-elim (ok_or (addr_canonicalize chain.contract_address) (std StdError.generic_err)) h
        (λ self _ h1. >>=-elim (lift (to_raw msg.asset_infos.0)) h1 (λ raw_0 _ h2.
          >>=-elim (lift (to_raw msg.asset_infos.1)) h2 (λ raw_1 _ h3.
            >>=-elim (lift (to_raw msg.asset_infos.2)) h3 (λ raw_2 _ h4.
              >>=-elim (lift (to_normal raw_0)) h4 (λ i _ h5.
                >>=-elim (lift (to_normal raw_1)) h5 (λ j _ h6.
                  >>=-elim (lift (to_normal raw_2)) h6 (λ k _ h7.
                    >>=-elim (lift (chain.get_label i)) h7 (λ _ _ h8.
                      >>=-elim (lift (chain.get_label j)) h8 (λ _ _ h9.
                        >>=-elim (lift (chain.get_label k)) h9 (λ _ _ h10.
                          >>=-elim (lift (pool_fee_is_valid msg.pool_fees)) h10 (λ _ _ h11.
                            >>=-elim
                              (fail_if (ltb msg.amp_factor min_amp) (std StdError.generic_err)) h11
                              (λ _ e12 h12.
                                >>=-elim
                                  (fail_if (ltb max_amp msg.amp_factor) (std StdError.generic_err))
                                  h12
                                  (λ _ e13 h13. >>=-elim (valid_addr sender) h13 (λ _ _ h14.
                                    >>=-elim (valid_addr msg.fee_collector_addr) h14 (λ _ _ h15.
                                      >>=-elim (create_lp_token msg) h15 (λ _ _ h16.
                                        let least : min_amp ≤ msg.amp_factor = ground arith in
                                        let most : msg.amp_factor ≤ max_amp = ground arith in
                                        rw (← ok-injective h16) (record {
                                          initial_least = least;
                                          initial_most = most;
                                          future_least = least;
                                          future_most = most;
                                          started = omega arith;
                                        })))))))))))))))))

  reply-config :
      (s : State) (answer : Result StdError Addr) (s' : State)
      → reply s answer ≡ ok s'
      → s'.config ≡ s.config
  unfolding reply
  reply-config s answer s' h = >>=-elim answer h (λ a _ h1.
      >>=-elim (ok_or (addr_canonicalize a) StdError.generic_err) h1
        (λ c _ h2. ap (λ t. t.config) (sym (ok-injective h2))))

  -- The states that successful calls lead to, with the block height, which never falls and fits in 64
  -- bits, whatever the chain answers each time.
  pub data IsReachable : ℕ → State → Type 0 where
    created :
        (chain : Chain) (height : ℕ) (sender : Addr) (msg : InstantiateMsg) (r : State × ℕ)
        → instantiate chain height sender msg ≡ ok r
        → IsReachable height r.0
    waited :
        (height later : ℕ) (s : State) → height ≤ later → IsReachable height s → IsReachable later s
    replied :
        (height : ℕ) (s : State) (answer : Result StdError Addr) (s' : State)
        → IsReachable height s
        → reply s answer ≡ ok s'
        → IsReachable height s'
    executed :
        (height : ℕ) (s : State) (chain : Chain) (info : MessageInfo) (msg : ExecuteMsg)
        (r : State × List CosmosMsg)
        → height < 2 ^ 64
        → IsReachable height s
        → execute chain height s info msg ≡ ok r
        → IsReachable height r.0

  reachable-IsRamped : (height : ℕ) (s : State) → IsReachable height s → IsRamped height s.config
  reachable-IsRamped _ s (created chain height sender msg r h) =
      instantiate-IsRamped chain height sender msg r h
  reachable-IsRamped _ s0 (waited earlier height s le v) =
      IsRamped-later earlier height s.config le (reachable-IsRamped earlier s v)
  reachable-IsRamped _ s (replied height s0 answer s' v h) =
      rw (reply-config s0 answer s' h) (reachable-IsRamped height s0 v)
  reachable-IsRamped _ s (executed height s0 chain info msg r small v h) =
      execute-IsRamped chain height s0 info msg r small (reachable-IsRamped height s0 v) h

  -- In every state that an instantiation and any calls lead to, at any later block height that fits
  -- in 64 bits, `compute_amp_factor` gives a coefficient, without a panic, and that is between the
  -- smallest and the largest that the contract admits.
  pub reachable-compute_amp_factor :
      (height : ℕ) (s : State)
      → height < 2 ^ 64
      → IsReachable height s
      → (n : ℕ) × (compute_amp_factor (invariant_of s.config height) ≡ ok n)
        × (min_amp ≤ n)
        × (n ≤ max_amp)
  reachable-compute_amp_factor height s small v =
      compute_amp_factor-bounds height s.config small (reachable-IsRamped height s v)
