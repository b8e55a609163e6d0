-- ===== src/Pair/Reachable.antt =====
-- Every call keeps the pair's accounts, so every state that calls lead to has them.
use migaloo_core.Prelude.{
  ℕ, ◌≡◌, refl, sym, ap, ◌∙◌, not, Option, none, some, List, [], ◌∷◌, ◌||◌, ◌==◌, Result, ok,
  >>=-elim, ok-injective, ok_or, fail_if,
}
use migaloo_core.Cosmwasm.{Cosmwasm, Addr, MessageInfo, CosmosMsg, StdError, addr_canonicalize}
use migaloo_core.Uint.{Uint}
use migaloo_core.Asset.{Asset, AssetInfo, is_native_token, token}
use migaloo_core.Asset.Queries.{to_raw, to_normal}
use migaloo_core.Pair.{
  PoolFee, State, Chain, lift, lift-eq-ok, std, operation_disabled, unauthorized, pool_fee_is_valid,
}
use migaloo_core.Pair.Pools.{query_pools}
use migaloo_core.Pair.Liquidity.{provide_liquidity, withdraw_liquidity}
use migaloo_core.Pair.Messages.{
  Cw20HookMsg, swap_hook, withdraw_liquidity_hook, UpdateConfigMsg, ExecuteMsg, receive_msg,
  provide_liquidity_msg, withdraw_liquidity_msg, swap_msg, update_config_msg,
  collect_protocol_fees_msg, sent_lp_token, is_token_of, reset_fees, collect_protocol_fees, or_same,
  valid_addr, valid_option, valid_fees, update_config, assert_lp_token, receive_hook, receive_cw20,
  execute,
}
use migaloo_core.Pair.Creation.{InstantiateMsg, create_lp_token, instantiate, reply}
use migaloo_core.Pair.Soundness.{infos, HasAccounts, swap-HasAccounts}
use migaloo_core.Pair.Accounts.{instantiate_fees}

module _ ⦃cw : Cosmwasm⦄ where
  reset_fees-infos :
      (xs ys : List Asset) (i j : AssetInfo)
      → infos xs ≡ i ∷ j ∷ []
      → reset_fees xs ≡ ok ys
      → infos ys ≡ i ∷ j ∷ []
  unfolding reset_fees
  reset_fees-infos [] ys i j two h = cc
  reset_fees-infos (a ∷ []) ys i j two h = cc
  reset_fees-infos (a ∷ b ∷ []) ys i j two h = ap infos (sym (ok-injective h)) ∙ two
  reset_fees-infos (a ∷ b ∷ c ∷ xs) ys i j two h = cc

  collect_protocol_fees-HasAccounts :
      (s : State) (r : State × List CosmosMsg)
      → HasAccounts s
      → collect_protocol_fees s ≡ ok r
      → HasAccounts r.0
  unfolding collect_protocol_fees
  collect_protocol_fees-HasAccounts s r v h =
      >>=-elim (reset_fees s.collected_protocol_fees) h (λ xs e h1. rw (← ok-injective h1) (record {
        info_0 = v.info_0;
        info_1 = v.info_1;
        to_normal_0 = v.to_normal_0;
        to_normal_1 = v.to_normal_1;
        collected = reset_fees-infos s.collected_protocol_fees xs v.info_0 v.info_1 v.collected e;
        all_time_collected = v.all_time_collected;
        all_time_burned = v.all_time_burned;
        fees = v.fees;
      }))

  new_fees_valid :
      (old : PoolFee) (new : Option PoolFee)
      → pool_fee_is_valid old ≡ ok tt
      → valid_fees new ≡ ok tt
      → pool_fee_is_valid (or_same old new) ≡ ok tt
  new_fees_valid old none v h = v
  new_fees_valid old (some fees) v h = lift-eq-ok (pool_fee_is_valid fees) h

  update_config-HasAccounts :
      (s : State) (info : MessageInfo) (msg : UpdateConfigMsg) (s' : State)
      → HasAccounts s
      → update_config s info msg ≡ ok s'
      → HasAccounts s'
  unfolding update_config
  update_config-HasAccounts s info msg s' v h = >>=-elim (valid_addr info.sender) h (λ sender _ h1.
      >>=-elim (fail_if (not (sender == s.config.owner)) (std StdError.generic_err)) h1 (λ _ _ h2.
        >>=-elim (valid_option msg.owner) h2 (λ owner _ h3.
          >>=-elim (valid_fees msg.pool_fees) h3 (λ u e h4.
            >>=-elim (valid_option msg.fee_collector_addr) h4 (λ collector _ h5.
              rw (← ok-injective h5) (record {
                info_0 = v.info_0;
                info_1 = v.info_1;
                to_normal_0 = v.to_normal_0;
                to_normal_1 = v.to_normal_1;
                collected = v.collected;
                all_time_collected = v.all_time_collected;
                all_time_burned = v.all_time_burned;
                fees = new_fees_valid s.config.pool_fees msg.pool_fees v.fees e;
              }))))))

  receive_hook-HasAccounts :
      (chain : Chain) (s : State) (info : MessageInfo) (sender : Addr) (amount : ℕ)
      (hook : Cw20HookMsg) (r : State × List CosmosMsg)
      → HasAccounts s
      → receive_hook chain s info sender amount hook ≡ ok r
      → HasAccounts r.0
  unfolding receive_hook
  receive_hook-HasAccounts chain s info sender amount (swap_hook belief max to) r v h =
      >>=-elim (fail_if (not s.config.feature_toggle.swaps_enabled) operation_disabled) h (λ _ _ h1.
        >>=-elim (lift (query_pools chain.balance s.pair_info)) h1 (λ pools _ h2.
          >>=-elim
            (fail_if
              (not (is_token_of info.sender pools.0.info || is_token_of info.sender pools.1.info))
              unauthorized)
            h2
            (λ _ _ h3. >>=-elim (valid_option to) h3 (λ to_addr _ h4.
              swap-HasAccounts chain s info sender
                (record { info = token info.sender; amount = amount }) belief max to_addr r v h4))))
  receive_hook-HasAccounts chain s info sender amount withdraw_liquidity_hook r v h =
      >>=-elim (fail_if (not s.config.feature_toggle.withdrawals_enabled) operation_disabled) h
        (λ _ _ h1. >>=-elim (assert_lp_token s.pair_info.liquidity_token info.sender) h1 (λ _ _ h2.
          >>=-elim (valid_addr sender) h2 (λ a _ h3.
            >>=-elim (withdraw_liquidity chain s a amount) h3
              (λ messages _ h4. rw (← ok-injective h4) v))))

module _ ⦃cw : Cosmwasm⦄ ⦃uint : Uint⦄ where
  execute-HasAccounts :
      (chain : Chain) (s : State) (info : MessageInfo) (msg : ExecuteMsg)
      (r : State × List CosmosMsg)
      → HasAccounts s
      → execute chain s info msg ≡ ok r
      → HasAccounts r.0
  unfolding execute receive_cw20
  execute-HasAccounts chain s info (receive_msg msg) r v h =
      >>=-elim (lift msg.hook) h
        (λ hook _ h1. receive_hook-HasAccounts chain s info msg.sender msg.amount hook r v h1)
  execute-HasAccounts chain s info (provide_liquidity_msg assets slippage receiver) r v h =
      >>=-elim (provide_liquidity chain s info assets slippage receiver) h
        (λ messages _ h1. rw (← ok-injective h1) v)
  execute-HasAccounts chain s info withdraw_liquidity_msg r v h =
      >>=-elim (sent_lp_token s.pair_info.liquidity_token info.funds) h (λ amount _ h1.
        >>=-elim (withdraw_liquidity chain s info.sender amount) h1
          (λ messages _ h2. rw (← ok-injective h2) v))
  execute-HasAccounts chain s info (swap_msg offer belief max to) r v h =
      >>=-elim (fail_if (not s.config.feature_toggle.swaps_enabled) operation_disabled) h (λ _ _ h1.
        >>=-elim (fail_if (not (is_native_token offer.info)) unauthorized) h1 (λ _ _ h2.
          >>=-elim (valid_option to) h2 (λ to_addr _ h3.
            swap-HasAccounts chain s info info.sender offer belief max to_addr r v h3)))
  execute-HasAccounts chain s info (update_config_msg msg) r v h =
      >>=-elim (update_config s info msg) h
        (λ s' e h1. rw (← ok-injective h1) (update_config-HasAccounts s info msg s' v e))
  execute-HasAccounts chain s info collect_protocol_fees_msg r v h =
      collect_protocol_fees-HasAccounts s r v h

  instantiate-HasAccounts :
      (chain : Chain) (sender : Addr) (msg : InstantiateMsg) (r : State × ℕ)
      → instantiate chain sender msg ≡ ok r
      → HasAccounts r.0
  unfolding instantiate instantiate_fees
  instantiate-HasAccounts chain sender msg r h =
      >>=-elim (ok_or (addr_canonicalize chain.contract_address) (std StdError.generic_err)) h
        (λ self _ h1. >>=-elim (lift (to_raw msg.asset_infos.0)) h1 (λ raw_0 _ h2.
          >>=-elim (lift (to_raw msg.asset_infos.1)) h2 (λ raw_1 _ h3.
            >>=-elim (lift (to_normal raw_0)) h3 (λ i e4 h4.
              >>=-elim (lift (to_normal raw_1)) h4 (λ j e5 h5.
                >>=-elim (lift (chain.get_label i)) h5 (λ _ _ h6.
                  >>=-elim (lift (chain.get_label j)) h6 (λ _ _ h7.
                    >>=-elim (lift (pool_fee_is_valid msg.pool_fees)) h7 (λ u e8 h8.
                      >>=-elim (valid_addr sender) h8 (λ owner _ h9.
                        >>=-elim (valid_addr msg.fee_collector_addr) h9 (λ collector _ h10.
                          >>=-elim (create_lp_token msg) h10 (λ code_id _ h11.
                            rw (← ok-injective h11) (record {
                              info_0 = i;
                              info_1 = j;
                              to_normal_0 = lift-eq-ok (to_normal raw_0) e4;
                              to_normal_1 = lift-eq-ok (to_normal raw_1) e5;
                              collected = refl;
                              all_time_collected = refl;
                              all_time_burned = refl;
                              fees = lift-eq-ok (pool_fee_is_valid msg.pool_fees) e8;
                            }))))))))))))

  reply-HasAccounts :
      (s : State) (answer : Result StdError Addr) (s' : State)
      → HasAccounts s
      → reply s answer ≡ ok s'
      → HasAccounts s'
  unfolding reply
  reply-HasAccounts s answer s' v h = >>=-elim answer h (λ a _ h1.
      >>=-elim (ok_or (addr_canonicalize a) StdError.generic_err) h1 (λ c _ h2.
        rw (← ok-injective h2) (record {
          info_0 = v.info_0;
          info_1 = v.info_1;
          to_normal_0 = v.to_normal_0;
          to_normal_1 = v.to_normal_1;
          collected = v.collected;
          all_time_collected = v.all_time_collected;
          all_time_burned = v.all_time_burned;
          fees = v.fees;
        })))

  -- The states that successful calls lead to, whatever the chain answers each time.
  pub data IsReachable : State → Type 0 where
    created :
        (chain : Chain) (sender : Addr) (msg : InstantiateMsg) (r : State × ℕ)
        → instantiate chain sender msg ≡ ok r
        → IsReachable r.0
    replied :
        (s : State) (answer : Result StdError Addr) (s' : State)
        → IsReachable s
        → reply s answer ≡ ok s'
        → IsReachable s'
    executed :
        (s : State) (chain : Chain) (info : MessageInfo) (msg : ExecuteMsg)
        (r : State × List CosmosMsg)
        → IsReachable s
        → execute chain s info msg ≡ ok r
        → IsReachable r.0

  -- In every state that an instantiation and any calls lead to, whatever the chain answers in between,
  -- the pool fees are valid and each of the three fee accounts has one entry for each asset of the pair
  -- and no other, in the pair's order.
  pub reachable-HasAccounts : (s : State) → IsReachable s → HasAccounts s
  reachable-HasAccounts s (created chain sender msg r h) =
      instantiate-HasAccounts chain sender msg r h
  reachable-HasAccounts s (replied s0 answer s' v h) =
      reply-HasAccounts s0 answer s' (reachable-HasAccounts s0 v) h
  reachable-HasAccounts s (executed s0 chain info msg r v h) =
      execute-HasAccounts chain s0 info msg r (reachable-HasAccounts s0 v) h
