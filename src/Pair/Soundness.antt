-- ===== src/Pair/Soundness.antt =====
-- What holds of the pair's state in every state that its calls lead to.
use migaloo_core.Prelude.{
  ℕ, ◌≡◌, sym, ap, ◌∙◌, Bool-cases, inl, inr, Option, List, [], ◌∷◌, map, ◌==◌, if◌then◌else◌, ok,
  >>=-elim, ok-injective,
}
use migaloo_core.Cosmwasm.{Cosmwasm, Addr, MessageInfo, CosmosMsg, checked_add}
use migaloo_core.Asset.{Asset, AssetInfo, assert_sent_native_token_balance}
use migaloo_core.Asset.Queries.{get_id, to_normal}
use migaloo_core.Pair.{State, Chain, lift, lift-eq-ok, pool_fee_is_valid}
use migaloo_core.Pair.Reverse.{panic_or}
use migaloo_core.Pair.Swap.{SwapComputation, compute_swap}
use migaloo_core.Pair.Accounts.{store_fee}
use migaloo_core.Pair.Pools.{query_pools}
use migaloo_core.Pair.Limits.{assert_max_spread}
use migaloo_core.Pair.Trades.{swap_pool, choose_sides, gross_of, store_fees, swap}

abbrev pub infos : List Asset → List AssetInfo
infos = map (λ a. a.info)

-- Each of the three fee accounts has an entry for each asset of the pair, in its order, and the pool
-- fees are valid.
pub record HasAccounts ⦃cw : Cosmwasm⦄ (s : State) : Type 0 where
  pub info_0 : AssetInfo
  pub info_1 : AssetInfo
  pub to_normal_0 : to_normal s.pair_info.asset_infos.0 ≡ ok info_0
  pub to_normal_1 : to_normal s.pair_info.asset_infos.1 ≡ ok info_1
  pub collected : infos s.collected_protocol_fees ≡ info_0 ∷ info_1 ∷ []
  pub all_time_collected : infos s.all_time_collected_protocol_fees ≡ info_0 ∷ info_1 ∷ []
  pub all_time_burned : infos s.all_time_burned_fees ≡ info_0 ∷ info_1 ∷ []
  pub fees : pool_fee_is_valid s.config.pool_fees ≡ ok tt

module _ ⦃cw : Cosmwasm⦄ where
  store_fee-infos :
      (n id : ℕ) (xs ys : List Asset) → store_fee n id xs ≡ ok ys → infos ys ≡ infos xs
  unfolding store_fee
  store_fee-infos n id [] ys h = ap infos (sym (ok-injective h))
  store_fee-infos n id (x ∷ xs) ys h = >>=-elim (store_fee n id xs) h (λ rest e h1.
      let kept = store_fee-infos n id xs rest e in
      elim (Bool-cases (get_id x.info == id)) [
        | inl same ↦
            >>=-elim (panic_or (checked_add 128 x.amount n)) (rw same at h1)
              (λ m _ h2. ap infos (sym (ok-injective h2)) ∙ ap (λ t. x.info ∷ t) kept)
        | inr differs ↦ ap infos (sym (ok-injective (rw differs at h1))) ∙ ap (λ t. x.info ∷ t) kept
      ])

  -- What booking fees changes: no entry's asset, and neither the pair's data nor its configuration.
  store_fees_lem :
      (s : State) (ask : AssetInfo) (c : SwapComputation) (s' : State)
      → store_fees s ask c ≡ ok s'
      → (s'.pair_info ≡ s.pair_info)
        × (s'.config ≡ s.config)
        × (infos s'.collected_protocol_fees ≡ infos s.collected_protocol_fees)
        × (infos s'.all_time_collected_protocol_fees ≡ infos s.all_time_collected_protocol_fees)
        × (infos s'.all_time_burned_fees ≡ infos s.all_time_burned_fees)
  unfolding store_fees
  store_fees_lem s ask c s' h =
      let burned = lift (store_fee c.burn_fee_amount (get_id ask) s.all_time_burned_fees) in
      >>=-elim (if c.burn_fee_amount == 0 then ok s.all_time_burned_fees else burned) h (λ b e1 h1.
        >>=-elim (lift (store_fee c.protocol_fee_amount (get_id ask) s.collected_protocol_fees)) h1
          (λ p e2 h2.
            >>=-elim
              (lift
                (store_fee c.protocol_fee_amount (get_id ask) s.all_time_collected_protocol_fees))
              h2
              (λ a e3 h3.
                let same = ok-injective h3 in
                let burned_kept : infos b ≡ infos s.all_time_burned_fees =
                  elim (Bool-cases (c.burn_fee_amount == 0)) [
                    | inl nothing ↦ ap infos (sym (ok-injective (rw nothing at e1)))
                    | inr something ↦
                        store_fee-infos c.burn_fee_amount (get_id ask) s.all_time_burned_fees b (
                          lift-eq-ok
                            (store_fee c.burn_fee_amount (get_id ask) s.all_time_burned_fees)
                            (rw something at e1))
                  ] in
                (
                  ap (λ t. t.pair_info) (sym same),
                  ap (λ t. t.config) (sym same),
                  ap (λ t. infos t.collected_protocol_fees) (sym same)
                      ∙ store_fee-infos c.protocol_fee_amount (get_id ask) s.collected_protocol_fees
                          p
                          (lift-eq-ok
                            (store_fee c.protocol_fee_amount (get_id ask) s.collected_protocol_fees)
                            e2),
                  ap (λ t. infos t.all_time_collected_protocol_fees) (sym same)
                      ∙ store_fee-infos c.protocol_fee_amount (get_id ask)
                          s.all_time_collected_protocol_fees a
                          (lift-eq-ok
                            (store_fee c.protocol_fee_amount (get_id ask)
                              s.all_time_collected_protocol_fees)
                            e3),
                  ap (λ t. infos t.all_time_burned_fees) (sym same) ∙ burned_kept,
                ))))

  store_fees-HasAccounts :
      (s : State) (ask : AssetInfo) (c : SwapComputation) (s' : State)
      → HasAccounts s
      → store_fees s ask c ≡ ok s'
      → HasAccounts s'
  store_fees-HasAccounts s ask c s' v h =
      let (info, config, collected, all_time, burned) = store_fees_lem s ask c s' h in
      record {
        info_0 = v.info_0;
        info_1 = v.info_1;
        to_normal_0 = rw info v.to_normal_0;
        to_normal_1 = rw info v.to_normal_1;
        collected = collected ∙ v.collected;
        all_time_collected = all_time ∙ v.all_time_collected;
        all_time_burned = burned ∙ v.all_time_burned;
        fees = rw config v.fees;
      }

  pub swap-HasAccounts :
      (chain : Chain) (s : State) (info : MessageInfo) (sender : Addr) (offer : Asset)
      (belief max : Option ℕ) (to : Option Addr) (r : State × List CosmosMsg)
      → HasAccounts s
      → swap chain s info sender offer belief max to ≡ ok r
      → HasAccounts r.0
  unfolding swap
  swap-HasAccounts chain s info sender offer belief max to r v h =
      >>=-elim (lift (assert_sent_native_token_balance offer info)) h (λ _ _ h1.
        >>=-elim (lift (query_pools chain.balance s.pair_info)) h1 (λ pools _ h2.
          >>=-elim (swap_pool s.collected_protocol_fees offer pools.0) h2 (λ p _ h3.
            >>=-elim (swap_pool s.collected_protocol_fees offer pools.1) h3 (λ q _ h4.
              >>=-elim (choose_sides offer.info p q s.pair_info.asset_decimals) h4 (λ sides _ h5.
                >>=-elim
                  (compute_swap sides.offer_pool.amount sides.ask_pool.amount offer.amount
                    s.config.pool_fees s.pair_info.pair_type sides.offer_decimal sides.ask_decimal)
                  h5
                  (λ c _ h6. >>=-elim (gross_of c) h6 (λ gross _ h7.
                    >>=-elim
                      (lift (assert_max_spread belief max offer.amount gross c.spread_amount)) h7
                      (λ _ _ h8. >>=-elim (store_fees s sides.ask_pool.info c) h8 (λ s' e h9.
                        rw (← ok-injective h9)
                          (store_fees-HasAccounts s sides.ask_pool.info c s' v e))))))))))
