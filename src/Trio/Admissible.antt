-- ===== src/Trio/Admissible.antt =====
-- Every message keeps the ends of the ramp admissible coefficients.
use migaloo_core.Prelude.{
  ℕ, ◌≤◌, ◌<◌, ◌^◌, ◌≡◌, sym, ap, arith, not, Option, none, some, List, ltb, ◌==◌, ◌||◌,
  if◌then◌else◌, ok, >>=-elim, ok-injective, fail_if,
}
use migaloo_core.Cosmwasm.{Cosmwasm, Addr, MessageInfo, CosmosMsg, StdError, checked_add}
use migaloo_core.Asset.{Asset, AssetInfo, token, is_native_token, assert_sent_native_token_balance}
use migaloo_core.Asset.Queries.{get_id}
use migaloo_core.Pair.{Chain, lift, std, operation_disabled, unauthorized}
use migaloo_core.Pair.Curve.{or_panic}
use migaloo_core.Pair.Limits.{assert_max_spread}
use migaloo_core.Pair.Accounts.{store_fee}
use migaloo_core.Pair.Swap.{SwapComputation}
use migaloo_core.Pair.Trades.{swap_pool, gross_of}
use migaloo_core.Pair.Messages.{
  sent_lp_token, is_token_of, valid_addr, valid_option, valid_fees, assert_lp_token,
}
use migaloo_core.Trio.{Config, State}
use migaloo_core.Trio.Amp.{invariant_of, compute_amp_factor}
use migaloo_core.Trio.Swap.{compute_swap}
use migaloo_core.Trio.Liquidity.{query_pools, provide_liquidity, withdraw_liquidity}
use migaloo_core.Trio.Trades.{choose_roles, store_fees, swap}
use migaloo_core.Trio.Messages.{
  min_amp, max_amp, RampAmp, Cw20HookMsg, swap_hook, withdraw_liquidity_hook, UpdateConfigMsg,
  ExecuteMsg, receive_msg, provide_liquidity_msg, withdraw_liquidity_msg, swap_msg,
  update_config_msg, collect_protocol_fees_msg, reset_fees, collect_protocol_fees, assert_change,
  ramp_amp, new_amp, min_ramp_blocks, update_config, receive_hook, receive_cw20, execute,
}
use migaloo_core.Trio.Ramp.{compute_amp_factor-IsBetween}

-- Both ends of the ramp are admissible coefficients, and it has started by a block height.
pub record IsRamped (height : ℕ) (config : Config) : Type 0 where
  pub initial_least : min_amp ≤ config.initial_amp
  pub initial_most : config.initial_amp ≤ max_amp
  pub future_least : min_amp ≤ config.future_amp
  pub future_most : config.future_amp ≤ max_amp
  pub started : config.initial_amp_block ≤ height

-- What a ramp is made of.
abbrev pub ramp_of : Config → ℕ × ℕ × ℕ
ramp_of config = (config.initial_amp, config.future_amp, config.initial_amp_block)

pub IsRamped-same :
    (height : ℕ) (old new : Config)
    → ramp_of new ≡ ramp_of old
    → IsRamped height old
    → IsRamped height new
IsRamped-same height old new same v =
    let initial = ap (λ (t : ℕ × ℕ × ℕ). t.0) same in
    let future = ap (λ (t : ℕ × ℕ × ℕ). t.1) same in
    let block = ap (λ (t : ℕ × ℕ × ℕ). t.2) same in
    record {
      initial_least = rw initial v.initial_least;
      initial_most = rw initial v.initial_most;
      future_least = rw future v.future_least;
      future_most = rw future v.future_most;
      started = rw block v.started;
    }

pub IsRamped-later :
    (height later : ℕ) (config : Config)
    → height ≤ later
    → IsRamped height config
    → IsRamped later config
IsRamped-later height later config le v =
    let first = v.started in
    record {
      initial_least = v.initial_least;
      initial_most = v.initial_most;
      future_least = v.future_least;
      future_most = v.future_most;
      started = omega arith;
    }

module _ ⦃cw : Cosmwasm⦄ where
  pub compute_amp_factor-bounds :
      (height : ℕ) (config : Config)
      → height < 2 ^ 64
      → IsRamped height config
      → (n : ℕ) × (compute_amp_factor (invariant_of config height) ≡ ok n)
        × (min_amp ≤ n)
        × (n ≤ max_amp)
  unfolding invariant_of
  compute_amp_factor-bounds height config small v =
      let a = v.initial_least in
      let b = v.initial_most in
      let c = v.future_least in
      let d = v.future_most in
      let e = v.started in
      let (n, found, (low, high), _) =
        compute_amp_factor-IsBetween (invariant_of config height)
          (omega arith, omega arith, small, e) in
      (n, found, omega arith, omega arith)

  ramp_amp-IsRamped :
      (height : ℕ) (config : Config) (ramp : RampAmp) (config' : Config)
      → height < 2 ^ 64
      → IsRamped height config
      → ramp_amp height config ramp ≡ ok config'
      → IsRamped height config'
  unfolding ramp_amp
  ramp_amp-IsRamped height config ramp config' small v h =
      let (n, found, low, high) = compute_amp_factor-bounds height config small v in
      >>=-elim (fail_if (ltb ramp.future_a min_amp) (std StdError.generic_err)) (rw found at h)
        (λ _ e1 h1.
          >>=-elim (fail_if (ltb max_amp ramp.future_a) (std StdError.generic_err)) h1 (λ _ e2 h2.
            >>=-elim (assert_change ramp.future_a n) h2 (λ _ _ h3.
              >>=-elim (or_panic (checked_add 64 height min_ramp_blocks)) h3 (λ earliest _ h4.
                >>=-elim (fail_if (ltb ramp.future_block earliest) (std StdError.generic_err)) h4
                  (λ _ _ h5. rw (← ok-injective h5) (record {
                    initial_least = low;
                    initial_most = high;
                    future_least = ground arith;
                    future_most = ground arith;
                    started = omega arith;
                  }))))))

  new_amp-IsRamped :
      (height : ℕ) (config : Config) (ramp : Option RampAmp) (config' : Config)
      → height < 2 ^ 64
      → IsRamped height config
      → new_amp height config ramp ≡ ok config'
      → IsRamped height config'
  unfolding new_amp
  new_amp-IsRamped height config none config' small v h = rw (← ok-injective h) v
  new_amp-IsRamped height config (some ramp) config' small v h =
      ramp_amp-IsRamped height config ramp config' small v h

  update_config-IsRamped :
      (height : ℕ) (s : State) (info : MessageInfo) (msg : UpdateConfigMsg) (s' : State)
      → height < 2 ^ 64
      → IsRamped height s.config
      → update_config height s info msg ≡ ok s'
      → IsRamped height s'.config
  unfolding update_config
  update_config-IsRamped height s info msg s' small v h =
      >>=-elim (valid_addr info.sender) h (λ sender _ h1.
        >>=-elim (fail_if (not (sender == s.config.owner)) (std StdError.generic_err)) h1 (λ _ _ h2.
          >>=-elim (valid_option msg.owner) h2 (λ owner _ h3.
            >>=-elim (valid_fees msg.pool_fees) h3 (λ _ _ h4.
              >>=-elim (new_amp height s.config msg.amp_factor) h4 (λ ramped e h5.
                >>=-elim (valid_option msg.fee_collector_addr) h5 (λ collector _ h6.
                  IsRamped-same height ramped s'.config
                    (ap (λ t. ramp_of t.config) (sym (ok-injective h6)))
                    (new_amp-IsRamped height s.config msg.amp_factor ramped small v e)))))))

  store_fees-config :
      (s : State) (ask : AssetInfo) (c : SwapComputation) (s' : State)
      → store_fees s ask c ≡ ok s'
      → s'.config ≡ s.config
  unfolding store_fees
  store_fees-config s ask c s' h =
      let burned = lift (store_fee c.burn_fee_amount (get_id ask) s.all_time_burned_fees) in
      >>=-elim (if c.burn_fee_amount == 0 then ok s.all_time_burned_fees else burned) h (λ _ _ h1.
        >>=-elim (lift (store_fee c.protocol_fee_amount (get_id ask) s.collected_protocol_fees)) h1
          (λ _ _ h2.
            >>=-elim
              (lift
                (store_fee c.protocol_fee_amount (get_id ask) s.all_time_collected_protocol_fees))
              h2 (λ _ _ h3. ap (λ t. t.config) (sym (ok-injective h3)))))

  swap-config :
      (chain : Chain) (height : ℕ) (s : State) (info : MessageInfo) (sender : Addr) (offer : Asset)
      (ask : AssetInfo) (belief max_spread : Option ℕ) (to : Option Addr)
      (r : State × List CosmosMsg)
      → swap chain height s info sender offer ask belief max_spread to ≡ ok r
      → r.0.config ≡ s.config
  unfolding swap
  swap-config chain height s info sender offer ask belief max_spread to r h =
      >>=-elim (lift (assert_sent_native_token_balance offer info)) h (λ _ _ h1.
        >>=-elim (lift (query_pools chain.balance s.trio_info)) h1 (λ pools _ h2.
          >>=-elim (swap_pool s.collected_protocol_fees offer pools.0) h2 (λ p _ h3.
            >>=-elim (swap_pool s.collected_protocol_fees offer pools.1) h3 (λ q _ h4.
              >>=-elim (swap_pool s.collected_protocol_fees offer pools.2) h4 (λ t _ h5.
                >>=-elim (choose_roles ask offer.info p q t) h5 (λ roles _ h6.
                  >>=-elim
                    (compute_swap roles.offer_pool.amount roles.ask_pool.amount
                      roles.unswapped_pool.amount offer.amount s.config.pool_fees
                      (invariant_of s.config height))
                    h6
                    (λ c _ h7. >>=-elim (gross_of c) h7 (λ gross _ h8.
                      >>=-elim
                        (lift
                          (assert_max_spread belief max_spread offer.amount gross c.spread_amount))
                        h8
                        (λ _ _ h9. >>=-elim (store_fees s roles.ask_pool.info c) h9 (λ s' e h10.
                          rw (← ok-injective h10)
                            (store_fees-config s roles.ask_pool.info c s' e)))))))))))

  receive_hook-config :
      (chain : Chain) (height : ℕ) (s : State) (info : MessageInfo) (sender : Addr) (amount : ℕ)
      (hook : Cw20HookMsg) (r : State × List CosmosMsg)
      → receive_hook chain height s info sender amount hook ≡ ok r
      → r.0.config ≡ s.config
  unfolding receive_hook
  receive_hook-config chain height s info sender amount (swap_hook ask belief max_spread to) r h =
      >>=-elim (fail_if (not s.config.feature_toggle.swaps_enabled) operation_disabled) h (λ _ _ h1.
        >>=-elim (lift (query_pools chain.balance s.trio_info)) h1 (λ pools _ h2.
          >>=-elim
            (fail_if
              (not (
                is_token_of info.sender pools.0.info
                || (is_token_of info.sender pools.1.info || is_token_of info.sender pools.2.info)))
              unauthorized)
            h2
            (λ _ _ h3. >>=-elim (valid_option to) h3 (λ to_addr _ h4.
              swap-config chain height s info sender
                (record { info = token info.sender; amount = amount }) ask belief max_spread to_addr
                r h4))))
  receive_hook-config chain height s info sender amount withdraw_liquidity_hook r h =
      >>=-elim (fail_if (not s.config.feature_toggle.withdrawals_enabled) operation_disabled) h
        (λ _ _ h1. >>=-elim (assert_lp_token s.trio_info.liquidity_token info.sender) h1 (λ _ _ h2.
          >>=-elim (valid_addr sender) h2 (λ a _ h3.
            >>=-elim (withdraw_liquidity chain s a amount) h3
              (λ messages _ h4. ap (λ t. t.0.config) (sym (ok-injective h4))))))

  pub execute-IsRamped :
      (chain : Chain) (height : ℕ) (s : State) (info : MessageInfo) (msg : ExecuteMsg)
      (r : State × List CosmosMsg)
      → height < 2 ^ 64
      → IsRamped height s.config
      → execute chain height s info msg ≡ ok r
      → IsRamped height r.0.config
  unfolding execute receive_cw20 collect_protocol_fees
  execute-IsRamped chain height s info (receive_msg msg) r small v h =
      >>=-elim (lift msg.hook) h (λ hook _ h1.
        rw (receive_hook-config chain height s info msg.sender msg.amount hook r h1) v)
  execute-IsRamped chain height s info (provide_liquidity_msg assets slippage receiver) r small v
        h =
      >>=-elim (provide_liquidity chain height s info assets slippage receiver) h
        (λ messages _ h1. rw (← ok-injective h1) v)
  execute-IsRamped chain height s info withdraw_liquidity_msg r small v h =
      >>=-elim (sent_lp_token s.trio_info.liquidity_token info.funds) h (λ amount _ h1.
        >>=-elim (withdraw_liquidity chain s info.sender amount) h1
          (λ messages _ h2. rw (← ok-injective h2) v))
  execute-IsRamped chain height s info (swap_msg offer ask belief max_spread to) r small v h =
      >>=-elim (fail_if (not s.config.feature_toggle.swaps_enabled) operation_disabled) h (λ _ _ h1.
        >>=-elim (fail_if (not (is_native_token offer.info)) unauthorized) h1 (λ _ _ h2.
          >>=-elim (valid_option to) h2 (λ to_addr _ h3.
            rw
              (swap-config chain height s info info.sender offer ask belief max_spread to_addr r h3)
              v)))
  execute-IsRamped chain height s info (update_config_msg msg) r small v h =
      >>=-elim (update_config height s info msg) h
        (λ s' e h1. rw (← ok-injective h1) (update_config-IsRamped height s info msg s' small v e))
  execute-IsRamped chain height s info collect_protocol_fees_msg r small v h =
      >>=-elim (reset_fees s.collected_protocol_fees) h (λ xs _ h1. rw (← ok-injective h1) v)
