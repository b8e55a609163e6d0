-- ===== src/Trio/Messages.antt =====
-- The calls of the pool of three: `receive_cw20`, `update_config` and `collect_protocol_fees` of
-- stableswap_3pool/src/commands.rs, and `execute` of contract.rs.
use migaloo_core.Prelude.{
  ℕ, ◌&&◌, ◌||◌, not, Option, none, some, List, [], ◌∷◌, ltb, ◌==◌, if◌then◌else◌, Result, ok, err,
  ◌>>=◌, ◌>>◌, fail_if,
}
use migaloo_core.Cosmwasm.{
  Cosmwasm, Addr, MessageInfo, CosmosMsg, StdError, checked_add, checked_mul,
}
use migaloo_core.Asset.{Asset, AssetInfo, token, is_native_token}
use migaloo_core.Pair.{
  ContractError, PoolFee, FeatureToggle, Chain, std, unauthorized, operation_disabled, lift,
}
use migaloo_core.Pair.Curve.{or_panic}
use migaloo_core.Pair.Messages.{
  sent_lp_token, is_token_of, collect_messages, reset_fee, or_same, valid_addr, valid_option,
  valid_fees, assert_lp_token,
}
use migaloo_core.Trio.{Config, State}
use migaloo_core.Trio.Amp.{invariant_of, compute_amp_factor}
use migaloo_core.Trio.Liquidity.{query_pools, provide_liquidity, withdraw_liquidity}
use migaloo_core.Trio.Trades.{swap}

abbrev pub min_amp : ℕ
min_amp = 1

abbrev pub max_amp : ℕ
max_amp = 1000000

abbrev pub min_ramp_blocks : ℕ
min_ramp_blocks = 10000

abbrev pub max_amp_change : ℕ
max_amp_change = 10

pub record RampAmp : Type 0 where
  pub future_a : ℕ
  pub future_block : ℕ

pub data Cw20HookMsg : Type 0 where
  swap_hook : AssetInfo → Option ℕ → Option ℕ → Option Addr → Cw20HookMsg
  withdraw_liquidity_hook : Cw20HookMsg

-- The hook is what the JSON of the message decodes to.
pub record Cw20ReceiveMsg : Type 0 where
  pub sender : Addr
  pub amount : ℕ
  pub hook : Result StdError Cw20HookMsg

pub record UpdateConfigMsg : Type 0 where
  pub owner : Option Addr
  pub fee_collector_addr : Option Addr
  pub pool_fees : Option PoolFee
  pub feature_toggle : Option FeatureToggle
  pub amp_factor : Option RampAmp

pub data ExecuteMsg : Type 0 where
  receive_msg : Cw20ReceiveMsg → ExecuteMsg
  provide_liquidity_msg : Asset × Asset × Asset → Option ℕ → Option Addr → ExecuteMsg
  withdraw_liquidity_msg : ExecuteMsg
  swap_msg : Asset → AssetInfo → Option ℕ → Option ℕ → Option Addr → ExecuteMsg
  update_config_msg : UpdateConfigMsg → ExecuteMsg
  collect_protocol_fees_msg : ExecuteMsg

-- The three entries are read by their index, which panics where there are fewer.
unfoldable pub reset_fees : List Asset → Result ContractError (List Asset)
reset_fees (a ∷ b ∷ c ∷ rest) = ok (reset_fee a ∷ reset_fee b ∷ reset_fee c ∷ [])
reset_fees (a ∷ b ∷ []) = err (std StdError.panicked)
reset_fees (a ∷ []) = err (std StdError.panicked)
reset_fees [] = err (std StdError.panicked)

unfoldable pub collect_protocol_fees : State → Result ContractError (State × List CosmosMsg)
collect_protocol_fees s = do
  collected ← reset_fees s.collected_protocol_fees
  ok (
    record s { collected_protocol_fees = collected },
    collect_messages s.config.fee_collector_addr s.collected_protocol_fees,
  )

module _ ⦃cw : Cosmwasm⦄ where
  -- The coefficient may not change by more than a factor; the products panic where they overflow.
  unfoldable pub assert_change : ℕ → ℕ → Result ContractError (Unit {0})
  assert_change future_a current_amp = do
    most ←
        if ltb current_amp future_a
        then or_panic (checked_mul 64 current_amp max_amp_change)
        else ok future_a
    fail_if (ltb current_amp future_a && ltb most future_a) (std StdError.generic_err)
    least ←
        if ltb future_a current_amp
        then or_panic (checked_mul 64 future_a max_amp_change)
        else ok current_amp
    fail_if (ltb future_a current_amp && ltb current_amp least) (std StdError.generic_err)

  unfoldable pub ramp_amp : ℕ → Config → RampAmp → Result ContractError Config
  unfolding assert_change
  ramp_amp height config ramp = do
    current_amp ← compute_amp_factor (invariant_of config height)
    fail_if (ltb ramp.future_a min_amp) (std StdError.generic_err)
    fail_if (ltb max_amp ramp.future_a) (std StdError.generic_err)
    assert_change ramp.future_a current_amp
    earliest ← or_panic (checked_add 64 height min_ramp_blocks)
    fail_if (ltb ramp.future_block earliest) (std StdError.generic_err)
    ok (record config {
      initial_amp = current_amp;
      future_amp = ramp.future_a;
      initial_amp_block = height;
      future_amp_block = ramp.future_block;
    })

  unfoldable pub new_amp : ℕ → Config → Option RampAmp → Result ContractError Config
  unfolding ramp_amp
  new_amp height config none = ok config
  new_amp height config (some ramp) = ramp_amp height config ramp

  unfoldable pub update_config :
      ℕ → State → MessageInfo → UpdateConfigMsg → Result ContractError State
  unfolding new_amp
  update_config height s info msg = do
    sender ← valid_addr info.sender
    fail_if (not (sender == s.config.owner)) (std StdError.generic_err)
    owner ← valid_option msg.owner
    valid_fees msg.pool_fees
    ramped ← new_amp height s.config msg.amp_factor
    collector ← valid_option msg.fee_collector_addr
    let config : Config = record ramped {
      owner = or_same s.config.owner owner;
      fee_collector_addr = or_same s.config.fee_collector_addr collector;
      pool_fees = or_same s.config.pool_fees msg.pool_fees;
      feature_toggle = or_same s.config.feature_toggle msg.feature_toggle;
    }
    ok (record s { config = config })

  -- Only the token of one of the pools may ask for a swap.
  unfoldable pub receive_hook :
      Chain
      → ℕ
      → State
      → MessageInfo
      → Addr
      → ℕ
      → Cw20HookMsg
      → Result ContractError (State × List CosmosMsg)
  receive_hook chain height s info sender amount (swap_hook ask_asset belief_price max_spread to) =
      do
        fail_if (not s.config.feature_toggle.swaps_enabled) operation_disabled
        (pool_0, pool_1, pool_2) ← lift (query_pools chain.balance s.trio_info)
        fail_if
            (not (
              is_token_of info.sender pool_0.info
              || (is_token_of info.sender pool_1.info || is_token_of info.sender pool_2.info)))
            unauthorized
        to_addr ← valid_option to
        swap chain height s info sender (record { info = token info.sender; amount = amount })
            ask_asset belief_price max_spread to_addr
  receive_hook chain height s info sender amount withdraw_liquidity_hook = do
    fail_if (not s.config.feature_toggle.withdrawals_enabled) operation_disabled
    assert_lp_token s.trio_info.liquidity_token info.sender
    sender_addr ← valid_addr sender
    messages ← withdraw_liquidity chain s sender_addr amount
    ok (s, messages)

  unfoldable pub receive_cw20 :
      Chain
      → ℕ
      → State
      → MessageInfo
      → Cw20ReceiveMsg
      → Result ContractError (State × List CosmosMsg)
  unfolding receive_hook
  receive_cw20 chain height s info msg = do
    hook ← lift msg.hook
    receive_hook chain height s info msg.sender msg.amount hook

  unfoldable pub execute :
      Chain → ℕ → State → MessageInfo → ExecuteMsg → Result ContractError (State × List CosmosMsg)
  unfolding receive_cw20 update_config
  execute chain height s info (receive_msg msg) = receive_cw20 chain height s info msg
  execute chain height s info (provide_liquidity_msg assets slippage_tolerance receiver) = do
    messages ← provide_liquidity chain height s info assets slippage_tolerance receiver
    ok (s, messages)
  execute chain height s info withdraw_liquidity_msg = do
    amount ← sent_lp_token s.trio_info.liquidity_token info.funds
    messages ← withdraw_liquidity chain s info.sender amount
    ok (s, messages)
  execute chain height s info (swap_msg offer_asset ask_asset belief_price max_spread to) = do
    fail_if (not s.config.feature_toggle.swaps_enabled) operation_disabled
    fail_if (not (is_native_token offer_asset.info)) unauthorized
    to_addr ← valid_option to
    swap chain height s info info.sender offer_asset ask_asset belief_price max_spread to_addr
  execute chain height s info (update_config_msg msg) = do
    s' ← update_config height s info msg
    ok (s', [])
  execute chain height s info collect_protocol_fees_msg = collect_protocol_fees s
