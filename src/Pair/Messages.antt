-- ===== src/Pair/Messages.antt =====
-- The calls of the pair: `receive_cw20`, `update_config` and `collect_protocol_fees` of
-- terraswap_pair/src/commands.rs, and `execute` of contract.rs.
use migaloo_core.Prelude.{
  ℕ, Bool, false, not, Option, none, some, List, [], ◌∷◌, ltb, ◌==◌, ◌||◌, if◌then◌else◌, Result,
  ok, err, ◌>>=◌, ◌>>◌, fail_if, ok_or,
}
use migaloo_core.Cosmwasm.{
  Cosmwasm, Addr, Denom, Coin, MessageInfo, CosmosMsg, StdError, addr_validate, addr_canonicalize,
}
use migaloo_core.Uint.{Uint}
use migaloo_core.Asset.{Asset, AssetInfo, token, native_token, is_native_token, into_msg}
use migaloo_core.Asset.Queries.{AssetInfoRaw, raw_token, raw_native_token}
use migaloo_core.Pair.{
  ContractError, PoolFee, FeatureToggle, Config, State, Chain, std, unauthorized, asset_mismatch,
  operation_disabled, lift, pool_fee_is_valid,
}
use migaloo_core.Pair.Pools.{query_pools}
use migaloo_core.Pair.Liquidity.{provide_liquidity, withdraw_liquidity}
use migaloo_core.Pair.Trades.{swap}

pub data Cw20HookMsg : Type 0 where
  swap_hook : Option ℕ → Option ℕ → Option Addr → Cw20HookMsg
  withdraw_liquidity_hook : Cw20HookMsg

-- The hook is what the JSON of the message decodes to.
pub record Cw20ReceiveMsg : Type 0 where
  pub sender : Addr
  pub amount : ℕ
  pub hook : Result StdError Cw20HookMsg

pub record UpdateConfigMsg : Type 0 where
  pub owner : Option Addr
  pub fee_collector_addr : Option Addr
  pub pool_fees : Option PoolFee
  pub feature_toggle : Option FeatureToggle

pub data ExecuteMsg : Type 0 where
  receive_msg : Cw20ReceiveMsg → ExecuteMsg
  provide_liquidity_msg : Asset × Asset → Option ℕ → Option Addr → ExecuteMsg
  withdraw_liquidity_msg : ExecuteMsg
  swap_msg : Asset → Option ℕ → Option ℕ → Option Addr → ExecuteMsg
  update_config_msg : UpdateConfigMsg → ExecuteMsg
  collect_protocol_fees_msg : ExecuteMsg

abbrev pub minimum_collectable_balance : ℕ
minimum_collectable_balance = 1000

-- The number that stands for the empty text, which is no coin's denom.
abbrev pub no_denom : Denom
no_denom = 0

abbrev pub lp_token_denom : AssetInfoRaw → Denom
lp_token_denom (raw_token contract_addr) = no_denom
lp_token_denom (raw_native_token denom) = denom

-- The amount of the one coin that was sent, which must be the LP token.
unfoldable pub sent_lp_token : AssetInfoRaw → List Coin → Result ContractError ℕ
sent_lp_token liquidity_token [] = err asset_mismatch
sent_lp_token liquidity_token (c ∷ []) =
    if c.denom == lp_token_denom liquidity_token then ok c.amount else err asset_mismatch
sent_lp_token liquidity_token (c ∷ d ∷ funds) = err asset_mismatch

-- Whether an asset is the token of an address.
abbrev pub is_token_of : Addr → AssetInfo → Bool
is_token_of sender (token contract_addr) = contract_addr == sender
is_token_of sender (native_token denom) = false

-- Fees above the minimum are sent.
unfoldable pub collect_messages : Addr → List Asset → List CosmosMsg
collect_messages collector [] = []
collect_messages collector (x ∷ xs) =
    let rest = collect_messages collector xs in
    if ltb minimum_collectable_balance x.amount then into_msg x collector ∷ rest else rest

abbrev pub reset_fee : Asset → Asset
reset_fee a = record a { amount = 0 }

-- The two entries are read by their index, which panics where there are fewer.
unfoldable pub reset_fees : List Asset → Result ContractError (List Asset)
reset_fees (a ∷ b ∷ rest) = ok (reset_fee a ∷ reset_fee b ∷ [])
reset_fees (a ∷ []) = err (std StdError.panicked)
reset_fees [] = err (std StdError.panicked)

unfoldable pub collect_protocol_fees : State → Result ContractError (State × List CosmosMsg)
collect_protocol_fees s = do
  collected ← reset_fees s.collected_protocol_fees
  ok (
    record s { collected_protocol_fees = collected },
    collect_messages s.config.fee_collector_addr s.collected_protocol_fees,
  )

-- What a field is after an update that may leave it.
abbrev pub or_same {ℓ} : {A : Type ℓ} → A → Option A → A
or_same old none = old
or_same old (some new) = new

module _ ⦃cw : Cosmwasm⦄ where
  abbrev pub valid_addr : Addr → Result ContractError Addr
  valid_addr a = ok_or (addr_validate a) (std StdError.generic_err)

  abbrev pub valid_option : Option Addr → Result ContractError (Option Addr)
  valid_option none = ok none
  valid_option (some a) = do valid ← valid_addr a; ok (some valid)

  abbrev pub valid_fees : Option PoolFee → Result ContractError (Unit {0})
  valid_fees none = ok tt
  valid_fees (some fees) = lift (pool_fee_is_valid fees)

  unfoldable pub update_config : State → MessageInfo → UpdateConfigMsg → Result ContractError State
  update_config s info msg = do
    sender ← valid_addr info.sender
    fail_if (not (sender == s.config.owner)) (std StdError.generic_err)
    owner ← valid_option msg.owner
    valid_fees msg.pool_fees
    collector ← valid_option msg.fee_collector_addr
    let config : Config = record {
      owner = or_same s.config.owner owner;
      fee_collector_addr = or_same s.config.fee_collector_addr collector;
      pool_fees = or_same s.config.pool_fees msg.pool_fees;
      feature_toggle = or_same s.config.feature_toggle msg.feature_toggle;
    }
    ok (record s { config = config })

  -- Only the cw20 LP token may ask for a withdrawal.
  unfoldable pub assert_lp_token : AssetInfoRaw → Addr → Result ContractError (Unit {0})
  assert_lp_token (raw_native_token denom) sender = err unauthorized
  assert_lp_token (raw_token contract_addr) sender = do
    canonical ← ok_or (addr_canonicalize sender) (std StdError.generic_err)
    fail_if (not (canonical == contract_addr)) unauthorized

  -- Only the token of one of the pools may ask for a swap.
  unfoldable pub receive_hook :
      Chain
      → State
      → MessageInfo
      → Addr
      → ℕ
      → Cw20HookMsg
      → Result ContractError (State × List CosmosMsg)
  receive_hook chain s info sender amount (swap_hook belief_price max_spread to) = do
    fail_if (not s.config.feature_toggle.swaps_enabled) operation_disabled
    (pool_0, pool_1) ← lift (query_pools chain.balance s.pair_info)
    fail_if (not (is_token_of info.sender pool_0.info || is_token_of info.sender pool_1.info))
        unauthorized
    to_addr ← valid_option to
    swap chain s info sender (record { info = token info.sender; amount = amount }) belief_price
        max_spread to_addr
  receive_hook chain s info sender amount withdraw_liquidity_hook = do
    fail_if (not s.config.feature_toggle.withdrawals_enabled) operation_disabled
    assert_lp_token s.pair_info.liquidity_token info.sender
    sender_addr ← valid_addr sender
    messages ← withdraw_liquidity chain s sender_addr amount
    ok (s, messages)

  unfoldable pub receive_cw20 :
      Chain → State → MessageInfo → Cw20ReceiveMsg → Result ContractError (State × List CosmosMsg)
  receive_cw20 chain s info msg = do
    hook ← lift msg.hook
    receive_hook chain s info msg.sender msg.amount hook

module _ ⦃cw : Cosmwasm⦄ ⦃uint : Uint⦄ where
  unfoldable pub execute :
      Chain → State → MessageInfo → ExecuteMsg → Result ContractError (State × List CosmosMsg)
  execute chain s info (receive_msg msg) = receive_cw20 chain s info msg
  execute chain s info (provide_liquidity_msg assets slippage_tolerance receiver) = do
    messages ← provide_liquidity chain s info assets slippage_tolerance receiver
    ok (s, messages)
  execute chain s info withdraw_liquidity_msg = do
    amount ← sent_lp_token s.pair_info.liquidity_token info.funds
    messages ← withdraw_liquidity chain s info.sender amount
    ok (s, messages)
  execute chain s info (swap_msg offer_asset belief_price max_spread to) = do
    fail_if (not s.config.feature_toggle.swaps_enabled) operation_disabled
    fail_if (not (is_native_token offer_asset.info)) unauthorized
    to_addr ← valid_option to
    swap chain s info info.sender offer_asset belief_price max_spread to_addr
  execute chain s info (update_config_msg msg) = do s' ← update_config s info msg; ok (s', [])
  execute chain s info collect_protocol_fees_msg = collect_protocol_fees s
