-- ===== src/Pair/Liquidity.antt =====
-- `provide_liquidity` and `withdraw_liquidity` of terraswap_pair/src/commands.rs.
use migaloo_core.Prelude.{
  ℕ, ◌-◌, ◌*◌, min, not, Option, none, some, List, [], ◌∷◌, ◌++◌, ◌||◌, ◌==◌, if◌then◌else◌, find,
  Result, ok, err, ◌>>=◌, ◌>>◌, fail_if, ok_or,
}
use migaloo_core.Cosmwasm.{
  Cosmwasm, Addr, MessageInfo, CosmosMsg, StdError, checked_sub, checked_mul, mul_floor,
  multiply_ratio, from_ratio, try_into,
}
use migaloo_core.Uint.{Uint, integer_sqrt}
use migaloo_core.Asset.{
  Asset, AssetInfo, token, native_token, equal, minimum_liquidity_amount, into_msg,
  assert_sent_native_token_balance,
}
use migaloo_core.Asset.Queries.{get_total_share}
use migaloo_core.Pair.{
  ContractError, PairType, State, Chain, stable_swap, constant_product, std, lift,
  operation_disabled, invalid_zero_amount, liquidity_share_computation,
  invalid_initial_liquidity_amount,
}
use migaloo_core.Pair.Curve.{or_panic, checked}
use migaloo_core.Pair.Deposits.{compute_d, compute_lp_mint_amount_for_stableswap_deposit}
use migaloo_core.Pair.Limits.{assert_slippage_tolerance, unwrap_or}
use migaloo_core.Pair.Pools.{
  query_pools, less_protocol_fee, liquidity_token_of, mint_lp_token_msg, burn_lp_token_msg,
}

abbrev amount_of : Option Asset → Result ContractError ℕ
amount_of none = err (std StdError.panicked)
amount_of (some a) = ok a.amount

-- The deposit that has the asset of a pool.
unfoldable pub deposit_for : List Asset → Asset → Result ContractError ℕ
deposit_for assets pool = amount_of (find (λ a. equal a.info pool.info) assets)

module _ ⦃cw : Cosmwasm⦄ where
  -- A token is fetched from the sender; a native deposit is in the balance already and is taken off.
  unfoldable pub take_deposit :
      Addr → Addr → AssetInfo → ℕ → ℕ → Result ContractError (ℕ × List CosmosMsg)
  take_deposit sender pair (token contract_addr) amount deposit =
      ok (amount, CosmosMsg.cw20_transfer_from contract_addr sender pair deposit ∷ [])
  take_deposit sender pair (native_token denom) amount deposit = do
    rest ← checked (checked_sub amount deposit)
    ok (rest, [])

  -- The shares of a later deposit, before the slippage is checked.
  unfoldable pub later_share : PairType → ℕ → ℕ → ℕ → ℕ → ℕ → Result ContractError ℕ
  later_share (stable_swap amp) deposit_0 deposit_1 pool_0 pool_1 total_share = do
    amount ←
        compute_lp_mint_amount_for_stableswap_deposit amp deposit_0 deposit_1 pool_0 pool_1
          total_share
    or_panic amount
  later_share constant_product deposit_0 deposit_1 pool_0 pool_1 total_share = do
    share_0 ← or_panic (multiply_ratio 128 deposit_0 total_share pool_0)
    share_1 ← or_panic (multiply_ratio 128 deposit_1 total_share pool_1)
    ok (min share_0 share_1)

  -- The part of a pool that a share of the supply stands for.
  unfoldable pub refund : List Asset → ℕ → Asset → Result ContractError Asset
  refund collected share_ratio pool = do
    net ← less_protocol_fee collected pool
    amount ← or_panic (mul_floor 128 net.amount share_ratio)
    ok (record pool { amount = amount })

  unfoldable pub withdraw_liquidity :
      Chain → State → Addr → ℕ → Result ContractError (List CosmosMsg)
  withdraw_liquidity chain s sender amount = do
    (pool_0, pool_1) ← lift (query_pools chain.balance s.pair_info)
    liquidity_token ← liquidity_token_of s.pair_info.liquidity_token
    total_share ← lift (get_total_share chain.total_supply liquidity_token)
    share_ratio ← or_panic (from_ratio 128 amount total_share)
    refund_0 ← refund s.collected_protocol_fees share_ratio pool_0
    refund_1 ← refund s.collected_protocol_fees share_ratio pool_1
    ok (
        into_msg refund_0 sender
        ∷ into_msg refund_1 sender
        ∷ burn_lp_token_msg liquidity_token amount
        ∷ [])

module _ ⦃cw : Cosmwasm⦄ ⦃uint : Uint⦄ where
  -- The shares of the first deposit: what stays with the pair, and what the receiver gets.
  unfoldable pub initial_share : PairType → ℕ → ℕ → Result ContractError (ℕ × ℕ)
  initial_share (stable_swap amp) deposit_0 deposit_1 = do
    d ← compute_d amp deposit_0 deposit_1
    total ← checked (try_into 128 d)
    let share = total - minimum_liquidity_amount * 2
    if share == 0
        then err invalid_initial_liquidity_amount
        else ok (minimum_liquidity_amount * 2, share)
  initial_share constant_product deposit_0 deposit_1 = do
    product ← ok_or (checked_mul 256 deposit_0 deposit_1) liquidity_share_computation
    total ← or_panic (try_into 128 (integer_sqrt product))
    share ← ok_or (checked_sub total minimum_liquidity_amount) invalid_initial_liquidity_amount
    if share == 0
        then err invalid_initial_liquidity_amount
        else ok (minimum_liquidity_amount, share)

  -- The shares, and the message that mints the minimum liquidity at the first deposit.
  unfoldable pub share_of :
      PairType
      → Option ℕ
      → Addr
      → Addr
      → ℕ × ℕ
      → ℕ × ℕ
      → ℕ
      → Result ContractError (ℕ × List CosmosMsg)
  share_of pair_type slippage_tolerance liquidity_token pair (deposit_0, deposit_1) (pool_0, pool_1)
        total_share =
      let first = (do
        (minimum, share) ← initial_share pair_type deposit_0 deposit_1
        ok (share, mint_lp_token_msg liquidity_token pair minimum ∷ [])) in
      let later = (do
        amount ← later_share pair_type deposit_0 deposit_1 pool_0 pool_1 total_share
        assert_slippage_tolerance slippage_tolerance (deposit_0, deposit_1) (pool_0, pool_1)
            pair_type amount total_share
        ok (amount, [])) in
      if total_share == 0 then first else later

  unfoldable pub provide_liquidity :
      Chain
      → State
      → MessageInfo
      → Asset × Asset
      → Option ℕ
      → Option Addr
      → Result ContractError (List CosmosMsg)
  provide_liquidity chain s info (asset_0, asset_1) slippage_tolerance receiver = do
    fail_if (not s.config.feature_toggle.deposits_enabled) operation_disabled
    lift (assert_sent_native_token_balance asset_0 info)
    lift (assert_sent_native_token_balance asset_1 info)
    (pool_0, pool_1) ← lift (query_pools chain.balance s.pair_info)
    deposit_0 ← deposit_for (asset_0 ∷ asset_1 ∷ []) pool_0
    deposit_1 ← deposit_for (asset_0 ∷ asset_1 ∷ []) pool_1
    fail_if (deposit_0 == 0 || deposit_1 == 0) invalid_zero_amount
    (amount_0, fetch_0) ←
        take_deposit info.sender chain.contract_address pool_0.info pool_0.amount deposit_0
    (amount_1, fetch_1) ←
        take_deposit info.sender chain.contract_address pool_1.info pool_1.amount deposit_1
    net_0 ← less_protocol_fee s.collected_protocol_fees (record pool_0 { amount = amount_0 })
    net_1 ← less_protocol_fee s.collected_protocol_fees (record pool_1 { amount = amount_1 })
    liquidity_token ← liquidity_token_of s.pair_info.liquidity_token
    total_share ← lift (get_total_share chain.total_supply liquidity_token)
    (share, minted) ←
        share_of s.pair_info.pair_type slippage_tolerance liquidity_token chain.contract_address
          (deposit_0, deposit_1) (net_0.amount, net_1.amount) total_share
    ok (
        fetch_0
        ++ fetch_1
        ++ minted
        ++ (mint_lp_token_msg liquidity_token (unwrap_or receiver info.sender) share ∷ []))
