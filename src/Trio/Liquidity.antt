-- ===== src/Trio/Liquidity.antt =====
-- `provide_liquidity` and `withdraw_liquidity` of stableswap_3pool/src/commands.rs.
use migaloo_core.Prelude.{
  ℕ, ◌*◌, not, Option, List, [], ◌∷◌, ◌++◌, ◌||◌, ◌==◌, if◌then◌else◌, Result, ok, err, ◌>>=◌, ◌>>◌,
  fail_if, ok_or,
}
use migaloo_core.Cosmwasm.{
  Cosmwasm, Addr, MessageInfo, CosmosMsg, StdError, checked_sub, from_ratio, try_into,
}
use migaloo_core.Asset.{
  Asset, AssetInfo, minimum_liquidity_amount, into_msg, assert_sent_native_token_balance,
}
use migaloo_core.Asset.Queries.{to_normal, query_pool, get_total_share}
use migaloo_core.Pair.{
  ContractError, Chain, lift, operation_disabled, invalid_zero_amount,
  invalid_initial_liquidity_amount,
}
use migaloo_core.Pair.Curve.{or_panic}
use migaloo_core.Pair.Limits.{unwrap_or}
use migaloo_core.Pair.Pools.{
  less_protocol_fee, liquidity_token_of, mint_lp_token_msg, burn_lp_token_msg,
}
use migaloo_core.Pair.Liquidity.{deposit_for, take_deposit, refund}
use migaloo_core.Trio.{TrioInfoRaw, State}
use migaloo_core.Trio.Amp.{StableSwap, invariant_of}
use migaloo_core.Trio.Invariant.{compute_d, compute_mint_amount_for_deposit}
use migaloo_core.Trio.Swap.{assert_slippage_tolerance}

abbrev pub minimum_share : ℕ
minimum_share = minimum_liquidity_amount * 3

module _ ⦃cw : Cosmwasm⦄ where
  -- `TrioInfoRaw::query_pools`
  unfoldable pub query_pools :
      (AssetInfo → Result StdError ℕ) → TrioInfoRaw → Result StdError (Asset × Asset × Asset)
  query_pools balance trio_info = do
    info_0 ← to_normal trio_info.asset_infos.0
    info_1 ← to_normal trio_info.asset_infos.1
    info_2 ← to_normal trio_info.asset_infos.2
    amount_0 ← query_pool balance info_0
    amount_1 ← query_pool balance info_1
    amount_2 ← query_pool balance info_2
    ok (
      record { info = info_0; amount = amount_0 },
      record { info = info_1; amount = amount_1 },
      record { info = info_2; amount = amount_2 },
    )

  unfoldable pub initial_share : StableSwap → ℕ × ℕ × ℕ → Result ContractError ℕ
  initial_share invariant (deposit_0, deposit_1, deposit_2) = do
    d ← compute_d invariant deposit_0 deposit_1 deposit_2
    total ← or_panic (try_into 128 d)
    share ← ok_or (checked_sub total minimum_share) invalid_initial_liquidity_amount
    if share == 0 then err invalid_initial_liquidity_amount else ok share

  -- The shares, and the message that mints the minimum at the first deposit.
  unfoldable pub share_of :
      StableSwap
      → Option ℕ
      → Addr
      → Addr
      → ℕ × ℕ × ℕ
      → ℕ × ℕ × ℕ
      → ℕ
      → Result ContractError (ℕ × List CosmosMsg)
  unfolding initial_share
  share_of invariant slippage_tolerance liquidity_token pool deposits pools total_share =
      let first = (do
        share ← initial_share invariant deposits
        ok (share, mint_lp_token_msg liquidity_token pool minimum_share ∷ [])) in
      let later = (do
        minted ← compute_mint_amount_for_deposit invariant deposits pools total_share
        amount ← or_panic minted
        assert_slippage_tolerance slippage_tolerance deposits pools amount total_share
        ok (amount, [])) in
      if total_share == 0 then first else later

  unfoldable pub provide_liquidity :
      Chain
      → ℕ
      → State
      → MessageInfo
      → Asset × Asset × Asset
      → Option ℕ
      → Option Addr
      → Result ContractError (List CosmosMsg)
  unfolding share_of query_pools
  provide_liquidity chain height s info (asset_0, asset_1, asset_2) slippage_tolerance receiver = do
    fail_if (not s.config.feature_toggle.deposits_enabled) operation_disabled
    lift (assert_sent_native_token_balance asset_0 info)
    lift (assert_sent_native_token_balance asset_1 info)
    lift (assert_sent_native_token_balance asset_2 info)
    (pool_0, pool_1, pool_2) ← lift (query_pools chain.balance s.trio_info)
    let assets = asset_0 ∷ asset_1 ∷ asset_2 ∷ []
    deposit_0 ← deposit_for assets pool_0
    deposit_1 ← deposit_for assets pool_1
    deposit_2 ← deposit_for assets pool_2
    fail_if (deposit_0 == 0 || (deposit_1 == 0 || deposit_2 == 0)) invalid_zero_amount
    (amount_0, fetch_0) ←
        take_deposit info.sender chain.contract_address pool_0.info pool_0.amount deposit_0
    (amount_1, fetch_1) ←
        take_deposit info.sender chain.contract_address pool_1.info pool_1.amount deposit_1
    (amount_2, fetch_2) ←
        take_deposit info.sender chain.contract_address pool_2.info pool_2.amount deposit_2
    net_0 ← less_protocol_fee s.collected_protocol_fees (record pool_0 { amount = amount_0 })
    net_1 ← less_protocol_fee s.collected_protocol_fees (record pool_1 { amount = amount_1 })
    net_2 ← less_protocol_fee s.collected_protocol_fees (record pool_2 { amount = amount_2 })
    liquidity_token ← liquidity_token_of s.trio_info.liquidity_token
    total_share ← lift (get_total_share chain.total_supply liquidity_token)
    (share, minted) ←
        share_of (invariant_of s.config height) slippage_tolerance liquidity_token
          chain.contract_address (deposit_0, deposit_1, deposit_2)
          (net_0.amount, net_1.amount, net_2.amount) total_share
    ok (
        fetch_0
        ++ fetch_1
        ++ fetch_2
        ++ minted
        ++ (mint_lp_token_msg liquidity_token (unwrap_or receiver info.sender) share ∷ []))

  unfoldable pub withdraw_liquidity :
      Chain → State → Addr → ℕ → Result ContractError (List CosmosMsg)
  unfolding query_pools
  withdraw_liquidity chain s sender amount = do
    (pool_0, pool_1, pool_2) ← lift (query_pools chain.balance s.trio_info)
    liquidity_token ← liquidity_token_of s.trio_info.liquidity_token
    total_share ← lift (get_total_share chain.total_supply liquidity_token)
    share_ratio ← or_panic (from_ratio 128 amount total_share)
    refund_0 ← refund s.collected_protocol_fees share_ratio pool_0
    refund_1 ← refund s.collected_protocol_fees share_ratio pool_1
    refund_2 ← refund s.collected_protocol_fees share_ratio pool_2
    ok (
        into_msg refund_0 sender
        ∷ into_msg refund_1 sender
        ∷ into_msg refund_2 sender
        ∷ burn_lp_token_msg liquidity_token amount
        ∷ [])
