-- ===== src/Pair/FirstDeposit.antt =====
-- The first deposit into a constant product pair, `provide_liquidity` of
-- terraswap_pair/src/commands.rs.
use migaloo_core.Prelude.{
  arith, ◌>>=◌, >>=-eq-ok, none, some, if◌then◌else◌, ℕ, ◌+◌, ◌*◌, ◌≤◌, ◌<◌, ◌≡◌, ◌≢◌, refl, ap,
  sym, ◌||◌, not, Option, List, [], ◌∷◌, ◌++◌, ◌==◌, ok, >>=-elim, ok-injective, fail_if,
}
use migaloo_core.Cosmwasm.{Cosmwasm, Addr, MessageInfo, CosmosMsg, checked_sub}
use migaloo_core.Uint.{Uint}
use migaloo_core.Asset.{
  equal, Asset, AssetInfo, token, native_token, minimum_liquidity_amount,
  assert_sent_native_token_balance,
}
use migaloo_core.Asset.Queries.{get_total_share}
use migaloo_core.Pair.{
  State, Chain, constant_product, lift, lift-eq-ok, operation_disabled, invalid_zero_amount,
}
use migaloo_core.Pair.Curve.{checked}
use migaloo_core.Pair.Limits.{unwrap_or}
use migaloo_core.Pair.Pools.{query_pools, less_protocol_fee, liquidity_token_of, mint_lp_token_msg}
use migaloo_core.Pair.Liquidity.{
  deposit_for, take_deposit, initial_share, share_of, provide_liquidity,
}
use migaloo_core.Pair.Shares.{initial_share-integer_sqrt}

-- A token is fetched from the sender, a native coin has come with the message.
abbrev pub fetched : Addr → Addr → AssetInfo → ℕ → List CosmosMsg
fetched sender pair (token contract_addr) deposit =
    CosmosMsg.cw20_transfer_from contract_addr sender pair deposit ∷ []
fetched sender pair (native_token denom) deposit = []

-- What two deposits hold of an asset: the amount of the first that has it.
abbrev pub deposited : Asset → Asset → AssetInfo → Option ℕ
deposited asset_0 asset_1 info =
    if equal asset_0.info info
    then some asset_0.amount
    else if equal asset_1.info info
    then some asset_1.amount
    else none

deposit_for-deposited :
    (asset_0 asset_1 pool : Asset) (n : ℕ)
    → deposit_for (asset_0 ∷ asset_1 ∷ []) pool ≡ ok n
    → deposited asset_0 asset_1 pool.info ≡ some n
unfolding deposit_for
deposit_for-deposited asset_0 asset_1 pool n h = ground arith

module _ ⦃cw : Cosmwasm⦄ where
  take_deposit-fetched :
      (sender pair : Addr) (info : AssetInfo) (amount deposit : ℕ) (r : ℕ × List CosmosMsg)
      → take_deposit sender pair info amount deposit ≡ ok r
      → r.1 ≡ fetched sender pair info deposit
  unfolding take_deposit
  take_deposit-fetched sender pair (token contract_addr) amount deposit r h =
      ap (λ t. t.1) (sym (ok-injective h))
  take_deposit-fetched sender pair (native_token denom) amount deposit r h =
      >>=-elim (checked (checked_sub amount deposit)) h
        λ rest e done. ap (λ t. t.1) (sym (ok-injective done))

module _ ⦃cw : Cosmwasm⦄ ⦃uint : Uint⦄ where
  share_of-first :
      (tolerance : Option ℕ) (liquidity_token pair : Addr) (d0 d1 : ℕ) (pools : ℕ × ℕ)
      (r : ℕ × List CosmosMsg)
      → share_of constant_product tolerance liquidity_token pair (d0, d1) pools 0 ≡ ok r
      → (r.1 ≡ CosmosMsg.cw20_mint liquidity_token pair minimum_liquidity_amount ∷ [])
        × (r.0 ≢ 0)
        × ((minimum_liquidity_amount + r.0) * (minimum_liquidity_amount + r.0) ≤ d0 * d1)
        × (d0 * d1 < (minimum_liquidity_amount + r.0 + 1) * (minimum_liquidity_amount + r.0 + 1))
  unfolding share_of mint_lp_token_msg
  share_of-first tolerance liquidity_token pair d0 d1 pools r h =
      >>=-elim (initial_share constant_product d0 d1) h λ parts e done.
        let (kept, some_share, low, high) = initial_share-integer_sqrt d0 d1 parts.0 parts.1 e in
        rw (← ok-injective done) (rw (← kept) (refl, some_share, low, high))

  -- The last steps of a first deposit, after the messages that fetch it.
  mint-first :
      (chain : Chain) (s : State) (tolerance : Option ℕ) (receiver liquidity_token : Addr)
      (fetch_0 fetch_1 first second messages : List CosmosMsg) (d0 d1 : ℕ) (pools : ℕ × ℕ)
      → fetch_0 ≡ first
      → fetch_1 ≡ second
      → s.pair_info.pair_type ≡ constant_product
      → liquidity_token_of s.pair_info.liquidity_token ≡ ok liquidity_token
      → get_total_share chain.total_supply liquidity_token ≡ ok 0
      → (do
        named ← liquidity_token_of s.pair_info.liquidity_token
        total_share ← lift (get_total_share chain.total_supply named)
        (share, minted) ←
            share_of s.pair_info.pair_type tolerance named chain.contract_address
              (d0, d1)
              pools
              total_share
        ok (fetch_0 ++ fetch_1 ++ minted ++ (mint_lp_token_msg named receiver share ∷ [])))
        ≡ ok messages
      → (share : ℕ) × (messages
          ≡ first
            ++ second
            ++ (CosmosMsg.cw20_mint liquidity_token chain.contract_address minimum_liquidity_amount
                ∷ [])
            ++ (CosmosMsg.cw20_mint liquidity_token receiver share ∷ []))
        × (share ≢ 0)
        × ((minimum_liquidity_amount + share) * (minimum_liquidity_amount + share) ≤ d0 * d1)
        × (d0 * d1
            < (minimum_liquidity_amount + share + 1) * (minimum_liquidity_amount + share + 1))
  unfolding mint_lp_token_msg
  mint-first chain s tolerance receiver liquidity_token fetch_0 fetch_1 first second messages d0 d1
        pools is_first is_second is_product lp_is none_yet h =
      let h1 = rw lp_is at h in
      let h2 = rw none_yet at h1 in
      let h3 = rw is_product at h2 in
      >>=-elim
        (share_of constant_product tolerance liquidity_token chain.contract_address (d0, d1) pools
          0)
        h3
        λ minted em done.
          let (kept, some_share, low, high) =
            share_of-first tolerance liquidity_token chain.contract_address d0 d1 pools minted em in
          (
            minted.0,
            rw (← ok-injective done) (rw kept (rw is_first (rw is_second refl))),
            some_share,
            low,
            high,
          )

  -- A deposit into a constant product pair whose LP token has no supply yet, if it succeeds, fetches
  -- the deposits that are tokens from the sender, mints the minimum liquidity for the pair itself and a share that is not zero
  -- for the receiver that the message names, or else for the sender, and does nothing more. The
  -- minimum and the share together are the integer square root of the product of the deposits.
  pub provide_liquidity-first_share :
      (chain : Chain) (s : State) (info : MessageInfo) (asset_0 asset_1 : Asset)
      (tolerance : Option ℕ) (receiver : Option Addr) (liquidity_token : Addr)
      (messages : List CosmosMsg)
      → s.pair_info.pair_type ≡ constant_product
      → liquidity_token_of s.pair_info.liquidity_token ≡ ok liquidity_token
      → get_total_share chain.total_supply liquidity_token ≡ ok 0
      → provide_liquidity chain s info (asset_0, asset_1) tolerance receiver ≡ ok messages
      → (pool_0 : Asset) × (pool_1 : Asset) × (d0 : ℕ) × (d1 : ℕ) × (share : ℕ) × (query_pools
            chain.balance s.pair_info
          ≡ ok (pool_0, pool_1))
        × (deposited asset_0 asset_1 pool_0.info ≡ some d0)
        × (deposited asset_0 asset_1 pool_1.info ≡ some d1)
        × (messages
            ≡ fetched info.sender chain.contract_address pool_0.info d0
              ++ fetched info.sender chain.contract_address pool_1.info d1
              ++ (CosmosMsg.cw20_mint liquidity_token chain.contract_address
                    minimum_liquidity_amount
                  ∷ [])
              ++ (CosmosMsg.cw20_mint liquidity_token (unwrap_or receiver info.sender) share ∷ []))
        × (share ≢ 0)
        × ((minimum_liquidity_amount + share) * (minimum_liquidity_amount + share) ≤ d0 * d1)
        × (d0 * d1
            < (minimum_liquidity_amount + share + 1) * (minimum_liquidity_amount + share + 1))
  unfolding provide_liquidity
  provide_liquidity-first_share chain s info asset_0 asset_1 tolerance receiver liquidity_token
        messages is_product lp_is none_yet h =
      let enabled = s.config.feature_toggle.deposits_enabled in
      let both : List Asset = asset_0 ∷ asset_1 ∷ [] in
      let fees = s.collected_protocol_fees in
      let pair = chain.contract_address in
      let (_, _, h1) = >>=-eq-ok (fail_if (not enabled) operation_disabled) _ h in
      let (_, _, h2) = >>=-eq-ok (lift (assert_sent_native_token_balance asset_0 info)) _ h1 in
      let (_, _, h3) = >>=-eq-ok (lift (assert_sent_native_token_balance asset_1 info)) _ h2 in
      let (pools, ep, h4) = >>=-eq-ok (lift (query_pools chain.balance s.pair_info)) _ h3 in
      let (p0, p1) = pools in
      let (d0, e0, h5) = >>=-eq-ok (deposit_for both p0) _ h4 in
      let (d1, e1, h6) = >>=-eq-ok (deposit_for both p1) _ h5 in
      let (_, _, h7) = >>=-eq-ok (fail_if (d0 == 0 || d1 == 0) invalid_zero_amount) _ h6 in
      let (t0, f0, h8) = >>=-eq-ok (take_deposit info.sender pair p0.info p0.amount d0) _ h7 in
      let (t1, f1, h9) = >>=-eq-ok (take_deposit info.sender pair p1.info p1.amount d1) _ h8 in
      let (n0, _, h10) = >>=-eq-ok (less_protocol_fee fees (record p0 { amount = t0.0 })) _ h9 in
      let (n1, _, h11) = >>=-eq-ok (less_protocol_fee fees (record p1 { amount = t1.0 })) _ h10 in
      let (share, sent, some_share, low, high) =
        mint-first chain s tolerance (unwrap_or receiver info.sender) liquidity_token t0.1 t1.1
          (fetched info.sender pair p0.info d0) (fetched info.sender pair p1.info d1) messages d0 d1
          (n0.amount, n1.amount) (take_deposit-fetched info.sender pair p0.info p0.amount d0 t0 f0)
          (take_deposit-fetched info.sender pair p1.info p1.amount d1 t1 f1) is_product lp_is
          none_yet h11 in
      (
        p0,
        p1,
        d0,
        d1,
        share,
        lift-eq-ok (query_pools chain.balance s.pair_info) ep,
        deposit_for-deposited asset_0 asset_1 p0 d0 e0,
        deposit_for-deposited asset_0 asset_1 p1 d1 e1,
        sent,
        some_share,
        low,
        high,
      )
