-- ===== src/Vault/Liquidity.antt =====
-- Deposits and withdrawals: execute/deposit.rs, execute/receive/withdraw.rs and
-- queries/get_share.rs of the vault, with `get_total_share` and `query_pool` of
-- packages/white-whale-std/src/pool_network/asset.rs, without the features of other chains.
use migaloo_core.Prelude.{
  ℕ, not, List, [], ◌∷◌, ◌++◌, ◌==◌, if◌then◌else◌, Result, ok, ◌>>=◌, ◌>>◌, fail_if, ok_or,
}
use migaloo_core.Cosmwasm.{
  Cosmwasm, Addr, Denom, Coin, MessageInfo, CosmosMsg, StdError, checked_add, checked_sub,
  checked_mul, checked_div, try_into, from_ratio, mul_floor, addr_validate,
}
use migaloo_core.Asset.{AssetInfo, token, native_token, minimum_liquidity_amount, into_msg}
use migaloo_core.Vault.{
  State, VaultError, std, deposits_disabled, deposit_during_loan, funds_mismatch,
  withdraws_disabled, invalid_initial_liquidity_amount, Chain, Message, send, lift,
}

-- The address or the denom of the LP asset.
abbrev pub liquidity_asset : AssetInfo → Addr
liquidity_asset (token contract_addr) = contract_addr
liquidity_asset (native_token denom) = denom

-- A native deposit is in the balance already.
abbrev pub deposit_amount : AssetInfo → ℕ → ℕ
deposit_amount (token contract_addr) amount = 0
deposit_amount (native_token denom) amount = amount

abbrev pub transfer_messages : AssetInfo → Addr → Addr → ℕ → List Message
transfer_messages (token contract_addr) owner recipient amount =
    send (CosmosMsg.cw20_transfer_from contract_addr owner recipient amount) ∷ []
transfer_messages (native_token denom) owner recipient amount = []

abbrev pub mint_lp_token_msg : Addr → Addr → ℕ → Message
mint_lp_token_msg liquidity recipient amount = send (CosmosMsg.cw20_mint liquidity recipient amount)

abbrev pub burn_lp_asset_msg : Addr → ℕ → Message
burn_lp_asset_msg liquidity amount = send (CosmosMsg.cw20_burn liquidity amount)

module _ ⦃cw : Cosmwasm⦄ where
  -- The coins of a denom, added up.
  unfoldable pub add_coin : Denom → Coin → ℕ → Result VaultError ℕ
  add_coin denom c sum =
      if c.denom == denom
      then ok_or (checked_add 128 sum c.amount) (std StdError.panicked)
      else ok sum

  unfoldable pub sum_sent : Denom → List Coin → ℕ → Result VaultError ℕ
  sum_sent denom [] sum = ok sum
  sum_sent denom (c ∷ funds) sum = do sum' ← add_coin denom c sum; sum_sent denom funds sum'

  unfoldable pub sent_funds : Chain → AssetInfo → MessageInfo → Result VaultError ℕ
  sent_funds ch (native_token denom) info = sum_sent denom info.funds 0
  sent_funds ch (token contract_addr) info = lift (ch.allowance contract_addr info.sender)

  unfoldable pub get_total_share : Chain → Addr → Result VaultError ℕ
  get_total_share ch liquidity = do
    a ← ok_or (addr_validate liquidity) (std StdError.generic_err)
    lift (ch.total_supply a)

  unfoldable pub query_pool : Chain → AssetInfo → Result VaultError ℕ
  query_pool ch (native_token denom) = lift (ch.balance (native_token denom))
  query_pool ch (token contract_addr) = do
    a ← ok_or (addr_validate contract_addr) (std StdError.generic_err)
    lift (ch.balance (token a))

  -- The shares of the first deposit.
  unfoldable pub first_share : ℕ → Result VaultError ℕ
  first_share amount = do
    share ← ok_or (checked_sub amount minimum_liquidity_amount) invalid_initial_liquidity_amount
    fail_if (share == 0) invalid_initial_liquidity_amount
    ok share

  -- The shares of a later deposit: in proportion to what the vault held before it.
  unfoldable pub later_share : Chain → State → ℕ → ℕ → Result VaultError ℕ
  later_share ch s amount total_share = do
    pool ← query_pool ch s.config.asset_info
    own ← ok_or (checked_sub pool s.collected_protocol_fees.amount) (std StdError.overflow)
    total_deposits ←
        ok_or (checked_sub own (deposit_amount s.config.asset_info amount)) (std StdError.overflow)
    product ← ok_or (checked_mul 256 amount total_share) (std StdError.overflow)
    quotient ← ok_or (checked_div product total_deposits) (std StdError.divide_by_zero)
    ok_or (try_into 128 quotient) (std StdError.overflow)

  unfoldable pub deposit : Chain → State → MessageInfo → ℕ → Result VaultError (List Message)
  unfolding first_share
  deposit ch s info amount = do
    fail_if (not s.config.deposit_enabled) deposits_disabled
    fail_if (not (s.loan_counter == 0)) deposit_during_loan
    sent ← sent_funds ch s.config.asset_info info
    fail_if (not (sent == amount)) funds_mismatch
    let liquidity : Addr = liquidity_asset s.config.lp_asset
    let transfer = transfer_messages s.config.asset_info info.sender ch.contract_address amount
    total_share ← get_total_share ch liquidity
    if total_share == 0
        then (do
          lp_amount ← first_share amount
          ok (
              transfer
              ++ mint_lp_token_msg liquidity ch.contract_address minimum_liquidity_amount
                ∷ mint_lp_token_msg liquidity info.sender lp_amount
                ∷ []))
        else (do
          lp_amount ← later_share ch s amount total_share
          ok (transfer ++ mint_lp_token_msg liquidity info.sender lp_amount ∷ []))

  -- The part of the vault's assets that a number of shares stands for.
  unfoldable pub part_of : ℕ → ℕ → ℕ → Result VaultError ℕ
  part_of amount total_share total_asset_amount = do
    ratio ← ok_or (from_ratio 128 amount total_share) (std StdError.panicked)
    ok_or (mul_floor 128 total_asset_amount ratio) (std StdError.panicked)

  -- What belongs to the depositors.
  unfoldable pub own_assets : Chain → State → Result VaultError ℕ
  own_assets ch s = do
    balance ← lift (ch.balance s.config.asset_info)
    ok_or (checked_sub balance s.collected_protocol_fees.amount) (std StdError.overflow)

  unfoldable pub withdraw : Chain → State → Addr → ℕ → Result VaultError (List Message)
  withdraw ch s sender amount = do
    fail_if (not s.config.withdraw_enabled) withdraws_disabled
    recipient ← ok_or (addr_validate sender) (std StdError.generic_err)
    total_asset_amount ← own_assets ch s
    let liquidity : Addr = liquidity_asset s.config.lp_asset
    total_share ← get_total_share ch liquidity
    withdraw_amount ← part_of amount total_share total_asset_amount
    ok (
        send (into_msg (record { info = s.config.asset_info; amount = withdraw_amount }) recipient)
        ∷ burn_lp_asset_msg liquidity amount
        ∷ [])

  unfoldable pub get_share : Chain → State → ℕ → Result VaultError ℕ
  get_share ch s amount = do
    lp_amount ← get_total_share ch (liquidity_asset s.config.lp_asset)
    balance ← own_assets ch s
    part_of amount lp_amount balance
