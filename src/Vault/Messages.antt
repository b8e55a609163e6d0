-- ===== src/Vault/Messages.antt =====
-- The configuration and the dispatch of the vault: execute/update_config.rs, execute/receive/mod.rs,
-- execute/callback/mod.rs and `execute` of contract.rs.
use migaloo_core.Prelude.{
  ℕ, ◌&&◌, Bool, not, Option, none, some, List, [], ◌∷◌, ltb, ◌==◌, Result, ok, err, ◌>>=◌, ◌>>◌,
  fail_if, ok_or,
}
use migaloo_core.Cosmwasm.{Cosmwasm, Addr, Denom, Coin, MessageInfo, StdError, addr_validate}
use migaloo_core.Asset.{AssetInfo, token, native_token}
use migaloo_core.Fee.{VaultFee, are_valid}
use migaloo_core.WhaleLair.Commands.{or_default}
use migaloo_core.Vault.{
  Config, State, VaultError, std, unauthorized, external_callback,
  token_factory_asset_burn_disabled, asset_mismatch, Chain, Message, lift,
}
use migaloo_core.Vault.Loans.{flash_loan, after_trade, collect_protocol_fees}
use migaloo_core.Vault.Liquidity.{deposit, withdraw}

pub record UpdateConfigParams : Type 0 where
  pub flash_loan_enabled : Option Bool
  pub deposit_enabled : Option Bool
  pub withdraw_enabled : Option Bool
  pub new_owner : Option Addr
  pub new_vault_fees : Option VaultFee
  pub new_fee_collector_addr : Option Addr

pub data Cw20HookMsg : Type 0 where
  withdraw_hook : Cw20HookMsg

-- The hook is what the JSON of the message decodes to.
pub record Cw20ReceiveMsg : Type 0 where
  pub sender : Addr
  pub amount : ℕ
  pub hook : Result StdError Cw20HookMsg

pub data ExecuteMsg : Type 0 where
  deposit_msg : ℕ → ExecuteMsg
  withdraw_msg collect_protocol_fees_msg : ExecuteMsg
  flash_loan_msg : ℕ → ℕ → ExecuteMsg
  update_config_msg : UpdateConfigParams → ExecuteMsg
  receive_msg : Cw20ReceiveMsg → ExecuteMsg
  after_trade_msg : ℕ → ℕ → ExecuteMsg

-- `has_factory_token` of the one asset
abbrev pub has_factory_token : Chain → AssetInfo → Bool
has_factory_token ch (token contract_addr) = Bool.false
has_factory_token ch (native_token denom) = ch.is_factory_token denom

-- The number that stands for the empty text, which is no coin's denom.
abbrev pub no_denom : Denom
no_denom = 0

abbrev pub lp_token_denom : AssetInfo → Denom
lp_token_denom (token contract_addr) = no_denom
lp_token_denom (native_token denom) = denom

-- The amount of the one coin that was sent, which must be the LP token.
unfoldable pub sent_lp : AssetInfo → List Coin → Result VaultError ℕ
sent_lp lp_asset [] = err asset_mismatch
sent_lp lp_asset (c ∷ []) = do
  fail_if (not (c.denom == lp_token_denom lp_asset)) asset_mismatch
  ok c.amount
sent_lp lp_asset (c ∷ d ∷ funds) = err asset_mismatch

module _ ⦃cw : Cosmwasm⦄ where
  unfoldable pub new_addr : Addr → Option Addr → Result VaultError Addr
  new_addr old none = ok old
  new_addr old (some a) = ok_or (addr_validate a) (std StdError.generic_err)

  -- No burn fee where the LP asset is a factory token.
  unfoldable pub new_fees : Chain → Config → Option VaultFee → Result VaultError VaultFee
  new_fees ch config none = ok config.fees
  new_fees ch config (some fees) = do
    lift (are_valid fees)
    fail_if (has_factory_token ch config.lp_asset && ltb 0 fees.burn_fee.share)
        token_factory_asset_burn_disabled
    ok fees

  unfoldable pub update_config :
      Chain → State → MessageInfo → UpdateConfigParams → Result VaultError State
  unfolding new_addr new_fees
  update_config ch s info params = do
    fail_if (not (s.config.owner == info.sender)) unauthorized
    owner ← new_addr s.config.owner params.new_owner
    fee_collector_addr ← new_addr s.config.fee_collector_addr params.new_fee_collector_addr
    fees ← new_fees ch s.config params.new_vault_fees
    let config : Config = record s.config {
      owner = owner;
      flash_loan_enabled = or_default s.config.flash_loan_enabled params.flash_loan_enabled;
      deposit_enabled = or_default s.config.deposit_enabled params.deposit_enabled;
      withdraw_enabled = or_default s.config.withdraw_enabled params.withdraw_enabled;
      fee_collector_addr = fee_collector_addr;
      fees = fees;
    }
    ok (record s { config = config })

  -- Only the cw20 LP token may call.
  unfoldable pub assert_lp_token : AssetInfo → Addr → Result VaultError (Unit {0})
  assert_lp_token (native_token denom) sender = err unauthorized
  assert_lp_token (token contract_addr) sender = do
    a ← ok_or (addr_validate contract_addr) (std StdError.generic_err)
    fail_if (not (sender == a)) external_callback

  unfoldable pub receive :
      Chain → State → MessageInfo → Cw20ReceiveMsg → Result VaultError (List Message)
  unfolding assert_lp_token
  receive ch s info msg = do
    assert_lp_token s.config.lp_asset info.sender
    hook ← lift msg.hook
    withdraw ch s msg.sender msg.amount

  -- Only the vault itself may call.
  unfoldable pub callback :
      Chain → State → MessageInfo → ℕ → ℕ → Result VaultError (State × List Message)
  callback ch s info old_balance loan_amount = do
    fail_if (not (info.sender == ch.contract_address)) external_callback
    after_trade ch s old_balance loan_amount

  unfoldable pub execute :
      Chain → State → MessageInfo → ExecuteMsg → Result VaultError (State × List Message)
  unfolding sent_lp receive callback
  execute ch s info (deposit_msg amount) = do messages ← deposit ch s info amount; ok (s, messages)
  execute ch s info withdraw_msg = do
    amount ← sent_lp s.config.lp_asset info.funds
    messages ← withdraw ch s info.sender amount
    ok (s, messages)
  execute ch s info collect_protocol_fees_msg = ok (collect_protocol_fees s)
  execute ch s info (flash_loan_msg amount msg) = flash_loan ch s info amount msg
  execute ch s info (update_config_msg params) = do s' ← update_config ch s info params; ok (s', [])
  execute ch s info (receive_msg msg) = do messages ← receive ch s info msg; ok (s, messages)
  execute ch s info (after_trade_msg old_balance loan_amount) =
      callback ch s info old_balance loan_amount
