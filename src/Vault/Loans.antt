-- ===== src/Vault/Loans.antt =====
-- Flash loans: execute/flash_loan.rs, execute/callback/after_trade.rs,
-- execute/collect_protocol_fee.rs, queries/get_payback_amount.rs and state.rs of the vault.
use migaloo_core.Prelude.{
  ℕ, ◌-◌, not, List, [], ◌∷◌, ◌++◌, ltb, ◌==◌, if◌then◌else◌, Result, ok, ◌>>=◌, ◌>>◌, fail_if,
  ok_or,
}
use migaloo_core.Cosmwasm.{
  Cosmwasm, Addr, Coin, MessageInfo, CosmosMsg, StdError, checked_add, checked_sub, try_into,
}
use migaloo_core.Asset.{Asset, AssetInfo, token, native_token, into_msg, into_burn_msg}
use migaloo_core.Fee.{Fee, compute}
use migaloo_core.Vault.{
  State, VaultError, std, flash_loans_disabled, negative_profit, Chain, Message, send,
  call_after_trade, lift,
}

-- A cw20 token is sent at once, a native token goes with the call of the borrower.
abbrev pub loan_messages : AssetInfo → Addr → ℕ → List Message
loan_messages (token contract_addr) borrower amount =
    send (CosmosMsg.cw20_transfer contract_addr borrower amount) ∷ []
loan_messages (native_token denom) borrower amount = []

abbrev pub callback_funds : AssetInfo → ℕ → List Coin
callback_funds (token contract_addr) amount = []
callback_funds (native_token denom) amount = record { denom = denom; amount = amount } ∷ []

pub record PaybackAmountResponse : Type 0 where
  pub payback_amount : ℕ
  pub protocol_fee : ℕ
  pub flash_loan_fee : ℕ
  pub burn_fee : ℕ

module _ ⦃cw : Cosmwasm⦄ where
  unfoldable pub store_fee : Asset → ℕ → Result VaultError Asset
  store_fee fees fee = do
    amount ← ok_or (checked_add 128 fees.amount fee) (std StdError.overflow)
    ok (record fees { amount = amount })

  -- A fee for a loan, in 128 bits.
  unfoldable pub fee_for : Fee → ℕ → Result VaultError ℕ
  fee_for fee amount = do
    computed ← lift (compute fee amount)
    ok_or (try_into 128 computed) (std StdError.overflow)

  -- `base` and the three fees, one after the other.
  unfoldable pub with_fees : ℕ → ℕ → ℕ → ℕ → Result VaultError ℕ
  with_fees base protocol_fee flash_loan_fee burn_fee = do
    a ← ok_or (checked_add 128 base protocol_fee) (std StdError.overflow)
    b ← ok_or (checked_add 128 a flash_loan_fee) (std StdError.overflow)
    ok_or (checked_add 128 b burn_fee) (std StdError.overflow)

  unfoldable pub get_payback_amount : State → ℕ → Result VaultError PaybackAmountResponse
  get_payback_amount s amount = do
    protocol_fee ← fee_for s.config.fees.protocol_fee amount
    flash_loan_fee ← fee_for s.config.fees.flash_loan_fee amount
    burn_fee ← fee_for s.config.fees.burn_fee amount
    required_amount ← with_fees amount protocol_fee flash_loan_fee burn_fee
    ok (record {
      payback_amount = required_amount;
      protocol_fee = protocol_fee;
      flash_loan_fee = flash_loan_fee;
      burn_fee = burn_fee;
    })

  -- `msg` stands for the borrower's message.
  unfoldable pub flash_loan :
      Chain → State → MessageInfo → ℕ → ℕ → Result VaultError (State × List Message)
  flash_loan ch s info amount msg = do
    fail_if (not s.config.flash_loan_enabled) flash_loans_disabled
    loan_counter ← ok_or (checked_add 32 s.loan_counter 1) (std StdError.overflow)
    old_balance ← lift (ch.balance s.config.asset_info)
    ok (
      record s { loan_counter = loan_counter },
      loan_messages s.config.asset_info info.sender amount
          ++ send
              (CosmosMsg.wasm_execute info.sender msg (callback_funds s.config.asset_info amount))
            ∷ call_after_trade ch.contract_address old_balance amount
            ∷ [],
    )

  -- What the vault has gained; the attributes of the response report it.
  unfoldable pub profit_of : ℕ → ℕ → ℕ → ℕ → ℕ → Result VaultError ℕ
  profit_of new_balance old_balance protocol_fee flash_loan_fee burn_fee = do
    a ← ok_or (checked_sub new_balance old_balance) (std StdError.overflow)
    b ← ok_or (checked_sub a protocol_fee) (std StdError.overflow)
    c ← ok_or (checked_sub b flash_loan_fee) (std StdError.overflow)
    ok_or (checked_sub c burn_fee) (std StdError.overflow)

  -- A burn fee that is not zero is recorded and burned.
  unfoldable pub burn : State → ℕ → Result VaultError (State × List Message)
  unfolding store_fee
  burn s burn_fee = if burn_fee == 0 then ok (s, []) else (do
    burned ← store_fee s.all_time_burned_fees burn_fee
    ok (
      record s { all_time_burned_fees = burned },
      send (into_burn_msg (record { info = s.config.asset_info; amount = burn_fee })) ∷ [],
    ))

  -- `saturating_sub` on the loan counter is the subtraction that stops at 0.
  unfoldable pub after_trade : Chain → State → ℕ → ℕ → Result VaultError (State × List Message)
  unfolding burn store_fee
  after_trade ch s old_balance loan_amount = do
    new_balance ← lift (ch.balance s.config.asset_info)
    protocol_fee ← fee_for s.config.fees.protocol_fee loan_amount
    flash_loan_fee ← fee_for s.config.fees.flash_loan_fee loan_amount
    burn_fee ← fee_for s.config.fees.burn_fee loan_amount
    required_amount ← with_fees old_balance protocol_fee flash_loan_fee burn_fee
    fail_if (ltb new_balance required_amount) negative_profit
    profit ← profit_of new_balance old_balance protocol_fee flash_loan_fee burn_fee
    collected ← store_fee s.collected_protocol_fees protocol_fee
    all_time ← store_fee s.all_time_collected_protocol_fees protocol_fee
    burn
        (record s {
          collected_protocol_fees = collected;
          all_time_collected_protocol_fees = all_time;
          loan_counter = s.loan_counter - 1;
        })
        burn_fee

-- The collected protocol fees go to the fee collector.
unfoldable pub collect_protocol_fees : State → State × List Message
collect_protocol_fees s = (
  record s {
    collected_protocol_fees = record { info = s.collected_protocol_fees.info; amount = 0 };
  },
  (if s.collected_protocol_fees.amount == 0
      then []
      else send (into_msg s.collected_protocol_fees s.config.fee_collector_addr) ∷ []),
)
