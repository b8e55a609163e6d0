-- ===== src/VaultRouter/Repayment.antt =====
-- Flash loans through the router: how its calls follow one another, and how loans are paid back to
-- the vaults, with the vault's own callback.
use migaloo_core.Prelude.{
  ℕ, ◌+◌, ◌≤◌, ◌<◌, ◌^◌, ◌≡◌, refl, true, ap, List, [], ◌∷◌, ◌++◌, map, ◌==◌, Bool-cases, inl, inr,
  if◌then◌else◌, arith, ok, fail_if, ok_or, >>=-elim, ok-injective, some, sym, subst, ◌∙◌, not,
}
use migaloo_core.Cosmwasm.{
  Cosmwasm, Addr, Denom, Coin, MessageInfo, CosmosMsg, addr_validate, checked_sub,
}
use migaloo_core.Checked.{checked_sub-ok, ok_or-eq-ok}
use migaloo_core.Asset.{Asset, AssetInfo, token, native_token, message_of, equal}
use migaloo_core.Vault.Loans.{PaybackAmountResponse, get_payback_amount, after_trade}
use migaloo_core.Vault.Repayment.{after_trade-get_payback_amount}
use migaloo_core.VaultRouter.Access.{lift_ok, fail_if-eq-ok}
use migaloo_core.VaultRouter.{
  Config, Loan, ExecuteMsg, next_loan_msg, complete_loan_msg, Message, send, call_flash_loan,
  call_router, Chain, invalid_asset, negative_profit, unauthorized, lift, find_vaults, first_loan,
  flash_loan, loan_or_pay, payments, next_loan, settle_loan, settle_loans, complete_loan, execute,
}
use migaloo_core.Vault

-- What a list of coins, a message and a list of messages hold of an asset for a recipient.
pub amount_of : Denom → List Coin → ℕ
amount_of denom [] = 0
amount_of denom (c ∷ coins) =
    let rest = amount_of denom coins in if c.denom == denom then c.amount + rest else rest

pub amount_for : AssetInfo → Addr → Message → ℕ
amount_for (token contract_addr) a (send (CosmosMsg.cw20_transfer contract recipient amount)) =
    if contract == contract_addr then (if recipient == a then amount else 0) else 0
amount_for (native_token denom) a (send (CosmosMsg.bank_send recipient coins)) =
    if recipient == a then amount_of denom coins else 0
amount_for _ a _ = 0

unfoldable pub received : AssetInfo → Addr → List Message → ℕ
unfolding amount_for amount_of
received info a [] = 0
received info a (m ∷ messages) = amount_for info a m + received info a messages

-- What a recipient is due of an asset after a loan: the vault the payback amount of the loaned
-- asset, the initiator the profit.
abbrev pub due : Addr → Loan → ℕ → ℕ → AssetInfo → Addr → ℕ
due initiator (vault, asset) payback_amount profit_amount info a =
    if equal asset.info info
    then (if vault == a then payback_amount else 0) + (if initiator == a then profit_amount else 0)
    else 0

-- Messages that settle some loans, one loan after the other: for each there is a payback amount that
-- its vault asks for and that the balance of the router covers, and everybody receives of every
-- asset what is due, with the rest of the balance as the profit.
pub data IsSettled (ch : Chain) (initiator : Addr) : List Loan → List Message → Type 0 where
  settled : IsSettled ch initiator [] []
  and_settled :
      (loan : Loan) (loans : List Loan) (part messages : List Message)
      (payback_amount profit_amount : ℕ)
      → ch.query_payback_amount loan.0 loan.1.amount ≡ ok payback_amount
      → ch.balance loan.1.info ≡ ok (profit_amount + payback_amount)
      → ((info : AssetInfo) (a : Addr)
          → received info a part ≡ due initiator loan payback_amount profit_amount info a)
      → IsSettled ch initiator loans messages
      → IsSettled ch initiator (loan ∷ loans) (part ++ messages)

-- An asset that is sent is received by its recipient only.
received-send :
    (sent info : AssetInfo) (n : ℕ) (recipient a : Addr) (messages : List Message)
    → received info a (send (message_of sent n recipient) ∷ messages)
      ≡ (if equal sent info then (if recipient == a then n else 0) else 0)
        + received info a messages
unfolding received message_of
received-send (token sent) (token contract) n recipient a messages = ground arith
received-send (token sent) (native_token denom) n recipient a messages = ground arith
received-send (native_token sent) (token contract) n recipient a messages = ground arith
received-send (native_token sent) (native_token denom) n recipient a messages = ground arith

equal_refl : (info : AssetInfo) → equal info info ≡ true
equal_refl (token contract) = ground arith
equal_refl (native_token denom) = ground arith

received-none : (info : AssetInfo) (a : Addr) → received info a [] ≡ 0
unfolding received
received-none info a = refl

-- The payments for a loan give everybody what is due.
received-payments :
    (initiator : Addr) (loan : Loan) (payback_amount profit_amount : ℕ) (info : AssetInfo)
    (a : Addr)
    → received info a (payments initiator loan payback_amount profit_amount)
      ≡ due initiator loan payback_amount profit_amount info a
received-payments initiator (vault, asset) n profit info a =
    let first = received-send asset.info info n vault a in
    let second = received-send asset.info info profit initiator a [] in
    let none = received-none info a in
    elim (Bool-cases (profit == 0)) [
      | inl no_profit ↦ rw no_profit (rw first (rw none (ground arith)))
      | inr some_profit ↦ rw some_profit (rw first (rw second (rw none (ground arith))))
    ]

module _ ⦃cw : Cosmwasm⦄ where
  settle_loans-IsSettled :
      (ch : Chain) (initiator : Addr) (loans : List Loan) (messages : List Message)
      → settle_loans ch initiator loans ≡ ok messages
      → IsSettled ch initiator loans messages
  unfolding settle_loans settle_loan
  settle_loans-IsSettled ch initiator [] messages h =
      subst (IsSettled ch initiator []) (ok-injective h) settled
  settle_loans-IsSettled ch initiator (loan ∷ loans) messages h =
      >>=-elim (settle_loan ch initiator loan) h λ first h1 rest1.
        >>=-elim (settle_loans ch initiator loans) rest1 λ others h2 rest2.
          >>=-elim (lift (ch.query_payback_amount loan.0 loan.1.amount)) h1 λ payback ep h3.
            >>=-elim (lift (ch.balance loan.1.info)) h3 λ final ef h4.
              >>=-elim (ok_or (checked_sub final payback) (negative_profit loan.1 final payback)) h4
                λ profit es h5.
                  subst (IsSettled ch initiator (loan ∷ loans))
                    (ap (λ m. m ++ others) (ok-injective h5) ∙ ok-injective rest2)
                    (and_settled loan loans (payments initiator loan payback profit) others payback
                      profit (lift_ok ep)
                      (lift_ok ef
                        ∙ ap ok (
                            sym (
                              checked_sub-ok (negative_profit loan.1 final payback) final payback
                                profit es)))
                      (received-payments initiator loan payback profit)
                      (settle_loans-IsSettled ch initiator loans others h2))

  -- If `CompleteLoan` succeeds, then the router itself has called it, and its messages settle the
  -- loans one by one: for each, the balance of the router covers the payback amount that the vault
  -- asks for, and what the messages for it hold of the loaned asset is exactly that amount for the
  -- vault, the rest of the balance for the initiator, the sum of both where they are the same, and
  -- nothing for others or of other assets.
  pub complete_loan-IsSettled :
      (ch : Chain) (info : MessageInfo) (initiator : Addr) (loans : List Loan)
      (messages : List Message)
      → complete_loan ch info initiator loans ≡ ok messages
      → (info.sender ≡ ch.contract_address) × IsSettled ch initiator loans messages
  unfolding complete_loan
  complete_loan-IsSettled ch info initiator loans messages h =
      >>=-elim (fail_if (not (info.sender == ch.contract_address)) unauthorized) h λ done h1 rest. (
        ground
            (arith, fail_if-eq-ok (not (info.sender == ch.contract_address)) unauthorized done h1),
        settle_loans-IsSettled ch initiator loans messages rest,
      )

  -- The vault's part of the payments is the payback amount at least.
  settle_loan-received :
      (ch : Chain) (initiator : Addr) (vault : Addr) (asset : Asset) (messages : List Message)
      (n : ℕ)
      → settle_loans ch initiator ((vault, asset) ∷ []) ≡ ok messages
      → ch.query_payback_amount vault asset.amount ≡ ok n
      → n ≤ received asset.info vault messages
  unfolding settle_loans settle_loan
  settle_loan-received ch initiator vault asset messages n h asked =
      >>=-elim (settle_loan ch initiator (vault, asset)) h λ first h1 rest1.
        >>=-elim (lift (ch.query_payback_amount vault asset.amount)) h1 λ payback ep h3.
          >>=-elim (lift (ch.balance asset.info)) h3 λ final ef h4.
            >>=-elim (ok_or (checked_sub final payback) (negative_profit asset final payback)) h4
              λ profit es h5.
                let same : payback ≡ n = ok-injective (sym (lift_ok ep) ∙ asked) in
                let parts = received-send asset.info asset.info payback vault vault in
                let own = equal_refl asset.info in
                rw (← ok-injective rest1)
                  (rw (← ok-injective h5) (rw parts (rw own (ground arith))))

  -- What the router pays is what the vault accepts: if `CompleteLoan` succeeds for one loan, the
  -- vault had answered the router with its `get_payback_amount`, its balance is now the one before
  -- the loan less the loan and with what the messages send it, and the sums fit in 128 bits, then
  -- the vault's callback after the loan succeeds.
  pub complete_loan-after_trade :
      (ch : Chain) (info : MessageInfo) (initiator vault : Addr) (asset : Asset)
      (messages : List Message) (vault_chain : Vault.Chain) (s : Vault.State)
      (q : PaybackAmountResponse) (left old_balance : ℕ)
      → complete_loan ch info initiator ((vault, asset) ∷ []) ≡ ok messages
      → get_payback_amount s asset.amount ≡ ok q
      → ch.query_payback_amount vault asset.amount ≡ ok q.payback_amount
      → s.config.asset_info ≡ asset.info
      → left + asset.amount ≡ old_balance
      → vault_chain.balance s.config.asset_info ≡ ok (left + received asset.info vault messages)
      → old_balance + q.payback_amount < 2 ^ 128
      → s.collected_protocol_fees.amount + q.payback_amount < 2 ^ 128
      → s.all_time_collected_protocol_fees.amount + q.payback_amount < 2 ^ 128
      → s.all_time_burned_fees.amount + q.payback_amount < 2 ^ 128
      → (r : Vault.State × List Vault.Message) × (after_trade vault_chain s old_balance asset.amount
          ≡ ok r)
  unfolding complete_loan
  complete_loan-after_trade ch info initiator vault asset messages vault_chain s q left old_balance
        h eq asked same lent eb small small_c small_a small_b =
      >>=-elim (fail_if (not (info.sender == ch.contract_address)) unauthorized) h λ done h1 rest.
        let paid =
          settle_loan-received ch initiator vault asset messages q.payback_amount rest asked in
        let (succeeds, _) =
          after_trade-get_payback_amount vault_chain s old_balance asset.amount
            (left + received asset.info vault messages) q eq eb small small_c small_a small_b in
        succeeds (omega arith)

  -- A flash loan of one asset that the router accepts is one call of the vault that the factory
  -- names, and when that vault, if its address is valid, calls back with the message of that call,
  -- the router accepts it: it sends the messages of the caller, in their order, and then
  -- `CompleteLoan` to itself, with the caller as the one who gets the profit.
  pub flash_loan-next_loan :
      (ch : Chain) (config : Config) (info : MessageInfo) (asset : Asset) (msgs : List CosmosMsg)
      (messages : List Message) (funds : List Coin)
      → ((a : Addr)
          → ch.query_vault config.vault_factory asset.info ≡ ok (some a)
          → addr_validate a ≡ some a)
      → flash_loan ch config info (asset ∷ []) msgs ≡ ok messages
      → (vault : Addr) × (msg : ExecuteMsg) × (ch.query_vault config.vault_factory asset.info
          ≡ ok (some vault))
        × (messages ≡ call_flash_loan vault asset.amount msg ∷ [])
        × (execute ch config (record { sender = vault; funds = funds }) msg
            ≡ ok (
              config,
              map send msgs
                  ++ call_router ch.contract_address
                      (complete_loan_msg info.sender ((vault, asset) ∷ []))
                    ∷ [],
            ))
  unfolding flash_loan find_vaults first_loan execute next_loan loan_or_pay
  flash_loan-next_loan ch config info asset msgs messages funds is_valid h =
      >>=-elim (find_vaults ch config (asset ∷ [])) h λ vaults h1 rest.
        >>=-elim (lift (ch.query_vault config.vault_factory asset.info)) h1 λ queried e1 rest1.
          >>=-elim (ok_or queried (invalid_asset asset)) rest1 λ vault e2 rest2.
            let named : ch.query_vault config.vault_factory asset.info ≡ ok (some vault) =
              lift_ok e1 ∙ ap ok (ok_or-eq-ok queried (invalid_asset asset) vault e2) in
            let valid = is_valid vault named in
            (
              vault,
              next_loan_msg info.sender vault asset.info msgs [] ((vault, asset) ∷ []),
              named,
              rw (← ok-injective rest) (rw (← ok-injective rest2) refl),
              rw named (rw valid (ground arith)),
            )
