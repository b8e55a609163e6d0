-- ===== src/VaultRouter.antt =====
-- The router of flash loans, contracts/liquidity_hub/vault-network/vault_router/src, with
-- packages/white-whale-std/src/vault_network/vault_router.rs. This file holds its data and its
-- handlers, the children the proofs.
pub mod Access
pub mod Repayment
mod Tests
use migaloo_core.Prelude.{
  Bool, ℕ, ◌≡◌, not, ◌||◌, Option, none, some, List, [], ◌∷◌, ◌++◌, map, ltb, ◌==◌, if◌then◌else◌,
  Result, ok, err, ◌>>=◌, ◌>>◌, fail_if, ok_or,
}
use migaloo_core.Cosmwasm.{
  Cosmwasm, Addr, MessageInfo, CosmosMsg, StdError, addr_validate, checked_sub,
}
use migaloo_core.Asset.{Asset, AssetInfo, message_of}

pub record Config : Type 0 where
  pub owner : Addr
  pub vault_factory : Addr

pub record InstantiateMsg : Type 0 where
  pub owner : Addr
  pub vault_factory_addr : Addr

-- A loan with the vault it is taken from.
abbrev pub Loan : Type 0
Loan = Addr × Asset

pub data ExecuteMsg : Type 0 where
  flash_loan_msg : List Asset → List CosmosMsg → ExecuteMsg
  update_config_msg : Option Addr → Option Addr → ExecuteMsg
  next_loan_msg : Addr → Addr → AssetInfo → List CosmosMsg → List Loan → List Loan → ExecuteMsg
  complete_loan_msg : Addr → List Loan → ExecuteMsg

pub data VaultRouterError : Type 0 where
  std : StdError → VaultRouterError
  unauthorized nested_flash_loans_disabled : VaultRouterError
  invalid_asset : Asset → VaultRouterError
  negative_profit : Asset → ℕ → ℕ → VaultRouterError

-- The messages of a response: those of the caller and the payments, `FlashLoan` of a vault with an
-- amount and the message it calls the router back with, and a call of the router itself.
pub data Message : Type 0 where
  send : CosmosMsg → Message
  call_flash_loan : Addr → ℕ → ExecuteMsg → Message
  call_router : Addr → ExecuteMsg → Message

-- What the router reads of the chain during a call: its own address and balances, the vault that a
-- factory names for an asset, and the payback amount that a vault names for a loan.
pub record Chain : Type 0 where
  pub contract_address : Addr
  pub query_vault : Addr → AssetInfo → Result StdError (Option Addr)
  pub query_payback_amount : Addr → ℕ → Result StdError ℕ
  pub balance : AssetInfo → Result StdError ℕ

-- An error of the standard library, raised in a handler.
abbrev pub lift {ℓ} : {A : Type ℓ} → Result StdError A → Result VaultRouterError A
lift (ok a) = ok a
lift (err e) = err (std e)

unfoldable pub find_vaults : Chain → Config → List Asset → Result VaultRouterError (List Loan)
find_vaults ch config [] = ok []
find_vaults ch config (asset ∷ assets) = do
  queried ← lift (ch.query_vault config.vault_factory asset.info)
  address ← ok_or queried (invalid_asset asset)
  vaults ← find_vaults ch config assets
  ok ((address, asset) ∷ vaults)

-- More than one asset is refused.
abbrev pub is_nested : List Asset → Bool
is_nested [] = Bool.false
is_nested (asset ∷ []) = Bool.false
is_nested (asset ∷ other ∷ assets) = Bool.true

-- The loan from the first vault, if there is one.
unfoldable pub first_loan : Addr → List CosmosMsg → List Loan → List Message
first_loan sender msgs [] = []
first_loan sender msgs ((vault, asset) ∷ next_vaults) =
    call_flash_loan vault asset.amount
      (next_loan_msg sender vault asset.info msgs next_vaults ((vault, asset) ∷ next_vaults))
    ∷ []

unfoldable pub flash_loan :
    Chain
    → Config
    → MessageInfo
    → List Asset
    → List CosmosMsg
    → Result VaultRouterError (List Message)
unfolding find_vaults first_loan
flash_loan ch config info assets msgs = do
  fail_if (is_nested assets) nested_flash_loans_disabled
  vaults ← find_vaults ch config assets
  ok (first_loan info.sender msgs vaults)

-- The next loan; after the last one, the messages of the initiator and then `CompleteLoan`.
unfoldable pub loan_or_pay : Chain → Addr → List CosmosMsg → List Loan → List Loan → List Message
loan_or_pay ch initiator payload [] loaned_assets =
    map send payload
    ++ call_router ch.contract_address (complete_loan_msg initiator loaned_assets) ∷ []
loan_or_pay ch initiator payload ((vault, asset) ∷ loans) loaned_assets =
    call_flash_loan vault asset.amount
      (next_loan_msg initiator vault asset.info payload loans loaned_assets)
    ∷ []

-- The payback amount to the vault, and a profit that is not zero to the initiator.
abbrev pub payments : Addr → Loan → ℕ → ℕ → List Message
payments initiator (vault, asset) payback_amount profit_amount =
    send (message_of asset.info payback_amount vault)
    ∷ (if profit_amount == 0 then [] else send (message_of asset.info profit_amount initiator) ∷ [])

module _ ⦃cw : Cosmwasm⦄ where
  abbrev pub validated : Addr → Result VaultRouterError Addr
  validated a = ok_or (addr_validate a) (std StdError.generic_err)

  unfoldable pub instantiate : InstantiateMsg → Result VaultRouterError Config
  instantiate msg = do
    owner ← validated msg.owner
    vault_factory ← validated msg.vault_factory_addr
    ok (record { owner = owner; vault_factory = vault_factory })

  abbrev pub new_addr : Addr → Option Addr → Result VaultRouterError Addr
  new_addr old none = ok old
  new_addr old (some a) = validated a

  unfoldable pub update_config :
      Config → MessageInfo → Option Addr → Option Addr → Result VaultRouterError Config
  update_config config info new_owner new_vault_factory_addr = do
    fail_if (not (info.sender == config.owner)) unauthorized
    owner ← new_addr config.owner new_owner
    vault_factory ← new_addr config.vault_factory new_vault_factory_addr
    ok (record { owner = owner; vault_factory = vault_factory })

  -- Only the vault that the factory names for the asset may call.
  unfoldable pub next_loan :
      Chain
      → Config
      → MessageInfo
      → List CosmosMsg
      → Addr
      → Addr
      → AssetInfo
      → List Loan
      → List Loan
      → Result VaultRouterError (List Message)
  unfolding loan_or_pay
  next_loan ch config info payload initiator source_vault source_vault_asset to_loan loaned_assets =
      do
        queried ← lift (ch.query_vault config.vault_factory source_vault_asset)
        queried_vault ← ok_or queried unauthorized
        validated_source_vault ← validated source_vault
        fail_if (not (info.sender == validated_source_vault)) unauthorized
        validated_vault ← validated queried_vault
        fail_if (not (validated_vault == validated_source_vault)) unauthorized
        ok (loan_or_pay ch initiator payload to_loan loaned_assets)

  -- The messages that settle one loan.
  unfoldable pub settle_loan : Chain → Addr → Loan → Result VaultRouterError (List Message)
  unfolding message_of
  settle_loan ch initiator (vault, asset) = do
    payback_amount ← lift (ch.query_payback_amount vault asset.amount)
    final_amount ← lift (ch.balance asset.info)
    profit_amount ←
        ok_or (checked_sub final_amount payback_amount)
          (negative_profit asset final_amount payback_amount)
    ok (payments initiator (vault, asset) payback_amount profit_amount)

  unfoldable pub settle_loans : Chain → Addr → List Loan → Result VaultRouterError (List Message)
  unfolding settle_loan
  settle_loans ch initiator [] = ok []
  settle_loans ch initiator (loan ∷ loans) = do
    messages ← settle_loan ch initiator loan
    others ← settle_loans ch initiator loans
    ok (messages ++ others)

  -- Only the router itself may call.
  unfoldable pub complete_loan :
      Chain → MessageInfo → Addr → List Loan → Result VaultRouterError (List Message)
  unfolding settle_loans
  complete_loan ch info initiator loaned_assets = do
    fail_if (not (info.sender == ch.contract_address)) unauthorized
    settle_loans ch initiator loaned_assets

  unfoldable pub execute :
      Chain → Config → MessageInfo → ExecuteMsg → Result VaultRouterError (Config × List Message)
  unfolding flash_loan next_loan complete_loan update_config
  execute ch config info (flash_loan_msg assets msgs) = do
    messages ← flash_loan ch config info assets msgs
    ok (config, messages)
  execute ch config info (update_config_msg owner vault_factory_addr) = do
    config' ← update_config config info owner vault_factory_addr
    ok (config', [])
  execute ch config info
        (next_loan_msg initiator source_vault source_vault_asset payload to_loan loaned_assets) =
      do
        messages ←
            next_loan ch config info payload initiator source_vault source_vault_asset to_loan
              loaned_assets
        ok (config, messages)
  execute ch config info (complete_loan_msg initiator loaned_assets) = do
    messages ← complete_loan ch info initiator loaned_assets
    ok (config, messages)
