-- ===== src/VaultRouter/Tests.antt =====
-- Concrete runs of the router of flash loans.
use migaloo_core.Prelude.{
  ℕ, ◌*◌, ◌≡◌, refl, true, false, Option, none, some, List, [], ◌∷◌, ◌++◌, map, ◌==◌, if◌then◌else◌,
  arith, ok, err,
}
use migaloo_core.Cosmwasm.{Cosmwasm, documented, MessageInfo, CosmosMsg, addr_validate}
use migaloo_core.Asset.{Asset, AssetInfo, native_token, token, message_of}
use migaloo_core.Fee.{compute}
use migaloo_core.Vault.Loans.{get_payback_amount, fee_for, with_fees, after_trade}
use migaloo_core.VaultRouter.Access.{IsAllowed, execute-IsAllowed}
use migaloo_core.VaultRouter.Repayment.{
  IsSettled, received, complete_loan-IsSettled, complete_loan-after_trade, flash_loan-next_loan,
}
use migaloo_core.VaultRouter.{
  Config, ExecuteMsg, next_loan_msg, complete_loan_msg, Message, send, call_flash_loan, call_router,
  Chain, negative_profit, invalid_asset, nested_flash_loans_disabled, unauthorized, find_vaults,
  first_loan, flash_loan, loan_or_pay, next_loan, settle_loan, settle_loans, complete_loan,
  instantiate, update_config, execute,
}
use migaloo_core.Vault

instance abbrev cosmwasm : Cosmwasm
cosmwasm = documented

-- The vault 9 lends the denom 6; the factory is 12.
abbrev vault_of : AssetInfo → Option ℕ
vault_of (native_token denom) = if denom == 6 then some 9 else none
vault_of (token contract_addr) = none

-- The router is 11, holds `n`; the vault asks for 1060.
abbrev chain : ℕ → Chain
chain n = record {
  contract_address = 11;
  query_vault = λ factory info. ok (vault_of info);
  query_payback_amount = λ vault amount. ok (1060);
  balance = λ info. ok n;
}

abbrev config : Config
config = record { owner = 1; vault_factory = 12 }

abbrev by : ℕ → MessageInfo
by who = record { sender = who; funds = [] }

abbrev coins : Asset
coins = record { info = native_token 6; amount = 1000 }

abbrev payload : List CosmosMsg
payload = CosmosMsg.wasm_execute 30 1 [] ∷ []

abbrev loan_message : ExecuteMsg
loan_message = next_loan_msg 7 9 (native_token 6) payload [] ((9, coins) ∷ [])

instantiate_runs : instantiate (record { owner = 1; vault_factory_addr = 12 }) ≡ ok config
unfolding instantiate
instantiate_runs = refl

flash_loan_runs :
    flash_loan (chain 0) config (by 7) (coins ∷ []) payload
    ≡ ok (call_flash_loan 9 1000 loan_message ∷ [])
unfolding flash_loan find_vaults first_loan
flash_loan_runs = refl

empty_runs : flash_loan (chain 0) config (by 7) [] payload ≡ ok []
unfolding flash_loan find_vaults first_loan
empty_runs = refl

nested_runs :
    flash_loan (chain 0) config (by 7) (coins ∷ coins ∷ []) payload
    ≡ err nested_flash_loans_disabled
unfolding flash_loan
nested_runs = refl

no_vault_runs :
    flash_loan (chain 0) config (by 7) (record { info = token 6; amount = 5 } ∷ []) payload
    ≡ err (invalid_asset (record { info = token 6; amount = 5 }))
unfolding flash_loan find_vaults
no_vault_runs = refl

abbrev payments_1070 : List Message
payments_1070 =
    send (message_of (native_token 6) 1060 9) ∷ send (message_of (native_token 6) 10 7) ∷ []

complete_loan_runs : complete_loan (chain 1070) (by 11) 7 ((9, coins) ∷ []) ≡ ok payments_1070
unfolding complete_loan settle_loans settle_loan message_of
complete_loan_runs = refl

short_runs :
    complete_loan (chain 5) (by 11) 7 ((9, coins) ∷ []) ≡ err (negative_profit coins 5 1060)
unfolding complete_loan settle_loans settle_loan
short_runs = refl

stranger_runs : complete_loan (chain 1070) (by 7) 7 ((9, coins) ∷ []) ≡ err unauthorized
unfolding complete_loan
stranger_runs = refl

next_loan_runs :
    execute (chain 0) config (by 9) loan_message
    ≡ ok (
      config,
      send (CosmosMsg.wasm_execute 30 1 [])
          ∷ call_router 11 (complete_loan_msg 7 ((9, coins) ∷ []))
          ∷ [],
    )
unfolding execute next_loan loan_or_pay
next_loan_runs = refl

update_runs :
    update_config config (by 1) (some 2) none ≡ ok (record { owner = 2; vault_factory = 12 })
unfolding update_config
update_runs = refl

execute-IsAllowed_example : IsAllowed (chain 0) config config 9 loan_message
execute-IsAllowed_example =
    execute-IsAllowed (chain 0) config (by 9) loan_message
      (
        config,
        send (CosmosMsg.wasm_execute 30 1 [])
            ∷ call_router 11 (complete_loan_msg 7 ((9, coins) ∷ []))
            ∷ [],
      )
      next_loan_runs

complete_loan-IsSettled_example :
    ((by 11).sender ≡ 11) × IsSettled (chain 1070) 7 ((9, coins) ∷ []) payments_1070
complete_loan-IsSettled_example =
    complete_loan-IsSettled (chain 1070) (by 11) 7 ((9, coins) ∷ []) payments_1070
      complete_loan_runs

named_valid :
    (a : ℕ) → (chain 0).query_vault 12 (native_token 6) ≡ ok (some a) → addr_validate a ≡ some a
named_valid a h = refl

flash_loan-next_loan_example :
    (vault : ℕ) × (msg : ExecuteMsg) × ((chain 0).query_vault 12 (native_token 6) ≡ ok (some vault))
    × (call_flash_loan 9 1000 loan_message ∷ [] ≡ call_flash_loan vault 1000 msg ∷ [])
    × (execute (chain 0) config (record { sender = vault; funds = [] }) msg
        ≡ ok (
          config,
          map send payload ++ call_router 11 (complete_loan_msg 7 ((vault, coins) ∷ [])) ∷ [],
        ))
flash_loan-next_loan_example =
    flash_loan-next_loan (chain 0) config (by 7) coins payload
      (call_flash_loan 9 1000 loan_message ∷ []) [] named_valid flash_loan_runs

abbrev percent : ℕ
percent = 10000000000000000

abbrev no_coins : Asset
no_coins = record { info = native_token 6; amount = 0 }

-- The vault during the loan: 1 % for the protocol, 2 % for the depositors, 3 % to burn.
abbrev lent : Vault.State
lent = record {
  config = record {
    owner = 1;
    asset_info = native_token 6;
    flash_loan_enabled = true;
    deposit_enabled = true;
    withdraw_enabled = true;
    lp_asset = token 20;
    fee_collector_addr = 3;
    fees = record {
      protocol_fee = record { share = percent };
      flash_loan_fee = record { share = 2 * percent };
      burn_fee = record { share = 3 * percent };
    };
  };
  collected_protocol_fees = no_coins;
  all_time_collected_protocol_fees = no_coins;
  all_time_burned_fees = no_coins;
  loan_counter = 1;
}

abbrev vault_chain : Vault.Chain
vault_chain = record {
  contract_address = 9;
  balance = λ info. ok 5160;
  total_supply = λ contract. ok 5000;
  allowance = λ contract owner. ok 0;
  is_factory_token = λ denom. false;
  get_label = λ info. ok tt;
}

payback_runs :
    get_payback_amount lent 1000
    ≡ ok (record { payback_amount = 1060; protocol_fee = 10; flash_loan_fee = 20; burn_fee = 30 })
unfolding get_payback_amount fee_for compute with_fees
payback_runs = refl

received_runs : received (native_token 6) 9 payments_1070 ≡ 1060
unfolding received message_of
received_runs = refl

complete_loan-after_trade_example :
    (r : Vault.State × List Vault.Message) × (after_trade vault_chain lent 5100 1000 ≡ ok r)
unfolding received message_of
complete_loan-after_trade_example =
    complete_loan-after_trade (chain 1070) (by 11) 7 9 coins payments_1070 vault_chain lent
      (record { payback_amount = 1060; protocol_fee = 10; flash_loan_fee = 20; burn_fee = 30 }) 4100
      5100 complete_loan_runs payback_runs refl refl refl refl (omega arith) (omega arith)
      (omega arith) (omega arith)
