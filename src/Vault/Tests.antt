-- ===== src/Vault/Tests.antt =====
-- Concrete runs of the vault.
use migaloo_core.Prelude.{
  ℕ, ◌+◌, ◌*◌, ◌/◌, ◌≤◌, ◌<◌, ◌≡◌, ◌≢◌, ◌⊎◌, refl, true, false, List, [], ◌∷◌, arith, ok, err,
}
use migaloo_core.Cosmwasm.{Cosmwasm, documented, MessageInfo, CosmosMsg}
use migaloo_core.Asset.{native_token, token, into_msg, minimum_liquidity_amount}
use migaloo_core.Fee.{compute, are_valid, is_valid}
use migaloo_core.Vault.Creation.{InstantiateMsg, initialize_fee, instantiate, lp_instantiate}
use migaloo_core.Vault.Reachable.{IsReachable, reachable-IsSound}
use migaloo_core.Vault.{State, Chain, Message, send, negative_profit, deposit_during_loan}
use migaloo_core.Vault.Loans.{
  store_fee, fee_for, with_fees, get_payback_amount, flash_loan, profit_of, burn, after_trade,
}
use migaloo_core.Vault.Liquidity.{
  mint_lp_token_msg, burn_lp_asset_msg, sum_sent, add_coin, sent_funds, get_total_share, query_pool,
  later_share, deposit, part_of, own_assets, withdraw, get_share,
}
use migaloo_core.Vault.Messages.{flash_loan_msg, after_trade_msg, callback, execute}
use migaloo_core.Vault.Repayment.{after_trade-repaid, after_trade-get_payback_amount, repaid}
use migaloo_core.Vault.Shares.{withdraw-get_share, deposit_mints, get_share-later_share}
use migaloo_core.Vault.Soundness.{IsSound, IsKept, execute-IsKept}

instance abbrev cosmwasm : Cosmwasm
cosmwasm = documented

-- The vault is 9 and holds `n` of the denom 6; its LP token is 20, of which there are `m`.
abbrev chain : ℕ → ℕ → Chain
chain n m = record {
  contract_address = 9;
  balance = λ info. ok n;
  total_supply = λ contract. ok m;
  allowance = λ contract owner. ok 0;
  is_factory_token = λ denom. false;
  get_label = λ info. ok tt;
}

abbrev percent : ℕ
percent = 10000000000000000

-- 1 % for the protocol, 2 % for the depositors, 3 % to burn.
abbrev start : State
start = record {
  config = record {
    owner = 1;
    asset_info = native_token 6;
    flash_loan_enabled = true;
    deposit_enabled = true;
    withdraw_enabled = true;
    lp_asset = token 20;
    fee_collector_addr = 3;
    fees = record {
      protocol_fee = record { share = percent };
      flash_loan_fee = record { share = 2 * percent };
      burn_fee = record { share = 3 * percent };
    };
  };
  collected_protocol_fees = record { info = native_token 6; amount = 100 };
  all_time_collected_protocol_fees = record { info = native_token 6; amount = 300 };
  all_time_burned_fees = record { info = native_token 6; amount = 50 };
  loan_counter = 0;
}

abbrev lent : State
lent = record start { loan_counter = 1 }

abbrev by : ℕ → ℕ → MessageInfo
by who n = record { sender = who; funds = record { denom = 6; amount = n } ∷ [] }

flash_loan_runs :
    execute (chain 5100 5000) start (by 7 0) (flash_loan_msg 1000 33)
    ≡ ok (
      lent,
      send (CosmosMsg.wasm_execute 7 33 (record { denom = 6; amount = 1000 } ∷ []))
          ∷ Message.call_after_trade 9 5100 1000
          ∷ [],
    )
unfolding execute flash_loan
flash_loan_runs = refl

payback_runs :
    get_payback_amount lent 1000
    ≡ ok (record { payback_amount = 1060; protocol_fee = 10; flash_loan_fee = 20; burn_fee = 30 })
unfolding get_payback_amount fee_for compute with_fees
payback_runs = refl

after_trade_runs : after_trade (chain 5160 5000) lent 5100 1000 ≡ ok (repaid lent 10 30)
unfolding after_trade fee_for compute with_fees profit_of store_fee burn
after_trade_runs = refl

short_runs : after_trade (chain 5159 5000) lent 5100 1000 ≡ err negative_profit
unfolding after_trade fee_for compute with_fees
short_runs = refl

callback_runs :
    execute (chain 5160 5000) lent (by 9 0) (after_trade_msg 5100 1000) ≡ ok (repaid lent 10 30)
unfolding execute callback after_trade fee_for compute with_fees profit_of store_fee burn
callback_runs = refl

-- 5100 in the vault, of which 100 are protocol fees and 500 the deposit; 4500 shares stand for 4500.
abbrev minted : List Message
minted = mint_lp_token_msg 20 7 500 ∷ []

later_share_runs : later_share (chain 5100 4500) start 500 4500 ≡ ok 500
unfolding later_share query_pool
later_share_runs = refl

deposit_runs : deposit (chain 5100 4500) start (by 7 500) 500 ≡ ok minted
unfolding deposit sent_funds sum_sent add_coin get_total_share later_share query_pool
deposit_runs = refl

no_deposit : deposit (chain 5100 4500) lent (by 7 500) 500 ≡ err deposit_during_loan
unfolding deposit
no_deposit = refl

share_runs : get_share (chain 5100 5000) start 500 ≡ ok 500
unfolding get_share get_total_share own_assets part_of
share_runs = refl

abbrev withdrawn : List Message
withdrawn =
    send (into_msg (record { info = native_token 6; amount = 500 }) 7)
    ∷ burn_lp_asset_msg 20 500
    ∷ []

withdraw_runs : withdraw (chain 5100 5000) start 7 500 ≡ ok withdrawn
unfolding withdraw get_total_share own_assets part_of
withdraw_runs = refl

after_trade-repaid_example :
    (new_balance : ℕ) × (p : ℕ) × (f : ℕ) × (b : ℕ) × ((chain 5160 5000).balance
        lent.config.asset_info
      ≡ ok new_balance)
    × (fee_for lent.config.fees.protocol_fee 1000 ≡ ok p)
    × (fee_for lent.config.fees.flash_loan_fee 1000 ≡ ok f)
    × (fee_for lent.config.fees.burn_fee 1000 ≡ ok b)
    × (5100 + p + f + b ≤ new_balance)
    × (repaid lent 10 30 ≡ repaid lent p b)
    × (5100 + f + (repaid lent 10 30).0.collected_protocol_fees.amount + b ≤ new_balance + 100)
after_trade-repaid_example =
    after_trade-repaid (chain 5160 5000) lent 5100 1000 (repaid lent 10 30) after_trade_runs

after_trade-get_payback_amount_example :
    (5100 + 1060 ≤ 5160 + 1000
      → (r : State × List Message) × (after_trade (chain 5160 5000) lent 5100 1000 ≡ ok r))
    × (5160 + 1000 < 5100 + 1060
        → after_trade (chain 5160 5000) lent 5100 1000 ≡ err negative_profit)
after_trade-get_payback_amount_example =
    after_trade-get_payback_amount (chain 5160 5000) lent 5100 1000 5160
      (record { payback_amount = 1060; protocol_fee = 10; flash_loan_fee = 20; burn_fee = 30 })
      payback_runs refl (omega arith) (omega arith) (omega arith) (omega arith)

withdraw-get_share_example :
    (own : ℕ) × (total_share : ℕ) × (w : ℕ) × (own_assets (chain 5100 5000) start ≡ ok own)
    × (get_total_share (chain 5100 5000) 20 ≡ ok total_share)
    × (get_share (chain 5100 5000) start 500 ≡ ok w)
    × (total_share ≢ 0)
    × (w * total_share ≤ 500 * own)
    × (withdrawn
        ≡ send (into_msg (record { info = native_token 6; amount = w }) 7)
          ∷ burn_lp_asset_msg 20 500
          ∷ [])
withdraw-get_share_example =
    withdraw-get_share (chain 5100 5000) start 7 500 withdrawn withdraw_runs

deposit_mints_example :
    (total_share : ℕ) × (lp : ℕ) × (get_total_share (chain 5100 4500) 20 ≡ ok total_share)
    × (start.loan_counter ≡ 0)
    × (sent_funds (chain 5100 4500) (native_token 6) (by 7 500) ≡ ok 500)
    × (((total_share ≡ 0)
          × (lp + minimum_liquidity_amount ≡ 500)
          × (lp ≢ 0)
          × (minted
              ≡ mint_lp_token_msg 20 9 minimum_liquidity_amount ∷ mint_lp_token_msg 20 7 lp ∷ []))
        ⊎ ((total_share ≢ 0)
            × ((pool : ℕ) × (own : ℕ) × (query_pool (chain 5100 4500) (native_token 6) ≡ ok pool)
                × (pool ≡ own + 500 + 100)
                × (own ≢ 0)
                × (lp ≡ 500 * total_share / own))
            × (minted ≡ mint_lp_token_msg 20 7 lp ∷ [])))
deposit_mints_example = deposit_mints (chain 5100 4500) start (by 7 500) 500 minted deposit_runs

pool_runs : query_pool (chain 5100 4500) (native_token 6) ≡ ok 5100
unfolding query_pool
pool_runs = refl

supply_runs : get_total_share (chain 5100 5000) 20 ≡ ok 5000
unfolding get_total_share
supply_runs = refl

get_share-later_share_example : ◌≤◌ 500 500
get_share-later_share_example =
    get_share-later_share (chain 5100 4500) (chain 5100 5000) start 500 4500 500 5100 500
      later_share_runs pool_runs refl supply_runs share_runs

lent-IsSound : IsSound lent
lent-IsSound = record {
  moderate_fees = omega arith;
  counted = omega arith;
  in_asset = (refl, refl, refl);
}

execute-IsKept_example : IsKept (chain 5160 5000) lent (by 9 0) (repaid lent 10 30).0
execute-IsKept_example =
    execute-IsKept (chain 5160 5000) lent (by 9 0) (after_trade_msg 5100 1000) (repaid lent 10 30)
      lent-IsSound callback_runs

abbrev creation : InstantiateMsg
creation = record {
  owner = 1;
  asset_info = native_token 6;
  token_id = 44;
  vault_fees = start.config.fees;
  fee_collector_addr = 3;
  token_factory_lp = false;
}

abbrev fresh : State
fresh = record start {
  config = record start.config { lp_asset = native_token 0 };
  collected_protocol_fees = initialize_fee (native_token 6);
  all_time_collected_protocol_fees = initialize_fee (native_token 6);
  all_time_burned_fees = initialize_fee (native_token 6);
}

abbrev ready : State
ready = record fresh { config = start.config }

instantiate_runs :
    instantiate (chain 0 0) creation ≡ ok (fresh, Message.instantiate_lp_token 44 ∷ [])
unfolding instantiate are_valid is_valid
instantiate_runs = refl

lp_instantiate_runs : lp_instantiate fresh (ok 20) ≡ ok ready
unfolding lp_instantiate
lp_instantiate_runs = refl

ready_after_trade :
    execute (chain 5160 5000) ready (by 9 0) (after_trade_msg 5100 1000) ≡ ok (repaid ready 10 30)
unfolding execute callback after_trade fee_for compute with_fees profit_of store_fee burn
ready_after_trade = refl

ready-IsReachable : IsReachable (repaid ready 10 30).0
ready-IsReachable =
    IsReachable.executed ready (chain 5160 5000) (by 9 0) (after_trade_msg 5100 1000)
      (repaid ready 10 30)
      (IsReachable.replied fresh (ok 20) ready
        (IsReachable.created (chain 0 0) creation (fresh, Message.instantiate_lp_token 44 ∷ [])
          instantiate_runs)
        lp_instantiate_runs)
      ready_after_trade

reachable-IsSound_example : IsSound (repaid ready 10 30).0
reachable-IsSound_example = reachable-IsSound (repaid ready 10 30).0 ready-IsReachable
