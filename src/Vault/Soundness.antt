-- ===== src/Vault/Soundness.antt =====
-- The vault stays sound: its fees below 100 %, its accounts in step, its settings the owner's.
use migaloo_core.Prelude.{
  ℕ, ◌+◌, ◌≤◌, ◌<◌, ◌≡◌, ◌≢◌, refl, Option, none, some, List, ◌==◌, not, arith, ok, fail_if, ok_or,
  >>=-eq-ok,
}
use migaloo_core.Cosmwasm.{
  Cosmwasm, StdError, checked_add, MessageInfo, decimal_one, checked_add_lem,
}
use migaloo_core.Fee.{VaultFee, is_valid, are_valid}
use migaloo_core.Vault.{
  std, Config, State, Chain, Message, lift, unauthorized, external_callback, flash_loans_disabled,
}
use migaloo_core.Vault.Loans.{flash_loan, collect_protocol_fees}
use migaloo_core.Vault.Liquidity.{deposit, withdraw}
use migaloo_core.Vault.Messages.{
  UpdateConfigParams, ExecuteMsg, deposit_msg, withdraw_msg, collect_protocol_fees_msg,
  flash_loan_msg, update_config_msg, receive_msg, after_trade_msg, new_addr, new_fees,
  update_config, sent_lp, receive, callback, execute,
}
use migaloo_core.Vault.Repayment.{after_trade-repaid, repaid, lift_ok}

-- The fees are below 100 % together, what is collected was counted in the total of all time, and
-- all three accounts are in the vault's asset.
pub record IsSound (s : State) : Type 0 where
  pub moderate_fees :
      s.config.fees.protocol_fee.share + s.config.fees.flash_loan_fee.share
        + s.config.fees.burn_fee.share
      < decimal_one
  pub counted : s.collected_protocol_fees.amount ≤ s.all_time_collected_protocol_fees.amount
  pub in_asset :
      (s.collected_protocol_fees.info ≡ s.config.asset_info)
      × (s.all_time_collected_protocol_fees.info ≡ s.config.asset_info)
      × (s.all_time_burned_fees.info ≡ s.config.asset_info)

module _ ⦃cw : Cosmwasm⦄ where
  pub are_valid_lem :
      (fees : VaultFee) (u : Unit {0})
      → are_valid fees ≡ ok u
      → fees.protocol_fee.share + fees.flash_loan_fee.share + fees.burn_fee.share < decimal_one
  unfolding are_valid is_valid
  are_valid_lem fees u h = grind (arith, checked_add_lem)

  new_fees_lem :
      (ch : Chain) (config : Config) (o : Option VaultFee) (fees : VaultFee)
      → config.fees.protocol_fee.share + config.fees.flash_loan_fee.share
          + config.fees.burn_fee.share
        < decimal_one
      → new_fees ch config o ≡ ok fees
      → fees.protocol_fee.share + fees.flash_loan_fee.share + fees.burn_fee.share < decimal_one
  unfolding new_fees
  new_fees_lem ch config none fees v h =
      let same : config.fees ≡ fees = ground arith in rw (← same) v
  new_fees_lem ch config (some new) fees v h =
      let (u, e, k) = >>=-eq-ok (lift (are_valid new)) _ h in
      let same : new ≡ fees = ground arith in rw (← same) (are_valid_lem new u (lift_ok e))

  update_config-IsSound :
      (ch : Chain) (s : State) (info : MessageInfo) (params : UpdateConfigParams) (s' : State)
      → IsSound s
      → update_config ch s info params ≡ ok s'
      → IsSound s'
        × (info.sender ≡ s.config.owner)
        × (s'.config.asset_info ≡ s.config.asset_info)
        × (s'.config.lp_asset ≡ s.config.lp_asset)
        × (s'.all_time_collected_protocol_fees ≡ s.all_time_collected_protocol_fees)
        × (s'.all_time_burned_fees ≡ s.all_time_burned_fees)
        × (s'.loan_counter ≡ s.loan_counter)
  unfolding update_config
  update_config-IsSound ch s info params s' v h =
      let (_, e0, h0) =
        >>=-eq-ok (fail_if (not (s.config.owner == info.sender)) unauthorized) _ h in
      let (o, _, h1) = >>=-eq-ok (new_addr s.config.owner params.new_owner) _ h0 in
      let (c, _, h2) =
        >>=-eq-ok (new_addr s.config.fee_collector_addr params.new_fee_collector_addr) _ h1 in
      let (fees, ef, h3) = >>=-eq-ok (new_fees ch s.config params.new_vault_fees) _ h2 in
      let low = new_fees_lem ch s.config params.new_vault_fees fees v.moderate_fees ef in
      let (a, b, d) = v.in_asset in
      (
        record {
          moderate_fees = ground (arith, low);
          counted = ground (arith, v.counted);
          in_asset = (ground (arith, a), ground (arith, b), ground (arith, d));
        },
        ground arith,
        ground arith,
        ground arith,
        ground arith,
        ground arith,
        ground arith,
      )

  -- What a message leaves: a sound vault of the same assets, whose totals of all time have not
  -- fallen; the settings are the same unless the owner sent it, and the count of running loans has
  -- not fallen unless the vault itself sent it.
  abbrev pub IsKept : Chain → State → MessageInfo → State → Type 0
  IsKept ch s info s' =
      IsSound s'
      × (s'.config.asset_info ≡ s.config.asset_info)
      × (s'.config.lp_asset ≡ s.config.lp_asset)
      × (s.all_time_collected_protocol_fees.amount ≤ s'.all_time_collected_protocol_fees.amount)
      × (s.all_time_burned_fees.amount ≤ s'.all_time_burned_fees.amount)
      × (info.sender ≢ s.config.owner → s'.config ≡ s.config)
      × (info.sender ≢ ch.contract_address → s.loan_counter ≤ s'.loan_counter)

  unchanged-IsKept : (ch : Chain) (s : State) (info : MessageInfo) → IsSound s → IsKept ch s info s
  unchanged-IsKept ch s info v =
      (v, refl, refl, omega arith, omega arith, λ other. refl, λ other. omega arith)

  repaid-IsSound : (s : State) (p b : ℕ) → IsSound s → IsSound (repaid s p b).0
  repaid-IsSound s p b v = record {
    moderate_fees = v.moderate_fees;
    counted = omega (arith, v.counted);
    in_asset = v.in_asset;
  }

  callback-IsKept :
      (ch : Chain) (s : State) (info : MessageInfo) (old_balance loan_amount : ℕ)
      (r : State × List Message)
      → IsSound s
      → callback ch s info old_balance loan_amount ≡ ok r
      → IsKept ch s info r.0
  unfolding callback
  callback-IsKept ch s info old_balance loan_amount r v h =
      let (_, e, h1) =
        >>=-eq-ok (fail_if (not (info.sender == ch.contract_address)) external_callback) _ h in
      let (_, p, _, b, _, _, _, _, _, final, _) =
        after_trade-repaid ch s old_balance loan_amount r h1 in
      let self : info.sender ≡ ch.contract_address = ground arith in
      rw final (
        repaid-IsSound s p b v,
        refl,
        refl,
        omega arith,
        omega arith,
        λ other. refl,
        λ other. absurd (other self),
      )

  flash_loan-IsKept :
      (ch : Chain) (s : State) (info : MessageInfo) (amount msg : ℕ) (r : State × List Message)
      → IsSound s
      → flash_loan ch s info amount msg ≡ ok r
      → IsKept ch s info r.0 × (r.0.loan_counter ≡ s.loan_counter + 1)
  unfolding flash_loan
  flash_loan-IsKept ch s info amount msg r v h =
      let (_, _, h1) =
        >>=-eq-ok (fail_if (not s.config.flash_loan_enabled) flash_loans_disabled) _ h in
      let (n, en, h2) =
        >>=-eq-ok (ok_or (checked_add 32 s.loan_counter 1) (std StdError.overflow)) _ h1 in
      let (b, _, h3) = >>=-eq-ok (lift (ch.balance s.config.asset_info)) _ h2 in
      let next : n ≡ s.loan_counter + 1 = grind (arith, checked_add_lem) in
      let final : record s { loan_counter = n } ≡ r.0 = ground arith in
      rw (← final) (
        (
          record { moderate_fees = v.moderate_fees; counted = v.counted; in_asset = v.in_asset },
          refl,
          refl,
          omega arith,
          omega arith,
          λ other. refl,
          λ other. omega (arith, next),
        ),
        next,
      )

  -- Every message that succeeds on a sound vault keeps it: its fees stay below 100 % together, its
  -- accounts in step and in the vault's asset, which stays the same as the LP asset does; the
  -- totals of all time never fall, only the owner changes the settings, and only the vault's own
  -- callback lowers the count of running loans.
  pub execute-IsKept :
      (ch : Chain) (s : State) (info : MessageInfo) (msg : ExecuteMsg) (r : State × List Message)
      → IsSound s
      → execute ch s info msg ≡ ok r
      → IsKept ch s info r.0
  unfolding execute collect_protocol_fees
  execute-IsKept ch s info (deposit_msg amount) r v h =
      let (ms, _, k) = >>=-eq-ok (deposit ch s info amount) _ h in
      let same : s ≡ r.0 = ground arith in rw (← same) (unchanged-IsKept ch s info v)
  execute-IsKept ch s info withdraw_msg r v h =
      let (amount, _, k) = >>=-eq-ok (sent_lp s.config.lp_asset info.funds) _ h in
      let (ms, _, k') = >>=-eq-ok (withdraw ch s info.sender amount) _ k in
      let same : s ≡ r.0 = ground arith in rw (← same) (unchanged-IsKept ch s info v)
  execute-IsKept ch s info collect_protocol_fees_msg r v h =
      let same : (collect_protocol_fees s).0 ≡ r.0 = ground arith in
      rw (← same) (
        record { moderate_fees = v.moderate_fees; counted = omega arith; in_asset = v.in_asset },
        refl,
        refl,
        omega arith,
        omega arith,
        λ other. refl,
        λ other. omega arith,
      )
  execute-IsKept ch s info (flash_loan_msg amount msg) r v h =
      (flash_loan-IsKept ch s info amount msg r v h).0
  execute-IsKept ch s info (update_config_msg params) r v h =
      let (s', e, k) = >>=-eq-ok (update_config ch s info params) _ h in
      let (sound, owner, asset, lp, all_time, burned, loans) =
        update_config-IsSound ch s info params s' v e in
      let same : s' ≡ r.0 = ground arith in
      rw (← same) (
        sound,
        asset,
        lp,
        ground (arith, all_time),
        ground (arith, burned),
        λ other. absurd (other owner),
        λ other. ground (arith, loans),
      )
  execute-IsKept ch s info (receive_msg msg) r v h =
      let (ms, _, k) = >>=-eq-ok (receive ch s info msg) _ h in
      let same : s ≡ r.0 = ground arith in rw (← same) (unchanged-IsKept ch s info v)
  execute-IsKept ch s info (after_trade_msg old_balance loan_amount) r v h =
      callback-IsKept ch s info old_balance loan_amount r v h
