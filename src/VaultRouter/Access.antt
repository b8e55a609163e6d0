-- ===== src/VaultRouter/Access.antt =====
-- Who may call which message of the router, and who may change its configuration.
use migaloo_core.Prelude.{
  ◌≡◌, refl, ap, true, false, List, ◌==◌, arith, Result, ok, err, fail_if, ok_or, >>=-elim,
  ok-injective, Bool, some, Option, sym, ◌∙◌, not,
}
use migaloo_core.Cosmwasm.{
  Cosmwasm, Addr, MessageInfo, CosmosMsg, StdError, addr_validate, addr_validate_lem,
}
use migaloo_core.Checked.{ok_or-eq-ok}
use migaloo_core.Asset.{AssetInfo}
use migaloo_core.VaultRouter.{
  flash_loan_msg, update_config_msg, update_config, Config, Loan, ExecuteMsg, next_loan_msg,
  complete_loan_msg, Message, Chain, std, unauthorized, lift, flash_loan, validated, next_loan,
  complete_loan, execute,
}

pub lift_ok {ℓ} : {A : Type ℓ} {m : Result StdError A} {a : A} → lift m ≡ ok a → m ≡ ok a
lift_ok {m = ok b} h = ground arith
lift_ok {m = err e} h = cc

pub fail_if-eq-ok {ℓ} :
    {E : Type ℓ} (b : Bool) (e : E) (done : Unit {0}) → fail_if b e ≡ ok done → b ≡ false
fail_if-eq-ok true e done h = cc
fail_if-eq-ok false e done h = refl

-- What the sender must be for a message to succeed, and what then becomes of the configuration.
unfoldable pub IsAllowed : Chain → Config → Config → Addr → ExecuteMsg → Type 0
IsAllowed ch config config' sender (flash_loan_msg assets msgs) = config' ≡ config
IsAllowed ch config config' sender (update_config_msg owner vault_factory_addr) =
    sender ≡ config.owner
IsAllowed ch config config' sender
      (next_loan_msg initiator source_vault source_vault_asset payload to_loan loaned_assets) =
    (config' ≡ config)
    × (ch.query_vault config.vault_factory source_vault_asset ≡ ok (some sender))
    × (source_vault ≡ sender)
IsAllowed ch config config' sender (complete_loan_msg initiator loaned_assets) =
    (config' ≡ config) × (sender ≡ ch.contract_address)

module _ ⦃cw : Cosmwasm⦄ where
  validated_lem : (a b : Addr) → validated a ≡ ok b → addr_validate a ≡ some b
  validated_lem a b h = ok_or-eq-ok (addr_validate a) (std StdError.generic_err) b h

  next_loan-sender :
      (ch : Chain) (config : Config) (info : MessageInfo) (payload : List CosmosMsg)
      (initiator source_vault : Addr) (source_vault_asset : AssetInfo) (to_loan loaned : List Loan)
      (messages : List Message)
      → next_loan ch config info payload initiator source_vault source_vault_asset to_loan loaned
        ≡ ok messages
      → (ch.query_vault config.vault_factory source_vault_asset ≡ ok (some info.sender))
        × (source_vault ≡ info.sender)
  unfolding next_loan
  next_loan-sender ch config info payload initiator source_vault source_vault_asset to_loan loaned
        messages h =
      >>=-elim (lift (ch.query_vault config.vault_factory source_vault_asset)) h λ queried e1 h1.
        >>=-elim (ok_or queried unauthorized) h1 λ vault e2 h2.
          >>=-elim (validated source_vault) h2 λ source e3 h3.
            >>=-elim (fail_if (not (info.sender == source)) unauthorized) h3 λ done e4 h4.
              >>=-elim (validated vault) h4 λ named e5 h5.
                >>=-elim (fail_if (not (named == source)) unauthorized) h5 λ done' e6 h6.
                  let source_is =
                    addr_validate_lem source_vault source (validated_lem source_vault source e3) in
                  let named_is = addr_validate_lem vault named (validated_lem vault named e5) in
                  let sent = fail_if-eq-ok (not (info.sender == source)) unauthorized done e4 in
                  let alike = fail_if-eq-ok (not (named == source)) unauthorized done' e6 in
                  let vault_is : vault ≡ info.sender = ground arith in
                  (
                    lift_ok e1
                        ∙ ap ok (ok_or-eq-ok queried unauthorized vault e2 ∙ ap some vault_is),
                    ground arith,
                  )

  complete_loan-sender :
      (ch : Chain) (info : MessageInfo) (initiator : Addr) (loans : List Loan)
      (messages : List Message)
      → complete_loan ch info initiator loans ≡ ok messages
      → info.sender ≡ ch.contract_address
  unfolding complete_loan
  complete_loan-sender ch info initiator loans messages h =
      >>=-elim (fail_if (not (info.sender == ch.contract_address)) unauthorized) h λ done h1 rest.
        ground
          (arith, fail_if-eq-ok (not (info.sender == ch.contract_address)) unauthorized done h1)

  update_config-sender :
      (config config' : Config) (info : MessageInfo) (owner vault_factory_addr : Option Addr)
      → update_config config info owner vault_factory_addr ≡ ok config'
      → info.sender ≡ config.owner
  unfolding update_config
  update_config-sender config config' info owner vault_factory_addr h =
      >>=-elim (fail_if (not (info.sender == config.owner)) unauthorized) h λ done h1 rest.
        ground (arith, fail_if-eq-ok (not (info.sender == config.owner)) unauthorized done h1)

  -- Whatever message succeeds, its sender was allowed to send it: only the owner changes the
  -- configuration, which all other messages leave as it is, only the vault that the factory names
  -- for the asset of a running loan goes on with it, and must be the source vault of the message,
  -- and only the router itself completes a loan.
  pub execute-IsAllowed :
      (ch : Chain) (config : Config) (info : MessageInfo) (msg : ExecuteMsg)
      (r : Config × List Message)
      → execute ch config info msg ≡ ok r
      → IsAllowed ch config r.0 info.sender msg
  unfolding execute IsAllowed
  execute-IsAllowed ch config info (flash_loan_msg assets msgs) r h =
      >>=-elim (flash_loan ch config info assets msgs) h
        λ messages h1 rest. ap (λ t. t.0) (sym (ok-injective rest))
  execute-IsAllowed ch config info (update_config_msg owner vault_factory_addr) r h =
      >>=-elim (update_config config info owner vault_factory_addr) h
        λ config' h1 rest. update_config-sender config config' info owner vault_factory_addr h1
  execute-IsAllowed ch config info
        (next_loan_msg initiator source_vault source_vault_asset payload to_loan loaned_assets) r
        h =
      >>=-elim
        (next_loan ch config info payload initiator source_vault source_vault_asset to_loan
          loaned_assets)
        h
        λ messages h1 rest.
          let (named, source) =
            next_loan-sender ch config info payload initiator source_vault source_vault_asset
              to_loan loaned_assets messages h1 in
          (ap (λ t. t.0) (sym (ok-injective rest)), named, source)
  execute-IsAllowed ch config info (complete_loan_msg initiator loaned_assets) r h =
      >>=-elim (complete_loan ch info initiator loaned_assets) h λ messages h1 rest. (
        ap (λ t. t.0) (sym (ok-injective rest)),
        complete_loan-sender ch info initiator loaned_assets messages h1,
      )
