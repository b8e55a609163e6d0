-- ===== src/Vault/Reachable.antt =====
-- What holds of a vault after any sequence of calls.
use migaloo_core.Prelude.{◌&&◌, ◌≡◌, List, arith, ltb, Result, ok, fail_if, ok_or, >>=-eq-ok}
use migaloo_core.Cosmwasm.{Cosmwasm, Addr, StdError, MessageInfo, addr_validate}
use migaloo_core.Fee.{are_valid}
use migaloo_core.Vault.{State, Chain, Message, lift, token_factory_asset_burn_disabled, std}
use migaloo_core.Vault.Messages.{ExecuteMsg, execute, has_factory_token}
use migaloo_core.Vault.Creation.{InstantiateMsg, instantiate, lp_instantiate}
use migaloo_core.Vault.Repayment.{lift_ok}
use migaloo_core.Vault.Soundness.{IsSound, are_valid_lem, execute-IsKept}

module _ ⦃cw : Cosmwasm⦄ where
  -- The states that successful calls lead to, whatever the chain answers each time.
  pub data IsReachable : State → Type 0 where
    created :
        (ch : Chain) (msg : InstantiateMsg) (r : State × List Message)
        → instantiate ch msg ≡ ok r
        → IsReachable r.0
    replied :
        (s : State) (answer : Result StdError Addr) (s' : State)
        → IsReachable s
        → lp_instantiate s answer ≡ ok s'
        → IsReachable s'
    executed :
        (s : State) (ch : Chain) (info : MessageInfo) (msg : ExecuteMsg) (r : State × List Message)
        → IsReachable s
        → execute ch s info msg ≡ ok r
        → IsReachable r.0

  instantiate-IsSound :
      (ch : Chain) (msg : InstantiateMsg) (r : State × List Message)
      → instantiate ch msg ≡ ok r
      → IsSound r.0
  unfolding instantiate
  instantiate-IsSound ch msg r h =
      let (_, _, h1) =
        >>=-eq-ok
          (fail_if (has_factory_token ch msg.asset_info && ltb 0 msg.vault_fees.burn_fee.share)
            token_factory_asset_burn_disabled)
          _ h in
      let (u, eu, h2) = >>=-eq-ok (lift (are_valid msg.vault_fees)) _ h1 in
      let low = are_valid_lem msg.vault_fees u (lift_ok eu) in
      let (o, _, h3) =
        >>=-eq-ok (ok_or (addr_validate msg.owner) (std StdError.generic_err)) _ h2 in
      let (c, _, h4) =
        >>=-eq-ok (ok_or (addr_validate msg.fee_collector_addr) (std StdError.generic_err)) _ h3 in
      record {
        moderate_fees = ground (arith, low);
        counted = ground arith;
        in_asset = (ground arith, ground arith, ground arith);
      }

  lp_instantiate-IsSound :
      (s : State) (answer : Result StdError Addr) (s' : State)
      → IsSound s
      → lp_instantiate s answer ≡ ok s'
      → IsSound s'
  unfolding lp_instantiate
  lp_instantiate-IsSound s answer s' v h =
      let (a, _, h1) = >>=-eq-ok (lift answer) _ h in
      let (b, _, h2) = >>=-eq-ok (ok_or (addr_validate a) (std StdError.generic_err)) _ h1 in
      let (x, y, z) = v.in_asset in
      record {
        moderate_fees = ground (arith, v.moderate_fees);
        counted = ground (arith, v.counted);
        in_asset = (ground (arith, x), ground (arith, y), ground (arith, z));
      }

  -- After its creation and any sequence of successful calls a vault is sound: its fees are below
  -- 100 % together, the collected fees were all counted, and its three accounts are in its asset.
  pub reachable-IsSound : (s : State) → IsReachable s → IsSound s
  reachable-IsSound _ (created ch msg r h) = instantiate-IsSound ch msg r h
  reachable-IsSound _ (replied s answer s' c h) =
      lp_instantiate-IsSound s answer s' (reachable-IsSound s c) h
  reachable-IsSound _ (executed s ch info msg r c h) =
      (execute-IsKept ch s info msg r (reachable-IsSound s c) h).0
