-- ===== src/FeeDistributor/Claim.antt =====
-- `claim` of fee_distributor/src/commands.rs.
use migaloo_core.Prelude.{
  ℕ, List, [], ◌∷◌, map, ◌==◌, if◌then◌else◌, find, is_empty, Result, ok, ◌>>=◌, ◌>>◌, fail_if,
  ok_or,
}
use migaloo_core.Cosmwasm.{
  Cosmwasm, Addr, MessageInfo, CosmosMsg, StdError, checked_add, checked_sub, mul_floor,
}
use migaloo_core.Asset.{Asset, AssetInfo, equal, into_msg, aggregate_assets}
use migaloo_core.Storage.{Map, save}
use migaloo_core.Storage.Keys.{nat_key}
use migaloo_core.FeeDistributor.{
  Epoch, default_epoch, State, ContractError, std, nothing_to_claim, LairQueries, lift,
}
use migaloo_core.FeeDistributor.Epochs.{query_claimable, head_or}

-- The state of the loops of `claim`: the epochs, the epoch at hand and the fees to pay out.
abbrev pub Claiming : Type 0
Claiming = Map ℕ Epoch × Epoch × List Asset

module _ ⦃cw : Cosmwasm⦄ where
  -- One round of the loop over `epoch.available`: the reward comes off an entry of the asset.
  unfoldable pub take_from : Asset → AssetInfo → ℕ → Result ContractError Asset
  take_from a i reward =
      if equal a.info i
      then (do
        amount ← ok_or (checked_sub a.amount reward) (std StdError.overflow)
        ok (record a { amount = amount }))
      else ok a

  unfoldable pub take_reward : List Asset → AssetInfo → ℕ → Result ContractError (List Asset)
  take_reward [] i reward = ok []
  take_reward (a ∷ available) i reward = do
    a' ← take_from a i reward
    others ← take_reward available i reward
    ok (a' ∷ others)

  -- One round of the loop over `epoch.claimed`.
  unfoldable pub add_to : Asset → AssetInfo → ℕ → Result ContractError Asset
  add_to a i reward =
      if equal a.info i
      then (do
        amount ← ok_or (checked_add 128 a.amount reward) (std StdError.overflow)
        ok (record a { amount = amount }))
      else ok a

  unfoldable pub add_claimed : List Asset → AssetInfo → ℕ → Result ContractError (List Asset)
  add_claimed [] i reward = ok []
  add_claimed (a ∷ claimed) i reward = do
    a' ← add_to a i reward
    others ← add_claimed claimed i reward
    ok (a' ∷ others)

  unfoldable pub record_claimed : List Asset → AssetInfo → ℕ → Result ContractError (List Asset)
  unfolding add_claimed
  record_claimed claimed i reward =
      if is_empty claimed
      then ok (record { info = i; amount = reward } ∷ [])
      else add_claimed claimed i reward

  -- The check that a fee is available at all. The code builds the error `InvalidReward` for a reward
  -- above the available amount inside of an `Ok` and drops it, so it has no effect.
  unfoldable pub check_fee : List Asset → AssetInfo → Result ContractError (Unit {0})
  check_fee available i = do
    found ← ok_or (find (λ a. equal a.info i) available) (std StdError.generic_err)
    ok tt

  -- The epoch after a reward has been taken from it.
  unfoldable pub pay_reward : Epoch → AssetInfo → ℕ → Result ContractError Epoch
  unfolding check_fee
  pay_reward e i reward = do
    available ← take_reward e.available i reward
    claimed ← record_claimed e.claimed i reward
    ok (record e { available = available; claimed = claimed })

  -- One round of the loop over `epoch.total`.
  unfoldable pub claim_fee : ℕ → Asset → Claiming → Result ContractError Claiming
  unfolding check_fee
  claim_fee share fee (m, e, fees) = do
    reward ← ok_or (mul_floor 128 fee.amount share) (std StdError.overflow)
    if reward == 0 then ok (m, e, fees) else (do
      check_fee e.available fee.info
      fees' ← lift (aggregate_assets fees (record { info = fee.info; amount = reward } ∷ []))
      e' ← pay_reward e fee.info reward
      ok (save e'.id e' m, e', fees'))

  unfoldable pub claim_fees : ℕ → List Asset → Claiming → Result ContractError Claiming
  claim_fees share [] c = ok c
  claim_fees share (fee ∷ total) c = do c' ← claim_fee share fee c; claim_fees share total c'

  -- The loop over the claimable epochs.
  unfoldable pub claim_epochs :
      LairQueries
      → State
      → Addr
      → List Epoch
      → Map ℕ Epoch × List Asset
      → Result ContractError (Map ℕ Epoch × List Asset)
  claim_epochs q s sender [] (m, fees) = ok (m, fees)
  claim_epochs q s sender (e ∷ epochs) (m, fees) = do
    response ← lift (q.weight s.config.bonding_contract_addr sender e.start_time e.global_index)
    c ← claim_fees response.share e.total (m, e, fees)
    claim_epochs q s sender epochs (c.0, c.2)

  unfoldable pub claim :
      LairQueries → State → MessageInfo → Result ContractError (State × List CosmosMsg)
  claim q s info = do
    epochs ← lift (query_claimable q s info.sender)
    fail_if (is_empty epochs) nothing_to_claim
    r ← claim_epochs q s info.sender epochs (s.epochs, [])
    let newest : Epoch = head_or default_epoch epochs
    ok (
      record s {
        epochs = r.0;
        last_claimed_epoch = save info.sender newest.id s.last_claimed_epoch;
      },
      map (λ fee. into_msg fee info.sender) r.1,
    )
