-- ===== src/FeeDistributor/Creation.antt =====
-- The creation of an epoch: `create_new_epoch` of fee_distributor/src/commands.rs, which asks the
-- fee collector to forward the fees, and `reply` of contract.rs, which receives the epoch back.
use migaloo_core.Prelude.{
  ℕ, ◌&&◌, Option, none, some, [], ltb, ◌==◌, not, if◌then◌else◌, Result, ok, ◌>>=◌, ◌>>◌, fail_if,
  ok_or,
}
use migaloo_core.Cosmwasm.{Cosmwasm, Addr, StdError, checked_add, checked_sub}
use migaloo_core.Asset.{AssetInfo, aggregate_assets}
use migaloo_core.Storage.{Map, save}
use migaloo_core.Storage.Keys.{nat_key}
use migaloo_core.WhaleLair.{default_global_index}
use migaloo_core.FeeDistributor.{
  Epoch, State, ContractError, std, current_epoch_not_expired, genesis_epoch_not_started,
  cannot_read_epoch, unknown_reply_id, LairQueries, lift,
}
use migaloo_core.FeeDistributor.Epochs.{get_current_epoch, get_expiring_epoch}

-- The submessage to the fee collector; it is answered by `reply`.
pub record ForwardFees : Type 0 where
  pub contract_addr : Addr
  pub epoch : Epoch
  pub forward_fees_as : AssetInfo

abbrev pub epoch_creation_reply_id : ℕ
epoch_creation_reply_id = 1

module _ ⦃cw : Cosmwasm⦄ where
  -- The very first epoch starts at the genesis time, any other when its predecessor ends.
  unfoldable pub next_start_time : State → ℕ → Epoch → Result ContractError ℕ
  next_start_time s block_time current =
      if current.id == 0 && current.start_time == 0
      then (do
        fail_if (ltb block_time s.config.epoch_config.genesis_epoch) genesis_epoch_not_started
        ok s.config.epoch_config.genesis_epoch)
      else ok_or (checked_add 64 current.start_time s.config.epoch_config.duration)
          (std StdError.panicked)

  unfoldable pub create_new_epoch : State → ℕ → Result ContractError ForwardFees
  unfolding next_start_time
  create_new_epoch s block_time = do
    let current : Epoch = get_current_epoch s
    elapsed ← ok_or (checked_sub block_time current.start_time) (std StdError.panicked)
    fail_if (ltb elapsed s.config.epoch_config.duration) current_epoch_not_expired
    start_time ← next_start_time s block_time current
    id ← ok_or (checked_add 64 current.id 1) (std StdError.overflow)
    ok (record {
      contract_addr = s.config.fee_collector_addr;
      epoch = record {
        id = id;
        start_time = start_time;
        total = [];
        available = [];
        claimed = [];
        global_index = default_global_index;
      };
      forward_fees_as = s.config.distribution_asset;
    })

  -- The fees that nobody claimed move from the expiring epoch, if there is one, to the new one.
  unfoldable pub forward_expiring :
      Map ℕ Epoch → Option Epoch → Epoch → Result ContractError (Map ℕ Epoch)
  forward_expiring m none new = ok (save new.id new m)
  forward_expiring m (some expiring) new = do
    fees ← lift (aggregate_assets new.total expiring.available)
    ok (
        save new.id (record new { total = fees; available = fees })
          (save expiring.id (record expiring { available = [] }) m))

  -- The reply of the fee collector carries the epoch with the fees that it forwarded.
  unfoldable pub reply : LairQueries → State → ℕ → Option Epoch → Result ContractError State
  unfolding forward_expiring
  reply q s id answer = do
    fail_if (not (id == epoch_creation_reply_id)) unknown_reply_id
    new ← ok_or answer cannot_read_epoch
    index ← lift (q.global_index s.config.bonding_contract_addr)
    m ← forward_expiring s.epochs (get_expiring_epoch s) (record new { global_index = index })
    ok (record s { epochs = m })
