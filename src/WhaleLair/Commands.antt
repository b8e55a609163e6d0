-- ===== src/WhaleLair/Commands.antt =====
-- The handlers of whale_lair/src/contract.rs and commands.rs. A handler returns the new state and
-- the messages to send, or an error, after which the chain restores the state.
use migaloo_core.Prelude.{
  ℕ, Bool, not, ◌&&◌, Option, none, some, List, [], ◌∷◌, ltb, leb, ◌==◌, if◌then◌else◌, any, take,
  retain, length, is_empty, Result, ok, err, ◌>>=◌, ◌>>◌, fail_if, ok_or,
}
use migaloo_core.Cosmwasm.{
  Cosmwasm, Addr, Denom, MessageInfo, CosmosMsg, StdError, checked_add, checked_sub, from_ratio,
  mul_floor, addr_validate,
}
use migaloo_core.Asset.{
  Asset, AssetInfo, token, native_token, is_native_token, aggregate_assets, deduct_assets,
}
use migaloo_core.Storage.{Map, may_load, save, remove}
use migaloo_core.Storage.Keys.{pair_key, triple_key}
use migaloo_core.WhaleLair.{
  Bond, GlobalIndex, default_global_index, State, ContractError, std, invalid_bonding_asset,
  insufficient_bond, invalid_unbonding_amount, nothing_to_unbond, nothing_to_withdraw,
  invalid_bonding_assets_limit,
}
use migaloo_core.WhaleLair.Weights.{lift, update_local_weight, update_global_weight}
use migaloo_core.WhaleLair.Checks.{
  DistributorQueries, validate_growth_rate, validate_funds, validate_claimed,
  validate_bonding_for_current_epoch,
}

-- `unwrap_or` and `unwrap_or_default`
abbrev pub or_default {ℓ} : {A : Type ℓ} → A → Option A → A
or_default d none = d
or_default d (some a) = a

-- `match asset.info { NativeToken { denom } => denom, Token { .. } => return Err(..) }`
unfoldable pub native_denom : AssetInfo → Result ContractError Denom
native_denom (token _) = err invalid_bonding_asset
native_denom (native_token denom) = ok denom

abbrev pub bonding_assets_limit : ℕ
bonding_assets_limit = 2

abbrev pub max_page_limit : ℕ
max_page_limit = 30

-- A bond of nothing, of the given asset.
abbrev pub empty_bond : Asset → Bond
empty_bond asset = record { asset = record asset { amount = 0 }; timestamp = 0; weight = 0 }

module _ ⦃cw : Cosmwasm⦄ where
  unfoldable pub instantiate : MessageInfo → ℕ → ℕ → List AssetInfo → Result ContractError State
  unfolding validate_growth_rate
  instantiate info unbonding_period growth_rate bonding_assets = do
    fail_if (ltb bonding_assets_limit (length bonding_assets)) invalid_bonding_assets_limit
    validate_growth_rate growth_rate
    fail_if (any (λ a. not (is_native_token a)) bonding_assets) invalid_bonding_asset
    owner ← ok_or (addr_validate info.sender) (std StdError.generic_err)
    ok (record {
      config = record {
        owner = owner;
        unbonding_period = unbonding_period;
        growth_rate = growth_rate;
        bonding_assets = bonding_assets;
        fee_distributor_addr = 0;
      };
      bonds = [];
      unbonds = [];
      global = none;
    })

  -- The local values of a bond, raised by the asset.
  unfoldable pub raise_bond : Bond → Asset → Result ContractError Bond
  raise_bond old asset = do
    amount ← ok_or (checked_add 128 old.asset.amount asset.amount) (std StdError.overflow)
    weight ← ok_or (checked_add 128 old.weight asset.amount) (std StdError.overflow)
    ok (record old { asset = record { info = old.asset.info; amount = amount }; weight = weight })

  -- The local half of `bond`: the bond of the sender, raised by the asset and aged.
  unfoldable pub bond_local : State → ℕ → Addr → Denom → Asset → Result ContractError (State × Bond)
  bond_local s timestamp sender denom asset = do
    raised ← raise_bond (or_default (empty_bond asset) (may_load (sender, denom) s.bonds)) asset
    r ← update_local_weight s sender timestamp raised
    ok (record (r.0) { bonds = save (sender, denom) r.1 r.0.bonds }, r.1)

  -- The global values, raised by the asset.
  unfoldable pub raise_index : GlobalIndex → Asset → Result ContractError GlobalIndex
  raise_index old asset = do
    weight ← ok_or (checked_add 128 old.weight asset.amount) (std StdError.overflow)
    bonded_amount ← ok_or (checked_add 128 old.bonded_amount asset.amount) (std StdError.overflow)
    bonded_assets ← lift (aggregate_assets old.bonded_assets (asset ∷ []))
    ok (record old {
      weight = weight;
      bonded_amount = bonded_amount;
      bonded_assets = bonded_assets;
    })

  -- The global half of `bond`.
  unfoldable pub bond_global : State → ℕ → Asset → Result ContractError State
  bond_global s timestamp asset = do
    raised ← raise_index (or_default default_global_index s.global) asset
    r ← update_global_weight s timestamp raised
    ok (record (r.0) { global = some r.1 })

  unfoldable pub bond :
      DistributorQueries
      → State
      → ℕ
      → MessageInfo
      → Asset
      → Result ContractError (State × List CosmosMsg)
  unfolding native_denom validate_funds validate_claimed validate_bonding_for_current_epoch
  bond q s timestamp info asset = do
    denom ← native_denom asset.info
    validate_funds s info asset denom
    validate_claimed q s info
    validate_bonding_for_current_epoch q s timestamp
    r ← bond_local s timestamp info.sender denom asset
    s' ← bond_global r.0 timestamp asset
    ok (s', [])

  -- An aged bond, lowered by the asset and by its share of the weight, with that share.
  unfoldable pub lower_bond : Bond → Asset → Result ContractError (Bond × ℕ)
  lower_bond aged asset = do
    ratio ← ok_or (from_ratio 128 asset.amount aged.asset.amount) (std StdError.panicked)
    weight_slash ← ok_or (mul_floor 128 aged.weight ratio) (std StdError.panicked)
    weight ← ok_or (checked_sub aged.weight weight_slash) (std StdError.overflow)
    amount ← ok_or (checked_sub aged.asset.amount asset.amount) (std StdError.overflow)
    ok (
      record aged { asset = record { info = aged.asset.info; amount = amount }; weight = weight },
      weight_slash,
    )

  -- A bond of nothing is removed.
  unfoldable pub keep_bond : Map (ℕ × ℕ) Bond → Addr → Denom → Bond → Map (ℕ × ℕ) Bond
  keep_bond m sender denom b =
      if b.asset.amount == 0 then remove (sender, denom) m else save (sender, denom) b m

  -- The local half of `unbond`: the bond aged and lowered, with the weight that it lost.
  unfoldable pub unbond_local :
      State → ℕ → Addr → Denom → Asset → Bond → Result ContractError (State × ℕ)
  unbond_local s timestamp sender denom asset old = do
    fail_if (ltb old.asset.amount asset.amount) insufficient_bond
    r ← update_local_weight s sender timestamp old
    l ← lower_bond r.1 asset
    ok (record (r.0) { bonds = keep_bond r.0.bonds sender denom l.0 }, l.1)

  -- The unbonding is recorded under the time of the call.
  abbrev pub record_unbonding : State → ℕ → Addr → Denom → Asset → State
  record_unbonding s timestamp sender denom asset = record s {
    unbonds =
        save (sender, denom, timestamp)
          (record { asset = asset; timestamp = timestamp; weight = 0 }) s.unbonds;
  }

  -- The global values, lowered by the asset and the weight that its bond lost.
  unfoldable pub lower_index : GlobalIndex → Asset → ℕ → Result ContractError GlobalIndex
  lower_index aged asset weight_slash = do
    bonded_amount ← ok_or (checked_sub aged.bonded_amount asset.amount) (std StdError.overflow)
    bonded_assets ← lift (deduct_assets aged.bonded_assets (asset ∷ []))
    weight ← ok_or (checked_sub aged.weight weight_slash) (std StdError.overflow)
    ok (record aged {
      bonded_amount = bonded_amount;
      bonded_assets = bonded_assets;
      weight = weight;
    })

  -- The global half of `unbond`.
  unfoldable pub unbond_global : State → ℕ → Asset → ℕ → Result ContractError State
  unbond_global s timestamp asset weight_slash = do
    r ← update_global_weight s timestamp (or_default default_global_index s.global)
    index ← lower_index r.1 asset weight_slash
    ok (record (r.0) { global = some index })

  unfoldable pub unbond :
      DistributorQueries
      → State
      → ℕ
      → MessageInfo
      → Asset
      → Result ContractError (State × List CosmosMsg)
  unfolding native_denom validate_claimed validate_bonding_for_current_epoch
  unbond q s timestamp info asset = do
    fail_if (asset.amount == 0) invalid_unbonding_amount
    denom ← native_denom asset.info
    validate_claimed q s info
    validate_bonding_for_current_epoch q s timestamp
    old ← ok_or (may_load (info.sender, denom) s.bonds) nothing_to_unbond
    r ← unbond_local s timestamp info.sender denom asset old
    s' ← unbond_global (record_unbonding r.0 timestamp info.sender denom asset) timestamp asset r.1
    ok (s', [])

  -- The unbondings of an address in a denom, oldest first: the range over the prefix.
  abbrev pub is_unbonding_of : Addr → Denom → (ℕ × ℕ × ℕ) × Bond → Bool
  is_unbonding_of address denom e = e.0.0 == address && e.0.1 == denom

  unfoldable pub unbondings_of : Map (ℕ × ℕ × ℕ) Bond → Addr → Denom → Map (ℕ × ℕ × ℕ) Bond
  unbondings_of m address denom = take max_page_limit (retain (is_unbonding_of address denom) m)

  -- Whether the unbonding period of a bond is over; a time before the period has passed panics.
  unfoldable pub is_matured : ℕ → ℕ → Bond → Result ContractError Bool
  is_matured timestamp unbonding_period bond = do
    limit ← ok_or (checked_sub timestamp unbonding_period) (std StdError.panicked)
    ok (leb bond.timestamp limit)

  -- One round of the loop of `withdraw`: a matured unbonding is refunded and removed.
  unfoldable pub withdraw_one :
      ℕ
      → ℕ
      → Addr
      → ℕ × ℕ × ℕ
      → Bond
      → Map (ℕ × ℕ × ℕ) Bond
      → ℕ
      → Result ContractError (Map (ℕ × ℕ × ℕ) Bond × ℕ)
  unfolding is_matured native_denom
  withdraw_one timestamp period address k bond m refund = do
    matured ← is_matured timestamp period bond
    if matured
        then (do
          denom ← native_denom bond.asset.info
          refund' ← ok_or (checked_add 128 refund bond.asset.amount) (std StdError.overflow)
          ok (remove (address, denom, k.2) m, refund'))
        else ok (m, refund)

  -- The loop over the unbondings, with the map and the refund so far.
  unfoldable pub withdraw_loop :
      ℕ
      → ℕ
      → Addr
      → Map (ℕ × ℕ × ℕ) Bond
      → Map (ℕ × ℕ × ℕ) Bond
      → ℕ
      → Result ContractError (Map (ℕ × ℕ × ℕ) Bond × ℕ)
  withdraw_loop timestamp period address [] m refund = ok (m, refund)
  withdraw_loop timestamp period address ((k, bond) ∷ unbondings) m refund = do
    r ← withdraw_one timestamp period address k bond m refund
    withdraw_loop timestamp period address unbondings r.0 r.1

  unfoldable pub withdraw : State → ℕ → Addr → Denom → Result ContractError (State × List CosmosMsg)
  withdraw s timestamp address denom = do
    let unbondings : Map (ℕ × ℕ × ℕ) Bond = unbondings_of s.unbonds address denom
    fail_if (is_empty unbondings) nothing_to_withdraw
    r ← withdraw_loop timestamp s.config.unbonding_period address unbondings s.unbonds 0
    ok (
      record s { unbonds = r.0 },
      CosmosMsg.bank_send address (record { denom = denom; amount = r.1 } ∷ []) ∷ [],
    )
