-- ===== src/Pair.antt =====
-- The pair contract, contracts/liquidity_hub/pool-network/terraswap_pair/src, with
-- packages/white-whale-std/src/pool_network/pair.rs and swap.rs. This file holds its data and
-- state; `Curve`, `Deposits`, `Swap` and `Reverse` compute amounts, `Limits` holds the checks of
-- slippage, `Accounts` the stored fees, `Liquidity`, `Trades` and `Messages` the handlers. The other
-- children hold proofs.
pub mod Curve
pub mod Reverse
pub mod Limits
pub mod Accounts
pub mod Pools
pub mod Liquidity
pub mod Trades
pub mod Messages
pub mod Creation
pub mod Queries
pub mod Simulation
pub mod Quotes
pub mod Offers
pub mod Spread
pub mod Shares
pub mod FirstDeposit
pub mod Soundness
pub mod Reachable
pub mod Balanced
pub mod Deposits
pub mod Swap
pub mod Product
pub mod Charges
pub mod Root
mod Tests
use migaloo_core.Prelude.{
  ℕ, Bool, List, leb, Result, ok, err, ◌>>=◌, ◌>>◌, ok-injective, fail_if, ok_or, ◌≡◌,
}
use migaloo_core.Cosmwasm.{Cosmwasm, Addr, StdError, decimal_one, checked_add}
use migaloo_core.Asset.{Asset, AssetInfo}
use migaloo_core.Asset.Queries.{AssetInfoRaw}
use migaloo_core.Fee.{Fee, is_valid}

-- `PoolFee`, without the osmosis feature.
pub record PoolFee : Type 0 where
  pub protocol_fee : Fee
  pub swap_fee : Fee
  pub burn_fee : Fee

pub record FeatureToggle : Type 0 where
  pub withdrawals_enabled : Bool
  pub deposits_enabled : Bool
  pub swaps_enabled : Bool

pub record Config : Type 0 where
  pub owner : Addr
  pub fee_collector_addr : Addr
  pub pool_fees : PoolFee
  pub feature_toggle : FeatureToggle

pub data PairType : Type 0 where
  stable_swap : ℕ → PairType
  constant_product : PairType

pub record PairInfoRaw : Type 0 where
  pub asset_infos : AssetInfoRaw × AssetInfoRaw
  pub contract_addr : ℕ
  pub liquidity_token : AssetInfoRaw
  pub asset_decimals : ℕ × ℕ
  pub pair_type : PairType

-- PAIR_INFO, CONFIG, and the three fee items.
pub record State : Type 0 where
  pub pair_info : PairInfoRaw
  pub config : Config
  pub collected_protocol_fees : List Asset
  pub all_time_collected_protocol_fees : List Asset
  pub all_time_burned_fees : List Asset

-- What the pair reads of the chain during a call: its own address and balances, the supply of a
-- token, and whether an asset has a label, a text that the name of the LP token is made of.
pub record Chain : Type 0 where
  pub contract_address : Addr
  pub balance : AssetInfo → Result StdError ℕ
  pub total_supply : Addr → Result StdError ℕ
  pub get_label : AssetInfo → Result StdError (Unit {0})

pub data ContractError : Type 0 where
  std : StdError → ContractError
  unauthorized invalid_zero_amount max_slippage_assertion asset_mismatch : ContractError
  too_small_offer_amount operation_disabled invalid_initial_liquidity_amount : ContractError
  liquidity_share_computation converge_error swap_overflow_error : ContractError
  decimal_overflow token_factory_not_enabled : ContractError

-- An error of the standard library, raised in a handler.
abbrev pub lift {ℓ} : {A : Type ℓ} → Result StdError A → Result ContractError A
lift (ok a) = ok a
lift (err e) = err (std e)

pub lift-eq-ok {ℓ} : {A : Type ℓ} (r : Result StdError A) {a : A} → lift r ≡ ok a → r ≡ ok a
lift-eq-ok (ok b) h = rw (ok-injective h)
lift-eq-ok (err e) h = cc

module _ ⦃cw : Cosmwasm⦄ where
  unfoldable pub aggregate : PoolFee → Result StdError ℕ
  aggregate fees = do
    two ← ok_or (checked_add 128 fees.protocol_fee.share fees.swap_fee.share) StdError.overflow
    ok_or (checked_add 128 two fees.burn_fee.share) StdError.overflow

  -- `PoolFee::is_valid`
  unfoldable pub pool_fee_is_valid : PoolFee → Result StdError (Unit {0})
  unfolding aggregate
  pool_fee_is_valid fees = do
    is_valid fees.protocol_fee
    is_valid fees.swap_fee
    is_valid fees.burn_fee
    total_fee ← aggregate fees
    fail_if (leb decimal_one total_fee) StdError.generic_err
