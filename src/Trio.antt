-- ===== src/Trio.antt =====
-- The pool of three assets, contracts/liquidity_hub/pool-network/stableswap_3pool/src, with
-- packages/white-whale-std/src/pool_network/trio.rs. This file holds its data and state; `Amp`,
-- `Invariant` and `Swap` compute amounts, `Liquidity`, `Trades`, `Messages`, `Creation` and `Queries`
-- hold the handlers, the other children proofs. Where its functions, pool fees and errors have the
-- text of those of terraswap_pair, the model shares them.
pub mod Amp
pub mod Invariant
pub mod Swap
pub mod Liquidity
pub mod Trades
pub mod Messages
pub mod Creation
pub mod Queries
pub mod Ramp
pub mod Admissible
pub mod Reachable
mod Tests
use migaloo_core.Prelude.{ℕ, List}
use migaloo_core.Cosmwasm.{Addr}
use migaloo_core.Asset.{Asset}
use migaloo_core.Asset.Queries.{AssetInfoRaw}
use migaloo_core.Pair.{PoolFee, FeatureToggle}

pub record Config : Type 0 where
  pub owner : Addr
  pub fee_collector_addr : Addr
  pub pool_fees : PoolFee
  pub feature_toggle : FeatureToggle
  pub initial_amp : ℕ
  pub future_amp : ℕ
  pub initial_amp_block : ℕ
  pub future_amp_block : ℕ

pub record TrioInfoRaw : Type 0 where
  pub asset_infos : AssetInfoRaw × AssetInfoRaw × AssetInfoRaw
  pub contract_addr : ℕ
  pub liquidity_token : AssetInfoRaw
  pub asset_decimals : ℕ × ℕ × ℕ

-- TRIO_INFO, CONFIG, and the three fee items.
pub record State : Type 0 where
  pub trio_info : TrioInfoRaw
  pub config : Config
  pub collected_protocol_fees : List Asset
  pub all_time_collected_protocol_fees : List Asset
  pub all_time_burned_fees : List Asset
