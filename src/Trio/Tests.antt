-- ===== src/Trio/Tests.antt =====
-- Concrete runs of the pool of three.
use migaloo_core.Prelude.{ℕ, ◌*◌, ◌^◌, ◌≤◌, ◌≡◌, refl, arith, some, none, true, Bool, [], ok}
use migaloo_core.Cosmwasm.{Cosmwasm, MessageInfo, documented}
use migaloo_core.Asset.{native_token}
use migaloo_core.Asset.Queries.{raw_native_token, to_raw, to_normal}
use migaloo_core.Fee.{compute, is_valid}
use migaloo_core.Pair.{PoolFee, FeatureToggle, Chain, pool_fee_is_valid, aggregate}
use migaloo_core.Pair.Deposits.{settle}
use migaloo_core.Pair.Swap.{SwapComputation, less_fees}
use migaloo_core.Trio.{TrioInfoRaw, State}
use migaloo_core.Trio.Amp.{
  StableSwap, invariant_of, amp_delta, ramp_up, ramp_down, compute_amp_factor,
}
use migaloo_core.Trio.Invariant.{
  compute_next_d, scale_by, next_d, compute_d, next_y, compute_y_raw, compute_y, swap_to,
}
use migaloo_core.Trio.Swap.{compute_swap}
use migaloo_core.Trio.Messages.{
  min_amp, max_amp, UpdateConfigMsg, update_config_msg, assert_change, ramp_amp, new_amp,
  update_config, execute,
}
use migaloo_core.Trio.Creation.{InstantiateMsg, instantiate_fees, create_lp_token, instantiate}
use migaloo_core.Trio.Ramp.{IsBetween, compute_amp_factor-IsBetween}
use migaloo_core.Trio.Reachable.{created, waited, executed, reachable-compute_amp_factor}

instance abbrev cosmwasm : Cosmwasm
cosmwasm = documented

-- From 100 at block 1000 to 200 at block 21000, a quarter of the way at block 6000.
abbrev ramping : StableSwap
ramping = record {
  initial_amp_factor = 100;
  target_amp_factor = 200;
  current_ts = 6000;
  start_ramp_ts = 1000;
  stop_ramp_ts = 21000;
}

quarter : compute_amp_factor ramping ≡ ok 125
unfolding compute_amp_factor ramp_up ramp_down amp_delta
quarter = refl

compute_amp_factor-IsBetween_example :
    (n : ℕ) × (compute_amp_factor ramping ≡ ok n) × IsBetween 100 200 n × (21000 ≤ 6000 → n ≡ 200)
compute_amp_factor-IsBetween_example =
    compute_amp_factor-IsBetween ramping (ground arith, ground arith, ground arith, ground arith)

abbrev million : ℕ
million = 1000000

abbrev fees : PoolFee
fees = record {
  protocol_fee = record { share = 10 ^ 15 };
  swap_fee = record { share = 3 * 10 ^ 15 };
  burn_fee = record { share = 0 };
}

abbrev traded : SwapComputation
traded = record {
  return_amount = 997;
  spread_amount = 1;
  swap_fee_amount = 2;
  protocol_fee_amount = 0;
  burn_fee_amount = 0;
}

swap_runs : compute_swap million million million 1000 fees ramping ≡ ok traded
unfolding compute_swap swap_to compute_y compute_y_raw next_y compute_d next_d scale_by
    compute_next_d settle compute_amp_factor ramp_up ramp_down amp_delta less_fees compute
swap_runs = refl

abbrev chain : Chain
chain = record {
  contract_address = 9;
  balance = λ a. ok 0;
  total_supply = λ a. ok 0;
  get_label = λ a. ok tt;
}

abbrev instantiation : InstantiateMsg
instantiation = record {
  asset_infos = (native_token 1, native_token 2, native_token 3);
  token_code_id = 4;
  asset_decimals = (6, 6, 6);
  pool_fees = fees;
  fee_collector_addr = 8;
  amp_factor = 100;
  token_factory_lp = Bool.false;
}

abbrev trio_info : TrioInfoRaw
trio_info = record {
  asset_infos = (raw_native_token 1, raw_native_token 2, raw_native_token 3);
  contract_addr = 9;
  liquidity_token = raw_native_token 0;
  asset_decimals = (6, 6, 6);
}

abbrev feature_toggle : FeatureToggle
feature_toggle = record {
  withdrawals_enabled = true;
  deposits_enabled = true;
  swaps_enabled = true;
}

-- The pool with a target and the blocks of a ramp to it.
abbrev pool_with : ℕ → ℕ → ℕ → State
pool_with target start stop = record {
  trio_info = trio_info;
  config = record {
    owner = 7;
    fee_collector_addr = 8;
    pool_fees = fees;
    feature_toggle = feature_toggle;
    initial_amp = 100;
    future_amp = target;
    initial_amp_block = start;
    future_amp_block = stop;
  };
  collected_protocol_fees = instantiate_fees (native_token 1) (native_token 2) (native_token 3);
  all_time_collected_protocol_fees =
      instantiate_fees (native_token 1) (native_token 2) (native_token 3);
  all_time_burned_fees = instantiate_fees (native_token 1) (native_token 2) (native_token 3);
}

instantiation_runs : instantiate chain 500 7 instantiation ≡ ok (pool_with 100 500 500, 4)
unfolding instantiate create_lp_token to_raw to_normal pool_fee_is_valid aggregate is_valid
instantiation_runs = refl

abbrev ramp_to_200 : UpdateConfigMsg
ramp_to_200 = record {
  owner = none;
  fee_collector_addr = none;
  pool_fees = none;
  feature_toggle = none;
  amp_factor = some (record { future_a = 200; future_block = 21000 });
}

abbrev from_owner : MessageInfo
from_owner = record { sender = 7; funds = [] }

ramp_runs :
    execute chain 1000 (pool_with 100 500 500) from_owner (update_config_msg ramp_to_200)
    ≡ ok (pool_with 200 1000 21000, [])
unfolding execute update_config new_amp ramp_amp assert_change invariant_of compute_amp_factor
ramp_runs = refl

reachable-compute_amp_factor_example :
    (n : ℕ) × (compute_amp_factor (invariant_of (pool_with 200 1000 21000).config 6000) ≡ ok n)
    × (min_amp ≤ n)
    × (n ≤ max_amp)
reachable-compute_amp_factor_example =
    reachable-compute_amp_factor 6000 (pool_with 200 1000 21000) (ground arith) (
      waited 1000 6000 (pool_with 200 1000 21000) (ground arith) (
        executed 1000 (pool_with 100 500 500) chain from_owner (update_config_msg ramp_to_200)
          (pool_with 200 1000 21000, []) (ground arith)
          (waited 500 1000 (pool_with 100 500 500) (ground arith)
            (created chain 500 7 instantiation (pool_with 100 500 500, 4) instantiation_runs))
          ramp_runs))
