-- ===== src/Pair/Tests/Calls.antt =====
-- Concrete calls of a pair of two native coins.
use migaloo_core.Prelude.{
  ℕ, ◌+◌, ◌-◌, ◌*◌, ◌/◌, ◌^◌, ◌≤◌, ◌<◌, ◌≡◌, ◌≢◌, refl, none, some, Bool, Bool-cases, inl, inr,
  ok-injective, ap, true, List, [], ◌∷◌, ◌++◌, Result, ok, err, ◌==◌, if◌then◌else◌,
}
use migaloo_core.Cosmwasm.{MessageInfo, CosmosMsg, StdError, from_ratio}
use migaloo_core.Uint.{Uint, digitwise, square_root}
use migaloo_core.Asset.{
  Asset, AssetInfo, token, native_token, minimum_liquidity_amount, into_msg, into_burn_msg,
  message_of, assert_sent_native_token_balance,
}
use migaloo_core.Asset.Queries.{get_total_share, to_raw, to_normal, query_pool, raw_native_token}
use migaloo_core.Pair.{
  FeatureToggle, Config, constant_product, PairInfoRaw, State, Chain, pool_fee_is_valid, aggregate,
}
use migaloo_core.Fee.{compute, is_valid}
use migaloo_core.Pair.Tests.{cosmwasm, fees, there}
use migaloo_core.Pair.Curve.{or_panic, to_u128}
use migaloo_core.Pair.Swap.{compute_swap, gross_return, spread_of, swap_computation, less_fees}
use migaloo_core.Pair.Reverse.{
  OfferAmountComputation, commission_factor, offer_for, as_uint128, compute_offer_amount,
}
use migaloo_core.Pair.Limits.{assert_max_spread, ratio_exceeds}
use migaloo_core.Pair.Accounts.{get_protocol_fee_for_asset, store_fee, instantiate_fees}
use migaloo_core.Pair.Pools.{query_pools, less_protocol_fee, mint_lp_token_msg, liquidity_token_of}
use migaloo_core.Pair.Liquidity.{
  initial_share, later_share, refund, deposit_for, take_deposit, share_of, provide_liquidity,
}
use migaloo_core.Pair.Trades.{
  Sides, choose_sides, swap_pool, store_fees, gross_of, return_messages, burn_messages, swap,
}
use migaloo_core.Pair.Queries.{net_pools, query_simulation}
use migaloo_core.Pair.Creation.{InstantiateMsg, create_lp_token, instantiate}
use migaloo_core.Pair.Quotes.{HasReceived, swap-query_simulation}
use migaloo_core.Pair.Offers.{all_fees, inverse_of, compute_offer_amount-gross_return}
use migaloo_core.Pair.Shares.{later_share-refund}
use migaloo_core.Pair.FirstDeposit.{deposited, fetched, provide_liquidity-first_share}
use migaloo_core.Pair.Soundness.{HasAccounts}
use migaloo_core.Pair.Reachable.{created, reachable-HasAccounts}

instance abbrev uint : Uint
uint = digitwise

-- To ask for 1880 after 6 % of fees is to ask for 1999 before them.
abbrev quoted : OfferAmountComputation
quoted = record {
  offer_amount = 999;
  spread_amount = 198;
  swap_fee_amount = 39;
  protocol_fee_amount = 19;
  burn_fee_amount = 59;
}

quote_runs : compute_offer_amount 10000 22000 1880 fees ≡ ok quoted
unfolding compute_offer_amount commission_factor offer_for as_uint128 compute
quote_runs = refl

gross_999 : gross_return 10000 22000 999 ≡ ok 1998
unfolding gross_return
gross_999 = refl

gross_1000 : gross_return 10000 22000 (999 + 1) ≡ ok 2000
unfolding gross_return
gross_1000 = refl

compute_offer_amount-gross_return_example :
    (all_fees fees < 10 ^ 18)
    × (1998 ≤ 1880 * inverse_of (10 ^ 18 - all_fees fees) / 10 ^ 18)
    × (1880 * inverse_of (10 ^ 18 - all_fees fees) / 10 ^ 18 ≤ 2000)
compute_offer_amount-gross_return_example =
    compute_offer_amount-gross_return 10000 22000 1880 fees quoted 1998 2000 quote_runs gross_999
      gross_1000

-- The spread of 200 on a return of 2000 is above the one percent that is the limit where none is asked for.
spread_runs : assert_max_spread none none 1000 2000 200 ≡ err StdError.generic_err
unfolding assert_max_spread ratio_exceeds
spread_runs = refl

-- A first deposit of 10000 and 22000 mints 14832 shares, the second, of 1000 and 2200, a tenth of them.
first_runs : initial_share constant_product 10000 22000 ≡ ok (1000, 13832)
unfolding initial_share square_root
first_runs = refl

later_runs : later_share constant_product 1000 2200 10000 22000 14832 ≡ ok 1483
unfolding later_share
later_runs = refl

abbrev coin : ℕ → ℕ → Asset
coin denom amount = record { info = native_token denom; amount = amount }

abbrev ratio : ℕ
ratio = 90897946674839105

ratio_runs : or_panic (from_ratio 128 1483 (14832 + 1483)) ≡ ok ratio
ratio_runs = refl

net_0 : less_protocol_fee (coin 1 5 ∷ coin 2 7 ∷ []) (coin 1 11005) ≡ ok (coin 1 11000)
unfolding less_protocol_fee get_protocol_fee_for_asset
net_0 = refl

net_1 : less_protocol_fee (coin 1 5 ∷ coin 2 7 ∷ []) (coin 2 24207) ≡ ok (coin 2 24200)
unfolding less_protocol_fee get_protocol_fee_for_asset
net_1 = refl

back_0 : refund (coin 1 5 ∷ coin 2 7 ∷ []) ratio (coin 1 11005) ≡ ok (coin 1 999)
unfolding refund less_protocol_fee get_protocol_fee_for_asset
back_0 = refl

back_1 : refund (coin 1 5 ∷ coin 2 7 ∷ []) ratio (coin 2 24207) ≡ ok (coin 2 2199)
unfolding refund less_protocol_fee get_protocol_fee_for_asset
back_1 = refl

later_share-refund_example : ((coin 1 999).amount ≤ 1000) × ((coin 2 2199).amount ≤ 2200)
later_share-refund_example =
    later_share-refund 1000 2200 10000 22000 14832 1483 ratio (coin 1 5 ∷ coin 2 7 ∷ [])
      (coin 1 11005) (coin 2 24207) (coin 1 11000) (coin 2 24200) (coin 1 999) (coin 2 2199)
      later_runs ratio_runs net_0 net_1 refl refl back_0 back_1

abbrev pair_info : PairInfoRaw
pair_info = record {
  asset_infos = (raw_native_token 1, raw_native_token 2);
  contract_addr = 9;
  liquidity_token = raw_native_token 0;
  asset_decimals = (6, 6);
  pair_type = constant_product;
}

abbrev feature_toggle : FeatureToggle
feature_toggle = record {
  withdrawals_enabled = true;
  deposits_enabled = true;
  swaps_enabled = true;
}

abbrev config : Config
config = record {
  owner = 7;
  fee_collector_addr = 8;
  pool_fees = fees;
  feature_toggle = feature_toggle;
}

abbrev state_with : ℕ → ℕ → ℕ → State
state_with collected all_time burned = record {
  pair_info = pair_info;
  config = config;
  collected_protocol_fees = coin 1 5 ∷ coin 2 collected ∷ [];
  all_time_collected_protocol_fees = coin 1 5 ∷ coin 2 all_time ∷ [];
  all_time_burned_fees = coin 1 15 ∷ coin 2 burned ∷ [];
}

abbrev holding : ℕ → ℕ → AssetInfo → Result StdError ℕ
holding first second (native_token denom) =
    ok (if denom == 1 then first else if denom == 2 then second else 0)
holding first second (token contract_addr) = ok 0

abbrev chain : Chain
chain = record {
  contract_address = 9;
  balance = holding 11005 22007;
  total_supply = λ a. ok 14832;
  get_label = λ a. ok tt;
}

abbrev from_trader : MessageInfo
from_trader = record { sender = 5; funds = record { denom = 1; amount = 1000 } ∷ [] }

abbrev paid : List CosmosMsg
paid =
    CosmosMsg.bank_send 5 (record { denom = 2; amount = 1880 } ∷ [])
    ∷ CosmosMsg.bank_burn (record { denom = 2; amount = 60 } ∷ [])
    ∷ []

simulation_runs :
    query_simulation (λ a. holding 10005 22007) (state_with 7 17 27) (coin 1 1000) ≡ ok there
unfolding query_simulation net_pools query_pools less_protocol_fee get_protocol_fee_for_asset
    choose_sides compute_swap gross_return spread_of swap_computation less_fees to_u128 compute
    to_normal query_pool
simulation_runs = refl

swap_runs :
    swap chain (state_with 7 17 27) from_trader 5 (coin 1 1000) none (some (10 ^ 17)) none
    ≡ ok (state_with 27 37 87, paid)
unfolding swap query_pools swap_pool less_protocol_fee get_protocol_fee_for_asset choose_sides
    compute_swap gross_return spread_of swap_computation less_fees to_u128 compute to_normal
    query_pool assert_sent_native_token_balance assert_max_spread ratio_exceeds gross_of store_fees
    store_fee return_messages burn_messages into_msg into_burn_msg message_of
swap_runs = refl

arrived : HasReceived (coin 1 1000) (holding 10005 22007) (holding 11005 22007)
arrived (token contract_addr) n h = h
arrived (native_token denom) n h = elim (Bool-cases (denom == 1)) [
  | inl first ↦ rw first (ap (λ (m : ℕ). ok (m + 1000)) (ok-injective (rw first at h)))
  | inr other ↦ rw other (rw other at h)
]

swap-query_simulation_example :
    (p : Asset) × (q : Asset) × (sides : Sides) × (net_pools
        (λ a. holding 10005 22007)
        (state_with 7 17 27)
      ≡ ok (p, q))
    × (choose_sides (native_token 1) p q (6, 6) ≡ ok sides)
    × (paid ≡ return_messages sides.ask_pool.info 1880 5 ++ burn_messages sides.ask_pool.info 60)
    × (store_fees (state_with 7 17 27) sides.ask_pool.info there ≡ ok (state_with 27 37 87))
swap-query_simulation_example =
    swap-query_simulation (coin 1 1000) (λ a. holding 10005 22007) chain (state_with 7 17 27)
      (state_with 27 37 87) from_trader 5 none (some (10 ^ 17)) none paid there refl arrived
      simulation_runs swap_runs

abbrev instantiation : InstantiateMsg
instantiation = record {
  asset_infos = (native_token 1, native_token 2);
  token_code_id = 3;
  asset_decimals = (6, 6);
  pool_fees = fees;
  fee_collector_addr = 8;
  pair_type = constant_product;
  token_factory_lp = Bool.false;
}

abbrev new_state : State
new_state = record {
  pair_info = pair_info;
  config = config;
  collected_protocol_fees = coin 1 0 ∷ coin 2 0 ∷ [];
  all_time_collected_protocol_fees = coin 1 0 ∷ coin 2 0 ∷ [];
  all_time_burned_fees = coin 1 0 ∷ coin 2 0 ∷ [];
}

instantiation_runs : instantiate chain 7 instantiation ≡ ok (new_state, 3)
unfolding instantiate create_lp_token to_raw to_normal pool_fee_is_valid aggregate is_valid
    instantiate_fees
instantiation_runs = refl

reachable-HasAccounts_example : HasAccounts new_state
reachable-HasAccounts_example =
    reachable-HasAccounts new_state
      (created chain 7 instantiation (new_state, 3) instantiation_runs)

-- The first deposit, into a pair of which there are no shares yet, for the receiver 4.
abbrev empty_chain : Chain
empty_chain = record {
  contract_address = 9;
  balance = holding 10000 22000;
  total_supply = λ a. ok 0;
  get_label = λ a. ok tt;
}

abbrev with_both : MessageInfo
with_both = record {
  sender = 5;
  funds = record { denom = 1; amount = 10000 } ∷ record { denom = 2; amount = 22000 } ∷ [];
}

abbrev first_minted : List CosmosMsg
first_minted = CosmosMsg.cw20_mint 0 9 1000 ∷ CosmosMsg.cw20_mint 0 4 13832 ∷ []

first_deposit_runs :
    provide_liquidity empty_chain new_state with_both (coin 1 10000, coin 2 22000) none (some 4)
    ≡ ok first_minted
unfolding provide_liquidity query_pools less_protocol_fee get_protocol_fee_for_asset to_normal
    query_pool assert_sent_native_token_balance deposit_for take_deposit share_of initial_share
    square_root mint_lp_token_msg liquidity_token_of get_total_share
first_deposit_runs = refl

provide_liquidity-first_share_example :
    (pool_0 : Asset) × (pool_1 : Asset) × (d0 : ℕ) × (d1 : ℕ) × (share : ℕ) × (query_pools
        (holding 10000 22000)
        pair_info
      ≡ ok (pool_0, pool_1))
    × (deposited (coin 1 10000) (coin 2 22000) pool_0.info ≡ some d0)
    × (deposited (coin 1 10000) (coin 2 22000) pool_1.info ≡ some d1)
    × (first_minted
        ≡ fetched 5 9 pool_0.info d0
          ++ fetched 5 9 pool_1.info d1
          ++ (CosmosMsg.cw20_mint 0 9 minimum_liquidity_amount ∷ [])
          ++ (CosmosMsg.cw20_mint 0 4 share ∷ []))
    × (share ≢ 0)
    × ((minimum_liquidity_amount + share) * (minimum_liquidity_amount + share) ≤ d0 * d1)
    × (d0 * d1 < (minimum_liquidity_amount + share + 1) * (minimum_liquidity_amount + share + 1))
unfolding liquidity_token_of get_total_share
provide_liquidity-first_share_example =
    provide_liquidity-first_share empty_chain new_state with_both (coin 1 10000) (coin 2 22000) none
      (some 4) 0 first_minted refl refl refl first_deposit_runs
