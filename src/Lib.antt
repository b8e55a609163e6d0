-- ===== src/Lib.antt =====
-- The Migaloo liquidity hub: a model of its contracts and the theorems about them.
--
-- The liquidity hub collects the fees of its pools and vaults and distributes them to those who
-- bond tokens. Addresses bond tokens with the bonding contract (whale_lair), which keeps a weight
-- for each bond that grows with time, and one global index for all bonds. The epoch manager numbers
-- the epochs. In each epoch the fee distributor asks the fee collector for the collected fees,
-- stores them under a new epoch together with the global index of that moment, moves what was left
-- of the epoch that leaves the grace period into the new one, and pays each claim the share of the
-- fees that the address has of the weight. The bonding contract asks the fee distributor whether an
-- address has claims open before it changes a bond.
-- Beside this, vaults lend what depositors have put in: a flash loan must be back with its fees at
-- the end of the same transaction, and the depositors own shares of the vault. The router takes a
-- loan for a caller, runs the caller's messages and pays the vault back. Pairs swap two
-- assets, along a constant product or a stableswap curve, pools of three along a stableswap curve
-- whose amplification can be changed over many blocks; both keep account of the protocol fees.
--
-- Files and sources, under contracts/liquidity_hub unless said otherwise:
-- - Prelude: names of the libraries, tests on numbers, lists, Rust's Result with its `?`.
-- - Cosmwasm: what the contracts use of the cosmwasm_std package. Its arithmetic is not part of this
--   repository: it is an instance argument, a record of the operations with their documented
--   behaviour, and `documented` is one such record. A panic is the error `panicked`.
-- - Checked: what a checked call of that package gave, if it gave something.
-- - Uint: the square root of the wide integers of the uint package, an instance argument likewise.
-- - Controllers: Admin and Hooks of the cw_controllers package, an instance argument likewise.
-- - Storage: the maps of cw_storage_plus as lists of entries in order of their keys.
-- - Asset: packages/white-whale-std/src/pool_network/asset.rs (equal, into_msg, aggregate_assets,
--   deduct_assets, assert_sent_native_token_balance); Asset/Queries the raw forms, balances and
--   supplies; Asset/Sums says what lists hold of an asset.
-- - EpochManager: epoch-manager/src, all messages (`execute`) and `query_epoch`.
-- - WhaleLair: whale_lair/src. Weights is state.rs, Checks is helpers.rs, Commands is commands.rs
--   with bond, unbond and withdraw, Messages the configuration and the dispatch of contract.rs,
--   Queries is queries.rs.
-- - FeeDistributor: fee_distributor/src. Epochs is state.rs, Creation is create_new_epoch of
--   commands.rs and reply of contract.rs, Claim is claim of commands.rs, Messages the configuration
--   (helpers.rs, update_config) and the dispatch of contract.rs.
-- - Fee: packages/white-whale-std/src/fee.rs.
-- - Vault: vault-network/vault/src. Creation is instantiate and lp_instantiate; Loans is flash_loan,
--   after_trade, collect_protocol_fees and get_payback_amount; Liquidity is deposit, withdraw and
--   get_share; Messages the configuration and the dispatch. What the vault reads of the chain is a
--   record `Chain` of answers.
-- - VaultRouter: vault-network/vault_router/src, all messages; Access and Repayment are proofs.
-- - Pair: pool-network/terraswap_pair/src, with packages/white-whale-std/src/pool_network/pair.rs
--   and swap.rs. Curve, Deposits, Swap and Reverse are helpers.rs (calculate_stableswap_y and its
--   Newton iterations, compute_d, compute_swap, compute_offer_amount), Limits the checks of slippage
--   and spread, Accounts is state.rs, Pools, Liquidity, Trades and Messages are commands.rs
--   (provide_liquidity, withdraw_liquidity, swap, receive_cw20, update_config,
--   collect_protocol_fees) and the dispatch, Creation is instantiate and reply, Queries and
--   Simulation are queries.rs.
-- - Trio: pool-network/stableswap_3pool/src, with packages/white-whale-std/src/pool_network/trio.rs.
--   Amp and Invariant are stableswap_math/curve.rs, Swap is helpers.rs, Liquidity, Trades and
--   Messages are commands.rs and the dispatch, Creation is instantiate and reply, Queries is
--   queries.rs.
-- The types of each contract's messages and data are in packages/white-whale-std/src. The children
-- that are not named here hold proofs, those named Tests hold concrete runs.
--
-- A handler is a function from the state of its contract, the block time, the sender and the message
-- to an error or the new state with the messages to send; an error changes nothing. The answers of
-- other contracts are arguments. Numbers stand for addresses and denoms, which the contracts compare
-- and pass on only. Integers are natural numbers; each operation of the package checks the width that
-- its type has in the source. Loops run over lists, or a number of rounds that the source fixes (32
-- and 1000 for the curves, 256 for compute_d), so none needs fuel of the model's own.
--
-- Not modelled: the names of LP tokens, the texts of labels and factory denoms, attributes and
-- events, JSON, migrations and versions, the pages of query_unbonding, the features for the osmosis
-- and injective chains and token factories, and the contracts that the list above does not name.
pub mod Prelude
pub mod Cosmwasm
pub mod Uint
pub mod Checked
pub mod Asset
pub mod Controllers
pub mod Storage
pub mod EpochManager
pub mod VaultRouter
pub mod WhaleLair
pub mod FeeDistributor
pub mod Fee
pub mod Vault
pub mod Pair
pub mod Trio
