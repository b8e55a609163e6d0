-- ===== src/Asset.antt =====
-- Assets of the pool network, packages/white-whale-std/src/pool_network/asset.rs: what an asset is,
-- the messages that move it, and sums and differences of asset lists.
pub mod Sums
pub mod Queries
mod Tests
use migaloo_core.Prelude.{
  ℕ, ◌≡◌, Bool, true, false, not, Option, none, some, List, [], ◌∷◌, ◌==◌, if◌then◌else◌, find,
  Result, ok, err, ◌>>=◌, ok_or,
}
use migaloo_core.Cosmwasm.{
  Cosmwasm, Addr, Denom, Coin, MessageInfo, CosmosMsg, StdError, checked_add, checked_sub,
}

pub data AssetInfo : Type 0 where
  token : Addr → AssetInfo
  native_token : Denom → AssetInfo

pub record Asset : Type 0 where
  pub info : AssetInfo
  pub amount : ℕ

-- `AssetInfo::equal`, and the derived `==`
abbrev pub equal : AssetInfo → AssetInfo → Bool
equal (token a) (token b) = a == b
equal (native_token a) (native_token b) = a == b
equal _ _ = false

abbrev pub is_native_token : AssetInfo → Bool
is_native_token (token _) = false
is_native_token (native_token _) = true

-- `minimum_liquidity_amount` units of the first liquidity stay with the contract.
abbrev pub minimum_liquidity_amount : ℕ
minimum_liquidity_amount = 1000

unfoldable pub message_of : AssetInfo → ℕ → Addr → CosmosMsg
message_of (token contract_addr) amount recipient =
    CosmosMsg.cw20_transfer contract_addr recipient amount
message_of (native_token denom) amount recipient =
    CosmosMsg.bank_send recipient (record { denom = denom; amount = amount } ∷ [])

unfoldable pub into_msg : Asset → Addr → CosmosMsg
unfolding message_of
into_msg a recipient = message_of a.info a.amount recipient

burn_message_of : AssetInfo → ℕ → CosmosMsg
burn_message_of (token contract_addr) amount = CosmosMsg.cw20_burn contract_addr amount
burn_message_of (native_token denom) amount =
    CosmosMsg.bank_burn (record { denom = denom; amount = amount } ∷ [])

unfoldable pub into_burn_msg : Asset → CosmosMsg
unfolding burn_message_of
into_burn_msg a = burn_message_of a.info a.amount

-- The coin that is found must match; without a coin the amount must be zero.
sent_amount_matches : ℕ → Option Coin → Result StdError (Unit {0})
sent_amount_matches amount none = if amount == 0 then ok tt else err StdError.generic_err
sent_amount_matches amount (some c) = if amount == c.amount then ok tt else err StdError.generic_err

sent_balance : AssetInfo → ℕ → List Coin → Result StdError (Unit {0})
unfolding sent_amount_matches
sent_balance (token _) amount funds = ok tt
sent_balance (native_token denom) amount funds =
    sent_amount_matches amount (find (λ c. c.denom == denom) funds)

unfoldable pub assert_sent_native_token_balance : Asset → MessageInfo → Result StdError (Unit {0})
unfolding sent_balance
assert_sent_native_token_balance a i = sent_balance a.info a.amount i.funds

module _ ⦃cw : Cosmwasm⦄ where
  -- One round of the loop of `aggregate_assets`: into the first entry of the same info, or last.
  unfoldable pub add_asset : Asset → List Asset → Result StdError (List Asset)
  add_asset a [] = ok (a ∷ [])
  add_asset a (x ∷ xs) =
      let rest = add_asset a xs in
      if equal x.info a.info
      then (do
        amount ← ok_or (checked_add 128 x.amount a.amount) StdError.overflow
        ok (record x { amount = amount } ∷ xs))
      else (do ys ← rest; ok (x ∷ ys))

  unfoldable pub aggregate_assets : List Asset → List Asset → Result StdError (List Asset)
  aggregate_assets assets [] = ok assets
  aggregate_assets assets (a ∷ others) = do sums ← add_asset a assets; aggregate_assets sums others

  -- One round of the loop of `deduct_assets`; an asset that is not there is an error.
  unfoldable pub deduct_asset : Asset → List Asset → Result StdError (List Asset)
  deduct_asset a [] = err StdError.generic_err
  deduct_asset a (x ∷ xs) =
      let rest = deduct_asset a xs in
      if equal x.info a.info
      then (do
        amount ← ok_or (checked_sub x.amount a.amount) StdError.overflow
        ok (record x { amount = amount } ∷ xs))
      else (do ys ← rest; ok (x ∷ ys))

  unfoldable pub deduct_assets : List Asset → List Asset → Result StdError (List Asset)
  deduct_assets assets [] = ok assets
  deduct_assets assets (a ∷ others) = do rest ← deduct_asset a assets; deduct_assets rest others
