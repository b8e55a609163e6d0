-- ===== src/Asset/Queries.antt =====
-- Queries about assets, packages/white-whale-std/src/pool_network/asset.rs: ids, the raw form of an
-- asset info with its canonical address, and the amounts that the chain answers with.
use migaloo_core.Prelude.{ℕ, Result, ok, ◌>>=◌, ok_or}
use migaloo_core.Cosmwasm.{
  Cosmwasm, Addr, Denom, StdError, addr_validate, addr_canonicalize, addr_humanize,
}
use migaloo_core.Asset.{AssetInfo, token, native_token}

-- `Asset::get_id`, a text: the address or the denom.
abbrev pub get_id : AssetInfo → Denom
get_id (token contract_addr) = contract_addr
get_id (native_token denom) = denom

pub data AssetInfoRaw : Type 0 where
  raw_token : ℕ → AssetInfoRaw
  raw_native_token : Denom → AssetInfoRaw

module _ ⦃cw : Cosmwasm⦄ where
  unfoldable pub to_raw : AssetInfo → Result StdError AssetInfoRaw
  to_raw (native_token denom) = ok (raw_native_token denom)
  to_raw (token contract_addr) = do
    c ← ok_or (addr_canonicalize contract_addr) StdError.generic_err
    ok (raw_token c)

  unfoldable pub to_normal : AssetInfoRaw → Result StdError AssetInfo
  to_normal (raw_native_token denom) = ok (native_token denom)
  to_normal (raw_token contract_addr) = do
    a ← ok_or (addr_humanize contract_addr) StdError.generic_err
    ok (token a)

  -- `AssetInfo::query_pool`, from the balances of the pool
  unfoldable pub query_pool : (AssetInfo → Result StdError ℕ) → AssetInfo → Result StdError ℕ
  query_pool balance (native_token denom) = balance (native_token denom)
  query_pool balance (token contract_addr) = do
    a ← ok_or (addr_validate contract_addr) StdError.generic_err
    balance (token a)

  -- `get_total_share` without the features of other chains, from the supplies of tokens
  unfoldable pub get_total_share : (Addr → Result StdError ℕ) → Addr → Result StdError ℕ
  get_total_share total_supply liquidity = do
    a ← ok_or (addr_validate liquidity) StdError.generic_err
    total_supply a
