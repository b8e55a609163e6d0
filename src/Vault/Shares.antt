-- ===== src/Vault/Shares.antt =====
-- What shares are worth: deposits and withdrawals round in favour of the vault.
use migaloo_core.Prelude.{
  ℕ, ◌+◌, ◌-◌, ◌*◌, ◌/◌, ◌≤◌, ◌<◌, ◌≡◌, ◌≢◌, some, not, List, [], ◌∷◌, ◌++◌, ◌==◌, arith, ok,
  fail_if, ok_or, >>=-eq-ok, Bool-cases, inl, inr, ◌⊎◌,
}
use migaloo_core.Cosmwasm.{
  Cosmwasm, Addr, MessageInfo, StdError, decimal_one, checked_sub_lem, checked_mul_lem,
  checked_div_lem, try_into_lem, from_ratio_lem, mul_floor_lem, addr_validate, addr_validate_lem,
}
use migaloo_core.Asset.{minimum_liquidity_amount, into_msg}
use migaloo_core.Vault.{
  State, Chain, Message, send, std, deposits_disabled, deposit_during_loan, funds_mismatch,
  withdraws_disabled,
}
use migaloo_core.Vault.Liquidity.{
  liquidity_asset, deposit_amount, transfer_messages, mint_lp_token_msg, burn_lp_asset_msg,
  sent_funds, get_total_share, query_pool, first_share, later_share, deposit, part_of, own_assets,
  withdraw, get_share,
}
use native.Mathlib.Nat.{
  div-mul-le_self, mul-le-mul_left, mul-le-mul_right, le_of_mul-le-mul_right, mul-pos,
}

-- Shares bought at the old rate and sold at the new one, both rounded down, do not gain.
no_gain :
    (e a d s l r w : ℕ)
    → 0 < e
    → 0 < s + l
    → l * d ≤ a * s
    → r * (s + l) ≤ l * e
    → w * e ≤ (d + a) * r
    → w ≤ a
no_gain e a d s l r w pos some_shares bought ratio part =
    let sold = mul-le-mul_right (s + l) part in
    let worth = mul-le-mul_left (d + a) ratio in
    let paid = mul-le-mul_right e bought in
    let all_at_once : w * (e * (s + l)) ≤ a * (e * (s + l)) = grind arith in
    le_of_mul-le-mul_right all_at_once (mul-pos pos some_shares)

-- A part, rounded down twice, is not more than its proportion.
proportional : (e x s total r w : ℕ) → 0 < e → r * s ≤ x * e → w * e ≤ total * r → w * s ≤ x * total
proportional e x s total r w pos ratio part =
    let sold = mul-le-mul_right s part in
    let worth = mul-le-mul_left total ratio in
    let all_at_once : w * s * e ≤ x * total * e = grind arith in
    le_of_mul-le-mul_right all_at_once pos

module _ ⦃cw : Cosmwasm⦄ where
  part_of_lem :
      (x s total w : ℕ)
      → part_of x s total ≡ ok w
      → (s ≢ 0) × (w ≡ total * (x * decimal_one / s) / decimal_one)
  unfolding part_of
  part_of_lem x s total w h = grind (arith, from_ratio_lem, mul_floor_lem)

  part_of_proportional : (x s total w : ℕ) → part_of x s total ≡ ok w → w * s ≤ x * total
  part_of_proportional x s total w h =
      let (_, e) = part_of_lem x s total w h in
      let ratio = div-mul-le_self (x * decimal_one) s in
      let part = div-mul-le_self (total * (x * decimal_one / s)) decimal_one in
      proportional decimal_one x s total (x * decimal_one / s) w (omega arith) ratio (rw e part)

  -- The shares of a later deposit, from what the depositors owned before it.
  later_share_lem :
      (ch : Chain) (s : State) (a total lp : ℕ)
      → later_share ch s a total ≡ ok lp
      → (pool : ℕ) × (own : ℕ) × (query_pool ch s.config.asset_info ≡ ok pool)
        × (pool ≡ own + deposit_amount s.config.asset_info a + s.collected_protocol_fees.amount)
        × (own ≢ 0)
        × (lp ≡ a * total / own)
  unfolding later_share
  later_share_lem ch s a total lp h =
      let (pool, ep, h1) = >>=-eq-ok (query_pool ch s.config.asset_info) _ h in
      (
        pool,
        pool - s.collected_protocol_fees.amount - deposit_amount s.config.asset_info a,
        ep,
        grind (arith, checked_sub_lem, checked_mul_lem, checked_div_lem, try_into_lem),
        grind (arith, checked_sub_lem, checked_mul_lem, checked_div_lem, try_into_lem),
        grind (arith, checked_sub_lem, checked_mul_lem, checked_div_lem, try_into_lem),
      )

  get_share_due :
      (ch : Chain) (s : State) (amount total_share own w : ℕ)
      → get_total_share ch (liquidity_asset s.config.lp_asset) ≡ ok total_share
      → own_assets ch s ≡ ok own
      → part_of amount total_share own ≡ ok w
      → get_share ch s amount ≡ ok w
  unfolding get_share
  get_share_due ch s amount total_share own w en eo ew = rw en (rw eo ew)

  -- A successful `withdraw` pays the sender one amount, the one that `get_share` announces, and
  -- burns the shares; there are shares, and the amount is at most the proportion of the shares in
  -- what the depositors own.
  pub withdraw-get_share :
      (ch : Chain) (s : State) (sender : Addr) (amount : ℕ) (ms : List Message)
      → withdraw ch s sender amount ≡ ok ms
      → (own : ℕ) × (total_share : ℕ) × (w : ℕ) × (own_assets ch s ≡ ok own)
        × (get_total_share ch (liquidity_asset s.config.lp_asset) ≡ ok total_share)
        × (get_share ch s amount ≡ ok w)
        × (total_share ≢ 0)
        × (w * total_share ≤ amount * own)
        × (ms
            ≡ send (into_msg (record { info = s.config.asset_info; amount = w }) sender)
              ∷ burn_lp_asset_msg (liquidity_asset s.config.lp_asset) amount
              ∷ [])
  unfolding withdraw
  withdraw-get_share ch s sender amount ms h =
      let (_, _, h0) = >>=-eq-ok (fail_if (not s.config.withdraw_enabled) withdraws_disabled) _ h in
      let (a, ea, h1) = >>=-eq-ok (ok_or (addr_validate sender) (std StdError.generic_err)) _ h0 in
      let (own, eo, h2) = >>=-eq-ok (own_assets ch s) _ h1 in
      let (n, en, h3) = >>=-eq-ok (get_total_share ch (liquidity_asset s.config.lp_asset)) _ h2 in
      let (w, ew, h4) = >>=-eq-ok (part_of amount n own) _ h3 in
      let valid : addr_validate sender ≡ some a = ground arith in
      (
        own,
        n,
        w,
        eo,
        en,
        get_share_due ch s amount n own w en eo ew,
        (part_of_lem amount n own w ew).0,
        part_of_proportional amount n own w ew,
        ground (arith, addr_validate_lem sender a valid),
      )

  -- A successful `deposit` happens outside of all loans, with just the amount sent or allowed, and
  -- mints shares after it takes the transfer: where there are none yet, the minimum for the vault
  -- and the rest of the amount, which is not zero, for the sender; else for the sender the
  -- amount times the supply of shares divided by what the depositors owned before, rounded down.
  -- What they owned is not zero: it is the vault's pool less the collected fees and less the
  -- deposit where that has arrived already, which is so for a native asset.
  pub deposit_mints :
      (ch : Chain) (s : State) (info : MessageInfo) (amount : ℕ) (ms : List Message)
      → deposit ch s info amount ≡ ok ms
      → (total_share : ℕ) × (lp : ℕ) × (get_total_share ch (liquidity_asset s.config.lp_asset)
          ≡ ok total_share)
        × (s.loan_counter ≡ 0)
        × (sent_funds ch s.config.asset_info info ≡ ok amount)
        × (((total_share ≡ 0)
              × (lp + minimum_liquidity_amount ≡ amount)
              × (lp ≢ 0)
              × (ms
                  ≡ transfer_messages s.config.asset_info info.sender ch.contract_address amount
                    ++ mint_lp_token_msg
                        (liquidity_asset s.config.lp_asset)
                        ch.contract_address
                        minimum_liquidity_amount
                      ∷ mint_lp_token_msg (liquidity_asset s.config.lp_asset) info.sender lp
                      ∷ []))
            ⊎ ((total_share ≢ 0)
                × ((pool : ℕ) × (own : ℕ) × (query_pool ch s.config.asset_info ≡ ok pool)
                    × (pool
                        ≡ own
                          + deposit_amount s.config.asset_info amount
                          + s.collected_protocol_fees.amount)
                    × (own ≢ 0)
                    × (lp ≡ amount * total_share / own))
                × (ms
                    ≡ transfer_messages s.config.asset_info info.sender ch.contract_address amount
                      ++ mint_lp_token_msg (liquidity_asset s.config.lp_asset) info.sender lp
                        ∷ [])))
  unfolding deposit first_share
  deposit_mints ch s info amount ms h =
      let (_, _, h0) = >>=-eq-ok (fail_if (not s.config.deposit_enabled) deposits_disabled) _ h in
      let (_, e1, h1) = >>=-eq-ok (fail_if (not (s.loan_counter == 0)) deposit_during_loan) _ h0 in
      let (sent, es, h2) = >>=-eq-ok (sent_funds ch s.config.asset_info info) _ h1 in
      let (_, e3, h3) = >>=-eq-ok (fail_if (not (sent == amount)) funds_mismatch) _ h2 in
      let (n, en, h4) = >>=-eq-ok (get_total_share ch (liquidity_asset s.config.lp_asset)) _ h3 in
      let exact : sent ≡ amount = ground arith in
      let idle : s.loan_counter ≡ 0 = ground arith in
      elim (Bool-cases (n == 0)) [
        | inl none_yet ↦
            let (lp, el, h5) = >>=-eq-ok (first_share amount) _ (rw none_yet at h4) in
            (
              n,
              lp,
              en,
              idle,
              rw (← exact) es,
              inl (
                ground arith,
                grind (arith, checked_sub_lem),
                grind (arith, checked_sub_lem),
                ground arith,
              ),
            )
        | inr some_shares ↦
            let (lp, el, h5) = >>=-eq-ok (later_share ch s amount n) _ (rw some_shares at h4) in
            let rate = later_share_lem ch s amount n lp el in
            (n, lp, en, idle, rw (← exact) es, inr (ground arith, rate, ground arith))
      ]

  -- Nobody gains by a deposit and a withdrawal: the shares that a later deposit mints are worth at
  -- most its amount, once it has arrived and nothing else has changed.
  pub get_share-later_share :
      (ch ch' : Chain) (s : State) (amount total_share lp pool w : ℕ)
      → later_share ch s amount total_share ≡ ok lp
      → query_pool ch s.config.asset_info ≡ ok pool
      → ch'.balance s.config.asset_info
        ≡ ok (pool - deposit_amount s.config.asset_info amount + amount)
      → get_total_share ch' (liquidity_asset s.config.lp_asset) ≡ ok (total_share + lp)
      → get_share ch' s lp ≡ ok w
      → w ≤ amount
  unfolding get_share own_assets
  get_share-later_share ch ch' s amount total_share lp pool w h ep eb en hw =
      let (pool', d, ep', ed, some_own, el) = later_share_lem ch s amount total_share lp h in
      let (n, en', h1) = >>=-eq-ok (get_total_share ch' (liquidity_asset s.config.lp_asset)) _ hw in
      let (own, eo, h2) = >>=-eq-ok (own_assets ch' s) _ h1 in
      let shares : n ≡ total_share + lp = ground arith in
      let pools : pool ≡ pool' = ground arith in
      let owned : own ≡ d + amount = grind (arith, checked_sub_lem) in
      let (some_shares, ew) = part_of_lem lp n own w h2 in
      let bought = div-mul-le_self (amount * total_share) d in
      let ratio = div-mul-le_self (lp * decimal_one) n in
      let part = div-mul-le_self (own * (lp * decimal_one / n)) decimal_one in
      no_gain decimal_one amount d total_share lp (lp * decimal_one / n) w (omega arith)
        (omega arith) (rw el bought) (rw (← shares) ratio) (rw ew (rw (← owned) part))
