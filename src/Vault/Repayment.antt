-- ===== src/Vault/Repayment.antt =====
-- A flash loan that ends well is repaid with its fees.
use migaloo_core.Prelude.{
  ℕ, ◌+◌, ◌-◌, ◌≤◌, ◌<◌, ◌^◌, ◌≡◌, refl, true, false, List, [], ◌∷◌, ltb, ◌==◌, if◌then◌else◌,
  arith, Result, ok, err, fail_if, >>=-eq-ok, Bool-cases, inl, inr,
}
use migaloo_core.Cosmwasm.{Cosmwasm, StdError, checked_add_lem, checked_sub_lem}
use migaloo_core.Asset.{Asset, into_burn_msg}
use migaloo_core.Vault.{State, Chain, Message, send, lift, negative_profit}
use migaloo_core.Vault.Loans.{
  store_fee, fee_for, with_fees, get_payback_amount, PaybackAmountResponse, profit_of, burn,
  after_trade,
}

pub lift_ok {ℓ} : {A : Type ℓ} {m : Result StdError A} {a : A} → lift m ≡ ok a → m ≡ ok a
lift_ok {m = ok b} h = ground arith
lift_ok {m = err e} h = cc

module _ ⦃cw : Cosmwasm⦄ where
  with_fees_lem :
      (base a b c n : ℕ) → with_fees base a b c ≡ ok n → (n ≡ base + a + b + c) × (n < 2 ^ 128)
  unfolding with_fees
  with_fees_lem base a b c n h = grind (arith, checked_add_lem)

  with_fees_due :
      (base a b c : ℕ) → base + a + b + c < 2 ^ 128 → with_fees base a b c ≡ ok (base + a + b + c)
  unfolding with_fees
  with_fees_due base a b c h = grind (arith, checked_add_lem)

  store_fee_lem :
      (f : Asset) (n : ℕ) (f' : Asset)
      → store_fee f n ≡ ok f'
      → f' ≡ record f { amount = f.amount + n }
  unfolding store_fee
  store_fee_lem f n f' h = grind (arith, checked_add_lem)

  store_fee_due :
      (f : Asset) (n : ℕ)
      → f.amount + n < 2 ^ 128
      → store_fee f n ≡ ok (record f { amount = f.amount + n })
  unfolding store_fee
  store_fee_due f n h = grind (arith, checked_add_lem)

  profit_of_due :
      (new old a b c : ℕ)
      → old + a + b + c ≤ new
      → profit_of new old a b c ≡ ok (new - old - a - b - c)
  unfolding profit_of
  profit_of_due new old a b c h = grind (arith, checked_sub_lem)

  burn_lem :
      (s : State) (n : ℕ) (r : State × List Message)
      → burn s n ≡ ok r
      → r ≡ (
        record s {
          all_time_burned_fees = record s.all_time_burned_fees {
            amount = s.all_time_burned_fees.amount + n;
          };
        },
        (if n == 0
            then []
            else send (into_burn_msg (record { info = s.config.asset_info; amount = n })) ∷ []),
      )
  unfolding burn
  burn_lem s n r h = elim (Bool-cases (n == 0)) [
    | inl zero_fee ↦ ground arith
    | inr some_fee ↦
        let (f, e, k) = >>=-eq-ok (store_fee s.all_time_burned_fees n) _ (rw some_fee at h) in
        ground (arith, store_fee_lem s.all_time_burned_fees n f e)
  ]

  burn_due :
      (s : State) (n : ℕ)
      → s.all_time_burned_fees.amount + n < 2 ^ 128
      → burn s n
        ≡ ok (
          record s {
            all_time_burned_fees = record s.all_time_burned_fees {
              amount = s.all_time_burned_fees.amount + n;
            };
          },
          (if n == 0
              then []
              else send (into_burn_msg (record { info = s.config.asset_info; amount = n })) ∷ []),
        )
  unfolding burn
  burn_due s n h = ground (arith, store_fee_due s.all_time_burned_fees n h)

  -- The state after a loan, before the burn fee.
  abbrev pub counted_fee : State → ℕ → State
  counted_fee s p = record s {
    collected_protocol_fees = record s.collected_protocol_fees {
      amount = s.collected_protocol_fees.amount + p;
    };
    all_time_collected_protocol_fees = record s.all_time_collected_protocol_fees {
      amount = s.all_time_collected_protocol_fees.amount + p;
    };
    loan_counter = s.loan_counter - 1;
  }

  -- The state after a loan, and its messages: a fee that is not zero is burned.
  abbrev pub repaid : State → ℕ → ℕ → State × List Message
  repaid s p b = (
    record (counted_fee s p) {
      all_time_burned_fees = record s.all_time_burned_fees {
        amount = s.all_time_burned_fees.amount + b;
      };
    },
    (if b == 0
        then []
        else send (into_burn_msg (record { info = s.config.asset_info; amount = b })) ∷ []),
  )

  -- The callback, where the fees are known and all sums fit.
  after_trade_due :
      (ch : Chain) (s : State) (old loan new p f b : ℕ)
      → ch.balance s.config.asset_info ≡ ok new
      → fee_for s.config.fees.protocol_fee loan ≡ ok p
      → fee_for s.config.fees.flash_loan_fee loan ≡ ok f
      → fee_for s.config.fees.burn_fee loan ≡ ok b
      → old + p + f + b < 2 ^ 128
      → s.collected_protocol_fees.amount + p < 2 ^ 128
      → s.all_time_collected_protocol_fees.amount + p < 2 ^ 128
      → s.all_time_burned_fees.amount + b < 2 ^ 128
      → old + p + f + b ≤ new
      → after_trade ch s old loan ≡ ok (repaid s p b)
  unfolding after_trade
  after_trade_due ch s old loan new p f b eb ep ef ebf small small_c small_a small_b enough =
      let needed = with_fees_due old p f b small in
      let covered : ltb new (old + p + f + b) ≡ false = ground arith in
      let gained = profit_of_due new old p f b enough in
      let collected = store_fee_due s.collected_protocol_fees p small_c in
      let counted = store_fee_due s.all_time_collected_protocol_fees p small_a in
      let burned = burn_due (counted_fee s p) b small_b in
      rw eb (
        rw ep
          (rw ef (rw ebf (rw needed (rw covered (rw gained (rw collected (rw counted burned))))))))

  after_trade_short :
      (ch : Chain) (s : State) (old loan new p f b : ℕ)
      → ch.balance s.config.asset_info ≡ ok new
      → fee_for s.config.fees.protocol_fee loan ≡ ok p
      → fee_for s.config.fees.flash_loan_fee loan ≡ ok f
      → fee_for s.config.fees.burn_fee loan ≡ ok b
      → old + p + f + b < 2 ^ 128
      → new < old + p + f + b
      → after_trade ch s old loan ≡ err negative_profit
  unfolding after_trade
  after_trade_short ch s old loan new p f b eb ep ef ebf small short =
      let needed = with_fees_due old p f b small in
      let uncovered : ltb new (old + p + f + b) ≡ true = ground arith in
      rw eb (rw ep (rw ef (rw ebf (rw needed (rw uncovered refl)))))

  -- If the callback after a loan succeeds, then the balance of the vault has grown since the loan
  -- by the protocol, flash loan and burn fees for the amount of the loan at least; the protocol fee
  -- is added to the collected ones, the burn fee is burned, the loan is counted down, and nothing
  -- else of the state changes. So what the depositors own has grown by the flash loan fee at least.
  pub after_trade-repaid :
      (ch : Chain) (s : State) (old_balance loan_amount : ℕ) (r : State × List Message)
      → after_trade ch s old_balance loan_amount ≡ ok r
      → (new_balance : ℕ) × (p : ℕ) × (f : ℕ) × (b : ℕ) × (ch.balance s.config.asset_info
          ≡ ok new_balance)
        × (fee_for s.config.fees.protocol_fee loan_amount ≡ ok p)
        × (fee_for s.config.fees.flash_loan_fee loan_amount ≡ ok f)
        × (fee_for s.config.fees.burn_fee loan_amount ≡ ok b)
        × (old_balance + p + f + b ≤ new_balance)
        × (r ≡ repaid s p b)
        × (old_balance + f + r.0.collected_protocol_fees.amount + b
            ≤ new_balance + s.collected_protocol_fees.amount)
  unfolding after_trade
  after_trade-repaid ch s old_balance loan_amount r h =
      let (new, e0, h0) = >>=-eq-ok (lift (ch.balance s.config.asset_info)) _ h in
      let (p, ep, h1) = >>=-eq-ok (fee_for s.config.fees.protocol_fee loan_amount) _ h0 in
      let (f, ef, h2) = >>=-eq-ok (fee_for s.config.fees.flash_loan_fee loan_amount) _ h1 in
      let (b, eb, h3) = >>=-eq-ok (fee_for s.config.fees.burn_fee loan_amount) _ h2 in
      let (required, er, h4) = >>=-eq-ok (with_fees old_balance p f b) _ h3 in
      let (_, enough, h5) = >>=-eq-ok (fail_if (ltb new required) negative_profit) _ h4 in
      let (_, _, h6) = >>=-eq-ok (profit_of new old_balance p f b) _ h5 in
      let (c, ec, h7) = >>=-eq-ok (store_fee s.collected_protocol_fees p) _ h6 in
      let (a, ea, h8) = >>=-eq-ok (store_fee s.all_time_collected_protocol_fees p) _ h7 in
      let bound : old_balance + p + f + b ≤ new =
        ground (arith, with_fees_lem old_balance p f b required er) in
      let final : r ≡ repaid s p b = ground (
        arith,
        burn_lem _ b r h8,
        store_fee_lem s.collected_protocol_fees p c ec,
        store_fee_lem s.all_time_collected_protocol_fees p a ea,
      ) in
      (new, p, f, b, lift_ok e0, ep, ef, eb, bound, final, ground (arith, final))

  -- The amount that `get_payback_amount` asks for is what decides: where the sums fit in 128 bits,
  -- the callback succeeds if the balance has grown by that amount less the loan, and fails with
  -- `NegativeProfit` if it has grown by less.
  pub after_trade-get_payback_amount :
      (ch : Chain) (s : State) (old_balance loan_amount new_balance : ℕ) (q : PaybackAmountResponse)
      → get_payback_amount s loan_amount ≡ ok q
      → ch.balance s.config.asset_info ≡ ok new_balance
      → old_balance + q.payback_amount < 2 ^ 128
      → s.collected_protocol_fees.amount + q.payback_amount < 2 ^ 128
      → s.all_time_collected_protocol_fees.amount + q.payback_amount < 2 ^ 128
      → s.all_time_burned_fees.amount + q.payback_amount < 2 ^ 128
      → (old_balance + q.payback_amount ≤ new_balance + loan_amount
          → (r : State × List Message) × (after_trade ch s old_balance loan_amount ≡ ok r))
        × (new_balance + loan_amount < old_balance + q.payback_amount
            → after_trade ch s old_balance loan_amount ≡ err negative_profit)
  unfolding get_payback_amount
  after_trade-get_payback_amount ch s old_balance loan_amount new q h eb small small_c small_a
        small_b =
      let (p, ep, h1) = >>=-eq-ok (fee_for s.config.fees.protocol_fee loan_amount) _ h in
      let (f, ef, h2) = >>=-eq-ok (fee_for s.config.fees.flash_loan_fee loan_amount) _ h1 in
      let (b, ebf, h3) = >>=-eq-ok (fee_for s.config.fees.burn_fee loan_amount) _ h2 in
      let (n, en, h4) = >>=-eq-ok (with_fees loan_amount p f b) _ h3 in
      let sum : q.payback_amount ≡ loan_amount + p + f + b =
        ground (arith, with_fees_lem loan_amount p f b n en) in
      (
        λ enough. (
          repaid s p b,
          after_trade_due ch s old_balance loan_amount new p f b eb ep ef ebf (omega arith)
              (omega arith) (omega arith) (omega arith) (omega arith),
        ),
        λ short.
            after_trade_short ch s old_balance loan_amount new p f b eb ep ef ebf (omega arith)
              (omega arith),
      )
