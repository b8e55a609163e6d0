-- ===== src/Fee.antt =====
-- The fees of pools and vaults, packages/white-whale-std/src/fee.rs. A share is a Decimal.
use migaloo_core.Prelude.{ℕ, leb, Result, ◌>>=◌, ◌>>◌, fail_if, ok_or}
use migaloo_core.Cosmwasm.{Cosmwasm, StdError, decimal_one, checked_add, mul_floor}

pub record Fee : Type 0 where
  pub share : ℕ

pub record VaultFee : Type 0 where
  pub protocol_fee : Fee
  pub flash_loan_fee : Fee
  pub burn_fee : Fee

-- `Fee::is_valid`: less than 100 %
unfoldable pub is_valid : Fee → Result StdError (Unit {0})
is_valid fee = fail_if (leb decimal_one fee.share) StdError.generic_err

module _ ⦃cw : Cosmwasm⦄ where
  unfoldable pub compute : Fee → ℕ → Result StdError ℕ
  compute fee amount = ok_or (mul_floor 256 amount fee.share) StdError.panicked

  -- `VaultFee::is_valid`: less than 100 % together
  unfoldable pub are_valid : VaultFee → Result StdError (Unit {0})
  unfolding is_valid
  are_valid fees = do
    is_valid fees.protocol_fee
    is_valid fees.flash_loan_fee
    is_valid fees.burn_fee
    two ←
        ok_or (checked_add 128 fees.protocol_fee.share fees.flash_loan_fee.share) StdError.overflow
    three ← ok_or (checked_add 128 two fees.burn_fee.share) StdError.overflow
    fail_if (leb decimal_one three) StdError.generic_err
