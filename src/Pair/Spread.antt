-- ===== src/Pair/Spread.antt =====
-- What the check of a swap's spread admits, as exact comparisons without rounded ratios.
use migaloo_core.Prelude.{ℕ, ◌+◌, ◌*◌, min, Bool, Option, leb}
use migaloo_core.Cosmwasm.{Cosmwasm, decimal_one}
use migaloo_core.Pair.Limits.{default_slippage, max_allowed_slippage, unwrap_or}

-- The limit that a swap asks for, or one percent, and half at most.
abbrev pub limit_of : Option ℕ → ℕ
limit_of max_spread = min (unwrap_or max_spread default_slippage) max_allowed_slippage

-- Whether a part of an amount, in parts of one, is above a limit by a unit of the limit or more.
abbrev pub is_above : ℕ → ℕ → ℕ → Bool
is_above part amount limit = leb ((limit + 1) * amount) (part * decimal_one)
