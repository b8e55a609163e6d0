-- ===== src/Cosmwasm.antt =====
-- What the contracts use of the cosmwasm_std package.
use migaloo_core.Prelude.{
  ℕ, ◌+◌, ◌-◌, ◌*◌, ◌/◌, ◌^◌, ◌≡◌, refl, List, Option, none, some, leb, ltb, ◌==◌, if◌then◌else◌,
}

-- A value that an unsigned integer of `w` bits holds; `none` is the error of a checked operation
-- or the panic of an operator.
abbrev pub fits : ℕ → ℕ → Option ℕ
fits w n = if ltb n (2 ^ w) then some n else none

-- One, in the 18 decimal places of `Decimal` and `Decimal256`.
abbrev pub decimal_one : ℕ
decimal_one = 1000000000000000000

abbrev pub decimal_places : ℕ
decimal_places = 18

-- The arithmetic of `Uint64`, `Uint128`, `Uint256` (numbers below 2 ^ w), of `Decimal` and
-- `Decimal256` (their atomics, likewise below 2 ^ w), and of `Timestamp` (nanoseconds), with
-- the documented behaviour of each operation. On atomics, a product of decimals is what `mul_floor`
-- gives and a quotient of decimals what `from_ratio` gives.
pub record Cosmwasm : Type 0 where
  pub checked_add : ℕ → ℕ → ℕ → Option ℕ
  pub checked_sub : ℕ → ℕ → Option ℕ
  pub checked_mul : ℕ → ℕ → ℕ → Option ℕ
  pub checked_div : ℕ → ℕ → Option ℕ
  pub mul_floor : ℕ → ℕ → ℕ → Option ℕ
  pub multiply_ratio : ℕ → ℕ → ℕ → ℕ → Option ℕ
  pub from_ratio : ℕ → ℕ → ℕ → Option ℕ
  pub try_into : ℕ → ℕ → Option ℕ
  pub seconds : ℕ → ℕ
  -- `Decimal::from_atomics`: the atomics of a number with some decimal places
  pub from_atomics : ℕ → ℕ → ℕ → Option ℕ
  -- `Decimal::inv`
  pub inv : ℕ → Option ℕ
  -- `Api::addr_canonicalize` and its inverse
  pub addr_canonicalize : ℕ → Option ℕ
  pub addr_humanize : ℕ → Option ℕ
  -- `Api::addr_validate`; an address that is valid comes back as it is
  pub addr_validate : ℕ → Option ℕ
  pub checked_add_lem : (w a b : ℕ) → checked_add w a b ≡ fits w (a + b)
  pub checked_sub_lem : (a b : ℕ) → checked_sub a b ≡ (if leb b a then some (a - b) else none)
  pub checked_mul_lem : (w a b : ℕ) → checked_mul w a b ≡ fits w (a * b)
  pub checked_div_lem : (a b : ℕ) → checked_div a b ≡ (if b == 0 then none else some (a / b))
  pub mul_floor_lem : (w a d : ℕ) → mul_floor w a d ≡ fits w (a * d / decimal_one)
  pub multiply_ratio_lem :
      (w a n d : ℕ) → multiply_ratio w a n d ≡ (if d == 0 then none else fits w (a * n / d))
  pub from_ratio_lem :
      (w n d : ℕ) → from_ratio w n d ≡ (if d == 0 then none else fits w (n * decimal_one / d))
  pub try_into_lem : (w a : ℕ) → try_into w a ≡ fits w a
  pub seconds_lem : (t : ℕ) → seconds t ≡ t / 1000000000
  pub addr_validate_lem : (a b : ℕ) → addr_validate a ≡ some b → b ≡ a
  pub from_atomics_lem :
      (w n p : ℕ)
      → from_atomics w n p ≡ (
          if leb p decimal_places
          then fits w (n * 10 ^ (decimal_places - p))
          else some (n / 10 ^ (p - decimal_places)))
  pub inv_lem : (d : ℕ) → inv d ≡ (if d == 0 then none else some (decimal_one * decimal_one / d))
  pub addr_humanize_lem : (a c : ℕ) → addr_canonicalize a ≡ some c → addr_humanize c ≡ some a

-- Addresses and denoms are text that the contracts compare and pass on: a number stands for each.
abbrev pub Addr : Type 0
Addr = ℕ

abbrev pub Denom : Type 0
Denom = ℕ

pub record Coin : Type 0 where
  pub denom : Denom
  pub amount : ℕ

-- The sender of a message and the funds that came with it.
pub record MessageInfo : Type 0 where
  pub sender : Addr
  pub funds : List Coin

-- The messages that a contract asks the chain to run after its call.
pub data CosmosMsg : Type 0 where
  bank_send : Addr → List Coin → CosmosMsg
  bank_burn : List Coin → CosmosMsg
  cw20_transfer : Addr → Addr → ℕ → CosmosMsg
  cw20_transfer_from : Addr → Addr → Addr → ℕ → CosmosMsg
  cw20_mint : Addr → Addr → ℕ → CosmosMsg
  cw20_burn : Addr → ℕ → CosmosMsg
  -- `WasmMsg::Execute` of a message that this model does not look into, with its funds
  wasm_execute : Addr → ℕ → List Coin → CosmosMsg

-- `panicked` stands for a panic, which ends the call as an error does.
pub data StdError : Type 0 where
  overflow divide_by_zero generic_err panicked : StdError

-- The operations as the code writes them, with the instance in scope.
module _ ⦃cw : Cosmwasm⦄ where
  abbrev pub checked_add : ℕ → ℕ → ℕ → Option ℕ
  checked_add = cw.checked_add

  abbrev pub checked_sub : ℕ → ℕ → Option ℕ
  checked_sub = cw.checked_sub

  abbrev pub checked_mul : ℕ → ℕ → ℕ → Option ℕ
  checked_mul = cw.checked_mul

  abbrev pub checked_div : ℕ → ℕ → Option ℕ
  checked_div = cw.checked_div

  abbrev pub mul_floor : ℕ → ℕ → ℕ → Option ℕ
  mul_floor = cw.mul_floor

  abbrev pub multiply_ratio : ℕ → ℕ → ℕ → ℕ → Option ℕ
  multiply_ratio = cw.multiply_ratio

  abbrev pub from_ratio : ℕ → ℕ → ℕ → Option ℕ
  from_ratio = cw.from_ratio

  abbrev pub try_into : ℕ → ℕ → Option ℕ
  try_into = cw.try_into

  abbrev pub seconds : ℕ → ℕ
  seconds = cw.seconds

  abbrev pub from_atomics : ℕ → ℕ → ℕ → Option ℕ
  from_atomics = cw.from_atomics

  abbrev pub inv : ℕ → Option ℕ
  inv = cw.inv

  abbrev pub addr_canonicalize : Addr → Option ℕ
  addr_canonicalize = cw.addr_canonicalize

  abbrev pub addr_humanize : ℕ → Option Addr
  addr_humanize = cw.addr_humanize

  abbrev pub addr_validate : Addr → Option Addr
  addr_validate = cw.addr_validate

  pub checked_add_lem : (w a b : ℕ) → cw.checked_add w a b ≡ fits w (a + b)
  checked_add_lem = cw.checked_add_lem

  pub checked_sub_lem : (a b : ℕ) → cw.checked_sub a b ≡ (if leb b a then some (a - b) else none)
  checked_sub_lem = cw.checked_sub_lem

  pub checked_mul_lem : (w a b : ℕ) → cw.checked_mul w a b ≡ fits w (a * b)
  checked_mul_lem = cw.checked_mul_lem

  pub checked_div_lem : (a b : ℕ) → cw.checked_div a b ≡ (if b == 0 then none else some (a / b))
  checked_div_lem = cw.checked_div_lem

  pub mul_floor_lem : (w a d : ℕ) → cw.mul_floor w a d ≡ fits w (a * d / decimal_one)
  mul_floor_lem = cw.mul_floor_lem

  pub multiply_ratio_lem :
      (w a n d : ℕ) → cw.multiply_ratio w a n d ≡ (if d == 0 then none else fits w (a * n / d))
  multiply_ratio_lem = cw.multiply_ratio_lem

  pub from_ratio_lem :
      (w n d : ℕ) → cw.from_ratio w n d ≡ (if d == 0 then none else fits w (n * decimal_one / d))
  from_ratio_lem = cw.from_ratio_lem

  pub try_into_lem : (w a : ℕ) → cw.try_into w a ≡ fits w a
  try_into_lem = cw.try_into_lem

  pub seconds_lem : (t : ℕ) → cw.seconds t ≡ t / 1000000000
  seconds_lem = cw.seconds_lem

  pub addr_validate_lem : (a b : Addr) → cw.addr_validate a ≡ some b → b ≡ a
  addr_validate_lem = cw.addr_validate_lem

  pub from_atomics_lem :
      (w n p : ℕ)
      → cw.from_atomics w n p ≡ (
          if leb p decimal_places
          then fits w (n * 10 ^ (decimal_places - p))
          else some (n / 10 ^ (p - decimal_places)))
  from_atomics_lem = cw.from_atomics_lem

  pub inv_lem : (d : ℕ) → cw.inv d ≡ (if d == 0 then none else some (decimal_one * decimal_one / d))
  inv_lem = cw.inv_lem

  pub addr_humanize_lem : (a c : ℕ) → cw.addr_canonicalize a ≡ some c → cw.addr_humanize c ≡ some a
  addr_humanize_lem = cw.addr_humanize_lem

-- Rewrites every operation to what its documentation says.
pub ruleset cosmwasm_laws = (
  checked_add_lem, checked_sub_lem, checked_mul_lem, checked_div_lem, mul_floor_lem,
  multiply_ratio_lem, from_ratio_lem, try_into_lem, seconds_lem,
)

pub some_valid : (a b : Addr) → some a ≡ some b → b ≡ a
some_valid a b h = cc

pub some_human : (a c : Addr) → some a ≡ some c → some c ≡ some a
some_human a c h = cc

-- The package as documented; it shows that the laws can be met, and tests run with it.
abbrev pub documented : Cosmwasm
documented = record {
  checked_add = λ w a b. fits w (a + b);
  checked_sub = λ a b. if leb b a then some (a - b) else none;
  checked_mul = λ w a b. fits w (a * b);
  checked_div = λ a b. if b == 0 then none else some (a / b);
  mul_floor = λ w a d. fits w (a * d / decimal_one);
  multiply_ratio = λ w a n d. if d == 0 then none else fits w (a * n / d);
  from_ratio = λ w n d. if d == 0 then none else fits w (n * decimal_one / d);
  try_into = λ w a. fits w a;
  seconds = λ t. t / 1000000000;
  addr_validate = some;
  from_atomics = λ w n p.
      if leb p decimal_places
      then fits w (n * 10 ^ (decimal_places - p))
      else some (n / 10 ^ (p - decimal_places));
  inv = λ d. if d == 0 then none else some (decimal_one * decimal_one / d);
  addr_canonicalize = some;
  addr_humanize = some;
  checked_add_lem = λ w a b. refl;
  checked_sub_lem = λ a b. refl;
  checked_mul_lem = λ w a b. refl;
  checked_div_lem = λ a b. refl;
  mul_floor_lem = λ w a d. refl;
  multiply_ratio_lem = λ w a n d. refl;
  from_ratio_lem = λ w n d. refl;
  try_into_lem = λ w a. refl;
  seconds_lem = λ t. refl;
  addr_validate_lem = some_valid;
  from_atomics_lem = λ w n p. refl;
  inv_lem = λ d. refl;
  addr_humanize_lem = some_human;
}
