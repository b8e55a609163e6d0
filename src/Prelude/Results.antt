-- ===== src/Prelude/Results.antt =====
-- Rust's `Result`, its `?` operator and the usual ways into it.
use mathlib.Core.Path.{◌≡◌, refl}
use mathlib.Core.Bool.{Bool, true, false}
use mathlib.Core.Option.{Option, none, some}

pub data Result {ℓ κ} (E : Type ℓ) (A : Type κ) : Type (ℓ ⊔ κ) where
  ok : A → Result E A
  err : E → Result E A

module _ {ℓ} {E : Type ℓ} where
  -- `.ok_or(e)?`, and a panic or an error of a library call
  abbrev pub ok_or {κ} : {A : Type κ} → Option A → E → Result E A
  ok_or none e = err e
  ok_or (some a) e = ok a

  -- `if b { return Err(e) }`
  abbrev pub fail_if : Bool → E → Result E (Unit {0})
  fail_if true e = err e
  fail_if false e = ok tt

  -- `m?` followed by the rest of the function
  infixl 5 ◌>>=◌
  abbrev pub ◌>>=◌ {κ ι} : {A : Type κ} {B : Type ι} → Result E A → (A → Result E B) → Result E B
  err failure >>= rest = err failure
  ok value >>= rest = rest value

  -- What a `?` that went through was: the value it gave, and the rest on it.
  pub >>=-eq-ok {κ ι} :
      {A : Type κ} {B : Type ι} (first : Result E A) (rest : A → Result E B) {final : B}
      → (first >>= rest) ≡ ok final
      → (value : A) × (first ≡ ok value) × (rest value ≡ ok final)
  >>=-eq-ok (err failure) rest h = cc
  >>=-eq-ok (ok value) rest h = (value, refl, h)

  -- The same with a name for each part, for a proof that goes on from there.
  pub >>=-elim {κ ι ν} :
      {A : Type κ} {B : Type ι} {C : Type ν} (first : Result E A) {rest : A → Result E B}
      {final : B}
      → (first >>= rest) ≡ ok final
      → ((value : A) → first ≡ ok value → rest value ≡ ok final → C)
      → C
  >>=-elim first h go = let (value, e, rest) = >>=-eq-ok first _ h in go value e rest

  pub ok-injective {κ} : {A : Type κ} {a b : A} → ◌≡◌ {A = Result E A} (ok a) (ok b) → a ≡ b
  ok-injective h = cc

  -- `m?;`, for the error only
  infixl 5 ◌>>◌
  abbrev pub ◌>>◌ {κ} : {B : Type κ} → Result E (Unit {0}) → Result E B → Result E B
  check >> rest = check >>= λ done. rest
