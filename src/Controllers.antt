-- ===== src/Controllers.antt =====
-- What the epoch manager uses of the cw_controllers package: `Admin` and `Hooks`.
use migaloo_core.Prelude.{
  ◌≡◌, ◌↔◌, Bool, true, false, Option, none, some, List, [], ◌∷◌, ◌++◌, ◌==◌, any, retain, not,
  if◌then◌else◌, arith,
}
use migaloo_core.Cosmwasm.{Addr}

pub record Controllers : Type 0 where
  -- `Admin::assert_admin`: only the stored admin passes
  pub is_admin : Option Addr → Addr → Bool
  -- `Hooks::execute_add_hook` and `execute_remove_hook`: the admin, the sender, the hooks, the hook
  pub execute_add_hook : Option Addr → Addr → List Addr → Addr → Option (List Addr)
  pub execute_remove_hook : Option Addr → Addr → List Addr → Addr → Option (List Addr)
  pub is_admin_iff : (admin : Option Addr) (a : Addr) → (is_admin admin a ≡ true) ↔ (admin ≡ some a)
  pub add_hook_admin :
      (admin : Option Addr) (a : Addr) (hooks : List Addr) (h : Addr) (hooks' : List Addr)
      → execute_add_hook admin a hooks h ≡ some hooks'
      → admin ≡ some a
  pub remove_hook_admin :
      (admin : Option Addr) (a : Addr) (hooks : List Addr) (h : Addr) (hooks' : List Addr)
      → execute_remove_hook admin a hooks h ≡ some hooks'
      → admin ≡ some a

abbrev pub same_admin : Option Addr → Addr → Bool
same_admin none a = false
same_admin (some b) a = b == a

abbrev pub add_new : Option Addr → Addr → List Addr → Addr → Option (List Addr)
add_new admin a hooks h =
    if same_admin admin a
    then (if any (λ b. b == h) hooks then none else some (hooks ++ h ∷ []))
    else none

abbrev pub remove_known : Option Addr → Addr → List Addr → Addr → Option (List Addr)
remove_known admin a hooks h =
    if same_admin admin a
    then (if any (λ b. b == h) hooks then some (retain (λ b. not (b == h)) hooks) else none)
    else none

pub same_admin_iff :
    (admin : Option Addr) (a : Addr) → (same_admin admin a ≡ true) ↔ (admin ≡ some a)
same_admin_iff admin a = (λ h. ground arith, λ h. ground arith)

pub add_new_admin :
    (admin : Option Addr) (a : Addr) (hooks : List Addr) (h : Addr) (hooks' : List Addr)
    → add_new admin a hooks h ≡ some hooks'
    → admin ≡ some a
add_new_admin admin a hooks h hooks' e = ground arith

pub remove_known_admin :
    (admin : Option Addr) (a : Addr) (hooks : List Addr) (h : Addr) (hooks' : List Addr)
    → remove_known admin a hooks h ≡ some hooks'
    → admin ≡ some a
remove_known_admin admin a hooks h hooks' e = ground arith

-- An implementation that meets the laws; tests run with it.
abbrev pub registry : Controllers
registry = record {
  is_admin = same_admin;
  execute_add_hook = add_new;
  execute_remove_hook = remove_known;
  is_admin_iff = same_admin_iff;
  add_hook_admin = add_new_admin;
  remove_hook_admin = remove_known_admin;
}
