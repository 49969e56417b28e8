-- ===== src/Access/Grants.antt =====
-- kernel/src/security.rs: `check_read_access`, on the fields of `Security` that it reads. The fuel
-- counts the levels that the limit on the depth of `_inherits` leaves.
pub mod Hierarchy
use odoo_rust_orm.Prelude.{
  ℕ, zero, suc, Bool, true, false, not, ◌&&◌, ◌||◌, List, [], ◌∷◌, Option, none, some, Bytes, any,
  if◌then◌else◌,
}
use odoo_rust_orm.Error.{Result, ok, err, ◌>>=◌, ◌>>◌, refuse, deny_access}
use odoo_rust_orm.Access.Rows.{UserCtx, contains, holds_any}

-- The group that a guard binds (everyone where there is none), and the groups that it spares.
abbrev pub DenyingGuard : Type 0
DenyingGuard = Option ℕ × List ℕ

pub record Security : Type 0 where
  pub access : Bytes → Option (List ℕ)
  pub denying_guards : Bytes → Option (List DenyingGuard)
  pub parents : Bytes → Option (List Bytes)
  pub anchors : Bytes → Option Bytes

abbrev pub is_some {ℓ} : {A : Type ℓ} → Option A → Bool
is_some none = false
is_some (some _) = true

-- `.into_iter().flatten()`
abbrev pub listed {ℓ} : {A : Type ℓ} → Option (List A) → List A
listed none = []
listed (some xs) = xs

abbrev pub binds : Bool → UserCtx → Option ℕ → Bool
binds anchored user none = true
binds anchored user (some gid) =
    contains user.groups gid && not (anchored && is_some (user.scopes gid))

unfoldable pub guard_denies : Bool → UserCtx → DenyingGuard → Bool
guard_denies anchored user (g, exempt) = not (holds_any user.groups exempt) && binds anchored user g

-- Whether a guard that admits nothing binds the user.
unfoldable pub is_guarded : Security → UserCtx → Bytes → Bool
is_guarded security user model =
    any (guard_denies (is_some (security.anchors model)) user)
      (listed (security.denying_guards model))

-- The checks on one model.
unfoldable pub check_model : Security → UserCtx → Bytes → Result (Unit {0})
check_model security user model = elim (security.access model) [
  | none ↦ deny_access
  | some granted ↦
      if not (holds_any user.groups granted)
      then deny_access
      else if is_guarded security user model
      then deny_access
      else ok tt
]

unfoldable pub each : (Bytes → Result (Unit {0})) → List Bytes → Result (Unit {0})
each check [] = ok tt
each check (model ∷ models) = check model >> each check models

-- `check_read_access_inner`
unfoldable pub check_inner : Security → UserCtx → ℕ → Bytes → Result (Unit {0})
check_inner security user zero model = refuse
check_inner security user (suc fuel) model =
    check_model security user model
    >> each (check_inner security user fuel) (listed (security.parents model))

unfoldable pub check_read_access : Security → UserCtx → Bytes → Result (Unit {0})
check_read_access security user model = check_inner security user 17 model
