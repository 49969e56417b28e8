-- ===== src/Registry/Groups.antt =====
-- kernel/src/registry.rs: `Security::groups_of`, which closes a user's groups under implication. The
-- stack is the list of what is left to pop, its top first.
pub mod Stack
pub mod Closure
use odoo_rust_orm.Prelude.{
  ℕ, zero, suc, ◌+◌, Bool, true, false, List, [], ◌∷◌, ◌++◌, Option, none, some, reverse, length,
  if◌then◌else◌, map,
}
use odoo_rust_orm.Assoc.{member, lookup, id_key}

pub record Grants : Type 0 where
  pub implied : List (ℕ × List ℕ)
  pub everyone : Option ℕ
  pub user_groups : List (ℕ × List ℕ)

-- `.unwrap_or_default()`
abbrev pub or_empty : Option (List ℕ) → List ℕ
or_empty none = []
or_empty (some gs) = gs

-- `stack.extend(…)`
abbrev pub extend : List ℕ → List ℕ → List ℕ
extend more stack = reverse more ++ stack

abbrev pub one : Option ℕ → List ℕ
one none = []
one (some g) = g ∷ []

-- The loop: the fuel bounds the number of pops.
unfoldable pub close_groups : List (ℕ × List ℕ) → ℕ → List ℕ → List ℕ → Option (List ℕ)
close_groups implied fuel seen [] = some seen
close_groups implied zero seen (g ∷ stack) = none
close_groups implied (suc fuel) seen (g ∷ stack) =
    let known = close_groups implied fuel seen stack in
    let fresh = close_groups implied fuel (g ∷ seen) (extend (or_empty (lookup g implied)) stack) in
    if member g seen then known else fresh

-- All that the map can put on the stack.
abbrev pub entries : List (ℕ × List ℕ) → ℕ
entries [] = 0
entries (e ∷ es) = length e.1 + entries es

abbrev pub start : Grants → ℕ → List ℕ
start s uid = extend (one s.everyone) (extend (or_empty (lookup uid s.user_groups)) [])

unfoldable pub groups_of : Grants → ℕ → Option (List ℕ)
groups_of s uid = close_groups s.implied (length (start s uid) + entries s.implied) [] (start s uid)
