-- ===== src/ReadRules.antt =====
-- kernel/src/security.rs: the reading of a model's rules as a whole: the rows that the registry
-- holds, with the evaluation of their expressions and reaches in place of parameters.
pub mod Fixed
use odoo_rust_orm.Prelude.{
  ℕ, Bool, true, false, List, [], ◌∷◌, Option, none, some, Bytes, ◌==◌, if◌then◌else◌,
}
use odoo_rust_orm.Error.{Result, ok, err, ◌>>=◌, refuse}
use odoo_rust_orm.Json.{Json}
use odoo_rust_orm.Access.Rows.{UserCtx, Registry, rules_domain}
use odoo_rust_orm.Reach.{Reach, AccessAnchor, reach_domain}
use odoo_rust_orm.RuleExpr.{PyExpr}
use odoo_rust_orm.RuleExpr.Eval.{eval_py}
use odoo_rust_orm.Registry.Groups.{Grants}
use odoo_rust_orm.Resolve.{resolve_name}
use odoo_rust_orm.Resolve.Hop.{Sources}

-- `str::split_once('.')`
unfoldable pub split_once : Bytes → Option (Bytes × Bytes)
split_once [] = none
split_once (c ∷ cs) =
    if c == b'.'
    then some ([], cs)
    else elim (split_once cs) [ none ↦ none | some r ↦ some (c ∷ r.0, r.1) ]

abbrev known_id : Option (Option ℕ) → Result ℕ
known_id (some (some id)) = if id == 0 then refuse else ok id
known_id _ = refuse

-- What the database answers: the row of an xml id, and the partners of a user.
pub record Lookups : Type 0 where
  pub xmlid : Bytes → Bytes → Result (Option (Option ℕ))
  pub partners : ℕ → Result (Option (Option ℕ × Option ℕ))
  pub anchors : Bytes → Result (Option (List (Bytes × AccessAnchor)))

unfoldable pub resolve_ref : Lookups → Bytes → Result ℕ
unfolding split_once
resolve_ref lookups xmlid = elim (split_once xmlid) [
  | none ↦ refuse
  | some (module_name, name) ↦ Lookups.xmlid lookups module_name name >>= λ row. known_id row
]

module _ (from : Sources) (grants : Grants) (lookups : Lookups) where
  unfoldable pub row_value : PyExpr → UserCtx → Result Json
  unfolding eval_py resolve_name resolve_ref
  row_value e user = eval_py from.doubles (resolve_name from grants user) (resolve_ref lookups) e

  unfoldable pub row_reached : Bytes → Reach → UserCtx → Result Json
  unfolding reach_domain
  row_reached model reach user = do
    anchors ← Lookups.anchors lookups model
    reach_domain (Lookups.partners lookups) anchors reach user

  unfoldable pub read_rules : Registry PyExpr Reach → UserCtx → Bytes → Result (Option Json)
  unfolding rules_domain row_value row_reached
  read_rules registry user model = rules_domain row_value row_reached registry user model
