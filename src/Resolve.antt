-- ===== src/Resolve.antt =====
-- kernel/src/security.rs: `resolve_name`, which follows a chain of names from the principal to the
-- value that it has in the evaluation of an access row. Parameters: the models of the registry, the
-- groups, and what the database answers to a query. Traces are left out.
pub mod Hop
pub mod Walk
pub mod Stored
use odoo_rust_orm.Prelude.{
  ℕ, zero, suc, Bool, true, false, not, ◌&&◌, ◌||◌, List, [], ◌∷◌, Option, none, some, map, Bytes,
  codes, bytes_eq, flat_map, if◌then◌else◌, ◌==◌,
}
use odoo_rust_orm.Error.{Result, ok, err, ◌>>=◌, ◌>>◌, refuse, other}
use odoo_rust_orm.Json.{Json, bool, number, array, pos_int, nil, of_list}
use odoo_rust_orm.Access.{ids_json}
use odoo_rust_orm.Access.Rows.{UserCtx, sort, dedup}
use odoo_rust_orm.Resolve.Hop.{Found, scalar, records, Sources, hop}
use odoo_rust_orm.Resolve.Walk.{walk, Ended, value, at, users}
use odoo_rust_orm.RuleExpr.Parser.{is_empty}
use odoo_rust_orm.Registry.Groups.{Grants}

-- The principal's own records, and what `user.env` leads to.
abbrev env_path : UserCtx → List Bytes → Result (Bytes × List ℕ × List Bytes)
env_path user [] = refuse
env_path user (name ∷ path) =
    if bytes_eq name (codes "companies")
    then ok (codes "res.company", user.company_ids, path)
    else if bytes_eq name (codes "company")
    then ok (codes "res.company", user.company_id ∷ [], path)
    else if bytes_eq name (codes "user")
    then ok (users, user.uid ∷ [], path)
    else refuse

unfoldable pub start : UserCtx → List Bytes → Result (Bytes × List ℕ × List Bytes)
start user [] = ok (users, user.uid ∷ [], [])
start user (name ∷ path) =
    if bytes_eq name (codes "env")
    then env_path user path
    else ok (users, user.uid ∷ [], name ∷ path)

-- `strip_prefix('*')`
abbrev strip_star : Bytes → Bytes
strip_star [] = []
strip_star (c ∷ cs) = if c == b'*' then cs else c ∷ cs

abbrev has_star : Bytes → Bool
has_star [] = false
has_star (c ∷ cs) = c == b'*'

abbrev last_of : List Bytes → Option Bytes
last_of [] = none
last_of (n ∷ []) = some n
last_of (n ∷ m ∷ names) = last_of (m ∷ names)

abbrev is_last : (Bytes → Bool) → List Bytes → Bool
is_last p names = elim (last_of names) [ none ↦ false | some n ↦ p n ]

id_json : ℕ → Json
id_json i = number (pos_int i)

-- The `match` on the records at the end, with the name that was passed last.
several : List ℕ → Result Json
unfolding id_json
several [] = ok (bool false)
several (one ∷ []) = ok (id_json one)
several many = ok (ids_json many)

one_id : List ℕ → Result Json
unfolding id_json
one_id [] = ok (bool false)
one_id (one ∷ []) = ok (id_json one)
one_id many = refuse

unfoldable pub result : Bool → List ℕ → Option Bytes → Result Json
unfolding several one_id
result mapped_id current none = several current
result mapped_id current (some last) =
    if bytes_eq last (codes "id")
    then if mapped_id then ok (ids_json current) else one_id current
    else if bytes_eq last (codes "ids")
    then ok (ids_json current)
    else several current

module _ (from : Sources) (grants : Grants) (user : UserCtx) where
  of_user : List Bytes → List Bytes → Result Json
  unfolding start result walk
  of_user chain names = do
    begin ← start user (map strip_star names)
    ended ←
        walk from grants (is_last (bytes_eq (codes "*ids")) chain) (is_last has_star names) 32
          begin.0 begin.1 none begin.2
    elim ended [
      | value v ↦ ok v
      | at model current last ↦ result (is_last (bytes_eq (codes "*id")) chain) current last
    ]

  -- A value of the context, which has no attributes.
  unfoldable pub of_context : Bytes → Result Json
  of_context name =
      if bytes_eq name (codes "company_id")
      then ok (number (pos_int user.company_id))
      else if bytes_eq name (codes "company_ids")
      then ok (ids_json user.company_ids)
      else if bytes_eq name (codes "group_ids")
      then ok (ids_json (sort user.groups))
      else refuse

  -- `chain[0]` is there in every name that the reader gives.
  unfoldable pub resolve_name : List Bytes → Result Json
  unfolding of_user of_context
  resolve_name [] = err (other ∷ [])
  resolve_name (name ∷ names) =
      if bytes_eq name (codes "user")
      then of_user (name ∷ names) names
      else if is_empty names
      then of_context name
      else refuse
