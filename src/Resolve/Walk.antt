-- ===== src/Resolve/Walk.antt =====
-- kernel/src/security.rs: the loop of `resolve_name` over the path, on what is left of it. At most 32
-- rounds are made, which the expansion of related fields could exceed.
use odoo_rust_orm.Prelude.{
  ℕ, zero, suc, Bool, true, false, not, ◌&&◌, ◌||◌, List, [], ◌∷◌, ◌++◌, Option, none, some, Bytes,
  codes, bytes_eq, flat_map, if◌then◌else◌,
}
use odoo_rust_orm.Error.{Result, ok, ◌>>=◌, refuse}
use odoo_rust_orm.Json.{Json}
use odoo_rust_orm.Assoc.{lookup, name_key, id_key}
use odoo_rust_orm.Access.{ids_json}
use odoo_rust_orm.Access.Rows.{sort, dedup}
use odoo_rust_orm.RuleExpr.Parser.{split, is_empty}
use odoo_rust_orm.Registry.Fields.{Field}
use odoo_rust_orm.Registry.Groups.{Grants, groups_of, or_empty}
use odoo_rust_orm.Resolve.Hop.{scalar, records, Sources, get_model, hop}

-- Where the walk ends: at a value, or at records, with the name that was passed last.
pub data Ended : Type 0 where
  value : Json → Ended
  at : Bytes → List ℕ → Option Bytes → Ended

abbrev pub users : Bytes
users = codes "res.users"

-- The groups that some users hold, all of them or their own.
unfoldable pub groups_json : Grants → Bool → List ℕ → Json
groups_json grants closed current =
    let all = flat_map (λ (uid : ℕ). or_empty (groups_of grants uid)) current in
    let own = flat_map (λ (uid : ℕ). or_empty (lookup uid grants.user_groups)) current in
    ids_json (dedup (sort (if closed then all else own)))

-- `[] | [_]`, and the one is `ids`.
abbrev ids_at_most : List Bytes → Bool
ids_at_most [] = true
ids_at_most (t ∷ []) = bytes_eq t (codes "ids")
ids_at_most _ = false

abbrev is_groups : Bytes → Bytes → Bool
is_groups model attr =
    bytes_eq model users
    && (bytes_eq attr (codes "all_group_ids") || bytes_eq attr (codes "group_ids"))

module _ (from : Sources) (grants : Grants) (mapped_ids mapped : Bool) where
  unfoldable pub walk : ℕ → Bytes → List ℕ → Option Bytes → List Bytes → Result Ended
  unfolding groups_json
  walk rounds model current last [] = ok (at model current last)
  walk zero model current last (attr ∷ path) = refuse
  walk (suc rounds) model current last (attr ∷ path) =
      let is_ids = bytes_eq attr (codes "ids") in
      let over = do
        m ← get_model from model
        f ← elim (lookup attr m.fields) [ none ↦ refuse | some f ↦ ok f ]
        elim (Field.related f) [
          | some related ↦ walk rounds model current last (split b'.' related ++ path)
          | none ↦ hop from model m f (is_empty path) mapped current >>= λ found. elim found [
            | scalar v ↦ ok (value v)
            | records next ids ↦ walk rounds next ids (some attr) path
          ]
        ]
      in if bytes_eq attr (codes "id") || is_ids
        then if not (is_empty path)
          then refuse
          else if is_ids && mapped_ids
          then refuse
          else ok (at model current (some attr))
        else if is_groups model attr
        then if not (ids_at_most path)
          then refuse
          else ok (value (groups_json grants (bytes_eq attr (codes "all_group_ids")) current))
        else over
