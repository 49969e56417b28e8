-- ===== src/Reach.antt =====
-- kernel/src/security.rs: what an access row's reach admits for a principal; and, of
-- kernel/src/registry.rs, how a row's reach is read.
pub mod Meaning
use odoo_rust_orm.Prelude.{
  ℕ, Bool, true, false, not, ◌&&◌, ◌||◌, List, [], ◌∷◌, Option, none, some, Bytes, codes, bytes_eq,
  map, all, any, if◌then◌else◌,
}
use odoo_rust_orm.Error.{Result, ok, err, ◌>>=◌, refuse}
use odoo_rust_orm.Json.{Json, bool, number, string, array, pos_int, nil, cons, of_list}
use odoo_rust_orm.Domain.{bar}
use odoo_rust_orm.Access.{ids_json}
use odoo_rust_orm.Access.Rows.{UserCtx}
use odoo_rust_orm.Assoc.{lookup, name_key}

pub record AccessAnchor : Type 0 where
  pub path : Bytes
  pub kind : Bytes
  pub shared : Bool
  pub hierarchy : Bytes

pub record Reach : Type 0 where
  pub rung : Bytes
  pub anchor : Option Bytes

unfoldable pub rung_anchor : Bytes → Result Bytes
rung_anchor rung =
    if bytes_eq rung (codes "own")
    then ok (codes "owner")
    else if bytes_eq rung (codes "company")
    then ok (codes "company")
    else if bytes_eq rung (codes "partner")
    then ok (codes "partner")
    else refuse

abbrev anchor_key : Reach → Result Bytes
anchor_key reach = elim reach.anchor [ none ↦ rung_anchor reach.rung | some key ↦ ok key ]

abbrev pub found {ℓ} : {A : Type ℓ} → Option A → Result A
found none = refuse
found (some a) = ok a

unfoldable pub reach_anchor : Option (List (Bytes × AccessAnchor)) → Reach → Result AccessAnchor
unfolding rung_anchor
reach_anchor none reach = refuse
reach_anchor (some anchors) reach = do key ← anchor_key reach; found (lookup key anchors)

unfoldable pub needs_partner : Reach → AccessAnchor → Bool
needs_partner reach anchor =
    bytes_eq reach.rung (codes "partner")
    || (bytes_eq reach.rung (codes "own") && bytes_eq anchor.kind (codes "partner"))

abbrev pub reach_leaf : Bytes → Bytes → List ℕ → Json
reach_leaf path operator ids =
    array (cons (string path) (cons (string operator) (cons (ids_json ids) nil)))

abbrev pub is_empty {ℓ} : {A : Type ℓ} → List A → Bool
is_empty [] = true
is_empty (_ ∷ _) = false

-- The `match` of `reach_leaves`.
unfoldable pub leaf_of : Reach → AccessAnchor → ℕ → List ℕ → Option (ℕ × ℕ) → Result Json
leaf_of reach anchor uid companies partner =
    if bytes_eq reach.rung (codes "own")
    then if bytes_eq anchor.kind (codes "owner") || bytes_eq anchor.kind (codes "creator")
      then ok (reach_leaf anchor.path (codes "in") (uid ∷ []))
      else if bytes_eq anchor.kind (codes "partner")
      then found partner >>= (λ p. ok (reach_leaf anchor.path (codes "in") (p.0 ∷ [])))
      else refuse
    else if bytes_eq reach.rung (codes "company")
    then ok (
        reach_leaf anchor.path (if is_empty anchor.hierarchy then codes "in" else anchor.hierarchy)
          companies)
    else if bytes_eq reach.rung (codes "partner")
    then found partner >>= (λ p. ok (reach_leaf anchor.path (codes "child_of") (p.1 ∷ [])))
    else refuse

-- `json!([path, "=", false])`
abbrev pub unset : Bytes → Json
unset path = array (cons (string path) (cons (string (codes "=")) (cons (bool false) nil)))

abbrev pub with_shared : AccessAnchor → Json → Json
with_shared anchor leaf =
    if anchor.shared
    then array (cons (string bar) (cons leaf (cons (unset anchor.path) nil)))
    else array (cons leaf nil)

unfoldable pub reach_leaves : Reach → AccessAnchor → ℕ → List ℕ → Option (ℕ × ℕ) → Result Json
unfolding leaf_of
reach_leaves reach anchor uid companies partner = do
  leaf ← leaf_of reach anchor uid companies partner
  ok (with_shared anchor leaf)

-- The rows that the database has of a user: the partner and the commercial partner.
unfoldable pub access_partner :
    (ℕ → Result (Option (Option ℕ × Option ℕ))) → UserCtx → Result (ℕ × ℕ)
access_partner query user = elim user.access_partner [
  | some binds ↦ ok binds
  | none ↦ query user.uid >>= λ row. elim row [
    | none ↦ refuse
    | some r ↦ elim r.0 [ none ↦ refuse | some p ↦ elim r.1 [ none ↦ refuse | some c ↦ ok (p, c) ] ]
  ]
]

unfoldable pub reach_domain :
    (ℕ → Result (Option (Option ℕ × Option ℕ)))
    → Option (List (Bytes × AccessAnchor))
    → Reach
    → UserCtx
    → Result Json
unfolding reach_anchor needs_partner access_partner reach_leaves
reach_domain query anchors reach user = do
  anchor ← reach_anchor anchors reach
  partner ←
      (if needs_partner reach anchor
        then (access_partner query user >>= λ p. ok (some p))
        else ok none)
  reach_leaves reach anchor user.uid user.company_ids partner
