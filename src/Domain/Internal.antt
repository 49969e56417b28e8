-- ===== src/Domain/Internal.antt =====
-- kernel/src/domain.rs: `reject_internal_operators`, which refuses a caller's domain that holds an
-- internal operator, also inside the domain that is the value of an `any`. That domain is smaller
-- than the leaf's value but no part of the node, so each level of nesting costs a unit of fuel.
pub mod Smaller
pub mod Reached
use odoo_rust_orm.Prelude.{
  ℕ, zero, suc, max, Bool, true, false, ◌||◌, List, [], ◌∷◌, Option, none, some, Bytes, codes,
  bytes_eq, if◌then◌else◌,
}
use odoo_rust_orm.Error.{Result, ok, err, ◌>>=◌, ◌>>◌, refuse}
use odoo_rust_orm.Json.{
  Json, null, bool, number, string, array, object, Items, nil, cons, Fields, end, field,
}
use odoo_rust_orm.Domain.{
  Leaf, Node, and, or, not, leaf, true_node, false_node, Nodes, none_left, child,
}
use odoo_rust_orm.Domain.Nested.{parse_nested}
use odoo_rust_orm.Domain.Junctions.{leaf_list, value}

unfoldable pub is_internal : Bytes → Bool
is_internal op = bytes_eq op (codes "any!") || bytes_eq op (codes "not any!")

unfoldable pub is_subdomain : Bytes → Bool
is_subdomain op = bytes_eq op (codes "any") || bytes_eq op (codes "not any")

-- How deep arrays nest in a value.
unfoldable mutual
  pub json_height : Json → ℕ
  json_height (array items) = suc (items_height items)
  json_height _ = zero

  pub items_height : Items → ℕ
  items_height nil = zero
  items_height (cons j js) = max (json_height j) (items_height js)

abbrev pub leaves : Node → List Leaf
leaves n = value leaf_list (λ l. l ∷ []) n

abbrev pub tallest : List Leaf → ℕ
tallest [] = zero
tallest (l ∷ ls) = max (json_height l.value) (tallest ls)

-- The check of a node, with that of a leaf's value in place of the recursive call.
module _ (nested : Json → Result (Unit {0})) where
  unfoldable pub reject_leaf : Leaf → Result (Unit {0})
  reject_leaf l =
      if is_internal l.op then refuse else if is_subdomain l.op then nested l.value else ok tt

  unfoldable mutual
    pub reject_node : Node → Result (Unit {0})
    reject_node (and ns) = reject_nodes ns
    reject_node (or ns) = reject_nodes ns
    reject_node (not n) = reject_node n
    reject_node (leaf l) = reject_leaf l
    reject_node true_node = ok tt
    reject_node false_node = ok tt

    pub reject_nodes : Nodes → Result (Unit {0})
    reject_nodes none_left = ok tt
    reject_nodes (child n ns) = reject_node n >> reject_nodes ns

-- `if let Some(sub) = parse_nested(value)`
unfoldable pub if_some : (Node → Result (Unit {0})) → Option Node → Result (Unit {0})
if_some reject none = ok tt
if_some reject (some sub) = reject sub

unfoldable pub in_nested : (Node → Result (Unit {0})) → Json → Result (Unit {0})
unfolding if_some
in_nested reject v = if_some reject (parse_nested v)

-- Without fuel there is no answer.
unfoldable pub reject_levels : ℕ → Node → Result (Unit {0})
reject_levels zero n = reject_node (in_nested (λ sub. err [])) n
reject_levels (suc fuel) n = reject_node (in_nested (reject_levels fuel)) n

-- The leaves' values nest at most as deep as the fuel is high.
unfoldable pub reject_internal_operators : Node → Result (Unit {0})
reject_internal_operators n = reject_levels (tallest (leaves n)) n
