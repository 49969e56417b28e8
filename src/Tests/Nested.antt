-- ===== src/Tests/Nested.antt =====
-- Runs of `reject_internal_operators` of kernel/src/domain.rs, and its theorems at concrete domains.
use odoo_rust_orm.Prelude.{false, ◌≡◌, refl, ◌⊎◌, codes, bytes_eq, Bytes, here, there}
use odoo_rust_orm.Error.{ok, refuse}
use odoo_rust_orm.Json.{Json, string, number, array, pos_int, nil, cons}
use odoo_rust_orm.Domain.{
  Leaf, Node, and, not, leaf, none_left, child, from_node, finish, parse_operand, parse_leaf,
  push_leaf, step, parse_stack, close, parse,
}
use odoo_rust_orm.Domain.Junctions.{value}
use odoo_rust_orm.Domain.Nested.{looks_like_a_term, parse_nested}
use odoo_rust_orm.Domain.Internal.{
  is_internal, is_subdomain, json_height, reject_leaf, reject_node, if_some, in_nested,
  reject_levels, reject_internal_operators,
}
use odoo_rust_orm.Domain.Internal.Reached.{
  Reached, held, inside, Found, reject_internal_operators_decides,
  reject_internal_operators-Reached,
}

checking : Unit {0}
unfolding from_node finish parse_operand parse_leaf push_leaf step parse_stack close parse bytes_eq
    value looks_like_a_term parse_nested is_internal is_subdomain json_height reject_leaf
    reject_node if_some in_nested reject_levels reject_internal_operators
checking = tt

abbrev over : Bytes → Bytes → Json → Leaf
over name op v = record { field = name; op = op; value = v }

-- `[(name, op, v)]`
abbrev one_term : Bytes → Bytes → Json → Json
one_term name op v = array (cons (array (cons (string name) (cons (string op) (cons v nil)))) nil)

abbrev innermost : Leaf
innermost = over (codes "id") (codes "=") (number (pos_int 1))

abbrev middle : Leaf
middle =
    over (codes "child_ids") (codes "not any")
      (one_term (codes "id") (codes "=") (number (pos_int 1)))

-- `["|", ("x", "=", 1), ("parent_id", "any", [("child_ids", "not any", [("id", "=", 1)])])]`
abbrev outer : Leaf
outer =
    over (codes "parent_id") (codes "any")
      (one_term (codes "child_ids") (codes "not any") middle.value)

abbrev nested : Node
nested = and (child (leaf innermost) (child (not (leaf outer)) none_left))

nested-accepted : reject_internal_operators nested ≡ ok tt
unfolding checking
nested-accepted = refl

-- An internal operator two domains down.
abbrev hidden : Node
hidden = leaf (
    over (codes "parent_id") (codes "any") (
      one_term (codes "child_ids") (codes "not any")
        (one_term (codes "id") (codes "any!") (array nil))))

hidden-refused : reject_internal_operators hidden ≡ refuse
unfolding checking
hidden-refused = refl

reached_innermost : Reached nested innermost
unfolding checking
reached_innermost =
    inside {sub = leaf middle} {l = outer} (there here) refl refl refl
      (inside {sub = leaf innermost} {l = middle} here refl refl refl (held here))

reject_internal_operators-Reached_example : is_internal (codes "=") ≡ false
reject_internal_operators-Reached_example =
    reject_internal_operators-Reached nested-accepted reached_innermost

reject_internal_operators_decides_example :
    (reject_internal_operators hidden ≡ ok tt)
    ⊎ ((reject_internal_operators hidden ≡ refuse) × Found hidden)
reject_internal_operators_decides_example = reject_internal_operators_decides hidden
