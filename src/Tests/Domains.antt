-- ===== src/Tests/Domains.antt =====
-- Runs of kernel/src/domain.rs, and its theorems at concrete domains.
use odoo_rust_orm.Prelude.{
  ◌≤◌, true, false, List, [], ◌∷◌, ◌≡◌, refl, arith, codes, flat_map, bytes_eq,
}
use odoo_rust_orm.Error.{ok, refuse}
use odoo_rust_orm.Json.{Json, bool, string, number, array, pos_int, nil, of_list, sentinel_of}
use odoo_rust_orm.Domain.{
  Leaf, Node, and, or, not, leaf, true_node, false_node, none_left, child, max_domain_nesting,
  from_node, finish, checked, merge, absorb, nary_loop, nary, sentinel_number, constant_leaf,
  parse_operand, parse_leaf, combine, negate_node, negate, push_leaf, step, parse_stack, close,
  parse,
}
use odoo_rust_orm.Domain.Constants.{
  close_and, close_or, keep_and, keep_or, fold_not, fold_constants, is_in_nothing, is_false,
  before_dot, referenced_fields,
}
use odoo_rust_orm.Domain.Meaning.{Truth, fails, unknown, eval}
use odoo_rust_orm.Domain.Junctions.{truth}
use odoo_rust_orm.Domain.Prefix.{Expr, term, constant, negated, both, triple, tokens, meanings}
use odoo_rust_orm.Domain.Prefix.Notation.{Notates}
use odoo_rust_orm.Domain.Prefix.Accepted.{parse-Notates}
use odoo_rust_orm.Domain.Prefix.Total
use odoo_rust_orm.Domain.Depth.{depth}
use odoo_rust_orm.Domain.Depth.Limit
use odoo_rust_orm.Domain.Fold

program : Unit {0}
unfolding from_node finish checked merge absorb nary_loop nary sentinel_number constant_leaf
    parse_operand parse_leaf combine negate_node negate push_leaf step parse_stack close parse
    bytes_eq sentinel_of fold_constants keep_and keep_or close_and close_or fold_not before_dot
    referenced_fields
program = tt

abbrev leaf_a : Leaf
leaf_a = record { field = codes "a.b"; op = codes "="; value = number (pos_int 1) }

abbrev leaf_b : Leaf
leaf_b = record { field = codes "b"; op = codes "in"; value = array nil }

-- `["&", "!", a, "&", b, [1, "=", 1], a]`
abbrev two : List Expr
two = both true (negated (term leaf_a)) (both true (term leaf_b) (constant true)) ∷ term leaf_a ∷ []

abbrev parsed : Node
parsed = and (
    child (not (leaf leaf_a))
      (child (leaf leaf_b) (child true_node (child (leaf leaf_a) none_left))))

parse-two : parse (array (of_list (flat_map tokens two))) ≡ ok parsed
unfolding program
parse-two = refl

-- The junction of the other operator stays a child, and a double negation goes.
parse_mixed :
    parse (
      array (
        of_list (
          tokens (
            both false (both true (term leaf_a) (term leaf_b)) (negated (negated (term leaf_a)))))))
    ≡ ok (
        or (
          child
            (and (child (leaf leaf_a) (child (leaf leaf_b) none_left)))
            (child (leaf leaf_a) none_left)))
unfolding program
parse_mixed = refl

parse_refuses : parse (array (of_list (string (codes "&") ∷ tokens (term leaf_a)))) ≡ refuse
unfolding program
parse_refuses = refl

referenced-parsed : referenced_fields parsed ≡ codes "a" ∷ codes "b" ∷ codes "a" ∷ []
unfolding program
referenced-parsed = refl

abbrev reading : Leaf → Truth
reading l = elim (bytes_eq l.op (codes "in")) [ true ↦ fails | false ↦ unknown ]

-- `["|", "!", a, [false, "=", true]]`
abbrev mixed : Json
mixed = array (
    of_list (
      string (codes "|")
      ∷ string (codes "!")
      ∷ triple (string leaf_a.field) leaf_a.op leaf_a.value
      ∷ triple (bool false) (codes "=") (bool true)
      ∷ []))

abbrev mixed_node : Node
mixed_node = or (child (not (leaf leaf_a)) (child false_node none_left))

parse-mixed : parse mixed ≡ ok mixed_node
unfolding program
parse-mixed = refl

parse-Notates_example :
    (es : List Expr) × Notates es mixed × (eval reading mixed_node ≡ meanings truth reading es)
parse-Notates_example = parse-Notates reading mixed parse-mixed

parse-total_example : (n : Node) × (parse (array (of_list (flat_map tokens two))) ≡ ok n)
parse-total_example = Total.parse-total two (omega arith)

depth-parse-le_example : depth parsed ≤ max_domain_nesting
depth-parse-le_example = Limit.depth-parse-le (array (of_list (flat_map tokens two))) parse-two

fold-parsed :
    fold_constants parsed
    ≡ and (child (not (leaf leaf_a)) (child (leaf leaf_b) (child (leaf leaf_a) none_left)))
unfolding program
fold-parsed = refl

eval-fold_constants_example : eval reading (fold_constants parsed) ≡ eval reading parsed
eval-fold_constants_example = Fold.eval-fold_constants reading parsed

reading_nothing : (l : Leaf) → is_in_nothing l ≡ true → reading l ≡ fails
unfolding is_in_nothing
reading_nothing l h = ground arith

is_false-parsed : is_false parsed ≡ true
unfolding is_false is_in_nothing bytes_eq
is_false-parsed = refl
