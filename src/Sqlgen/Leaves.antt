-- ===== src/Sqlgen/Leaves.antt =====
-- kernel/src/sqlgen.rs: `optimize_leaf`, which rewrites a leaf before it is compiled.
pub mod Rank
pub mod Bounds
pub mod Sets
pub mod Dates
pub mod DaySets
pub mod DayOrders
pub mod Ends
pub mod Ranked
pub mod Rewriting
pub mod Passes
pub mod Kept
pub mod Compared
pub mod Settled
use odoo_rust_orm.Prelude.{
  Bool, true, false, not, ◌||◌, Option, none, some, Bytes, codes, bytes_eq, if◌then◌else◌,
}
use odoo_rust_orm.Error.{Result, ok, ◌>>=◌, ◌>>◌, refuse}
use odoo_rust_orm.Assoc.{lookup, name_key}
use odoo_rust_orm.Json.{Json, bool, array, Items, nil, cons}
use odoo_rust_orm.Domain.{Leaf, Node, true_node}
use odoo_rust_orm.ReadRules.{split_once}
use odoo_rust_orm.Registry.Fields.{Field, ensure_supported_read_access}
use odoo_rust_orm.Sqlgen.Comparands.{is_py_falsy}
use odoo_rust_orm.Sqlgen.Days.{leaf_node}
use odoo_rust_orm.Sqlgen.Class.{
  Context, Class, class_of, is_relational, typed, Step, is_dotted, sub_domain, maybe, equal,
  unequal, within, without, order, pattern, other_class, pass, keep, into,
}
use odoo_rust_orm.Sqlgen.Patterns.{rewrite_pattern}
use odoo_rust_orm.Sqlgen.Members.{rewrite_members}
use odoo_rust_orm.Sqlgen.Orders.{rewrite_order}

-- `=?`
unfoldable pub rewrite_maybe : Leaf → Option (Bytes × Bytes) → Option Field → Step
rewrite_maybe l (some (head, rest)) field =
    if typed is_relational field
    then into (leaf_node head (codes "any") (sub_domain rest (codes "=?") l.value))
    else if is_py_falsy l.value
    then into true_node
    else into (leaf_node l.field (codes "=") l.value)
rewrite_maybe l none field =
    if is_py_falsy l.value then into true_node else into (leaf_node l.field (codes "=") l.value)

-- The members that an equality stands for.
abbrev pub members_of : Json → Items
members_of (array nil) = cons (bool false) nil
members_of (array items) = items
members_of v = cons v nil

unfoldable pub rewrite_equal : Leaf → Bool → Bytes → Step
rewrite_equal l dotted op =
    if dotted || not (bytes_eq l.field (codes "display_name"))
    then into (leaf_node l.field op (array (members_of l.value)))
    else keep

abbrev pub head_of : Bytes → Option (Bytes × Bytes) → Bytes
head_of name none = name
head_of name (some p) = p.0

abbrev pub rewritten_by : Step → Option Node
rewritten_by pass = none
rewritten_by keep = none
rewritten_by (into n) = some n

module _ (c : Context) where
  unfoldable pub rewrite_by : Class → Leaf → Option (Bytes × Bytes) → Option Field → Result Step
  rewrite_by maybe l path field = ok (rewrite_maybe l path field)
  rewrite_by equal l path field = ok (rewrite_equal l (is_dotted path) (codes "in"))
  rewrite_by unequal l path field = ok (rewrite_equal l (is_dotted path) (codes "not in"))
  rewrite_by within l path field = rewrite_members c l true (is_dotted path) field l.value
  rewrite_by without l path field = rewrite_members c l false (is_dotted path) field l.value
  rewrite_by order l path field = rewrite_order c l (is_dotted path) field l.value
  rewrite_by pattern l path field = rewrite_pattern c l (is_dotted path) field
  rewrite_by other_class l path field = ok keep

  -- The field must be known, but for the synthetic one.
  unfoldable pub check_field : Leaf → Option Field → Result (Unit {0})
  check_field l none = if bytes_eq l.field (codes "display_name") then ok tt else refuse
  check_field l (some f) = if c.checks then ensure_supported_read_access f else ok tt

  unfoldable pub field_of : Bytes → Option Field
  field_of name = lookup (head_of name (split_once name)) c.model.fields

  unfoldable pub optimize_leaf : Leaf → Result (Option Node)
  optimize_leaf l =
      check_field l (field_of l.field)
      >> (rewrite_by (class_of l.op) l (split_once l.field) (field_of l.field) >>= λ s.
          ok (rewritten_by s))
