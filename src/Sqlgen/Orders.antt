-- ===== src/Sqlgen/Orders.antt =====
-- kernel/src/sqlgen.rs: how `optimize_leaf` rewrites a leaf of an operator of order.
use odoo_rust_orm.Prelude.{Bool, true, ◌&&◌, Option, none, some, if◌then◌else◌}
use odoo_rust_orm.Error.{Result, ok, err, ◌>>=◌, refuse}
use odoo_rust_orm.Assoc.{name_key}
use odoo_rust_orm.Json.{Json, array}
use odoo_rust_orm.Domain.{Leaf, false_node}
use odoo_rust_orm.Registry.Fields.{is_text, Field}
use odoo_rust_orm.Sqlgen.Comparands.{is_null_like, is_number, is_string, is_true, coerce_numeric}
use odoo_rust_orm.Sqlgen.Days.{leaf_node}
use odoo_rust_orm.Sqlgen.Class.{
  Context, is_linked, is_integer, typed, is_numeric, Step, or_else, pass, keep, into,
}
use odoo_rust_orm.Sqlgen.Members.{to_text, days}

abbrev pub with_value : Leaf → Result Json → Result Step
with_value l value = value >>= λ v. ok (into (leaf_node l.field l.op v))

unfoldable pub text_value : Leaf → Option Field → Json → Result Step
text_value l field v =
    if typed is_text field && is_number v then with_value l (to_text v) else ok pass

-- Whether a relation is ordered against something that is no record id.
unfoldable pub refuse_name : Option Field → Json → Result Step
refuse_name field v = if typed is_linked field && is_string v then refuse else ok pass

abbrev pub numeric_of : Leaf → Result (Option Json) → Result Step
numeric_of l (ok none) = refuse
numeric_of l (ok (some n)) = ok (into (leaf_node l.field l.op n))
numeric_of l (err chain) = err chain

-- The value that a field has where it holds none, if the order can be compared with it.
abbrev pub against_falsy : Leaf → Option Json → Step
against_falsy l none = into false_node
against_falsy l (some falsy) =
    if is_null_like falsy then keep else into (leaf_node l.field l.op falsy)

unfoldable pub null_order : Leaf → Option Field → Json → Result Step
null_order l none v = ok keep
null_order l (some f) v = if is_null_like v then ok (against_falsy l f.falsy) else ok keep

abbrev pub is_list_or_true : Json → Bool
is_list_or_true (array _) = true
is_list_or_true v = is_true v

module _ (c : Context) where
  unfoldable pub numeric_value : Leaf → Option Field → Json → Result Step
  numeric_value l field v =
      if typed is_numeric field && is_string v
      then numeric_of l (coerce_numeric c.std c.floats v (typed is_integer field))
      else ok pass

  -- `<`, `>`, `<=` and `>=`
  unfoldable pub rewrite_order : Leaf → Bool → Option Field → Json → Result Step
  rewrite_order l dotted field v =
      if is_list_or_true v
      then refuse
      else if dotted
      then ok keep
      else or_else (text_value l field v) (
          or_else (days c l field) (
            or_else (refuse_name field v)
              (or_else (numeric_value l field v) (null_order l field v))))
