-- ===== src/Sqlgen/Members.antt =====
-- kernel/src/sqlgen.rs: how `optimize_leaf` rewrites a leaf of `in` or `not in`.
use odoo_rust_orm.Prelude.{
  Bool, true, false, not, ◌&&◌, List, [], ◌∷◌, Option, none, some, map, Bytes, codes, any,
  if◌then◌else◌,
}
use odoo_rust_orm.Error.{Result, ok, ◌>>=◌, refuse}
use odoo_rust_orm.Assoc.{name_key}
use odoo_rust_orm.Json.{Json, bool, number, string, array, nil, cons, to_list, of_list}
use odoo_rust_orm.Domain.{Leaf, Node, and, or, of_nodes}
use odoo_rust_orm.Registry.Fields.{is_text, Field}
use odoo_rust_orm.Sqlgen.Comparands.{
  is_py_falsy, is_falsy_id, is_number, is_string, is_boolean_value, is_true, py_str2bool,
  number_as_python_text, coerce_numeric,
}
use odoo_rust_orm.Sqlgen.Days.{leaf_node, datetime_day_comparand}
use odoo_rust_orm.Sqlgen.Class.{
  Context, is_relational, is_linked, is_integer, is_datetime, is_boolean_type, typed, is_numeric,
  Step, or_else, sub_domain, pass, keep, into,
}

abbrev pub to_text : Json → Result Json
to_text (number n) = number_as_python_text n >>= λ s. ok (string s)
to_text v = ok v

-- `iter().map(…).collect::<Result<_>>()`
unfoldable pub each_of : (Json → Result Json) → List Json → Result (List Json)
each_of f [] = ok []
each_of f (x ∷ xs) = f x >>= λ y. each_of f xs >>= λ ys. ok (y ∷ ys)

abbrev pub with_members : Leaf → Result (List Json) → Result Step
with_members l items = items >>= λ xs. ok (into (leaf_node l.field l.op (array (of_list xs))))

-- A text compares with texts.
unfoldable pub text_members : Leaf → Option Field → List Json → Result Step
text_members l field items =
    if typed is_text field && any (λ v. is_number v) items
    then with_members l (each_of to_text items)
    else ok pass

abbrev pub if_rewritten : Result (Option Node) → Result Step
if_rewritten r = r >>= λ o. elim o [ none ↦ ok pass | some n ↦ ok (into n) ]

unfoldable pub refuse_true : Option Field → List Json → Result Step
refuse_true none items = ok pass
refuse_true (some f) items =
    if is_linked f.ttype && (f.stored && (not f.custom_search && any (λ v. is_true v) items))
    then refuse
    else ok pass

abbrev pub without_falsy : Json → Json
without_falsy v = if is_falsy_id v then bool false else v

abbrev pub select : (Json → Bool) → List Json → List Json
select p [] = []
select p (x ∷ xs) = if p x then x ∷ select p xs else select p xs

-- Names are searched in the comodel, beside the ids.
abbrev pub by_name : Leaf → Bytes → List Json → Node
by_name l op strs =
    leaf_node l.field op (sub_domain (codes "display_name") (codes "in") (array (of_list strs)))

abbrev pub name_and_id : Bool → Node → Leaf → List Json → Node
name_and_id positive named l [] = named
name_and_id true named l ids =
    or (of_nodes (named ∷ leaf_node l.field l.op (array (of_list ids)) ∷ []))
name_and_id false named l ids =
    and (of_nodes (named ∷ leaf_node l.field l.op (array (of_list ids)) ∷ []))

unfoldable pub names : Leaf → Bool → List Json → Step
names l positive items = into (
    name_and_id positive
      (by_name l (if positive then codes "any" else codes "not any")
        (select (λ v. is_string v) items))
      l (select (λ v. not (is_string v)) items))

unfoldable pub relational_members : Leaf → Bool → Option Field → List Json → Result Step
relational_members l positive field items =
    if typed is_relational field
    then if any is_falsy_id items
      then ok (into (leaf_node l.field l.op (array (of_list (map (λ v. without_falsy v) items)))))
      else if any (λ v. is_string v) items
      then ok (names l positive items)
      else ok pass
    else ok pass

module _ (c : Context) where
  unfoldable pub days : Leaf → Option Field → Result Step
  days l field =
      if typed is_datetime field
      then if_rewritten (datetime_day_comparand c.calendar c.tz l.field l.op l.value)
      else ok pass

  unfoldable pub coerced : Bool → List Json → Result (List Json)
  coerced whole [] = ok []
  coerced whole (x ∷ xs) = coerce_numeric c.std c.floats x whole >>= λ o.
      coerced whole xs >>= λ ys. ok (elim o [ none ↦ ys | some y ↦ y ∷ ys ])

  unfoldable pub numeric_members : Leaf → Option Field → List Json → Result Step
  numeric_members l field items =
      if typed is_numeric field && any (λ v. is_string v) items
      then with_members l (coerced (typed is_integer field) items)
      else ok pass

  abbrev pub to_boolean : Json → Json
  to_boolean (string s) = bool (py_str2bool c.std s)
  to_boolean v = bool (not (is_py_falsy v))

  unfoldable pub boolean_members : Leaf → Option Field → List Json → Result Step
  boolean_members l field items =
      if typed is_boolean_type field && any (λ v. not (is_boolean_value v)) items
      then ok (into (leaf_node l.field l.op (array (of_list (map (λ v. to_boolean v) items)))))
      else ok keep

  -- `in` and `not in`
  abbrev pub members_chain : Leaf → Bool → Option Field → List Json → Result Step
  members_chain l positive field items = or_else (text_members l field items) (
      or_else (days l field) (
        or_else (refuse_true field items) (
          or_else (relational_members l positive field items)
            (or_else (numeric_members l field items) (boolean_members l field items)))))

  unfoldable pub rewrite_members : Leaf → Bool → Bool → Option Field → Json → Result Step
  rewrite_members l positive true field v = ok keep
  rewrite_members l positive false field (array items) =
      members_chain l positive field (to_list items)
  rewrite_members l positive false field v = ok (into (leaf_node l.field l.op (array (cons v nil))))
