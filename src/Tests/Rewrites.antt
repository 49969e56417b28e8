-- ===== src/Tests/Rewrites.antt =====
-- Runs of `optimize_leaf` of kernel/src/sqlgen.rs, and its theorems at concrete leaves.
use odoo_rust_orm.Prelude.{
  Bool, true, false, ◌||◌, ◌≤◌, [], ◌∷◌, Option, none, some, any, ◌==◌, ◌≡◌, refl, codes, bytes_eq,
  Bytes, if◌then◌else◌, here, there,
}
use odoo_rust_orm.Int.{pos}
use odoo_rust_orm.Error.{ok, refuse}
use odoo_rust_orm.Assoc.{lookup}
use odoo_rust_orm.Json.{Json, bool, number, string, array, pos_int, nil, cons, sentinel_of}
use odoo_rust_orm.Domain.{Leaf, Node, leaf, or, of_nodes}
use odoo_rust_orm.Domain.Junctions.{value}
use odoo_rust_orm.ReadRules.{split_once}
use odoo_rust_orm.Registry.Fields.{datetime, Field, Model, ensure_supported_read_access}
use odoo_rust_orm.Sqlgen.Comparands.{
  is_null_like, is_py_falsy, is_falsy_id, number_as_python_text, coerce_numeric, ends_with,
  starts_with,
}
use odoo_rust_orm.Sqlgen.Days.{
  Calendar, strict_date, instant_text, midnight, is_order, zone_of, start_of, next_day, order_day,
  member_day, split_days, set_of_days, datetime_day_comparand, leaf_node,
}
use odoo_rust_orm.Sqlgen.Class.{Context, class_of, sub_domain}
use odoo_rust_orm.Sqlgen.Patterns.{
  rewrite_trivial, rewrite_pattern, pattern_text, negates_by_operator,
}
use odoo_rust_orm.Sqlgen.Members.{
  text_members, days, refuse_true, relational_members, names, numeric_members, boolean_members,
  rewrite_members, coerced, each_of,
}
use odoo_rust_orm.Sqlgen.Orders.{text_value, refuse_name, numeric_value, null_order, rewrite_order}
use odoo_rust_orm.Sqlgen.Leaves.{
  rewrite_maybe, rewrite_equal, rewrite_by, check_field, field_of, optimize_leaf,
}
use odoo_rust_orm.Sqlgen.Leaves.Dates.{Blankless}
use odoo_rust_orm.Sqlgen.Leaves.Rewriting.{Rewritings, stop, rewriting, Rewritings-le}
use odoo_rust_orm.Sqlgen.Leaves.Settled.{Settled, optimize_leaf-Settled}
use odoo_rust_orm.Tests.Rules.{ascii, doubles}
use odoo_rust_orm.Tests.Sources.{partner_field, users_model}

unfoldable pub optimizing : Unit {0}
unfolding lookup bytes_eq split_once is_null_like is_py_falsy is_falsy_id number_as_python_text
    coerce_numeric ends_with starts_with is_order zone_of start_of next_day order_day member_day
    split_days set_of_days datetime_day_comparand leaf_node class_of rewrite_trivial rewrite_pattern
    pattern_text negates_by_operator text_members days refuse_true relational_members names
    numeric_members boolean_members rewrite_members coerced each_of text_value refuse_name
    numeric_value null_order rewrite_order rewrite_maybe rewrite_equal rewrite_by check_field
    field_of optimize_leaf ensure_supported_read_access
optimizing = tt

-- A calendar of two days, the second of which is the last. It reads a month without its zero too.
abbrev parsed_day : Bytes → Option Bool
parsed_day s =
    if bytes_eq s (codes "2025-01-31") || bytes_eq s (codes "2025-1-31")
    then some false
    else if bytes_eq s (codes "2025-02-01")
    then some true
    else none

abbrev day_after : Bool → Option Bool
day_after false = some true
day_after true = none

abbrev date_text : Bool → Bytes
date_text false = codes "2025-01-31"
date_text true = codes "2025-02-01"

abbrev pub calendar : Calendar
calendar = record {
  Day = Bool;
  Zone = Unit {0};
  parse_date = λ s. parsed_day s;
  date_text = λ d. date_text d;
  succ = λ d. day_after d;
  year = λ d. pos 2025;
  zone = λ name. none;
  midnight_utc = λ z d. none;
}

blankless : (d : Bool) → any (λ ch. ch == b' ') (date_text d) ≡ false
blankless false = refl
blankless true = refl

pub calendar-Blankless : Blankless calendar
calendar-Blankless = record { of_date = blankless }

abbrev created : Field
created = record partner_field { name = codes "create_date"; ttype = datetime; relation = none }

abbrev users : Model
users = record users_model {
  fields = (codes "partner_id", partner_field) ∷ (codes "create_date", created) ∷ [];
}

abbrev pub context : Context
context = record {
  std = ascii;
  floats = record { doubles = doubles; whole_text = λ b. none };
  calendar = calendar;
  models = λ name. none;
  model = users;
  tz = none;
  checks = false;
}

abbrev named : Json
named = array (cons (number (pos_int 0)) (cons (string (codes "x")) nil))

abbrev on_partner : Bytes → Json → Leaf
on_partner op v = record { field = codes "partner_id"; op = op; value = v }

abbrev cleaned : Json
cleaned = array (cons (bool false) (cons (string (codes "x")) nil))

abbrev by_names : Node
by_names = or (
    of_nodes (
      leaf (
        on_partner (codes "any")
          (sub_domain (codes "display_name") (codes "in") (array (cons (string (codes "x")) nil))))
      ∷ leaf (on_partner (codes "in") (array (cons (bool false) nil)))
      ∷ []))

-- A leaf that has four rewritings before it, and one that is kept.
rewritings :
    (optimize_leaf context (on_partner (codes "=?") named)
      ≡ ok (some (leaf (on_partner (codes "=") named))))
    × (optimize_leaf context (on_partner (codes "=") named)
        ≡ ok (some (leaf (on_partner (codes "in") named))))
    × (optimize_leaf context (on_partner (codes "in") named)
        ≡ ok (some (leaf (on_partner (codes "in") cleaned))))
    × (optimize_leaf context (on_partner (codes "in") cleaned) ≡ ok (some by_names))
    × (optimize_leaf context (on_partner (codes "in") (array (cons (bool false) nil))) ≡ ok none)
unfolding optimizing sentinel_of
rewritings = (refl, refl, refl, refl, refl)

-- The days that a set names, the last of them without an end.
abbrev on_created : Bytes → Json → Leaf
on_created op v = record { field = codes "create_date"; op = op; value = v }

abbrev instant : Bool → Json
instant d = midnight calendar d

whole_days :
    (optimize_leaf context (on_created (codes ">") (string (codes "2025-01-31")))
      ≡ ok (some (leaf (on_created (codes ">=") (instant true)))))
    × (optimize_leaf context (on_created (codes "<=") (string (codes "2025-02-01")))
        ≡ ok (some (leaf (on_created (codes "!=") (bool false)))))
    × (optimize_leaf context
          (on_created (codes "in") (array (cons (string (codes "2025-02-01")) nil)))
        ≡ ok (some (leaf (on_created (codes ">=") (instant true)))))
    × (optimize_leaf context (on_created (codes ">=") (instant true)) ≡ ok none)
    × (optimize_leaf context (on_created (codes ">=") (string (codes "2025-1-31"))) ≡ ok none)
    × (optimize_leaf context (on_created (codes "<") (array nil)) ≡ refuse)
    × (optimize_leaf context (record { field = codes "x"; op = codes "="; value = named }) ≡ refuse)
unfolding optimizing strict_date instant_text
whole_days = (refl, refl, refl, refl, refl, refl, refl)

chain : Rewritings context (on_partner (codes "=?") named) 4
unfolding value
chain = rewriting rewritings.0 here (
    rewriting rewritings.1 here
      (rewriting rewritings.2 here (rewriting rewritings.3 (there here) stop)))

Rewritings-le_example : 4 ≤ 4
Rewritings-le_example =
    Rewritings-le context calendar-Blankless (on_partner (codes "=?") named) 4 chain

plain_name : split_once (codes "partner_id") ≡ none
unfolding split_once
plain_name = refl

optimize_leaf-Settled_example :
    Settled context
      (class_of (codes "in"))
      (on_partner (codes "in") (array (cons (bool false) nil)))
optimize_leaf-Settled_example =
    optimize_leaf-Settled context (on_partner (codes "in") (array (cons (bool false) nil)))
      plain_name rewritings.4
