-- ===== src/Sqlgen/Negation/Rows.antt =====
-- kernel/src/sqlgen.rs: which records a leaf is meant to select, stated for one record and apart from
-- the code. A field may have several slots, one for each record at the end of a related path, and an
-- order asks for one slot that compares. A negative operator selects where its positive one does not;
-- of a field with several slots it may select anything, other than `not any`.
use odoo_rust_orm.Prelude.{
  Bool, true, false, not, ◌||◌, List, [], ◌∷◌, Option, none, some, Bytes, codes, bytes_eq, any,
  if◌then◌else◌,
}
use odoo_rust_orm.Json.{Json, bool, array, to_list}
use odoo_rust_orm.Domain.{Leaf}
use odoo_rust_orm.Domain.Meaning.{Truth, holds, fails}
use odoo_rust_orm.ReadRules.{split_once}
use odoo_rust_orm.Registry.Fields.{Field}
use odoo_rust_orm.RuleExpr.Parser.{Outcome, done, failed, out_of_fuel}
use odoo_rust_orm.Sqlgen.Days.{is_order}
use odoo_rust_orm.Sqlgen.Class.{Context, sub_domain}
use odoo_rust_orm.Sqlgen.Negation.{positive_operator, target_field}

-- A record: the slots of its fields with the values in each (none where it is unset, and several of
-- a relation to many), how values compare with a comparand, what the operators select that are
-- neither `in` nor an order, and what negative ones select of several slots.
pub record Row : Type 1 where
  pub Key : Type 0
  pub slots : Bytes → List (List Key)
  pub key : Json → Key
  pub less : Key → Key → Bool
  pub is_member : Key → Json → Bool
  pub matches : Bytes → Bytes → Json → Bool
  pub beside : Bytes → Bytes → Json → Bool

abbrev pub falsy_value : Outcome Field → Option Json
falsy_value (done f) = f.falsy
falsy_value (failed chain) = none
falsy_value out_of_fuel = none

-- `==` is `=`.
abbrev pub plain_op : Bytes → Bytes
plain_op op = if bytes_eq op (codes "==") then codes "=" else op

abbrev pub truth_of : Bool → Truth
truth_of true = holds
truth_of false = fails

module _ (row : Row) where
  abbrev pub is_among : List row.Key → Json → Bool
  is_among [] (bool false) = true
  is_among (k ∷ ks) (bool false) = false
  is_among ks x = any (λ k. row.is_member k x) ks

  abbrev pub slot_among : Json → List row.Key → Bool
  slot_among (array items) ks = any (λ x. is_among ks x) (to_list items)
  slot_among x ks = is_among ks x

  abbrev pub among : List (List row.Key) → Json → Bool
  among slots v = any (λ ks. slot_among v ks) slots

  unfoldable pub compare_keys : Bytes → row.Key → row.Key → Bool
  compare_keys op k w =
      if bytes_eq op (codes "<")
      then row.less k w
      else if bytes_eq op (codes ">")
      then row.less w k
      else if bytes_eq op (codes ">=")
      then not (row.less k w)
      else not (row.less w k)

  abbrev pub slot_compared : Bytes → Option Json → Json → List row.Key → Bool
  slot_compared op none v [] = false
  slot_compared op (some falsy) v [] = compare_keys op (row.key falsy) (row.key v)
  slot_compared op falsy v (k ∷ ks) = any (λ x. compare_keys op x (row.key v)) (k ∷ ks)

  abbrev pub compared : Bytes → Option Json → List (List row.Key) → Json → Bool
  compared op falsy slots v = any (λ ks. slot_compared op falsy v ks) slots

  abbrev pub is_alone : List (List row.Key) → Bool
  is_alone (ks ∷ []) = true
  is_alone _ = false

  module _ (c : Context) where
    unfoldable pub selects : Bytes → Bytes → Json → Bool
    selects op name v =
        if is_order op
        then compared op (falsy_value (target_field c name)) (row.slots name) v
        else if bytes_eq op (codes "in")
        then among (row.slots name) v
        else row.matches op name v

    abbrev pub is_any : Bytes → Bool
    is_any positive = bytes_eq positive (codes "any") || bytes_eq positive (codes "any!")

    abbrev pub by_polarity : Option Bytes → Bytes → Bytes → Json → Bool
    by_polarity (some positive) op name v =
        if is_alone (row.slots name) || is_any positive
        then not (selects positive name v)
        else row.beside op name v
    by_polarity none op name v = selects (plain_op op) name v

    unfoldable pub on_field : Bytes → Bytes → Json → Bool
    on_field op name v = by_polarity (positive_operator op) op name v

    -- A path with a dot asks for a record at its head for which the rest holds.
    abbrev pub on_path : Leaf → Option (Bytes × Bytes) → Bool
    on_path l none = on_field l.op l.field l.value
    on_path l (some (head, rest)) = row.matches (codes "any") head (sub_domain rest l.op l.value)

    unfoldable pub satisfied : Leaf → Bool
    satisfied l = on_path l (split_once l.field)

    abbrev pub reading : Leaf → Truth
    reading l = truth_of (satisfied l)
