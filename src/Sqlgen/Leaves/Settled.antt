-- ===== src/Sqlgen/Leaves/Settled.antt =====
-- kernel/src/sqlgen.rs: the leaves that `optimize_leaf` leaves as they are.
use odoo_rust_orm.Prelude.{
  true, false, Option, none, some, Bytes, codes, bytes_eq, bytes_eq_iff, ◌≡◌, refl, arith, if-intro,
  Bool-cases, inl, inr,
}
use odoo_rust_orm.Error.{Result, ok, err, Each, Each-then, Each-step, Each-ok}
use odoo_rust_orm.Domain.{Leaf, Node}
use odoo_rust_orm.ReadRules.{split_once}
use odoo_rust_orm.Registry.Fields.{Field}
use odoo_rust_orm.Sqlgen.Comparands.{is_py_falsy}
use odoo_rust_orm.Sqlgen.Days.{is_order}
use odoo_rust_orm.Sqlgen.Class.{
  Context, Class, maybe, equal, unequal, within, without, order, pattern, other_class, class_of,
  Step, pass, keep, into,
}
use odoo_rust_orm.Sqlgen.Leaves.{
  rewrite_maybe, rewrite_equal, rewritten_by, rewrite_by, check_field, field_of, optimize_leaf,
}
use odoo_rust_orm.Sqlgen.Leaves.Passes.{Keeps}
use odoo_rust_orm.Sqlgen.Leaves.Kept.{Members, rewrite_members-Keeps}
use odoo_rust_orm.Sqlgen.Leaves.Compared.{Comparable, rewrite_order-Keeps}

-- What is known of a leaf that is kept, by the class of its operator.
abbrev pub Settled : Context → Class → Leaf → Type 0
Settled c maybe l = ⊥
Settled c equal l = bytes_eq l.field (codes "display_name") ≡ true
Settled c unequal l = bytes_eq l.field (codes "display_name") ≡ true
Settled c within l = Members c (field_of c l.field) l.value
Settled c without l = Members c (field_of c l.field) l.value
Settled c order l = Comparable c (field_of c l.field) l.value
Settled c _ l = Unit

rewrite_equal-Keeps :
    (l : Leaf) (op : Bytes)
    → Keeps (bytes_eq l.field (codes "display_name") ≡ true) (rewrite_equal l false op)
unfolding rewrite_equal
rewrite_equal-Keeps l op = elim (Bool-cases (bytes_eq l.field (codes "display_name"))) [
  | inl e ↦ rw e refl
  | inr e ↦ rw e tt
]

rewrite_maybe-Keeps : (l : Leaf) (field : Option Field) → Keeps ⊥ (rewrite_maybe l none field)
unfolding rewrite_maybe
rewrite_maybe-Keeps l field = if-intro (Keeps ⊥) (is_py_falsy l.value) (λ _. tt) (λ _. tt)

class_of-within : (op : Bytes) → class_of op ≡ within → bytes_eq op (codes "in") ≡ true
unfolding class_of
class_of-within op h = ground arith

class_of-without : (op : Bytes) → class_of op ≡ without → bytes_eq op (codes "not in") ≡ true
unfolding class_of
class_of-without op h = ground arith

class_of-order : (op : Bytes) → class_of op ≡ order → is_order op ≡ true
unfolding class_of is_order
class_of-order op h = ground arith

in_unordered : (is_order (codes "in") ≡ false) × (is_order (codes "not in") ≡ false)
unfolding is_order bytes_eq
in_unordered = (refl, refl)

is_order_named :
    (op named : Bytes) → bytes_eq op named ≡ true → is_order named ≡ false → is_order op ≡ false
is_order_named op named same h = rw ((bytes_eq_iff op named).0 same) h

Keeps-unit : (r : Result Step) → Each (Keeps Unit) r
Keeps-unit (ok pass) = tt
Keeps-unit (ok keep) = tt
Keeps-unit (ok (into n)) = tt
Keeps-unit (err chain) = tt

rewrite_by-Keeps :
    (c : Context) (l : Leaf) (k : Class)
    → class_of l.op ≡ k
    → Each (Keeps (Settled c k l)) (rewrite_by c k l none (field_of c l.field))
unfolding rewrite_by
rewrite_by-Keeps c l maybe is = rewrite_maybe-Keeps l (field_of c l.field)
rewrite_by-Keeps c l equal is = rewrite_equal-Keeps l (codes "in")
rewrite_by-Keeps c l unequal is = rewrite_equal-Keeps l (codes "not in")
rewrite_by-Keeps c l within is =
    rewrite_members-Keeps c l true (field_of c l.field) l.value refl
      (is_order_named l.op _ (class_of-within l.op is) in_unordered.0)
rewrite_by-Keeps c l without is =
    rewrite_members-Keeps c l false (field_of c l.field) l.value refl
      (is_order_named l.op _ (class_of-without l.op is) in_unordered.1)
rewrite_by-Keeps c l order is =
    rewrite_order-Keeps c l (field_of c l.field) l.value refl (class_of-order l.op is)
rewrite_by-Keeps c l pattern is = Keeps-unit _
rewrite_by-Keeps c l other_class is = tt

-- What holds where a leaf is not rewritten.
abbrev Remains : Type 0 → Option Node → Type 0
Remains P none = P
Remains P (some n) = Unit

rewritten_by-Remains : (P : Type 0) (s : Step) → Keeps P s → Remains P (rewritten_by s)
rewritten_by-Remains P pass h = h
rewritten_by-Remains P keep h = h
rewritten_by-Remains P (into n) h = tt

optimize_leaf-Remains :
    (c : Context) (l : Leaf)
    → split_once l.field ≡ none
    → Each (Remains (Settled c (class_of l.op) l)) (optimize_leaf c l)
unfolding optimize_leaf
optimize_leaf-Remains c l plain =
    let P = Settled c (class_of l.op) l in
    Each-step (Remains P) (check_field c l (field_of c l.field)) _ (λ done.
      Each-then (Keeps P) (Remains P)
        (rewrite_by c (class_of l.op) l (split_once l.field) (field_of c l.field)) _
        (rw plain (rewrite_by-Keeps c l (class_of l.op) refl)) (λ s h. rewritten_by-Remains P s h))

-- What is known of a leaf on a field of the model itself (its name has no dot) that `optimize_leaf`
-- leaves as it is. Its operator is not `=?`, and it is an equality only on `display_name`. Of `in`
-- and `not in` the value is a list with no member to convert for the field's type, and without true
-- among those of a stored relation that has no search of its own. Of an order the value is no list
-- and not true, is not to convert for the field's type, and is no text beside a relation; where it is
-- null or false and the field is known, the field has a value for none, which is null or false too.
-- Of the other operators nothing is said.
pub optimize_leaf-Settled :
    (c : Context) (l : Leaf)
    → split_once l.field ≡ none
    → optimize_leaf c l ≡ ok none
    → Settled c (class_of l.op) l
optimize_leaf-Settled c l plain kept =
    Each-ok (Remains (Settled c (class_of l.op) l)) (optimize_leaf-Remains c l plain) kept
