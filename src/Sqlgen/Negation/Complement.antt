-- ===== src/Sqlgen/Negation/Complement.antt =====
-- kernel/src/sqlgen.rs: the negation of a leaf that is not rewritten selects the other records.
use odoo_rust_orm.Prelude.{
  ℕ, Bool, true, false, not, ◌||◌, [], ◌∷◌, if◌then◌else◌, Option, none, some, Bytes, codes,
  bytes_eq, ◌≡◌, refl, arith,
}
use odoo_rust_orm.Assoc.{lookup, name_key}
use odoo_rust_orm.Json.{Json, bool, array, nil, cons}
use odoo_rust_orm.Domain.{Leaf, Node}
use odoo_rust_orm.Domain.Meaning.{fails, truth_not, truth_or, eval}
use odoo_rust_orm.ReadRules.{split_once}
use odoo_rust_orm.Registry.Fields.{Field}
use odoo_rust_orm.RuleExpr.Parser.{Outcome, done, failed, out_of_fuel, ◌>>=◌, of_result}
use odoo_rust_orm.Sqlgen.Days.{leaf_node, is_order}
use odoo_rust_orm.Sqlgen.Class.{Context, sub_domain}
use odoo_rust_orm.Sqlgen.Patterns.{negates}
use odoo_rust_orm.Sqlgen.Negation.{
  flipped, inverse_inequality, positive_operator, complement, inverted, target_field, one_value,
  invert_by, flip_by, negate_path, negate_kept,
}
use odoo_rust_orm.Sqlgen.Negation.Fits.{slot_of, Single, Fits, one_value-Single, negates-is_alone}
use odoo_rust_orm.Sqlgen.Negation.Opposites.{
  split_once-head, Opposite, flipped-Opposite, Inverse, inverse_inequality-Inverse,
}
use odoo_rust_orm.Sqlgen.Negation.Rows.{
  Row, falsy_value, truth_of, is_alone, among, compare_keys, compared, selects, on_field, satisfied,
  reading,
}

-- What holds of the result of a run that has one.
abbrev pub Yields {ℓ κ} : {A : Type ℓ} → (A → Type κ) → Outcome A → Type κ
Yields P (done a) = P a
Yields P (failed chain) = Unit
Yields P out_of_fuel = Unit

pub Yields-then {ℓ κ μ ν} :
    {A : Type ℓ} {B : Type κ} (Q : A → Type μ) (P : B → Type ν) (m : Outcome A)
    (next : A → Outcome B)
    → Yields Q m
    → ((a : A) → Q a → Yields P (next a))
    → Yields P (m >>= next)
Yields-then Q P (done a) next first rest = rest a first
Yields-then Q P (failed chain) next first rest = tt
Yields-then Q P out_of_fuel next first rest = tt

Yields-self {ℓ} : {A : Type ℓ} (m : Outcome A) → Yields (λ a. m ≡ done a) m
Yields-self (done a) = refl
Yields-self (failed chain) = tt
Yields-self out_of_fuel = tt

truth_of-not : (b : Bool) → truth_of (not b) ≡ truth_not (truth_of b)
truth_of-not b = ground arith

module _ (row : Row) (c : Context) where
  abbrev pub Negated : Leaf → Node → Type 0
  Negated l m = eval (reading row c) m ≡ truth_not (reading row c l)

  complement-Negated : (l : Leaf) → Negated l (complement l)
  unfolding eval
  complement-Negated l = refl

  abbrev unset_only : Json
  unset_only = array (cons (bool false) nil)

  on_field-in :
      (name : Bytes)
      → on_field row c (codes "in") name unset_only ≡ among row (row.slots name) unset_only
  unfolding on_field positive_operator lookup bytes_eq selects is_order
  on_field-in name = refl

  -- One value that compares, or stands for none, compares always.
  compared_falsy :
      (op out : Bytes) (o : Option row.Key) (z v : Json)
      → ((k w : row.Key) → compare_keys row out k w ≡ not (compare_keys row op k w))
      → truth_of (compared row out (some z) (slot_of row o ∷ []) v)
        ≡ truth_not (truth_of (compared row op (some z) (slot_of row o ∷ []) v))
  compared_falsy op out none z v opposite = rw (opposite (row.key z) (row.key v)) (ground arith)
  compared_falsy op out (some k) z v opposite = rw (opposite k (row.key v)) (ground arith)

  compared_unset :
      (op out : Bytes) (o : Option row.Key) (v : Json)
      → ((k w : row.Key) → compare_keys row out k w ≡ not (compare_keys row op k w))
      → truth_or
          (truth_of (among row (slot_of row o ∷ []) unset_only))
          (truth_or (truth_of (compared row out none (slot_of row o ∷ []) v)) fails)
        ≡ truth_not (truth_of (compared row op none (slot_of row o ∷ []) v))
  compared_unset op out none v opposite = refl
  compared_unset op out (some k) v opposite = rw (opposite k (row.key v)) (ground arith)

  inverted-Negated :
      (l : Leaf) (op : Bytes) (falsy : Option Json)
      → split_once l.field ≡ none
      → Inverse row c (l.op, op)
      → Single row l.field
      → falsy_value (target_field c l.field) ≡ falsy
      → Negated l (inverted l op falsy)
  unfolding eval leaf_node satisfied
  inverted-Negated l op (some z) plain opposite (o, slots) is =
      rw (plain, opposite.0, opposite.1, is, slots) (compared_falsy l.op op o z l.value opposite.2)
  inverted-Negated l op none plain opposite (o, slots) is =
      rw (plain, opposite.0, opposite.1, on_field-in, is, slots)
        (compared_unset l.op op o l.value opposite.2)

  flip-Negated :
      (l : Leaf) (op : Bytes)
      → split_once l.field ≡ none
      → Opposite row c (l.op, op)
      → is_alone row (row.slots l.field) ≡ true
      → Negated l (leaf_node l.field op l.value)
  unfolding eval leaf_node satisfied
  flip-Negated l op plain opposite alone =
      rw (plain, opposite l.field l.value alone) (truth_of-not _)

  not_any-Negated :
      (l : Leaf) (p : Bytes × Bytes)
      → split_once l.field ≡ some p
      → Negated l (leaf_node p.0 (codes "not any") (sub_domain p.1 l.op l.value))
  unfolding eval leaf_node satisfied on_field positive_operator lookup bytes_eq selects is_order
  not_any-Negated l p is =
      let always : (is_alone row (row.slots p.0) || true) ≡ true = ground arith in
      rw (is, split_once-head l.field is, always) (truth_of-not _)

  module _ (fits : Fits row c) (deep : ℕ) where
    at_target-Negated :
        (l : Leaf) (op : Bytes) (r : Outcome Field)
        → split_once l.field ≡ none
        → Inverse row c (l.op, op)
        → Single row l.field
        → target_field c l.field ≡ r
        → Yields (Negated l) (r >>= λ f. done (inverted l op f.falsy))
    at_target-Negated l op (done f) plain opposite one is =
        inverted-Negated l op f.falsy plain opposite one (rw is refl)
    at_target-Negated l op (failed chain) plain opposite one is = tt
    at_target-Negated l op out_of_fuel plain opposite one is = tt

    inverted_by-Negated :
        (l : Leaf) (op : Bytes) (one : Bool)
        → split_once l.field ≡ none
        → inverse_inequality l.op ≡ some op
        → one_value c deep (lookup l.field c.model.fields) ≡ done one
        → Yields (Negated l) (
            if one
            then (target_field c l.field >>= λ f. done (inverted l op f.falsy))
            else done (complement l))
    inverted_by-Negated l op true plain is searched =
        at_target-Negated l op (target_field c l.field) plain
          (inverse_inequality-Inverse row c l.op op is)
          (one_value-Single row c fits l.field deep searched) refl
    inverted_by-Negated l op false plain is searched = complement-Negated l

    invert_by-Negated :
        (l : Leaf) (o : Option Bytes)
        → split_once l.field ≡ none
        → inverse_inequality l.op ≡ o
        → Yields (Negated l) (invert_by c deep l o)
    invert_by-Negated l none plain is = tt
    invert_by-Negated l (some op) plain is =
        Yields-then (λ one. one_value c deep (lookup l.field c.model.fields) ≡ done one) (Negated l)
          (one_value c deep (lookup l.field c.model.fields)) _ (Yields-self _)
          (λ one searched. inverted_by-Negated l op one plain is searched)

    flipped_by-Negated :
        (l : Leaf) (op : Bytes) (plain : Bool)
        → split_once l.field ≡ none
        → flipped l.op ≡ some op
        → of_result (negates c (lookup l.field c.model.fields)) ≡ done plain
        → Negated l (if plain then leaf_node l.field op l.value else complement l)
    flipped_by-Negated l op true path is judged =
        flip-Negated l op path (flipped-Opposite row c l.op op is)
          (negates-is_alone row c fits l.field judged)
    flipped_by-Negated l op false path is judged = complement-Negated l

    flip_by-Negated :
        (l : Leaf) (o : Option Bytes)
        → split_once l.field ≡ none
        → flipped l.op ≡ o
        → Yields (Negated l) (flip_by c deep l o)
    flip_by-Negated l none plain is = invert_by-Negated l (inverse_inequality l.op) plain refl
    flip_by-Negated l (some op) plain is =
        Yields-then (λ b. of_result (negates c (lookup l.field c.model.fields)) ≡ done b)
          (Negated l) (of_result (negates c (lookup l.field c.model.fields))) _ (Yields-self _)
          (λ b judged. flipped_by-Negated l op b plain is judged)

    negate_path-Negated :
        (l : Leaf) (o : Option (Bytes × Bytes))
        → split_once l.field ≡ o
        → Yields (Negated l) (negate_path c deep l o)
    negate_path-Negated l none is = flip_by-Negated l (flipped l.op) is refl
    negate_path-Negated l (some p) is = not_any-Negated l p is

    -- A leaf that is not rewritten: its negation selects the other records.
    pub negate_kept-Negated : (l : Leaf) → Yields (Negated l) (negate_kept c deep l)
    unfolding negate_kept
    negate_kept-Negated l = negate_path-Negated l (split_once l.field) refl
