-- ===== src/Sqlgen/Negation.antt =====
-- kernel/src/sqlgen.rs: `negate` and `negate_leaf`, which push a negation down to the leaves, and
-- `searches_one_value`. A leaf that is rewritten is negated as what it is rewritten to, which costs
-- a unit of fuel; so does a level of related fields.
pub mod Ended
pub mod Rows
pub mod Hops
pub mod Fits
pub mod Opposites
pub mod Complement
pub mod Domains
use odoo_rust_orm.Prelude.{
  ℕ, zero, suc, Bool, true, false, List, [], ◌∷◌, Option, none, some, Bytes, codes, if◌then◌else◌,
}
use odoo_rust_orm.Assoc.{lookup, name_key}
use odoo_rust_orm.Json.{Json, bool, array, nil, cons}
use odoo_rust_orm.Domain.{
  Leaf, Node, and, or, not, leaf, true_node, false_node, Nodes, none_left, child, of_nodes,
}
use odoo_rust_orm.ReadRules.{split_once}
use odoo_rust_orm.Registry.Fields.{Field, Model, comodel, required}
use odoo_rust_orm.RuleExpr.Parser.{
  Outcome, done, failed, out_of_fuel, ◌>>=◌, reject, of_result, split,
}
use odoo_rust_orm.Sqlgen.Paths.{is_x2many, init, normalize_path, path_target}
use odoo_rust_orm.Sqlgen.Days.{leaf_node}
use odoo_rust_orm.Sqlgen.Class.{Context, sub_domain}
use odoo_rust_orm.Sqlgen.Patterns.{negates}
use odoo_rust_orm.Sqlgen.Leaves.{optimize_leaf}

-- The operators that have an opposite.
abbrev pub flips : List (Bytes × Bytes)
flips =
    (codes "any", codes "not any")
    ∷ (codes "not any", codes "any")
    ∷ (codes "any!", codes "not any!")
    ∷ (codes "not any!", codes "any!")
    ∷ (codes "in", codes "not in")
    ∷ (codes "not in", codes "in")
    ∷ (codes "like", codes "not like")
    ∷ (codes "not like", codes "like")
    ∷ (codes "ilike", codes "not ilike")
    ∷ (codes "not ilike", codes "ilike")
    ∷ (codes "=like", codes "not =like")
    ∷ (codes "not =like", codes "=like")
    ∷ (codes "=ilike", codes "not =ilike")
    ∷ (codes "not =ilike", codes "=ilike")
    ∷ (codes "=", codes "!=")
    ∷ (codes "==", codes "!=")
    ∷ (codes "!=", codes "=")
    ∷ (codes "<>", codes "=")
    ∷ []

unfoldable pub flipped : Bytes → Option Bytes
flipped op = lookup op flips

abbrev pub inversions : List (Bytes × Bytes)
inversions =
    (codes "<", codes ">=")
    ∷ (codes ">", codes "<=")
    ∷ (codes ">=", codes "<")
    ∷ (codes "<=", codes ">")
    ∷ []

unfoldable pub inverse_inequality : Bytes → Option Bytes
inverse_inequality op = lookup op inversions

abbrev pub positives : List (Bytes × Bytes)
positives =
    (codes "not any", codes "any")
    ∷ (codes "not any!", codes "any!")
    ∷ (codes "not in", codes "in")
    ∷ (codes "not like", codes "like")
    ∷ (codes "not ilike", codes "ilike")
    ∷ (codes "not =like", codes "=like")
    ∷ (codes "not =ilike", codes "=ilike")
    ∷ (codes "!=", codes "=")
    ∷ (codes "<>", codes "=")
    ∷ []

unfoldable pub positive_operator : Bytes → Option Bytes
positive_operator op = lookup op positives

-- The complement of the rows that a leaf selects.
abbrev pub complement : Leaf → Node
complement l = not (leaf l)

-- An inequality takes in the rows without a value where the field has none to stand for it.
abbrev pub inverted : Leaf → Bytes → Option Json → Node
inverted l op (some falsy) = leaf_node l.field op l.value
inverted l op none = or (
    of_nodes (
      leaf_node l.field (codes "in") (array (cons (bool false) nil))
      ∷ leaf_node l.field op l.value
      ∷ []))

-- `path[path.len() - 1]`, which no caller asks of an empty path.
unfoldable pub last : List Bytes → Bytes
last [] = []
last (name ∷ []) = name
last (name ∷ second ∷ rest) = last (second ∷ rest)

-- The nodes, with the negation of leaves in place of the recursive call.
module _ (negated : Leaf → Outcome Node) where
  unfoldable mutual
    pub negate_node : Node → Outcome Node
    negate_node true_node = done false_node
    negate_node false_node = done true_node
    negate_node (not n) = done n
    negate_node (and ns) = negate_nodes ns >>= λ ms. done (or ms)
    negate_node (or ns) = negate_nodes ns >>= λ ms. done (and ms)
    negate_node (leaf l) = negated l

    pub negate_nodes : Nodes → Outcome Nodes
    negate_nodes none_left = done none_left
    negate_nodes (child n ns) = negate_node n >>= λ m. negate_nodes ns >>= λ ms. done (child m ms)

module _ (c : Context) where
  -- The model that the next step of a related path is looked up in.
  abbrev pub step_model : Model → Field → List Bytes → Outcome Model
  step_model m f [] = done m
  step_model m f (_ ∷ _) = of_result (comodel f) >>= λ co. of_result (required (c.models co))

  module _ (one_value : Model → Field → Outcome Bool) where
    unfoldable pub all_one_value : Model → List Bytes → Outcome Bool
    all_one_value m [] = done true
    all_one_value m (step ∷ rest) = of_result (required (lookup step m.fields)) >>= λ f.
        one_value m f >>= λ one.
        if one then (step_model m f rest >>= λ next. all_one_value next rest) else done false

  unfoldable pub searches_one_value : ℕ → Model → Field → Outcome Bool
  searches_one_value zero m f = out_of_fuel
  searches_one_value (suc deep) m f =
      if is_x2many f.ttype then done false else if f.stored then done true else elim f.related [
        | none ↦ done false
        | some rel ↦ all_one_value (searches_one_value deep) m (split b'.' rel)
      ]

  -- The field that a leaf compares, at the end of its path.
  unfoldable pub target_field : Bytes → Outcome Field
  target_field name = of_result (normalize_path c.models c.model (split b'.' name)) >>= λ path.
      of_result (path_target c.models c.model (init path)) >>= λ target.
      of_result (required (lookup (last path) target.fields))

  module _ (deep : ℕ) where
    abbrev pub one_value : Option Field → Outcome Bool
    one_value none = done true
    one_value (some f) = searches_one_value deep c.model f

    abbrev pub invert_by : Leaf → Option Bytes → Outcome Node
    invert_by l none = reject
    invert_by l (some op) = one_value (lookup l.field c.model.fields) >>= λ one.
        if one
        then (target_field l.field >>= λ f. done (inverted l op f.falsy))
        else done (complement l)

    abbrev pub flip_by : Leaf → Option Bytes → Outcome Node
    flip_by l (some op) = of_result (negates c (lookup l.field c.model.fields)) >>= λ plain.
        done (if plain then leaf_node l.field op l.value else complement l)
    flip_by l none = invert_by l (inverse_inequality l.op)

    abbrev pub negate_path : Leaf → Option (Bytes × Bytes) → Outcome Node
    negate_path l (some (head, rest)) =
        done (leaf_node head (codes "not any") (sub_domain rest l.op l.value))
    negate_path l none = flip_by l (flipped l.op)

    -- A leaf that `optimize_leaf` leaves as it is.
    unfoldable pub negate_kept : Leaf → Outcome Node
    negate_kept l = negate_path l (split_once l.field)

    abbrev pub negate_rewritten : (Leaf → Outcome Node) → Leaf → Option Node → Outcome Node
    negate_rewritten negated l none = negate_kept l
    negate_rewritten negated l (some n) = negate_node negated n

    unfoldable pub negate_leaf : ℕ → Leaf → Outcome Node
    negate_leaf zero l = out_of_fuel
    negate_leaf (suc fuel) l =
        of_result (optimize_leaf c l) >>= λ o. negate_rewritten (negate_leaf fuel) l o

    -- A unit of fuel more than a leaf has rewritings before it.
    unfoldable pub negate : Node → Outcome Node
    negate n = negate_node (negate_leaf 5) n
