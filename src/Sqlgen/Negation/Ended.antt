-- ===== src/Sqlgen/Negation/Ended.antt =====
-- kernel/src/sqlgen.rs: the negation of a domain comes to an end.
use odoo_rust_orm.Prelude.{
  ℕ, zero, suc, bytes_eq, ◌<◌, ◌≤◌, Bool, true, false, List, [], ◌∷◌, ◌++◌, Option, none, some,
  Bytes, ◌≢◌, arith, subst, if-intro,
}
use odoo_rust_orm.Error.{Result, ok, err, Each}
use odoo_rust_orm.Assoc.{lookup, name_key}
use odoo_rust_orm.Domain.{
  Leaf, Node, and, or, not, leaf, true_node, false_node, Nodes, none_left, child,
}
use odoo_rust_orm.Domain.Internal.{leaves}
use odoo_rust_orm.Domain.Junctions.{leaf_list, value, values}
use odoo_rust_orm.ReadRules.{split_once}
use odoo_rust_orm.Registry.Fields.{Field, Model, required}
use odoo_rust_orm.RuleExpr.Parser.{Outcome, out_of_fuel, ◌>>=◌, of_result, split}
use odoo_rust_orm.RuleExpr.Left.{Ends, >>=-Ends, of_result-Ends-any}
use odoo_rust_orm.Sqlgen.Paths.{init, normalize_path, path_target}
use odoo_rust_orm.Sqlgen.Class.{Context}
use odoo_rust_orm.Sqlgen.Patterns.{negates}
use odoo_rust_orm.Sqlgen.Leaves.{optimize_leaf}
use odoo_rust_orm.Sqlgen.Leaves.Rank.{rank, AllBelow, Rewritten}
use odoo_rust_orm.Sqlgen.Leaves.Bounds.{rank-le}
use odoo_rust_orm.Sqlgen.Leaves.Dates.{Blankless}
use odoo_rust_orm.Sqlgen.Leaves.Rewriting.{optimize_leaf-Rewritten}
use odoo_rust_orm.Sqlgen.Negation.{
  last, flipped, inverse_inequality, negate_node, negate_nodes, searches_one_value, target_field,
  one_value, invert_by, flip_by, negate_path, negate_kept, negate_rewritten, negate_leaf, negate,
}

-- The run keeps within its fuel.
abbrev pub Ended {ℓ} : {A : Type ℓ} → Outcome A → Type 0
Ended r = Ends (λ a. Unit) r

Ended_then {ℓ κ} :
    {A : Type ℓ} {B : Type κ} (m : Outcome A) (next : A → Outcome B)
    → Ended m
    → ((a : A) → Ended (next a))
    → Ended (m >>= next)
Ended_then m next first rest = >>=-Ends (λ a. Unit) (λ b. Unit) m next first (λ a _. rest a)

-- The search of each field of the list ends.
abbrev pub FieldsEnd : Context → ℕ → List (Bytes × Field) → Type 0
FieldsEnd c deep [] = Unit
FieldsEnd c deep (e ∷ es) = Ended (searches_one_value c deep c.model e.1) × FieldsEnd c deep es

one_value-Ended :
    (c : Context) (deep : ℕ) (name : Bytes) (es : List (Bytes × Field))
    → FieldsEnd c deep es
    → Ended (one_value c deep (lookup name es))
unfolding lookup
one_value-Ended c deep name [] all = tt
one_value-Ended c deep name (e ∷ es) all =
    if-intro (λ o. Ended (one_value c deep o)) (bytes_eq e.0 name) (λ _. all.0)
      (λ _. one_value-Ended c deep name es all.1)

Ended_result {ℓ κ} :
    {A : Type ℓ} {B : Type κ} (r : Result A) (next : A → Outcome B)
    → ((a : A) → Ended (next a))
    → Ended (of_result r >>= next)
Ended_result (ok a) next rest = rest a
Ended_result (err chain) next rest = tt

target_field-Ended : (c : Context) (name : Bytes) → Ended (target_field c name)
unfolding target_field
target_field-Ended c name =
    Ended_result (normalize_path c.models c.model (split b'.' name)) _ (λ path.
      Ended_result (path_target c.models c.model (init path)) _
        (λ (target : Model). of_result-Ends-any (required (lookup (last path) target.fields))))

invert_by-Ended :
    (c : Context) (deep : ℕ)
    → FieldsEnd c deep c.model.fields
    → (l : Leaf) (o : Option Bytes) → Ended (invert_by c deep l o)
invert_by-Ended c deep all l none = tt
invert_by-Ended c deep all l (some op) =
    Ended_then (one_value c deep (lookup l.field c.model.fields)) _
      (one_value-Ended c deep l.field c.model.fields all)
      (λ one.
        if-intro Ended one
          (λ _. Ended_then (target_field c l.field) _ (target_field-Ended c l.field) (λ f. tt))
          (λ _. tt))

flip_by-Ended :
    (c : Context) (deep : ℕ)
    → FieldsEnd c deep c.model.fields
    → (l : Leaf) (o : Option Bytes) → Ended (flip_by c deep l o)
flip_by-Ended c deep all l (some op) =
    Ended_result (negates c (lookup l.field c.model.fields)) _ (λ plain. tt)
flip_by-Ended c deep all l none = invert_by-Ended c deep all l (inverse_inequality l.op)

negate_path-Ended :
    (c : Context) (deep : ℕ)
    → FieldsEnd c deep c.model.fields
    → (l : Leaf) (o : Option (Bytes × Bytes)) → Ended (negate_path c deep l o)
negate_path-Ended c deep all l (some p) = tt
negate_path-Ended c deep all l none = flip_by-Ended c deep all l (flipped l.op)

AllBelow-split :
    (c : Context) (k : ℕ) (ls ms : List Leaf)
    → AllBelow c k (ls ++ ms)
    → AllBelow c k ls × AllBelow c k ms
AllBelow-split c k [] ms all = (tt, all)
AllBelow-split c k (l ∷ ls) ms all = let (a, b) = AllBelow-split c k ls ms all.1 in ((all.0, a), b)

module _ (c : Context) (k : ℕ) (negated : Leaf → Outcome Node)
    (ends : (l : Leaf) → rank c l < k → Ended (negated l)) where
  mutual
    unfolding negate_node negate_nodes value values

    negate_node-Ended : (n : Node) → AllBelow c k (leaves n) → Ended (negate_node negated n)
    negate_node-Ended true_node all = tt
    negate_node-Ended false_node all = tt
    negate_node-Ended (not n) all = tt
    negate_node-Ended (and ns) all =
        Ended_then (negate_nodes negated ns) _ (negate_nodes-Ended true ns all) (λ ms. tt)
    negate_node-Ended (or ns) all =
        Ended_then (negate_nodes negated ns) _ (negate_nodes-Ended false ns all) (λ ms. tt)
    negate_node-Ended (leaf l) all = ends l all.0

    negate_nodes-Ended :
        (op : Bool) (ns : Nodes)
        → AllBelow c k (values leaf_list (λ l. l ∷ []) op ns)
        → Ended (negate_nodes negated ns)
    negate_nodes-Ended op none_left all = tt
    negate_nodes-Ended op (child n ns) all =
        let (first, rest) =
          AllBelow-split c k (leaves n) (values leaf_list (λ l. l ∷ []) op ns) all in
        Ended_then (negate_node negated n) _ (negate_node-Ended n first)
          (λ m. Ended_then (negate_nodes negated ns) _ (negate_nodes-Ended op ns rest) (λ ms. tt))

AllBelow-trans :
    (c : Context) {j k : ℕ} (ls : List Leaf) → j ≤ k → AllBelow c j ls → AllBelow c k ls
AllBelow-trans c [] le h = tt
AllBelow-trans c (m ∷ ms) le h = (omega (arith, h.0, le), AllBelow-trans c ms le h.1)

Each-lower :
    (c : Context) {j : ℕ} (k : ℕ) (r : Result (Option Node))
    → j ≤ k
    → Each (Rewritten c j) r
    → Each (Rewritten c k) r
Each-lower c k (err chain) le each = tt
Each-lower c k (ok none) le each = tt
Each-lower c k (ok (some n)) le each = AllBelow-trans c (leaves n) le each

module _ (c : Context) (deep : ℕ) (all : FieldsEnd c deep c.model.fields) where
  negate_rewritten-Ended :
      (k : ℕ) (negated : Leaf → Outcome Node) (l : Leaf) (r : Result (Option Node))
      → ((m : Leaf) → rank c m < k → Ended (negated m))
      → Each (Rewritten c k) r
      → Ended (of_result r >>= λ o. negate_rewritten c deep negated l o)
  unfolding negate_kept
  negate_rewritten-Ended k negated l (err chain) ends each = tt
  negate_rewritten-Ended k negated l (ok none) ends each =
      negate_path-Ended c deep all l (split_once l.field)
  negate_rewritten-Ended k negated l (ok (some n)) ends each =
      negate_node-Ended c k negated ends n each

  -- Each rewriting lowers the rank, so a unit for each is enough.
  negate_leaf-Ended :
      Blankless c.calendar → (k : ℕ) (l : Leaf) → rank c l < k → Ended (negate_leaf c deep k l)
  unfolding negate_leaf
  negate_leaf-Ended texts zero l low = absurd (omega (arith, low))
  negate_leaf-Ended texts (suc k) l low =
      negate_rewritten-Ended k (negate_leaf c deep k) l (optimize_leaf c l)
        (λ m h. negate_leaf-Ended texts k m h)
        (Each-lower c k (optimize_leaf c l) (omega (arith, low))
          (optimize_leaf-Rewritten c texts l))

all_low : (c : Context) (ls : List Leaf) → AllBelow c 5 ls
all_low c [] = tt
all_low c (l ∷ ls) = (omega (arith, rank-le c l), all_low c ls)

-- Whatever the domain: where the text of no date has a blank, and the search of each field of the
-- model for its related fields ends within `deep` levels, its negation ends.
pub negate-ne-out_of_fuel :
    (c : Context) (deep : ℕ)
    → Blankless c.calendar
    → FieldsEnd c deep c.model.fields
    → (n : Node) → negate c deep n ≢ out_of_fuel
unfolding negate
negate-ne-out_of_fuel c deep texts all n e = subst (Ends (λ a. Unit)) e (
    negate_node-Ended c 5 (negate_leaf c deep 5) (λ m h. negate_leaf-Ended c deep all texts 5 m h) n
      (all_low c (leaves n)))
