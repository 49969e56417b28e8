-- ===== src/Domain/Prefix.antt =====
-- kernel/src/domain.rs: `parse` against the grammar of prefix notation.
pub mod Sound
pub mod Notation
pub mod Accepted
pub mod Total
use odoo_rust_orm.Prelude.{
  ℕ, ◌+◌, ◌-◌, ◌≤◌, ◌⊎◌, inl, inr, max, Bool, true, false, ◌||◌, List, [], ◌∷◌, ◌++◌, ◌≡◌, refl,
  sym, ap, ap₂, ◌∙◌, arith, append_assoc, Bytes, codes, bytes_eq, flat_map, ltb, if◌then◌else◌,
}
use odoo_rust_orm.Error.{Result, ok, err, ◌>>=◌, >>=-eq-ok, ok-injective}
use odoo_rust_orm.Json.{
  Json, number, string, array, Items, nil, cons, pos_int, one_value, sentinel_of, to_list, of_list,
}
use odoo_rust_orm.Domain.{
  Leaf, Node, not, leaf, true_node, false_node, max_domain_nesting, Pending, plain, junction, Item,
  from_node, finish, checked, nary_loop, nary, sentinel_number, constant_leaf, parse_operand,
  parse_leaf, combine, negate_node, negate, push_leaf, amp, bar, bang, step, parse_stack, close,
  parse,
}
use odoo_rust_orm.Domain.Junctions.{
  Algebra, value, finish-from_node, nary-ok, item_values, value-nary,
}

-- A domain as its author means it.
pub data Expr : Type 0 where
  term : Leaf → Expr
  constant : Bool → Expr
  negated : Expr → Expr
  both : Bool → Expr → Expr → Expr

abbrev pub operator : Bool → Json
operator true = string amp
operator false = string bar

abbrev pub triple : Json → Bytes → Json → Json
triple a op b = array (cons a (cons (string op) (cons b nil)))

-- `[1, "=", 1]` and `[0, "=", 1]`
abbrev pub constant_json : Bool → Json
constant_json true = triple (number (pos_int 1)) (codes "=") (number (pos_int 1))
constant_json false = triple (number (pos_int 0)) (codes "=") (number (pos_int 1))

-- The terms that spell it in prefix notation.
abbrev pub tokens : Expr → List Json
tokens (term l) = triple (string l.field) l.op l.value ∷ []
tokens (constant b) = constant_json b ∷ []
tokens (negated e) = string bang ∷ tokens e
tokens (both op a b) = operator op ∷ (tokens a ++ tokens b)

-- How deep it nests.
abbrev pub height : Expr → ℕ
height (term _) = 1
height (constant _) = 1
height (negated e) = height e + 1
height (both op a b) = max (height a) (height b) + 1

abbrev pub heights : List Expr → ℕ
heights [] = 0
heights (e ∷ es) = max (height e) (heights es)

pub step-operator : (op : Bool) (stack : List Item) → step (operator op) stack ≡ combine op stack
unfolding step bytes_eq
step-operator true stack = refl
step-operator false stack = refl

pub step-bang : (stack : List Item) → step (string bang) stack ≡ negate stack
unfolding step bytes_eq
step-bang stack = refl

pub step_constant :
    (b : Bool) (stack : List Item)
    → step (constant_json b) stack
      ≡ ok (record { node = plain (if b then true_node else false_node); depth = 1 } ∷ stack)
unfolding step push_leaf parse_leaf parse_operand sentinel_number sentinel_of constant_leaf
    from_node bytes_eq
step_constant true stack = refl
step_constant false stack = refl

pub step_term :
    (l : Leaf) (stack : List Item)
    → step (triple (string l.field) l.op l.value) stack
      ≡ ok (record { node = plain (leaf l); depth = 1 } ∷ stack)
unfolding step push_leaf parse_leaf parse_operand from_node
step_term l stack = refl

-- `!` wraps the operand, or takes a negation off it.
pub negate_node-ok :
    (n : Node) (d : ℕ) {i : Item}
    → negate_node n d ≡ ok i
    → ((i.node ≡ plain (not n)) × (i.depth ≡ d + 1) × (i.depth ≤ max_domain_nesting))
      ⊎ ((inner : Node) × (n ≡ not inner) × (i.node ≡ from_node inner) × (i.depth ≡ d - 1))
unfolding negate_node checked
negate_node-ok (not inner) d h = inr (inner, refl, ground arith, ground arith)
negate_node-ok true_node d h = inl (ground arith)
negate_node-ok n d h = inl (ground arith)

pub to_list-of_list : (l : List Json) → to_list (of_list l) ≡ l
to_list-of_list [] = refl
to_list-of_list (x ∷ xs) = ap (◌∷◌ x) (to_list-of_list xs)

module _ (A : Algebra) (read : Leaf → A.Value) where
  abbrev pub meaning : Expr → A.Value
  meaning (term l) = read l
  meaning (constant b) = A.unit b
  meaning (negated e) = A.negate (meaning e)
  meaning (both op a b) = A.join op (meaning a) (meaning b)

  abbrev pub meanings : List Expr → A.Value
  meanings [] = A.unit true
  meanings (e ∷ es) = A.join true (meaning e) (meanings es)

  abbrev pub Denotes : Item → Expr → Type 0
  Denotes i e = value A read (finish i.node) ≡ meaning e
