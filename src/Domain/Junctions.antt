-- ===== src/Domain/Junctions.antt =====
-- kernel/src/domain.rs: what building a junction (`nary`) does to the value of its operands, for
-- every reading of nodes in which the connectives are associative and `!` undoes itself.
use mathlib.Core.List.{reverse-cons, reverse-reverse}
use odoo_rust_orm.Prelude.{
  ℕ, ◌≤◌, Bool, true, false, List, [], ◌∷◌, ◌++◌, reverse, ◌≡◌, refl, sym, ap, ap₂, ◌∙◌, arith,
  append-nil, append_assoc, ltb, length, Bool-cases, inl, inr,
}
use odoo_rust_orm.Error.{ok}
use odoo_rust_orm.Domain.{
  Leaf, Node, and, or, not, leaf, true_node, false_node, Nodes, none_left, child, of_nodes,
  max_domain_nesting, Pending, plain, junction, Item, from_node, finish, checked, push_front_all,
  merge, same, absorb, nary_loop, nary,
}
use odoo_rust_orm.Domain.Meaning.{
  Truth, truth_not, joined, neutral, eval, eval_all, eval_any, joined_assoc, joined-neutral,
  neutral-joined, not-not,
}
use odoo_rust_orm.Domain.Reduced.{of_nodes-to_nodes}

-- The operator is `true` for `&`.
pub record Algebra : Type 1 where
  pub Value : Type 0
  pub join : Bool → Value → Value → Value
  pub unit : Bool → Value
  pub negate : Value → Value
  pub join_assoc : (op : Bool) (a b c : Value) → join op (join op a b) c ≡ join op a (join op b c)
  pub join-unit : (op : Bool) (a : Value) → join op a (unit op) ≡ a
  pub unit-join : (op : Bool) (a : Value) → join op (unit op) a ≡ a
  pub negate-negate : (a : Value) → negate (negate a) ≡ a

-- SQL's three truth values.
abbrev pub truth : Algebra
truth = record {
  Value = Truth;
  join = joined;
  unit = neutral;
  negate = λ a. truth_not a;
  join_assoc = joined_assoc;
  join-unit = joined-neutral;
  unit-join = neutral-joined;
  negate-negate = not-not;
}

-- The leaves from left to right.
abbrev pub leaf_list : Algebra
leaf_list = record {
  Value = List Leaf;
  join = λ op a b. a ++ b;
  unit = λ op. [];
  negate = λ a. a;
  join_assoc = λ op. append_assoc;
  join-unit = λ op. append-nil;
  unit-join = λ op a. refl;
  negate-negate = λ a. refl;
}

unfoldable mutual
  pub value : (A : Algebra) → (Leaf → A.Value) → Node → A.Value
  value A read (and ns) = values A read true ns
  value A read (or ns) = values A read false ns
  value A read (not n) = A.negate (value A read n)
  value A read (leaf l) = read l
  value A read true_node = A.unit true
  value A read false_node = A.unit false

  pub values : (A : Algebra) → (Leaf → A.Value) → Bool → Nodes → A.Value
  values A read op none_left = A.unit op
  values A read op (child n ns) = A.join op (value A read n) (values A read op ns)

mutual
  unfolding value eval joined neutral

  value_eval : (v : Leaf → Truth) (n : Node) → value truth v n ≡ eval v n
  value_eval v (and ns) = (values_eval v ns).0
  value_eval v (or ns) = (values_eval v ns).1
  value_eval v (not n) = ap truth_not (value_eval v n)
  value_eval v (leaf l) = refl
  value_eval v true_node = refl
  value_eval v false_node = refl

  values_eval :
      (v : Leaf → Truth) (ns : Nodes)
      → (values truth v true ns ≡ eval_all v ns) × (values truth v false ns ≡ eval_any v ns)
  values_eval v none_left = (refl, refl)
  values_eval v (child n ns) = (
    ap₂ (joined true) (value_eval v n) (values_eval v ns).0,
    ap₂ (joined false) (value_eval v n) (values_eval v ns).1,
  )

pub value-truth : (v : Leaf → Truth) (n : Node) → value truth v n ≡ eval v n
value-truth v n = value_eval v n

push_front_all_lem : (cs inner : List Node) → push_front_all cs inner ≡ reverse cs ++ inner
unfolding push_front_all
push_front_all_lem [] inner = refl
push_front_all_lem (c ∷ cs) inner =
    push_front_all_lem cs (c ∷ inner) ∙ rw (reverse-cons, append_assoc)

-- Whichever side is moved, the children come out in order.
pub merge-append : (children inner : List Node) → merge children inner ≡ children ++ inner
unfolding merge
merge-append children inner = elim (Bool-cases (ltb (length children) (length inner))) [
  | inl small ↦ rw small (
      push_front_all_lem (reverse children) inner ∙ ap (λ l. l ++ inner) (reverse-reverse children))
  | inr big ↦ rw big
]

pub finish-from_node : (n : Node) → finish (from_node n) ≡ n
unfolding finish from_node
finish-from_node (and ns) = ap and (of_nodes-to_nodes ns)
finish-from_node (or ns) = ap or (of_nodes-to_nodes ns)
finish-from_node _ = refl

-- A junction is built only within the nesting limit.
pub nary-ok :
    (op : Bool) (is : List Item) {item : Item}
    → nary op is ≡ ok item
    → (item.node ≡ junction op (nary_loop op is [] 1).0)
      × (item.depth ≡ (nary_loop op is [] 1).1)
      × (item.depth ≤ max_domain_nesting)
unfolding nary checked
nary-ok op is h = ground arith

same_eq : (a b : Bool) → same a b ≡ true → a ≡ b
unfolding same
same_eq a b h = ground arith

module _ (A : Algebra) (read : Leaf → A.Value) where
  -- A list of nodes under one operator.
  unfoldable pub value_list : Bool → List Node → A.Value
  value_list op [] = A.unit op
  value_list op (n ∷ ns) = A.join op (value A read n) (value_list op ns)

  values-of_nodes : (op : Bool) (ns : List Node) → values A read op (of_nodes ns) ≡ value_list op ns
  unfolding value value_list
  values-of_nodes op [] = refl
  values-of_nodes op (n ∷ ns) = ap (A.join op (value A read n)) (values-of_nodes op ns)

  pub value-finish :
      (op : Bool) (ns : List Node) → value A read (finish (junction op ns)) ≡ value_list op ns
  unfolding finish value
  value-finish true ns = values-of_nodes true ns
  value-finish false ns = values-of_nodes false ns

  value_list-append :
      (op : Bool) (ns ms : List Node)
      → value_list op (ns ++ ms) ≡ A.join op (value_list op ns) (value_list op ms)
  unfolding value_list
  value_list-append op [] ms = sym (A.unit-join op (value_list op ms))
  value_list-append op (n ∷ ns) ms =
      ap (A.join op (value A read n)) (value_list-append op ns ms)
      ∙ sym (A.join_assoc op (value A read n) (value_list op ns) (value_list op ms))

  value_list-snoc :
      (op : Bool) (ns : List Node) (n : Node)
      → value_list op (ns ++ n ∷ []) ≡ A.join op (value_list op ns) (value A read n)
  unfolding value_list
  value_list-snoc op ns n =
      value_list-append op ns (n ∷ [])
      ∙ ap (A.join op (value_list op ns)) (A.join-unit op (value A read n))

  value-absorb :
      (op : Bool) (p : Pending) (d : ℕ) (children : List Node) (depth : ℕ)
      → value_list op (absorb op p d children depth).0
        ≡ A.join op (value_list op children) (value A read (finish p))
  unfolding absorb
  value-absorb op (plain n) d children depth = unfold finish in value_list-snoc op children n
  value-absorb op (junction other inner) d children depth = elim (Bool-cases (same op other)) [
    | inl e ↦
        rw (e, merge-append)
          (value_list-append op children inner
            ∙ ap (A.join op (value_list op children))
                (rw (← same_eq op other e) (sym (value-finish op inner))))
    | inr e ↦ rw e (value_list-snoc op children (finish (junction other inner)))
  ]

  -- The operands of a junction in order.
  unfoldable pub item_values : Bool → List Item → A.Value
  item_values op [] = A.unit op
  item_values op (i ∷ is) = A.join op (value A read (finish i.node)) (item_values op is)

  value-nary_loop :
      (op : Bool) (is : List Item) (children : List Node) (depth : ℕ)
      → value_list op (nary_loop op is children depth).0
        ≡ A.join op (value_list op children) (item_values op is)
  unfolding nary_loop item_values
  value-nary_loop op [] children depth = sym (A.join-unit op (value_list op children))
  value-nary_loop op (i ∷ is) children depth =
      value-nary_loop op is _ _
      ∙ ap (λ a. A.join op a (item_values op is)) (value-absorb op i.node i.depth children depth)
      ∙ A.join_assoc op _ _ _

  -- A junction has the value of its operands joined in order.
  pub value-nary :
      (op : Bool) (is : List Item) {item : Item}
      → nary op is ≡ ok item
      → value A read (finish item.node) ≡ item_values op is
  unfolding nary value_list
  value-nary op is {item} h =
      ap (λ p. value A read (finish p)) (nary-ok op is h).0
      ∙ value-finish op _
      ∙ value-nary_loop op is [] 1
      ∙ A.unit-join op (item_values op is)
