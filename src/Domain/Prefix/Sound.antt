-- ===== src/Domain/Prefix/Sound.antt =====
-- kernel/src/domain.rs: the terms of an expression, with integers in its constants, as `parse` reads
-- them.
use odoo_rust_orm.Prelude.{
  ℕ, inl, inr, Bool, true, false, List, [], ◌∷◌, ◌++◌, ◌≡◌, refl, sym, ap, ap₂, ◌∙◌, arith,
  append_assoc, flat_map, if◌then◌else◌,
}
use odoo_rust_orm.Error.{ok, >>=-eq-ok, ok-injective}
use odoo_rust_orm.Json.{Json, array, of_list}
use odoo_rust_orm.Domain.{
  Leaf, Node, leaf, true_node, false_node, plain, Item, finish, nary, combine, negate_node, negate,
  step, parse_stack, close, parse,
}
use odoo_rust_orm.Domain.Meaning.{Truth, eval}
use odoo_rust_orm.Domain.Junctions.{
  Algebra, truth, leaf_list, value, value-truth, finish-from_node, item_values, value-nary,
}
use odoo_rust_orm.Domain.Prefix.{
  Expr, term, constant, negated, both, tokens, step-operator, step-bang, step_constant, step_term,
  negate_node-ok, to_list-of_list, meanings, Denotes,
}

module _ (A : Algebra) (read : Leaf → A.Value) where
  two_values :
      (op : Bool) (a b : Item)
      → item_values A read op (a ∷ b ∷ [])
        ≡ A.join op (value A read (finish a.node)) (value A read (finish b.node))
  unfolding item_values
  two_values op a b = ap (A.join op (value A read (finish a.node))) (A.join-unit op _)

  pub value-combine :
      (op : Bool) (a b : Item) (stack : List Item) {out : List Item}
      → combine op (a ∷ b ∷ stack) ≡ ok out
      → (i : Item) × (out ≡ i ∷ stack)
        × (value A read (finish i.node)
            ≡ A.join op (value A read (finish a.node)) (value A read (finish b.node)))
  unfolding combine
  value-combine op a b stack h =
      let (i, built, e) = >>=-eq-ok (nary op (a ∷ b ∷ [])) (λ i. ok (i ∷ stack)) h in
      (i, ground arith, value-nary A read op (a ∷ b ∷ []) built ∙ two_values op a b)

  value-negate_node :
      (n : Node) (d : ℕ) {i : Item}
      → negate_node n d ≡ ok i
      → value A read (finish i.node) ≡ A.negate (value A read n)
  unfolding value finish
  value-negate_node n d h = elim (negate_node-ok n d h) [
    | inl (e, _, _) ↦ rw e
    | inr (inner, e, f, _) ↦
        rw (e, f, finish-from_node) (sym (A.negate-negate (value A read inner)))
  ]

  pub value-negate :
      (a : Item) (stack : List Item) {out : List Item}
      → negate (a ∷ stack) ≡ ok out
      → (i : Item) × (out ≡ i ∷ stack)
        × (value A read (finish i.node) ≡ A.negate (value A read (finish a.node)))
  unfolding negate
  value-negate a stack h =
      let (i, built, e) = >>=-eq-ok (negate_node (finish a.node) a.depth) (λ i. ok (i ∷ stack)) h in
      (i, ground arith, value-negate_node (finish a.node) a.depth built)

  value-constant :
      (b : Bool) → value A read (finish (plain (if b then true_node else false_node))) ≡ A.unit b
  unfolding value finish
  value-constant true = refl
  value-constant false = refl

  two_join :
      (i : Item) (stack : List Item)
      → item_values A read true (i ∷ stack)
        ≡ A.join true (value A read (finish i.node)) (item_values A read true stack)
  unfolding item_values
  two_join i stack = refl

  -- Reading the tokens of an expression pushes one item, with the expression's meaning.
  parse_stack-tokens :
      (e : Expr) (rest : List Json) {out : List Item}
      → parse_stack (tokens e ++ rest) ≡ ok out
      → (stack : List Item) × (i : Item) × (parse_stack rest ≡ ok stack)
        × (out ≡ i ∷ stack)
        × Denotes A read i e
  unfolding parse_stack
  parse_stack-tokens (term l) rest h =
      let (stack, before, now) = >>=-eq-ok (parse_stack rest) (step _) h in
      (
        stack,
        record { node = plain (leaf l); depth = 1 },
        before,
        cc (step_term l stack),
        unfold finish value in refl,
      )
  parse_stack-tokens (constant b) rest h =
      let (stack, before, now) = >>=-eq-ok (parse_stack rest) (step _) h in
      (
        stack,
        record { node = plain (if b then true_node else false_node); depth = 1 },
        before,
        cc (step_constant b stack),
        value-constant b,
      )
  parse_stack-tokens (negated e) rest h =
      let (below, before, now) = >>=-eq-ok (parse_stack (tokens e ++ rest)) (step _) h in
      let (stack, i, first, pushed, means) = parse_stack-tokens e rest before in
      let (j, out_is, neg) = value-negate i stack (cc (step-bang below, pushed, now)) in
      (stack, j, first, out_is, neg ∙ ap A.negate means)
  parse_stack-tokens (both op a b) rest h =
      let (below, before, now) =
        >>=-eq-ok (parse_stack ((tokens a ++ tokens b) ++ rest)) (step _) h in
      let (mid, i, first, pushed, means) =
        parse_stack-tokens a (tokens b ++ rest) (rw append_assoc at before) in
      let (stack, j, second, pushed', means') = parse_stack-tokens b rest first in
      let (k, out_is, joins) =
        value-combine op i j stack (cc (step-operator op below, pushed, pushed', now)) in
      (stack, k, second, out_is, joins ∙ ap₂ (A.join op) means means')

  parse_stack-flat_map :
      (es : List Expr) {out : List Item}
      → parse_stack (flat_map tokens es) ≡ ok out
      → item_values A read true out ≡ meanings A read es
  parse_stack-flat_map [] h = unfold item_values parse_stack in rw (← ok-injective h) refl
  parse_stack-flat_map (e ∷ es) h =
      let (stack, i, before, pushed, means) = parse_stack-tokens e (flat_map tokens es) h in
      rw pushed (two_join i stack ∙ ap₂ (A.join true) means (parse_stack-flat_map es before))

  pub value-close :
      (stack : List Item) {n : Node}
      → close stack ≡ ok n
      → value A read n ≡ item_values A read true stack
  unfolding close
  value-close [] h = rw (← ok-injective h) (unfold value item_values in refl)
  value-close (a ∷ []) h = rw (← ok-injective h) (unfold item_values in sym (A.join-unit true _))
  value-close (a ∷ b ∷ stack) h =
      let (i, built, e) = >>=-eq-ok (nary true (a ∷ b ∷ stack)) (λ i. ok (finish i.node)) h in
      rw (← ok-injective e) (value-nary A read true (a ∷ b ∷ stack) built)

  value-parse_lem :
      (es : List Expr) {n : Node}
      → parse (array (of_list (flat_map tokens es))) ≡ ok n
      → value A read n ≡ meanings A read es
  unfolding parse
  value-parse_lem es h =
      let (stack, read_all, closed) =
        >>=-eq-ok (parse_stack (flat_map tokens es)) close (rw to_list-of_list at h) in
      value-close stack closed ∙ parse_stack-flat_map es read_all

-- What `parse` makes of the terms of some expressions, with `[1, "=", 1]` and `[0, "=", 1]` for the
-- constants, selects what the expressions say.
pub eval-parse :
    (v : Leaf → Truth) (es : List Expr) {n : Node}
    → parse (array (of_list (flat_map tokens es))) ≡ ok n
    → eval v n ≡ meanings truth v es
eval-parse v es {n} h = sym (value-truth v n) ∙ value-parse_lem truth v es h

-- The leaves of the parsed node are the leaves of the notation, in the order of the text.
pub leaves-parse :
    (es : List Expr) {n : Node}
    → parse (array (of_list (flat_map tokens es))) ≡ ok n
    → value leaf_list (λ l. l ∷ []) n ≡ meanings leaf_list (λ l. l ∷ []) es
leaves-parse es h = value-parse_lem leaf_list (λ l. l ∷ []) es h
