-- ===== src/Domain/Prefix/Total.antt =====
-- kernel/src/domain.rs: `parse` accepts every domain in prefix notation that is not too deep.
use odoo_rust_orm.Prelude.{
  ℕ, ◌+◌, ◌≤◌, Bool, true, List, [], ◌∷◌, ◌++◌, inl, inr, ◌≡◌, refl, arith, append_assoc, flat_map,
  if◌then◌else◌, Bool-cases,
}
use odoo_rust_orm.Error.{ok}
use odoo_rust_orm.Json.{Json, array, of_list}
use odoo_rust_orm.Domain.{
  Node, not, true_node, false_node, max_domain_nesting, Pending, plain, junction, Item, leaf,
  finish, checked, absorb, same, nary_loop, nary, combine, negate_node, negate, parse_stack, close,
  parse,
}
use odoo_rust_orm.Domain.Prefix.{
  Expr, term, constant, negated, both, tokens, height, heights, step-operator, step-bang,
  step_constant, step_term, to_list-of_list,
}

absorb-depth-le :
    (op : Bool) (p : Pending) (d : ℕ) (children : List Node) (n k : ℕ)
    → n ≤ k
    → d + 1 ≤ k
    → (absorb op p d children n).1 ≤ k
unfolding absorb
absorb-depth-le op (plain x) d children n k h g = omega arith
absorb-depth-le op (junction other inner) d children n k h g = elim (Bool-cases (same op other)) [
  | inl e ↦ rw e (omega arith)
  | inr e ↦ rw e (omega arith)
]

abbrev Below : ℕ → List Item → Type 0
Below k [] = Unit
Below k (i ∷ is) = (i.depth + 1 ≤ k) × Below k is

nary_loop-depth-le :
    (op : Bool) (is : List Item) (children : List Node) (n k : ℕ)
    → n ≤ k
    → Below k is
    → (nary_loop op is children n).1 ≤ k
unfolding nary_loop
nary_loop-depth-le op [] children n k h b = h
nary_loop-depth-le op (i ∷ is) children n k h (b, bs) =
    nary_loop-depth-le op is _ _ k (absorb-depth-le op i.node i.depth children n k h b) bs

checked-ok : (d : ℕ) → d ≤ max_domain_nesting → checked d ≡ ok d
unfolding checked
checked-ok d h = ground arith

nary-total :
    (op : Bool) (is : List Item) (k : ℕ)
    → 1 ≤ k
    → k ≤ max_domain_nesting
    → Below k is
    → (i : Item) × (nary op is ≡ ok i) × (i.depth ≤ k)
unfolding nary
nary-total op is k h g b =
    let d = nary_loop-depth-le op is [] 1 k h b in
    let built = nary_loop op is [] 1 in
    (
      record { node = junction op built.0; depth = built.1 },
      rw (checked-ok built.1 (omega (arith, d))),
      d,
    )

negate_node-total :
    (n : Node) (d k : ℕ)
    → d + 1 ≤ k
    → k ≤ max_domain_nesting
    → (i : Item) × (negate_node n d ≡ ok i) × (i.depth ≤ k)
unfolding negate_node
negate_node-total (not inner) d k h g = (_, refl, omega arith)
negate_node-total true_node d k h g = (
  record { node = plain (not true_node); depth = d + 1 },
  rw (checked-ok (d + 1) (omega arith)),
  h,
)
negate_node-total n d k h g =
    (record { node = plain (not n); depth = d + 1 }, rw (checked-ok (d + 1) (omega arith)), h)

negate-total :
    (a : Item) (stack : List Item) (k : ℕ)
    → a.depth + 1 ≤ k
    → k ≤ max_domain_nesting
    → (i : Item) × (negate (a ∷ stack) ≡ ok (i ∷ stack)) × (i.depth ≤ k)
unfolding negate
negate-total a stack k h g =
    let (i, built, d) = negate_node-total (finish a.node) a.depth k h g in (i, rw built, d)

combine-total :
    (op : Bool) (a b : Item) (stack : List Item) (k : ℕ)
    → a.depth + 1 ≤ k
    → b.depth + 1 ≤ k
    → k ≤ max_domain_nesting
    → (i : Item) × (combine op (a ∷ b ∷ stack) ≡ ok (i ∷ stack)) × (i.depth ≤ k)
unfolding combine
combine-total op a b stack k ha hb g =
    let (i, built, d) = nary-total op (a ∷ b ∷ []) k (omega arith) g (ha, (hb, tt)) in
    (i, rw built, d)

-- The tokens of an expression within the limit push one item, no deeper than the expression.
parse_stack-total :
    (e : Expr) (rest : List Json) {stack : List Item}
    → height e ≤ max_domain_nesting
    → parse_stack rest ≡ ok stack
    → (i : Item) × (parse_stack (tokens e ++ rest) ≡ ok (i ∷ stack)) × (i.depth ≤ height e)
unfolding parse_stack
parse_stack-total (term l) rest {stack} h p =
    (record { node = plain (leaf l); depth = 1 }, rw p (step_term l stack), omega arith)
parse_stack-total (constant b) rest {stack} h p = (
  record { node = plain (if b then true_node else false_node); depth = 1 },
  rw p (step_constant b stack),
  omega arith,
)
parse_stack-total (negated e) rest {stack} h p =
    let (i, read, d) = parse_stack-total e rest (omega arith) p in
    let (j, neg, d') = negate-total i stack (height e + 1) (omega (arith, d)) h in
    (j, rw (read, step-bang) neg, d')
parse_stack-total (both op a b) rest {stack} h p =
    let (j, second, db) = parse_stack-total b rest (omega arith) p in
    let (i, first, da) = parse_stack-total a (tokens b ++ rest) (omega arith) second in
    let (k, built, d) =
      combine-total op i j stack (height (both op a b)) (omega (arith, da)) (omega (arith, db)) h in
    (k, rw (append_assoc, first, step-operator) built, d)

parse_stack-flat_map :
    (es : List Expr) (k : ℕ)
    → heights es + 1 ≤ k
    → k ≤ max_domain_nesting
    → (stack : List Item) × (parse_stack (flat_map tokens es) ≡ ok stack) × Below k stack
parse_stack-flat_map [] k h g = ([], unfold parse_stack in refl, tt)
parse_stack-flat_map (e ∷ es) k h g =
    let (stack, read, below) = parse_stack-flat_map es k (omega arith) g in
    let (i, first, d) = parse_stack-total e (flat_map tokens es) (omega arith) read in
    (i ∷ stack, first, (omega (arith, d), below))

close-total :
    (stack : List Item) (k : ℕ)
    → 1 ≤ k
    → k ≤ max_domain_nesting
    → Below k stack
    → (n : Node) × (close stack ≡ ok n)
unfolding close
close-total [] k h g b = (true_node, refl)
close-total (a ∷ []) k h g b = (finish a.node, refl)
close-total (a ∷ b ∷ stack) k h g below =
    let (i, built, d) = nary-total true (a ∷ b ∷ stack) k h g below in (finish i.node, rw built)

-- Every list of expressions nesting less than the limit is accepted when it is spelled out.
pub parse-total :
    (es : List Expr)
    → heights es + 1 ≤ max_domain_nesting
    → (n : Node) × (parse (array (of_list (flat_map tokens es))) ≡ ok n)
unfolding parse
parse-total es h =
    let (stack, read, below) = parse_stack-flat_map es max_domain_nesting h (omega arith) in
    let (n, closed) = close-total stack max_domain_nesting (omega arith) (omega arith) below in
    (n, rw (to_list-of_list, read) closed)
