-- ===== src/Domain/Depth.antt =====
-- kernel/src/domain.rs: the nesting that `parse` tracks is the nesting of the node, and is bounded.
pub mod Limit
use odoo_rust_orm.Prelude.{
  ℕ, suc, ◌+◌, ◌-◌, ◌≤◌, max, Bool, true, false, List, [], ◌∷◌, ◌++◌, ◌⊎◌, inl, inr, ◌≡◌, refl, sym,
  ap, ◌∙◌, arith, if◌then◌else◌, Bool-cases, Bytes, bytes_eq, ◌||◌,
}
use odoo_rust_orm.Error.{Result, ok, err, ◌>>=◌, >>=-eq-ok, ok-injective}
use odoo_rust_orm.Json.{Json, string, array, nil, cons, to_list, Sentinel, one_value, zero_value}
use odoo_rust_orm.Domain.{
  Node, and, or, not, leaf, true_node, false_node, Nodes, none_left, child, of_nodes,
  max_domain_nesting, Pending, plain, junction, Item, from_node, finish, same, merge, absorb,
  nary_loop, nary, parse_operand, parse_leaf, constant_leaf, combine, negate_node, negate,
  push_leaf, step, amp, bar, bang, parse_stack, close, parse,
}
use odoo_rust_orm.Domain.Junctions.{merge-append, finish-from_node, nary-ok}
use odoo_rust_orm.Domain.Prefix.{negate_node-ok}

-- How deep a node nests; a leaf or a constant counts one.
unfoldable mutual
  pub depth : Node → ℕ
  depth (and ns) = suc (deepest ns)
  depth (or ns) = suc (deepest ns)
  depth (not n) = suc (depth n)
  depth (leaf l) = 1
  depth true_node = 1
  depth false_node = 1

  pub deepest : Nodes → ℕ
  deepest none_left = 0
  deepest (child n ns) = max (depth n) (deepest ns)

pub deepest_of : List Node → ℕ
deepest_of [] = 0
deepest_of (n ∷ ns) = max (depth n) (deepest_of ns)

depth_pos : (n : Node) → 1 ≤ depth n
unfolding depth
depth_pos (leaf l) = omega arith
depth_pos _ = omega arith

deepest-of_nodes : (ns : List Node) → deepest (of_nodes ns) ≡ deepest_of ns
unfolding depth deepest_of
deepest-of_nodes [] = refl
deepest-of_nodes (n ∷ ns) = ap (max (depth n)) (deepest-of_nodes ns)

deepest_of-append :
    (ns ms : List Node) → deepest_of (ns ++ ms) ≡ max (deepest_of ns) (deepest_of ms)
unfolding deepest_of
deepest_of-append [] ms = omega arith
deepest_of-append (n ∷ ns) ms = omega (arith, deepest_of-append ns ms)

depth-junction :
    (op : Bool) (ns : List Node) → depth (finish (junction op ns)) ≡ suc (deepest_of ns)
unfolding depth finish
depth-junction true ns = ap suc (deepest-of_nodes ns)
depth-junction false ns = ap suc (deepest-of_nodes ns)

-- The depth that an item carries is its node's, and within the limit.
abbrev pub Tracked : Item → Type 0
Tracked i = (i.depth ≡ depth (finish i.node)) × (i.depth ≤ max_domain_nesting)

deepest_of-snoc :
    (ns : List Node) (n : Node) → deepest_of (ns ++ n ∷ []) ≡ max (deepest_of ns) (depth n)
unfolding deepest_of
deepest_of-snoc ns n = omega (arith, deepest_of-append ns (n ∷ []))

depth-absorb :
    (op : Bool) (p : Pending) (d : ℕ) (children : List Node) (n : ℕ)
    → d ≡ depth (finish p)
    → n ≡ suc (deepest_of children)
    → (absorb op p d children n).1 ≡ suc (deepest_of (absorb op p d children n).0)
unfolding absorb
depth-absorb op (plain x) d children n h k =
    unfold finish in omega (arith, deepest_of-snoc children x)
depth-absorb op (junction other inner) d children n h k = elim (Bool-cases (same op other)) [
  | inl e ↦
      rw (e, merge-append)
        (omega (arith, deepest_of-append children inner, depth-junction other inner))
  | inr e ↦ rw e (omega (arith, deepest_of-snoc children (finish (junction other inner))))
]

abbrev pub AllTracked : List Item → Type 0
AllTracked [] = Unit
AllTracked (i ∷ is) = Tracked i × AllTracked is

depth-nary_loop :
    (op : Bool) (is : List Item) (children : List Node) (n : ℕ)
    → AllTracked is
    → n ≡ suc (deepest_of children)
    → (nary_loop op is children n).1 ≡ suc (deepest_of (nary_loop op is children n).0)
unfolding nary_loop
depth-nary_loop op [] children n t h = h
depth-nary_loop op (i ∷ is) children n (t, ts) h =
    depth-nary_loop op is _ _ ts (depth-absorb op i.node i.depth children n t.0 h)

pub nary-Tracked :
    (op : Bool) (is : List Item) {i : Item} → AllTracked is → nary op is ≡ ok i → Tracked i
unfolding deepest_of
nary-Tracked op is {i} t h =
    let (node_is, depth_is, bound) = nary-ok op is h in
    (
      depth_is
          ∙ depth-nary_loop op is [] 1 t refl
          ∙ sym (depth-junction op _)
          ∙ ap (λ p. depth (finish p)) (sym node_is),
      bound,
    )

pub negate_node-Tracked :
    (n : Node) (d : ℕ) {i : Item}
    → d ≡ depth n
    → d ≤ max_domain_nesting
    → negate_node n d ≡ ok i
    → Tracked i
unfolding depth finish
negate_node-Tracked n d h b e = elim (negate_node-ok n d e) [
  | inl (f, g, bound) ↦ (omega (arith, ap (λ p. depth (finish p)) f), bound)
  | inr (inner, f, g, k) ↦ (
    omega (arith, ap (λ p. depth (finish p)) g, ap depth (finish-from_node inner), ap depth f),
    omega arith,
  )
]
