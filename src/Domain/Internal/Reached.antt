-- ===== src/Domain/Internal/Reached.antt =====
-- kernel/src/domain.rs: which operators `reject_internal_operators` finds, whatever they nest in.
use odoo_rust_orm.Prelude.{
  ℕ, zero, suc, ◌≤◌, Bool, true, false, List, [], ◌∷◌, ◌++◌, some, ◌≡◌, refl, sym, ap, ◌∙◌, ◌⊎◌,
  inl, inr, arith, Bool-cases, Option-cases, Member, here, there,
}
use odoo_rust_orm.Error.{Result, ok, err, ◌>>◌, refuse, >>=-eq-ok}
use odoo_rust_orm.Json.{Json}
use odoo_rust_orm.Domain.{
  Leaf, Node, and, or, not, leaf, true_node, false_node, Nodes, none_left, child,
}
use odoo_rust_orm.Domain.Junctions.{leaf_list, value, values}
use odoo_rust_orm.Domain.Nested.{parse_nested}
use odoo_rust_orm.Domain.Internal.{
  is_internal, is_subdomain, json_height, leaves, tallest, reject_leaf, reject_node, reject_nodes,
  if_some, in_nested, reject_levels, reject_internal_operators,
}
use odoo_rust_orm.Domain.Internal.Smaller.{parse_nested-tallest}

-- The leaves that a domain holds, and those inside the domains that are the values of its `any`s.
pub data Reached : Node → Leaf → Type 0 where
  held : {n : Node} {l : Leaf} → Member l (leaves n) → Reached n l
  inside :
      {n sub : Node} {l m : Leaf}
      → Member l (leaves n)
      → is_internal l.op ≡ false
      → is_subdomain l.op ≡ true
      → parse_nested l.value ≡ some sub
      → Reached sub m
      → Reached n m

-- A leaf with an internal operator is reached.
pub record Found (n : Node) : Type 0 where
  pub at_leaf : Leaf
  pub reached : Reached n at_leaf
  pub internal : is_internal at_leaf.op ≡ true

module _ (nested : Json → Result (Unit {0})) where
  -- The check of a node is that of its leaves, from left to right.
  reject_leaves : List Leaf → Result (Unit {0})
  reject_leaves [] = ok tt
  reject_leaves (l ∷ ls) = reject_leaf nested l >> reject_leaves ls

  then_assoc : (a b c : Result (Unit {0})) → ((a >> b) >> c) ≡ (a >> (b >> c))
  then_assoc (ok x) b c = refl
  then_assoc (err chain) b c = refl

  then-ok : (a : Result (Unit {0})) → (a >> ok tt) ≡ a
  then-ok (ok tt) = refl
  then-ok (err chain) = refl

  reject_leaves-append :
      (ls ms : List Leaf) → reject_leaves (ls ++ ms) ≡ (reject_leaves ls >> reject_leaves ms)
  unfolding reject_leaves
  reject_leaves-append [] ms = refl
  reject_leaves-append (l ∷ ls) ms =
      ap (λ r. reject_leaf nested l >> r) (reject_leaves-append ls ms)
      ∙ sym (then_assoc (reject_leaf nested l) _ _)

  mutual
    unfolding reject_node value reject_leaves

    reject_node-leaves : (n : Node) → reject_node nested n ≡ reject_leaves (leaves n)
    reject_node-leaves (and ns) = reject_nodes-leaves true ns
    reject_node-leaves (or ns) = reject_nodes-leaves false ns
    reject_node-leaves (not n) = reject_node-leaves n
    reject_node-leaves (leaf l) = sym (then-ok (reject_leaf nested l))
    reject_node-leaves true_node = refl
    reject_node-leaves false_node = refl

    reject_nodes-leaves :
        (op : Bool) (ns : Nodes)
        → reject_nodes nested ns ≡ reject_leaves (values leaf_list (λ l. l ∷ []) op ns)
    reject_nodes-leaves op none_left = refl
    reject_nodes-leaves op (child n ns) =
        rw (reject_node-leaves n, reject_nodes-leaves op ns)
          (sym (reject_leaves-append (leaves n) _))

-- What a check gives, where `F` says that an internal operator was found.
abbrev Decided : Type 0 → Result (Unit {0}) → Type 0
Decided F r = (r ≡ ok tt) ⊎ ((r ≡ refuse) × F)

-- What the domain inside a leaf's value reaches.
abbrev FoundInside : Json → Type 0
FoundInside v = (sub : Node) × (parse_nested v ≡ some sub) × Found sub

abbrev Inside : Json → (Json → Result (Unit {0})) → Type 0
Inside v nested = Decided (FoundInside v) (nested v)

module _ (n : Node) (nested : Json → Result (Unit {0})) where
  reject_leaf_decides :
      (l : Leaf)
      → Member l (leaves n)
      → Inside l.value nested
      → Decided (Found n) (reject_leaf nested l)
  unfolding reject_leaf
  reject_leaf_decides l at inner = elim (Bool-cases (is_internal l.op)) [
    | inl e ↦ rw e (inr (refl, record { at_leaf = l; reached = held at; internal = e }))
    | inr e ↦ elim (Bool-cases (is_subdomain l.op)) [
      | inl f ↦ elim inner [
        | inl passes ↦ rw (e, f) (inl passes)
        | inr (refused, (sub, read, found)) ↦
            rw (e, f)
              (inr (
                refused,
                record {
                  at_leaf = Found.at_leaf found;
                  reached = inside at e f read (Found.reached found);
                  internal = Found.internal found;
                },
              ))
      ]
      | inr f ↦ rw (e, f) (inl refl)
    ]
  ]

  reject_leaves_decides :
      (ls : List Leaf)
      → ((l : Leaf) → Member l ls → Decided (Found n) (reject_leaf nested l))
      → Decided (Found n) (reject_leaves nested ls)
  unfolding reject_leaves
  reject_leaves_decides [] each = inl refl
  reject_leaves_decides (l ∷ ls) each = elim (each l here) [
    | inl passes ↦ rw passes (reject_leaves_decides ls (λ m at. each m (there at)))
    | inr (refused, found) ↦ rw refused (inr (refl, found))
  ]

tallest-Member : {l : Leaf} {ls : List Leaf} → Member l ls → json_height l.value ≤ tallest ls
tallest-Member here = omega arith
tallest-Member (there at) = omega (arith, tallest-Member at)

in_nested_decides :
    (reject : Node → Result (Unit {0})) (v : Json)
    → ((sub : Node) → parse_nested v ≡ some sub → Decided (Found sub) (reject sub))
    → Inside v (in_nested reject)
unfolding in_nested if_some
in_nested_decides reject v each = elim (Option-cases (parse_nested v)) [
  | inl e ↦ rw e (inl refl)
  | inr (sub, e) ↦ elim (each sub e) [
    | inl passes ↦ rw e (inl passes)
    | inr (refused, found) ↦ rw e (inr (refused, (sub, refl, found)))
  ]
]

-- Fuel as high as the values nest is enough.
reject_levels_decides :
    (fuel : ℕ) (n : Node) → tallest (leaves n) ≤ fuel → Decided (Found n) (reject_levels fuel n)
unfolding reject_levels
reject_levels_decides zero n low = rw (reject_node-leaves (in_nested (λ sub. err [])) n) (
    reject_leaves_decides n (in_nested (λ sub. err [])) (leaves n) (λ l at.
      reject_leaf_decides n (in_nested (λ sub. err [])) l at (
        in_nested_decides (λ sub. err []) l.value
          (λ sub read.
            absurd (omega (arith, low, tallest-Member at, parse_nested-tallest l.value read))))))
reject_levels_decides (suc fuel) n low =
    rw (reject_node-leaves (in_nested (reject_levels fuel)) n) (
      reject_leaves_decides n (in_nested (reject_levels fuel)) (leaves n) (λ l at.
        reject_leaf_decides n (in_nested (reject_levels fuel)) l at (
          in_nested_decides (reject_levels fuel) l.value (λ sub read.
            reject_levels_decides fuel sub
              (omega (arith, low, tallest-Member at, parse_nested-tallest l.value read))))))

-- The check ends on every domain: it accepts, or it refuses, and then the domain holds an internal
-- operator, itself or inside the domains that are the values of its `any`s.
pub reject_internal_operators_decides :
    (n : Node)
    → (reject_internal_operators n ≡ ok tt) ⊎ ((reject_internal_operators n ≡ refuse) × Found n)
unfolding reject_internal_operators
reject_internal_operators_decides n = reject_levels_decides (tallest (leaves n)) n (omega arith)

reject_leaves-Member :
    (nested : Json → Result (Unit {0})) {l : Leaf} {ls : List Leaf}
    → Member l ls
    → reject_leaves nested ls ≡ ok tt
    → reject_leaf nested l ≡ ok tt
unfolding reject_leaves
reject_leaves-Member nested {l} here h =
    let (done, first, rest) = >>=-eq-ok (reject_leaf nested l) _ h in first
reject_leaves-Member nested (there {y = y} at) h =
    let (done, first, rest) = >>=-eq-ok (reject_leaf nested y) _ h in
    reject_leaves-Member nested at rest

reject_leaf-external :
    (nested : Json → Result (Unit {0})) (l : Leaf)
    → reject_leaf nested l ≡ ok tt
    → is_internal l.op ≡ false
unfolding reject_leaf
reject_leaf-external nested l h = elim (Bool-cases (is_internal l.op)) [
  | inl e ↦ cc (rw e at h)
  | inr e ↦ e
]

reject_leaf-nested :
    (reject : Node → Result (Unit {0})) (l : Leaf) {sub : Node}
    → is_internal l.op ≡ false
    → is_subdomain l.op ≡ true
    → parse_nested l.value ≡ some sub
    → reject_leaf (in_nested reject) l ≡ ok tt
    → reject sub ≡ ok tt
unfolding reject_leaf in_nested if_some
reject_leaf-nested reject l e f read h = rw (e, f, read) at h

reject_levels-Reached :
    (fuel : ℕ) {n : Node} {m : Leaf}
    → tallest (leaves n) ≤ fuel
    → reject_levels fuel n ≡ ok tt
    → Reached n m
    → is_internal m.op ≡ false
unfolding reject_levels
reject_levels-Reached zero {n} low h (held {l = l} at) =
    reject_leaf-external _ l (reject_leaves-Member _ at (sym (reject_node-leaves _ n) ∙ h))
reject_levels-Reached (suc fuel) {n} low h (held {l = l} at) =
    reject_leaf-external _ l (reject_leaves-Member _ at (sym (reject_node-leaves _ n) ∙ h))
reject_levels-Reached zero low h (inside {l = l} at e f read below) =
    absurd (omega (arith, low, tallest-Member at, parse_nested-tallest l.value read))
reject_levels-Reached (suc fuel) {n} low h (inside {l = l} at e f read below) =
    reject_levels-Reached fuel
      (omega (arith, low, tallest-Member at, parse_nested-tallest l.value read))
      (reject_leaf-nested (reject_levels fuel) l e f read
        (reject_leaves-Member _ at (sym (reject_node-leaves _ n) ∙ h)))
      below

-- No leaf of an accepted domain has an internal operator, also none inside the domains that are
-- the values of its `any`s.
pub reject_internal_operators-Reached :
    {n : Node} {m : Leaf}
    → reject_internal_operators n ≡ ok tt
    → Reached n m
    → is_internal m.op ≡ false
unfolding reject_internal_operators
reject_internal_operators-Reached {n} h r =
    reject_levels-Reached (tallest (leaves n)) (omega arith) h r
