-- ===== src/Domain/Reduced.antt =====
-- kernel/src/domain.rs: the shape that `fold_constants` leaves.
use odoo_rust_orm.Prelude.{
  Bool, true, false, ◌&&◌, ◌||◌, List, [], ◌∷◌, ◌++◌, ◌≡◌, refl, ap, ap₂, ◌∙◌, arith, all,
  append-nil, append_assoc,
}
use odoo_rust_orm.Domain.{
  Node, and, or, not, leaf, true_node, false_node, Nodes, none_left, child, of_nodes, to_nodes,
}
use odoo_rust_orm.Domain.Constants.{
  close_and, close_or, keep_and, keep_or, fold_not, fold_constants, fold_children,
}

unfoldable pub is_constant : Node → Bool
is_constant true_node = true
is_constant false_node = true
is_constant _ = false

unfoldable pub at_least_two : Nodes → Bool
at_least_two none_left = false
at_least_two (child _ none_left) = false
at_least_two (child _ (child _ _)) = true

-- No constant anywhere, and no junction of fewer than two children.
unfoldable mutual
  pub is_reduced : Node → Bool
  is_reduced (and ns) = at_least_two ns && all_reduced ns
  is_reduced (or ns) = at_least_two ns && all_reduced ns
  is_reduced (not n) = is_reduced n
  is_reduced (leaf _) = true
  is_reduced true_node = false
  is_reduced false_node = false

  pub all_reduced : Nodes → Bool
  all_reduced none_left = true
  all_reduced (child n ns) = is_reduced n && all_reduced ns

-- A constant by itself, or a node with none inside.
unfoldable pub is_folded : Node → Bool
is_folded n = is_constant n || is_reduced n

all-snoc :
    (p : Node → Bool) (xs : List Node) (x : Node)
    → all p xs ≡ true
    → p x ≡ true
    → all p (xs ++ x ∷ []) ≡ true
all-snoc p [] x h k = ground arith
all-snoc p (y ∷ xs) x h k = ground (arith, all-snoc p xs x)

all_reduced-of_nodes : (ns : List Node) → all_reduced (of_nodes ns) ≡ all is_reduced ns
unfolding is_reduced
all_reduced-of_nodes [] = refl
all_reduced-of_nodes (n ∷ ns) = ap (λ b. is_reduced n && b) (all_reduced-of_nodes ns)

is_folded-close_and :
    (kept : List Node) → all is_reduced kept ≡ true → is_folded (close_and kept) ≡ true
unfolding is_folded is_constant is_reduced at_least_two close_and
is_folded-close_and [] h = refl
is_folded-close_and (n ∷ []) h = ground arith
is_folded-close_and (n ∷ m ∷ ns) h = ground (arith, all_reduced-of_nodes ns)

is_folded-close_or :
    (kept : List Node) → all is_reduced kept ≡ true → is_folded (close_or kept) ≡ true
unfolding is_folded is_constant is_reduced at_least_two close_or
is_folded-close_or [] h = refl
is_folded-close_or (n ∷ []) h = ground arith
is_folded-close_or (n ∷ m ∷ ns) h = ground (arith, all_reduced-of_nodes ns)

is_folded-keep_and :
    (ns kept : List Node)
    → all is_folded ns ≡ true
    → all is_reduced kept ≡ true
    → is_folded (keep_and ns kept) ≡ true
unfolding keep_and is_folded is_constant is_reduced
is_folded-keep_and [] kept h k = is_folded-close_and kept k
is_folded-keep_and (false_node ∷ ns) kept h k = refl
is_folded-keep_and (true_node ∷ ns) kept h k = is_folded-keep_and ns kept h k
is_folded-keep_and (n ∷ ns) kept h k =
    is_folded-keep_and ns (kept ++ n ∷ []) (ground arith)
      (all-snoc is_reduced kept n k (ground arith))

is_folded-keep_or :
    (ns kept : List Node)
    → all is_folded ns ≡ true
    → all is_reduced kept ≡ true
    → is_folded (keep_or ns kept) ≡ true
unfolding keep_or is_folded is_constant is_reduced
is_folded-keep_or [] kept h k = is_folded-close_or kept k
is_folded-keep_or (true_node ∷ ns) kept h k = refl
is_folded-keep_or (false_node ∷ ns) kept h k = is_folded-keep_or ns kept h k
is_folded-keep_or (n ∷ ns) kept h k =
    is_folded-keep_or ns (kept ++ n ∷ []) (ground arith)
      (all-snoc is_reduced kept n k (ground arith))

is_folded-fold_not : (n : Node) → is_folded n ≡ true → is_folded (fold_not n) ≡ true
unfolding fold_not is_folded is_constant is_reduced
is_folded-fold_not true_node h = refl
is_folded-fold_not _ h = ground arith

mutual
  unfolding fold_constants is_folded is_constant is_reduced

  folded : (n : Node) → is_folded (fold_constants n) ≡ true
  folded (and ns) = is_folded-keep_and (fold_children ns) [] (all_folded ns) refl
  folded (or ns) = is_folded-keep_or (fold_children ns) [] (all_folded ns) refl
  folded (not n) = is_folded-fold_not (fold_constants n) (folded n)
  folded (leaf l) = refl
  folded true_node = refl
  folded false_node = refl

  all_folded : (ns : Nodes) → all is_folded (fold_children ns) ≡ true
  all_folded none_left = refl
  all_folded (child n ns) = ground (arith, folded n, all_folded ns)

-- What folding leaves is a constant alone, or holds no constant and no junction of fewer than
-- two children.
pub fold_constants-IsFolded : (n : Node) → is_folded (fold_constants n) ≡ true
fold_constants-IsFolded n = folded n

keep_and-reduced :
    (ns kept : List Node) → all is_reduced ns ≡ true → keep_and ns kept ≡ close_and (kept ++ ns)
unfolding keep_and is_reduced
keep_and-reduced [] kept h = rw append-nil
keep_and-reduced (false_node ∷ ns) kept h = cc
keep_and-reduced (true_node ∷ ns) kept h = cc
keep_and-reduced (n ∷ ns) kept h =
    keep_and-reduced ns (kept ++ n ∷ []) (ground arith)
    ∙ ap close_and (append_assoc kept (n ∷ []) ns)

keep_or-reduced :
    (ns kept : List Node) → all is_reduced ns ≡ true → keep_or ns kept ≡ close_or (kept ++ ns)
unfolding keep_or is_reduced
keep_or-reduced [] kept h = rw append-nil
keep_or-reduced (false_node ∷ ns) kept h = cc
keep_or-reduced (true_node ∷ ns) kept h = cc
keep_or-reduced (n ∷ ns) kept h =
    keep_or-reduced ns (kept ++ n ∷ []) (ground arith) ∙ ap close_or (append_assoc kept (n ∷ []) ns)

pub of_nodes-to_nodes : (ns : Nodes) → of_nodes (to_nodes ns) ≡ ns
of_nodes-to_nodes none_left = refl
of_nodes-to_nodes (child n ns) = ap (child n) (of_nodes-to_nodes ns)

all-to_nodes : (ns : Nodes) → all_reduced ns ≡ true → all is_reduced (to_nodes ns) ≡ true
unfolding is_reduced
all-to_nodes none_left h = refl
all-to_nodes (child n ns) h = ground (arith, all-to_nodes ns)

close-to_nodes :
    (ns : Nodes)
    → at_least_two ns ≡ true
    → (close_and (to_nodes ns) ≡ and ns) × (close_or (to_nodes ns) ≡ or ns)
unfolding at_least_two close_and close_or
close-to_nodes none_left h = cc
close-to_nodes (child n none_left) h = cc
close-to_nodes (child n (child m ns)) h =
    let e = of_nodes-to_nodes ns in
    (ap (λ r. and (child n (child m r))) e, ap (λ r. or (child n (child m r))) e)

pub and-true : (a b : Bool) → (a && b) ≡ true → (a ≡ true) × (b ≡ true)
and-true a b h = ground arith

fold_not-reduced : (n : Node) → is_reduced n ≡ true → fold_not n ≡ not n
unfolding fold_not is_reduced
fold_not-reduced true_node h = cc
fold_not-reduced false_node h = cc
fold_not-reduced _ h = refl

mutual
  unfolding fold_constants is_reduced

  fold-reduced : (n : Node) → is_reduced n ≡ true → fold_constants n ≡ n
  fold-reduced (and ns) h =
      let (two, every) = and-true (at_least_two ns) (all_reduced ns) h in
      ap (λ l. keep_and l []) (fold_children-reduced ns every)
      ∙ keep_and-reduced (to_nodes ns) [] (all-to_nodes ns every)
      ∙ (close-to_nodes ns two).0
  fold-reduced (or ns) h =
      let (two, every) = and-true (at_least_two ns) (all_reduced ns) h in
      ap (λ l. keep_or l []) (fold_children-reduced ns every)
      ∙ keep_or-reduced (to_nodes ns) [] (all-to_nodes ns every)
      ∙ (close-to_nodes ns two).1
  fold-reduced (not n) h = ap fold_not (fold-reduced n h) ∙ fold_not-reduced n h
  fold-reduced (leaf l) h = refl
  fold-reduced true_node h = refl
  fold-reduced false_node h = refl

  fold_children-reduced : (ns : Nodes) → all_reduced ns ≡ true → fold_children ns ≡ to_nodes ns
  fold_children-reduced none_left h = refl
  fold_children-reduced (child n ns) h =
      let (here, rest) = and-true (is_reduced n) (all_reduced ns) h in
      ap₂ ◌∷◌ (fold-reduced n here) (fold_children-reduced ns rest)

fold-folded : (n : Node) → is_folded n ≡ true → fold_constants n ≡ n
unfolding is_folded is_constant fold_constants
fold-folded true_node h = refl
fold-folded false_node h = refl
fold-folded n h = fold-reduced n h

-- A second pass finds nothing left to fold.
pub fold_constants_idem : (n : Node) → fold_constants (fold_constants n) ≡ fold_constants n
fold_constants_idem n = fold-folded (fold_constants n) (folded n)
