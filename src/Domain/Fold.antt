-- ===== src/Domain/Fold.antt =====
-- kernel/src/domain.rs: what `fold_constants` and `is_false` do to the meaning and the shape.
use odoo_rust_orm.Prelude.{
  Bool, true, false, ◌&&◌, List, [], ◌∷◌, ◌++◌, ◌≡◌, refl, sym, ap, ap₂, ◌∙◌, arith,
}
use odoo_rust_orm.Domain.{
  Leaf, Node, and, or, not, leaf, true_node, false_node, Nodes, none_left, child,
}
use odoo_rust_orm.Domain.Constants.{
  close_and, close_or, keep_and, keep_or, fold_not, fold_constants, fold_children, is_in_nothing,
  is_empty, is_false, any_false, all_false,
}
use odoo_rust_orm.Domain.Meaning.{
  Truth, fails, truth_and, truth_or, truth_not, joined, neutral, eval, eval_all, eval_any,
  eval_list, eval_list-append, eval_list-all, eval_list-any, joined-neutral, neutral-joined,
  joined_assoc,
}

module _ (v : Leaf → Truth) where
  eval-close_and : (kept : List Node) → eval v (close_and kept) ≡ eval_list v true kept
  unfolding close_and eval eval_list joined neutral
  eval-close_and [] = refl
  eval-close_and (n ∷ []) = ground arith
  eval-close_and (n ∷ m ∷ ns) = rw (eval_list-all v ns)

  eval-close_or : (kept : List Node) → eval v (close_or kept) ≡ eval_list v false kept
  unfolding close_or eval eval_list joined neutral
  eval-close_or [] = refl
  eval-close_or (n ∷ []) = ground arith
  eval-close_or (n ∷ m ∷ ns) = rw (eval_list-any v ns)

  eval_list-snoc :
      (op : Bool) (ns : List Node) (n : Node)
      → eval_list v op (ns ++ n ∷ []) ≡ joined op (eval_list v op ns) (eval v n)
  unfolding eval_list
  eval_list-snoc op ns n = eval_list-append v op ns (n ∷ []) ∙ rw joined-neutral

  -- A child that is kept moves over to `kept`.
  move_kept :
      (op : Bool) (n : Node) (ns kept : List Node)
      → joined op (eval_list v op (kept ++ n ∷ [])) (eval_list v op ns)
        ≡ joined op (eval_list v op kept) (eval_list v op (n ∷ ns))
  unfolding eval_list
  move_kept op n ns kept = rw (eval_list-snoc op kept n, joined_assoc)

  eval-keep_and :
      (ns kept : List Node)
      → eval v (keep_and ns kept) ≡ joined true (eval_list v true kept) (eval_list v true ns)
  unfolding keep_and eval eval_list joined neutral
  eval-keep_and [] kept = eval-close_and kept ∙ sym (joined-neutral true (eval_list v true kept))
  eval-keep_and (false_node ∷ ns) kept = ground arith
  eval-keep_and (true_node ∷ ns) kept = eval-keep_and ns kept
  eval-keep_and (n ∷ ns) kept = eval-keep_and ns (kept ++ n ∷ []) ∙ move_kept true n ns kept

  eval-keep_or :
      (ns kept : List Node)
      → eval v (keep_or ns kept) ≡ joined false (eval_list v false kept) (eval_list v false ns)
  unfolding keep_or eval eval_list joined neutral
  eval-keep_or [] kept = eval-close_or kept ∙ sym (joined-neutral false (eval_list v false kept))
  eval-keep_or (true_node ∷ ns) kept = ground arith
  eval-keep_or (false_node ∷ ns) kept = eval-keep_or ns kept
  eval-keep_or (n ∷ ns) kept = eval-keep_or ns (kept ++ n ∷ []) ∙ move_kept false n ns kept

  eval-fold_not : (n : Node) → eval v (fold_not n) ≡ truth_not (eval v n)
  unfolding fold_not eval
  eval-fold_not true_node = refl
  eval-fold_not _ = refl

mutual
  unfolding fold_constants eval eval_list neutral joined

  eval-fold : (v : Leaf → Truth) (n : Node) → eval v (fold_constants n) ≡ eval v n
  eval-fold v (and ns) =
      eval-keep_and v (fold_children ns) [] ∙ neutral-joined true _ ∙ (eval-fold_children v ns).0
  eval-fold v (or ns) =
      eval-keep_or v (fold_children ns) [] ∙ neutral-joined false _ ∙ (eval-fold_children v ns).1
  eval-fold v (not n) = eval-fold_not v (fold_constants n) ∙ ap truth_not (eval-fold v n)
  eval-fold v (leaf l) = refl
  eval-fold v true_node = refl
  eval-fold v false_node = refl

  eval-fold_children :
      (v : Leaf → Truth) (ns : Nodes)
      → (eval_list v true (fold_children ns) ≡ eval_all v ns)
        × (eval_list v false (fold_children ns) ≡ eval_any v ns)
  eval-fold_children v none_left = (refl, refl)
  eval-fold_children v (child n ns) =
      let here = eval-fold v n in
      let rest = eval-fold_children v ns in (ap₂ truth_and here rest.0, ap₂ truth_or here rest.1)

-- Folding constants keeps the three-valued meaning of a domain, however its leaves are read.
pub eval-fold_constants : (v : Leaf → Truth) (n : Node) → eval v (fold_constants n) ≡ eval v n
eval-fold_constants v n = eval-fold v n

and-right : (a b : Bool) → (a && b) ≡ true → b ≡ true
and-right a b h = ground arith

mutual
  unfolding is_false eval is_empty

  fails-is_false :
      (v : Leaf → Truth)
      → ((l : Leaf) → is_in_nothing l ≡ true → v l ≡ fails)
      → (n : Node) → is_false n ≡ true
      → eval v n ≡ fails
  fails-is_false v nothing (and ns) h = fails-any_false v nothing ns h
  fails-is_false v nothing (or ns) h = fails-all_false v nothing ns (and-right _ _ h)
  fails-is_false v nothing (not n) h = cc
  fails-is_false v nothing (leaf l) h = nothing l h
  fails-is_false v nothing true_node h = cc
  fails-is_false v nothing false_node h = refl

  fails-any_false :
      (v : Leaf → Truth)
      → ((l : Leaf) → is_in_nothing l ≡ true → v l ≡ fails)
      → (ns : Nodes) → any_false ns ≡ true
      → eval_all v ns ≡ fails
  fails-any_false v nothing none_left h = cc
  fails-any_false v nothing (child n ns) h =
      ground (arith, fails-is_false v nothing n, fails-any_false v nothing ns)

  fails-all_false :
      (v : Leaf → Truth)
      → ((l : Leaf) → is_in_nothing l ≡ true → v l ≡ fails)
      → (ns : Nodes) → all_false ns ≡ true
      → eval_any v ns ≡ fails
  fails-all_false v nothing none_left h = refl
  fails-all_false v nothing (child n ns) h =
      ground (arith, fails-is_false v nothing n, fails-all_false v nothing ns)

-- A node that `is_false` reports is FALSE on every row, never NULL, where a leaf `in []` is.
pub is_false-eval :
    (v : Leaf → Truth) (n : Node)
    → ((l : Leaf) → is_in_nothing l ≡ true → v l ≡ fails)
    → is_false n ≡ true
    → eval v n ≡ fails
is_false-eval v n nothing h = fails-is_false v nothing n h
