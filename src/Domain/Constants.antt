-- ===== src/Domain/Constants.antt =====
-- kernel/src/domain.rs: `fold_constants` and `is_false`, and the leaves of a node.
use odoo_rust_orm.Prelude.{
  Bool, true, false, ◌&&◌, ◌||◌, List, [], ◌∷◌, ◌++◌, Bytes, codes, bytes_eq, ◌==◌, if◌then◌else◌,
}
use odoo_rust_orm.Json.{Json, array, nil}
use odoo_rust_orm.Domain.{
  Leaf, Node, and, or, not, leaf, true_node, false_node, Nodes, none_left, child, of_nodes,
}

-- What the loop leaves: nothing, one child, or a junction.
unfoldable pub close_and : List Node → Node
close_and [] = true_node
close_and (n ∷ []) = n
close_and kept = and (of_nodes kept)

unfoldable pub close_or : List Node → Node
close_or [] = false_node
close_or (n ∷ []) = n
close_or kept = or (of_nodes kept)

-- The loops over the folded children; `kept` grows at its end.
unfoldable pub keep_and : List Node → List Node → Node
keep_and [] kept = close_and kept
keep_and (false_node ∷ ns) kept = false_node
keep_and (true_node ∷ ns) kept = keep_and ns kept
keep_and (n ∷ ns) kept = keep_and ns (kept ++ n ∷ [])

unfoldable pub keep_or : List Node → List Node → Node
keep_or [] kept = close_or kept
keep_or (true_node ∷ ns) kept = true_node
keep_or (false_node ∷ ns) kept = keep_or ns kept
keep_or (n ∷ ns) kept = keep_or ns (kept ++ n ∷ [])

unfoldable pub fold_not : Node → Node
fold_not true_node = false_node
fold_not false_node = true_node
fold_not n = not n

unfoldable mutual
  pub fold_constants : Node → Node
  fold_constants (and ns) = keep_and (fold_children ns) []
  fold_constants (or ns) = keep_or (fold_children ns) []
  fold_constants (not n) = fold_not (fold_constants n)
  fold_constants (leaf l) = leaf l
  fold_constants true_node = true_node
  fold_constants false_node = false_node

  pub fold_children : Nodes → List Node
  fold_children none_left = []
  fold_children (child n ns) = fold_constants n ∷ fold_children ns

is_empty_array : Json → Bool
is_empty_array (array nil) = true
is_empty_array _ = false

-- `l.op == "in" && l.value == []`
unfoldable pub is_in_nothing : Leaf → Bool
unfolding is_empty_array
is_in_nothing l = bytes_eq l.op (codes "in") && is_empty_array l.value

unfoldable pub is_empty : Nodes → Bool
is_empty none_left = true
is_empty (child _ _) = false

unfoldable mutual
  pub is_false : Node → Bool
  is_false false_node = true
  is_false (leaf l) = is_in_nothing l
  is_false (and ns) = any_false ns
  is_false (or ns) = (if is_empty ns then false else true) && all_false ns
  is_false (not _) = false
  is_false true_node = false

  pub any_false : Nodes → Bool
  any_false none_left = false
  any_false (child n ns) = is_false n || any_false ns

  pub all_false : Nodes → Bool
  all_false none_left = true
  all_false (child n ns) = is_false n && all_false ns

-- `split('.').next()`: what stands before the first dot.
unfoldable pub before_dot : Bytes → Bytes
before_dot [] = []
before_dot (c ∷ cs) = if c == b'.' then [] else c ∷ before_dot cs

-- `referenced_fields`, as the list that it pushes.
unfoldable mutual
  pub referenced_fields : Node → List Bytes
  referenced_fields (and ns) = referenced_all ns
  referenced_fields (or ns) = referenced_all ns
  referenced_fields (not n) = referenced_fields n
  referenced_fields (leaf l) = before_dot l.field ∷ []
  referenced_fields true_node = []
  referenced_fields false_node = []

  pub referenced_all : Nodes → List Bytes
  referenced_all none_left = []
  referenced_all (child n ns) = referenced_fields n ++ referenced_all ns
