-- ===== src/Domain/Meaning.antt =====
-- The meaning of a domain node in SQL's three-valued logic, for an arbitrary reading of leaves.
use odoo_rust_orm.Prelude.{Bool, true, false, List, [], ◌∷◌, ◌++◌, ◌≡◌, refl, arith}
use odoo_rust_orm.Domain.{
  Leaf, Node, and, or, not, leaf, true_node, false_node, Nodes, none_left, child, of_nodes,
}

pub data Truth : Type 0 where
  holds fails unknown : Truth

abbrev pub truth_and : Truth → Truth → Truth
truth_and holds b = b
truth_and fails b = fails
truth_and unknown fails = fails
truth_and unknown b = unknown

abbrev pub truth_or : Truth → Truth → Truth
truth_or fails b = b
truth_or holds b = holds
truth_or unknown holds = holds
truth_or unknown b = unknown

abbrev pub truth_not : Truth → Truth
truth_not holds = fails
truth_not fails = holds
truth_not unknown = unknown

-- `AND` and `OR` at once: the operator is `true` for `AND`.
unfoldable pub joined : Bool → Truth → Truth → Truth
joined true a b = truth_and a b
joined false a b = truth_or a b

unfoldable pub neutral : Bool → Truth
neutral true = holds
neutral false = fails

unfoldable mutual
  pub eval : (Leaf → Truth) → Node → Truth
  eval v (and ns) = eval_all v ns
  eval v (or ns) = eval_any v ns
  eval v (not n) = truth_not (eval v n)
  eval v (leaf l) = v l
  eval v true_node = holds
  eval v false_node = fails

  pub eval_all : (Leaf → Truth) → Nodes → Truth
  eval_all v none_left = holds
  eval_all v (child n ns) = truth_and (eval v n) (eval_all v ns)

  pub eval_any : (Leaf → Truth) → Nodes → Truth
  eval_any v none_left = fails
  eval_any v (child n ns) = truth_or (eval v n) (eval_any v ns)

-- A list of nodes under one operator.
unfoldable pub eval_list : (Leaf → Truth) → Bool → List Node → Truth
eval_list v op [] = neutral op
eval_list v op (n ∷ ns) = joined op (eval v n) (eval_list v op ns)

pub joined_assoc :
    (op : Bool) (a b c : Truth) → joined op (joined op a b) c ≡ joined op a (joined op b c)
unfolding joined
joined_assoc true holds b c = refl
joined_assoc true fails b c = refl
joined_assoc true unknown holds c = refl
joined_assoc true unknown fails c = refl
joined_assoc true unknown unknown holds = refl
joined_assoc true unknown unknown fails = refl
joined_assoc true unknown unknown unknown = refl
joined_assoc false holds b c = refl
joined_assoc false fails b c = refl
joined_assoc false unknown holds c = refl
joined_assoc false unknown fails c = refl
joined_assoc false unknown unknown holds = refl
joined_assoc false unknown unknown fails = refl
joined_assoc false unknown unknown unknown = refl

pub joined-neutral : (op : Bool) (a : Truth) → joined op a (neutral op) ≡ a
unfolding joined neutral
joined-neutral op a = ground arith

pub neutral-joined : (op : Bool) (a : Truth) → joined op (neutral op) a ≡ a
unfolding joined neutral
neutral-joined op a = ground arith

pub not-not : (a : Truth) → truth_not (truth_not a) ≡ a
not-not a = ground arith

module _ (v : Leaf → Truth) where
  pub eval_list-append :
      (op : Bool) (ns ms : List Node)
      → eval_list v op (ns ++ ms) ≡ joined op (eval_list v op ns) (eval_list v op ms)
  unfolding eval_list
  eval_list-append op [] ms = rw neutral-joined
  eval_list-append op (n ∷ ns) ms = rw (eval_list-append op ns ms, joined_assoc)

  pub eval_list-all : (ns : List Node) → eval_all v (of_nodes ns) ≡ eval_list v true ns
  unfolding eval_list joined neutral eval
  eval_list-all [] = refl
  eval_list-all (n ∷ ns) = rw (eval_list-all ns)

  pub eval_list-any : (ns : List Node) → eval_any v (of_nodes ns) ≡ eval_list v false ns
  unfolding eval_list joined neutral eval
  eval_list-any [] = refl
  eval_list-any (n ∷ ns) = rw (eval_list-any ns)
