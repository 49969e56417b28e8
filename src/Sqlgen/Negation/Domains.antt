-- ===== src/Sqlgen/Negation/Domains.antt =====
-- kernel/src/sqlgen.rs: the negation of a domain selects the other records.
use odoo_rust_orm.Prelude.{
  ℕ, zero, suc, Bool, true, false, List, [], ◌∷◌, ◌++◌, none, some, ◌≡◌, refl, sym, arith, subst,
  Member, here, there,
}
use odoo_rust_orm.Error.{ok}
use odoo_rust_orm.Domain.{
  Leaf, Node, and, or, not, leaf, true_node, false_node, Nodes, none_left, child,
}
use odoo_rust_orm.Domain.Internal.{leaves}
use odoo_rust_orm.Domain.Junctions.{leaf_list, value, values}
use odoo_rust_orm.Domain.Meaning.{
  Truth, truth_and, truth_or, truth_not, eval, eval_all, eval_any, not-not,
}
use odoo_rust_orm.RuleExpr.Parser.{Outcome, done}
use odoo_rust_orm.Sqlgen.Class.{Context}
use odoo_rust_orm.Sqlgen.Leaves.{optimize_leaf}
use odoo_rust_orm.Sqlgen.Negation.{negate_node, negate_nodes, negate_leaf, negate}
use odoo_rust_orm.Sqlgen.Negation.Rows.{Row, reading}
use odoo_rust_orm.Sqlgen.Negation.Fits.{Fits}
use odoo_rust_orm.Sqlgen.Negation.Complement.{Yields, Yields-then, Negated, negate_kept-Negated}

-- A leaf that is left as it is, or one that is rewritten to what holds of the same records, of leaves
-- that are sound.
pub data Sound (row : Row) (c : Context) : Leaf → Type 0 where
  kept : {l : Leaf} → optimize_leaf c l ≡ ok none → Sound row c l
  rewritten :
      {l : Leaf} {n : Node}
      → optimize_leaf c l ≡ ok (some n)
      → eval (reading row c) n ≡ reading row c l
      → ((m : Leaf) → Member m (leaves n) → Sound row c m)
      → Sound row c l

Member-left : {l : Leaf} (ls ms : List Leaf) → Member l ls → Member l (ls ++ ms)
Member-left [] ms at = elim at [ ]
Member-left (x ∷ ls) ms here = here
Member-left (x ∷ ls) ms (there at) = there (Member-left ls ms at)

Member-right : {l : Leaf} (ls ms : List Leaf) → Member l ms → Member l (ls ++ ms)
Member-right [] ms at = at
Member-right (x ∷ ls) ms at = there (Member-right ls ms at)

and_or : (a b : Truth) → truth_not (truth_and a b) ≡ truth_or (truth_not a) (truth_not b)
and_or a b = ground arith

or_and : (a b : Truth) → truth_not (truth_or a b) ≡ truth_and (truth_not a) (truth_not b)
or_and a b = ground arith

module _ (v : Leaf → Truth) (negated : Leaf → Outcome Node) where
  abbrev Against : Node → Node → Type 0
  Against n m = eval v m ≡ truth_not (eval v n)

  -- The nodes under either operator.
  abbrev AllAgainst : Nodes → Nodes → Type 0
  AllAgainst ns ms =
      (eval_any v ms ≡ truth_not (eval_all v ns)) × (eval_all v ms ≡ truth_not (eval_any v ns))

  mutual
    unfolding negate_node negate_nodes eval eval_all eval_any value values

    negate_node-Against :
        (n : Node)
        → ((l : Leaf) → Member l (leaves n) → Yields (Against (leaf l)) (negated l))
        → Yields (Against n) (negate_node negated n)
    negate_node-Against true_node each = refl
    negate_node-Against false_node each = refl
    negate_node-Against (not n) each = sym (not-not (eval v n))
    negate_node-Against (and ns) each =
        Yields-then (AllAgainst ns) (Against (and ns)) (negate_nodes negated ns) _
          (negate_nodes-Against true ns each) (λ ms h. h.0)
    negate_node-Against (or ns) each =
        Yields-then (AllAgainst ns) (Against (or ns)) (negate_nodes negated ns) _
          (negate_nodes-Against false ns each) (λ ms h. h.1)
    negate_node-Against (leaf l) each = each l here

    negate_nodes-Against :
        (op : Bool) (ns : Nodes)
        → ((l : Leaf)
            → Member l (values leaf_list (λ l. l ∷ []) op ns)
            → Yields (Against (leaf l)) (negated l))
        → Yields (AllAgainst ns) (negate_nodes negated ns)
    negate_nodes-Against op none_left each = (refl, refl)
    negate_nodes-Against op (child n ns) each =
        let rest = values leaf_list (λ l. l ∷ []) op ns in
        Yields-then (Against n) (AllAgainst (child n ns)) (negate_node negated n) _
          (negate_node-Against n (λ l at. each l (Member-left (leaves n) rest at)))
          (λ m first.
            Yields-then (AllAgainst ns) (AllAgainst (child n ns)) (negate_nodes negated ns) _
              (negate_nodes-Against op ns (λ l at. each l (Member-right (leaves n) rest at)))
              (λ ms h. (rw (first, h.0, and_or) refl, rw (first, h.1, or_and) refl)))

module _ (row : Row) (c : Context) (fits : Fits row c) (deep : ℕ) where
  negate_leaf-Negated :
      (k : ℕ) {l : Leaf} → Sound row c l → Yields (Negated row c l) (negate_leaf c deep k l)
  unfolding negate_leaf eval
  negate_leaf-Negated zero sound = tt
  negate_leaf-Negated (suc k) (kept {l} is) = rw is (negate_kept-Negated row c fits deep l)
  negate_leaf-Negated (suc k) (rewritten {l} {n} is same each) = rw is (
      subst
        (λ t.
          Yields (λ m. eval (reading row c) m ≡ truth_not t) (negate_node (negate_leaf c deep k) n))
        same
        (negate_node-Against (reading row c) (negate_leaf c deep k) n
          (λ m at. negate_leaf-Negated k (each m at))))

-- What `negate` gives for a domain selects the records that the domain does not, provided that
-- `optimize_leaf` leaves each leaf as it is or rewrites it to what selects the same records, and that
-- a field has one slot unless it is related over a field of several records, and one value at most
-- where it is stored or related over such fields and no relation to many. What a negative operator
-- other than `not any` selects of a field with several slots is left open, and an inequality asks for
-- one of its values.
pub eval-negate :
    (row : Row) (c : Context) (deep : ℕ) (n : Node) {m : Node}
    → Fits row c
    → ((l : Leaf) → Member l (leaves n) → Sound row c l)
    → negate c deep n ≡ done m
    → eval (reading row c) m ≡ truth_not (eval (reading row c) n)
unfolding negate eval
eval-negate row c deep n fits sound went =
    subst (Yields (λ m. eval (reading row c) m ≡ truth_not (eval (reading row c) n))) went (
      negate_node-Against (reading row c) (negate_leaf c deep 5) n
        (λ l at. negate_leaf-Negated row c fits deep 5 (sound l at)))
