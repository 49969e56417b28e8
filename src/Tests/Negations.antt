-- ===== src/Tests/Negations.antt =====
-- Runs of `negate` of kernel/src/sqlgen.rs, and its theorems at a concrete domain.
use odoo_rust_orm.Prelude.{
  false, [], ◌∷◌, none, some, ◌≡◌, ◌≢◌, refl, codes, bytes_eq, Bytes, Member, here, there,
}
use odoo_rust_orm.Error.{ok}
use odoo_rust_orm.Assoc.{lookup, name_key}
use odoo_rust_orm.Json.{Json, bool, array, nil, cons}
use odoo_rust_orm.Domain.{Leaf, Node, and, or, not, leaf, of_nodes}
use odoo_rust_orm.Domain.Internal.{leaves}
use odoo_rust_orm.Domain.Junctions.{value}
use odoo_rust_orm.Domain.Meaning.{truth_not, eval}
use odoo_rust_orm.ReadRules.{split_once}
use odoo_rust_orm.RuleExpr.Parser.{done, out_of_fuel, split}
use odoo_rust_orm.Registry.Fields.{comodel}
use odoo_rust_orm.Sqlgen.Patterns.{related_hops, any_multivalued, multivalued}
use odoo_rust_orm.Sqlgen.Paths.{
  stops, passage, go_on, at_field, normalize_rounds, normalize_path, path_target, init,
}
use odoo_rust_orm.Sqlgen.Days.{is_order}
use odoo_rust_orm.Sqlgen.Leaves.{optimize_leaf}
use odoo_rust_orm.Sqlgen.Negation.{
  flipped, inverse_inequality, positive_operator, last, negate_node, negate_nodes, all_one_value,
  searches_one_value, target_field, negate_kept, negate_leaf, negate,
}
use odoo_rust_orm.Sqlgen.Negation.Ended.{negate-ne-out_of_fuel}
use odoo_rust_orm.Sqlgen.Negation.Rows.{selects, on_field, satisfied, reading}
use odoo_rust_orm.Sqlgen.Negation.Domains.{Sound, kept, rewritten, eval-negate}
use odoo_rust_orm.Tests.Bills.{on_bills, numbered, bill, bill-Fits}
use odoo_rust_orm.Tests.Rewrites.{optimizing, calendar-Blankless}

negating : Unit {0}
unfolding optimizing split stops passage go_on at_field normalize_rounds normalize_path path_target
    init flipped inverse_inequality last negate_node negate_nodes all_one_value searches_one_value
    target_field negate_kept negate_leaf negate
negating = tt

abbrev on : Bytes → Bytes → Json → Node
on name op v = leaf (record { field = name; op = op; value = v })

abbrev only : Json → Json
only v = array (cons v nil)

-- amount = 5, due < 7 and line_amount < 7
abbrev bill_domain : Node
bill_domain = and (
    of_nodes (
      on (codes "amount") (codes "=") (numbered 5)
      ∷ on (codes "due") (codes "<") (numbered 7)
      ∷ on (codes "line_amount") (codes "<") (numbered 7)
      ∷ []))

abbrev bill_negation : Node
bill_negation = or (
    of_nodes (
      on (codes "amount") (codes "not in") (only (numbered 5))
      ∷ or (
          of_nodes (
            on (codes "due") (codes "in") (only (bool false))
            ∷ on (codes "due") (codes ">=") (numbered 7)
            ∷ []))
      ∷ not (on (codes "line_amount") (codes "<") (numbered 7))
      ∷ []))

negations :
    (negate on_bills 2 bill_domain ≡ done bill_negation)
    × (negate on_bills 2 (on (codes "amount") (codes ">") (numbered 7))
        ≡ done (on (codes "amount") (codes "<=") (numbered 7)))
    × (negate on_bills 2 (not bill_domain) ≡ done bill_domain)
    × (negate on_bills 2 (on (codes "line_amount") (codes "in") (only (numbered 3)))
        ≡ done (not (on (codes "line_amount") (codes "in") (only (numbered 3)))))
unfolding negating related_hops comodel any_multivalued multivalued
negations = (refl, refl, refl, refl)

negate-ne-out_of_fuel_example : negate on_bills 2 bill_domain ≢ out_of_fuel
negate-ne-out_of_fuel_example =
    negate-ne-out_of_fuel on_bills 2 calendar-Blankless
      (unfold negating in (tt, (tt, (tt, (tt, tt))))) bill_domain

one_member : (P : Leaf → Type 0) {x : Leaf} → P x → (m : Leaf) → Member m (x ∷ []) → P m
one_member P p m here = p
one_member P p m (there at) = elim at [ ]

two_members :
    (P : Leaf → Type 0) {x y : Leaf} → P x → P y → (m : Leaf) → Member m (x ∷ y ∷ []) → P m
two_members P p q m here = p
two_members P p q m (there at) = one_member P q m at

three_members :
    (P : Leaf → Type 0) {x y z : Leaf}
    → P x
    → P y
    → P z
    → (m : Leaf) → Member m (x ∷ y ∷ z ∷ [])
    → P m
three_members P p q r m here = p
three_members P p q r m (there at) = two_members P q r m at

abbrev amount_is : Leaf
amount_is = record { field = codes "amount"; op = codes "="; value = numbered 5 }

abbrev amount_in : Leaf
amount_in = record { field = codes "amount"; op = codes "in"; value = only (numbered 5) }

abbrev due_before : Leaf
due_before = record { field = codes "due"; op = codes "<"; value = numbered 7 }

abbrev lines_before : Leaf
lines_before = record { field = codes "line_amount"; op = codes "<"; value = numbered 7 }

optimized :
    (optimize_leaf on_bills amount_is ≡ ok (some (leaf amount_in)))
    × (optimize_leaf on_bills amount_in ≡ ok none)
    × (optimize_leaf on_bills due_before ≡ ok none)
    × (optimize_leaf on_bills lines_before ≡ ok none)
unfolding optimizing
optimized = (refl, refl, refl, refl)

amount_unequal : eval (reading bill on_bills) (leaf amount_in) ≡ reading bill on_bills amount_is
unfolding eval satisfied on_field selects positive_operator lookup bytes_eq is_order split_once
amount_unequal = refl

all-Sound : (l : Leaf) → Member l (leaves bill_domain) → Sound bill on_bills l
unfolding value
all-Sound l at =
    three_members (Sound bill on_bills)
      (rewritten optimized.0 amount_unequal
        (λ m at. one_member (Sound bill on_bills) (kept optimized.1) m at))
      (kept optimized.2) (kept optimized.3) l at

eval-negate_example :
    eval (reading bill on_bills) bill_negation
    ≡ truth_not (eval (reading bill on_bills) bill_domain)
eval-negate_example = eval-negate bill on_bills 2 bill_domain bill-Fits all-Sound negations.0
