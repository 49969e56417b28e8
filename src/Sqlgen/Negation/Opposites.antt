-- ===== src/Sqlgen/Negation/Opposites.antt =====
-- kernel/src/sqlgen.rs: the operators that `negate_leaf` puts for each other select opposite records.
use odoo_rust_orm.Prelude.{
  some-injective, ℕ, Bool, true, false, not, all, List, [], ◌∷◌, Option, none, some, Bytes,
  bytes_eq, bytes_eq_iff, ◌==◌, ◌≡◌, refl, sym, arith, Bool-cases, inl, inr, subst,
}
use odoo_rust_orm.Assoc.{lookup, name_key}
use odoo_rust_orm.Json.{Json}
use odoo_rust_orm.ReadRules.{split_once}
use odoo_rust_orm.Sqlgen.Days.{is_order}
use odoo_rust_orm.Sqlgen.Class.{Context}
use odoo_rust_orm.Sqlgen.Leaves.Ends.{and_split}
use odoo_rust_orm.Sqlgen.Negation.{
  target_field, flips, flipped, inversions, inverse_inequality, positive_operator,
}
use odoo_rust_orm.Sqlgen.Negation.Rows.{
  Row, plain_op, by_polarity, compare_keys, compared, is_alone, falsy_value, selects, on_field,
}

split_on :
    (ch : ℕ) (o : Option (Bytes × Bytes)) {p : Bytes × Bytes}
    → (ch == b'.') ≡ false
    → ((r : Bytes × Bytes) → o ≡ some r → split_once r.0 ≡ none)
    → (elim o [ none ↦ none | some r ↦ some (ch ∷ r.0, r.1) ]) ≡ some p
    → split_once p.0 ≡ none
unfolding split_once
split_on ch none other inner h = cc
split_on ch (some r) other inner h =
    let plain = inner r refl in rw (sym (some-injective h)) (rw (other, plain) refl)

-- The head of a path has no dot.
pub split_once-head :
    (s : Bytes) {p : Bytes × Bytes} → split_once s ≡ some p → split_once p.0 ≡ none
unfolding split_once
split_once-head [] h = cc
split_once-head (ch ∷ s) {p} h = elim (Bool-cases (ch == b'.')) [
  | inl dot ↦ let here : some ([], s) ≡ some p = rw dot at h in rw (sym (some-injective here)) refl
  | inr other ↦ split_on ch (split_once s) other (λ r is. split_once-head s is) (rw other at h)
]

abbrev AllPairs : (Bytes × Bytes → Type 0) → List (Bytes × Bytes) → Type 0
AllPairs P [] = Unit
AllPairs P (e ∷ es) = P e × AllPairs P es

lookup-AllPairs :
    (P : Bytes × Bytes → Type 0) (es : List (Bytes × Bytes)) {op out : Bytes}
    → AllPairs P es
    → lookup op es ≡ some out
    → P (op, out)
unfolding lookup
lookup-AllPairs P [] all h = cc
lookup-AllPairs P (e ∷ es) {op} {out} all h = elim (Bool-cases (bytes_eq e.0 op)) [
  | inl eq ↦
      let same = (bytes_eq_iff e.0 op).0 eq in
      let found : some e.1 ≡ some out = rw eq at h in
      subst (λ o. P (o, out)) same (subst (λ o. P (e.0, o)) (some-injective found) all.0)
  | inr ne ↦ lookup-AllPairs P es all.1 (rw ne at h)
]

not_not : (b : Bool) → b ≡ not (not b)
not_not b = ground arith

-- One of two operators is the positive one of the other.
abbrev opposes : Option Bytes → Option Bytes → Bytes → Bytes → Bool
opposes none (some q) op out = bytes_eq q (plain_op op)
opposes (some q) none op out = bytes_eq q (plain_op out)
opposes _ _ op out = false

abbrev are_opposed : Bytes × Bytes → Bool
are_opposed p = opposes (positive_operator p.0) (positive_operator p.1) p.0 p.1

flips_opposed : all are_opposed flips ≡ true
unfolding positive_operator lookup bytes_eq
flips_opposed = refl

lookup-all :
    (p : Bytes × Bytes → Bool) (es : List (Bytes × Bytes)) {op out : Bytes}
    → all p es ≡ true
    → lookup op es ≡ some out
    → p (op, out) ≡ true
unfolding lookup
lookup-all p [] all h = cc
lookup-all p (e ∷ es) {op} {out} each h =
    let (first, rest) = and_split (p e) (all p es) each in
    elim (Bool-cases (bytes_eq e.0 op)) [
      | inl eq ↦
          let same = (bytes_eq_iff e.0 op).0 eq in
          let found : some e.1 ≡ some out = rw eq at h in
          subst (λ o. p (o, out) ≡ true) same
            (subst (λ o. p (e.0, o) ≡ true) (some-injective found) first)
      | inr ne ↦ lookup-all p es rest (rw ne at h)
    ]

module _ (row : Row) (c : Context) where
  abbrev pub Opposite : Bytes × Bytes → Type 0
  Opposite p =
      (name : Bytes) (v : Json)
      → is_alone row (row.slots name) ≡ true
      → on_field row c p.1 name v ≡ not (on_field row c p.0 name v)

  by_polarity-not :
      (a b : Option Bytes) (op out name : Bytes) (v : Json)
      → opposes a b op out ≡ true
      → is_alone row (row.slots name) ≡ true
      → by_polarity row c b out name v ≡ not (by_polarity row c a op name v)
  by_polarity-not none (some q) op out name v h alone =
      rw (alone, (bytes_eq_iff q (plain_op op)).0 h)
  by_polarity-not (some q) none op out name v h alone =
      rw (alone, (bytes_eq_iff q (plain_op out)).0 h) (not_not _)
  by_polarity-not none none op out name v h alone = cc
  by_polarity-not (some q) (some r) op out name v h alone = cc

  pub flipped-Opposite : (op out : Bytes) → flipped op ≡ some out → Opposite (op, out)
  unfolding on_field flipped
  flipped-Opposite op out is name v alone =
      by_polarity-not (positive_operator op) (positive_operator out) op out name v
        (lookup-all are_opposed flips flips_opposed is) alone

  -- Both operators compare, and what the one is true of the other is false of.
  abbrev pub Inverse : Bytes × Bytes → Type 0
  Inverse p =
      ((name : Bytes) (v : Json)
        → on_field row c p.0 name v
          ≡ compared row p.0 (falsy_value (target_field c name)) (row.slots name) v)
      × ((name : Bytes) (v : Json)
          → on_field row c p.1 name v
            ≡ compared row p.1 (falsy_value (target_field c name)) (row.slots name) v)
      × ((k w : row.Key) → compare_keys row p.1 k w ≡ not (compare_keys row p.0 k w))

  inversions-Inverse : AllPairs Inverse inversions
  unfolding on_field positive_operator lookup bytes_eq selects is_order compare_keys
  inversions-Inverse = (
    ((λ name v. refl), (λ name v. refl), (λ k w. refl)),
    (
      ((λ name v. refl), (λ name v. refl), (λ k w. refl)),
      (
        ((λ name v. refl), (λ name v. refl), (λ k w. not_not _)),
        (((λ name v. refl), (λ name v. refl), (λ k w. not_not _)), tt),
      ),
    ),
  )

  pub inverse_inequality-Inverse :
      (op out : Bytes) → inverse_inequality op ≡ some out → Inverse (op, out)
  unfolding inverse_inequality
  inverse_inequality-Inverse op out is = lookup-AllPairs Inverse inversions inversions-Inverse is
