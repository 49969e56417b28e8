-- ===== src/Tests/Bills.antt =====
-- A model of bills with lines, and one bill, for the negations of kernel/src/sqlgen.rs.
use odoo_rust_orm.Prelude.{
  some-injective, ℕ, true, false, ltb, ◌==◌, [], ◌∷◌, none, some, ◌≡◌, ◌≢◌, refl, codes, bytes_eq,
  bytes_eq_iff, Bytes, Bool-cases, inl, inr, subst, sym, ◌∙◌, List, if◌then◌else◌,
}
use odoo_rust_orm.Assoc.{lookup, name_key}
use odoo_rust_orm.Json.{Json, number, pos_int}
use odoo_rust_orm.Registry.Fields.{one2many, date, integer, Field, Model}
use odoo_rust_orm.RuleExpr.Parser.{split}
use odoo_rust_orm.Sqlgen.Paths.{is_x2many, init}
use odoo_rust_orm.Sqlgen.Class.{Context}
use odoo_rust_orm.Sqlgen.Negation.Rows.{Row}
use odoo_rust_orm.Sqlgen.Negation.Hops.{ThroughMany, OneEach, stored, related}
use odoo_rust_orm.Sqlgen.Negation.Fits.{Single, Fits}
use odoo_rust_orm.Tests.Sources.{partner_field, users_model}
use odoo_rust_orm.Tests.Rewrites.{context}

abbrev pub amount : Field
amount = record partner_field {
  name = codes "amount";
  ttype = integer;
  relation = none;
  falsy = some (number (pos_int 0));
}

abbrev pub due : Field
due = record partner_field { name = codes "due"; ttype = date; relation = none }

abbrev pub lines : Field
lines = record partner_field {
  name = codes "lines";
  ttype = one2many;
  one2one = some false;
  stored = false;
}

abbrev pub line_amount : Field
line_amount = record amount {
  name = codes "line_amount";
  stored = false;
  has_column = false;
  related = some (codes "lines.amount");
}

-- A bill has an amount, a day on which it is due, lines, and the amounts of the lines.
abbrev pub bills : Model
bills = record users_model {
  fields =
      (codes "amount", amount)
      ∷ (codes "due", due)
      ∷ (codes "line_amount", line_amount)
      ∷ (codes "lines", lines)
      ∷ [];
}

abbrev pub on_bills : Context
on_bills = record context { models = λ name. some bills; model = bills }

abbrev pub numbered : ℕ → Json
numbered n = number (pos_int n)

-- A bill of three that is not due.
abbrev pub key_of : Json → ℕ
key_of (number (pos_int n)) = n
key_of _ = 0

-- Its lines are of three and of nine.
abbrev slots_of : Bytes → List (List ℕ)
slots_of name =
    if bytes_eq (codes "line_amount") name
    then (3 ∷ []) ∷ (9 ∷ []) ∷ []
    else if bytes_eq (codes "amount") name
    then (3 ∷ []) ∷ []
    else [] ∷ []

abbrev pub bill : Row
bill = record {
  Key = ℕ;
  slots = λ name. slots_of name;
  key = λ v. key_of v;
  less = λ a b. ltb a b;
  is_member = λ k v. k == key_of v;
  matches = λ op name v. false;
  beside = λ op name v. true;
}

other-Single : (name : Bytes) → bytes_eq (codes "line_amount") name ≡ false → Single bill name
other-Single name other = elim (Bool-cases (bytes_eq (codes "amount") name)) [
  | inl e ↦ (some 3, rw (other, e) refl)
  | inr e ↦ (none, rw (other, e) refl)
]

line_amount_found :
    (name : Bytes)
    → bytes_eq (codes "line_amount") name ≡ true
    → lookup name bills.fields ≡ some line_amount
unfolding lookup bytes_eq
line_amount_found name same =
    subst (λ n. lookup n bills.fields ≡ some line_amount)
      ((bytes_eq_iff (codes "line_amount") name).0 same) refl

lines_found : lookup (codes "lines") bills.fields ≡ some lines
unfolding lookup bytes_eq
lines_found = refl

line_amount_is :
    (name : Bytes) {f : Field}
    → bytes_eq (codes "line_amount") name ≡ true
    → lookup name bills.fields ≡ some f
    → line_amount ≡ f
line_amount_is name same found = some-injective (sym (line_amount_found name same) ∙ found)

not_one : {f : Field} → lookup (codes "lines") bills.fields ≡ some f → is_x2many f.ttype ≢ false
not_one {f} found one =
    let same : lines ≡ f = some-injective (sym lines_found ∙ found) in
    let wrong : true ≡ false = subst (λ g. is_x2many g.ttype ≡ false) (sym same) one in cc

not_each : ¬ OneEach on_bills bills (codes "lines" ∷ codes "amount" ∷ [])
not_each (stored found one held go later) = not_one found one
not_each (related found one is path go later) = not_one found one

line_amount_several :
    (name : Bytes)
    → bytes_eq (codes "line_amount") name ≡ true
    → ¬ OneEach on_bills bills (name ∷ [])
unfolding split
line_amount_several name same (stored {f = f} found one held go later) =
    let wrong : false ≡ true =
      subst (λ g. g.stored ≡ true) (sym (line_amount_is name same found)) held in
    cc
line_amount_several name same (related {f = f} {rel = rel} found one is path go later) =
    let named : some (codes "lines.amount") ≡ some rel =
      subst (λ g. g.related ≡ some rel) (sym (line_amount_is name same found)) is in
    not_each (subst (λ r. OneEach on_bills bills (split b'.' r)) (sym (some-injective named)) path)

through_lines : ThroughMany on_bills line_amount
unfolding split init
through_lines = (codes "lines.amount", refl, (lines, lines_found, inl (inr (refl, λ h. cc))))

pub bill-Fits : Fits bill on_bills
unfolding lookup bytes_eq
bill-Fits = record {
  unknown = λ name unknown. other-Single name (unnamed name unknown);
  over_one = λ name f found plain. elim (Bool-cases (bytes_eq (codes "line_amount") name)) [
    | inl same ↦
        absurd (
          plain
            (subst (λ g. ThroughMany on_bills g) (line_amount_is name same found) through_lines))
    | inr other ↦ let (o, slots) = other-Single name other in rw slots refl
  ];
  one_value = λ name each. elim (Bool-cases (bytes_eq (codes "line_amount") name)) [
    | inl same ↦ absurd (line_amount_several name same each)
    | inr other ↦ other-Single name other
  ];
}
  where
    unnamed :
        (name : Bytes)
        → lookup name bills.fields ≡ none
        → bytes_eq (codes "line_amount") name ≡ false
    unnamed name h = elim (Bool-cases (bytes_eq (codes "line_amount") name)) [
      | inl same ↦ let wrong : some line_amount ≡ none = sym (line_amount_found name same) ∙ h in cc
      | inr other ↦ other
    ]
