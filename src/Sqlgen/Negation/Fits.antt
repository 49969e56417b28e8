-- ===== src/Sqlgen/Negation/Fits.antt =====
-- kernel/src/sqlgen.rs: what is asked of a record whose leaves `negate_leaf` negates.
use odoo_rust_orm.Prelude.{ℕ, true, List, [], ◌∷◌, Option, none, some, Bytes, ◌≡◌, refl}
use odoo_rust_orm.Assoc.{lookup, name_key}
use odoo_rust_orm.Registry.Fields.{Field}
use odoo_rust_orm.RuleExpr.Parser.{done, of_result}
use odoo_rust_orm.Sqlgen.Class.{Context}
use odoo_rust_orm.Sqlgen.Patterns.{negates_by_operator, negates}
use odoo_rust_orm.Sqlgen.Negation.{one_value}
use odoo_rust_orm.Sqlgen.Negation.Rows.{Row, is_alone}
use odoo_rust_orm.Sqlgen.Negation.Hops.{
  ThroughMany, OneEach, ended, of_result-eq-done, negates_by_operator-ThroughMany,
  searches_one_value-OneEach,
}

-- What is asked of a record: a field has one slot unless it is related over a field of several
-- records, and a slot with one value at most where it holds one; so has a name of no field.
module _ (row : Row) where
  abbrev pub slot_of : Option row.Key → List row.Key
  slot_of none = []
  slot_of (some k) = k ∷ []

  abbrev pub Single : Bytes → Type 0
  Single name = (o : Option row.Key) × (row.slots name ≡ slot_of o ∷ [])

pub record Fits (row : Row) (c : Context) : Type 0 where
  pub unknown : (name : Bytes) → lookup name c.model.fields ≡ none → Single row name
  pub over_one :
      (name : Bytes) (f : Field)
      → lookup name c.model.fields ≡ some f
      → ¬ ThroughMany c f
      → is_alone row (row.slots name) ≡ true
  pub one_value : (name : Bytes) → OneEach c c.model (name ∷ []) → Single row name

module _ (row : Row) (c : Context) (fits : Fits row c) (name : Bytes) where
  negates-alone :
      (o : Option Field)
      → lookup name c.model.fields ≡ o
      → of_result (negates c o) ≡ done true
      → is_alone row (row.slots name) ≡ true
  negates-alone none is h = let (o, slots) = fits.unknown name is in rw slots refl
  negates-alone (some f) is h =
      fits.over_one name f is
        (negates_by_operator-ThroughMany c f (of_result-eq-done (negates_by_operator c f) h))

  -- A field whose leaves are negated by the operator has one slot.
  pub negates-is_alone :
      of_result (negates c (lookup name c.model.fields)) ≡ done true
      → is_alone row (row.slots name) ≡ true
  negates-is_alone h = negates-alone (lookup name c.model.fields) refl h

  one_value_single :
      (deep : ℕ) (o : Option Field)
      → lookup name c.model.fields ≡ o
      → one_value c deep o ≡ done true
      → Single row name
  one_value_single deep none is h = fits.unknown name is
  one_value_single deep (some f) is h =
      fits.one_value name
        (searches_one_value-OneEach c deep c.model c.model f name [] h is refl ended)

  -- A field whose inequalities are inverted has one slot, of one value at most.
  pub one_value-Single :
      (deep : ℕ) → one_value c deep (lookup name c.model.fields) ≡ done true → Single row name
  one_value-Single deep h = one_value_single deep (lookup name c.model.fields) refl h
