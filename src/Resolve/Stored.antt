-- ===== src/Resolve/Stored.antt =====
-- kernel/src/security.rs: the fields that `resolve_name` reads, and the records that it comes to.
use odoo_rust_orm.Prelude.{ℕ, ◌≡◌, refl, ◌⊎◌, inl, inr, Bool, true, false, List, Bytes, Bool-cases}
use odoo_rust_orm.Error.{Result, ok, refuse, >>=-eq-ok}
use odoo_rust_orm.Assoc.{id_key}
use odoo_rust_orm.Registry.Fields.{FieldType, Field, Model, one2many, many2many}
use odoo_rust_orm.Resolve.Hop.{Found, Sources, is_x2many, supported, column_hop, by_relation, hop}

-- A field that the database holds as it is read: a relation to many that is stored, or a column.
pub record Stored (f : Field) : Type 0 where
  pub plain : f.translated ≡ false
  pub shared : f.company_dependent ≡ false
  pub held : ((is_x2many f.ttype ≡ true) × (f.stored ≡ true)) ⊎ (f.has_column ≡ true)

supported-ok :
    (f : Field) → supported f ≡ ok tt → (f.translated ≡ false) × (f.company_dependent ≡ false)
unfolding supported
supported-ok f h = elim (Bool-cases f.translated) [
  | inl t ↦ let no : refuse ≡ ok tt = rw t at h in cc
  | inr t ↦ elim (Bool-cases f.company_dependent) [
    | inl c ↦ let no : refuse ≡ ok tt = rw (t, c) at h in cc
    | inr c ↦ (t, c)
  ]
]

module _ (from : Sources) (name : Bytes) (model : Model) (f : Field) (last mapped : Bool)
    (current : List ℕ) where
  column_hop-held :
      (found : Found) → column_hop from model f last mapped current ≡ ok found → f.has_column ≡ true
  unfolding column_hop
  column_hop-held found h = elim (Bool-cases f.has_column) [
    | inl c ↦ c
    | inr c ↦ let no : refuse ≡ ok found = rw c at h in cc
  ]

  by_relation-held :
      (t : FieldType) (stored : Bool) (one many : Result Found) (found : Found)
      → by_relation t stored one many (column_hop from model f last mapped current) ≡ ok found
      → ((is_x2many t ≡ true) × (stored ≡ true)) ⊎ (f.has_column ≡ true)
  by_relation-held one2many true one many found h = inl (refl, refl)
  by_relation-held many2many true one many found h = inl (refl, refl)
  by_relation-held one2many false one many found h = inr (column_hop-held found h)
  by_relation-held many2many false one many found h = inr (column_hop-held found h)
  by_relation-held _ stored one many found h = inr (column_hop-held found h)

  -- Whatever a step gives was read off a stored relation to many or a column of the model, and off no
  -- translated or company-dependent field.
  pub hop-Stored : (found : Found) → hop from name model f last mapped current ≡ ok found → Stored f
  unfolding hop
  hop-Stored found h =
      let (u, ok_field, rest) = >>=-eq-ok (supported f) _ h in
      let (plain, shared) = supported-ok f ok_field in
      record {
        plain = plain;
        shared = shared;
        held = by_relation-held f.ttype f.stored _ _ found rest;
      }
