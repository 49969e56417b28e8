-- ===== src/Registry/Load/Collected.antt =====
-- kernel/src/registry.rs: what the loop of `Registry::load_security` leaves of the rows, per model.
use odoo_rust_orm.Prelude.{
  ℕ, ◌≡◌, sym, ap, ◌∙◌, Bool, true, false, not, ◌&&◌, List, [], ◌∷◌, ◌++◌, Bytes, bytes_eq,
  bytes_eq_iff, flat_map, if◌then◌else◌, Bool-cases, inl, inr, append-nil, append_assoc,
}
use odoo_rust_orm.Assoc.{lookup, name_key}
use odoo_rust_orm.Access.Rows.{Rule}
use odoo_rust_orm.Access.Grants.{DenyingGuard}
use odoo_rust_orm.Reach.{Reach}
use odoo_rust_orm.RuleExpr.{PyExpr}
use odoo_rust_orm.RuleExpr.Chars.{Std}
use odoo_rust_orm.Registry.Load.{
  Row, never, rule_of, extend_at, listed_at, Loaded, denial_of, load_row, load_rows,
}

abbrev pub unloaded : Loaded
unloaded = record { access = []; denying_guards = []; rules = [] }

abbrev only {ℓ} : {A : Type ℓ} → Bool → A → List A
only b a = if b then a ∷ [] else []

differ : (k a j : Bytes) → a ≡ k → bytes_eq a j ≡ false → bytes_eq j k ≡ false
differ k a j here ne = elim (Bool-cases (bytes_eq j k)) [
  | inl eq ↦
      let same = (bytes_eq_iff j k).0 eq in let yes = (bytes_eq_iff a j).1 (here ∙ sym same) in cc
  | inr other ↦ other
]

module _ {V : Type 0} (k : Bytes) where
  listed_at-extend_at :
      (j : Bytes) (more : List V) (es : List (Bytes × List V))
      → listed_at k (extend_at j more es) ≡ listed_at k es ++ (if bytes_eq j k then more else [])
  unfolding listed_at extend_at lookup
  listed_at-extend_at j more [] = elim (Bool-cases (bytes_eq j k)) [
    | inl eq ↦ rw eq
    | inr ne ↦ rw ne
  ]
  listed_at-extend_at j more (e ∷ es) = elim (Bool-cases (bytes_eq e.0 j)) [
    | inl own ↦
        let same = (bytes_eq_iff e.0 j).0 own in
        elim (Bool-cases (bytes_eq j k)) [
          | inl eq ↦ let hit : bytes_eq e.0 k ≡ true = rw same eq in rw (own, hit, eq)
          | inr ne ↦
              let miss : bytes_eq e.0 k ≡ false = rw same ne in
              rw (own, miss, ne) (sym (append-nil (listed_at k es)))
        ]
    | inr not_own ↦ elim (Bool-cases (bytes_eq e.0 k)) [
      | inl hit ↦
          let here = (bytes_eq_iff e.0 k).0 hit in
          let ne : bytes_eq j k ≡ false = differ k e.0 j here not_own in
          rw (not_own, hit, ne) (sym (append-nil e.1))
      | inr miss ↦ rw (not_own, miss) (listed_at-extend_at j more es)
    ]
  ]

  listed_at-only :
      (j : Bytes) (b : Bool) (v : V) (es : List (Bytes × List V))
      → listed_at k (if b then extend_at j (v ∷ []) es else es)
        ≡ listed_at k es ++ only (bytes_eq j k && b) v
  listed_at-only j true v es = elim (Bool-cases (bytes_eq j k)) [
    | inl eq ↦ listed_at-extend_at j (v ∷ []) es ∙ rw eq
    | inr ne ↦ listed_at-extend_at j (v ∷ []) es ∙ rw ne
  ]
  listed_at-only j false v es = elim (Bool-cases (bytes_eq j k)) [
    | inl eq ↦ rw eq (sym (append-nil (listed_at k es)))
    | inr ne ↦ rw ne (sym (append-nil (listed_at k es)))
  ]

module _ (std : Std) (model : Bytes) where
  abbrev pub rules_of : List Row → List (Rule PyExpr Reach)
  rules_of rows =
      flat_map (λ row. only (bytes_eq (Row.model row) model && true) (rule_of std row)) rows

  -- The groups of the permissions that grant something.
  abbrev pub grants_of : List Row → List ℕ
  grants_of rows =
      flat_map
        (λ row.
          only (bytes_eq (Row.model row) model && (not (Row.guard row) && not (never std row)))
            (Row.group row))
        rows

  -- The guards that admit nothing.
  abbrev pub denials_of : List Row → List DenyingGuard
  denials_of rows =
      flat_map
        (λ row.
          only (bytes_eq (Row.model row) model && (Row.guard row && never std row)) (denial_of row))
        rows

  record Collected (rows : List Row) (before after : Loaded) : Type 0 where
    pub rules : listed_at model after.rules ≡ listed_at model before.rules ++ rules_of rows
    pub access : listed_at model after.access ≡ listed_at model before.access ++ grants_of rows
    pub denials :
        listed_at model after.denying_guards
        ≡ listed_at model before.denying_guards ++ denials_of rows

  load_rows-from : (rows : List Row) (s : Loaded) → Collected rows s (load_rows std rows s)
  unfolding load_rows load_row
  load_rows-from [] s = record {
    rules = sym (append-nil (listed_at model s.rules));
    access = sym (append-nil (listed_at model s.access));
    denials = sym (append-nil (listed_at model s.denying_guards));
  }
  load_rows-from (row ∷ rows) s =
      let rest = load_rows-from rows (load_row std row s) in
      record {
        rules =
            rest.rules
            ∙ ap (λ l. l ++ rules_of rows)
                (listed_at-only model row.model true (rule_of std row) s.rules)
            ∙ append_assoc (listed_at model s.rules) _ (rules_of rows);
        access =
            rest.access
            ∙ ap (λ l. l ++ grants_of rows)
                (listed_at-only model row.model (not row.guard && not (never std row)) row.group
                  s.access)
            ∙ append_assoc (listed_at model s.access) _ (grants_of rows);
        denials =
            rest.denials
            ∙ ap (λ l. l ++ denials_of rows)
                (listed_at-only model row.model (row.guard && never std row) (denial_of row)
                  s.denying_guards)
            ∙ append_assoc (listed_at model s.denying_guards) _ (denials_of rows);
      }

-- The rules of a model are those of its rows, in their order; its access is that of the permissions
-- whose domain is not literally FALSE, and the guards whose domain is literally FALSE deny it.
pub load_rows-Collected :
    (std : Std) (rows : List Row) (model : Bytes)
    → (listed_at model (load_rows std rows unloaded).rules ≡ rules_of std model rows)
      × (listed_at model (load_rows std rows unloaded).access ≡ grants_of std model rows)
      × (listed_at model (load_rows std rows unloaded).denying_guards ≡ denials_of std model rows)
unfolding listed_at
load_rows-Collected std rows model =
    let all = load_rows-from std model rows unloaded in (all.rules, all.access, all.denials)
