-- ===== src/Sqlgen/Negation/Hops.antt =====
-- kernel/src/sqlgen.rs: the fields that hold one value, by the fields of their related paths, and that
-- `negates_by_operator` and `searches_one_value` accept no others.
use odoo_rust_orm.Prelude.{
  ℕ, zero, suc, Bool, true, false, List, [], ◌∷◌, Option, none, some, Bytes, ◌≡◌, refl, arith, ◌⊎◌,
  inl, inr, Bool-cases, subst, ap, ◌∙◌, if◌then◌else◌,
}
use odoo_rust_orm.Assoc.{lookup, name_key}
use odoo_rust_orm.Error.{Result, ok-injective, ok, err, >>=-eq-ok, refuse}
use odoo_rust_orm.Registry.Fields.{FieldType, one2many, many2many, Field, Model, comodel, required}
use odoo_rust_orm.RuleExpr.Parser.{Outcome, done, failed, out_of_fuel, ◌>>=◌, of_result, split}
use odoo_rust_orm.Sqlgen.Paths.{is_x2many, init}
use odoo_rust_orm.Sqlgen.Class.{Context}
use odoo_rust_orm.Sqlgen.Patterns.{multivalued, any_multivalued, related_hops, negates_by_operator}
use odoo_rust_orm.Sqlgen.Negation.{step_model, all_one_value, searches_one_value}

-- A field over which several records may be reached: not a one2many known to be one2one.
abbrev pub ManyValued : Field → Type 0
ManyValued hop = (hop.ttype ≡ many2many) ⊎ ((hop.ttype ≡ one2many) × ¬ (hop.one2one ≡ some true))

module _ (c : Context) where
  -- A path over such a field.
  abbrev pub Crosses : Model → List Bytes → Type 0
  Crosses m [] = ⊥
  Crosses m (step ∷ steps) =
      (hop : Field) × (lookup step m.fields ≡ some hop)
      × (ManyValued hop
          ⊎ ((co : Bytes) × (next : Model) × (comodel hop ≡ ok co)
              × (c.models co ≡ some next)
              × Crosses next steps))

  abbrev pub ThroughMany : Field → Type 0
  ThroughMany f = (rel : Bytes) × (f.related ≡ some rel) × Crosses c.model (init (split b'.' rel))

  -- A path of fields that hold one value each: stored, or related over such a path, and no relation
  -- to many.
  pub data OneEach : Model → List Bytes → Type 0 where
    ended : {m : Model} → OneEach m []
    stored :
        {m next : Model} {f : Field} {step : Bytes} {rest : List Bytes}
        → lookup step m.fields ≡ some f
        → is_x2many f.ttype ≡ false
        → f.stored ≡ true
        → step_model c m f rest ≡ done next
        → OneEach next rest
        → OneEach m (step ∷ rest)
    related :
        {m next : Model} {f : Field} {step rel : Bytes} {rest : List Bytes}
        → lookup step m.fields ≡ some f
        → is_x2many f.ttype ≡ false
        → f.related ≡ some rel
        → OneEach m (split b'.' rel)
        → step_model c m f rest ≡ done next
        → OneEach next rest
        → OneEach m (step ∷ rest)

multivalued-ManyValued :
    (t : FieldType) (one : Option Bool)
    → multivalued t one ≡ ok false
    → ¬ ((t ≡ many2many) ⊎ ((t ≡ one2many) × ¬ (one ≡ some true)))
unfolding multivalued
multivalued-ManyValued many2many one h many = cc
multivalued-ManyValued one2many none h many = cc
multivalued-ManyValued one2many (some true) h (inl e) = cc
multivalued-ManyValued one2many (some true) h (inr (e, several)) = several refl
multivalued-ManyValued one2many (some false) h many = cc
multivalued-ManyValued _ one h (inl e) = cc
multivalued-ManyValued _ one h (inr (e, several)) = cc

any_multivalued-cons :
    (hop : Field) (hops : List Field)
    → any_multivalued (hop ∷ hops) ≡ ok false
    → (multivalued hop.ttype hop.one2one ≡ ok false) × (any_multivalued hops ≡ ok false)
unfolding any_multivalued
any_multivalued-cons hop hops h =
    let (many, is, rest) = >>=-eq-ok (multivalued hop.ttype hop.one2one) _ h in
    elim (Bool-cases many) [
      | inl e ↦ let wrong : ok true ≡ ok false = rw e at rest in cc
      | inr e ↦ (rw e at is, rw e at rest)
    ]

>>=-eq-done {ℓ κ} :
    {A : Type ℓ} {B : Type κ} (m : Outcome A) (next : A → Outcome B) {b : B}
    → (m >>= next) ≡ done b
    → (a : A) × (m ≡ done a) × (next a ≡ done b)
>>=-eq-done (done a) next h = (a, refl, h)
>>=-eq-done (failed chain) next h = cc
>>=-eq-done out_of_fuel next h = cc

pub of_result-eq-done {ℓ} : {A : Type ℓ} (r : Result A) {a : A} → of_result r ≡ done a → r ≡ ok a
of_result-eq-done (ok a) h = cc
of_result-eq-done (err chain) h = cc

required-eq-ok {ℓ} : {A : Type ℓ} (o : Option A) {a : A} → required o ≡ ok a → o ≡ some a
required-eq-ok none h = cc
required-eq-ok (some a) h = cc

module _ (c : Context) where
  related_hops-Crosses :
      (m : Model) (steps : List Bytes) {hops : List Field}
      → related_hops c m steps ≡ ok hops
      → any_multivalued hops ≡ ok false
      → ¬ Crosses c m steps
  unfolding related_hops
  related_hops-Crosses m [] h plain crosses = crosses
  related_hops-Crosses m (step ∷ steps) {hops} h plain (hop, found, crossed) =
      let (next, reached, h') =
        >>=-eq-ok (odoo_rust_orm.Error.◌>>=◌ (comodel hop) (λ co. required (c.models co))) _
          (rw found at h) in
      let (later, is, built) = >>=-eq-ok (related_hops c next steps) _ h' in
      let (alone, others) =
        any_multivalued-cons hop later (ap any_multivalued (ok-injective built) ∙ plain) in
      elim crossed [
        | inl many ↦ multivalued-ManyValued hop.ttype hop.one2one alone many
        | inr (co, to, is_co, is_to, deeper) ↦
            let same : ok to ≡ ok next = rw (is_co, is_to) at reached in
            related_hops-Crosses next steps is others
              (subst (λ n. Crosses c n steps) (ok-injective same) deeper)
      ]

  pub negates_by_operator-ThroughMany :
      (f : Field) → negates_by_operator c f ≡ ok true → ¬ ThroughMany c f
  unfolding negates_by_operator
  negates_by_operator-ThroughMany f h (rel, is, crosses) =
      let (hops, found, h') =
        >>=-eq-ok (related_hops c c.model (init (split b'.' rel))) _ (rw is at h) in
      let (many, judged, h'') = >>=-eq-ok (any_multivalued hops) _ h' in
      let plain : many ≡ false = ground arith in
      related_hops-Crosses c.model (init (split b'.' rel)) found (judged ∙ ap ok plain) crosses

  all_one_value-OneEach :
      (judge : Model → Field → Outcome Bool)
      → ((m next : Model) (f : Field) (step : Bytes) (rest : List Bytes)
          → judge m f ≡ done true
          → lookup step m.fields ≡ some f
          → step_model c m f rest ≡ done next
          → OneEach c next rest
          → OneEach c m (step ∷ rest))
      → (m : Model) (steps : List Bytes) → all_one_value c judge m steps ≡ done true
      → OneEach c m steps
  unfolding all_one_value
  all_one_value-OneEach judge each m [] h = ended
  all_one_value-OneEach judge each m (step ∷ rest) h =
      let (f, found, h') = >>=-eq-done (of_result (required (lookup step m.fields))) _ h in
      let (one, searched, h'') = >>=-eq-done (judge m f) _ h' in
      let yes : one ≡ true = one_of one _ h'' in
      let (next, go, later) = >>=-eq-done (step_model c m f rest) _ (rw yes at h'') in
      each m next f step rest (searched ∙ ap done yes)
        (required-eq-ok (lookup step m.fields)
          (of_result-eq-done (required (lookup step m.fields)) found))
        go (all_one_value-OneEach judge each next rest later)
    where
      one_of : (b : Bool) (o : Outcome Bool) → (if b then o else done false) ≡ done true → b ≡ true
      one_of true o e = refl
      one_of false o e = cc

  pub searches_one_value-OneEach :
      (deep : ℕ) (m next : Model) (f : Field) (step : Bytes) (rest : List Bytes)
      → searches_one_value c deep m f ≡ done true
      → lookup step m.fields ≡ some f
      → step_model c m f rest ≡ done next
      → OneEach c next rest
      → OneEach c m (step ∷ rest)
  unfolding searches_one_value
  searches_one_value-OneEach zero m next f step rest h found go later = cc
  searches_one_value-OneEach (suc deep) m next f step rest h found go later =
      elim (Bool-cases (is_x2many f.ttype)) [
        | inl many ↦ let wrong : done false ≡ done true = rw many at h in cc
        | inr single ↦ elim (Bool-cases f.stored) [
          | inl held ↦ stored found single held go later
          | inr unheld ↦
              over_related single
                (λ rel.
                  all_one_value-OneEach (searches_one_value c deep)
                    (searches_one_value-OneEach deep) m (split b'.' rel))
                f.related refl (rw (single, unheld) at h)
        ]
      ]
    where
      over_related :
          is_x2many f.ttype ≡ false
          → ((rel : Bytes)
              → all_one_value c (searches_one_value c deep) m (split b'.' rel) ≡ done true
              → OneEach c m (split b'.' rel))
          → (o : Option Bytes) → f.related ≡ o
          → (elim o [
            | none ↦ done false
            | some rel ↦ all_one_value c (searches_one_value c deep) m (split b'.' rel)
          ])
            ≡ done true
          → OneEach c m (step ∷ rest)
      over_related single each none is h = cc
      over_related single each (some rel) is h = related found single is (each rel h) go later
