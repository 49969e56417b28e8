-- ===== src/Sqlgen/Paths/Walked.antt =====
-- kernel/src/sqlgen.rs: a path that `normalize_path` gives can be walked, and `path_target` finds the
-- model of its last name.
use mathlib.Core.List.{reverse-cons}
use odoo_rust_orm.Prelude.{
  ℕ, zero, suc, Bool, true, false, not, List, [], ◌∷◌, ◌++◌, reverse, Option, none, some, Bytes,
  codes, bytes_eq_iff, ◌≡◌, refl, sym, ◌∙◌, append_assoc, append-nil, arith, Bool-cases, inl, inr,
  some-injective,
}
use odoo_rust_orm.Error.{Result, ok, >>=-eq-ok, ok-injective}
use odoo_rust_orm.Assoc.{lookup, name_key}
use odoo_rust_orm.Registry.Fields.{Field, Model, required}
use odoo_rust_orm.RuleExpr.Parser.{split}
use odoo_rust_orm.Sqlgen.Paths.{
  is_last, stops, Passage, expands, passes, cannot, passage_of, passage, is_x2many, next_model,
  go_on, at_field, normalize_rounds, normalize_path, path_target, init,
}

split-is_last : (sep : ℕ) (cs : Bytes) → is_last (split sep cs) ≡ false
unfolding split
split-is_last sep [] = refl
split-is_last sep (c ∷ cs) = ground arith

-- The field's values can be searched where it stands: it has a column, or it is an x2many that is no
-- related field.
pub data Direct (f : Field) : Type 0 where
  by_column : f.has_column ≡ true → Direct f
  by_rows : f.related ≡ none → is_x2many f.ttype ≡ true → Direct f

passage-Direct : (f : Field) → passage f ≡ passes → Direct f
unfolding passage
passage-Direct f h = direct f.has_column f.related refl refl h
  where
    direct :
        (column : Bool) (related : Option Bytes)
        → f.has_column ≡ column
        → f.related ≡ related
        → passage_of column related f.ttype ≡ passes
        → Direct f
    direct true related here is h = by_column here
    direct false (some rel) here is h = cc
    direct false none here is h = by_rows is (ground arith)

module _ (models : Bytes → Option Model) where
  -- From a model along the names of a path: each is a field that can be searched, and a name before the last is relational. `display_name` may end a path that
  -- has passed another name.
  pub data Walks : Bool → Bytes → List Bytes → Type 0 where
    nowhere : {moved : Bool} {model : Bytes} → Walks moved model []
    shown :
        {model : Bytes} {m : Model}
        → models model ≡ some m
        → Walks true model (codes "display_name" ∷ [])
    last :
        {moved : Bool} {model name : Bytes} {m : Model} {f : Field}
        → models model ≡ some m
        → lookup name m.fields ≡ some f
        → Direct f
        → Walks moved model (name ∷ [])
    onward :
        {moved : Bool} {model name next second : Bytes} {m : Model} {f : Field} {rest : List Bytes}
        → models model ≡ some m
        → lookup name m.fields ≡ some f
        → Direct f
        → f.relation ≡ some next
        → Walks true next (second ∷ rest)
        → Walks moved model (name ∷ second ∷ rest)

  -- What the loop has made of the names that were left.
  record Along (model : Bytes) (passed rest out : List Bytes) : Type 0 where
    pub tail : List Bytes
    pub out_is : out ≡ reverse passed ++ tail
    pub walks : Walks (not (is_last passed)) model tail
    pub same_end : is_last tail ≡ is_last rest

  required-ok : {A : Type 0} (o : Option A) {a : A} → required o ≡ ok a → o ≡ some a
  required-ok (some a) h = cc
  required-ok none h = cc

  more_is_last :
      (pieces more : List Bytes) → is_last pieces ≡ false → is_last (pieces ++ more) ≡ false
  more_is_last (p ∷ ps) more h = refl
  more_is_last [] more h = cc

  -- A walk goes on behind a name that is passed.
  walk_on :
      {moved : Bool} {model name next : Bytes} {m : Model} (f : Field) (rest tail : List Bytes)
      → models model ≡ some m
      → lookup name m.fields ≡ some f
      → Direct f
      → is_last tail ≡ is_last rest
      → next_model model f rest ≡ ok next
      → Walks true next tail
      → Walks moved model (name ∷ tail)
  walk_on f [] [] found has way same goes walks = last found has way
  walk_on f (_ ∷ _) (_ ∷ _) found has way same goes walks =
      onward found has way (required-ok f.relation goes) walks
  walk_on f [] (_ ∷ _) found has way same goes walks = cc
  walk_on f (_ ∷ _) [] found has way same goes walks = cc

  walk_shown :
      {model name : Bytes} {m : Model} (rest passed : List Bytes)
      → models model ≡ some m
      → stops name rest passed ≡ true
      → Along model passed (name ∷ rest) (reverse passed ++ name ∷ rest)
  unfolding stops
  walk_shown {name = name} [] (p ∷ ps) found h = record {
    tail = name ∷ [];
    out_is = refl;
    walks = rw ((bytes_eq_iff name (codes "display_name")).0 (ground arith)) (shown found);
    same_end = refl;
  }
  walk_shown [] [] found h = absurd (ground arith)
  walk_shown (_ ∷ _) passed found h = cc

  module _ (next : Bytes → List Bytes → List Bytes → Result (List Bytes))
      (ih : (model : Bytes) (passed rest out : List Bytes)
        → next model passed rest ≡ ok out
        → Along model passed rest out) where
    go_on-Along :
        {model name : Bytes} {m : Model} {f : Field} {passed rest out : List Bytes} (p : Passage)
        → models model ≡ some m
        → lookup name m.fields ≡ some f
        → passage f ≡ p
        → go_on models next model passed name rest f p ≡ ok out
        → Along model passed (name ∷ rest) out
    unfolding go_on
    go_on-Along {model} {passed = passed} {rest = rest} (expands rel) found has way h =
        let a = ih model passed (split b'.' rel ++ rest) _ h in
        record {
          tail = a.tail;
          out_is = a.out_is;
          walks = a.walks;
          same_end = a.same_end ∙ more_is_last (split b'.' rel) rest (split-is_last b'.' rel);
        }
    go_on-Along {model} {name} {f = f} {passed} {rest} passes found has way h =
        let (co, goes, went) = >>=-eq-ok (next_model model f rest) _ h in
        let a = ih co (name ∷ passed) rest _ went in
        record {
          tail = name ∷ a.tail;
          out_is = a.out_is ∙ rw (reverse-cons, append_assoc) refl;
          walks = walk_on f rest a.tail found has (passage-Direct f way) a.same_end goes a.walks;
          same_end = refl;
        }
    go_on-Along cannot found has way h = cc

    at_field-Along :
        {model name : Bytes} {m : Model} {passed rest out : List Bytes}
        → models model ≡ some m
        → at_field models next model passed name rest m ≡ ok out
        → Along model passed (name ∷ rest) out
    unfolding at_field
    at_field-Along {model} {name} {m} {passed} {rest} {out} found h =
        elim (Bool-cases (stops name rest passed)) [
          | inl e ↦ rw (← ok-injective (rw e at h)) (walk_shown rest passed found e)
          | inr e ↦
              let (f, has, went) = >>=-eq-ok (required (lookup name m.fields)) _ (rw e at h) in
              go_on-Along (passage f) found (required-ok _ has) refl went
        ]

  normalize_rounds-Along :
      (fuel : ℕ) (model : Bytes) (passed rest : List Bytes) {out : List Bytes}
      → normalize_rounds models fuel model passed rest ≡ ok out
      → Along model passed rest out
  unfolding normalize_rounds
  normalize_rounds-Along fuel model passed [] h = record {
    tail = [];
    out_is = sym (ok-injective h) ∙ sym (append-nil (reverse passed));
    walks = nowhere;
    same_end = refl;
  }
  normalize_rounds-Along (suc fuel) model passed (name ∷ rest) h =
      let (m, found, went) = >>=-eq-ok (required (models model)) _ h in
      at_field-Along (normalize_rounds models fuel)
        (λ next before left out went. normalize_rounds-Along fuel next before left went)
        (required-ok (models model) found) went
  normalize_rounds-Along zero model passed (name ∷ rest) h = cc

  -- A path that `normalize_path` gives can be walked from the model: no name of it stands for
  -- another path any more, and each name before the last leads to the model of the next.
  pub normalize_path-Walks :
      (m : Model) (path : List Bytes) {out : List Bytes}
      → normalize_path models m path ≡ ok out
      → Walks false m.name out
  unfolding normalize_path
  normalize_path-Walks m path h =
      let a = normalize_rounds-Along 64 m.name [] path h in rw (Along.out_is a) (Along.walks a)

  walk-found :
      {moved : Bool} {model name : Bytes} {rest : List Bytes}
      → Walks moved model (name ∷ rest)
      → (m : Model) × (models model ≡ some m)
  walk-found (shown {m = m} found) = (m, found)
  walk-found (last {m = m} found has way) = (m, found)
  walk-found (onward {m = m} found has way goes walks) = (m, found)

  walk-target :
      {moved : Bool} {model : Bytes} {path : List Bytes} (m : Model)
      → models model ≡ some m
      → Walks moved model path
      → (target : Model) × (path_target models m (init path) ≡ ok target)
  unfolding path_target init
  walk-target m here nowhere = (m, refl)
  walk-target m here (shown found) = (m, refl)
  walk-target m here (last found has way) = (m, refl)
  walk-target m here (onward {name = name} {f = f} found has way goes walks) =
      let (co, there) = walk-found walks in
      let (target, ends) = walk-target co there walks in
      let has_it : lookup name m.fields ≡ some f = rw (some-injective (sym here ∙ found)) has in
      (target, rw (has_it, goes, there) ends)

  -- The model of the last name of a path that `normalize_path` gives is found: no refusal follows. The
  -- registry must hold the model that the path starts at under its own name.
  pub path_target-normalize_path :
      (m : Model) (path : List Bytes) {out : List Bytes}
      → models m.name ≡ some m
      → normalize_path models m path ≡ ok out
      → (target : Model) × (path_target models m (init out) ≡ ok target)
  path_target-normalize_path m path here h = walk-target m here (normalize_path-Walks m path h)
