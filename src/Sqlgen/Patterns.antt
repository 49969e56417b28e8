-- ===== src/Sqlgen/Patterns.antt =====
-- kernel/src/sqlgen.rs: how `optimize_leaf` rewrites a leaf of a pattern, and `negates_by_operator`.
use odoo_rust_orm.Prelude.{
  Bool, true, false, not, ◌&&◌, ◌||◌, List, [], ◌∷◌, Option, none, some, Bytes, codes, bytes_eq,
  any, all, ◌==◌, if◌then◌else◌,
}
use odoo_rust_orm.Error.{Result, ok, ◌>>=◌, refuse}
use odoo_rust_orm.Assoc.{lookup, name_key}
use odoo_rust_orm.Json.{Json, bool, number, string, Number}
use odoo_rust_orm.Domain.{Leaf, true_node, false_node}
use odoo_rust_orm.RuleExpr.Parser.{split}
use odoo_rust_orm.Registry.Fields.{FieldType, one2many, many2many, Field, Model, comodel, required}
use odoo_rust_orm.Sqlgen.Paths.{init}
use odoo_rust_orm.Sqlgen.Comparands.{
  is_py_falsy, is_number, number_as_python_text, float_pattern_text, starts_with,
}
use odoo_rust_orm.Sqlgen.Days.{leaf_node}
use odoo_rust_orm.Sqlgen.Class.{Context, is_relational, is_floating, typed, Step, keep, into}

-- `Self::multivalued_hop`
unfoldable pub multivalued : FieldType → Option Bool → Result Bool
multivalued many2many one2one = ok true
multivalued one2many none = refuse
multivalued one2many (some one) = ok (not one)
multivalued _ one2one = ok false

unfoldable pub any_multivalued : List Field → Result Bool
any_multivalued [] = ok false
any_multivalued (hop ∷ hops) =
    let rest = any_multivalued hops in
    multivalued hop.ttype hop.one2one >>= λ many. if many then ok true else rest

abbrev pub all_wild : Json → Bool
all_wild (string s) = not (bytes_eq s []) && all (λ ch. ch == b'%') s
all_wild _ = false

abbrev pub contains_equal : Bytes → Bool
contains_equal op = any (λ ch. ch == b'=') op

-- What a pattern of nothing, or of wildcards alone, holds of.
abbrev pub trivial_holds : Bytes → Bool → Bool
trivial_holds op true =
    if starts_with op (codes "not ") then contains_equal op else not (contains_equal op)
trivial_holds op false = not (starts_with op (codes "not "))

unfoldable pub rewrite_trivial : Leaf → Bool → Bool → Step
rewrite_trivial l relational empty =
    let holds = trivial_holds l.op empty in
    if relational || (empty && contains_equal l.op)
    then into (leaf_node l.field (if holds then codes "!=" else codes "=") (bool false))
    else if holds
    then into true_node
    else into false_node

module _ (c : Context) where
  -- The hops of a related field, all of them before any is judged.
  unfoldable pub related_hops : Model → List Bytes → Result (List Field)
  related_hops m [] = ok []
  related_hops m (step ∷ steps) = required (lookup step m.fields) >>= λ hop.
      (comodel hop >>= λ co. required (c.models co)) >>= λ next.
      related_hops next steps >>= λ hops. ok (hop ∷ hops)

  unfoldable pub negates_by_operator : Field → Result Bool
  negates_by_operator f = elim f.related [
    | none ↦ ok true
    | some rel ↦ related_hops c.model (init (split b'.' rel)) >>= λ hops.
        any_multivalued hops >>= λ many. ok (not many)
  ]

  unfoldable pub pattern_text : Option Field → Number → Result Bytes
  pattern_text field n =
      if typed is_floating field then float_pattern_text c.floats n else number_as_python_text n

  abbrev pub number_pattern : Leaf → Option Field → Json → Result Step
  number_pattern l field (number n) =
      if contains_equal l.op
      then refuse
      else (pattern_text field n >>= λ s. ok (into (leaf_node l.field l.op (string s))))
  number_pattern l field _ = ok keep

  abbrev pub negates : Option Field → Result Bool
  negates none = ok true
  negates (some f) = negates_by_operator f

  -- `like` and its kin
  unfoldable pub rewrite_pattern : Leaf → Bool → Option Field → Result Step
  rewrite_pattern l dotted field =
      let v = l.value in
      let relational = dotted || typed is_relational field in
      let falsy = is_py_falsy v in
      let wild = all_wild v in
      let empty = falsy && not (is_number v) in
      if dotted && (falsy || wild || is_number v)
      then ok keep
      else (if relational && (falsy || wild) then negates field else ok true) >>= λ plain.
          if not plain
          then ok keep
          else if empty || wild
          then ok (rewrite_trivial l relational empty)
          else number_pattern l field v
