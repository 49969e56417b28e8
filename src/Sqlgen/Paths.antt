-- ===== src/Sqlgen/Paths.antt =====
-- kernel/src/sqlgen.rs: `normalize_path`, which puts a related field's own path in the place of the
-- field, and `path_target`. The registry is the lookup of its models.
pub mod Walked
use odoo_rust_orm.Prelude.{
  ℕ, zero, suc, Bool, true, false, not, ◌&&◌, ◌||◌, List, [], ◌∷◌, ◌++◌, reverse, Option, none,
  some, Bytes, codes, bytes_eq, if◌then◌else◌,
}
use odoo_rust_orm.Error.{Result, ok, err, ◌>>=◌, ◌>>◌, refuse}
use odoo_rust_orm.Assoc.{lookup, name_key}
use odoo_rust_orm.Registry.Fields.{FieldType, one2many, many2many, Field, Model, required}
use odoo_rust_orm.RuleExpr.Parser.{split}

-- `matches!(field.ttype, FieldType::One2many | FieldType::Many2many)`
abbrev pub is_x2many : FieldType → Bool
is_x2many one2many = true
is_x2many many2many = true
is_x2many _ = false

abbrev pub is_last : List Bytes → Bool
is_last [] = true
is_last (_ ∷ _) = false

-- The loop ends before a `display_name` that is the last of a longer path.
unfoldable pub stops : Bytes → List Bytes → List Bytes → Bool
stops name rest passed =
    is_last rest && bytes_eq name (codes "display_name") && not (is_last passed)

-- What a field is to the path: it stands for another path, or it is passed, or it cannot be.
pub data Passage : Type 0 where
  expands : Bytes → Passage
  passes cannot : Passage

abbrev pub passage_of : Bool → Option Bytes → FieldType → Passage
passage_of true related ttype = passes
passage_of false (some rel) ttype = expands rel
passage_of false none ttype = if is_x2many ttype then passes else cannot

unfoldable pub passage : Field → Passage
passage f = passage_of f.has_column f.related f.ttype

-- The model that the rest of the path starts at; the end of the path asks for none.
abbrev pub next_model : Bytes → Field → List Bytes → Result Bytes
next_model model f [] = ok model
next_model model f (_ ∷ _) = required f.relation

-- `&path[..path.len() - 1]`, which no caller asks of an empty path.
unfoldable pub init : List Bytes → List Bytes
init [] = []
init (name ∷ []) = []
init (name ∷ second ∷ rest) = name ∷ init (second ∷ rest)

module _ (models : Bytes → Option Model) where
  module _ (next : Bytes → List Bytes → List Bytes → Result (List Bytes)) where
    -- What a round does with the field that it has found; `next` is the rest of the loop.
    unfoldable pub go_on :
        Bytes → List Bytes → Bytes → List Bytes → Field → Passage → Result (List Bytes)
    go_on model passed name rest f (expands rel) = next model passed (split b'.' rel ++ rest)
    go_on model passed name rest f passes =
        next_model model f rest >>= λ m. next m (name ∷ passed) rest
    go_on model passed name rest f cannot = refuse

    unfoldable pub at_field : Bytes → List Bytes → Bytes → List Bytes → Model → Result (List Bytes)
    at_field model passed name rest m =
        if stops name rest passed
        then ok (reverse passed ++ name ∷ rest)
        else required (lookup name m.fields) >>= λ f. go_on model passed name rest f (passage f)

  -- The loop of `normalize_path_inner`: the names passed, the last in front, and those left. The
  -- source's guard counts the rounds.
  unfoldable pub normalize_rounds : ℕ → Bytes → List Bytes → List Bytes → Result (List Bytes)
  normalize_rounds fuel model passed [] = ok (reverse passed)
  normalize_rounds zero model passed (name ∷ rest) = refuse
  normalize_rounds (suc fuel) model passed (name ∷ rest) =
      required (models model) >>= at_field (normalize_rounds fuel) model passed name rest

  unfoldable pub normalize_path : Model → List Bytes → Result (List Bytes)
  normalize_path model path = normalize_rounds 64 model.name [] path

  unfoldable pub path_target : Model → List Bytes → Result Model
  path_target m [] = ok m
  path_target m (seg ∷ path) =
      (required (lookup seg m.fields) >>= λ f.
      required (Field.relation f) >>= λ co. required (models co))
      >>= λ next. path_target next path
