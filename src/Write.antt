-- ===== src/Write.antt =====
-- kernel/src/write.rs: the statements that the persistence port sends for rows, on the fields that it
-- reads of a registry's models. `{model}`, `{name}` and the like occur in messages only.
pub mod Dialect
pub mod Rows
use odoo_rust_orm.Prelude.{
  ℕ, zero, suc, ◌+◌, Bool, true, false, not, ◌||◌, List, [], ◌∷◌, ◌++◌, Option, none, some, map,
  Bytes, codes, replicate, length, ◌==◌, if◌then◌else◌,
}
use odoo_rust_orm.Error.{Result, ok, err, ◌>>=◌, ◌>>◌, refuse}
use odoo_rust_orm.Sqllex.Quoting.{ident}

pub data UpdateShape : Type 0 where
  uniform values : UpdateShape

pub record Field : Type 0 where
  pub name : Bytes
  pub has_column : Bool
  pub column_cast : Option Bytes
  pub company_dependent : Bool
  pub translate_whole : Bool

pub record Model : Type 0 where
  pub table : Bytes
  pub fields : Bytes → Option Field

abbrev is_none {ℓ} : {A : Type ℓ} → Option A → Bool
is_none none = true
is_none (some _) = false

unfoldable pub lacks_cast : Field → Bool
lacks_cast f = not f.has_column || is_none f.column_cast

-- Whether `refuse_column` gives a reason.
unfoldable pub refuse_column : Field → Bool
refuse_column f = lacks_cast f || f.company_dependent

abbrev nl : Bytes
nl = b'\n' ∷ []

unfoldable pub assignment : Bytes → Field → Bytes → Bytes
assignment table f expr =
    let column = ident f.name in
    if f.translate_whole
    then column
      ++ codes " = CASE WHEN "
      ++ expr
      ++ codes " IS NULL THEN NULL ELSE"
      ++ nl
      ++ codes "                        COALESCE("
      ++ table
      ++ codes "."
      ++ column
      ++ codes ", jsonb_build_object("
      ++ nl
      ++ codes "                            'en_US', jsonb_path_query_first("
      ++ expr
      ++ codes ", '$.*')"
      ++ nl
      ++ codes "                        )) || "
      ++ expr
      ++ nl
      ++ codes "                    END"
    else column ++ codes " = " ++ expr

unfoldable pub value_repeats : Field → ℕ
value_repeats f = if f.translate_whole then 3 else 1

-- `join(", ")`
unfoldable pub join : List Bytes → Bytes
join [] = []
join (x ∷ []) = x
join (x ∷ y ∷ xs) = x ++ codes ", " ++ join (y ∷ xs)

-- `f.column_cast.as_deref().unwrap_or_default()`
abbrev cast_of : Field → Bytes
cast_of f = elim f.column_cast [ none ↦ [] | some c ↦ c ]

-- The loop over the names of the columns, with its guards.
unfoldable pub writable : Model → List Bytes → Result (List Field)
writable model [] = ok []
writable model (fname ∷ fnames) = elim (model.fields fname) [
  | none ↦ refuse
  | some f ↦ if refuse_column f then refuse else (do rest ← writable model fnames; ok (f ∷ rest))
]

unfoldable pub row_of : ℕ → Bytes
unfolding join
row_of n = codes "(" ++ join (replicate n (codes "%s")) ++ codes ")"

unfoldable pub rows_of : ℕ → ℕ → Bytes
unfolding join
rows_of width row_count = join (replicate row_count (row_of width))

unfoldable pub tmp_expr : Field → Bytes
tmp_expr f = codes "\"__tmp\"." ++ ident f.name ++ codes "::" ++ cast_of f

unfoldable pub update_values : Bytes → List Field → ℕ → Bytes
unfolding join
update_values table fields row_count =
    codes " UPDATE "
    ++ table
    ++ nl
    ++ codes "                SET "
    ++ join (map (λ f. assignment table f (tmp_expr f)) fields)
    ++ nl
    ++ codes "                FROM (VALUES "
    ++ rows_of (length fields + 1) row_count
    ++ codes ") AS \"__tmp\"(\"id\", "
    ++ join (map (λ f. ident f.name) fields)
    ++ codes ")"
    ++ nl
    ++ codes "                WHERE "
    ++ table
    ++ codes ".\"id\" = \"__tmp\".\"id\""
    ++ nl
    ++ codes "            "

unfoldable pub uniform_expr : Field → Bytes
uniform_expr f = codes "%s::" ++ cast_of f

unfoldable pub update_uniform : Bytes → List Field → Bytes
unfolding join
update_uniform table fields =
    codes "UPDATE "
    ++ table
    ++ codes " SET "
    ++ join (map (λ f. assignment table f (uniform_expr f)) fields)
    ++ codes " WHERE \"id\" = ANY(%s)"

unfoldable pub update_text : UpdateShape → Bytes → List Field → ℕ → Bytes
update_text values table fields row_count = update_values table fields row_count
update_text uniform table fields row_count = update_uniform table fields

abbrev no_items {ℓ} : {A : Type ℓ} → List A → Bool
no_items [] = true
no_items (_ ∷ _) = false

-- `registry` is its lookup of models.
unfoldable pub update_rows_sql :
    (Bytes → Result Model) → Bytes → List Bytes → UpdateShape → ℕ → Result Bytes
update_rows_sql registry model_name fnames shape row_count = do
  model ← registry model_name
  if no_items fnames then refuse else if row_count == 0 then refuse else (do
    fields ← writable model fnames
    ok (update_text shape (ident model.table) fields row_count))

-- The loop over the columns of an insertion.
unfoldable pub insertable : Model → List Bytes → Result (Unit {0})
insertable model [] = ok tt
insertable model (column ∷ columns) = elim (model.fields column) [
  | none ↦ refuse
  | some f ↦ if lacks_cast f then refuse else insertable model columns
]

unfoldable pub insert_text : Bytes → List Bytes → ℕ → Bytes
unfolding join
insert_text table columns row_count =
    codes "INSERT INTO "
    ++ table
    ++ codes " ("
    ++ join (map (λ c. ident c) columns)
    ++ codes ") VALUES "
    ++ rows_of (length columns) row_count
    ++ codes " RETURNING \"id\""

unfoldable pub insert_default : Bytes → ℕ → Bytes
unfolding join
insert_default table row_count =
    codes "INSERT INTO "
    ++ table
    ++ codes " (\"id\") VALUES "
    ++ join (replicate row_count (codes "(DEFAULT)"))
    ++ codes " RETURNING \"id\""

unfoldable pub insert_rows_sql : (Bytes → Result Model) → Bytes → List Bytes → ℕ → Result Bytes
insert_rows_sql registry model_name columns row_count = do
  model ← registry model_name
  if row_count == 0
      then refuse
      else if no_items columns
      then ok (insert_default (ident model.table) row_count)
      else (insertable model columns >> ok (insert_text (ident model.table) columns row_count))
