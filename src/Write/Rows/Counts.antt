-- ===== src/Write/Rows/Counts.antt =====
-- kernel/src/write.rs and engine-py/src/cursor.rs: the placeholders of whole statements.
use odoo_rust_orm.Prelude.{
  ℕ, ◌+◌, ◌*◌, List, [], ◌∷◌, some, ◌≡◌, refl, arith, Bytes, codes, length, replicate, ◌==◌,
  if◌then◌else◌, if-intro, option-intro,
}
use odoo_rust_orm.Error.{Result, ok, ◌>>=◌, Each, Each-ok, Each-intro, Each-step, Each-then}
use odoo_rust_orm.Sqllex.Quoting.{ident}
use odoo_rust_orm.Cursor.{translate_placeholders}
use odoo_rust_orm.Write.{
  UpdateShape, values, uniform, Field, Model, no_items, refuse_column, assignment, value_repeats,
  cast_of, writable, tmp_expr, update_values, uniform_expr, update_uniform, update_text,
  update_rows_sql, insertable, insert_text, insert_default, insert_rows_sql,
}
use odoo_rust_orm.Write.Rows.{
  Holds, IsPlain, Every, PlainField, ◌then◌, plain, one_placeholder, as_many, total, join-Holds,
  join-replicate-Holds, rows_of-Holds, ident-IsPlain, assignment-Holds, translate-Holds,
}

Every-map {κ μ} :
    {A : Type 0} (P : A → Type κ) (Q : A → Type μ) (xs : List A)
    → ((x : A) → P x → Q x)
    → Every P xs
    → Every Q xs
Every-map P Q [] f h = tt
Every-map P Q (x ∷ xs) f h = (f x h.0, Every-map P Q xs f h.1)

uniform_expr-Holds : (f : Field) → PlainField f → Holds (uniform_expr f) 1
unfolding uniform_expr
uniform_expr-Holds f pf =
    one_placeholder then plain (codes "::") refl then plain (cast_of f) pf.plain_cast

tmp_expr-Holds : (f : Field) → PlainField f → Holds (tmp_expr f) 0
unfolding tmp_expr
tmp_expr-Holds f pf =
    plain (codes "\"__tmp\".") refl
    then plain (ident f.name) (ident-IsPlain f.name pf.plain_name)
    then plain (codes "::") refl
    then plain (cast_of f) pf.plain_cast

total_none : {A : Type 0} (fs : List A) → total (λ f. 0) fs ≡ 0
unfolding total
total_none [] = refl
total_none (f ∷ fs) = omega (arith, total_none fs)

any_id : Holds (codes " WHERE \"id\" = ANY(%s)") 1
any_id = plain (codes " WHERE \"id\" = ANY(") refl then one_placeholder then plain (codes ")") refl

update_uniform-Holds :
    (table : Bytes) (fs : List Field)
    → IsPlain table
    → Every PlainField fs
    → Holds (update_uniform table fs) (total value_repeats fs + 1)
unfolding update_uniform
update_uniform-Holds table fs h pfs =
    as_many
      (plain (codes "UPDATE ") refl
        then plain table h
        then plain (codes " SET ") refl
        then join-Holds (λ f. assignment table f (uniform_expr f)) value_repeats fs
            (Every-map PlainField
              (λ f. Holds (assignment table f (uniform_expr f)) (value_repeats f)) fs
              (λ f pf.
                as_many (assignment-Holds table (uniform_expr f) f 1 h pf (uniform_expr-Holds f pf))
                  (omega arith))
              pfs)
        then any_id)
      (omega arith)

line : Holds (b'\n' ∷ []) 0
line = plain (b'\n' ∷ []) refl

update_values-Holds :
    (table : Bytes) (fs : List Field) (row_count : ℕ)
    → IsPlain table
    → Every PlainField fs
    → Holds (update_values table fs row_count) (row_count * (length fs + 1))
unfolding update_values
update_values-Holds table fs row_count h pfs =
    let assignments =
      as_many
        (join-Holds (λ f. assignment table f (tmp_expr f)) (λ f. 0) fs
          (Every-map PlainField (λ f. Holds (assignment table f (tmp_expr f)) 0) fs
            (λ f pf.
              as_many (assignment-Holds table (tmp_expr f) f 0 h pf (tmp_expr-Holds f pf))
                (omega arith))
            pfs))
        (total_none fs) in
    let columns =
      as_many
        (join-Holds (λ f. ident f.name) (λ f. 0) fs
          (Every-map PlainField (λ f. Holds (ident f.name) 0) fs
            (λ f pf. plain (ident f.name) (ident-IsPlain f.name pf.plain_name)) pfs))
        (total_none fs) in
    as_many
      (plain (codes " UPDATE ") refl
        then plain table h
        then line
        then plain (codes "                SET ") refl
        then assignments
        then line
        then plain (codes "                FROM (VALUES ") refl
        then rows_of-Holds (length fs + 1) row_count
        then plain (codes ") AS \"__tmp\"(\"id\", ") refl
        then columns
        then plain (codes ")") refl
        then line
        then plain (codes "                WHERE ") refl
        then plain table h
        then plain (codes ".\"id\" = \"__tmp\".\"id\"") refl
        then line
        then plain (codes "            ") refl)
      (omega arith)

-- How many values the caller sends.
abbrev pub sent : UpdateShape → List Field → ℕ → ℕ
sent uniform fs row_count = total value_repeats fs + 1
sent values fs row_count = row_count * (length fs + 1)

update_text-Holds :
    (shape : UpdateShape) (table : Bytes) (fs : List Field) (row_count : ℕ)
    → IsPlain table
    → Every PlainField fs
    → Holds (update_text shape table fs row_count) (sent shape fs row_count)
unfolding update_text
update_text-Holds uniform table fs row_count h pfs = update_uniform-Holds table fs h pfs
update_text-Holds values table fs row_count h pfs = update_values-Holds table fs row_count h pfs

module _ (registry : Bytes → Result Model) (model_name : Bytes) (model : Model)
    (found : registry model_name ≡ ok model) (plain_table : IsPlain (ident model.table)) where
  module _
      (plain_fields : (fname : Bytes) (f : Field)
        → model.fields fname ≡ some f
        → PlainField f) where
    writable-Every : (fnames : List Bytes) → Each (Every PlainField) (writable model fnames)
    unfolding writable
    writable-Every [] = tt
    writable-Every (fname ∷ fnames) =
        option-intro (Each (Every PlainField)) (model.fields fname) (λ e. tt)
          (λ f e.
            if-intro (Each (Every PlainField)) (refuse_column f) (λ r. tt)
              (λ r.
                Each-then (Every PlainField) (Every PlainField) (writable model fnames) _
                  (writable-Every fnames) (λ rest h. (plain_fields fname f e, h))))

    abbrev Counted : List Bytes → UpdateShape → ℕ → Bytes → Type 0
    Counted fnames shape row_count sql =
        (fields : List Field) × (writable model fnames ≡ ok fields)
        × ((translate_placeholders sql).1 ≡ replicate (sent shape fields row_count) [])

    update_rows_sql-Counted :
        (fnames : List Bytes) (shape : UpdateShape) (row_count : ℕ)
        → Each
            (Counted fnames shape row_count)
            (update_rows_sql registry model_name fnames shape row_count)
    unfolding update_rows_sql
    update_rows_sql-Counted fnames shape row_count = rw found (
        if-intro (Each (Counted fnames shape row_count)) (no_items fnames) (λ e. tt)
          (λ e.
            if-intro (Each (Counted fnames shape row_count)) (row_count == 0) (λ z. tt)
              (λ z. counted)))
      where
        counted : Each (Counted fnames shape row_count) (
            writable model fnames >>= λ fields.
            ok (update_text shape (ident model.table) fields row_count))
        counted =
            Each-then (λ fields. (writable model fnames ≡ ok fields) × Every PlainField fields)
              (Counted fnames shape row_count) (writable model fnames) _
              (Each-intro (writable model fnames)
                (λ fields e. (e, Each-ok (Every PlainField) (writable-Every fnames) e)))
              (λ fields h. (
                fields,
                h.0,
                translate-Holds _ _
                    (update_text-Holds shape (ident model.table) fields row_count plain_table h.1),
              ))

    -- An update has as many placeholders as its caller sends values: `value_repeats` for each column
    -- and the ids, or a row of the id and the columns for each row; where no name and no cast of the
    -- model has a percent sign.
    pub update_rows_sql-sent :
        (fnames : List Bytes) (shape : UpdateShape) (row_count : ℕ) {sql : Bytes}
        → update_rows_sql registry model_name fnames shape row_count ≡ ok sql
        → (fields : List Field) × (writable model fnames ≡ ok fields)
          × ((translate_placeholders sql).1 ≡ replicate (sent shape fields row_count) [])
    update_rows_sql-sent fnames shape row_count h =
        Each-ok (Counted fnames shape row_count) (update_rows_sql-Counted fnames shape row_count) h

  insert_text-Holds :
      (columns : List Bytes) (row_count : ℕ)
      → Every IsPlain columns
      → Holds (insert_text (ident model.table) columns row_count) (row_count * length columns)
  unfolding insert_text
  insert_text-Holds columns row_count h =
      let names =
        as_many
          (join-Holds (λ c. ident c) (λ c. 0) columns
            (Every-map IsPlain (λ c. Holds (ident c) 0) columns
              (λ c p. plain (ident c) (ident-IsPlain c p)) h))
          (total_none columns) in
      as_many
        (plain (codes "INSERT INTO ") refl
          then plain (ident model.table) plain_table
          then plain (codes " (") refl
          then names
          then plain (codes ") VALUES ") refl
          then rows_of-Holds (length columns) row_count
          then plain (codes " RETURNING \"id\"") refl)
        (omega arith)

  insert_default-Holds : (row_count : ℕ) → Holds (insert_default (ident model.table) row_count) 0
  unfolding insert_default
  insert_default-Holds row_count =
      as_many
        (plain (codes "INSERT INTO ") refl
          then plain (ident model.table) plain_table
          then plain (codes " (\"id\") VALUES ") refl
          then join-replicate-Holds (codes "(DEFAULT)") 0 row_count (plain (codes "(DEFAULT)") refl)
          then plain (codes " RETURNING \"id\"") refl)
        (omega arith)

  insert_rows_sql-Each :
      (columns : List Bytes) (row_count : ℕ)
      → Every IsPlain columns
      → Each
          (λ sql. (translate_placeholders sql).1 ≡ replicate (row_count * length columns) [])
          (insert_rows_sql registry model_name columns row_count)
  unfolding insert_rows_sql
  insert_rows_sql-Each [] row_count h = rw found (
      if-intro
        (Each (λ sql.
          (translate_placeholders sql).1 ≡ replicate (row_count * length {A = Bytes} []) []))
        (row_count == 0) (λ z. tt)
        (λ z. translate-Holds _ _ (as_many (insert_default-Holds row_count) (omega arith))))
  insert_rows_sql-Each (c ∷ cs) row_count h = rw found (
      if-intro
        (Each (λ sql. (translate_placeholders sql).1 ≡ replicate (row_count * length (c ∷ cs)) []))
        (row_count == 0) (λ z. tt)
        (λ z.
          Each-step
            (λ sql. (translate_placeholders sql).1 ≡ replicate (row_count * length (c ∷ cs)) [])
            (insertable model (c ∷ cs)) _
            (λ done. translate-Holds _ _ (insert_text-Holds (c ∷ cs) row_count h))))

  -- An insertion has a placeholder for each column of each row; where no name has a percent sign.
  pub insert_rows_sql-length :
      (columns : List Bytes) (row_count : ℕ) {sql : Bytes}
      → Every IsPlain columns
      → insert_rows_sql registry model_name columns row_count ≡ ok sql
      → (translate_placeholders sql).1 ≡ replicate (row_count * length columns) []
  insert_rows_sql-length columns row_count plain_columns h =
      Each-ok (λ sql. (translate_placeholders sql).1 ≡ replicate (row_count * length columns) [])
        (insert_rows_sql-Each columns row_count plain_columns) h
