-- ===== src/Resolve/Hop.antt =====
-- kernel/src/security.rs: one step of `resolve_name`, from some records over one of their fields.
use odoo_rust_orm.Prelude.{
  ℕ, Bool, true, false, not, ◌&&◌, ◌||◌, List, [], ◌∷◌, ◌++◌, Option, none, some, Bytes, codes,
  bytes_eq, if◌then◌else◌,
}
use odoo_rust_orm.Error.{Result, ok, err, ◌>>=◌, ◌>>◌, refuse, other}
use odoo_rust_orm.Json.{Json, bool, number, string, array, pos_int, float, nil, of_list}
use odoo_rust_orm.Sqllex.Quoting.{ident}
use odoo_rust_orm.Assoc.{lookup, member, name_key, id_key}
use odoo_rust_orm.RuleExpr.Chars.{Std, parse_i64}
use odoo_rust_orm.RuleExpr.Eval.{Doubles, int_number, float_json}
use odoo_rust_orm.Registry.Fields.{
  FieldType, boolean, integer, floating, monetary, many2one, one2many, many2many,
  many2one_reference, Field, Model, comodel, m2m_columns, context_active_test, o2m_inverse_column,
}

-- What the database answers to a query on some ids, by the columns that are read off the rows.
pub record Queries : Type 0 where
  pub ids : Bytes → List ℕ → Result (List ℕ)
  pub links : Bytes → List ℕ → Result (List (Option ℕ × Option ℕ))
  pub texts : Bytes → List ℕ → Result (List (Option Bytes × Option ℕ))
  pub text : Bytes → ℕ → Result (Option (Option Bytes))

pub record Sources : Type 0 where
  pub std : Std
  pub doubles : Doubles
  pub model : Bytes → Option Model
  pub queries : Queries

-- What a chain comes to: a value, or records of a model.
pub data Found : Type 0 where
  scalar : Json → Found
  records : Bytes → List ℕ → Found

-- `Registry::get`
unfoldable pub get_model : Sources → Bytes → Result Model
get_model from name = elim (from.model name) [ none ↦ refuse | some m ↦ ok m ]

-- `relation.clone().unwrap()` panics where there is none.
abbrev unwrap : Option Bytes → Result Bytes
unwrap none = err (other ∷ [])
unwrap (some model) = ok model

abbrev null_of : FieldType → Json
null_of integer = number (pos_int 0)
null_of many2one_reference = number (pos_int 0)
null_of floating = number (float 0)
null_of monetary = number (float 0)
null_of _ = bool false

abbrev int_json : Bytes → Result Json
int_json s = do i ← parse_i64 s; ok (number (int_number i))

abbrev double_json : Std → Doubles → Bytes → Result Json
double_json std doubles s = do f ← Std.parse_f64 std s; float_json doubles f

abbrev text_json : Std → Doubles → FieldType → Bytes → Result Json
text_json std doubles integer s = int_json s
text_json std doubles many2one_reference s = int_json s
text_json std doubles boolean s = ok (bool (bytes_eq s (codes "true") || bytes_eq s (codes "t")))
text_json std doubles floating s = double_json std doubles s
text_json std doubles monetary s = double_json std doubles s
text_json std doubles _ s = ok (string s)

unfoldable pub scalar_json : Std → Doubles → Field → Option Bytes → Result Json
scalar_json std doubles f none = ok (null_of (Field.ttype f))
scalar_json std doubles f (some s) = text_json std doubles (Field.ttype f) s

-- The field's domain is one that the walk may not pass over: none, or an empty list.
abbrev plain_domain : Option Json → Bool
plain_domain none = true
plain_domain (some (array nil)) = true
plain_domain (some _) = false

abbrev pub is_x2many : FieldType → Bool
is_x2many one2many = true
is_x2many many2many = true
is_x2many _ = false

-- The fields that the walk refuses, whatever their type.
unfoldable pub supported : Field → Result (Unit {0})
supported f =
    if f.translated
    then refuse
    else if f.company_dependent
    then refuse
    else if is_x2many f.ttype && (f.domain_callable || not (plain_domain f.domain))
    then refuse
    else ok tt

abbrev or_true : Option Bool → Bool
or_true none = true
or_true (some b) = b

abbrev active_text : Option Bytes → Bool → Bytes → Bytes
active_text (some active) true alias =
    codes " AND " ++ alias ++ codes "." ++ ident active ++ codes " = TRUE"
active_text _ _ alias = []

active_clause : Field → Model → Bytes → Result Bytes
active_clause f co alias = do
  test ← context_active_test f
  ok (active_text co.active_name (or_true test) alias)

abbrev is_reference : Option Field → Bool
is_reference none = false
is_reference (some f) = elim (Field.ttype f) [ many2one_reference ↦ true | _ ↦ false ]

one2many_sql : Model → Bytes → Bytes → Bytes
one2many_sql co inverse active =
    codes "SELECT co.id FROM "
    ++ ident co.table
    ++ codes " co WHERE co."
    ++ ident inverse
    ++ codes " = ANY($1)"
    ++ active

many2many_sql : Bytes × Bytes × Bytes → Model → Bytes → Bytes
many2many_sql (rel, c1, c2) co active =
    codes "SELECT rel."
    ++ ident c2
    ++ codes " FROM "
    ++ ident rel
    ++ codes " rel JOIN "
    ++ ident co.table
    ++ codes " co ON co.id = rel."
    ++ ident c2
    ++ codes " WHERE rel."
    ++ ident c1
    ++ codes " = ANY($1)"
    ++ active

-- Of each of the ids in turn.
in_order_sql : Bytes → Bytes → Bytes → Bytes
in_order_sql column cast table =
    codes "SELECT record."
    ++ ident column
    ++ cast
    ++ codes ", record.id FROM unnest($1::int4[]) WITH ORDINALITY AS input(id, position) LEFT JOIN "
    ++ ident table
    ++ codes " record ON record.id = input.id ORDER BY input.position"

one_sql : Bytes → Bytes → Bytes
one_sql column table =
    codes "SELECT " ++ ident column ++ codes "::text FROM " ++ ident table ++ codes " WHERE id = $1"

-- `retain(|id| seen.insert(*id))`
unfoldable pub once : List ℕ → List ℕ → List ℕ
once seen [] = []
once seen (i ∷ is) =
    let old = once seen is in let new = once (i ∷ seen) is in if member i seen then old else i ∷ new

-- The targets of the links; a record that is missing refuses.
unfoldable pub targets : List (Option ℕ × Option ℕ) → Result (List ℕ)
targets [] = ok []
targets ((target, none) ∷ rows) = refuse
targets ((none, some record_id) ∷ rows) = targets rows
targets ((some target, some record_id) ∷ rows) = do others ← targets rows; ok (target ∷ others)

-- The arms of the `match` on the type: a stored relation is read off its table.
abbrev pub by_relation :
    FieldType → Bool → Result Found → Result Found → Result Found → Result Found
by_relation one2many true one many column = one
by_relation many2many true one many column = many
by_relation _ _ one many column = column

module _ (from : Sources) where
  values : Field → List (Option Bytes × Option ℕ) → Result (List Json)
  values f [] = ok []
  values f ((value, none) ∷ rows) = refuse
  values f ((value, some record_id) ∷ rows) = do
    first ← scalar_json from.std from.doubles f value
    others ← values f rows
    ok (first ∷ others)

  unfoldable pub over_one2many : Bytes → Field → List ℕ → Result Found
  unfolding active_clause one2many_sql
  over_one2many model f current = do
    co_name ← comodel f
    co ← get_model from co_name
    inverse ← o2m_inverse_column f co
    if is_reference (lookup inverse co.fields) then refuse else (do
      active ← active_clause f co (codes "co")
      rows ← Queries.ids from.queries (one2many_sql co inverse active) current
      ok (records co_name rows))

  unfoldable pub over_many2many : Field → List ℕ → Result Found
  unfolding active_clause many2many_sql
  over_many2many f current = do
    columns ← m2m_columns f
    co_name ← comodel f
    co ← get_model from co_name
    active ← active_clause f co (codes "co")
    rows ← Queries.ids from.queries (many2many_sql columns co active) current
    ok (records co_name (once [] rows))

  over_many2one : Model → Field → List ℕ → Result Found
  unfolding in_order_sql
  over_many2one model f current = do
    rows ← Queries.links from.queries (in_order_sql f.name [] model.table) current
    ids ← targets rows
    co_name ← unwrap f.relation
    ok (records co_name (once [] ids))

  mapped_values : Model → Field → List ℕ → Result Found
  unfolding values in_order_sql
  mapped_values model f current = do
    rows ← Queries.texts from.queries (in_order_sql f.name (codes "::text") model.table) current
    out ← values f rows
    ok (scalar (array (of_list out)))

  one_value : Model → Field → ℕ → Result Found
  unfolding one_sql
  one_value model f i = do
    row ← Queries.text from.queries (one_sql f.name model.table) i
    elim row [
      | none ↦ refuse
      | some value ↦ scalar_json from.std from.doubles f value >>= (λ v. ok (scalar v))
    ]

  -- A field that holds a value of its own; `last` says that it ends the chain.
  unfoldable pub over_scalar : Model → Field → Bool → Bool → List ℕ → Result Found
  unfolding mapped_values one_value
  over_scalar model f last mapped [] =
      if not last
      then refuse
      else if mapped
      then ok (scalar (array nil))
      else scalar_json from.std from.doubles f none >>= (λ v. ok (scalar v))
  over_scalar model f last mapped (i ∷ []) =
      if not last
      then refuse
      else if mapped
      then mapped_values model f (i ∷ [])
      else one_value model f i
  over_scalar model f last mapped (i ∷ j ∷ is) =
      if not last then refuse else if mapped then mapped_values model f (i ∷ j ∷ is) else refuse

  unfoldable pub column_hop : Model → Field → Bool → Bool → List ℕ → Result Found
  unfolding over_many2one over_scalar
  column_hop model f last mapped current =
      if not f.has_column then refuse else elim (Field.ttype f) [
        | many2one ↦ over_many2one model f current
        | _ ↦ over_scalar model f last mapped current
      ]

  -- The `match` on the type of a field that is not related.
  unfoldable pub hop : Bytes → Model → Field → Bool → Bool → List ℕ → Result Found
  unfolding supported over_one2many over_many2many column_hop
  hop name model f last mapped current = do
    supported f
    by_relation f.ttype f.stored (over_one2many name f current) (over_many2many f current)
        (column_hop model f last mapped current)
