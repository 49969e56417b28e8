-- ===== src/Registry/Fields.antt =====
-- kernel/src/registry.rs: the types of fields, and what a field and its model say of where its value
-- is stored.
pub mod Readable
use odoo_rust_orm.Prelude.{
  ℕ, Bool, true, false, not, ◌&&◌, ◌||◌, List, [], ◌∷◌, Option, none, some, Bytes, codes, bytes_eq,
  ◌==◌, if◌then◌else◌, ◌⊎◌,
}
use odoo_rust_orm.Error.{Result, ok, err, ◌>>=◌, ◌>>◌, refuse}
use odoo_rust_orm.Json.{
  Json, null, bool, number, string, array, object, pos_int, float, Fields, end, field,
}
use odoo_rust_orm.Assoc.{lookup, name_key}

pub data FieldType : Type 0 where
  boolean integer floating monetary char text html date datetime selection many2one one2many :
      FieldType
  many2many binary json properties reference many2one_reference other : FieldType

abbrev pub type_names : List (Bytes × FieldType)
type_names =
    (codes "boolean", boolean)
    ∷ (codes "integer", integer)
    ∷ (codes "float", floating)
    ∷ (codes "monetary", monetary)
    ∷ (codes "char", char)
    ∷ (codes "text", text)
    ∷ (codes "html", html)
    ∷ (codes "date", date)
    ∷ (codes "datetime", datetime)
    ∷ (codes "selection", selection)
    ∷ (codes "many2one", many2one)
    ∷ (codes "one2many", one2many)
    ∷ (codes "many2many", many2many)
    ∷ (codes "binary", binary)
    ∷ (codes "json", json)
    ∷ (codes "properties", properties)
    ∷ (codes "properties_definition", properties)
    ∷ (codes "reference", reference)
    ∷ (codes "many2one_reference", many2one_reference)
    ∷ []

-- `FieldType::parse`
unfoldable pub parse_type : Bytes → FieldType
parse_type s = elim (lookup s type_names) [ none ↦ other | some t ↦ t ]

abbrev pub is_text : FieldType → Bool
is_text char = true
is_text text = true
is_text html = true
is_text _ = false

-- The value that a type has where a field holds none; 0.0 has the bit pattern 0.
abbrev pub falsy_of : FieldType → Option Json
falsy_of char = some (string [])
falsy_of text = some (string [])
falsy_of html = some (string [])
falsy_of integer = some (number (pos_int 0))
falsy_of floating = some (number (float 0))
falsy_of monetary = some (number (float 0))
falsy_of boolean = some (bool false)
falsy_of many2one_reference = some (number (pos_int 0))
falsy_of _ = none

unfoldable pub falsy_json_for_type : FieldType → Bytes → Option Json
falsy_json_for_type ttype name = if bytes_eq name (codes "id") then none else falsy_of ttype

-- The members of the struct that the functions of the model read.
pub record Field : Type 0 where
  pub name : Bytes
  pub ttype : FieldType
  pub relation : Option Bytes
  pub relation_table : Option Bytes
  pub column1 : Option Bytes
  pub column2 : Option Bytes
  pub relation_field : Option Bytes
  pub one2one : Option Bool
  pub company_dependent : Bool
  pub has_column : Bool
  pub stored : Bool
  pub translated : Bool
  pub related : Option Bytes
  pub domain : Option Json
  pub domain_callable : Bool
  pub context : Option Json
  pub groups : Option Bytes
  pub python_read_access : Option Bool
  pub falsy : Option Json
  pub custom_search : Bool

pub record Model : Type 0 where
  pub name : Bytes
  pub table : Bytes
  pub fields : List (Bytes × Field)
  pub inherits_rules : Bool
  pub table_inheritance_root : Option Bytes
  pub access_company_anchor : Option Bytes
  pub active_name : Option Bytes
  pub rec_name : Option Bytes
  pub read_path_pure : Bool
  pub impure_read_methods : List Bytes
  pub display_name_default : Bool
  pub display_name_column : List Bytes

unfoldable pub ensure_supported_read_access : Field → Result (Unit {0})
ensure_supported_read_access f = elim f.python_read_access [
  | none ↦ refuse
  | some policy ↦ if policy then refuse else ok tt
]

-- `ok_or_else` of a refusal.
abbrev pub required {ℓ} : {A : Type ℓ} → Option A → Result A
required none = refuse
required (some a) = ok a

unfoldable pub comodel : Field → Result Bytes
comodel f = required f.relation

unfoldable pub computed_x2many_refusal : Field → Result (Unit {0})
computed_x2many_refusal f = if f.stored then ok tt else refuse

unfoldable pub m2m_columns : Field → Result (Bytes × Bytes × Bytes)
unfolding computed_x2many_refusal
m2m_columns f = do
  computed_x2many_refusal f
  table ← required f.relation_table
  column1 ← required f.column1
  column2 ← required f.column2
  ok (table, column1, column2)

-- The loop over the keys of a context.
unfoldable pub active_test_in : Fields → Option Bool → Result (Option Bool)
active_test_in end out = ok out
active_test_in (field key (bool b) rest) out =
    if bytes_eq key (codes "active_test") then active_test_in rest (some b) else refuse
active_test_in (field key value rest) out = refuse

abbrev in_object : Json → Result (Option Bool)
in_object (object obj) = active_test_in obj none
in_object _ = refuse

unfoldable pub context_active_test : Field → Result (Option Bool)
context_active_test f = elim f.context [ none ↦ ok none | some context ↦ in_object context ]

unfoldable pub o2m_inverse : Field → Result Bytes
unfolding computed_x2many_refusal
o2m_inverse f = do computed_x2many_refusal f; required f.relation_field

unfoldable pub o2m_inverse_column : Field → Model → Result Bytes
unfolding o2m_inverse
o2m_inverse_column f co = do
  inverse ← o2m_inverse f
  column ← required (lookup inverse co.fields)
  if Field.has_column column then ok inverse else refuse
