-- ===== src/Sqlgen/Class.antt =====
-- kernel/src/sqlgen.rs: what `optimize_leaf` asks of a leaf: the class of its operator and the type of
-- its field. The tests of the code on the operator exclude each other, so each class has its own
-- chain of rewritings; arms that no value reaches there are left out.
use odoo_rust_orm.Prelude.{
  Bool, true, false, ◌||◌, Option, none, some, Bytes, codes, bytes_eq, if◌then◌else◌,
}
use odoo_rust_orm.Error.{Result, ok}
use odoo_rust_orm.Assoc.{name_key}
use odoo_rust_orm.Json.{Json, string, array, nil, cons}
use odoo_rust_orm.Domain.{Node}
use odoo_rust_orm.RuleExpr.Chars.{Std}
use odoo_rust_orm.Registry.Fields.{
  FieldType, boolean, integer, floating, monetary, datetime, many2one, one2many, many2many,
  many2one_reference, Field, Model,
}
use odoo_rust_orm.Sqlgen.Comparands.{Floats, ends_with}
use odoo_rust_orm.Sqlgen.Days.{Calendar}

-- What the compiler knows: `checks` is whether there is an access to check.
pub record Context : Type 1 where
  pub std : Std
  pub floats : Floats
  pub calendar : Calendar
  pub models : Bytes → Option Model
  pub model : Model
  pub tz : Option Bytes
  pub checks : Bool

-- The operators that the code tells apart.
pub data Class : Type 0 where
  maybe equal unequal within without order pattern other_class : Class

unfoldable pub class_of : Bytes → Class
class_of op =
    if bytes_eq op (codes "=?")
    then maybe
    else if bytes_eq op (codes "=") || bytes_eq op (codes "==")
    then equal
    else if bytes_eq op (codes "!=") || bytes_eq op (codes "<>")
    then unequal
    else if bytes_eq op (codes "in")
    then within
    else if bytes_eq op (codes "not in")
    then without
    else if bytes_eq op (codes "<") || bytes_eq op (codes ">")
    then order
    else if bytes_eq op (codes "<=") || bytes_eq op (codes ">=")
    then order
    else if ends_with op (codes "like")
    then pattern
    else other_class

abbrev pub is_relational : FieldType → Bool
is_relational many2one = true
is_relational many2one_reference = true
is_relational one2many = true
is_relational many2many = true
is_relational _ = false

abbrev pub is_linked : FieldType → Bool
is_linked many2one = true
is_linked one2many = true
is_linked many2many = true
is_linked _ = false

abbrev pub is_floating : FieldType → Bool
is_floating floating = true
is_floating monetary = true
is_floating _ = false

abbrev pub is_integer : FieldType → Bool
is_integer integer = true
is_integer _ = false

abbrev pub is_datetime : FieldType → Bool
is_datetime datetime = true
is_datetime _ = false

abbrev pub is_boolean_type : FieldType → Bool
is_boolean_type boolean = true
is_boolean_type _ = false

-- A test on the type of a field that there is.
abbrev pub typed : (FieldType → Bool) → Option Field → Bool
typed p none = false
typed p (some f) = p f.ttype

abbrev pub is_numeric : FieldType → Bool
is_numeric t = is_integer t || is_floating t

-- What a rewriting has come to: the leaf is left to the next one, kept, or rewritten.
pub data Step : Type 0 where
  pass keep : Step
  into : Node → Step

abbrev pub or_else : Result Step → Result Step → Result Step
or_else (ok pass) next = next
or_else done next = done

abbrev pub is_dotted : Option (Bytes × Bytes) → Bool
is_dotted none = false
is_dotted (some _) = true

-- `serde_json::json!([[name, op, value]])`
abbrev pub sub_domain : Bytes → Bytes → Json → Json
sub_domain name op value =
    array (cons (array (cons (string name) (cons (string op) (cons value nil)))) nil)
