-- ===== src/Tests/Writes.antt =====
-- Runs of kernel/src/write.rs and of the cursor's translation, and their theorems at concrete texts.
use odoo_rust_orm.Prelude.{
  Bool, true, false, List, [], ◌∷◌, none, some, ◌≡◌, refl, Bytes, codes, replicate, bytes_eq,
  if◌then◌else◌, some-injective, subst,
}
use odoo_rust_orm.Error.{Result, ok, refuse}
use odoo_rust_orm.Json.{Json, number, string, pos_int}
use odoo_rust_orm.Decimal.{decimal, decimal_loop}
use odoo_rust_orm.Scan.{scan, scan_from}
use odoo_rust_orm.Sqllex.{opaque, is_ident_byte, is_after_ident}
use odoo_rust_orm.Sqllex.Quoting.{ident, replace}
use odoo_rust_orm.Cursor.{
  find_close, named, translate_round, translate_from, translate_placeholders,
}
use odoo_rust_orm.Write.{
  uniform, Field, Model, lacks_cast, refuse_column, writable, update_uniform, update_text,
  update_rows_sql, insertable, insert_text, insert_rows_sql,
}
use odoo_rust_orm.Write.Rows.{IsPlain, PlainField}
use odoo_rust_orm.Write.Rows.Counts.{sent, update_rows_sql-sent}
use odoo_rust_orm.Write.Dialect.{
  Value, of_integer, of_string, value_to_json, digit_run, number_of, parse_usize, append_text,
  look_up, parameter, dialect_byte, dialect_region, dialect_round, to_odoo_dialect,
}
use odoo_rust_orm.Write.Dialect.RoundTrip.{to_odoo_dialect-translate_placeholders}

translates :
    (translate_placeholders (codes "a=%s AND b=%(x)s AND c LIKE '%%'")
      ≡ (codes "a=$1 AND b=$2 AND c LIKE '%'", [] ∷ codes "x" ∷ []))
    × (translate_placeholders (codes "%(x") ≡ (codes "%(x", []))
unfolding find_close named translate_round translate_from translate_placeholders decimal
    decimal_loop
translates = (refl, refl)

abbrev to_json : Value (Unit {0}) (Unit {0}) → Result Json
to_json v = value_to_json (λ d. []) (λ t. []) (λ f. f) v

dialect_two :
    to_odoo_dialect to_json
      (of_integer (some (pos_int 7)) ∷ of_string (some (codes "x")) ∷ [])
      (codes "a=$2 AND b='5%$1' AND c=$1 AND d=$2")
    ≡ ok (
      codes "a=%s AND b='5%%$1' AND c=%s AND d=%s",
      string (codes "x") ∷ number (pos_int 7) ∷ string (codes "x") ∷ [],
    )
unfolding opaque is_ident_byte is_after_ident scan scan_from value_to_json digit_run number_of
    parse_usize append_text look_up parameter dialect_byte dialect_region dialect_round
    to_odoo_dialect replace
dialect_two = refl

to_odoo_dialect-translate_placeholders_example :
    (translate_placeholders (codes "a=%s AND b='5%%$1' AND c=%s AND d=%s")).1 ≡ [] ∷ [] ∷ [] ∷ []
to_odoo_dialect-translate_placeholders_example =
    to_odoo_dialect-translate_placeholders to_json
      (of_integer (some (pos_int 7)) ∷ of_string (some (codes "x")) ∷ [])
      (codes "a=$2 AND b='5%$1' AND c=$1 AND d=$2") dialect_two

dialect_none :
    to_odoo_dialect to_json [] (codes "SELECT 5 % 2, '%s'") ≡ ok (codes "SELECT 5 %% 2, '%%s'", [])
unfolding opaque is_ident_byte is_after_ident scan scan_from value_to_json digit_run number_of
    parse_usize append_text look_up parameter dialect_byte dialect_region dialect_round
    to_odoo_dialect replace
dialect_none = refl

abbrev name_field : Field
name_field = record {
  name = codes "name";
  has_column = true;
  column_cast = some (codes "jsonb");
  company_dependent = false;
  translate_whole = true;
}

abbrev partner : Model
partner = record {
  table = codes "res_partner";
  fields = λ fname. if bytes_eq fname (codes "name") then some name_field else none;
}

abbrev registry : Bytes → Result Model
registry name = if bytes_eq name (codes "res.partner") then ok partner else refuse

partner-is : registry (codes "res.partner") ≡ ok partner
unfolding bytes_eq
partner-is = refl

abbrev update : Bytes
update = update_uniform (ident (codes "res_partner")) (name_field ∷ [])

update_is : update_rows_sql registry (codes "res.partner") (codes "name" ∷ []) uniform 4 ≡ ok update
unfolding update_rows_sql bytes_eq writable refuse_column lacks_cast update_text
update_is = refl

IsPlain-table : IsPlain (ident (codes "res_partner"))
unfolding ident
IsPlain-table = refl

same_field :
    (b : Bool) (f : Field) → (if b then some name_field else none) ≡ some f → name_field ≡ f
same_field true f h = some-injective h
same_field false f h = cc

plain_fields : (fname : Bytes) (f : Field) → partner.fields fname ≡ some f → PlainField f
plain_fields fname f h =
    subst PlainField (same_field (bytes_eq fname (codes "name")) f h)
      (record { plain_name = refl; plain_cast = refl })

update_rows_sql-sent_example :
    (fields : List Field) × (writable partner (codes "name" ∷ []) ≡ ok fields)
    × ((translate_placeholders update).1 ≡ replicate (sent uniform fields 4) [])
update_rows_sql-sent_example =
    update_rows_sql-sent registry (codes "res.partner") partner partner-is IsPlain-table
      plain_fields (codes "name" ∷ []) uniform 4 update_is

abbrev insertion : Bytes
insertion = insert_text (ident (codes "res_partner")) (codes "name" ∷ []) 3

insertion_is : insert_rows_sql registry (codes "res.partner") (codes "name" ∷ []) 3 ≡ ok insertion
unfolding insert_rows_sql bytes_eq insertable lacks_cast
insertion_is = refl
