-- ===== src/Tests/Fragments.antt =====
-- Runs of kernel/src/fragment.rs on the texts of its own tests, and its theorems at a concrete one.
use odoo_rust_orm.Prelude.{[], ◌∷◌, some, map, ◌≡◌, refl, Bytes, codes, bytes_eq}
use odoo_rust_orm.Error.{ok, refuse}
use odoo_rust_orm.Json.{number, string, array, object, pos_int, cons, nil, Fields, end, field}
use odoo_rust_orm.Sqllex.{opaque, is_ident_byte, is_after_ident}
use odoo_rust_orm.Scan.{scan, scan_from}
use odoo_rust_orm.Decimal.{decimal, decimal_loop}
use odoo_rust_orm.Fragment.{
  Value, big_int, a_string, ArrayType, big_ints, strings, others, cast, get_field, number_param,
  param, unescape, push, region, placeholder, percent, bare, rewrite_round, rewrite, bind_fragment,
  subselect,
}
use odoo_rust_orm.Fragment.Placeholders.{dollars, subselect_lem}

rewrites :
    (rewrite (codes "SELECT E'it\\'s %%' WHERE a=%s") (codes "int8" ∷ [])
      ≡ ok (codes "SELECT E'it\\'s %' WHERE a=$1::int8"))
    × (rewrite (codes "SELECT /* outer /* inner */ %s; $1 */ %s") (codes "int8" ∷ [])
        ≡ ok (codes "SELECT   $1::int8"))
    × (rewrite (codes "SELECT $1") [] ≡ refuse)
    × (rewrite (codes "SELECT %s") [] ≡ refuse)
    × (rewrite (codes "SELECT 1; DROP TABLE t") [] ≡ refuse)
    × (rewrite (codes "SELECT 'open") [] ≡ refuse)
unfolding opaque is_ident_byte is_after_ident scan scan_from decimal decimal_loop unescape push
    region placeholder percent bare rewrite_round rewrite
rewrites = (refl, refl, refl, refl, refl, refl)

rewrite_two :
    rewrite (codes "a=%s AND b=%s") (map cast (big_int (pos_int 7) ∷ a_string (codes "x") ∷ []))
    ≡ ok (codes "a=$1::int8 AND b=$2::text")
unfolding opaque is_ident_byte is_after_ident scan scan_from decimal decimal_loop unescape push
    region placeholder percent bare rewrite_round rewrite cast
rewrite_two = refl

abbrev element_type : Value → ArrayType
element_type (big_int _) = big_ints
element_type (a_string _) = strings
element_type _ = others

abbrev comparand : Fields
comparand = field (codes "$sql") (string (codes "SELECT id WHERE p=%s")) (
    field (codes "$params") (array (cons (number (pos_int 7)) nil))
      (field (codes "$nonce") (string (codes "n")) end))

comparand_is :
    subselect element_type (object comparand) (some (codes "n"))
    ≡ ok (codes "(SELECT id WHERE p=$1::int8)", big_int (pos_int 7) ∷ [])
unfolding opaque is_ident_byte is_after_ident scan scan_from decimal decimal_loop unescape push
    region placeholder percent bare rewrite_round rewrite cast get_field number_param param
    bind_fragment subselect bytes_eq
comparand_is = refl

subselect_lem_example :
    (expected : Bytes) × (fields : Fields) × (some (codes "n") ≡ some expected)
    × (object comparand ≡ object fields)
    × (get_field (codes "$nonce") fields ≡ some (string expected))
    × (dollars (codes "(SELECT id WHERE p=$1::int8)") ≡ 1)
subselect_lem_example =
    subselect_lem element_type (object comparand) (some (codes "n")) comparand_is
