-- ===== src/Sqlgen/Comparands.antt =====
-- kernel/src/sqlgen.rs: the tests on the value that a leaf compares with, and its conversions. A text
-- is the list of its characters.
use odoo_rust_orm.Prelude.{
  ℕ, ◌+◌, ◌-◌, Bool, true, false, not, ◌&&◌, ◌||◌, [], ◌∷◌, Option, none, some, map, Bytes, codes,
  bytes_eq, length, take, drop, any, ltb, leb, ◌==◌, if◌then◌else◌,
}
use odoo_rust_orm.Error.{Result, ok, err, refuse}
use odoo_rust_orm.Json.{
  Json, null, bool, number, string, array, object, Number, pos_int, neg_int, float, nil, cons, end,
  field, zero_value, sentinel_of,
}
use odoo_rust_orm.Decimal.{decimal}
use odoo_rust_orm.Int.{ℤ}
use odoo_rust_orm.RuleExpr.Chars.{Std, parse_i64}
use odoo_rust_orm.RuleExpr.Eval.{Doubles, int_number}
use odoo_rust_orm.Registry.Fields.Readable.{trim}

unfoldable pub is_null_like : Json → Bool
is_null_like null = true
is_null_like (bool false) = true
is_null_like _ = false

-- `n.as_f64() == Some(0.0)`
abbrev pub is_zero : Number → Bool
is_zero n = elim (sentinel_of n) [ zero_value ↦ true | _ ↦ false ]

unfoldable pub is_py_falsy : Json → Bool
is_py_falsy null = true
is_py_falsy (bool b) = not b
is_py_falsy (number n) = is_zero n
is_py_falsy (string s) = bytes_eq s []
is_py_falsy (array nil) = true
is_py_falsy (array (cons _ _)) = false
is_py_falsy (object end) = true
is_py_falsy (object (field _ _ _)) = false

unfoldable pub is_falsy_id : Json → Bool
is_falsy_id (number n) = is_zero n
is_falsy_id _ = false

abbrev pub is_number : Json → Bool
is_number (number _) = true
is_number _ = false

abbrev pub is_string : Json → Bool
is_string (string _) = true
is_string _ = false

abbrev pub is_boolean_value : Json → Bool
is_boolean_value (bool _) = true
is_boolean_value _ = false

abbrev pub is_true : Json → Bool
is_true (bool true) = true
is_true _ = false

-- `char::to_ascii_lowercase`
abbrev lower : ℕ → ℕ
lower c = if leb b'A' c && leb c b'Z' then c + 32 else c

unfoldable pub py_str2bool : Std → Bytes → Bool
py_str2bool std s =
    any (bytes_eq (map (λ c. lower c) (trim std s)))
      (codes "1" ∷ codes "true" ∷ codes "yes" ∷ codes "y" ∷ codes "on" ∷ codes "t" ∷ [])

unfoldable pub number_as_python_text : Number → Result Bytes
number_as_python_text (pos_int n) = ok (decimal n)
number_as_python_text (neg_int n) = ok (b'-' ∷ decimal n)
number_as_python_text (float _) = refuse

-- What the program takes from the arithmetic of doubles: also the text of a double of no fraction
-- that is below 10^15, as of a whole number.
pub record Floats : Type 0 where
  pub doubles : Doubles
  pub whole_text : ℕ → Option Bytes

unfoldable pub float_pattern_text : Floats → Number → Result Bytes
float_pattern_text floats (pos_int n) = if ltb n 1000000000000000 then ok (decimal n) else refuse
float_pattern_text floats (neg_int n) =
    if ltb n 1000000000000000 then ok (b'-' ∷ decimal n) else refuse
float_pattern_text floats (float bits) = elim (floats.whole_text bits) [
  | none ↦ refuse
  | some s ↦ ok s
]

-- `s.trim().parse::<f64>()`
abbrev pub as_double : Floats → Result ℕ → Result (Option Json)
as_double floats (ok bits) =
    if Doubles.is_finite floats.doubles bits then ok (some (number (float bits))) else refuse
as_double floats (err chain) = ok none

abbrev pub whole_or : Result (Option Json) → Result ℤ → Result (Option Json)
whole_or double (ok i) = ok (some (number (int_number i)))
whole_or double (err chain) = double

abbrev pub as_whole : Result (Option Json) → Bool → Bytes → Result (Option Json)
as_whole double false s = double
as_whole double true s = whole_or double (parse_i64 s)

unfoldable pub coerce_numeric : Std → Floats → Json → Bool → Result (Option Json)
coerce_numeric std floats (string s) integer =
    if any (λ c. leb 0x80 c) s || any (λ c. c == b'_') s
    then refuse
    else as_whole (as_double floats (Std.parse_f64 std (trim std s))) integer (trim std s)
coerce_numeric std floats v integer = ok (some v)

-- `str::ends_with`
unfoldable pub ends_with : Bytes → Bytes → Bool
ends_with s suffix = bytes_eq (drop (length s - length suffix) s) suffix

-- `str::starts_with`
unfoldable pub starts_with : Bytes → Bytes → Bool
starts_with s prefix = bytes_eq (take (length prefix) s) prefix
