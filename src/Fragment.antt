-- ===== src/Fragment.antt =====
-- kernel/src/fragment.rs: the SQL comparands that Python resolved.
-- The text is read byte by byte: no byte of a character beyond ASCII is one that the code asks for.
-- `array_type` of a value is the sea_query crate's.
pub mod Placeholders
use odoo_rust_orm.Prelude.{
  ℕ, zero, suc, ◌+◌, ◌-◌, Bool, true, false, not, ◌&&◌, List, [], ◌∷◌, ◌++◌, Option, none, some,
  map, Bytes, codes, bytes_eq, length, get_elem?, take, any, leb, ◌==◌, if◌then◌else◌,
}
use odoo_rust_orm.Error.{Result, ok, err, ◌>>=◌, refuse}
use odoo_rust_orm.Json.{
  Json, bool, null, number, string, array, object, Number, pos_int, neg_int, float, Items, nil,
  cons, Fields, end, field,
}
use odoo_rust_orm.Sqllex.{Kind, text, identifier, dollar_string, comment, Opaque, opaque}
use odoo_rust_orm.Scan.{scan}
use odoo_rust_orm.Decimal.{decimal}

-- The variants of `sea_query::Value` and `ArrayType` that the code builds or asks for.
pub data ArrayType : Type 0 where
  big_ints strings others : ArrayType

mutual
  pub data Value : Type 0 where
    a_bool : Bool → Value
    big_int : Number → Value
    double : ℕ → Value
    a_string : Bytes → Value
    an_array : ArrayType → Values → Value

  pub data Values : Type 0 where
    no_values : Values
    a_value : Value → Values → Values

abbrev pub of_values : List Value → Values
of_values [] = no_values
of_values (v ∷ vs) = a_value v (of_values vs)

-- `object.get(key)`
unfoldable pub get_field : Bytes → Fields → Option Json
get_field key end = none
get_field key (field name value rest) =
    let later = get_field key rest in if bytes_eq name key then some value else later

unfoldable pub is_fragment : Json → Bool
is_fragment (object fields) = elim (get_field (codes "$sql") fields) [
  | none ↦ false
  | some _ ↦ true
]
is_fragment _ = false

unfoldable pub cast : Value → Bytes
cast (a_bool _) = codes "bool"
cast (big_int _) = codes "int8"
cast (double _) = codes "float8"
cast (an_array big_ints _) = codes "int8[]"
cast (an_array _ _) = codes "text[]"
cast (a_string _) = codes "text"

abbrev pub i64_max : ℕ
i64_max = 9223372036854775807

-- A number's typed form: never a rounded one.
unfoldable pub number_param : Number → Result Value
number_param (pos_int n) = if leb n i64_max then ok (big_int (pos_int n)) else refuse
number_param (neg_int n) = ok (big_int (neg_int n))
number_param (float bits) = ok (double bits)

abbrev same_type : ArrayType → ArrayType → Bool
same_type big_ints big_ints = true
same_type strings strings = true
same_type others others = true
same_type _ _ = false

-- The element type that an array's first value sets.
abbrev first_type : List Value → Result ArrayType
first_type (big_int _ ∷ _) = ok big_ints
first_type (a_string _ ∷ _) = ok strings
first_type _ = refuse

module _ (array_type : Value → ArrayType) where
  array_param : List Value → Result Value
  array_param values = do
    kind ← first_type values
    if any (λ v. not (same_type (array_type v) kind)) values
        then refuse
        else ok (an_array kind (of_values values))

  unfoldable mutual
    unfolding array_param

    pub param : Json → Result Value
    param (bool b) = ok (a_bool b)
    param (number n) = number_param n
    param (string s) = ok (a_string s)
    param (array items) = do values ← params_of items; array_param values
    param _ = refuse

    pub params_of : Items → Result (List Value)
    params_of nil = ok []
    params_of (cons item items) = do
      value ← param item
      values ← params_of items
      ok (value ∷ values)

-- The quoted text of a region, with its `%%` undone.
unfoldable pub unescape : Bytes → Result Bytes
unescape [] = ok []
unescape (c ∷ []) = if c == b'%' then refuse else if c == b'$' then refuse else ok (c ∷ [])
unescape (c ∷ d ∷ rest) =
    let two = unescape rest in
    let one = unescape (d ∷ rest) in
    if c == b'%'
    then (if d == b'%' then (two >>= λ out. ok (b'%' ∷ out)) else refuse)
    else if c == b'$'
    then refuse
    else (one >>= λ out. ok (c ∷ out))

-- The text so far, and how many placeholders it has used.
pub record Rewriting : Type 0 where
  pub out : Bytes
  pub used : ℕ

unfoldable pub push : Bytes → Rewriting → Rewriting
push more s = record { out = s.out ++ more; used = s.used }

unfoldable pub region : ℕ → Bytes → Opaque → Rewriting → Result (ℕ × Rewriting)
region i from_i token s = if not token.terminated then refuse else elim token.kind [
  | comment ↦ ok (token.end, push (b' ' ∷ []) s)
  | dollar_string ↦ refuse
  | text ↦ unescape (take (token.end - i) from_i) >>= λ out. ok (token.end, push out s)
  | identifier ↦ unescape (take (token.end - i) from_i) >>= λ out. ok (token.end, push out s)
]

unfoldable pub placeholder : List Bytes → ℕ → Rewriting → Result (ℕ × Rewriting)
placeholder casts i s = elim (get_elem? casts s.used) [
  | none ↦ refuse
  | some kind ↦ ok (
    i + 2,
    record {
      out = s.out ++ b'$' ∷ (decimal (s.used + 1) ++ codes "::" ++ kind);
      used = s.used + 1;
    },
  )
]

-- Behind a `%`.
unfoldable pub percent : List Bytes → ℕ → Bytes → Rewriting → Result (ℕ × Rewriting)
percent casts i [] s = refuse
percent casts i (d ∷ rest) s =
    if d == b'%'
    then ok (i + 2, push (b'%' ∷ []) s)
    else if d == b's'
    then placeholder casts i s
    else refuse

unfoldable pub bare : List Bytes → ℕ → ℕ → Bytes → Rewriting → Result (ℕ × Rewriting)
bare casts i c rest s =
    if c == b'%'
    then percent casts i rest s
    else if c == b'$'
    then refuse
    else if c == b';'
    then refuse
    else ok (i + 1, push (c ∷ []) s)

-- One round of the loop of `rewrite`.
unfoldable pub rewrite_round : Bytes → List Bytes → ℕ → Bytes → Rewriting → Result (ℕ × Rewriting)
rewrite_round code casts i [] s = ok (i, s)
rewrite_round code casts i (c ∷ rest) s = elim (opaque code i) [
  | some token ↦ region i (c ∷ rest) token s
  | none ↦ bare casts i c rest s
]

unfoldable pub rewrite : Bytes → List Bytes → Result Bytes
rewrite code casts = do
  s ← scan (rewrite_round code casts) code (record { out = []; used = 0 })
  if s.used == length casts then ok s.out else refuse

abbrev string_of : Option Json → Option Bytes
string_of (some (string s)) = some s
string_of _ = none

abbrev params_json : Option Json → Result Items
params_json none = ok nil
params_json (some (array items)) = ok items
params_json (some _) = refuse

-- `subselect`, up to the expression that it wraps: the text and its values.
unfoldable pub bind_fragment : (Value → ArrayType) → Fields → Result (Bytes × List Value)
bind_fragment array_type fields = elim (string_of (get_field (codes "$sql") fields)) [
  | none ↦ refuse
  | some code ↦ (do
    items ← params_json (get_field (codes "$params") fields)
    values ← params_of array_type items
    sql ← rewrite code (map cast values)
    ok (codes "(" ++ sql ++ codes ")", values))
]

unfoldable pub subselect : (Value → ArrayType) → Json → Option Bytes → Result (Bytes × List Value)
subselect array_type (object fields) (some expected) =
    elim (string_of (get_field (codes "$nonce") fields)) [
      | none ↦ refuse
      | some nonce ↦ if bytes_eq nonce expected then bind_fragment array_type fields else refuse
    ]
subselect array_type _ _ = refuse
