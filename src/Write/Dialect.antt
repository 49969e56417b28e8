-- ===== src/Write/Dialect.antt =====
-- kernel/src/write.rs: `to_odoo_dialect`, which puts the persistence port's placeholders for the
-- compiler's. The text is read byte by byte: no byte of a character beyond ASCII is one that the code
-- asks for. What a date's text is, and the widening of a single-precision float, are parameters.
pub mod RoundTrip
use odoo_rust_orm.Prelude.{
  ℕ, zero, suc, ◌+◌, ◌-◌, ◌*◌, ◌/◌, ◌%◌, Bool, true, false, not, ◌&&◌, List, [], ◌∷◌, ◌++◌, Option,
  none, some, Bytes, codes, length, get_elem?, take, drop, ltb, ◌==◌, if◌then◌else◌,
}
use odoo_rust_orm.Error.{Result, ok, err, other, ◌>>=◌, refuse}
use odoo_rust_orm.Json.{
  Json, null, bool, number, string, array, object, Number, float, Items, nil, cons, Fields, end,
  field,
}
use odoo_rust_orm.Sqllex.{Opaque, opaque, is_digit, next_is_digit, is_after_ident}
use odoo_rust_orm.Sqllex.Quoting.{replace}
use odoo_rust_orm.Scan.{scan}

-- The variants of `sea_query::Value` that the code reads; the integer types are one.
mutual
  pub data Value (D T : Type 0) : Type 0 where
    of_bool : Option Bool → Value D T
    of_integer : Option Number → Value D T
    of_double : Option ℕ → Value D T
    of_float : Option ℕ → Value D T
    of_string : Option Bytes → Value D T
    of_date : Option D → Value D T
    of_date_time : Option T → Value D T
    of_array : Values D T → Value D T
    no_array : Value D T
    of_other : Value D T

  pub data Values (D T : Type 0) : Type 0 where
    no_values : Values D T
    a_value : Value D T → Values D T → Values D T

-- `v.map_or(J::Null, f)`
abbrev pub or_null : {A : Type 0} → (A → Json) → Option A → Json
or_null f none = null
or_null f (some a) = f a

-- `J::from` of a double: JSON has no infinity and no NaN.
unfoldable pub of_f64 : ℕ → Json
of_f64 bits = if (bits / 4503599627370496) % 2048 == 2047 then null else number (float bits)

abbrev tagged : Bytes → Bytes → Json
tagged key text = object (field key (string text) end)

module _ {D T : Type 0} (date_text : D → Bytes) (date_time_text : T → Bytes) (widen : ℕ → ℕ) where
  unfoldable mutual
    pub value_to_json : Value D T → Result Json
    value_to_json (of_bool v) = ok (or_null (λ b. bool b) v)
    value_to_json (of_integer v) = ok (or_null (λ n. number n) v)
    value_to_json (of_double v) = ok (or_null of_f64 v)
    value_to_json (of_float v) = ok (or_null (λ f. of_f64 (widen f)) v)
    value_to_json (of_string v) = ok (or_null (λ s. string s) v)
    value_to_json (of_date v) = ok (or_null (λ d. tagged (codes "__date__") (date_text d)) v)
    value_to_json (of_date_time v) =
        ok (or_null (λ t. tagged (codes "__datetime__") (date_time_text t)) v)
    value_to_json (of_array items) = do values ← values_to_json items; ok (array values)
    value_to_json no_array = ok null
    value_to_json of_other = refuse

    pub values_to_json : Values D T → Result Items
    values_to_json no_values = ok nil
    values_to_json (a_value v vs) = do
      item ← value_to_json v
      items ← values_to_json vs
      ok (cons item items)

-- How many digits follow.
unfoldable pub digit_run : Bytes → ℕ
digit_run [] = 0
digit_run (b ∷ bs) = let more = digit_run bs in if is_digit b then suc more else 0

abbrev pub usize_max : ℕ
usize_max = 18446744073709551615

unfoldable pub number_of : ℕ → Bytes → ℕ
number_of acc [] = acc
number_of acc (b ∷ bs) = number_of (10 * acc + (b - b'0')) bs

-- `parse::<usize>()` of digits
unfoldable pub parse_usize : Bytes → Result ℕ
unfolding number_of
parse_usize digits =
    let n = number_of 0 digits in if ltb usize_max n then err (other ∷ []) else ok n

-- `index.wrapping_sub(1)`
abbrev pub before : ℕ → ℕ
before index = if index == 0 then usize_max else index - 1

-- The text so far and its parameters.
pub record Dialect : Type 0 where
  pub out : Bytes
  pub params : List Json

unfoldable pub append_text : Bytes → Dialect → Dialect
append_text more s = record { out = s.out ++ more; params = s.params }

module _ {V : Type 0} (to_json : V → Result Json) (values : List V) where
  unfoldable pub look_up : ℕ → Result Json
  look_up index = elim (get_elem? values (before index)) [ none ↦ refuse | some v ↦ to_json v ]

  -- Behind a `$` that a digit follows.
  unfoldable pub parameter : ℕ → Bytes → Dialect → Result (ℕ × Dialect)
  parameter i rest s = do
    index ← parse_usize (take (digit_run rest) rest)
    value ← look_up index
    ok (
      i + 1 + digit_run rest,
      record { out = s.out ++ codes "%s"; params = s.params ++ value ∷ [] },
    )

  unfoldable pub dialect_byte : Bytes → ℕ → ℕ → Bytes → Dialect → Result (ℕ × Dialect)
  dialect_byte sql i c rest s =
      if c == b'%'
      then ok (i + 1, append_text (b'%' ∷ b'%' ∷ []) s)
      else if c == b'$' && not (is_after_ident sql i) && next_is_digit rest
      then parameter i rest s
      else ok (i + 1, append_text (c ∷ []) s)

  unfoldable pub dialect_region : ℕ → Bytes → Opaque → Dialect → Result (ℕ × Dialect)
  dialect_region i from_i token s =
      if not token.terminated
      then refuse
      else ok
          (token.end, append_text (replace b'%' (b'%' ∷ b'%' ∷ []) (take (token.end - i) from_i)) s)

  -- One round of the loop.
  unfoldable pub dialect_round : Bytes → ℕ → Bytes → Dialect → Result (ℕ × Dialect)
  dialect_round sql i [] s = ok (i, s)
  dialect_round sql i (c ∷ rest) s = elim (opaque sql i) [
    | none ↦ dialect_byte sql i c rest s
    | some token ↦ dialect_region i (c ∷ rest) token s
  ]

  unfoldable pub to_odoo_dialect : Bytes → Result (Bytes × List Json)
  to_odoo_dialect sql = do
    s ← scan (dialect_round sql) sql (record { out = []; params = [] })
    ok (s.out, s.params)
