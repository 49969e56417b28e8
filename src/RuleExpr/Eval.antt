-- ===== src/RuleExpr/Eval.antt =====
-- kernel/src/security.rs: the evaluation of an access row's expression. The values of names and of
-- xml ids are parameters here, and so is the arithmetic on doubles, which are bit patterns.
pub mod Values
use odoo_rust_orm.Prelude.{
  ℕ, suc, ◌-◌, Bool, true, false, ◌&&◌, ◌||◌, List, [], ◌∷◌, ◌++◌, Option, none, some, Bytes, ltb,
  if◌then◌else◌,
}
use odoo_rust_orm.Error.{Result, ok, ◌>>=◌, refuse}
use odoo_rust_orm.Json.{
  Json, null, bool, number, string, array, Number, pos_int, neg_int, float, to_list, of_list,
}
use odoo_rust_orm.Int.{ℤ, pos, negsuc, checked_add}
use odoo_rust_orm.RuleExpr.{
  PyExpr, Exprs, str, int, float, bool, none_value, seq, name, ref, add, no_exprs, expr,
}

-- `json!` of an i64: a `neg_int` holds how far the number is below 0.
abbrev pub int_number : ℤ → Number
int_number (pos n) = pos_int n
int_number (negsuc n) = neg_int (suc n)

-- `Number::as_i64`
abbrev pub as_i64 : Number → Option ℤ
as_i64 (pos_int n) = if ltb n 0x8000000000000000 then some (pos n) else none
as_i64 (neg_int n) = some (negsuc (n - 1))
as_i64 (float bits) = none

abbrev is_u64 : Number → Bool
is_u64 (pos_int n) = true
is_u64 _ = false

abbrev is_none {ℓ} : {A : Type ℓ} → Option A → Bool
is_none none = true
is_none (some _) = false

-- What the program takes from the arithmetic of doubles.
pub record Doubles : Type 0 where
  pub is_finite : ℕ → Bool
  pub as_f64 : Number → Option ℕ
  pub plus : ℕ → ℕ → ℕ

module _ (doubles : Doubles) where
  unfoldable pub float_json : ℕ → Result Json
  float_json bits = if Doubles.is_finite doubles bits then ok (number (float bits)) else refuse

  abbrev double : Number → Result ℕ
  double x = elim (Doubles.as_f64 doubles x) [ none ↦ refuse | some f ↦ ok f ]

  -- Two numbers that are not both of 64 bits.
  float_sum : Number → Number → Result Json
  unfolding float_json
  float_sum x y =
      if (is_u64 x && is_none (as_i64 x)) || (is_u64 y && is_none (as_i64 y))
      then refuse
      else (do f ← double x; g ← double y; float_json (Doubles.plus doubles f g))

  int_sum : ℤ → ℤ → Result Json
  int_sum i j = elim (checked_add i j) [ none ↦ refuse | some sum ↦ ok (number (int_number sum)) ]

  number_sum : Number → Number → Result Json
  unfolding float_sum int_sum
  number_sum x y = elim (as_i64 x) [
    | none ↦ float_sum x y
    | some i ↦ elim (as_i64 y) [ none ↦ float_sum x y | some j ↦ int_sum i j ]
  ]

  unfoldable pub add_values : Json → Json → Result Json
  unfolding number_sum
  add_values (array xs) (array ys) = ok (array (of_list (to_list xs ++ to_list ys)))
  add_values (string x) (string y) = ok (string (x ++ y))
  add_values (number x) (number y) = number_sum x y
  add_values _ _ = refuse

  module _ (resolve_name : List Bytes → Result Json) (resolve_ref : Bytes → Result ℕ) where
    unfoldable mutual
      unfolding add_values float_json

      pub eval_py : PyExpr → Result Json
      eval_py (str s) = ok (string s)
      eval_py (int i) = ok (number (int_number i))
      eval_py (float f) = float_json f
      eval_py (bool b) = ok (bool b)
      eval_py none_value = ok null
      eval_py (seq items) = do values ← eval_items items; ok (array (of_list values))
      eval_py (name names) = resolve_name names
      eval_py (ref xmlid) = do id ← resolve_ref xmlid; ok (number (pos_int id))
      eval_py (add a b) = do x ← eval_py a; y ← eval_py b; add_values x y

      pub eval_items : Exprs → Result (List Json)
      eval_items no_exprs = ok []
      eval_items (expr x xs) = do value ← eval_py x; values ← eval_items xs; ok (value ∷ values)
