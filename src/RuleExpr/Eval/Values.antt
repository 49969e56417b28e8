-- ===== src/RuleExpr/Eval/Values.antt =====
-- kernel/src/security.rs: what the evaluation of an expression depends on, and its sums.
use odoo_rust_orm.Prelude.{
  ℕ, ◌≡◌, refl, ap, ◌∙◌, Bool, true, false, ◌||◌, List, Option, none, some, Bytes, if◌then◌else◌,
  arith, some-injective,
}
use odoo_rust_orm.Error.{Result, ok, ◌>>=◌, refuse}
use odoo_rust_orm.Json.{Json, number, array, Number, of_list}
use odoo_rust_orm.Int.{ℤ, pos, negsuc, ◌+ℤ◌, is_i64, checked_add}
use odoo_rust_orm.RuleExpr.{
  PyExpr, Exprs, str, int, float, bool, none_value, seq, name, ref, add, no_exprs, expr,
  reads_names, any_reads_names,
}
use odoo_rust_orm.RuleExpr.Eval.{
  Doubles, int_number, as_i64, add_values, eval_py, eval_items, number_sum, int_sum,
}

or-false : (a b : Bool) → (a || b) ≡ false → (a ≡ false) × (b ≡ false)
or-false true b h = cc
or-false false b h = (refl, h)

module _ (doubles : Doubles) (name_1 name_2 : List Bytes → Result Json)
    (resolve_ref : Bytes → Result ℕ) where
  mutual
    unfolding eval_py reads_names

    -- An expression that reads no name has one value, whoever it is evaluated for.
    pub eval_py-reads_names :
        (e : PyExpr)
        → reads_names e ≡ false
        → eval_py doubles name_1 resolve_ref e ≡ eval_py doubles name_2 resolve_ref e
    eval_py-reads_names (str s) h = refl
    eval_py-reads_names (int i) h = refl
    eval_py-reads_names (float f) h = refl
    eval_py-reads_names (bool b) h = refl
    eval_py-reads_names none_value h = refl
    eval_py-reads_names (seq items) h =
        ap (λ r. r >>= λ values. ok (array (of_list values))) (eval_items-reads_names items h)
    eval_py-reads_names (name names) h = cc
    eval_py-reads_names (ref xmlid) h = refl
    eval_py-reads_names (add a b) h =
        let (p, q) = or-false (reads_names a) (reads_names b) h in
        rw (eval_py-reads_names a p, eval_py-reads_names b q)

    eval_items-reads_names :
        (items : Exprs)
        → any_reads_names items ≡ false
        → eval_items doubles name_1 resolve_ref items ≡ eval_items doubles name_2 resolve_ref items
    eval_items-reads_names no_exprs h = refl
    eval_items-reads_names (expr x xs) h =
        let (p, q) = or-false (reads_names x) (any_reads_names xs) h in
        rw (eval_py-reads_names x p, eval_items-reads_names xs q)

as_i64-int_number : (i : ℤ) → is_i64 i ≡ true → as_i64 (int_number i) ≡ some i
as_i64-int_number (pos n) h = rw h
as_i64-int_number (negsuc n) h = ap (λ k. some (negsuc k)) (omega arith)

-- The case of a value that is there.
some-intro {ℓ κ} :
    {A : Type ℓ} {B : Type κ} (P : B → Type κ) (o : Option A) (a : A) (x : B) (f : A → B)
    → o ≡ some a
    → P (f a)
    → P (elim o [ none ↦ x | some a ↦ f a ])
some-intro P none a x f e h = cc
some-intro P (some b) a x f e h = let same : b ≡ a = some-injective e in rw same h

number_sum-int :
    (doubles : Doubles) (x y : Number) (i j : ℤ)
    → as_i64 x ≡ some i
    → as_i64 y ≡ some j
    → number_sum doubles x y ≡ int_sum doubles i j
unfolding number_sum
number_sum-int doubles x y i j p q =
    some-intro (λ r. r ≡ int_sum doubles i j) (as_i64 x) i _ _ p
      (some-intro (λ r. r ≡ int_sum doubles i j) (as_i64 y) j _ _ q refl)

int_sum-exact :
    (doubles : Doubles) (i j : ℤ)
    → int_sum doubles i j ≡ (if is_i64 (i +ℤ j) then ok (number (int_number (i +ℤ j))) else refuse)
unfolding int_sum checked_add
int_sum-exact doubles i j = held (i +ℤ j) (is_i64 (i +ℤ j))
  where
    held :
        (sum : ℤ) (fits : Bool)
        → elim (if fits then some sum else none) [
          | none ↦ refuse
          | some s ↦ ok (number (int_number s))
        ]
          ≡ (if fits then ok (number (int_number sum)) else refuse)
    held sum true = refl
    held sum false = refl

-- The sum of two whole numbers is exact, or refused where 64 bits cannot hold it.
pub add_values-int :
    (doubles : Doubles) (i j : ℤ)
    → is_i64 i ≡ true
    → is_i64 j ≡ true
    → add_values doubles (number (int_number i)) (number (int_number j))
      ≡ (if is_i64 (i +ℤ j) then ok (number (int_number (i +ℤ j))) else refuse)
unfolding add_values
add_values-int doubles i j p q =
    number_sum-int doubles (int_number i) (int_number j) i j (as_i64-int_number i p)
      (as_i64-int_number j q)
    ∙ int_sum-exact doubles i j
