-- ===== src/Sqlgen/Leaves/Ranked.antt =====
-- kernel/src/sqlgen.rs: each rewriting of a leaf of an order or a pattern leads to leaves of a lower
-- rank.
use odoo_rust_orm.Prelude.{
  ℕ, ◌<◌, Bool, true, false, ◌&&◌, [], ◌∷◌, Option, none, some, ◌≡◌, refl, ap, arith, if-intro,
  Bool-cases, inl, inr,
}
use odoo_rust_orm.Error.{Result, ok, err, Each, Each-then, Each-step}
use odoo_rust_orm.Json.{Json, number, string, array}
use odoo_rust_orm.Domain.{Leaf}
use odoo_rust_orm.Domain.Internal.{leaves}
use odoo_rust_orm.Domain.Junctions.{value}
use odoo_rust_orm.ReadRules.{split_once}
use odoo_rust_orm.Registry.Fields.{is_text, Field}
use odoo_rust_orm.Sqlgen.Comparands.{
  is_null_like, is_number, is_string, number_as_python_text, coerce_numeric,
}
use odoo_rust_orm.Sqlgen.Days.{leaf_node, values_of}
use odoo_rust_orm.Sqlgen.Class.{
  Context, order, class_of, typed, is_numeric, is_integer, is_datetime, is_linked, is_dotted, Step,
}
use odoo_rust_orm.Sqlgen.Members.{to_text, days}
use odoo_rust_orm.Sqlgen.Orders.{
  text_value, refuse_name, numeric_of, numeric_value, against_falsy, null_order, is_list_or_true,
  rewrite_order,
}
use odoo_rust_orm.Sqlgen.Leaves.{field_of}
use odoo_rust_orm.Sqlgen.Leaves.Bounds.{order_defects-le}
use odoo_rust_orm.Sqlgen.Leaves.Rank.{
  flag, order_defects, order_rank, AllBelow, Lower, leaf_node-AllBelow, order_defects_text,
  order_defects_numeric,
}
use odoo_rust_orm.Sqlgen.Leaves.Sets.{IsNumber, coerce_numeric-IsNumber}
use odoo_rust_orm.Sqlgen.Leaves.Dates.{Blankless}
use odoo_rust_orm.Sqlgen.Leaves.DayOrders.{Rewritten-day_order}
use odoo_rust_orm.Sqlgen.Leaves.Ends.{or_else-Lower, if_rewritten-Lower, Lower-refuse, and_split}

number_set : (v : Json) → is_number v ≡ true → is_null_like v ≡ false
unfolding is_null_like
number_set (number n) h = refl
number_set _ h = cc

string_set : (v : Json) → is_string v ≡ true → is_null_like v ≡ false
unfolding is_null_like
string_set (string s) h = refl
string_set _ h = cc

abbrev IsText : Json → Type 0
IsText v = (is_number v ≡ false) × (is_null_like v ≡ false)

to_text-IsText : (v : Json) → is_number v ≡ true → Each IsText (to_text v)
unfolding is_null_like
to_text-IsText (number n) h = Each-step IsText (number_as_python_text n) _ (λ s. (refl, refl))
to_text-IsText _ h = cc

coerced-IsNumber :
    (c : Context) (v : Json) (whole : Bool)
    → is_string v ≡ true
    → Each IsNumber (coerce_numeric c.std c.floats v whole)
coerced-IsNumber c (string s) whole h = coerce_numeric-IsNumber c.std c.floats s whole
coerced-IsNumber c _ whole h = cc

number_string : (v : Json) → is_number v ≡ true → is_string v ≡ false
number_string (number n) h = refl
number_string _ h = cc

module _ (c : Context) (texts : Blankless c.calendar) (l : Leaf) (orders : class_of l.op ≡ order)
    (plain : is_dotted (split_once l.field) ≡ false) where
  abbrev its_field : Option Field
  its_field = field_of c l.field

  order-AllBelow :
      (k : ℕ) (y : Json)
      → is_null_like y ≡ false
      → order_defects c its_field y < k
      → AllBelow c k (leaves (leaf_node l.field l.op y))
  order-AllBelow k y given h = leaf_node-AllBelow c l.field l.op y (rw (orders, plain, given) h)

  abbrev LowerOrder : Json → Step → Type 0
  LowerOrder v s = Lower c (order_rank c false its_field v) s

  text_value-Lower : (v : Json) → Each (LowerOrder v) (text_value l its_field v)
  unfolding text_value
  text_value-Lower v =
      if-intro (Each (LowerOrder v)) (typed is_text its_field && is_number v)
        (λ e.
          let (text, number_is) = and_split (typed is_text its_field) (is_number v) e in
          Each-then IsText (LowerOrder v) (to_text v) _ (to_text-IsText v number_is) (λ y is.
            order-AllBelow (order_rank c false its_field v) y is.1 (
              rw (number_set v number_is) (
                omega (
                  arith,
                  order_defects_text c its_field y text,
                  order_defects_text c its_field v text,
                  ap flag is.0,
                  ap flag number_is,
                )))))
        (λ _. tt)

  numeric_of-Lower :
      (v : Json) (r : Result (Option Json))
      → Each IsNumber r
      → ((n : Json)
          → is_number n ≡ true
          → AllBelow c (order_rank c false its_field v) (leaves (leaf_node l.field l.op n)))
      → Each (LowerOrder v) (numeric_of l r)
  numeric_of-Lower v (ok none) h below = tt
  numeric_of-Lower v (ok (some n)) h below = below n h
  numeric_of-Lower v (err chain) h below = tt

  numeric_value-Lower : (v : Json) → Each (LowerOrder v) (numeric_value c l its_field v)
  unfolding numeric_value
  numeric_value-Lower v =
      if-intro (Each (LowerOrder v)) (typed is_numeric its_field && is_string v)
        (λ e.
          let (counts, text) = and_split (typed is_numeric its_field) (is_string v) e in
          numeric_of-Lower v _ (coerced-IsNumber c v (typed is_integer its_field) text) (λ n is.
            order-AllBelow (order_rank c false its_field v) n (number_set n is) (
              rw (string_set v text) (
                omega (
                  arith,
                  order_defects_numeric c its_field n counts,
                  order_defects_numeric c its_field v counts,
                  ap flag text,
                  ap flag (number_string n is),
                )))))
        (λ _. tt)

  against_falsy-Lower : (o : Option Json) → Lower c 3 (against_falsy l o)
  unfolding value
  against_falsy-Lower none = tt
  against_falsy-Lower (some falsy) = elim (Bool-cases (is_null_like falsy)) [
    | inl e ↦ rw e tt
    | inr e ↦ rw e (order-AllBelow 3 falsy e (omega (arith, order_defects-le c its_field falsy)))
  ]

  null_order-Lower : (field : Option Field) (v : Json) → Each (LowerOrder v) (null_order l field v)
  unfolding null_order
  null_order-Lower none v = tt
  null_order-Lower (some f) v =
      if-intro (Each (LowerOrder v)) (is_null_like v)
        (λ e.
          let three : order_rank c false its_field v ≡ 3 = rw e refl in
          rw three (against_falsy-Lower f.falsy))
        (λ _. tt)

  days-Lower :
      (v : Json) → l.value ≡ v → values_of v ≡ v ∷ [] → Each (LowerOrder v) (days c l its_field)
  unfolding days
  days-Lower v is single =
      if-intro (Each (LowerOrder v)) (typed is_datetime its_field)
        (λ dated.
          if_rewritten-Lower c (order_rank c false its_field v) _
            (rw is (Rewritten-day_order c texts l.field plain dated c.tz l.op v orders single)))
        (λ _. tt)

  refuse_name-Lower : (v : Json) (k : ℕ) → Each (Lower c k) (refuse_name its_field v)
  unfolding refuse_name
  refuse_name-Lower v k = Lower-refuse c k (typed is_linked its_field && is_string v)

single_value : (v : Json) → is_list_or_true v ≡ false → values_of v ≡ v ∷ []
single_value (array items) h = cc
single_value _ h = refl

pub rewrite_order-Lower :
    (c : Context) (texts : Blankless c.calendar) (l : Leaf) (dotted : Bool) (v : Json)
    → class_of l.op ≡ order
    → is_dotted (split_once l.field) ≡ dotted
    → l.value ≡ v
    → Each
        (Lower c (order_rank c dotted (field_of c l.field) v))
        (rewrite_order c l dotted (field_of c l.field) v)
unfolding rewrite_order
rewrite_order-Lower c texts l true v orders path is =
    if-intro (Each (Lower c 0)) (is_list_or_true v) (λ _. tt) (λ _. tt)
rewrite_order-Lower c texts l false v orders path is =
    let field = field_of c l.field in
    let k = order_rank c false field v in
    if-intro (Each (Lower c k)) (is_list_or_true v) (λ _. tt)
      (λ e. or_else-Lower c k (text_value l field v) _ (text_value-Lower c texts l orders path v) (
        or_else-Lower c k (days c l field) _
          (days-Lower c texts l orders path v is (single_value v e))
          (or_else-Lower c k (refuse_name field v) _ (refuse_name-Lower c texts l orders path v k) (
            or_else-Lower c k (numeric_value c l field v) _
              (numeric_value-Lower c texts l orders path v)
              (null_order-Lower c texts l orders path field v)))))
