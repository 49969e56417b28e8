-- ===== src/Sqlgen/Leaves/Compared.antt =====
-- kernel/src/sqlgen.rs: the leaves of an order that `optimize_leaf` leaves as they are.
use odoo_rust_orm.Prelude.{
  Bool, true, false, not, ◌&&◌, ◌||◌, [], ◌∷◌, Option, none, some, any, if◌then◌else◌, ◌≡◌, refl,
  arith, if-intro, Bool-cases, inl, inr,
}
use odoo_rust_orm.Error.{ok, Each, Each-step, Each-imp}
use odoo_rust_orm.Json.{Json, array}
use odoo_rust_orm.Domain.{Leaf, Node}
use odoo_rust_orm.Registry.Fields.{FieldType, is_text, Field}
use odoo_rust_orm.Sqlgen.Comparands.{coerce_numeric, is_null_like, is_number, is_string}
use odoo_rust_orm.Sqlgen.Days.{
  Calendar, is_bare, bare_date, values_of, is_order, order_day, next_day, datetime_day_comparand,
  zone_of, ordered,
}
use odoo_rust_orm.Sqlgen.Class.{
  Context, typed, is_numeric, is_integer, is_datetime, is_linked, Step, keep, into,
}
use odoo_rust_orm.Sqlgen.Members.{to_text, days}
use odoo_rust_orm.Sqlgen.Orders.{
  text_value, refuse_name, numeric_value, against_falsy, null_order, is_list_or_true, rewrite_order,
}
use odoo_rust_orm.Registry.Normalize.{holds_of}
use odoo_rust_orm.Sqlgen.Leaves.Rank.{order_defects, order_defects_at}
use odoo_rust_orm.Sqlgen.Leaves.Passes.{
  Passed, Passes, or_else-Passed, Converted, if_rewritten-Passes, Keeps, Passed-Keeps, Passes-next,
  refuse_found, numeric_of-Passes,
}

-- Whether a value stands for none where the field does not.
abbrev null_falsy : Option Json → Bool
null_falsy none = false
null_falsy (some falsy) = is_null_like falsy

abbrev pub misses : Option Field → Json → Bool
misses none v = false
misses (some f) v = is_null_like v && not (null_falsy f.falsy)

Passed-null :
    (l : Leaf) (b : Bool) (o : Option Json)
    → Each (Passed (b && not (null_falsy o))) (if b then ok (against_falsy l o) else ok keep)
Passed-null l false o = refl
Passed-null l true none = tt
Passed-null l true (some falsy) = falsy_kept (is_null_like falsy) _
  where
    falsy_kept : (b : Bool) (n : Node) → Passed (not b) (if b then keep else into n)
    falsy_kept true n = refl
    falsy_kept false n = tt

module _ (c : Context) (field : Option Field) (v : Json) where
  abbrev order_test : Bool
  order_test =
      (typed is_text field && is_number v)
      || ((typed is_datetime field && is_bare c.calendar v)
          || ((typed is_linked field && is_string v)
              || ((typed is_numeric field && is_string v) || misses field v)))

-- A value that is kept beside an order is one value, not true, with nothing to convert; it is no text
-- beside a relation, and stands for no value only where the field itself does.
abbrev pub Comparable : Context → Option Field → Json → Type 0
Comparable c field v =
    (is_list_or_true v ≡ false)
    × (order_defects c field v ≡ 0)
    × ((typed is_linked field && is_string v) ≡ false)
    × (misses field v ≡ false)

order_test-Comparable :
    (c : Context) (field : Option Field) (v : Json)
    → is_list_or_true v ≡ false
    → order_test c field v ≡ false
    → Comparable c field v
order_test-Comparable c none v single h = (single, refl, refl, refl)
order_test-Comparable c (some f) v single h =
    let (converted, unnamed, valued) = typed_at (Field.ttype f) (misses (some f) v) h in
    (single, converted, unnamed, valued)
  where
    typed_at :
        (t : FieldType) (m : Bool)
        → ((is_text t && is_number v)
            || ((is_datetime t && is_bare c.calendar v)
                || ((is_linked t && is_string v) || ((is_numeric t && is_string v) || m))))
          ≡ false
        → (order_defects_at c t v ≡ 0) × ((is_linked t && is_string v) ≡ false) × (m ≡ false)
    typed_at t m h = ground arith

or_false : (b : Bool) → (b || false) ≡ false → b ≡ false
or_false b h = ground arith

module _ (c : Context) (l : Leaf) (field : Option Field) (v : Json) (is : l.value ≡ v)
    (orders : is_order l.op ≡ true) (single : values_of v ≡ v ∷ []) where
  text_value-Passes : Each (Passes (typed is_text field && is_number v)) (text_value l field v)
  unfolding text_value
  text_value-Passes =
      Passes-next (typed is_text field && is_number v) _
        (Each-step (Passes true) (to_text v) _ (λ y. tt))

  ordered-Converted :
      (z : Option (Calendar.Zone c.calendar)) (o : Option (Calendar.Day c.calendar))
      → Each
          (Converted (holds_of (λ (d : Calendar.Day c.calendar). true) o))
          (ordered c.calendar z l.field l.op o)
  ordered-Converted z none = refl
  ordered-Converted z (some d) =
      Each-step (Converted true) (order_day c.calendar z l.field l.op d (next_day c.calendar d)) _
        (λ n. tt)

  datetime_day_comparand-Converted :
      Each
        (Converted (is_bare c.calendar v))
        (datetime_day_comparand c.calendar c.tz l.field l.op v)
  unfolding datetime_day_comparand
  datetime_day_comparand-Converted =
      let P : Option Node → Type 0 = Converted (is_bare c.calendar v) in
      if-intro (Each P) (any (λ x. is_bare c.calendar x) (values_of v))
        (λ _.
          Each-step P (zone_of c.calendar c.tz) _
            (λ z. rw orders (ordered-Converted z (bare_date c.calendar v))))
        (λ e. or_false (is_bare c.calendar v) (rw single at e))

  days-Passes : Each (Passes (typed is_datetime field && is_bare c.calendar v)) (days c l field)
  unfolding days
  days-Passes = elim (Bool-cases (typed is_datetime field)) [
    | inl e ↦ rw (e, is) (if_rewritten-Passes _ _ datetime_day_comparand-Converted)
    | inr e ↦ rw e refl
  ]

  refuse_name-Passes : Each (Passes (typed is_linked field && is_string v)) (refuse_name field v)
  unfolding refuse_name
  refuse_name-Passes = refuse_found _

  numeric_value-Passes :
      Each (Passes (typed is_numeric field && is_string v)) (numeric_value c l field v)
  unfolding numeric_value
  numeric_value-Passes =
      Passes-next (typed is_numeric field && is_string v) _
        (numeric_of-Passes l (coerce_numeric c.std c.floats v (typed is_integer field)))

  null_order-Passed : (f : Option Field) → Each (Passed (misses f v)) (null_order l f v)
  unfolding null_order
  null_order-Passed none = refl
  null_order-Passed (some f) = Passed-null l (is_null_like v) f.falsy

single_value : (v : Json) → is_list_or_true v ≡ false → values_of v ≡ v ∷ []
single_value (array items) h = cc
single_value _ h = refl

pub rewrite_order-Keeps :
    (c : Context) (l : Leaf) (field : Option Field) (v : Json)
    → l.value ≡ v
    → is_order l.op ≡ true
    → Each (Keeps (Comparable c field v)) (rewrite_order c l false field v)
unfolding rewrite_order
rewrite_order-Keeps c l field v is orders =
    let P : Step → Type 0 = Keeps (Comparable c field v) in
    if-intro (Each P) (is_list_or_true v) (λ _. tt)
      (λ e.
        let single = single_value v e in
        Each-imp (Passed (order_test c field v)) P _
          (λ s p.
            Passed-Keeps _ (order_test c field v) s (λ h. order_test-Comparable c field v e h) p)
          (or_else-Passed (typed is_text field && is_number v) _ (text_value l field v) _
            (text_value-Passes c l field v is orders single)
            (or_else-Passed (typed is_datetime field && is_bare c.calendar v) _ (days c l field) _
              (days-Passes c l field v is orders single)
              (or_else-Passed (typed is_linked field && is_string v) _ (refuse_name field v) _
                (refuse_name-Passes c l field v is orders single)
                (or_else-Passed (typed is_numeric field && is_string v) (misses field v)
                  (numeric_value c l field v) _ (numeric_value-Passes c l field v is orders single)
                  (null_order-Passed c l field v is orders single field))))))
