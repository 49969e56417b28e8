-- ===== src/Sqlgen/Leaves/DayOrders.antt =====
-- kernel/src/sqlgen.rs: the leaves that `datetime_day_comparand` gives for an order hold no bare date.
use odoo_rust_orm.Prelude.{
  Bool, true, false, ◌||◌, [], ◌∷◌, Option, none, some, Bytes, codes, bytes_eq, any, ◌≡◌, refl,
  arith, if-intro,
}
use odoo_rust_orm.Error.{Each, Each-then, Each-step}
use odoo_rust_orm.Json.{Json, bool, string}
use odoo_rust_orm.Domain.{Node}
use odoo_rust_orm.Domain.Internal.{leaves}
use odoo_rust_orm.Domain.Junctions.{value}
use odoo_rust_orm.ReadRules.{split_once}
use odoo_rust_orm.Sqlgen.Comparands.{is_null_like}
use odoo_rust_orm.Sqlgen.Days.{
  Calendar, bare_date, is_bare, values_of, next_day, order_day, set_of_days, ordered,
  datetime_day_comparand, zone_of, is_order,
}
use odoo_rust_orm.Sqlgen.Class.{Context, order, unequal, class_of, is_datetime, is_dotted, typed}
use odoo_rust_orm.Sqlgen.Leaves.{field_of}
use odoo_rust_orm.Sqlgen.Leaves.Rank.{
  order_rank, AllBelow, Rewritten, leaf_node-AllBelow, defects_unset, order_defects_datetime,
}
use odoo_rust_orm.Sqlgen.Leaves.Dates.{Blankless, AllBelow-Start, start_of-Start, day_classes}
use odoo_rust_orm.Sqlgen.Leaves.DaySets.{set_of_days-AllBelow}

module _ (c : Context) (texts : Blankless c.calendar) (name : Bytes)
    (plain : is_dotted (split_once name) ≡ false)
    (dated : typed is_datetime (field_of c name) ≡ true) where
  unequal_class : class_of (codes "!=") ≡ unequal
  unfolding class_of bytes_eq
  unequal_class = refl

  abbrev Two : Node → Type 0
  Two n = AllBelow c 2 (leaves n)

  -- What an order on a day becomes: a day out of the range of years is compared with no value.
  order_day-AllBelow :
      (z : Option (Calendar.Zone c.calendar)) (op : Bytes) (d : Calendar.Day c.calendar)
      (after : Option (Calendar.Day c.calendar))
      → class_of op ≡ order
      → Each (λ n. AllBelow c 2 (leaves n)) (order_day c.calendar z name op d after)
  unfolding order_day value
  order_day-AllBelow z op d none orders =
      if-intro (Each Two) (bytes_eq op (codes ">")) (λ _. tt)
        (λ _.
          if-intro (Each Two) (bytes_eq op (codes "<="))
            (λ _.
              leaf_node-AllBelow c name (codes "!=") (bool false)
                (rw (unequal_class, plain) (omega (arith, defects_unset c (field_of c name)))))
            (λ _.
              AllBelow-Start c texts name plain dated 1 op _ orders
                (start_of-Start c.calendar texts z d)))
  order_day-AllBelow z op d (some after) orders =
      if-intro (Each Two) (bytes_eq op (codes ">"))
        (λ _.
          AllBelow-Start c texts name plain dated 1 (codes ">=") _
            (day_classes c texts name plain dated).0 (start_of-Start c.calendar texts z after))
        (λ _.
          if-intro (Each Two) (bytes_eq op (codes "<="))
            (λ _.
              AllBelow-Start c texts name plain dated 1 (codes "<") _
                (day_classes c texts name plain dated).1 (start_of-Start c.calendar texts z after))
            (λ _.
              AllBelow-Start c texts name plain dated 1 op _ orders
                (start_of-Start c.calendar texts z d)))

  or_false : (b : Bool) → (b || false) ≡ true → b ≡ true
  or_false b h = ground arith

  -- A value that stands alone.
  abbrev pub Single : Json → Type 0
  Single v = values_of v ≡ v ∷ []

  bare_set : (v : Json) → is_bare c.calendar v ≡ true → is_null_like v ≡ false
  unfolding is_null_like
  bare_set (string s) h = refl
  bare_set _ h = cc

  ordered-Rewritten :
      (z : Option (Calendar.Zone c.calendar)) (op : Bytes) (o : Option (Calendar.Day c.calendar))
      → class_of op ≡ order
      → Each (Rewritten c 2) (ordered c.calendar z name op o)
  ordered-Rewritten z op none orders = tt
  ordered-Rewritten z op (some d) orders =
      Each-then Two (Rewritten c 2) (order_day c.calendar z name op d (next_day c.calendar d)) _
        (order_day-AllBelow z op d (next_day c.calendar d) orders) (λ n below. below)

  pub Rewritten-day_order :
      (tz : Option Bytes) (op : Bytes) (v : Json)
      → class_of op ≡ order
      → Single v
      → Each
          (Rewritten c (order_rank c false (field_of c name) v))
          (datetime_day_comparand c.calendar tz name op v)
  unfolding datetime_day_comparand
  Rewritten-day_order tz op v orders single =
      let k = order_rank c false (field_of c name) v in
      if-intro (Each (Rewritten c k)) (any (λ x. is_bare c.calendar x) (values_of v))
        (λ some_bare.
          let bare : is_bare c.calendar v ≡ true =
            or_false (is_bare c.calendar v) (rw single at some_bare) in
          let two : k ≡ 2 =
            rw (bare_set v bare, order_defects_datetime c (field_of c name) v dated, bare) refl in
          rw two (
            Each-step (Rewritten c 2) (zone_of c.calendar tz) _ (λ z.
              if-intro (Each (Rewritten c 2)) (is_order op)
                (λ _. ordered-Rewritten z op (bare_date c.calendar v) orders)
                (λ _.
                  Each-then Two (Rewritten c 2) (set_of_days c.calendar z name op (values_of v)) _
                    (set_of_days-AllBelow c texts name plain dated 1 z op (values_of v))
                    (λ n below. below)))))
        (λ _. tt)
