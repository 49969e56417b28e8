-- ===== src/Sqlgen/Leaves/DaySets.antt =====
-- kernel/src/sqlgen.rs: the leaves that `datetime_day_comparand` gives for a set hold no bare date.
use odoo_rust_orm.Prelude.{
  ℕ, suc, true, false, List, [], ◌∷◌, ◌++◌, Option, none, some, Bytes, codes, bytes_eq, any, ◌≡◌,
  refl, ap, arith, if-intro,
}
use odoo_rust_orm.Error.{Result, Each, Each-then, Each-step}
use odoo_rust_orm.Json.{Json, array, Items, to_list}
use odoo_rust_orm.Domain.{Node, of_nodes}
use odoo_rust_orm.Domain.Internal.{leaves}
use odoo_rust_orm.Domain.Junctions.{leaf_list, value, values}
use odoo_rust_orm.Domain.Prefix.{to_list-of_list}
use odoo_rust_orm.ReadRules.{split_once}
use odoo_rust_orm.Sqlgen.Days.{
  Calendar, bare_date, is_bare, leaf_node, start_of, next_day, member_day, add_value, split_days,
  with_exact, joined_days, set_of_days, datetime_day_comparand, zone_of, is_order,
}
use odoo_rust_orm.Sqlgen.Class.{Context, within, class_of, is_datetime, is_dotted, typed}
use odoo_rust_orm.Sqlgen.Leaves.{field_of}
use odoo_rust_orm.Sqlgen.Leaves.Rank.{
  flag, defects, AllBelow, Rewritten, AllBelow-append, leaf_node-AllBelow, defects_datetime,
}
use odoo_rust_orm.Sqlgen.Leaves.Dates.{
  Blankless, Start, AllBelow-instant, AllBelow-Start, start_of-Start, day_classes,
}

module _ (c : Context) (texts : Blankless c.calendar) (name : Bytes)
    (plain : is_dotted (split_once name) ≡ false)
    (dated : typed is_datetime (field_of c name) ≡ true) where
  member_day-AllBelow :
      (k : ℕ) (z : Option (Calendar.Zone c.calendar)) (d : Calendar.Day c.calendar)
      (after : Option (Calendar.Day c.calendar))
      → Each (λ n. AllBelow c (suc k) (leaves n)) (member_day c.calendar z name d after)
  unfolding member_day value
  member_day-AllBelow k z d none =
      AllBelow-Start c texts name plain dated k (codes ">=") _
        (day_classes c texts name plain dated).0 (start_of-Start c.calendar texts z d)
  member_day-AllBelow k z d (some after) =
      Each-then (Start c.calendar) (λ n. AllBelow c (suc k) (leaves n)) (start_of c.calendar z d) _
        (start_of-Start c.calendar texts z d)
        (λ v is.
          Each-then (Start c.calendar) (λ n. AllBelow c (suc k) (leaves n))
            (start_of c.calendar z after) _ (start_of-Start c.calendar texts z after)
            (λ w it.
              AllBelow-append c (suc k) (leaves (leaf_node name (codes ">=") v)) _
                (AllBelow-instant c texts name plain dated k (codes ">=") v
                  (day_classes c texts name plain dated).0 is)
                (AllBelow-append c (suc k) (leaves (leaf_node name (codes "<") w)) []
                  (AllBelow-instant c texts name plain dated k (codes "<") w
                    (day_classes c texts name plain dated).1 it)
                  tt)))

  abbrev AllNodes : ℕ → List Node → Type 0
  AllNodes k [] = Unit
  AllNodes k (n ∷ ns) = AllBelow c k (leaves n) × AllNodes k ns

  -- The days are done with, and the other values are no dates.
  abbrev Split : ℕ → List Node × List Json → Type 0
  Split k r = AllNodes k r.0 × (any (λ v. is_bare c.calendar v) r.1 ≡ false)

  add_value-Split :
      (k : ℕ) (z : Option (Calendar.Zone c.calendar)) (x : Json)
      (o : Option (Calendar.Day c.calendar)) (rest : Result (List Node × List Json))
      → bare_date c.calendar x ≡ o
      → Each (Split (suc k)) rest
      → Each (Split (suc k)) (add_value c.calendar z name x o rest)
  add_value-Split k z x none rest is each =
      Each-then (Split (suc k)) (Split (suc k)) rest _ each (λ r h. (h.0, rw is h.1))
  add_value-Split k z x (some day) rest is each =
      Each-then (λ n. AllBelow c (suc k) (leaves n)) (Split (suc k))
        (member_day c.calendar z name day (next_day c.calendar day)) _
        (member_day-AllBelow k z day (next_day c.calendar day))
        (λ n below.
          Each-then (Split (suc k)) (Split (suc k)) rest _ each (λ r h. ((below, h.0), h.1)))

  split_days-Split :
      (k : ℕ) (z : Option (Calendar.Zone c.calendar)) (xs : List Json)
      → Each (Split (suc k)) (split_days c.calendar z name xs)
  unfolding split_days
  split_days-Split k z [] = (tt, refl)
  split_days-Split k z (x ∷ xs) =
      add_value-Split k z x (bare_date c.calendar x) _ refl (split_days-Split k z xs)

  in_class : class_of (codes "in") ≡ within
  unfolding class_of bytes_eq
  in_class = refl

  AllNodes-snoc :
      (k : ℕ) (ns : List Node) (n : Node)
      → AllNodes k ns
      → AllBelow c k (leaves n)
      → AllNodes k (ns ++ n ∷ [])
  AllNodes-snoc k [] n all below = (below, tt)
  AllNodes-snoc k (m ∷ ns) n all below = (all.0, AllNodes-snoc k ns n all.1 below)

  with_exact-AllNodes :
      (k : ℕ) (days : List Node) (exact : List Json)
      → AllNodes (suc k) days
      → any (λ v. is_bare c.calendar v) exact ≡ false
      → AllNodes (suc k) (with_exact name days exact)
  with_exact-AllNodes k days [] all none_bare = all
  with_exact-AllNodes k days (x ∷ xs) all none_bare = AllNodes-snoc (suc k) days _ all (
      leaf_node-AllBelow c name (codes "in") _ (
        rw (in_class, plain, to_list-of_list)
          (omega (arith, defects_datetime c (field_of c name) (x ∷ xs) dated, ap flag none_bare))))

  values-AllBelow :
      (k : ℕ) (ns : List Node)
      → AllNodes k ns
      → AllBelow c k (values leaf_list (λ l. l ∷ []) false (of_nodes ns))
  unfolding value
  values-AllBelow k [] all = tt
  values-AllBelow k (n ∷ ns) all =
      AllBelow-append c k (leaves n) _ all.0 (values-AllBelow k ns all.1)

  joined_days-AllBelow :
      (k : ℕ) (ns : List Node) → AllNodes k ns → AllBelow c k (leaves (joined_days ns))
  unfolding value
  joined_days-AllBelow k [] all = tt
  joined_days-AllBelow k (n ∷ []) all = all.0
  joined_days-AllBelow k (n ∷ m ∷ ns) all = values-AllBelow k (n ∷ m ∷ ns) all

  pub set_of_days-AllBelow :
      (k : ℕ) (z : Option (Calendar.Zone c.calendar)) (op : Bytes) (xs : List Json)
      → Each (λ n. AllBelow c (suc k) (leaves n)) (set_of_days c.calendar z name op xs)
  unfolding set_of_days value
  set_of_days-AllBelow k z op xs =
      Each-then (Split (suc k)) (λ n. AllBelow c (suc k) (leaves n))
        (split_days c.calendar z name xs) _ (split_days-Split k z xs)
        (λ r h.
          let below = joined_days-AllBelow (suc k) _ (with_exact-AllNodes k r.0 r.1 h.0 h.1) in
          if-intro (λ n. AllBelow c (suc k) (leaves n)) (bytes_eq op (codes "not in")) (λ _. below)
            (λ _. below))

  pub Rewritten-day_set :
      (tz : Option Bytes) (op : Bytes) (items : Items)
      → Each
          (Rewritten c (defects c (field_of c name) (to_list items)))
          (datetime_day_comparand c.calendar tz name op (array items))
  unfolding datetime_day_comparand
  Rewritten-day_set tz op items =
      let k = defects c (field_of c name) (to_list items) in
      if-intro (Each (Rewritten c k)) (any (λ v. is_bare c.calendar v) (to_list items))
        (λ bare. Each-step (Rewritten c k) (zone_of c.calendar tz) _ (λ z.
          if-intro (Each (Rewritten c k)) (is_order op) (λ _. tt)
            (λ _.
              Each-then (λ n. AllBelow c 1 (leaves n)) (Rewritten c k)
                (set_of_days c.calendar z name op (to_list items)) _
                (set_of_days-AllBelow 0 z op (to_list items))
                (λ n below.
                  rw (defects_datetime c (field_of c name) (to_list items) dated, bare) below))))
        (λ _. tt)
