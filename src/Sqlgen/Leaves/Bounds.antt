-- ===== src/Sqlgen/Leaves/Bounds.antt =====
-- kernel/src/sqlgen.rs: how large a rank can be.
use odoo_rust_orm.Prelude.{
  ◌≤◌, Bool, true, false, not, List, [], ◌∷◌, Option, none, some, any, arith, if-intro,
}
use odoo_rust_orm.Json.{Json, array, to_list}
use odoo_rust_orm.Domain.{Leaf}
use odoo_rust_orm.ReadRules.{split_once}
use odoo_rust_orm.Registry.Fields.{FieldType, Field}
use odoo_rust_orm.Sqlgen.Comparands.{
  is_falsy_id, is_number, is_string, is_boolean_value, is_null_like,
}
use odoo_rust_orm.Sqlgen.Days.{is_bare}
use odoo_rust_orm.Sqlgen.Class.{
  Context, Class, maybe, equal, unequal, within, without, order, pattern, other_class, class_of,
  is_dotted,
}
use odoo_rust_orm.Sqlgen.Leaves.{members_of, field_of}
use odoo_rust_orm.Sqlgen.Leaves.Rank.{
  flag, defects_at, defects, order_defects_at, order_defects, set_rank, equal_rank, order_rank,
  rank_at, rank,
}

module _ (c : Context) where
  flag-le : (b : Bool) → flag b ≤ 1
  flag-le b = ground arith

  pub defects-le : (field : Option Field) (items : List Json) → defects c field items ≤ 2
  defects-le none items = omega arith
  defects-le (some f) items = bounded (Field.ttype f)
    where
      bounded : (t : FieldType) → defects_at c t items ≤ 2
      bounded t =
          let falsy = flag-le (any is_falsy_id items) in
          let strings = flag-le (any (λ v. is_string v) items) in
          let numbers = flag-le (any (λ v. is_number v) items) in
          let bare = flag-le (any (λ v. is_bare (Context.calendar c) v) items) in
          let other = flag-le (any (λ v. not (is_boolean_value v)) items) in ground arith

  pub order_defects-le : (field : Option Field) (v : Json) → order_defects c field v ≤ 2
  order_defects-le none v = omega arith
  order_defects-le (some f) v = bounded (Field.ttype f)
    where
      bounded : (t : FieldType) → order_defects_at c t v ≤ 2
      bounded t =
          let strings = flag-le (is_string v) in
          let numbers = flag-le (is_number v) in
          let bare = flag-le (is_bare (Context.calendar c) v) in ground arith

  set_rank_le : (dotted : Bool) (field : Option Field) (v : Json) → set_rank c dotted field v ≤ 3
  set_rank_le true field v = omega arith
  set_rank_le false field (array items) = omega (arith, defects-le field (to_list items))
  set_rank_le false field v = omega (arith, defects-le field (v ∷ []))

  equal_rank_le :
      (dotted : Bool) (field : Option Field) (v : Json) → equal_rank c dotted field v ≤ 3
  equal_rank_le true field v = omega arith
  equal_rank_le false field v = omega (arith, defects-le field (to_list (members_of v)))

  order_rank_le :
      (dotted : Bool) (field : Option Field) (v : Json) → order_rank c dotted field v ≤ 3
  order_rank_le true field v = omega arith
  order_rank_le false field v =
      if-intro (λ r. r ≤ 3) (is_null_like v) (λ _. omega arith)
        (λ _. omega (arith, order_defects-le field v))

  rank_at_le :
      (k : Class) (dotted : Bool) (field : Option Field) (v : Json) → rank_at c k dotted field v ≤ 4
  rank_at_le maybe dotted field v = omega (arith, equal_rank_le dotted field v)
  rank_at_le equal dotted field v = omega (arith, equal_rank_le dotted field v)
  rank_at_le unequal dotted field v = omega (arith, equal_rank_le dotted field v)
  rank_at_le within dotted field v = omega (arith, set_rank_le dotted field v)
  rank_at_le without dotted field v = omega (arith, set_rank_le dotted field v)
  rank_at_le order dotted field v = omega (arith, order_rank_le dotted field v)
  rank_at_le pattern dotted field v = omega (arith, flag-le (is_number v))
  rank_at_le other_class dotted field v = omega arith

  -- No leaf has more than four rewritings before it.
  pub rank-le : (l : Leaf) → rank c l ≤ 4
  unfolding rank
  rank-le l =
      rank_at_le (class_of l.op) (is_dotted (split_once l.field)) (field_of c l.field) l.value
