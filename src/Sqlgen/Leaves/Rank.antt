-- ===== src/Sqlgen/Leaves/Rank.antt =====
-- kernel/src/sqlgen.rs: how many rewritings of `optimize_leaf` a leaf still has before it, at most.
use odoo_rust_orm.Prelude.{
  ℕ, suc, ◌+◌, ◌<◌, Bool, true, false, not, List, [], ◌∷◌, ◌++◌, Option, none, some, Bytes, any,
  if◌then◌else◌, ◌≡◌, refl, arith, Member, here, there,
}
use odoo_rust_orm.Json.{Json, bool, array, to_list}
use odoo_rust_orm.Domain.{Leaf, Node}
use odoo_rust_orm.Domain.Internal.{leaves}
use odoo_rust_orm.Domain.Junctions.{value}
use odoo_rust_orm.ReadRules.{split_once}
use odoo_rust_orm.Registry.Fields.{
  FieldType, boolean, integer, floating, monetary, char, text, html, datetime, many2one, one2many,
  many2many, many2one_reference, is_text, Field,
}
use odoo_rust_orm.Sqlgen.Comparands.{
  is_falsy_id, is_number, is_string, is_boolean_value, is_null_like,
}
use odoo_rust_orm.Sqlgen.Days.{is_bare, leaf_node}
use odoo_rust_orm.Sqlgen.Class.{
  Context, Class, maybe, equal, unequal, within, without, order, pattern, other_class, class_of,
  is_relational, is_numeric, is_datetime, is_boolean_type, is_dotted, typed, Step, pass, keep, into,
}
use odoo_rust_orm.Sqlgen.Leaves.{members_of, field_of}

abbrev pub flag : Bool → ℕ
flag true = 1
flag false = 0

module _ (c : Context) where
  -- The conversions that the members of a set still need, by the type of the field.
  abbrev pub defects_at : FieldType → List Json → ℕ
  defects_at char items = flag (any (λ v. is_number v) items)
  defects_at text items = flag (any (λ v. is_number v) items)
  defects_at html items = flag (any (λ v. is_number v) items)
  defects_at datetime items = flag (any (λ v. is_bare (Context.calendar c) v) items)
  defects_at many2one items = flag (any is_falsy_id items) + flag (any (λ v. is_string v) items)
  defects_at one2many items = flag (any is_falsy_id items) + flag (any (λ v. is_string v) items)
  defects_at many2many items = flag (any is_falsy_id items) + flag (any (λ v. is_string v) items)
  defects_at many2one_reference items =
      flag (any is_falsy_id items) + flag (any (λ v. is_string v) items)
  defects_at integer items = flag (any (λ v. is_string v) items)
  defects_at floating items = flag (any (λ v. is_string v) items)
  defects_at monetary items = flag (any (λ v. is_string v) items)
  defects_at boolean items = flag (any (λ v. not (is_boolean_value v)) items)
  defects_at _ items = 0

  abbrev pub defects : Option Field → List Json → ℕ
  defects none items = 0
  defects (some f) items = defects_at (Field.ttype f) items

  -- The conversions of a value that is ordered against, which is not null-like.
  abbrev pub order_defects_at : FieldType → Json → ℕ
  order_defects_at char v = flag (is_number v)
  order_defects_at text v = flag (is_number v)
  order_defects_at html v = flag (is_number v)
  order_defects_at datetime v =
      flag (is_bare (Context.calendar c) v) + flag (is_bare (Context.calendar c) v)
  order_defects_at integer v = flag (is_string v)
  order_defects_at floating v = flag (is_string v)
  order_defects_at monetary v = flag (is_string v)
  order_defects_at _ v = 0

  abbrev pub order_defects : Option Field → Json → ℕ
  order_defects none v = 0
  order_defects (some f) v = order_defects_at (Field.ttype f) v

  abbrev pub set_rank : Bool → Option Field → Json → ℕ
  set_rank true field v = 0
  set_rank false field (array items) = defects field (to_list items)
  set_rank false field v = suc (defects field (v ∷ []))

  abbrev pub equal_rank : Bool → Option Field → Json → ℕ
  equal_rank true field v = 1
  equal_rank false field v = suc (defects field (to_list (members_of v)))

  abbrev pub order_rank : Bool → Option Field → Json → ℕ
  order_rank true field v = 0
  order_rank false field v = if is_null_like v then 3 else order_defects field v

  abbrev pub rank_at : Class → Bool → Option Field → Json → ℕ
  rank_at maybe dotted field v = suc (equal_rank dotted field v)
  rank_at equal dotted field v = equal_rank dotted field v
  rank_at unequal dotted field v = equal_rank dotted field v
  rank_at within dotted field v = set_rank dotted field v
  rank_at without dotted field v = set_rank dotted field v
  rank_at order dotted field v = order_rank dotted field v
  rank_at pattern dotted field v = suc (suc (flag (is_number v)))
  rank_at other_class dotted field v = 0

  unfoldable pub rank : Leaf → ℕ
  rank l = rank_at (class_of l.op) (is_dotted (split_once l.field)) (field_of c l.field) l.value

  abbrev pub AllBelow : ℕ → List Leaf → Type 0
  AllBelow k [] = Unit
  AllBelow k (l ∷ ls) = (rank l < k) × AllBelow k ls

  -- What a rewriting gives has a lower rank.
  abbrev pub Lower : ℕ → Step → Type 0
  Lower k pass = Unit
  Lower k keep = Unit
  Lower k (into n) = AllBelow k (leaves n)

  abbrev pub Rewritten : ℕ → Option Node → Type 0
  Rewritten k none = Unit
  Rewritten k (some n) = AllBelow k (leaves n)

  pub AllBelow-append :
      (k : ℕ) (ls ms : List Leaf) → AllBelow k ls → AllBelow k ms → AllBelow k (ls ++ ms)
  AllBelow-append k [] ms a b = b
  AllBelow-append k (l ∷ ls) ms (h, a) b = (h, AllBelow-append k ls ms a b)

  pub AllBelow-Member :
      (k : ℕ) {l : Leaf} (ls : List Leaf) → AllBelow k ls → Member l ls → rank l < k
  AllBelow-Member k [] below at = elim at [ ]
  AllBelow-Member k (l ∷ ls) below here = below.0
  AllBelow-Member k (l ∷ ls) below (there at) = AllBelow-Member k ls below.1 at

  pub leaf_node-AllBelow :
      (name op : Bytes) (v : Json) {k : ℕ}
      → rank_at (class_of op) (is_dotted (split_once name)) (field_of c name) v < k
      → AllBelow k (leaves (leaf_node name op v))
  unfolding rank leaf_node value
  leaf_node-AllBelow name op v h = (h, tt)

  -- Each type has its own conversions.
  pub defects_text :
      (field : Option Field) (items : List Json)
      → typed is_text field ≡ true
      → defects field items ≡ flag (any (λ v. is_number v) items)
  defects_text none items h = cc
  defects_text (some f) items h = typed_at (Field.ttype f) h
    where
      typed_at :
          (t : FieldType)
          → is_text t ≡ true
          → defects_at t items ≡ flag (any (λ v. is_number v) items)
      typed_at t h = ground arith

  pub defects_datetime :
      (field : Option Field) (items : List Json)
      → typed is_datetime field ≡ true
      → defects field items ≡ flag (any (λ v. is_bare (Context.calendar c) v) items)
  defects_datetime none items h = cc
  defects_datetime (some f) items h = typed_at (Field.ttype f) h
    where
      typed_at :
          (t : FieldType)
          → is_datetime t ≡ true
          → defects_at t items ≡ flag (any (λ v. is_bare (Context.calendar c) v) items)
      typed_at t h = ground arith

  pub defects_relational :
      (field : Option Field) (items : List Json)
      → typed is_relational field ≡ true
      → defects field items ≡ flag (any is_falsy_id items) + flag (any (λ v. is_string v) items)
  defects_relational none items h = cc
  defects_relational (some f) items h = typed_at (Field.ttype f) h
    where
      typed_at :
          (t : FieldType)
          → is_relational t ≡ true
          → defects_at t items ≡ flag (any is_falsy_id items) + flag (any (λ v. is_string v) items)
      typed_at t h = ground arith

  pub defects_numeric :
      (field : Option Field) (items : List Json)
      → typed is_numeric field ≡ true
      → defects field items ≡ flag (any (λ v. is_string v) items)
  defects_numeric none items h = cc
  defects_numeric (some f) items h = typed_at (Field.ttype f) h
    where
      typed_at :
          (t : FieldType)
          → is_numeric t ≡ true
          → defects_at t items ≡ flag (any (λ v. is_string v) items)
      typed_at t h = ground arith

  pub defects_boolean :
      (field : Option Field) (items : List Json)
      → typed is_boolean_type field ≡ true
      → defects field items ≡ flag (any (λ v. not (is_boolean_value v)) items)
  defects_boolean none items h = cc
  defects_boolean (some f) items h = typed_at (Field.ttype f) h
    where
      typed_at :
          (t : FieldType)
          → is_boolean_type t ≡ true
          → defects_at t items ≡ flag (any (λ v. not (is_boolean_value v)) items)
      typed_at t h = ground arith

  pub order_defects_datetime :
      (field : Option Field) (v : Json)
      → typed is_datetime field ≡ true
      → order_defects field v
        ≡ flag (is_bare (Context.calendar c) v) + flag (is_bare (Context.calendar c) v)
  order_defects_datetime none v h = cc
  order_defects_datetime (some f) v h = typed_at (Field.ttype f) h
    where
      typed_at :
          (t : FieldType)
          → is_datetime t ≡ true
          → order_defects_at t v
            ≡ flag (is_bare (Context.calendar c) v) + flag (is_bare (Context.calendar c) v)
      typed_at t h = ground arith

  pub order_defects_text :
      (field : Option Field) (v : Json)
      → typed is_text field ≡ true
      → order_defects field v ≡ flag (is_number v)
  order_defects_text none v h = cc
  order_defects_text (some f) v h = typed_at (Field.ttype f) h
    where
      typed_at : (t : FieldType) → is_text t ≡ true → order_defects_at t v ≡ flag (is_number v)
      typed_at t h = ground arith

  pub order_defects_numeric :
      (field : Option Field) (v : Json)
      → typed is_numeric field ≡ true
      → order_defects field v ≡ flag (is_string v)
  order_defects_numeric none v h = cc
  order_defects_numeric (some f) v h = typed_at (Field.ttype f) h
    where
      typed_at : (t : FieldType) → is_numeric t ≡ true → order_defects_at t v ≡ flag (is_string v)
      typed_at t h = ground arith

  pub defects_unset : (field : Option Field) → defects field (bool false ∷ []) ≡ 0
  unfolding is_falsy_id
  defects_unset none = refl
  defects_unset (some f) = unset (Field.ttype f)
    where
      unset : (t : FieldType) → defects_at t (bool false ∷ []) ≡ 0
      unset t = ground arith
