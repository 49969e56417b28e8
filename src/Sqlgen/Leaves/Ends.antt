-- ===== src/Sqlgen/Leaves/Ends.antt =====
-- kernel/src/sqlgen.rs: each rewriting of a leaf of `in` or `not in` leads to leaves of a lower rank.
use odoo_rust_orm.Prelude.{
  ℕ, suc, ◌<◌, Bool, true, false, not, ◌&&◌, List, [], ◌∷◌, Option, none, some, map, codes,
  bytes_eq, any, if◌then◌else◌, ◌≡◌, ap, arith, if-intro,
}
use odoo_rust_orm.Error.{Result, ok, err, refuse, Each, Each-then}
use odoo_rust_orm.Json.{Json, array, Items, to_list, of_list}
use odoo_rust_orm.Domain.{Leaf, Node}
use odoo_rust_orm.Domain.Internal.{leaves}
use odoo_rust_orm.Domain.Junctions.{value}
use odoo_rust_orm.Domain.Prefix.{to_list-of_list}
use odoo_rust_orm.ReadRules.{split_once}
use odoo_rust_orm.Registry.Fields.{is_text, Field}
use odoo_rust_orm.Sqlgen.Comparands.{is_falsy_id, is_number, is_string, is_boolean_value, ends_with}
use odoo_rust_orm.Sqlgen.Days.{leaf_node}
use odoo_rust_orm.Sqlgen.Class.{
  Context, class_of, typed, is_relational, is_numeric, is_integer, is_datetime, is_boolean_type,
  is_dotted, Step, pass, keep, into, or_else,
}
use odoo_rust_orm.Sqlgen.Members.{
  to_text, each_of, text_members, if_rewritten, days, refuse_true, by_name, name_and_id, names,
  select, without_falsy, relational_members, coerced, numeric_members, to_boolean, boolean_members,
  members_chain, rewrite_members,
}
use odoo_rust_orm.Sqlgen.Leaves.{field_of}
use odoo_rust_orm.Sqlgen.Leaves.Rank.{
  flag, defects, set_rank, rank_at, AllBelow, AllBelow-append, Lower, Rewritten, leaf_node-AllBelow,
  defects_text, defects_relational, defects_numeric, defects_boolean,
}
use odoo_rust_orm.Sqlgen.Leaves.Sets.{
  none_falsy, same_strings, any-select-other, any-select-not, texts_only, no_strings, all_boolean,
}
use odoo_rust_orm.Sqlgen.Leaves.Dates.{Blankless}
use odoo_rust_orm.Sqlgen.Leaves.DaySets.{Rewritten-day_set}

pub or_else-Lower :
    (c : Context) (k : ℕ) (first next : Result Step)
    → Each (Lower c k) first
    → Each (Lower c k) next
    → Each (Lower c k) (or_else first next)
or_else-Lower c k (ok pass) next a b = b
or_else-Lower c k (ok keep) next a b = tt
or_else-Lower c k (ok (into n)) next a b = a
or_else-Lower c k (err chain) next a b = tt

pub if_rewritten-Lower :
    (c : Context) (k : ℕ) (r : Result (Option Node))
    → Each (Rewritten c k) r
    → Each (Lower c k) (if_rewritten r)
if_rewritten-Lower c k (ok none) h = tt
if_rewritten-Lower c k (ok (some n)) h = h
if_rewritten-Lower c k (err chain) h = tt

pub Lower-refuse :
    (c : Context) (k : ℕ) (b : Bool) → Each (Lower c k) (if b then refuse else ok pass)
Lower-refuse c k true = tt
Lower-refuse c k false = tt

pub and_split : (a b : Bool) → (a && b) ≡ true → (a ≡ true) × (b ≡ true)
and_split a b h = ground arith

module _ (c : Context) (texts : Blankless c.calendar) (l : Leaf)
    (is_set : (d : Bool) (f : Option Field) (v : Json)
      → rank_at c (class_of l.op) d f v ≡ set_rank c d f v)
    (plain : is_dotted (split_once l.field) ≡ false) where
  abbrev its_field : Option Field
  its_field = field_of c l.field

  AllBelow-set :
      (k : ℕ) (ys : List Json)
      → defects c its_field ys < k
      → AllBelow c k (leaves (leaf_node l.field l.op (array (of_list ys))))
  AllBelow-set k ys h =
      leaf_node-AllBelow c l.field l.op (array (of_list ys)) (rw (is_set, plain, to_list-of_list) h)

  abbrev LowerSet : List Json → Step → Type 0
  LowerSet items s = Lower c (defects c its_field items) s

  text_members-Lower : (items : List Json) → Each (LowerSet items) (text_members l its_field items)
  unfolding text_members
  text_members-Lower items =
      if-intro (Each (LowerSet items)) (typed is_text its_field && any (λ v. is_number v) items)
        (λ e.
          let (text, found) =
            and_split (typed is_text its_field) (any (λ v. is_number v) items) e in
          Each-then (λ ys. any (λ v. is_number v) ys ≡ false) (LowerSet items)
            (each_of (λ v. to_text v) items) _ (texts_only items)
            (λ ys h. AllBelow-set (defects c its_field items) ys (
              omega (
                arith,
                defects_text c its_field ys text,
                defects_text c its_field items text,
                ap flag h,
                ap flag found,
              ))))
        (λ _. tt)

  days-Lower :
      (items : Items) → l.value ≡ array items → Each (LowerSet (to_list items)) (days c l its_field)
  unfolding days
  days-Lower items is =
      if-intro (Each (LowerSet (to_list items))) (typed is_datetime its_field)
        (λ dated.
          if_rewritten-Lower c (defects c its_field (to_list items)) _
            (rw is (Rewritten-day_set c texts l.field plain dated c.tz l.op items)))
        (λ _. tt)

  refuse_true-Lower :
      (field : Option Field) (items : List Json) (k : ℕ)
      → Each (Lower c k) (refuse_true field items)
  unfolding refuse_true
  refuse_true-Lower none items k = tt
  refuse_true-Lower (some f) items k = Lower-refuse c k _

  by_name-AllBelow :
      (k : ℕ) (positive : Bool) (strs : List Json)
      → AllBelow c
          (suc k)
          (leaves (by_name l (if positive then codes "any" else codes "not any") strs))
  unfolding class_of bytes_eq ends_with
  by_name-AllBelow k true strs = leaf_node-AllBelow c l.field (codes "any") _ (omega arith)
  by_name-AllBelow k false strs = leaf_node-AllBelow c l.field (codes "not any") _ (omega arith)

  name_and_id-AllBelow :
      (k : ℕ) (positive : Bool) (named : Node) (ids : List Json)
      → AllBelow c k (leaves named)
      → defects c its_field ids < k
      → AllBelow c k (leaves (name_and_id positive named l ids))
  unfolding value
  name_and_id-AllBelow k positive named [] below h = below
  name_and_id-AllBelow k true named (x ∷ xs) below h =
      AllBelow-append c k (leaves named) _ below
        (AllBelow-append c k _ [] (AllBelow-set k (x ∷ xs) h) tt)
  name_and_id-AllBelow k false named (x ∷ xs) below h =
      AllBelow-append c k (leaves named) _ below
        (AllBelow-append c k _ [] (AllBelow-set k (x ∷ xs) h) tt)

  names-Lower :
      (positive : Bool) (items : List Json)
      → typed is_relational its_field ≡ true
      → any is_falsy_id items ≡ false
      → any (λ v. is_string v) items ≡ true
      → LowerSet items (names l positive items)
  unfolding names
  names-Lower positive items linked clean found =
      let one : defects c its_field items ≡ 1 =
        omega (arith, defects_relational c its_field items linked, ap flag clean, ap flag found) in
      let ids = select (λ v. not (is_string v)) items in
      rw one (
        name_and_id-AllBelow 1 positive _ ids (by_name-AllBelow 0 positive _) (
          omega (
            arith,
            defects_relational c its_field ids linked,
            ap flag (any-select-other is_falsy_id (λ v. not (is_string v)) items clean),
            ap flag (any-select-not (λ v. is_string v) items),
          )))

  relational_members-Lower :
      (positive : Bool) (items : List Json)
      → Each (LowerSet items) (relational_members l positive its_field items)
  unfolding relational_members
  relational_members-Lower positive items =
      if-intro (Each (LowerSet items)) (typed is_relational its_field)
        (λ linked.
          if-intro (Each (LowerSet items)) (any is_falsy_id items)
            (λ falsy. AllBelow-set (defects c its_field items) _ (
              omega (
                arith,
                defects_relational c its_field items linked,
                defects_relational c its_field (map (λ v. without_falsy v) items) linked,
                ap flag falsy,
                ap flag (none_falsy items),
                ap flag (same_strings items),
              )))
            (λ clean.
              if-intro (Each (LowerSet items)) (any (λ v. is_string v) items)
                (λ found. names-Lower positive items linked clean found) (λ _. tt)))
        (λ _. tt)

  numeric_members-Lower :
      (items : List Json) → Each (LowerSet items) (numeric_members c l its_field items)
  unfolding numeric_members
  numeric_members-Lower items =
      if-intro (Each (LowerSet items)) (typed is_numeric its_field && any (λ v. is_string v) items)
        (λ e.
          let (counts, found) =
            and_split (typed is_numeric its_field) (any (λ v. is_string v) items) e in
          Each-then (λ ys. any (λ v. is_string v) ys ≡ false) (LowerSet items)
            (coerced c (typed is_integer its_field) items) _
            (no_strings c (typed is_integer its_field) items)
            (λ ys h. AllBelow-set (defects c its_field items) ys (
              omega (
                arith,
                defects_numeric c its_field ys counts,
                defects_numeric c its_field items counts,
                ap flag h,
                ap flag found,
              ))))
        (λ _. tt)

  boolean_members-Lower :
      (items : List Json) → Each (LowerSet items) (boolean_members c l its_field items)
  unfolding boolean_members
  boolean_members-Lower items =
      if-intro (Each (LowerSet items))
        (typed is_boolean_type its_field && any (λ v. not (is_boolean_value v)) items)
        (λ e.
          let (bools, found) =
            and_split (typed is_boolean_type its_field) (any (λ v. not (is_boolean_value v)) items)
              e in
          AllBelow-set (defects c its_field items) _ (
            omega (
              arith,
              defects_boolean c its_field (map (λ v. to_boolean c v) items) bools,
              defects_boolean c its_field items bools,
              ap flag (all_boolean c items),
              ap flag found,
            )))
        (λ _. tt)

  members_chain-Lower :
      (positive : Bool) (items : Items)
      → l.value ≡ array items
      → Each (LowerSet (to_list items)) (members_chain c l positive its_field (to_list items))
  members_chain-Lower positive items is =
      let xs = to_list items in
      let k = defects c its_field xs in
      or_else-Lower c k (text_members l its_field xs) _ (text_members-Lower xs) (
        or_else-Lower c k (days c l its_field) _ (days-Lower items is) (
          or_else-Lower c k (refuse_true its_field xs) _ (refuse_true-Lower its_field xs k) (
            or_else-Lower c k (relational_members l positive its_field xs) _
              (relational_members-Lower positive xs)
              (or_else-Lower c k (numeric_members c l its_field xs) _ (numeric_members-Lower xs)
                (boolean_members-Lower xs)))))

pub rewrite_members-Lower :
    (c : Context) (texts : Blankless c.calendar) (l : Leaf) (positive dotted : Bool) (v : Json)
    → ((d : Bool) (f : Option Field) (w : Json)
        → rank_at c (class_of l.op) d f w ≡ set_rank c d f w)
    → is_dotted (split_once l.field) ≡ dotted
    → l.value ≡ v
    → Each
        (Lower c (set_rank c dotted (field_of c l.field) v))
        (rewrite_members c l positive dotted (field_of c l.field) v)
unfolding rewrite_members
rewrite_members-Lower c texts l positive true v is_set path is = tt
rewrite_members-Lower c texts l positive false (array items) is_set path is =
    members_chain-Lower c texts l is_set path positive items is
rewrite_members-Lower c texts l positive false v is_set path is =
    AllBelow-set c texts l is_set path _ (v ∷ []) (omega arith)
