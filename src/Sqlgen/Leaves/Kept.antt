-- ===== src/Sqlgen/Leaves/Kept.antt =====
-- kernel/src/sqlgen.rs: the leaves of `in` and `not in` that `optimize_leaf` leaves as they are.
use odoo_rust_orm.Prelude.{
  Bool, false, not, ◌&&◌, ◌||◌, List, Option, none, some, any, ◌≡◌, refl, arith, if-intro,
  Bool-cases, inl, inr,
}
use odoo_rust_orm.Error.{Each, Each-step, Each-imp}
use odoo_rust_orm.Json.{Json, array, Items, to_list}
use odoo_rust_orm.Domain.{Leaf, Node}
use odoo_rust_orm.Registry.Fields.{FieldType, is_text, Field}
use odoo_rust_orm.Sqlgen.Comparands.{is_falsy_id, is_number, is_string, is_boolean_value}
use odoo_rust_orm.Sqlgen.Days.{is_bare, is_order, datetime_day_comparand, zone_of, set_of_days}
use odoo_rust_orm.Sqlgen.Class.{
  Context, typed, is_relational, is_numeric, is_datetime, is_boolean_type,
}
use odoo_rust_orm.Sqlgen.Members.{
  text_members, days, refuse_true, relational_members, names, numeric_members, boolean_members,
  members_chain, rewrite_members,
}
use odoo_rust_orm.Sqlgen.Leaves.Rank.{defects, defects_at}
use odoo_rust_orm.Sqlgen.Leaves.Passes.{
  Passed, Passes, or_else-Passed, links_true, refuse_true-Passes, Passed-last, Passes-members,
  Passes-two, Converted, if_rewritten-Passes, Keeps, Passed-Keeps,
}

module _ (c : Context) (field : Option Field) (items : List Json) where
  abbrev texts : Bool
  texts = typed is_text field && any (λ v. is_number v) items

  abbrev dates : Bool
  dates = typed is_datetime field && any (λ v. is_bare c.calendar v) items

  abbrev links : Bool
  links = typed is_relational field && (any is_falsy_id items || any (λ v. is_string v) items)

  abbrev amounts : Bool
  amounts = typed is_numeric field && any (λ v. is_string v) items

  abbrev bools : Bool
  bools = typed is_boolean_type field && any (λ v. not (is_boolean_value v)) items

  -- Whether a set has a member that is converted, or refused.
  abbrev unconverted : Bool
  unconverted = texts || (dates || (links_true field items || (links || (amounts || bools))))

unconverted-defects :
    (c : Context) (field : Option Field) (items : List Json)
    → unconverted c field items ≡ false
    → (defects c field items ≡ 0) × (links_true field items ≡ false)
unconverted-defects c none items h = (refl, refl)
unconverted-defects c (some f) items h = typed_at (Field.ttype f) (links_true (some f) items) h
  where
    typed_at :
        (t : FieldType) (m : Bool)
        → ((is_text t && any (λ v. is_number v) items)
            || ((is_datetime t && any (λ v. is_bare c.calendar v) items)
                || (m
                    || ((is_relational t && (any is_falsy_id items || any (λ v. is_string v) items))
                        || ((is_numeric t && any (λ v. is_string v) items)
                            || (is_boolean_type t && any (λ v. not (is_boolean_value v)) items))))))
          ≡ false
        → (defects_at c t items ≡ 0) × (m ≡ false)
    typed_at t m h = ground arith

module _ (c : Context) (l : Leaf) (field : Option Field) (items : Items)
    (is : l.value ≡ array items) (unordered : is_order l.op ≡ false) where
  abbrev xs : List Json
  xs = to_list items

  datetime_day_comparand-Converted :
      Each
        (Converted (any (λ v. is_bare c.calendar v) xs))
        (datetime_day_comparand c.calendar c.tz l.field l.op (array items))
  unfolding datetime_day_comparand
  datetime_day_comparand-Converted =
      let P : Option Node → Type 0 = Converted (any (λ v. is_bare c.calendar v) xs) in
      if-intro (Each P) (any (λ v. is_bare c.calendar v) xs)
        (λ _.
          Each-step P (zone_of c.calendar c.tz) _ (λ z.
            rw unordered (Each-step P (set_of_days c.calendar z l.field l.op xs) _ (λ n. tt))))
        (λ e. e)

  days-Passes : Each (Passes (dates c field xs)) (days c l field)
  unfolding days
  days-Passes = elim (Bool-cases (typed is_datetime field)) [
    | inl e ↦ rw (e, is) (if_rewritten-Passes _ _ datetime_day_comparand-Converted)
    | inr e ↦ rw e refl
  ]

  members_chain-Passed :
      (positive : Bool)
      → Each (Passed (unconverted c field xs)) (members_chain c l positive field xs)
  unfolding text_members relational_members names numeric_members boolean_members
  members_chain-Passed positive =
      or_else-Passed (texts c field xs) _ (text_members l field xs) _
        (Passes-members (texts c field xs) l _)
        (or_else-Passed (dates c field xs) _ (days c l field) _ days-Passes (
          or_else-Passed (links_true field xs) _ (refuse_true field xs) _
            (refuse_true-Passes field xs)
            (or_else-Passed (links c field xs) _ (relational_members l positive field xs) _
              (Passes-two (typed is_relational field) (any is_falsy_id xs)
                (any (λ v. is_string v) xs) _ _ tt tt)
              (or_else-Passed (amounts c field xs) (bools c field xs) (numeric_members c l field xs)
                _ (Passes-members (amounts c field xs) l _) (Passed-last (bools c field xs) _)))))

-- A set that is kept is a list with no member to convert, nor true among those of a stored relation.
abbrev pub Members : Context → Option Field → Json → Type 0
Members c field v =
    (items : Items) × (v ≡ array items)
    × (defects c field (to_list items) ≡ 0)
    × (links_true field (to_list items) ≡ false)

pub rewrite_members-Keeps :
    (c : Context) (l : Leaf) (positive : Bool) (field : Option Field) (v : Json)
    → l.value ≡ v
    → is_order l.op ≡ false
    → Each (Keeps (Members c field v)) (rewrite_members c l positive false field v)
unfolding rewrite_members
rewrite_members-Keeps c l positive field (array items) is unordered =
    Each-imp (Passed (unconverted c field (to_list items))) (Keeps (Members c field (array items)))
      (members_chain c l positive field (to_list items))
      (λ s p.
        Passed-Keeps _ (unconverted c field (to_list items)) s
          (λ h.
            let (converted, allowed) = unconverted-defects c field (to_list items) h in
            (items, refl, converted, allowed))
          p)
      (members_chain-Passed c l field items is unordered positive)
rewrite_members-Keeps c l positive field v is unordered = tt
