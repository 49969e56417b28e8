-- ===== src/Sqlgen/Leaves/Dates.antt =====
-- kernel/src/sqlgen.rs: the leaves that `datetime_day_comparand` gives hold no bare date.
use odoo_rust_orm.Prelude.{
  ℕ, suc, true, false, ◌||◌, [], ◌∷◌, ◌++◌, any, ◌==◌, Option, none, some, Bytes, codes, bytes_eq,
  bytes_eq_iff, Bool-cases, inl, inr, ◌≡◌, refl, ap, arith, if-intro,
}
use odoo_rust_orm.Error.{Result, ok, ◌>>=◌, Each, Each-then}
use odoo_rust_orm.Int.{pos, eqb_ℤ}
use odoo_rust_orm.Json.{Json, string}
use odoo_rust_orm.Domain.Internal.{leaves}
use odoo_rust_orm.ReadRules.{split_once}
use odoo_rust_orm.Sqlgen.Comparands.{is_null_like, ends_with}
use odoo_rust_orm.Sqlgen.Days.{
  Calendar, is_bare, leaf_node, start_of, local_text, strict_date, written_as, instant_text,
}
use odoo_rust_orm.Sqlgen.Class.{Context, order, class_of, is_datetime, is_dotted, typed}
use odoo_rust_orm.Sqlgen.Leaves.{field_of}
use odoo_rust_orm.Sqlgen.Leaves.Rank.{flag, AllBelow, leaf_node-AllBelow, order_defects_datetime}

-- The text of a date has no blank.
pub record Blankless (cal : Calendar) : Type 0 where
  pub of_date : (d : cal.Day) → any (λ ch. ch == b' ') (cal.date_text d) ≡ false

-- An instant's text, which is no date's.
abbrev pub Start : Calendar → Json → Type 0
Start cal v = (s : Bytes) × (v ≡ string s) × (strict_date cal s ≡ none)

any_blank : (date time : Bytes) → any (λ ch. ch == b' ') (date ++ b' ' ∷ time) ≡ true
any_blank [] time = refl
any_blank (x ∷ date) time = let rest = any_blank date time in ground arith

written_as-none :
    (cal : Calendar)
    → Blankless cal
    → (d : cal.Day) (time : Bytes) (o : Option cal.Day)
    → written_as cal (instant_text cal d time) o ≡ none
unfolding instant_text
written_as-none cal texts d time none = refl
written_as-none cal texts d time (some e) =
    elim (Bool-cases (bytes_eq (cal.date_text e) (cal.date_text d ++ b' ' ∷ time))) [
      | inl same ↦
          let equal = (bytes_eq_iff (cal.date_text e) (cal.date_text d ++ b' ' ∷ time)).0 same in
          let none_there = Blankless.of_date texts e in
          let one_there = any_blank (cal.date_text d) time in cc
      | inr other ↦ rw other refl
    ]

instant_text-Start :
    (cal : Calendar)
    → Blankless cal
    → (d : cal.Day) (time : Bytes) → Start cal (string (instant_text cal d time))
unfolding strict_date
instant_text-Start cal texts d time =
    (instant_text cal d time, refl, written_as-none cal texts d time _)

local_text-Start :
    (cal : Calendar)
    → Blankless cal
    → (o : Option (cal.Day × Bytes)) → Each (Start cal) (local_text cal o)
local_text-Start cal texts none = tt
local_text-Start cal texts (some i) = instant_text-Start cal texts i.0 i.1

pub start_of-Start :
    (cal : Calendar) (texts : Blankless cal) (z : Option cal.Zone) (d : cal.Day)
    → Each (Start cal) (start_of cal z d)
unfolding start_of
start_of-Start cal texts none d = instant_text-Start cal texts d _
start_of-Start cal texts (some z) d =
    if-intro (Each (Start cal)) (eqb_ℤ (cal.year d) (pos 1) || eqb_ℤ (cal.year d) (pos 9999))
      (λ _. instant_text-Start cal texts d _)
      (λ _. local_text-Start cal texts (cal.midnight_utc z d))

Start-bare : (cal : Calendar) (v : Json) → Start cal v → is_bare cal v ≡ false
Start-bare cal v (s, is, h) = rw (is, h) refl

Start-set : (cal : Calendar) (v : Json) → Start cal v → is_null_like v ≡ false
unfolding is_null_like
Start-set cal v (s, is, h) = rw is refl

module _ (c : Context) (texts : Blankless c.calendar) (name : Bytes)
    (plain : is_dotted (split_once name) ≡ false)
    (dated : typed is_datetime (field_of c name) ≡ true) where
  pub AllBelow-instant :
      (k : ℕ) (op : Bytes) (v : Json)
      → class_of op ≡ order
      → Start c.calendar v
      → AllBelow c (suc k) (leaves (leaf_node name op v))
  AllBelow-instant k op v orders start = leaf_node-AllBelow c name op v (
      rw (orders, plain, Start-set c.calendar v start)
        (omega (
          arith,
          order_defects_datetime c (field_of c name) v dated,
          ap flag (Start-bare c.calendar v start),
        )))

  pub day_classes : (class_of (codes ">=") ≡ order) × (class_of (codes "<") ≡ order)
  unfolding class_of bytes_eq ends_with
  day_classes = (refl, refl)

  pub AllBelow-Start :
      (k : ℕ) (op : Bytes) (start : Result Json)
      → class_of op ≡ order
      → Each (Start c.calendar) start
      → Each (λ n. AllBelow c (suc k) (leaves n)) (start >>= λ v. ok (leaf_node name op v))
  AllBelow-Start k op start orders each =
      Each-then (Start c.calendar) (λ n. AllBelow c (suc k) (leaves n)) start _ each
        (λ v is. AllBelow-instant k op v orders is)
