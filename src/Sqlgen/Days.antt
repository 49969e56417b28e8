-- ===== src/Sqlgen/Days.antt =====
-- kernel/src/sqlgen.rs: `datetime_day_comparand`, by which a bare date beside a datetime names a whole
-- day. The calendar of the chrono crates is a parameter.
use odoo_rust_orm.Prelude.{
  Bool, true, false, ◌||◌, List, [], ◌∷◌, ◌++◌, Option, none, some, Bytes, codes, bytes_eq, any,
  if◌then◌else◌,
}
use odoo_rust_orm.Error.{Result, ok, ◌>>=◌, refuse}
use odoo_rust_orm.Int.{ℤ, pos, ltb_ℤ, eqb_ℤ}
use odoo_rust_orm.Json.{Json, bool, string, array, to_list, of_list}
use odoo_rust_orm.Domain.{Node, and, or, not, leaf, false_node, of_nodes}
use odoo_rust_orm.Registry.Normalize.{holds_of}

-- `parse_date` and `date_text` read and write `%Y-%m-%d`. `midnight_utc` is the midnight of a day in
-- a zone, as the day and the text of the time in UTC, where there is one alone.
pub record Calendar : Type 1 where
  pub Day : Type 0
  pub Zone : Type 0
  pub parse_date : Bytes → Option Day
  pub date_text : Day → Bytes
  pub succ : Day → Option Day
  pub year : Day → ℤ
  pub zone : Bytes → Option Zone
  pub midnight_utc : Zone → Day → Option (Day × Bytes)

-- `leaf`
unfoldable pub leaf_node : Bytes → Bytes → Json → Node
leaf_node name op value = leaf (record { field = name; op = op; value = value })

abbrev pub values_of : Json → List Json
values_of (array items) = to_list items
values_of v = v ∷ []

-- The operators that compare an order.
unfoldable pub is_order : Bytes → Bool
is_order op =
    bytes_eq op (codes "<")
    || bytes_eq op (codes ">")
    || bytes_eq op (codes "<=")
    || bytes_eq op (codes ">=")

abbrev pub add_day : Result Node → Result (List Node × List Json) → Result (List Node × List Json)
add_day day rest = day >>= λ n. rest >>= λ r. ok (n ∷ r.0, r.1)

abbrev pub with_exact : Bytes → List Node → List Json → List Node
with_exact name days [] = days
with_exact name days (x ∷ xs) = days ++ leaf_node name (codes "in") (array (of_list (x ∷ xs))) ∷ []

abbrev pub joined_days : List Node → Node
joined_days (n ∷ []) = n
joined_days days = or (of_nodes days)

module _ (c : Calendar) where
  -- A date that is written as the text is.
  abbrev pub written_as : Bytes → Option c.Day → Option c.Day
  written_as s none = none
  written_as s (some d) = if bytes_eq (c.date_text d) s then some d else none

  unfoldable pub strict_date : Bytes → Option c.Day
  strict_date s = written_as s (c.parse_date s)

  -- An instant, as `%Y-%m-%d %H:%M:%S`
  unfoldable pub instant_text : c.Day → Bytes → Bytes
  instant_text d time = c.date_text d ++ b' ' ∷ time

  abbrev pub midnight : c.Day → Json
  midnight d = string (instant_text d (codes "00:00:00"))

  abbrev pub local_text : Option (c.Day × Bytes) → Result Json
  local_text none = refuse
  local_text (some i) = ok (string (instant_text i.0 i.1))

  abbrev pub bare_date : Json → Option c.Day
  bare_date (string s) = strict_date s
  bare_date _ = none

  abbrev pub is_bare : Json → Bool
  is_bare v = holds_of (λ (d : c.Day). true) (bare_date v)

  -- `None` and UTC need no zone.
  unfoldable pub zone_of : Option Bytes → Result (Option c.Zone)
  zone_of none = ok none
  zone_of (some name) =
      if bytes_eq name (codes "UTC")
      then ok none
      else elim (c.zone name) [ none ↦ refuse | some z ↦ ok (some z) ]

  unfoldable pub start_of : Option c.Zone → c.Day → Result Json
  start_of none d = ok (midnight d)
  start_of (some z) d =
      if eqb_ℤ (c.year d) (pos 1) || eqb_ℤ (c.year d) (pos 9999)
      then ok (midnight d)
      else local_text (c.midnight_utc z d)

  abbrev pub within_years : Option c.Day → Option c.Day
  within_years none = none
  within_years (some n) = if ltb_ℤ (pos 9999) (c.year n) then none else some n

  -- The day after, up to the end of Python's years.
  unfoldable pub next_day : c.Day → Option c.Day
  next_day d = within_years (c.succ d)

  -- What an operator of order is on a day, by the day after it.
  unfoldable pub order_day : Option c.Zone → Bytes → Bytes → c.Day → Option c.Day → Result Node
  order_day z name op day none =
      if bytes_eq op (codes ">")
      then ok false_node
      else if bytes_eq op (codes "<=")
      then ok (leaf_node name (codes "!=") (bool false))
      else (start_of z day >>= λ start. ok (leaf_node name op start))
  order_day z name op day (some after) =
      if bytes_eq op (codes ">")
      then (start_of z after >>= λ start. ok (leaf_node name (codes ">=") start))
      else if bytes_eq op (codes "<=")
      then (start_of z after >>= λ start. ok (leaf_node name (codes "<") start))
      else (start_of z day >>= λ start. ok (leaf_node name op start))

  -- A member of a set of days.
  unfoldable pub member_day : Option c.Zone → Bytes → c.Day → Option c.Day → Result Node
  member_day z name day none = start_of z day >>= λ start. ok (leaf_node name (codes ">=") start)
  member_day z name day (some after) = start_of z day >>= λ start. start_of z after >>= λ end.
      ok (and (of_nodes (leaf_node name (codes ">=") start ∷ leaf_node name (codes "<") end ∷ [])))

  abbrev pub add_value :
      Option c.Zone
      → Bytes
      → Json
      → Option c.Day
      → Result (List Node × List Json)
      → Result (List Node × List Json)
  add_value z name x none rest = rest >>= λ r. ok (r.0, x ∷ r.1)
  add_value z name x (some day) rest = add_day (member_day z name day (next_day day)) rest

  -- The days of a set, and its other values.
  unfoldable pub split_days : Option c.Zone → Bytes → List Json → Result (List Node × List Json)
  split_days z name [] = ok ([], [])
  split_days z name (x ∷ xs) = add_value z name x (bare_date x) (split_days z name xs)

  unfoldable pub set_of_days : Option c.Zone → Bytes → Bytes → List Json → Result Node
  set_of_days z name op values = split_days z name values >>= λ r. ok (
      if bytes_eq op (codes "not in")
      then not (joined_days (with_exact name r.0 r.1))
      else joined_days (with_exact name r.0 r.1))

  abbrev pub ordered : Option c.Zone → Bytes → Bytes → Option c.Day → Result (Option Node)
  ordered z name op none = ok none
  ordered z name op (some day) = order_day z name op day (next_day day) >>= λ n. ok (some n)

  unfoldable pub datetime_day_comparand : Option Bytes → Bytes → Bytes → Json → Result (Option Node)
  datetime_day_comparand tz name op v =
      if any (λ x. is_bare x) (values_of v)
      then (zone_of tz >>= λ z.
          if is_order op
          then ordered z name op (bare_date v)
          else (set_of_days z name op (values_of v) >>= λ n. ok (some n)))
      else ok none
