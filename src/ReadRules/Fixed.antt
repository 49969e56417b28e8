-- ===== src/ReadRules/Fixed.antt =====
-- kernel/src/security.rs and kernel/src/registry.rs: the fixed filter of a row that has a reach.
use odoo_rust_orm.Prelude.{◌≡◌, refl, false, Option, none, some, Bytes, Bool-cases, inl, inr}
use mathlib.Core.Option
use odoo_rust_orm.Error.{Result, ok, err, refuse, >>=-eq-ok, ok-injective}
use odoo_rust_orm.Access.Rows.{UserCtx}
use odoo_rust_orm.Reach.{Reach}
use odoo_rust_orm.RuleExpr.{PyExpr, reads_names}
use odoo_rust_orm.RuleExpr.Chars.{Std}
use odoo_rust_orm.RuleExpr.Parser.{parse_py}
use odoo_rust_orm.RuleExpr.Eval.Values.{eval_py-reads_names}
use odoo_rust_orm.Registry.Groups.{Grants}
use odoo_rust_orm.Registry.Load.{Row, Read, row_reach, parsed_filter, of_outcome, read_row, rule_of}
use odoo_rust_orm.Resolve.{resolve_name}
use odoo_rust_orm.Resolve.Hop.{Sources}
use odoo_rust_orm.ReadRules.{Lookups, resolve_ref, row_value}

parsed_filter-reads_names :
    (std : Std) (r : Reach) (src : Bytes) (e : PyExpr)
    → parsed_filter std (some r) src ≡ ok e
    → reads_names e ≡ false
unfolding parsed_filter
parsed_filter-reads_names std r src e h =
    let (read, parsed, rest) = >>=-eq-ok (of_outcome (parse_py std src)) _ h in
    elim (Bool-cases (reads_names read)) [
      | inl reads ↦ let no : refuse ≡ ok e = rw reads at rest in cc
      | inr closed ↦ let same = ok-injective (rw closed at rest) in rw (← same) closed
    ]

-- A filter beside a reach, if the row has both.
abbrev Closed : Option Reach → Option (Result PyExpr) → Type 0
Closed (some r) (some (ok e)) = reads_names e ≡ false
Closed _ _ = Unit

filter-Closed :
    (std : Std) (reach : Option Reach) (domain : Option Bytes)
    → Closed reach (Option.map (parsed_filter std reach) domain)
filter-Closed std none domain = tt
filter-Closed std (some r) none = tt
filter-Closed std (some r) (some src) = go (parsed_filter std (some r) src) refl
  where
    go : (p : Result PyExpr) → parsed_filter std (some r) src ≡ p → Closed (some r) (some p)
    go (ok e) h = parsed_filter-reads_names std r src e h
    go (err chain) h = tt

read_row-Closed :
    (std : Std) (row : Row) → Closed (read_row std row).reach (read_row std row).parsed
unfolding read_row
read_row-Closed std row = go (row_reach std row.reach row.anchor row.domain)
  where
    go :
        (r : Result (Option Bytes × Option Reach))
        → let read : Read = elim r [
          | err why ↦ record { filter = none; reach = none; parsed = some (err why) }
          | ok (domain, reach) ↦ record {
            filter = domain;
            reach = reach;
            parsed = Option.map (parsed_filter std reach) domain;
          }
        ] in
          Closed read.reach read.parsed
    go (err why) = tt
    go (ok (domain, reach)) = filter-Closed std reach domain

-- Beside a reach, the fixed filter has one value, whoever it is evaluated for: what the row admits
-- depends on the principal through the reach alone.
pub rule_of-row_value :
    (std : Std) (row : Row) (r : Reach) (e : PyExpr) (from : Sources) (grants : Grants)
    (lookups : Lookups) (one another : UserCtx)
    → (rule_of std row).reach ≡ some r
    → (rule_of std row).parsed ≡ some (ok e)
    → row_value from grants lookups e one ≡ row_value from grants lookups e another
unfolding rule_of row_value
rule_of-row_value std row r e from grants lookups one another has_reach has_filter =
    let closed : Closed (some r) (some (ok e)) =
      rw (has_reach, has_filter) at (read_row-Closed std row) in
    eval_py-reads_names from.doubles (resolve_name from grants one)
      (resolve_name from grants another) (resolve_ref lookups) e closed
