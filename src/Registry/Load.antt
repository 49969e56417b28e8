-- ===== src/Registry/Load.antt =====
-- kernel/src/registry.rs: how `Registry::load_security` reads an access row, and what it collects of
-- the rows for each model. The queries are not modelled: the rows are given, each guard with its
-- exemptions.
pub mod Collected
use odoo_rust_orm.Prelude.{
  ℕ, Bool, true, false, not, ◌&&◌, ◌||◌, List, [], ◌∷◌, ◌++◌, Option, none, some, map, Bytes, codes,
  bytes_eq, any, if◌then◌else◌, ◌==◌,
}
use mathlib.Core.Option
use odoo_rust_orm.Error.{Result, ok, err, ◌>>=◌, ◌>>◌, refuse, refusal}
use odoo_rust_orm.Assoc.{Key, lookup, name_key}
use odoo_rust_orm.Access.Rows.{Rule}
use odoo_rust_orm.Access.Grants.{DenyingGuard}
use odoo_rust_orm.Reach.{Reach}
use odoo_rust_orm.RuleExpr.{PyExpr, reads_names}
use odoo_rust_orm.RuleExpr.Chars.{Std, is_whitespace}
use odoo_rust_orm.RuleExpr.Parser.{parse_py, Outcome, done, failed, out_of_fuel}

-- `NOTHING`
abbrev pub nothing : Bytes
nothing = codes "[(0, '=', 1)]"

abbrev all_blank : Std → Bytes → Bool
all_blank std [] = true
all_blank std (c ∷ cs) = is_whitespace std c && all_blank std cs

-- `domain.filter(|d| !d.trim().is_empty())`
abbrev filled : Std → Option Bytes → Option Bytes
filled std none = none
filled std (some d) = if all_blank std d then none else some d

abbrev given : Option Bytes → Option Bytes
given none = none
given (some []) = none
given (some (c ∷ cs)) = some (c ∷ cs)

abbrev or_blank : Option Bytes → Bytes
or_blank none = []
or_blank (some s) = s

abbrev is_rung : Bytes → Bool
is_rung r = bytes_eq r (codes "own") || bytes_eq r (codes "company") || bytes_eq r (codes "partner")

-- `reach_domain`: the fixed filter of a row, and the reach that the kernel compiles.
unfoldable pub row_reach :
    Std → Option Bytes → Option Bytes → Option Bytes → Result (Option Bytes × Option Reach)
row_reach std reach anchor domain =
    let rung = or_blank reach in
    if bytes_eq rung [] || bytes_eq rung (codes "all")
    then ok (filled std domain, none)
    else if bytes_eq rung (codes "none")
    then ok (some nothing, none)
    else if is_rung rung
    then ok (filled std domain, some (record { rung = rung; anchor = given anchor }))
    else refuse

-- The characters that `is_literally_false` keeps.
unfoldable pub compact : Std → Bytes → Bytes
compact std [] = []
compact std (c ∷ cs) =
    if is_whitespace std c || c == b'\'' || c == b'"' then compact std cs else c ∷ compact std cs

unfoldable pub is_literally_false : Std → Bytes → Bool
unfolding compact
is_literally_false std domain =
    let text = compact std domain in
    bytes_eq text (codes "[(0,=,1)]")
    || bytes_eq text (codes "[[0,=,1]]")
    || bytes_eq text (codes "((0,=,1),)")

-- A row of `ir_access`, with the exemptions that its id has.
pub record Row : Type 0 where
  pub model : Bytes
  pub group : ℕ
  pub guard : Bool
  pub members_only : Bool
  pub domain : Option Bytes
  pub reach : Option Bytes
  pub anchor : Option Bytes
  pub exemptions : List ℕ

-- What a reader's outcome is to the program; it always has one.
abbrev pub of_outcome : Outcome PyExpr → Result PyExpr
of_outcome (done e) = ok e
of_outcome (failed chain) = err chain
of_outcome out_of_fuel = err []

abbrev is_some {ℓ} : {A : Type ℓ} → Option A → Bool
is_some none = false
is_some (some _) = true

-- The fixed filter, which may not read the principal beside a reach.
unfoldable pub parsed_filter : Std → Option Reach → Bytes → Result PyExpr
parsed_filter std reach src =
    of_outcome (parse_py std src) >>= λ e. if is_some reach && reads_names e then refuse else ok e

-- What the row's domain is read as.
pub record Read : Type 0 where
  pub filter : Option Bytes
  pub reach : Option Reach
  pub parsed : Option (Result PyExpr)

unfoldable pub read_row : Std → Row → Read
unfolding row_reach parsed_filter
read_row std row = elim (row_reach std row.reach row.anchor row.domain) [
  | err why ↦ record { filter = none; reach = none; parsed = some (err why) }
  | ok (domain, reach) ↦ record {
    filter = domain;
    reach = reach;
    parsed = Option.map (parsed_filter std reach) domain;
  }
]

unfoldable pub never : Std → Row → Bool
unfolding read_row is_literally_false
never std row = elim (Read.filter (read_row std row)) [
  | none ↦ false
  | some domain ↦ is_literally_false std domain
]

abbrev pub exempt_of : Row → List ℕ
exempt_of row = if row.guard then row.exemptions else []

unfoldable pub rule_of : Std → Row → Rule PyExpr Reach
unfolding read_row
rule_of std row =
    let read = read_row std row in
    record {
      groups = if row.guard && not row.members_only then [] else row.group ∷ [];
      restrict = row.guard;
      parsed = Read.parsed read;
      reach = Read.reach read;
      exempt = exempt_of row;
    }

-- `entry(key).or_default().extend(more)` on a map to lists, and what a key has in it.
module _ {K : Type 0} ⦃key : Key K⦄ {V : Type 0} where
  unfoldable pub extend_at : K → List V → List (K × List V) → List (K × List V)
  extend_at k more [] = (k, more) ∷ []
  extend_at k more (e ∷ es) =
      if key.same e.0 k then (e.0, e.1 ++ more) ∷ es else e ∷ extend_at k more es

  unfoldable pub listed_at : K → List (K × List V) → List V
  listed_at k [] = []
  listed_at k (e ∷ es) = if key.same e.0 k then e.1 else listed_at k es

pub record Loaded : Type 0 where
  pub access : List (Bytes × List ℕ)
  pub denying_guards : List (Bytes × List DenyingGuard)
  pub rules : List (Bytes × List (Rule PyExpr Reach))

abbrev pub denial_of : Row → DenyingGuard
denial_of row = (if row.members_only then some row.group else none, exempt_of row)

-- The body of the loop over the rows.
unfoldable pub load_row : Std → Row → Loaded → Loaded
load_row std row s = record {
  access =
      if not row.guard && not (never std row)
      then extend_at row.model (row.group ∷ []) s.access
      else s.access;
  denying_guards =
      if row.guard && never std row
      then extend_at row.model (denial_of row ∷ []) s.denying_guards
      else s.denying_guards;
  rules = extend_at row.model (rule_of std row ∷ []) s.rules;
}

unfoldable pub load_rows : Std → List Row → Loaded → Loaded
unfolding load_row
load_rows std [] s = s
load_rows std (row ∷ rows) s = load_rows std rows (load_row std row s)

-- `if let Some(…) = map.get(owner)`
abbrev copy : {V : Type 0} → Bytes → Bytes → List (Bytes × List V) → List (Bytes × List V)
copy model owner es = elim (lookup owner es) [ none ↦ es | some vs ↦ extend_at model vs es ]

-- A model under a root is bound by the rows of the models that own the root's table.
unfoldable pub bind_owners : Bytes → List Bytes → Loaded → Loaded
bind_owners model [] s = s
bind_owners model (owner ∷ owners) s = bind_owners model owners (record {
  access = copy model owner s.access;
  denying_guards = copy model owner s.denying_guards;
  rules = copy model owner s.rules;
})
