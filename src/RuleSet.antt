-- ===== src/RuleSet.antt =====
-- kernel/src/security.rs: `RuleSet`, the rules that a request has compiled, and the check that a
-- model is not read without them. Traces are left out.
pub mod History
use odoo_rust_orm.Prelude.{
  ℕ, Bool, true, false, not, ◌&&◌, List, [], ◌∷◌, Option, none, some, Bytes, map, length,
  if◌then◌else◌,
}
use odoo_rust_orm.Assoc.{member, add_member, lookup, has, remove, insert, name_key}
use odoo_rust_orm.Error.{Result, ok, refuse}
use odoo_rust_orm.Domain.{Node}

pub record RuleSet : Type 0 where
  pub domains : List (Bytes × Node)
  pub reads : List (Bytes × List (Bytes × Bytes))
  pub unevaluated : List (Bytes × Bytes)
  pub ruled : List Bytes
  pub compiled : List Bytes

unfoldable pub with_ruled : List Bytes → RuleSet
with_ruled ruled = record {
  domains = [];
  reads = [];
  unevaluated = [];
  ruled = ruled;
  compiled = [];
}

unfoldable pub insert_domain : Bytes → Node → RuleSet → RuleSet
insert_domain model node s = record s {
  compiled = add_member model s.compiled;
  domains = insert model node s.domains;
}

unfoldable pub resolve : Bytes → Node → RuleSet → RuleSet
unfolding insert_domain
resolve model node s =
    insert_domain model node (record s { unevaluated = remove model s.unevaluated })

unfoldable pub mark_unrestricted : Bytes → RuleSet → RuleSet
mark_unrestricted model s = record s { compiled = add_member model s.compiled }

unfoldable pub mark_unevaluated : Bytes → Bytes → RuleSet → RuleSet
mark_unevaluated model reason s = record s {
  compiled = add_member model s.compiled;
  unevaluated = insert model reason s.unevaluated;
}

unfoldable pub is_compiled : Bytes → RuleSet → Bool
is_compiled model s = member model s.compiled

unfoldable pub get : Bytes → RuleSet → Option Node
get model s = lookup model s.domains

abbrev pub non_empty {ℓ} : {A : Type ℓ} → List A → Bool
non_empty [] = false
non_empty (_ ∷ _) = true

unfoldable pub note_reads : Bytes → List (Bytes × Bytes) → RuleSet → RuleSet
note_reads model reads s =
    if non_empty reads then record s { reads = insert model reads s.reads } else s

abbrev or_none : Option (List (Bytes × Bytes)) → List (Bytes × Bytes)
or_none none = []
or_none (some reads) = reads

unfoldable pub reads_of : Bytes → RuleSet → List (Bytes × Bytes)
reads_of model s = or_none (lookup model s.reads)

unfoldable pub is_unevaluated : Bytes → RuleSet → Bool
is_unevaluated model s = has model s.unevaluated

unfoldable pub ensure_evaluated : Bytes → RuleSet → Result (Unit {0})
ensure_evaluated model s =
    if has model s.unevaluated
    then refuse
    else if member model s.ruled && not (member model s.compiled)
    then refuse
    else ok tt

unfoldable pub restricted_count : RuleSet → ℕ
restricted_count s = length s.domains
