-- ===== src/Tests/Sources.antt =====
-- Runs of kernel/src/registry.rs and of the walk and the reaches of kernel/src/security.rs, and their
-- theorems at concrete inputs.
use odoo_rust_orm.Prelude.{
  ℕ, ◌≡◌, refl, ◌⊎◌, ◌↔◌, true, false, List, [], ◌∷◌, Option, none, some, Bytes, codes, bytes_eq,
}
use odoo_rust_orm.Int.{ℤ, pos}
use odoo_rust_orm.Error.{ok, refuse}
use odoo_rust_orm.Domain.{Leaf}
use odoo_rust_orm.Assoc.{member, lookup, id_key, name_key, has}
use odoo_rust_orm.Access.Notation.{spelled}
use odoo_rust_orm.Reach.{Reach, AccessAnchor, reach_leaves, leaf_of}
use odoo_rust_orm.Reach.Meaning.{Binds, reached, leaf_on, reach_leaves-Binds}
use odoo_rust_orm.Registry.Groups.{Grants, groups_of, close_groups}
use odoo_rust_orm.Registry.Groups.Closure.{Held, groups_of-Held}
use odoo_rust_orm.Registry.Signals.{
  snapshot_precedes, registry_table, precedes, signal_lt, is_security,
}
use odoo_rust_orm.Registry.Fields.{Field, Model, many2one, ensure_supported_read_access}
use odoo_rust_orm.Registry.Fields.Readable.{
  field_readable, by_spec, sort_tokens, trim, held_ids, judge, judged, excluded,
}
use odoo_rust_orm.Registry.Fields.Readable.Judged.{granted, field_readable-granted}
use odoo_rust_orm.RuleExpr.Parser.{split}
use odoo_rust_orm.Registry.Load.{Row, load_rows, listed_at}
use odoo_rust_orm.Registry.Load.Collected.{
  unloaded, rules_of, grants_of, denials_of, load_rows-Collected,
}
use odoo_rust_orm.Resolve.Hop.{Queries, Sources, records, hop, supported, once, targets}
use odoo_rust_orm.Resolve.Stored.{Stored, hop-Stored}
use odoo_rust_orm.Tests.Rules.{ascii, doubles}

-- User 7 holds group 1, which implies 2, which implies 1 and 3; everyone holds 9.
abbrev pub grants : Grants
grants = record {
  implied = (1, 2 ∷ []) ∷ (2, 1 ∷ 3 ∷ []) ∷ [];
  everyone = some 9;
  user_groups = (7, 1 ∷ []) ∷ [];
}

closures : (groups_of grants 7 ≡ some (3 ∷ 2 ∷ 1 ∷ 9 ∷ [])) × (groups_of grants 8 ≡ some (9 ∷ []))
unfolding groups_of close_groups member lookup
closures = (refl, refl)

groups_of-Held_example :
    (seen : List ℕ) × (groups_of grants 7 ≡ some seen)
    × ((member 3 seen ≡ true) ↔ ∥ Held grants 7 3 ∥₁)
groups_of-Held_example = groups_of-Held grants 7 3

abbrev pub anchor : AccessAnchor
anchor = record { path = codes "user_id"; kind = codes "owner"; shared = true; hierarchy = [] }

abbrev own_reach : Reach
own_reach = record { rung = codes "own"; anchor = none }

reach_of_own :
    reach_leaves own_reach anchor 7 (1 ∷ []) none
    ≡ ok (spelled (reached anchor (leaf_on (codes "user_id") (codes "in") (7 ∷ [])) ∷ []))
unfolding reach_leaves leaf_of bytes_eq
reach_of_own = refl

reach_leaves-Binds_example :
    (l : Leaf) × Binds own_reach anchor 7 (1 ∷ []) none l
    × (spelled (reached anchor (leaf_on (codes "user_id") (codes "in") (7 ∷ [])) ∷ [])
        ≡ spelled (reached anchor l ∷ []))
reach_leaves-Binds_example = reach_leaves-Binds own_reach anchor 7 (1 ∷ []) none _ reach_of_own

abbrev tables : List Bytes
tables = registry_table ∷ codes "orm_signaling_groups" ∷ codes "orm_signaling_assets" ∷ []

abbrev first : List (Option ℤ)
first = some (pos 4) ∷ some (pos 10) ∷ some (pos 2) ∷ []

abbrev second : List (Option ℤ)
second = some (pos 4) ∷ some (pos 11) ∷ some (pos 2) ∷ []

behind : snapshot_precedes tables first second ≡ true
unfolding snapshot_precedes precedes signal_lt is_security bytes_eq
behind = refl

abbrev pub partner_field : Field
partner_field = record {
  name = codes "partner_id";
  ttype = many2one;
  relation = some (codes "res.partner");
  relation_table = none;
  column1 = none;
  column2 = none;
  relation_field = none;
  one2one = none;
  company_dependent = false;
  has_column = true;
  stored = true;
  translated = false;
  related = none;
  domain = none;
  domain_callable = false;
  context = none;
  groups = some (codes "base.group_user, !base.group_portal");
  python_read_access = some false;
  falsy = none;
  custom_search = false;
}

abbrev pub users_model : Model
users_model = record {
  name = codes "res.users";
  table = codes "res_users";
  fields = (codes "partner_id", partner_field) ∷ [];
  inherits_rules = true;
  table_inheritance_root = none;
  access_company_anchor = none;
  active_name = none;
  rec_name = none;
  read_path_pure = true;
  impure_read_methods = [];
  display_name_default = false;
  display_name_column = [];
}

abbrev group_ids : List (Bytes × ℕ)
group_ids = (codes "base.group_user", 1) ∷ (codes "base.group_portal", 2) ∷ []

readable :
    (field_readable ascii group_ids partner_field (1 ∷ []) [] ≡ ok true)
    × (field_readable ascii group_ids partner_field (1 ∷ 2 ∷ []) [] ≡ ok false)
    × (field_readable ascii group_ids partner_field (1 ∷ []) ((1, 3 ∷ []) ∷ []) ≡ refuse)
    × (field_readable ascii group_ids partner_field [] [] ≡ ok false)
unfolding field_readable by_spec sort_tokens trim held_ids judge judged excluded lookup member has
    bytes_eq ensure_supported_read_access split
readable = (refl, refl, refl, refl)

field_readable-granted_example :
    (some false ≡ some false)
    × ((partner_field.groups ≡ none)
        ⊎ ((spec : Bytes) × (partner_field.groups ≡ some spec)
            × (granted ascii group_ids (1 ∷ []) spec ≡ true)))
field_readable-granted_example =
    field_readable-granted ascii group_ids partner_field (1 ∷ []) [] readable.0

abbrev rows : List Row
rows =
    record {
      model = codes "res.partner";
      group = 1;
      guard = false;
      members_only = false;
      domain = some (codes "[('a', '=', 1)]");
      reach = none;
      anchor = none;
      exemptions = [];
    }
    ∷ record {
      model = codes "res.partner";
      group = 2;
      guard = true;
      members_only = true;
      domain = some (codes "[(0, '=', 1)]");
      reach = none;
      anchor = none;
      exemptions = 5 ∷ [];
    }
    ∷ []

load_rows-Collected_example :
    (listed_at (codes "res.partner") (load_rows ascii rows unloaded).rules
      ≡ rules_of ascii (codes "res.partner") rows)
    × (listed_at (codes "res.partner") (load_rows ascii rows unloaded).access
        ≡ grants_of ascii (codes "res.partner") rows)
    × (listed_at (codes "res.partner") (load_rows ascii rows unloaded).denying_guards
        ≡ denials_of ascii (codes "res.partner") rows)
load_rows-Collected_example = load_rows-Collected ascii rows (codes "res.partner")

abbrev queries : Queries
queries = record {
  ids = λ sql is. ok [];
  links = λ sql is. ok ((some 20, some 7) ∷ (some 21, some 8) ∷ (some 20, some 9) ∷ []);
  texts = λ sql is. ok [];
  text = λ sql i. ok none;
}

abbrev pub from : Sources
from = record {
  std = ascii;
  doubles = doubles;
  model = λ name. some users_model;
  queries = queries;
}

hops :
    hop from (codes "res.users") users_model partner_field true false (7 ∷ 8 ∷ 9 ∷ [])
    ≡ ok (records (codes "res.partner") (20 ∷ 21 ∷ []))
unfolding hop supported targets once member
hops = refl

hop-Stored_example : Stored partner_field
hop-Stored_example =
    hop-Stored from (codes "res.users") users_model partner_field true false (7 ∷ 8 ∷ 9 ∷ []) _ hops
