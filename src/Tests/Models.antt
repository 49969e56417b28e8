-- ===== src/Tests/Models.antt =====
-- Runs of `normalize_model` and `AccessTopology::of` of kernel/src/registry.rs, and their theorems at
-- concrete models.
use odoo_rust_orm.Prelude.{
  true, false, none, some, List, [], ◌∷◌, ◌≡◌, refl, codes, bytes_eq, Bytes,
}
use odoo_rust_orm.Assoc.{lookup, has, member, name_key}
use odoo_rust_orm.ReadRules.{split_once}
use odoo_rust_orm.Registry.Fields.{boolean, Model}
use odoo_rust_orm.Registry.Normalize.{
  has_text, over_head, delegated, renders_column, is_bool_column, renders_display_name,
  renders_name, settle_columns, settle_active_from, settle_active, rec_name_of, settle_rec_from,
  settle_rec, normalize_model,
}
use odoo_rust_orm.Registry.Normalize.Settled.{Settled, normalize_model-Settled}
use odoo_rust_orm.Registry.Topology.{
  bytes_leb, insert_sorted, sort_names, kept_at, filter_map, owners_of, bound_under,
  inherits_rules_of, parents_of, topology_of,
}
use odoo_rust_orm.Registry.Topology.Bound.{
  Distinct, Ascending, listed, governed, topology_of-governed,
}
use odoo_rust_orm.Tests.Paths.{name_field, login_name}
use odoo_rust_orm.Tests.Sources.{partner_field, users_model}

settling : Unit {0}
unfolding lookup member bytes_eq split_once has_text over_head delegated renders_column
    is_bool_column renders_display_name renders_name settle_columns settle_active_from settle_active
    rec_name_of settle_rec_from settle_rec normalize_model
settling = tt

abbrev text_columns : List (Bytes × List Bytes)
text_columns = (codes "res.partner", codes "name" ∷ []) ∷ []

-- A user is shown by the name of the partner.
abbrev declared : Model
declared = record users_model {
  fields =
      (codes "partner_id", partner_field)
      ∷ (codes "login_name", login_name)
      ∷ (codes "name", name_field)
      ∷ (codes "active", record name_field { ttype = boolean })
      ∷ [];
  display_name_column = codes "login_name" ∷ [];
}

normalize-declared : normalize_model text_columns declared ≡ record declared {
  display_name_default = true;
  active_name = some (codes "active");
  rec_name = some (codes "name");
}
unfolding settling
normalize-declared = refl

-- Names that cannot serve: no text is stored in a many2one, and none of them is a boolean.
abbrev misdeclared : Model
misdeclared = record declared {
  display_name_column = codes "partner_id" ∷ [];
  display_name_default = true;
  active_name = some (codes "name");
  rec_name = some (codes "partner_id");
}

normalize-misdeclared : normalize_model text_columns misdeclared ≡ record misdeclared {
  display_name_column = [];
  display_name_default = false;
  active_name = none;
  rec_name = none;
  read_path_pure = false;
  impure_read_methods = codes "_search" ∷ [];
}
unfolding settling
normalize-misdeclared = refl

normalize_model-Settled_example :
    Settled text_columns misdeclared (normalize_model text_columns misdeclared)
normalize_model-Settled_example = normalize_model-Settled text_columns misdeclared

gathering : Unit {0}
unfolding lookup has member bytes_eq bytes_leb insert_sorted sort_names kept_at filter_map owners_of
    bound_under inherits_rules_of parents_of topology_of Distinct
gathering = tt

abbrev owner_model : Bytes → Model
owner_model name = record users_model { name = name; table = codes "mail_thread" }

abbrev heir : Model
heir = record users_model {
  name = codes "mail.heir";
  table = codes "mail_heir";
  table_inheritance_root = some (codes "mail_thread");
  access_company_anchor = some (codes "company_id");
  inherits_rules = false;
}

-- Two models own the root's table, one of them under the root itself.
abbrev all_models : List (Bytes × Model)
all_models =
    (codes "mail.heir", heir)
    ∷ (codes "mail.two", owner_model (codes "mail.two"))
    ∷ (
      codes "mail.one",
      record (owner_model (codes "mail.one")) {
        table_inheritance_root = some (codes "mail_thread");
      },
    )
    ∷ []

abbrev delegations : List (Bytes × List (Bytes × Bytes))
delegations =
    (codes "mail.heir", (codes "mail.two", codes "two_id") ∷ [])
    ∷ (codes "mail.one", (codes "mail.two", codes "two_id") ∷ [])
    ∷ []

topology : topology_of all_models delegations ≡ record {
  bound_by = (codes "mail.heir", codes "mail.one" ∷ codes "mail.two" ∷ []) ∷ [];
  parents = (codes "mail.one", codes "mail.two" ∷ []) ∷ [];
  anchors = (codes "mail.heir", codes "company_id") ∷ [];
}
unfolding gathering
topology = refl

all_models-Distinct : Distinct all_models
unfolding gathering
all_models-Distinct = (refl, (refl, (refl, tt)))

heir_there : lookup (codes "mail.heir") all_models ≡ some heir
unfolding gathering
heir_there = refl

topology_of-governed_example :
    (member
        (codes "mail.two")
        (listed (lookup (codes "mail.heir") (topology_of all_models delegations).bound_by))
      ≡ governed all_models
          (codes "mail.heir")
          (codes "mail.two")
          heir.table
          heir.table_inheritance_root)
    × Ascending (listed (lookup (codes "mail.heir") (topology_of all_models delegations).bound_by))
topology_of-governed_example =
    topology_of-governed all_models delegations (codes "mail.heir") (codes "mail.two")
      all_models-Distinct heir_there
