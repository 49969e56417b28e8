-- ===== src/Tests/Paths.antt =====
-- Runs of the field paths of kernel/src/sqlgen.rs, and their theorems at concrete models.
use odoo_rust_orm.Prelude.{
  false, Option, none, some, [], ◌∷◌, ◌≡◌, refl, codes, bytes_eq, Bytes, if◌then◌else◌,
}
use odoo_rust_orm.Error.{ok, refuse}
use odoo_rust_orm.Assoc.{lookup}
use odoo_rust_orm.Registry.Fields.{char, one2many, Field, Model}
use odoo_rust_orm.RuleExpr.Parser.{split}
use odoo_rust_orm.Sqlgen.Paths.{
  stops, passage, go_on, at_field, normalize_rounds, normalize_path, path_target, init,
}
use odoo_rust_orm.Sqlgen.Paths.Walked.{Walks, normalize_path-Walks, path_target-normalize_path}
use odoo_rust_orm.Tests.Sources.{partner_field, users_model}

walking : Unit {0}
unfolding lookup bytes_eq split stops passage go_on at_field normalize_rounds normalize_path
    path_target init
walking = tt

abbrev pub name_field : Field
name_field = record partner_field { name = codes "name"; ttype = char; relation = none }

-- A related field, and one that stands for itself.
abbrev pub login_name : Field
login_name = record name_field { has_column = false; related = some (codes "partner_id.name") }

abbrev looping : Field
looping = record name_field { has_column = false; related = some (codes "loop") }

abbrev computed : Field
computed = record name_field { has_column = false }

abbrev children : Field
children = record partner_field {
  ttype = one2many;
  has_column = false;
  relation = some (codes "res.users");
}

abbrev users : Model
users = record users_model {
  fields =
      (codes "partner_id", partner_field)
      ∷ (codes "name", login_name)
      ∷ (codes "loop", looping)
      ∷ (codes "computed", computed)
      ∷ [];
}

abbrev partners : Model
partners = record users_model {
  name = codes "res.partner";
  fields = (codes "name", name_field) ∷ (codes "user_ids", children) ∷ [];
}

abbrev models : Bytes → Option Model
models name =
    if bytes_eq name (codes "res.users")
    then some users
    else if bytes_eq name (codes "res.partner")
    then some partners
    else none

normalized :
    normalize_path models partners (codes "user_ids" ∷ codes "name" ∷ [])
    ≡ ok (codes "user_ids" ∷ codes "partner_id" ∷ codes "name" ∷ [])
unfolding walking
normalized = refl

displayed :
    normalize_path models users (codes "partner_id" ∷ codes "display_name" ∷ [])
    ≡ ok (codes "partner_id" ∷ codes "display_name" ∷ [])
unfolding walking
displayed = refl

-- A field that is computed in Python, and one that expands for ever.
refused :
    (normalize_path models users (codes "computed" ∷ []) ≡ refuse)
    × (normalize_path models users (codes "loop" ∷ []) ≡ refuse)
    × (normalize_path models users (codes "display_name" ∷ []) ≡ refuse)
unfolding walking
refused = (refl, refl, refl)

known : models (codes "res.partner") ≡ some partners
unfolding walking
known = refl

normalize_path-Walks_example :
    Walks models false
      (codes "res.partner")
      (codes "user_ids" ∷ codes "partner_id" ∷ codes "name" ∷ [])
normalize_path-Walks_example =
    normalize_path-Walks models partners (codes "user_ids" ∷ codes "name" ∷ []) normalized

path_target-normalize_path_example :
    (target : Model) × (path_target models partners
        (init (codes "user_ids" ∷ codes "partner_id" ∷ codes "name" ∷ []))
      ≡ ok target)
path_target-normalize_path_example =
    path_target-normalize_path models partners (codes "user_ids" ∷ codes "name" ∷ []) known
      normalized
