-- ===== src/Registry/Normalize.antt =====
-- kernel/src/registry.rs: `Registry::normalize_model`, which settles the names that a model's records
-- are shown by and are archived by. Traces are left out.
pub mod Settled
use odoo_rust_orm.Prelude.{
  Bool, true, false, not, ◌&&◌, ◌||◌, List, [], ◌∷◌, ◌++◌, Option, none, some, Bytes, codes, any,
  all, ◌==◌, if◌then◌else◌,
}
use odoo_rust_orm.Assoc.{lookup, member, name_key}
use odoo_rust_orm.ReadRules.{split_once}
use odoo_rust_orm.Registry.Fields.{FieldType, boolean, selection, many2one, is_text, Field, Model}

abbrev pub is_boolean : FieldType → Bool
is_boolean boolean = true
is_boolean _ = false

abbrev pub is_many2one : FieldType → Bool
is_many2one many2one = true
is_many2one _ = false

abbrev pub is_selection : FieldType → Bool
is_selection selection = true
is_selection _ = false

-- `is_some_and`
abbrev pub holds_of {ℓ} : {A : Type ℓ} → (A → Bool) → Option A → Bool
holds_of p none = false
holds_of p (some a) = p a

-- `iter().find(p)`
abbrev pub find {ℓ} : {A : Type ℓ} → (A → Bool) → List A → Option A
find p [] = none
find p (x ∷ xs) = if p x then some x else find p xs

-- Whether the text columns of a model have the name.
unfoldable pub has_text : List (Bytes × List Bytes) → Bytes → Bytes → Bool
has_text text_columns tail co =
    holds_of (λ (cols : List Bytes). not (any (λ c. c == b'.') tail) && member tail cols)
      (lookup co text_columns)

module _ (text_columns : List (Bytes × List Bytes)) (fields : List (Bytes × Field)) where
  -- `delegated`: the field reads a text column over a stored many2one.
  unfoldable pub over_head : Bytes × Bytes → Bool
  over_head (head, tail) =
      holds_of
        (λ (hf : Field).
          is_many2one hf.ttype
          && hf.has_column
          && holds_of (has_text text_columns tail) hf.relation)
        (lookup head fields)

  unfoldable pub delegated : Field → Bool
  delegated f = holds_of (λ (r : Bytes). holds_of over_head (split_once r)) f.related

  unfoldable pub renders_column : Bytes → Bool
  renders_column column =
      holds_of (λ (f : Field). f.has_column && is_text f.ttype && not f.translated || delegated f)
        (lookup column fields)

unfoldable pub is_bool_column : List (Bytes × Field) → Bytes → Bool
is_bool_column fields n =
    holds_of (λ (f : Field). is_boolean f.ttype && f.has_column) (lookup n fields)

unfoldable pub renders_display_name : Field → Bool
renders_display_name f =
    (f.has_column || holds_of (λ (r : Bytes). true) f.related)
    && (is_text f.ttype || is_selection f.ttype)

unfoldable pub renders_name : List (Bytes × Field) → Bytes → Bool
renders_name fields n = holds_of renders_display_name (lookup n fields)

abbrev pub is_blank : List Bytes → Bool
is_blank [] = true
is_blank (_ ∷ _) = false

unfoldable pub settle_columns : List (Bytes × List Bytes) → Model → Model
settle_columns text_columns m =
    if is_blank m.display_name_column
    then m
    else if all (renders_column text_columns m.fields) m.display_name_column
    then record m { display_name_default = true }
    else record m { display_name_column = [] }

-- `model.active_name.take()`
unfoldable pub settle_active_from : Model → Option Bytes → Model
settle_active_from m (some declared) = if is_bool_column m.fields declared then m else record m {
  active_name = none;
  read_path_pure = false;
  impure_read_methods = m.impure_read_methods ++ codes "_search" ∷ [];
}
settle_active_from m none = record m {
  active_name = find (is_bool_column m.fields) (codes "active" ∷ codes "x_active" ∷ []);
}

unfoldable pub settle_active : Model → Model
settle_active m = settle_active_from m m.active_name

-- The record name that there is to check.
unfoldable pub rec_name_of : Model → Option Bytes → Option Bytes
rec_name_of m (some declared) = some declared
rec_name_of m none = find (renders_name m.fields) (codes "name" ∷ codes "x_name" ∷ [])

unfoldable pub settle_rec_from : Model → Bool → Option Bytes → Model
settle_rec_from m declared none = record m { rec_name = none }
settle_rec_from m declared (some rn) =
    if renders_name m.fields rn then record m { rec_name = some rn } else record m {
      rec_name = none;
      display_name_default = if declared then false else m.display_name_default;
    }

unfoldable pub settle_rec : Model → Model
settle_rec m =
    settle_rec_from m (holds_of (λ (r : Bytes). true) m.rec_name) (rec_name_of m m.rec_name)

unfoldable pub normalize_model : List (Bytes × List Bytes) → Model → Model
normalize_model text_columns m = settle_rec (settle_active (settle_columns text_columns m))
