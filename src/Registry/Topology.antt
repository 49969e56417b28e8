-- ===== src/Registry/Topology.antt =====
-- kernel/src/registry.rs: `AccessTopology::of`, which says of each model whose access rows govern it
-- besides its own. The maps are lists of entries.
pub mod Bound
use odoo_rust_orm.Prelude.{
  ℕ, Bool, true, false, not, ◌&&◌, ◌||◌, List, [], ◌∷◌, ◌++◌, Option, none, some, map, Bytes,
  bytes_eq, ltb, ◌==◌, if◌then◌else◌,
}
use odoo_rust_orm.Assoc.{lookup, name_key}
use odoo_rust_orm.Registry.Fields.{Model}

pub record AccessTopology : Type 0 where
  pub bound_by : List (Bytes × List Bytes)
  pub parents : List (Bytes × List Bytes)
  pub anchors : List (Bytes × Bytes)

-- `Ord` of strings, by their bytes.
unfoldable pub bytes_leb : Bytes → Bytes → Bool
bytes_leb [] ys = true
bytes_leb (x ∷ xs) [] = false
bytes_leb (x ∷ xs) (y ∷ ys) = if x == y then bytes_leb xs ys else ltb x y

unfoldable pub insert_sorted : Bytes → List Bytes → List Bytes
insert_sorted x [] = x ∷ []
insert_sorted x (y ∷ ys) = if bytes_leb x y then x ∷ y ∷ ys else y ∷ insert_sorted x ys

-- `owners.sort()`
unfoldable pub sort_names : List Bytes → List Bytes
sort_names [] = []
sort_names (x ∷ xs) = insert_sorted x (sort_names xs)

-- `iter().filter_map(…).collect()` on a map, each key with its new value.
unfoldable pub kept_at {ℓ} : {V : Type ℓ} → Bytes → Option V → List (Bytes × V) → List (Bytes × V)
kept_at k none rest = rest
kept_at k (some v) rest = (k, v) ∷ rest

unfoldable pub filter_map {ℓ κ} :
    {V : Type ℓ} {W : Type κ} → (Bytes → V → Option W) → List (Bytes × V) → List (Bytes × W)
unfolding kept_at
filter_map f [] = []
filter_map f (e ∷ es) = kept_at e.0 (f e.0 e.1) (filter_map f es)

-- The names of the other models that own a table.
unfoldable pub owners_of : Bytes → Bytes → List (Bytes × Model) → List Bytes
owners_of root name [] = []
owners_of root name (e ∷ es) =
    let rest = owners_of root name es in
    if bytes_eq e.1.table root && not (bytes_eq e.1.name name) then e.1.name ∷ rest else rest

abbrev pub non_empty : List Bytes → Option (List Bytes)
non_empty [] = none
non_empty (o ∷ os) = some (o ∷ os)

unfoldable pub bound_under :
    List (Bytes × Model) → Bytes → Bytes → Option Bytes → Option (List Bytes)
bound_under models name table none = none
bound_under models name table (some root) =
    if bytes_eq table root then none else non_empty (sort_names (owners_of root name models))

unfoldable pub inherits_rules_of : Option Model → Bool
inherits_rules_of none = true
inherits_rules_of (some m) = m.inherits_rules

unfoldable pub parents_of :
    List (Bytes × Model) → Bytes → List (Bytes × Bytes) → Option (List Bytes)
parents_of models child links =
    if inherits_rules_of (lookup child models) then some (map (λ link. link.0) links) else none

unfoldable pub topology_of :
    List (Bytes × Model) → List (Bytes × List (Bytes × Bytes)) → AccessTopology
topology_of models inherits = record {
  bound_by =
      filter_map
        (λ name m. bound_under models name (Model.table m) (Model.table_inheritance_root m)) models;
  parents = filter_map (parents_of models) inherits;
  anchors = filter_map (λ name m. Model.access_company_anchor m) models;
}
