-- ===== src/Registry/Topology/Bound.antt =====
-- kernel/src/registry.rs: whose access rows `AccessTopology::of` binds a model by.
use odoo_rust_orm.Prelude.{
  ℕ, Bool, true, false, not, ◌&&◌, ◌||◌, List, [], ◌∷◌, Option, none, some, Bytes, bytes_eq,
  bytes_eq_iff, ltb, ◌==◌, any, Bool-cases, inl, inr, ◌≡◌, refl, ◌∙◌, arith,
}
use odoo_rust_orm.Assoc.{lookup, has, member, name_key}
use odoo_rust_orm.Registry.Fields.{Model}
use odoo_rust_orm.Registry.Topology.{
  bytes_leb, insert_sorted, sort_names, kept_at, filter_map, owners_of, non_empty, bound_under,
  topology_of,
}

-- Each key stands once.
unfoldable pub Distinct {ℓ} : {V : Type ℓ} → List (Bytes × V) → Type 0
Distinct [] = Unit
Distinct (e ∷ es) = (has e.0 es ≡ false) × Distinct es

abbrev pub Ascending : List Bytes → Type 0
Ascending [] = Unit
Ascending (x ∷ []) = Unit
Ascending (x ∷ y ∷ ys) = (bytes_leb x y ≡ true) × Ascending (y ∷ ys)

abbrev and_then {ℓ κ} : {A : Type ℓ} {B : Type κ} → Option A → (A → Option B) → Option B
and_then none f = none
and_then (some a) f = f a

module _ {ℓ κ} {V : Type ℓ} {W : Type κ} (f : Bytes → V → Option W) (k : Bytes) where
  lookup-kept_at-other :
      (j : Bytes) (o : Option W) (rest : List (Bytes × W))
      → bytes_eq j k ≡ false
      → lookup k (kept_at j o rest) ≡ lookup k rest
  unfolding kept_at lookup
  lookup-kept_at-other j none rest ne = refl
  lookup-kept_at-other j (some w) rest ne = rw ne refl

  lookup-kept_at-own :
      (j : Bytes) (o : Option W) (rest : List (Bytes × W))
      → bytes_eq j k ≡ true
      → lookup k rest ≡ none
      → lookup k (kept_at j o rest) ≡ o
  unfolding kept_at lookup
  lookup-kept_at-own j none rest eq gone = gone
  lookup-kept_at-own j (some w) rest eq gone = rw eq refl

  lookup-filter_map-absent :
      (es : List (Bytes × V)) → has k es ≡ false → lookup k (filter_map f es) ≡ none
  unfolding filter_map has lookup
  lookup-filter_map-absent [] h = refl
  lookup-filter_map-absent (e ∷ es) h =
      lookup-kept_at-other e.0 (f e.0 e.1) (filter_map f es) (ground arith)
      ∙ lookup-filter_map-absent es (ground arith)

  -- What a key has in the new map is read off what it had in the old one.
  lookup-filter_map :
      (es : List (Bytes × V))
      → Distinct es
      → lookup k (filter_map f es) ≡ and_then (lookup k es) (f k)
  unfolding filter_map lookup Distinct
  lookup-filter_map [] d = refl
  lookup-filter_map (e ∷ es) (new, d) = elim (Bool-cases (bytes_eq e.0 k)) [
    | inl eq ↦
        let own = (bytes_eq_iff e.0 k).0 eq in
        lookup-kept_at-own e.0 (f e.0 e.1) (filter_map f es) eq
          (lookup-filter_map-absent es (rw own at new))
        ∙ rw (eq, own) refl
    | inr ne ↦
        lookup-kept_at-other e.0 (f e.0 e.1) (filter_map f es) ne ∙ rw ne (lookup-filter_map es d)
  ]

member-insert_sorted :
    (o x : Bytes) (xs : List Bytes) → member o (insert_sorted x xs) ≡ (bytes_eq x o || member o xs)
unfolding insert_sorted member
member-insert_sorted o x [] = refl
member-insert_sorted o x (y ∷ ys) = elim (Bool-cases (bytes_leb x y)) [
  | inl e ↦ rw e refl
  | inr e ↦ rw (e, member-insert_sorted o x ys) (ground arith)
]

member-sort_names : (o : Bytes) (xs : List Bytes) → member o (sort_names xs) ≡ member o xs
unfolding sort_names member
member-sort_names o [] = refl
member-sort_names o (x ∷ xs) = rw (member-insert_sorted, member-sort_names o xs) refl

ltb_total : (x y : ℕ) → (x == y) ≡ false → ltb x y ≡ false → ltb y x ≡ true
ltb_total x y ne h = ground arith

bytes_leb_total : (x y : Bytes) → bytes_leb x y ≡ false → bytes_leb y x ≡ true
unfolding bytes_leb
bytes_leb_total [] ys h = cc
bytes_leb_total (x ∷ xs) [] h = refl
bytes_leb_total (x ∷ xs) (y ∷ ys) h = elim (Bool-cases (x == y)) [
  | inl e ↦ let e' : (y == x) ≡ true = ground arith in rw e' (bytes_leb_total xs ys (rw e at h))
  | inr e ↦ let e' : (y == x) ≡ false = ground arith in rw e' (ltb_total x y e (rw e at h))
]

after-Ascending :
    (x y : Bytes) (ys : List Bytes)
    → bytes_leb y x ≡ true
    → Ascending (y ∷ ys)
    → Ascending (y ∷ insert_sorted x ys)
unfolding insert_sorted
after-Ascending x y [] le a = (le, tt)
after-Ascending x y (z ∷ zs) le (yz, a) = elim (Bool-cases (bytes_leb x z)) [
  | inl e ↦ rw e (le, (e, a))
  | inr e ↦ rw e (yz, after-Ascending x z zs (bytes_leb_total x z e) a)
]

insert_sorted-Ascending :
    (x : Bytes) (xs : List Bytes) → Ascending xs → Ascending (insert_sorted x xs)
unfolding insert_sorted
insert_sorted-Ascending x [] a = tt
insert_sorted-Ascending x (y ∷ ys) a = elim (Bool-cases (bytes_leb x y)) [
  | inl e ↦ rw e (e, a)
  | inr e ↦ rw e (after-Ascending x y ys (bytes_leb_total x y e) a)
]

sort_names-Ascending : (xs : List Bytes) → Ascending (sort_names xs)
unfolding sort_names
sort_names-Ascending [] = tt
sort_names-Ascending (x ∷ xs) = insert_sorted-Ascending x (sort_names xs) (sort_names-Ascending xs)

-- The model of that name is another one, and owns the table.
abbrev pub owns : Bytes → Bytes → Bytes → Bytes × Model → Bool
owns root name owner (key, other) =
    bytes_eq other.table root && (not (bytes_eq other.name name) && bytes_eq other.name owner)

member-owners_of :
    (root name owner : Bytes) (es : List (Bytes × Model))
    → member owner (owners_of root name es) ≡ any (owns root name owner) es
unfolding owners_of member
member-owners_of root name owner [] = refl
member-owners_of root name owner (e ∷ es) = elim (Bool-cases (bytes_eq e.1.table root)) [
  | inl t ↦ elim (Bool-cases (bytes_eq e.1.name name)) [
    | inl n ↦ rw (t, n) (member-owners_of root name owner es)
    | inr n ↦ rw (t, n, member-owners_of root name owner es) refl
  ]
  | inr t ↦ rw t (member-owners_of root name owner es)
]

abbrev pub listed : Option (List Bytes) → List Bytes
listed none = []
listed (some os) = os

-- Whether a model stands under the root of its table's inheritance and another one owns that table.
abbrev pub governed : List (Bytes × Model) → Bytes → Bytes → Bytes → Option Bytes → Bool
governed models name owner table none = false
governed models name owner table (some root) =
    not (bytes_eq table root) && any (owns root name owner) models

listed-non_empty : (os : List Bytes) → listed (non_empty os) ≡ os
listed-non_empty [] = refl
listed-non_empty (o ∷ os) = refl

bound_under-governed :
    (models : List (Bytes × Model)) (name table owner : Bytes) (root : Option Bytes)
    → (member owner (listed (bound_under models name table root))
        ≡ governed models name owner table root)
      × Ascending (listed (bound_under models name table root))
unfolding bound_under member
bound_under-governed models name table owner none = (refl, tt)
bound_under-governed models name table owner (some root) = elim (Bool-cases (bytes_eq table root)) [
  | inl e ↦ rw e (refl, tt)
  | inr e ↦
      rw (e, listed-non_empty)
        (
          member-sort_names owner (owners_of root name models)
              ∙ member-owners_of root name owner models,
          sort_names-Ascending (owners_of root name models),
        )
]

-- A model is bound by the rows of exactly the other models that own the table at the root of its
-- table's inheritance, where that is not its own table; they are listed in ascending order. Each
-- key stands once in the map of the models.
pub topology_of-governed :
    (models : List (Bytes × Model)) (inherits : List (Bytes × List (Bytes × Bytes))) (name : Bytes)
    (owner : Bytes) {m : Model}
    → Distinct models
    → lookup name models ≡ some m
    → (member owner (listed (lookup name (topology_of models inherits).bound_by))
        ≡ governed models name owner m.table m.table_inheritance_root)
      × Ascending (listed (lookup name (topology_of models inherits).bound_by))
unfolding topology_of
topology_of-governed models inherits name owner {m} d there =
    rw
      (
        lookup-filter_map
            (λ k m. bound_under models k (Model.table m) (Model.table_inheritance_root m)) name
            models d,
        there,
      )
      (bound_under-governed models name m.table owner m.table_inheritance_root)
