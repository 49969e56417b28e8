-- ===== src/Access.antt =====
-- kernel/src/security.rs: the domains that bind a user's reads, as they are put together from the
-- access rows, and the check of the read permission itself.
-- A group or company id is a natural number; a set of them is a list. `expected` of
-- `normalize_domain` is never negative.
pub mod Notation
pub mod Meaning
pub mod Rows
pub mod Grants
use odoo_rust_orm.Prelude.{
  ℕ, zero, suc, ◌+◌, ◌-◌, Bool, true, false, not, ◌&&◌, ◌||◌, List, [], ◌∷◌, ◌++◌, Option, none,
  some, map, Bytes, codes, bytes_eq, length, replicate, any, flat_map, ltb, leb, ◌==◌,
  if◌then◌else◌,
}
use odoo_rust_orm.Json.{
  Json, bool, number, string, array, Number, pos_int, Items, nil, cons, to_list, of_list,
}
use odoo_rust_orm.Domain.{amp, bar, bang}

-- `json!([0, "=", 1])`
abbrev pub false_leaf : Json
false_leaf =
    array (cons (number (pos_int 0)) (cons (string (codes "=")) (cons (number (pos_int 1)) nil)))

unfoldable pub or_leaves : List Json → List Json
or_leaves [] = false_leaf ∷ []
or_leaves (l ∷ ls) = replicate (length ls) (string bar) ++ l ∷ ls

-- `d.as_array().cloned().unwrap_or_default()`
abbrev pub items_of : Json → List Json
items_of (array items) = to_list items
items_of _ = []

-- The change of `expected` that an item makes.
unfoldable pub expect : Json → ℕ → ℕ
expect (string op) n =
    if bytes_eq op amp || bytes_eq op bar then n + 1 else if bytes_eq op bang then n else n - 1
expect _ n = n - 1

unfoldable pub normalize_loop : List Json → ℕ → List Json → List Json
normalize_loop out expected [] = out
normalize_loop out zero (item ∷ items) =
    normalize_loop ((string amp ∷ out) ++ item ∷ []) (expect item 1) items
normalize_loop out (suc n) (item ∷ items) =
    normalize_loop (out ++ item ∷ []) (expect item (suc n)) items

unfoldable pub normalize_domain : List Json → List Json
normalize_domain items = normalize_loop [] 1 items

-- The first loop of `or_domains`: no terms where a domain is empty, which is TRUE.
unfoldable pub or_terms : List Json → Option (List (List Json))
or_terms [] = some []
or_terms (d ∷ ds) = elim (items_of d) [
  | [] ↦ none
  | x ∷ xs ↦ elim (or_terms ds) [ none ↦ none | some terms ↦ some ((x ∷ xs) ∷ terms) ]
]

unfoldable pub or_domains : List Json → Json
or_domains domains = elim (or_terms domains) [
  | none ↦ array nil
  | some terms ↦ elim terms [
    | [] ↦ array (cons false_leaf nil)
    | t ∷ ts ↦
        array (of_list (replicate (length ts) (string bar) ++ flat_map normalize_domain (t ∷ ts)))
  ]
]

abbrev pub ids_json : List ℕ → Json
ids_json ids = array (of_list (map (λ i. number (pos_int i)) ids))

-- What the records of some companies, and the shared ones, are.
unfoldable pub within : Bytes → List ℕ → List Json
within anchor companies =
    let inside =
      array (cons (string anchor) (cons (string (codes "in")) (cons (ids_json companies) nil))) in
    if bytes_eq anchor (codes "id")
    then inside ∷ []
    else string bar
      ∷ inside
      ∷ array (cons (string anchor) (cons (string (codes "=")) (cons (bool false) nil)))
      ∷ []

unfoldable pub scoped : Json → Bytes → List ℕ → Bool → Json
scoped domain anchor companies true =
    or_domains (domain ∷ array (of_list (string bang ∷ within anchor companies)) ∷ [])
scoped domain anchor companies false = elim (items_of domain) [
  | [] ↦ array (of_list (within anchor companies))
  | x ∷ xs ↦ array (of_list (string amp ∷ (normalize_domain (x ∷ xs) ++ within anchor companies)))
]
