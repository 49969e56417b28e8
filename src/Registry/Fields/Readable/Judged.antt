-- ===== src/Registry/Fields/Readable/Judged.antt =====
-- kernel/src/registry.rs: the verdict of `Registry::field_readable` against `has_groups`.
use odoo_rust_orm.Prelude.{
  ℕ, ◌≡◌, refl, Bool, true, false, not, ◌&&◌, ◌||◌, List, [], ◌∷◌, Option, none, some, Bytes, codes,
  bytes_eq, if◌then◌else◌, Bool-cases, inl, inr, Option-cases, ◌⊎◌,
}
use odoo_rust_orm.Error.{Result, ok, ok-injective, refuse, >>=-eq-ok}
use odoo_rust_orm.Assoc.{has, id_key}
use odoo_rust_orm.RuleExpr.Chars.{Std}
use odoo_rust_orm.RuleExpr.Parser.{split, is_empty}
use odoo_rust_orm.Registry.Fields.Readable.{
  sort_tokens, held_ids, excluded, judged, judge, by_spec, field_readable,
}
use odoo_rust_orm.Registry.Fields.{Field, ensure_supported_read_access}

-- `has_groups`: none of the excluding groups is held, and one of those asked for, where there are any.
abbrev pub has_groups : Bool → List ℕ → List ℕ → Bool
has_groups asked positives negatives = is_empty negatives && (not asked || not (is_empty positives))

-- Without a limit on any group the verdict is that of `has_groups`.
judge-has_groups :
    (asked : Bool) (positives negatives : List ℕ)
    → judge [] asked positives negatives ≡ ok (has_groups asked positives negatives)
unfolding judge judged excluded has
judge-has_groups asked positives (n ∷ negatives) = refl
judge-has_groups true [] [] = refl
judge-has_groups true (p ∷ positives) [] = refl
judge-has_groups false positives [] = refl

excluded-some :
    (scopes : List (ℕ × List ℕ)) (negatives : List ℕ) (out : Bool)
    → excluded scopes negatives true ≡ some out
    → out ≡ true
unfolding excluded
excluded-some scopes [] out h = cc
excluded-some scopes (n ∷ negatives) out h = elim (Bool-cases (has n scopes)) [
  | inl limited ↦ excluded-some scopes negatives out (rw limited at h)
  | inr whole ↦ let no : none ≡ some out = rw whole at h in cc
]

judged-limited :
    (scopes : List (ℕ × List ℕ)) (asked : Bool) (positives : List ℕ) (o : Option Bool)
    → ((out : Bool) → o ≡ some out → out ≡ true)
    → judged scopes asked positives o ≡ ok true
    → false ≡ true
unfolding judged
judged-limited scopes asked positives none all_true h = ok-injective h
judged-limited scopes asked positives (some true) all_true h =
    elim (Bool-cases (asked && is_empty positives)) [
      | inl none_held ↦ let no : ok false ≡ ok true = rw none_held at h in ok-injective no
      | inr some_held ↦ let no : refuse ≡ ok true = rw some_held at h in cc
    ]
judged-limited scopes asked positives (some false) all_true h = all_true false refl

unasked :
    (a b g : Bool) (r : Result Bool)
    → r ≡ ok g
    → (if a then ok false else if b then ok false else r) ≡ ok (not a && not b && g)
unasked true b g r h = refl
unasked false true g r h = refl
unasked false false g r h = h

asked-true :
    (a b : Bool) (r : Result Bool)
    → (if a then ok false else if b then ok false else r) ≡ ok true
    → (a ≡ false) × (b ≡ false) × (r ≡ ok true)
asked-true true b r h = let no = ok-injective h in cc
asked-true false true r h = let no = ok-injective h in cc
asked-true false false r h = (refl, refl, h)

-- A limit makes the verdict a refusal at most: what is granted, `has_groups` grants.
judge-true :
    (scopes : List (ℕ × List ℕ)) (asked : Bool) (positives negatives : List ℕ)
    → judge scopes asked positives negatives ≡ ok true
    → has_groups asked positives negatives ≡ true
unfolding judge judged excluded
judge-true scopes true [] [] h = cc
judge-true scopes true (p ∷ positives) [] h = refl
judge-true scopes false positives [] h = refl
judge-true scopes asked positives (n ∷ negatives) h = elim (Bool-cases (has n scopes)) [
  | inl limited ↦
      judged-limited scopes asked positives (excluded scopes negatives true)
        (excluded-some scopes negatives) (rw limited at h)
  | inr whole ↦ let no : ok false ≡ ok true = rw whole at h in ok-injective no
]

module _ (std : Std) (group_ids : List (Bytes × ℕ)) (user_groups : List ℕ) (spec : Bytes) where
  -- The verdict on a specification where every group held is held everywhere.
  abbrev pub granted : Bool
  granted =
      let tokens = sort_tokens std (split b',' spec) in
      not (bytes_eq spec (codes "."))
      && not (is_empty tokens.0 && is_empty tokens.1)
      && has_groups (not (is_empty tokens.0)) (held_ids group_ids user_groups tokens.0)
          (held_ids group_ids user_groups tokens.1)

  by_spec-granted : by_spec std group_ids user_groups [] spec ≡ ok granted
  unfolding by_spec
  by_spec-granted =
      let tokens = sort_tokens std (split b',' spec) in
      unasked (bytes_eq spec (codes ".")) (is_empty tokens.0 && is_empty tokens.1) _ _ (
        judge-has_groups (not (is_empty tokens.0)) (held_ids group_ids user_groups tokens.0)
          (held_ids group_ids user_groups tokens.1))

  by_spec-true :
      (scopes : List (ℕ × List ℕ))
      → by_spec std group_ids user_groups scopes spec ≡ ok true
      → granted ≡ true
  unfolding by_spec
  by_spec-true scopes h =
      let tokens = sort_tokens std (split b',' spec) in
      let (p, q, r) =
        asked-true (bytes_eq spec (codes ".")) (is_empty tokens.0 && is_empty tokens.1) _ h in
      rw (p, q)
        (judge-true scopes (not (is_empty tokens.0)) (held_ids group_ids user_groups tokens.0)
          (held_ids group_ids user_groups tokens.1) r)

module _ (std : Std) (group_ids : List (Bytes × ℕ)) (f : Field) (user_groups : List ℕ) where
  policy : ensure_supported_read_access f ≡ ok tt → f.python_read_access ≡ some false
  unfolding ensure_supported_read_access
  policy h = elim (Option-cases f.python_read_access) [
    | inl unknown ↦ let no : refuse ≡ ok tt = rw unknown at h in cc
    | inr (true, e) ↦ let no : refuse ≡ ok tt = rw e at h in cc
    | inr (false, e) ↦ e
  ]

  -- A field is granted only where no Python policy guards it, and where it asks for no groups or
  -- `has_groups` holds of those it asks for; a limit on a group never widens that.
  pub field_readable-granted :
      (scopes : List (ℕ × List ℕ))
      → field_readable std group_ids f user_groups scopes ≡ ok true
      → (f.python_read_access ≡ some false)
        × ((f.groups ≡ none)
            ⊎ ((spec : Bytes) × (f.groups ≡ some spec)
                × (granted std group_ids user_groups spec ≡ true)))
  unfolding field_readable
  field_readable-granted scopes h =
      let (u, supported, rest) = >>=-eq-ok (ensure_supported_read_access f) _ h in
      (
        policy supported,
        elim (Option-cases f.groups) [
          | inl no_groups ↦ inl no_groups
          | inr (spec, e) ↦
              inr (spec, e, by_spec-true std group_ids user_groups spec scopes (rw e at rest))
        ],
      )

  -- Where every group is held everywhere, the verdict is that of `has_groups`.
  pub field_readable-has_groups :
      (spec : Bytes)
      → f.python_read_access ≡ some false
      → f.groups ≡ some spec
      → field_readable std group_ids f user_groups [] ≡ ok (granted std group_ids user_groups spec)
  unfolding field_readable ensure_supported_read_access
  field_readable-has_groups spec p g = rw (p, g) (by_spec-granted std group_ids user_groups spec)
