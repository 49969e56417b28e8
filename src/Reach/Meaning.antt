-- ===== src/Reach/Meaning.antt =====
-- kernel/src/security.rs: what the domain of a reach spells, and whose records it admits.
use odoo_rust_orm.Prelude.{
  ℕ, ◌≡◌, refl, sym, ap, ◌∙◌, ◌⊎◌, inl, inr, true, false, ◌||◌, List, [], ◌∷◌, Option, none, some,
  Bytes, codes, bytes_eq, bytes_eq_iff, if◌then◌else◌, Bool-cases, if-intro,
}
use odoo_rust_orm.Error.{ok, ok-injective, Each, Each-ok, ◌>>=◌, >>=-eq-ok}
use odoo_rust_orm.Json.{Json, bool}
use odoo_rust_orm.Domain.{Leaf}
use odoo_rust_orm.Domain.Prefix.{Expr, term, both}
use odoo_rust_orm.Access.{ids_json}
use odoo_rust_orm.Access.Notation.{spelled}
use odoo_rust_orm.Reach.{
  AccessAnchor, Reach, leaf_of, reach_leaf, found, is_empty, with_shared, reach_leaves,
}

abbrev pub leaf_on : Bytes → Bytes → List ℕ → Leaf
leaf_on path op ids = record { field = path; op = op; value = ids_json ids }

-- What a reach asks of the record at the anchor's path.
pub data Binds (reach : Reach) (anchor : AccessAnchor) (uid : ℕ) (companies : List ℕ)
    : Option (ℕ × ℕ) → Leaf → Type 0 where
  by_user :
      {p : Option (ℕ × ℕ)}
      → reach.rung ≡ codes "own"
      → (anchor.kind ≡ codes "owner") ⊎ (anchor.kind ≡ codes "creator")
      → Binds reach anchor uid companies p (leaf_on anchor.path (codes "in") (uid ∷ []))
  by_partner :
      {partner commercial : ℕ}
      → reach.rung ≡ codes "own"
      → anchor.kind ≡ codes "partner"
      → Binds reach anchor uid companies
          (some (partner, commercial))
          (leaf_on anchor.path (codes "in") (partner ∷ []))
  by_company :
      {p : Option (ℕ × ℕ)}
      → reach.rung ≡ codes "company"
      → Binds reach anchor uid companies p (
          leaf_on anchor.path
            (if is_empty anchor.hierarchy then codes "in" else anchor.hierarchy)
            companies)
  by_tree :
      {partner commercial : ℕ}
      → reach.rung ≡ codes "partner"
      → Binds reach anchor uid companies
          (some (partner, commercial))
          (leaf_on anchor.path (codes "child_of") (commercial ∷ []))

-- A shared anchor admits the records where it is unset too.
abbrev pub reached : AccessAnchor → Leaf → Expr
reached anchor l =
    if anchor.shared
    then both false (term l)
        (term (record { field = anchor.path; op = codes "="; value = bool false }))
    else term l

with_shared-spelled :
    (anchor : AccessAnchor) (op : Bytes) (ids : List ℕ)
    → with_shared anchor (reach_leaf anchor.path op ids)
      ≡ spelled (reached anchor (leaf_on anchor.path op ids) ∷ [])
with_shared-spelled anchor op ids = elim (Bool-cases anchor.shared) [
  | inl shared ↦ rw shared
  | inr own ↦ rw own
]

module _ (reach : Reach) (anchor : AccessAnchor) (uid : ℕ) (companies : List ℕ) where
  abbrev Bound : Option (ℕ × ℕ) → Json → Type 0
  Bound partner leaf =
      (op : Bytes) × (ids : List ℕ) × (leaf ≡ reach_leaf anchor.path op ids)
      × Binds reach anchor uid companies partner (leaf_on anchor.path op ids)

  is : (a b : Bytes) → bytes_eq a b ≡ true → a ≡ b
  is a b h = (bytes_eq_iff a b).0 h

  user_kind :
      (bytes_eq anchor.kind (codes "owner") || bytes_eq anchor.kind (codes "creator")) ≡ true
      → (anchor.kind ≡ codes "owner") ⊎ (anchor.kind ≡ codes "creator")
  user_kind k = elim (Bool-cases (bytes_eq anchor.kind (codes "owner"))) [
    | inl o ↦ inl (is anchor.kind _ o)
    | inr o ↦ inr (is anchor.kind _ (rw o at k))
  ]

  of_partner :
      (partner : Option (ℕ × ℕ))
      → reach.rung ≡ codes "own"
      → anchor.kind ≡ codes "partner"
      → Each
          (Bound partner)
          (found partner >>= (λ p. ok (reach_leaf anchor.path (codes "in") (p.0 ∷ []))))
  of_partner none r k = tt
  of_partner (some (p, c)) r k = (codes "in", p ∷ [], refl, Binds.by_partner r k)

  of_tree :
      (partner : Option (ℕ × ℕ))
      → reach.rung ≡ codes "partner"
      → Each
          (Bound partner)
          (found partner >>= (λ p. ok (reach_leaf anchor.path (codes "child_of") (p.1 ∷ []))))
  of_tree none r = tt
  of_tree (some (p, c)) r = (codes "child_of", c ∷ [], refl, Binds.by_tree r)

  leaf_of-Bound :
      (partner : Option (ℕ × ℕ)) → Each (Bound partner) (leaf_of reach anchor uid companies partner)
  unfolding leaf_of
  leaf_of-Bound partner =
      let P = Each (Bound partner) in
      if-intro P (bytes_eq reach.rung (codes "own"))
        (λ own.
          if-intro P
            (bytes_eq anchor.kind (codes "owner") || bytes_eq anchor.kind (codes "creator"))
            (λ k. (codes "in", uid ∷ [], refl, Binds.by_user (is reach.rung _ own) (user_kind k)))
            (λ k.
              if-intro P (bytes_eq anchor.kind (codes "partner"))
                (λ q. of_partner partner (is reach.rung _ own) (is anchor.kind _ q)) (λ q. tt)))
        (λ own.
          if-intro P (bytes_eq reach.rung (codes "company"))
            (λ c. (_, companies, refl, Binds.by_company (is reach.rung _ c)))
            (λ c.
              if-intro P (bytes_eq reach.rung (codes "partner"))
                (λ q. of_tree partner (is reach.rung _ q)) (λ q. tt)))

-- The domain of a reach spells one condition on the anchor's path, on the principal's own user,
-- partner, companies or commercial tree; a shared anchor admits the records where it is unset too.
pub reach_leaves-Binds :
    (reach : Reach) (anchor : AccessAnchor) (uid : ℕ) (companies : List ℕ)
    (partner : Option (ℕ × ℕ)) (d : Json)
    → reach_leaves reach anchor uid companies partner ≡ ok d
    → (l : Leaf) × Binds reach anchor uid companies partner l
      × (d ≡ spelled (reached anchor l ∷ []))
unfolding reach_leaves
reach_leaves-Binds reach anchor uid companies partner d h =
    let (leaf, found_leaf, same) = >>=-eq-ok (leaf_of reach anchor uid companies partner) _ h in
    let (op, ids, e, binds) =
      Each-ok (Bound reach anchor uid companies partner)
        (leaf_of-Bound reach anchor uid companies partner) found_leaf in
    (
      leaf_on anchor.path op ids,
      binds,
      sym (ok-injective same) ∙ ap (with_shared anchor) e ∙ with_shared-spelled anchor op ids,
    )
