-- ===== src/Assoc.antt =====
-- The maps and sets of the program that it also changes or walks: lists of the entries, each key
-- once. A set is the list of its members.
use odoo_rust_orm.Prelude.{
  ℕ, ◌≡◌, ◌↔◌, refl, Bool, true, false, ◌||◌, List, [], ◌∷◌, Option, none, some, Bytes, bytes_eq,
  bytes_eq_iff, ◌==◌, ==_iff, if◌then◌else◌, Bool-cases, inl, inr,
}

-- Keys that can be told apart.
pub record Key (K : Type 0) : Type 0 where
  pub same : K → K → Bool
  pub same_iff : (a b : K) → (same a b ≡ true) ↔ (a ≡ b)

instance abbrev pub id_key : Key ℕ
id_key = record { same = λ a b. a == b; same_iff = ==_iff }

instance abbrev pub name_key : Key Bytes
name_key = record { same = bytes_eq; same_iff = bytes_eq_iff }

module _ {K : Type 0} ⦃key : Key K⦄ where
  unfoldable pub member : K → List K → Bool
  member k [] = false
  member k (x ∷ xs) = key.same x k || member k xs

  -- `HashSet::insert`
  unfoldable pub add_member : K → List K → List K
  add_member k xs = if member k xs then xs else k ∷ xs

  module _ {ℓ} {V : Type ℓ} where
    unfoldable pub lookup : K → List (K × V) → Option V
    lookup k [] = none
    lookup k (e ∷ es) = if key.same e.0 k then some e.1 else lookup k es

    unfoldable pub has : K → List (K × V) → Bool
    has k [] = false
    has k (e ∷ es) = key.same e.0 k || has k es

    -- `HashMap::remove`
    unfoldable pub remove : K → List (K × V) → List (K × V)
    remove k [] = []
    remove k (e ∷ es) = if key.same e.0 k then remove k es else e ∷ remove k es

    -- `HashMap::insert`
    unfoldable pub insert : K → V → List (K × V) → List (K × V)
    insert k v es = (k, v) ∷ remove k es

  same_refl : (k : K) → key.same k k ≡ true
  same_refl k = (key.same_iff k k).1 refl

  pub member-add_member : (k : K) (xs : List K) → member k (add_member k xs) ≡ true
  unfolding add_member member
  member-add_member k xs = elim (Bool-cases (member k xs)) [
    | inl old ↦ rw old old
    | inr new ↦ rw (new, same_refl k)
  ]

  pub member-add_member-other :
      (k j : K) (xs : List K) → key.same k j ≡ false → member j (add_member k xs) ≡ member j xs
  unfolding add_member member
  member-add_member-other k j xs ne = elim (Bool-cases (member k xs)) [
    | inl old ↦ rw old
    | inr new ↦ rw (new, ne)
  ]

  module _ {ℓ} {V : Type ℓ} where
    pub has-remove : (k : K) (es : List (K × V)) → has k (remove k es) ≡ false
    unfolding has remove
    has-remove k [] = refl
    has-remove k (e ∷ es) = elim (Bool-cases (key.same e.0 k)) [
      | inl eq ↦ rw eq (has-remove k es)
      | inr ne ↦ rw (ne, ne, has-remove k es)
    ]

    pub has-remove-other :
        (k j : K) (es : List (K × V)) → key.same k j ≡ false → has j (remove k es) ≡ has j es
    unfolding has remove
    has-remove-other k j [] ne = refl
    has-remove-other k j (e ∷ es) ne = elim (Bool-cases (key.same e.0 k)) [
      | inl eq ↦
          let same = (key.same_iff e.0 k).0 eq in
          let other : key.same e.0 j ≡ false = rw same ne in
          rw (eq, other, has-remove-other k j es ne)
      | inr diff ↦ rw (diff, has-remove-other k j es ne)
    ]
