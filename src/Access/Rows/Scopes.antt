-- ===== src/Access/Rows/Scopes.antt =====
-- kernel/src/security.rs: the companies that `held_scope` gives.
use odoo_rust_orm.Prelude.{
  ℕ, ◌≤◌, ◌<◌, List, [], ◌∷◌, some, ◌≡◌, refl, sym, ap, ◌∙◌, arith, ◌||◌, leb, ◌==◌, if-intro,
  Bool-cases, Option-cases, inl, inr, some-injective, subst,
}
use odoo_rust_orm.Access.Rows.{
  UserCtx, contains, insert_sorted, sort, dedup, held_companies, held_scope,
}

-- Ascending from a bound on, with repetitions and without.
abbrev Sorted : ℕ → List ℕ → Type 0
Sorted k [] = Unit
Sorted k (x ∷ xs) = (k ≤ x) × Sorted x xs

abbrev pub Rising : ℕ → List ℕ → Type 0
Rising k [] = Unit
Rising k (x ∷ xs) = (k < x) × Rising x xs

abbrev pub Ascending : List ℕ → Type 0
Ascending [] = Unit
Ascending (x ∷ xs) = Rising x xs

insert_sorted-Sorted : (i k : ℕ) (xs : List ℕ) → k ≤ i → Sorted k xs → Sorted k (insert_sorted i xs)
unfolding insert_sorted
insert_sorted-Sorted i k [] h s = (h, tt)
insert_sorted-Sorted i k (x ∷ xs) h s =
    if-intro (Sorted k) (leb i x) (λ e. (h, (ground arith, s.1)))
      (λ e. (s.0, insert_sorted-Sorted i x xs (ground arith) s.1))

sort-Sorted : (xs : List ℕ) → Sorted 0 (sort xs)
unfolding sort
sort-Sorted [] = tt
sort-Sorted (x ∷ xs) = insert_sorted-Sorted x 0 (sort xs) (omega arith) (sort-Sorted xs)

dedup-Rising :
    (x : ℕ) (xs : List ℕ) → Sorted x xs → (ys : List ℕ) × (dedup (x ∷ xs) ≡ x ∷ ys) × Rising x ys
unfolding dedup
dedup-Rising x [] s = ([], refl, tt)
dedup-Rising x (y ∷ xs) s =
    let (zs, rest, rising) = dedup-Rising y xs s.1 in
    elim (Bool-cases (x == y)) [
      | inl e ↦
          let same : y ≡ x = ground arith in
          (zs, rw e (rest ∙ ap (λ c. c ∷ zs) same), subst (λ c. Rising c zs) same rising)
      | inr e ↦ (y ∷ zs, rw e (ap (◌∷◌ x) rest), (ground arith, rising))
    ]

dedup-Ascending : (xs : List ℕ) → Sorted 0 xs → Ascending (dedup xs)
dedup-Ascending [] s = unfold dedup in tt
dedup-Ascending (x ∷ xs) s =
    let (ys, is, rising) = dedup-Rising x xs s.1 in subst Ascending (sym is) rising

-- The companies of a held scope are in ascending order, each of them once.
pub held_scope-Ascending :
    (groups : List ℕ) (user : UserCtx) {companies : List ℕ}
    → held_scope groups user ≡ some companies
    → Ascending companies
unfolding held_scope
held_scope-Ascending groups user h = elim (Option-cases (held_companies groups user)) [
  | inl e ↦ absurd (ground arith)
  | inr (all, e) ↦
      subst Ascending (some-injective (rw (held_scope, e) at h))
        (dedup-Ascending (sort all) (sort-Sorted all))
]

-- Sorting and dropping repetitions keep what a list contains.
insert_sorted-contains :
    (c i : ℕ) (xs : List ℕ) → contains (insert_sorted i xs) c ≡ (i == c || contains xs c)
unfolding insert_sorted
insert_sorted-contains c i [] = refl
insert_sorted-contains c i (x ∷ xs) =
    if-intro (λ l. contains l c ≡ (i == c || (x == c || contains xs c))) (leb i x) (λ e. refl)
      (λ e. ap (λ b. x == c || b) (insert_sorted-contains c i xs) ∙ ground arith)

sort-contains : (c : ℕ) (xs : List ℕ) → contains (sort xs) c ≡ contains xs c
unfolding sort
sort-contains c [] = refl
sort-contains c (x ∷ xs) =
    insert_sorted-contains c x (sort xs) ∙ ap (λ b. x == c || b) (sort-contains c xs)

dedup-contains : (c : ℕ) (xs : List ℕ) → contains (dedup xs) c ≡ contains xs c
unfolding dedup
dedup-contains c [] = refl
dedup-contains c (x ∷ []) = refl
dedup-contains c (x ∷ y ∷ xs) =
    if-intro (λ l. contains l c ≡ (x == c || (y == c || contains xs c))) (x == y)
      (λ e. dedup-contains c (y ∷ xs) ∙ ground arith)
      (λ e. ap (λ b. x == c || b) (dedup-contains c (y ∷ xs)))

-- A held scope has exactly the companies of the groups held.
pub held_scope-contains :
    (groups : List ℕ) (user : UserCtx) (company : ℕ) {companies all : List ℕ}
    → held_scope groups user ≡ some companies
    → held_companies groups user ≡ some all
    → contains companies company ≡ contains all company
unfolding held_scope
held_scope-contains groups user company {companies} {all} h e =
    ap (λ l. contains l company) (sym (some-injective (rw (held_scope, e) at h)))
    ∙ dedup-contains company (sort all)
    ∙ sort-contains company all
