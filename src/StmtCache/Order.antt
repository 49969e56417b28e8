-- ===== src/StmtCache/Order.antt =====
-- kernel/src/db.rs: the slots of the recency map in the order of their ages.
use odoo_rust_orm.Prelude.{
  ℕ, suc, ◌≤◌, ◌<◌, Bool, true, false, List, [], ◌∷◌, ◌++◌, Option, none, some, ◌≡◌, refl, sym, ap,
  ◌∙◌, arith, Bytes, bytes_eq, bytes_eq_iff, length, ltb, if◌then◌else◌, Bool-cases, inl, inr,
}
use odoo_rust_orm.StmtCache.{Slot, insert_by_used, sort_by_used, find, remove_key, put, oldest}

module _ {ℓ} {V : Type ℓ} where
  abbrev pub head? : List (Slot V) → Option (Slot V)
  head? [] = none
  head? (s ∷ ss) = some s

  -- Every age is at most, or at least, `n`.
  abbrev pub AllBelow : ℕ → List (Slot V) → Type 0
  AllBelow n [] = Unit
  AllBelow n (s ∷ ss) = (s.used ≤ n) × AllBelow n ss

  abbrev pub AllAbove : ℕ → List (Slot V) → Type 0
  AllAbove n [] = Unit
  AllAbove n (s ∷ ss) = (n ≤ s.used) × AllAbove n ss

  -- The ages grow strictly.
  abbrev pub Increasing : List (Slot V) → Type 0
  Increasing [] = Unit
  Increasing (s ∷ ss) = AllAbove (suc s.used) ss × Increasing ss

  -- No slot has the key.
  unfoldable pub is_absent : Bytes → List (Slot V) → Bool
  is_absent k [] = true
  is_absent k (s ∷ ss) = if bytes_eq s.key k then false else is_absent k ss

  abbrev pub Distinct : List (Slot V) → Type 0
  Distinct [] = Unit
  Distinct (s ∷ ss) = (is_absent s.key ss ≡ true) × Distinct ss

  AllAbove-mono : (m n : ℕ) (ss : List (Slot V)) → m ≤ n → AllAbove n ss → AllAbove m ss
  AllAbove-mono m n [] h a = tt
  AllAbove-mono m n (s ∷ ss) h (a, as_) = (omega arith, AllAbove-mono m n ss h as_)

  AllAbove-remove_key :
      (n : ℕ) (k : Bytes) (ss : List (Slot V)) → AllAbove n ss → AllAbove n (remove_key k ss)
  unfolding remove_key
  AllAbove-remove_key n k [] a = tt
  AllAbove-remove_key n k (s ∷ ss) (a, as_) = elim (Bool-cases (bytes_eq s.key k)) [
    | inl e ↦ rw e (AllAbove-remove_key n k ss as_)
    | inr e ↦ rw e (a, AllAbove-remove_key n k ss as_)
  ]

  pub AllBelow-remove_key :
      (n : ℕ) (k : Bytes) (ss : List (Slot V)) → AllBelow n ss → AllBelow n (remove_key k ss)
  unfolding remove_key
  AllBelow-remove_key n k [] a = tt
  AllBelow-remove_key n k (s ∷ ss) (a, as_) = elim (Bool-cases (bytes_eq s.key k)) [
    | inl e ↦ rw e (AllBelow-remove_key n k ss as_)
    | inr e ↦ rw e (a, AllBelow-remove_key n k ss as_)
  ]

  pub Increasing-remove_key :
      (k : Bytes) (ss : List (Slot V)) → Increasing ss → Increasing (remove_key k ss)
  unfolding remove_key
  Increasing-remove_key k [] a = tt
  Increasing-remove_key k (s ∷ ss) (a, as_) = elim (Bool-cases (bytes_eq s.key k)) [
    | inl e ↦ rw e (Increasing-remove_key k ss as_)
    | inr e ↦ rw e (AllAbove-remove_key (suc s.used) k ss a, Increasing-remove_key k ss as_)
  ]

  pub insert_first :
      (s : Slot V) (ss : List (Slot V)) → AllAbove s.used ss → insert_by_used s ss ≡ s ∷ ss
  unfolding insert_by_used
  insert_first s [] a = refl
  insert_first s (x ∷ xs) (a, as_) = ground arith

  insert_last :
      (s : Slot V) (ss : List (Slot V)) (n : ℕ)
      → AllBelow n ss
      → n < s.used
      → insert_by_used s ss ≡ ss ++ s ∷ []
  unfolding insert_by_used
  insert_last s [] n a h = refl
  insert_last s (x ∷ xs) n (a, as_) h = ground (arith, insert_last s xs n as_ h)

  -- Ages in order, not strictly.
  abbrev Ordered : List (Slot V) → Type 0
  Ordered [] = Unit
  Ordered (s ∷ ss) = AllAbove s.used ss × Ordered ss

  AllAbove-insert :
      (n : ℕ) (s : Slot V) (ss : List (Slot V))
      → n ≤ s.used
      → AllAbove n ss
      → AllAbove n (insert_by_used s ss)
  unfolding insert_by_used
  AllAbove-insert n s [] h a = (h, tt)
  AllAbove-insert n s (x ∷ xs) h (a, as_) = elim (Bool-cases (ltb x.used s.used)) [
    | inl e ↦ rw e (a, AllAbove-insert n s xs h as_)
    | inr e ↦ rw e (h, (a, as_))
  ]

  Ordered-insert : (s : Slot V) (ss : List (Slot V)) → Ordered ss → Ordered (insert_by_used s ss)
  unfolding insert_by_used
  Ordered-insert s [] o = (tt, tt)
  Ordered-insert s (x ∷ xs) (a, o) = elim (Bool-cases (ltb x.used s.used)) [
    | inl e ↦ rw e (AllAbove-insert x.used s xs (ground arith) a, Ordered-insert s xs o)
    | inr e ↦ rw e ((ground arith, AllAbove-mono s.used x.used xs (ground arith) a), (a, o))
  ]

  Ordered-sort : (ss : List (Slot V)) → Ordered (sort_by_used ss)
  unfolding sort_by_used
  Ordered-sort [] = tt
  Ordered-sort (s ∷ ss) = Ordered-insert s (sort_by_used ss) (Ordered-sort ss)

  remove_key-insert_same :
      (k : Bytes) (s : Slot V) (ss : List (Slot V))
      → bytes_eq s.key k ≡ true
      → remove_key k (insert_by_used s ss) ≡ remove_key k ss
  unfolding remove_key insert_by_used
  remove_key-insert_same k s [] h = rw h
  remove_key-insert_same k s (x ∷ xs) h = ground (arith, remove_key-insert_same k s xs h)

  remove_key-insert_other :
      (k : Bytes) (s : Slot V) (ss : List (Slot V))
      → bytes_eq s.key k ≡ false
      → Ordered ss
      → remove_key k (insert_by_used s ss) ≡ insert_by_used s (remove_key k ss)
  unfolding remove_key insert_by_used
  remove_key-insert_other k s [] h o = rw h
  remove_key-insert_other k s (x ∷ xs) h (a, o) = elim (Bool-cases (ltb x.used s.used)) [
    | inl e ↦ ground (arith, remove_key-insert_other k s xs h o)
    | inr e ↦
        let above = AllAbove-mono s.used x.used xs (ground arith) a in
        ground (arith, insert_first s (remove_key k xs) (AllAbove-remove_key s.used k xs above))
  ]

  -- Removing a key and sorting commute.
  pub sort-remove_key :
      (k : Bytes) (ss : List (Slot V))
      → sort_by_used (remove_key k ss) ≡ remove_key k (sort_by_used ss)
  unfolding sort_by_used remove_key
  sort-remove_key k [] = refl
  sort-remove_key k (s ∷ ss) = elim (Bool-cases (bytes_eq s.key k)) [
    | inl e ↦ rw e (sort-remove_key k ss ∙ sym (remove_key-insert_same k s (sort_by_used ss) e))
    | inr e ↦ rw e (
        ap (insert_by_used s) (sort-remove_key k ss)
        ∙ sym (remove_key-insert_other k s (sort_by_used ss) e (Ordered-sort ss)))
  ]

  -- A slot younger than all others is the last of the order.
  pub sort-put :
      (k : Bytes) (v : V) (n used : ℕ) (ss : List (Slot V))
      → AllBelow n (sort_by_used ss)
      → n < used
      → sort_by_used (put k v used ss)
        ≡ remove_key k (sort_by_used ss) ++ record { key = k; value = v; used = used } ∷ []
  unfolding put
  sort-put k v n used ss b h =
      unfold sort_by_used in
      ap (insert_by_used _) (sort-remove_key k ss)
      ∙ insert_last _ _ n (AllBelow-remove_key n k (sort_by_used ss) b) h

  length-insert : (s : Slot V) (ss : List (Slot V)) → length (insert_by_used s ss) ≡ suc (length ss)
  unfolding insert_by_used
  length-insert s [] = refl
  length-insert s (x ∷ xs) = ground (arith, length-insert s xs)

  pub length-sort : (ss : List (Slot V)) → length (sort_by_used ss) ≡ length ss
  unfolding sort_by_used
  length-sort [] = refl
  length-sort (s ∷ ss) = length-insert s (sort_by_used ss) ∙ ap suc (length-sort ss)

  head-insert :
      (s : Slot V) (ss : List (Slot V))
      → head? (insert_by_used s ss)
        ≡ elim (head? ss) [ none ↦ some s | some m ↦ some (if ltb m.used s.used then m else s) ]
  unfolding insert_by_used
  head-insert s [] = refl
  head-insert s (x ∷ xs) = ground arith

  -- The slot that `min_by_key` picks is the first of the order.
  pub oldest-sort : (ss : List (Slot V)) → oldest ss ≡ head? (sort_by_used ss)
  unfolding oldest sort_by_used
  oldest-sort [] = refl
  oldest-sort (s ∷ ss) = rw (oldest-sort ss, head-insert)

  find-insert :
      (k : Bytes) (s : Slot V) (ss : List (Slot V))
      → is_absent s.key ss ≡ true
      → find k (insert_by_used s ss) ≡ (if bytes_eq s.key k then some s.value else find k ss)
  unfolding insert_by_used find is_absent
  find-insert k s [] h = refl
  find-insert k s (x ∷ xs) h = ground (
    arith,
    find-insert k s xs,
    bytes_eq_iff s.key k,
    bytes_eq_iff x.key k,
    bytes_eq_iff x.key s.key,
  )

  absent-insert :
      (k : Bytes) (s : Slot V) (ss : List (Slot V))
      → is_absent k (insert_by_used s ss) ≡ (if bytes_eq s.key k then false else is_absent k ss)
  unfolding insert_by_used is_absent
  absent-insert k s [] = refl
  absent-insert k s (x ∷ xs) = ground (arith, absent-insert k s xs)

  pub absent-sort :
      (k : Bytes) (ss : List (Slot V)) → is_absent k (sort_by_used ss) ≡ is_absent k ss
  unfolding sort_by_used is_absent
  absent-sort k [] = refl
  absent-sort k (s ∷ ss) = absent-insert k s (sort_by_used ss) ∙ rw (absent-sort k ss)

  -- With distinct keys the order does not matter to a search.
  pub find-sort :
      (k : Bytes) (ss : List (Slot V)) → Distinct ss → find k (sort_by_used ss) ≡ find k ss
  unfolding sort_by_used find
  find-sort k [] d = refl
  find-sort k (s ∷ ss) (a, d) =
      find-insert k s (sort_by_used ss) (absent-sort s.key ss ∙ a) ∙ rw (find-sort k ss d)

  absent_tail :
      (s x : Slot V) (xs : List (Slot V))
      → is_absent s.key (x ∷ xs) ≡ true
      → is_absent s.key xs ≡ true
  unfolding is_absent
  absent_tail s x xs h = ground arith

  absent_swap :
      (s x : Slot V) (xs : List (Slot V))
      → is_absent s.key (x ∷ xs) ≡ true
      → is_absent x.key xs ≡ true
      → is_absent x.key (insert_by_used s xs) ≡ true
  unfolding is_absent
  absent_swap s x xs h k =
      ground (arith, absent-insert x.key s xs, bytes_eq_iff x.key s.key, bytes_eq_iff s.key x.key)

  Distinct-insert :
      (s : Slot V) (ss : List (Slot V))
      → is_absent s.key ss ≡ true
      → Distinct ss
      → Distinct (insert_by_used s ss)
  unfolding insert_by_used
  Distinct-insert s [] a d = (unfold is_absent in refl, tt)
  Distinct-insert s (x ∷ xs) a (b, d) = elim (Bool-cases (ltb x.used s.used)) [
    | inl e ↦ rw e (absent_swap s x xs a b, Distinct-insert s xs (absent_tail s x xs a) d)
    | inr e ↦ rw e (a, (b, d))
  ]

  pub Distinct-sort : (ss : List (Slot V)) → Distinct ss → Distinct (sort_by_used ss)
  unfolding sort_by_used
  Distinct-sort [] d = tt
  Distinct-sort (s ∷ ss) (a, d) =
      Distinct-insert s (sort_by_used ss) (absent-sort s.key ss ∙ a) (Distinct-sort ss d)

  pub absent-remove_key :
      (j k : Bytes) (ss : List (Slot V))
      → is_absent j ss ≡ true
      → is_absent j (remove_key k ss) ≡ true
  unfolding is_absent remove_key
  absent-remove_key j k [] h = refl
  absent-remove_key j k (s ∷ ss) h = ground (arith, absent-remove_key j k ss)

  pub absent-remove_key_self :
      (k : Bytes) (ss : List (Slot V)) → is_absent k (remove_key k ss) ≡ true
  unfolding is_absent remove_key
  absent-remove_key_self k [] = refl
  absent-remove_key_self k (s ∷ ss) = ground (arith, absent-remove_key_self k ss)

  pub Distinct-remove_key :
      (k : Bytes) (ss : List (Slot V)) → Distinct ss → Distinct (remove_key k ss)
  unfolding remove_key
  Distinct-remove_key k [] d = tt
  Distinct-remove_key k (s ∷ ss) (a, d) = elim (Bool-cases (bytes_eq s.key k)) [
    | inl e ↦ rw e (Distinct-remove_key k ss d)
    | inr e ↦ rw e (absent-remove_key s.key k ss a, Distinct-remove_key k ss d)
  ]

  -- Removing a key that is not there changes nothing.
  pub remove_key_absent :
      (k : Bytes) (ss : List (Slot V)) → is_absent k ss ≡ true → remove_key k ss ≡ ss
  unfolding remove_key is_absent
  remove_key_absent k [] h = refl
  remove_key_absent k (s ∷ ss) h = ground (arith, remove_key_absent k ss)
