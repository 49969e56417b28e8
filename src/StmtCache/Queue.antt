-- ===== src/StmtCache/Queue.antt =====
-- kernel/src/db.rs: the cache as a queue, the least recently used entry first; what its ages mean.
use odoo_rust_orm.Prelude.{
  ℕ, suc, ◌+◌, ◌≤◌, List, [], ◌∷◌, ◌++◌, Option, none, some, ◌≡◌, refl, ap, ◌∙◌, arith, Bytes,
  bytes_eq, length, ltb, if◌then◌else◌,
}
use odoo_rust_orm.StmtCache.{
  Slot, RecencyMap, u64_max, insert_by_used, sort_by_used, renumber, find, remove_key,
}
use odoo_rust_orm.StmtCache.Order.{
  AllBelow, AllAbove, Increasing, is_absent, Distinct, insert_first,
}

module _ {ℓ} {V : Type ℓ} where
  abbrev pub pairs : List (Slot V) → List (Bytes × V)
  pairs [] = []
  pairs (s ∷ ss) = (s.key, s.value) ∷ pairs ss

  -- What the map holds, in the order of use.
  unfoldable pub queue : RecencyMap V → List (Bytes × V)
  queue m = pairs (sort_by_used m.slots)

  unfoldable pub lookup : Bytes → List (Bytes × V) → Option V
  lookup k [] = none
  lookup k ((j, v) ∷ q) = if bytes_eq j k then some v else lookup k q

  unfoldable pub erase : Bytes → List (Bytes × V) → List (Bytes × V)
  erase k [] = []
  erase k ((j, v) ∷ q) = let rest = erase k q in if bytes_eq j k then rest else (j, v) ∷ rest

  abbrev pub touch : Bytes → V → List (Bytes × V) → List (Bytes × V)
  touch k v q = erase k q ++ (k, v) ∷ []

  -- A use of `k` moves it to the end.
  unfoldable pub queue_get : Bytes → List (Bytes × V) → List (Bytes × V) × Option V
  queue_get k q = elim (lookup k q) [ none ↦ (q, none) | some v ↦ (touch k v q, some v) ]

  -- Past the capacity the first of the queue goes.
  unfoldable pub drop_first : List (Bytes × V) → List (Bytes × V) × Option Bytes
  drop_first [] = ([], none)
  drop_first ((k, v) ∷ q) = (q, some k)

  unfoldable pub queue_insert : Bytes → V → ℕ → List (Bytes × V) → List (Bytes × V) × Option Bytes
  unfolding drop_first
  queue_insert k v capacity q =
      if ltb capacity (length (touch k v q)) then drop_first (touch k v q) else (touch k v q, none)

  pub lookup-pairs : (k : Bytes) (ss : List (Slot V)) → lookup k (pairs ss) ≡ find k ss
  unfolding lookup find
  lookup-pairs k [] = refl
  lookup-pairs k (s ∷ ss) = rw (lookup-pairs k ss)

  pub erase-pairs : (k : Bytes) (ss : List (Slot V)) → pairs (remove_key k ss) ≡ erase k (pairs ss)
  unfolding erase remove_key
  erase-pairs k [] = refl
  erase-pairs k (s ∷ ss) = ground (arith, erase-pairs k ss)

  pub pairs-append : (xs ys : List (Slot V)) → pairs (xs ++ ys) ≡ pairs xs ++ pairs ys
  pairs-append [] ys = refl
  pairs-append (x ∷ xs) ys = ap (◌∷◌ (x.key, x.value)) (pairs-append xs ys)

  pub length-pairs : (ss : List (Slot V)) → length (pairs ss) ≡ length ss
  length-pairs [] = refl
  length-pairs (s ∷ ss) = ap suc (length-pairs ss)

  -- Keys are unique, ages differ and lie below the clock, and the clock is a 64-bit number.
  pub record IsValid (capacity : ℕ) (m : RecencyMap V) : Type 0 where
    pub distinct : Distinct m.slots
    pub increasing : Increasing (sort_by_used m.slots)
    pub below : AllBelow m.clock (sort_by_used m.slots)
    pub clock_fits : m.clock ≤ u64_max
    pub bounded : length m.slots ≤ capacity

  AllAbove-mono : (m n : ℕ) (ss : List (Slot V)) → m ≤ n → AllAbove n ss → AllAbove m ss
  AllAbove-mono m n [] h a = tt
  AllAbove-mono m n (s ∷ ss) h (a, as_) = (omega arith, AllAbove-mono m n ss h as_)

  pub AllBelow-mono : (m n : ℕ) (ss : List (Slot V)) → m ≤ n → AllBelow m ss → AllBelow n ss
  AllBelow-mono m n [] h a = tt
  AllBelow-mono m n (s ∷ ss) h (a, as_) = (omega arith, AllBelow-mono m n ss h as_)

  pub sort-Increasing : (ss : List (Slot V)) → Increasing ss → sort_by_used ss ≡ ss
  unfolding sort_by_used
  sort-Increasing [] h = refl
  sort-Increasing (s ∷ ss) (a, h) =
      ap (insert_by_used s) (sort-Increasing ss h)
      ∙ insert_first s ss (AllAbove-mono s.used (suc s.used) ss (omega arith) a)

  AllAbove-renumber : (i : ℕ) (ss : List (Slot V)) → AllAbove i (renumber i ss)
  unfolding renumber
  AllAbove-renumber i [] = tt
  AllAbove-renumber i (s ∷ ss) =
      (omega arith, AllAbove-mono i (i + 1) _ (omega arith) (AllAbove-renumber (i + 1) ss))

  pub Increasing-renumber : (i : ℕ) (ss : List (Slot V)) → Increasing (renumber i ss)
  unfolding renumber
  Increasing-renumber i [] = tt
  Increasing-renumber i (s ∷ ss) = (
    AllAbove-mono (suc i) (i + 1) _ (omega arith) (AllAbove-renumber (i + 1) ss),
    Increasing-renumber (i + 1) ss,
  )

  pub AllBelow-renumber :
      (i n : ℕ) (ss : List (Slot V)) → i + length ss ≤ n → AllBelow n (renumber i ss)
  unfolding renumber
  AllBelow-renumber i n [] h = tt
  AllBelow-renumber i n (s ∷ ss) h = (omega arith, AllBelow-renumber (i + 1) n ss (omega arith))

  pub pairs-renumber : (i : ℕ) (ss : List (Slot V)) → pairs (renumber i ss) ≡ pairs ss
  unfolding renumber
  pairs-renumber i [] = refl
  pairs-renumber i (s ∷ ss) = ap (◌∷◌ (s.key, s.value)) (pairs-renumber (i + 1) ss)

  pub length-renumber : (i : ℕ) (ss : List (Slot V)) → length (renumber i ss) ≡ length ss
  unfolding renumber
  length-renumber i [] = refl
  length-renumber i (s ∷ ss) = ap suc (length-renumber (i + 1) ss)

  absent-renumber :
      (k : Bytes) (i : ℕ) (ss : List (Slot V)) → is_absent k (renumber i ss) ≡ is_absent k ss
  unfolding renumber is_absent
  absent-renumber k i [] = refl
  absent-renumber k i (s ∷ ss) = rw (absent-renumber k (i + 1) ss)

  pub Distinct-renumber : (i : ℕ) (ss : List (Slot V)) → Distinct ss → Distinct (renumber i ss)
  unfolding renumber
  Distinct-renumber i [] d = tt
  Distinct-renumber i (s ∷ ss) (a, d) =
      (absent-renumber s.key (i + 1) ss ∙ a, Distinct-renumber (i + 1) ss d)
