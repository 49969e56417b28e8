-- ===== src/StmtCache/Writes.antt =====
-- kernel/src/db.rs: a tick of the clock, and a write at that tick.
use odoo_rust_orm.Prelude.{
  ℕ, suc, ◌+◌, ◌≤◌, ◌<◌, List, [], ◌∷◌, ◌++◌, some, ◌≡◌, refl, ap, ◌∙◌, arith, Bytes, length, ◌==◌,
  Bool-cases, inl, inr,
}
use odoo_rust_orm.StmtCache.{
  Slot, RecencyMap, u64_max, sort_by_used, renumber, rebase, find, remove_key, put,
}
use odoo_rust_orm.StmtCache.Order.{
  AllBelow, AllAbove, Increasing, find-sort, Distinct-sort, length-sort, sort-put,
  AllBelow-remove_key, Increasing-remove_key, Distinct-remove_key, absent-remove_key_self,
}
use odoo_rust_orm.StmtCache.Queue.{
  pairs, queue, lookup, erase, lookup-pairs, erase-pairs, pairs-append, IsValid, sort-Increasing,
  Increasing-renumber, AllBelow-renumber, pairs-renumber, length-renumber, Distinct-renumber,
  AllBelow-mono,
}

module _ {ℓ} {V : Type ℓ} (capacity : ℕ) (fits : capacity < u64_max) where
  -- Rebasing keeps the queue and makes room for a tick.
  pub record Rebased (m m' : RecencyMap V) : Type ℓ where
    pub valid : IsValid capacity m'
    pub room : m'.clock < u64_max
    pub same_queue : queue m' ≡ queue m

  pub rebase-Rebased : (m : RecencyMap V) → IsValid capacity m → Rebased m (rebase m)
  unfolding rebase
  rebase-Rebased m v = elim (Bool-cases (m.clock == u64_max)) [
    | inl full ↦ rw full (record {
      valid = record {
        distinct = Distinct-renumber 0 _ (Distinct-sort m.slots v.distinct);
        increasing = rw sorted (Increasing-renumber 0 (sort_by_used m.slots));
        below =
            rw sorted
              (AllBelow-renumber 0 _ (sort_by_used m.slots) (omega (arith, length-sort m.slots)));
        clock_fits = omega (arith, v.bounded);
        bounded =
            omega (arith, v.bounded, length-renumber 0 (sort_by_used m.slots), length-sort m.slots);
      };
      room = omega (arith, v.bounded);
      same_queue = unfold queue in ap pairs sorted ∙ pairs-renumber 0 (sort_by_used m.slots);
    })
    | inr early ↦
        rw early (record { valid = v; room = ground (arith, v.clock_fits); same_queue = refl })
  ]
    where
      sorted : sort_by_used (renumber 0 (sort_by_used m.slots)) ≡ renumber 0 (sort_by_used m.slots)
      sorted = sort-Increasing _ (Increasing-renumber 0 (sort_by_used m.slots))

  AllAbove-snoc :
      (n : ℕ) (ss : List (Slot V)) (s : Slot V)
      → AllAbove n ss
      → n ≤ s.used
      → AllAbove n (ss ++ s ∷ [])
  AllAbove-snoc n [] s a h = (h, tt)
  AllAbove-snoc n (x ∷ xs) s (a, as_) h = (a, AllAbove-snoc n xs s as_ h)

  Increasing-snoc :
      (ss : List (Slot V)) (n : ℕ) (s : Slot V)
      → Increasing ss
      → AllBelow n ss
      → n < s.used
      → Increasing (ss ++ s ∷ [])
  Increasing-snoc [] n s i b h = (tt, tt)
  Increasing-snoc (x ∷ xs) n s (a, i) (b, bs) h =
      (AllAbove-snoc (suc x.used) xs s a (omega arith), Increasing-snoc xs n s i bs h)

  AllBelow-snoc :
      (ss : List (Slot V)) (n : ℕ) (s : Slot V)
      → AllBelow n ss
      → n < s.used
      → AllBelow s.used (ss ++ s ∷ [])
  AllBelow-snoc [] n s b h = (omega arith, tt)
  AllBelow-snoc (x ∷ xs) n s (b, bs) h = (omega arith, AllBelow-snoc xs n s bs h)

  pub length-remove_key-le : (k : Bytes) (ss : List (Slot V)) → length (remove_key k ss) ≤ length ss
  unfolding remove_key
  length-remove_key-le k [] = omega arith
  length-remove_key-le k (s ∷ ss) = ground (arith, length-remove_key-le k ss)

  pub length-remove_key-lt :
      (k : Bytes) (ss : List (Slot V)) (v : V)
      → find k ss ≡ some v
      → length (remove_key k ss) < length ss
  unfolding remove_key find
  length-remove_key-lt k [] v h = cc
  length-remove_key-lt k (s ∷ ss) v h =
      ground (arith, length-remove_key-lt k ss v, length-remove_key-le k ss)

  -- The map after a write of `k` at the next tick.
  abbrev pub written : RecencyMap V → Bytes → V → RecencyMap V
  written m k v = record { slots = put k v (m.clock + 1) m.slots; clock = m.clock + 1 }

  sort-written :
      (m : RecencyMap V) (k : Bytes) (v : V)
      → IsValid capacity m
      → sort_by_used (written m k v).slots
        ≡ remove_key k (sort_by_used m.slots)
          ++ record { key = k; value = v; used = m.clock + 1 } ∷ []
  sort-written m k v ok_ = sort-put k v m.clock (m.clock + 1) m.slots ok_.below (omega arith)

  pub queue-written :
      (m : RecencyMap V) (k : Bytes) (v : V)
      → IsValid capacity m
      → queue (written m k v) ≡ erase k (queue m) ++ (k, v) ∷ []
  unfolding queue
  queue-written m k v ok_ =
      ap pairs (sort-written m k v ok_)
      ∙ pairs-append (remove_key k (sort_by_used m.slots)) _
      ∙ ap (λ q. q ++ (k, v) ∷ []) (erase-pairs k (sort_by_used m.slots))

  pub written-IsValid :
      (c : ℕ) (m : RecencyMap V) (k : Bytes) (v : V)
      → IsValid capacity m
      → m.clock < u64_max
      → length (put k v (m.clock + 1) m.slots) ≤ c
      → IsValid c (written m k v)
  written-IsValid c m k v ok_ room small = record {
    distinct =
        unfold put in
        (absent-remove_key_self k m.slots, Distinct-remove_key k m.slots ok_.distinct);
    increasing = rw (sort-written m k v ok_) (
        Increasing-snoc _ m.clock _ (Increasing-remove_key k _ ok_.increasing)
          (AllBelow-remove_key m.clock k _ ok_.below) (omega arith));
    below =
        rw (sort-written m k v ok_)
          (AllBelow-snoc _ m.clock _ (AllBelow-remove_key m.clock k _ ok_.below) (omega arith));
    clock_fits = omega arith;
    bounded = small;
  }

  pub lookup-queue :
      (m : RecencyMap V) (k : Bytes) → IsValid capacity m → lookup k (queue m) ≡ find k m.slots
  unfolding queue
  lookup-queue m k ok_ = lookup-pairs k (sort_by_used m.slots) ∙ find-sort k m.slots ok_.distinct

  pub ticked-IsValid :
      (m : RecencyMap V)
      → IsValid capacity m
      → m.clock < u64_max
      → IsValid capacity (record m { clock = m.clock + 1 })
  ticked-IsValid m ok_ room = record {
    distinct = ok_.distinct;
    increasing = ok_.increasing;
    below = AllBelow-mono m.clock (m.clock + 1) _ (omega arith) ok_.below;
    clock_fits = omega arith;
    bounded = ok_.bounded;
  }
