-- ===== src/StmtCache/Refines.antt =====
-- kernel/src/db.rs: the recency map is a least-recently-used queue, past the overflow of its clock.
use odoo_rust_orm.Prelude.{
  ℕ, suc, ◌<◌, true, List, [], ◌∷◌, ◌++◌, none, some, ◌≡◌, refl, sym, ap, ◌∙◌, arith, Bytes,
  bytes_eq_iff, length, ltb, Bool-cases, inl, inr, Option-cases, subst,
}
use odoo_rust_orm.StmtCache.{
  Slot, RecencyMap, u64_max, sort_by_used, rebase, next_tick, find, remove_key, put, oldest, get,
  insert, evict, StmtCache, cache_remove,
}
use odoo_rust_orm.StmtCache.Order.{
  AllBelow, head?, Increasing, is_absent, Distinct, Distinct-sort, length-sort, AllBelow-remove_key,
  Increasing-remove_key, oldest-sort, sort-remove_key, Distinct-remove_key, remove_key_absent,
}
use odoo_rust_orm.StmtCache.Queue.{
  pairs, queue, lookup, drop_first, erase, queue_get, queue_insert, erase-pairs, length-pairs,
  IsValid,
}
use odoo_rust_orm.StmtCache.Writes.{
  rebase-Rebased, length-remove_key-le, length-remove_key-lt, written, queue-written,
  written-IsValid, lookup-queue, ticked-IsValid,
}

module _ {ℓ} {V : Type ℓ} (capacity : ℕ) (fits : capacity < u64_max) where
  -- A read moves the entry that it finds to the end of the queue, and returns what the queue
  -- holds; the map stays valid, also where the clock overflows.
  pub get-queue :
      (m : RecencyMap V) (k : Bytes)
      → IsValid capacity m
      → IsValid capacity (get m k).0
        × (queue (get m k).0 ≡ (queue_get k (queue m)).0)
        × ((get m k).1 ≡ (queue_get k (queue m)).1)
  unfolding get next_tick queue_get
  get-queue m k ok_ =
      let r = rebase-Rebased capacity fits m ok_ in
      let look =
        sym (lookup-queue capacity fits (rebase m) k r.valid) ∙ ap (lookup k) r.same_queue in
      elim (Option-cases (find k (rebase m).slots)) [
        | inl e ↦
            rw (e, sym look ∙ e, get, queue_get)
              (
                ticked-IsValid capacity fits (rebase m) r.valid r.room,
                unfold queue in r.same_queue,
                refl,
              )
        | inr (v, e) ↦
            rw (e, sym look ∙ e, get, queue_get)
              (
                written-IsValid capacity fits capacity (rebase m) k v r.valid r.room (
                    unfold put in
                    omega (
                      arith,
                      length-remove_key-lt capacity fits k (rebase m).slots v e,
                      r.valid.bounded,
                    )),
                queue-written capacity fits (rebase m) k v r.valid
                    ∙ ap (λ q. erase k q ++ (k, v) ∷ []) r.same_queue,
                refl,
              )
      ]

  remove_head :
      (s : Slot V) (ss : List (Slot V)) → is_absent s.key ss ≡ true → remove_key s.key (s ∷ ss) ≡ ss
  unfolding remove_key
  remove_head s ss h = rw ((bytes_eq_iff s.key s.key).1 refl) (remove_key_absent s.key ss h)

  -- Evicting the oldest entry takes the first of the queue.
  record Evicted (m : RecencyMap V) : Type ℓ where
    valid : IsValid capacity (evict m (oldest m.slots)).0
    rest : queue (evict m (oldest m.slots)).0 ≡ (drop_first (queue m)).0
    key : (evict m (oldest m.slots)).1 ≡ (drop_first (queue m)).1

  evict-some :
      (m : RecencyMap V) (s : Slot V) (ss : List (Slot V))
      → IsValid (suc capacity) m
      → sort_by_used m.slots ≡ s ∷ ss
      → Evicted m
  unfolding evict drop_first queue
  evict-some m s ss ok_ e =
      let front : oldest m.slots ≡ some s = oldest-sort m.slots ∙ ap head? e in
      let sorted : Distinct (s ∷ ss) = subst Distinct e (Distinct-sort m.slots ok_.distinct) in
      let left : sort_by_used (remove_key s.key m.slots) ≡ ss =
        sort-remove_key s.key m.slots ∙ ap (remove_key s.key) e ∙ remove_head s ss sorted.0 in
      record {
        valid = rw front (record {
          distinct = Distinct-remove_key s.key m.slots ok_.distinct;
          increasing = rw left (subst Increasing e ok_.increasing).1;
          below = rw left (subst (AllBelow m.clock) e ok_.below).1;
          clock_fits = ok_.clock_fits;
          bounded = omega (
            arith,
            ok_.bounded,
            length-sort m.slots,
            length-sort (remove_key s.key m.slots),
            ap length left,
            ap length e,
          );
        });
        rest = rw (front, left, e);
        key = rw (front, e);
      }

  evict-none : (m : RecencyMap V) → IsValid (suc capacity) m → sort_by_used m.slots ≡ [] → Evicted m
  unfolding evict drop_first queue
  evict-none m ok_ e =
      let front : oldest m.slots ≡ none = oldest-sort m.slots ∙ ap head? e in
      record {
        valid = rw front (record {
          distinct = ok_.distinct;
          increasing = ok_.increasing;
          below = ok_.below;
          clock_fits = ok_.clock_fits;
          bounded = omega (arith, length-sort m.slots, ap length e);
        });
        rest = rw (front, e);
        key = rw (front, e);
      }

  evict-Evicted :
      (m : RecencyMap V) (ss : List (Slot V))
      → IsValid (suc capacity) m
      → sort_by_used m.slots ≡ ss
      → Evicted m
  evict-Evicted m [] ok_ e = evict-none m ok_ e
  evict-Evicted m (s ∷ ss) ok_ e = evict-some m s ss ok_ e

  length-queue : (m : RecencyMap V) → length (queue m) ≡ length m.slots
  unfolding queue
  length-queue m = length-pairs (sort_by_used m.slots) ∙ length-sort m.slots

  -- An insertion puts the entry at the end of the queue in place of an older one of its key, and
  -- evicts exactly the least recently used entry when the capacity is passed; the map stays
  -- valid and within the capacity, also where the clock overflows.
  pub insert-queue :
      (m : RecencyMap V) (k : Bytes) (v : V)
      → IsValid capacity m
      → IsValid capacity (insert m k v capacity).0
        × (queue (insert m k v capacity).0 ≡ (queue_insert k v capacity (queue m)).0)
        × ((insert m k v capacity).1 ≡ (queue_insert k v capacity (queue m)).1)
  unfolding insert next_tick queue_insert
  insert-queue m k v ok_ =
      let r = rebase-Rebased capacity fits m ok_ in
      let grown = written capacity fits (rebase m) k v in
      let held : queue grown ≡ erase k (queue m) ++ (k, v) ∷ [] =
        queue-written capacity fits (rebase m) k v r.valid
        ∙ ap (λ q. erase k q ++ (k, v) ∷ []) r.same_queue in
      let size : length grown.slots ≡ length (erase k (queue m) ++ (k, v) ∷ []) =
        sym (length-queue grown) ∙ ap length held in
      elim (Bool-cases (ltb capacity (length grown.slots))) [
        | inl over ↦
            let out =
              evict-Evicted grown _
                (written-IsValid capacity fits (suc capacity) (rebase m) k v r.valid r.room (
                  unfold put in
                  omega (
                    arith,
                    length-remove_key-le capacity fits k (rebase m).slots,
                    r.valid.bounded,
                  )))
                refl in
            rw (over, sym (ap (ltb capacity) size) ∙ over, insert, queue_insert)
              (
                out.valid,
                out.rest ∙ ap (λ q. (drop_first q).0) held,
                out.key ∙ ap (λ q. (drop_first q).1) held,
              )
        | inr within ↦
            rw (within, sym (ap (ltb capacity) size) ∙ within, insert, queue_insert)
              (
                written-IsValid capacity fits capacity (rebase m) k v r.valid r.room (ground arith),
                held,
                refl,
              )
      ]

  -- Dropping a statement takes it out of the queue and leaves the others in their order.
  pub remove-queue :
      (c : StmtCache V) (sql : Bytes)
      → IsValid capacity c.inner
      → IsValid capacity (cache_remove c sql).inner
        × (queue (cache_remove c sql).inner ≡ erase sql (queue c.inner))
  unfolding cache_remove queue
  remove-queue c sql ok_ = (
    record {
      distinct = Distinct-remove_key sql c.inner.slots ok_.distinct;
      increasing = rw sort-remove_key (Increasing-remove_key sql _ ok_.increasing);
      below = rw sort-remove_key (AllBelow-remove_key c.inner.clock sql _ ok_.below);
      clock_fits = ok_.clock_fits;
      bounded = omega (arith, ok_.bounded, length-remove_key-le capacity fits sql c.inner.slots);
    },
    ap pairs (sort-remove_key sql c.inner.slots) ∙ erase-pairs sql (sort_by_used c.inner.slots),
  )
