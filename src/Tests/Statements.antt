-- ===== src/Tests/Statements.antt =====
-- Runs of the recency map of kernel/src/db.rs, and its theorems at concrete maps.
use odoo_rust_orm.Prelude.{ℕ, [], ◌∷◌, some, ◌≡◌, refl, arith, codes, bytes_eq}
use odoo_rust_orm.StmtCache.{
  RecencyMap, StmtCache, u64_max, insert_by_used, sort_by_used, renumber, rebase, next_tick, find,
  remove_key, put, oldest, get, insert, cache_remove,
}
use odoo_rust_orm.StmtCache.Order.{is_absent}
use odoo_rust_orm.StmtCache.Queue.{queue, lookup, erase, queue_get, queue_insert, IsValid}
use odoo_rust_orm.StmtCache.Refines

program : Unit {0}
unfolding insert_by_used sort_by_used renumber rebase next_tick find remove_key put oldest get
    insert cache_remove queue lookup erase queue_get queue_insert bytes_eq is_absent
program = tt

-- Two statements, and a clock at its last tick.
abbrev full : RecencyMap ℕ
full = record {
  slots =
      record { key = codes "b"; value = 2; used = 9 }
      ∷ record { key = codes "a"; value = 1; used = 4 }
      ∷ [];
  clock = u64_max;
}

full-IsValid : IsValid 2 full
unfolding program
full-IsValid = record {
  distinct = (refl, (refl, tt));
  increasing = omega arith;
  below = omega arith;
  clock_fits = omega arith;
  bounded = omega arith;
}

-- The ages are rebased, and the least recently used statement goes.
insert-full : insert full (codes "c") 3 2 ≡ (
  record {
    slots =
        record { key = codes "c"; value = 3; used = 3 }
        ∷ record { key = codes "b"; value = 2; used = 1 }
        ∷ [];
    clock = 3;
  },
  some (codes "a"),
)
unfolding program
insert-full = refl

get-full : (get full (codes "a")).1 ≡ some 1
unfolding program
get-full = refl

insert-queue_example :
    IsValid 2 (insert full (codes "c") 3 2).0
    × (queue (insert full (codes "c") 3 2).0 ≡ (queue_insert (codes "c") 3 2 (queue full)).0)
    × ((insert full (codes "c") 3 2).1 ≡ (queue_insert (codes "c") 3 2 (queue full)).1)
insert-queue_example = Refines.insert-queue 2 (omega arith) full (codes "c") 3 full-IsValid

get-queue_example :
    IsValid 2 (get full (codes "a")).0
    × (queue (get full (codes "a")).0 ≡ (queue_get (codes "a") (queue full)).0)
    × ((get full (codes "a")).1 ≡ (queue_get (codes "a") (queue full)).1)
get-queue_example = Refines.get-queue 2 (omega arith) full (codes "a") full-IsValid

abbrev cache : StmtCache ℕ
cache = record { inner = full; executed = 7 }
