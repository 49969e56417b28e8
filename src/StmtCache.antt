-- ===== src/StmtCache.antt =====
-- kernel/src/db.rs: the recency map of prepared statements. The hash map is an association list:
-- its order is that of an iteration, which the source leaves open, and every operation reads it by
-- key or by the ages. The mutex and the tracing are left out.
pub mod Order
pub mod Queue
pub mod Writes
pub mod Refines
use odoo_rust_orm.Prelude.{
  ℕ, suc, ◌+◌, ◌%◌, ◌^◌, Bool, true, false, not, List, [], ◌∷◌, Option, none, some, Bytes, bytes_eq,
  length, ltb, ◌==◌, if◌then◌else◌,
}

-- `CacheEntry`, with its key.
pub record Slot {ℓ} (V : Type ℓ) : Type ℓ where
  pub key : Bytes
  pub value : V
  pub used : ℕ

pub record RecencyMap {ℓ} (V : Type ℓ) : Type ℓ where
  pub slots : List (Slot V)
  pub clock : ℕ

abbrev pub u64_max : ℕ
u64_max = 18446744073709551615

module _ {ℓ} {V : Type ℓ} where
  abbrev pub empty : RecencyMap V
  empty = record { slots = []; clock = 0 }

  unfoldable pub insert_by_used : Slot V → List (Slot V) → List (Slot V)
  insert_by_used s [] = s ∷ []
  insert_by_used s (x ∷ xs) =
      let later = x ∷ insert_by_used s xs in if ltb x.used s.used then later else s ∷ x ∷ xs

  -- `sort_unstable_by_key(|entry| entry.used)`
  unfoldable pub sort_by_used : List (Slot V) → List (Slot V)
  sort_by_used [] = []
  sort_by_used (s ∷ ss) = insert_by_used s (sort_by_used ss)

  -- `for (i, entry) in entries.iter_mut().enumerate() { entry.used = i }`
  unfoldable pub renumber : ℕ → List (Slot V) → List (Slot V)
  renumber i [] = []
  renumber i (s ∷ ss) = record s { used = i } ∷ renumber (i + 1) ss

  -- What `next_tick` does at the last tick.
  unfoldable pub rebase : RecencyMap V → RecencyMap V
  rebase m =
      if m.clock == u64_max
      then record { slots = renumber 0 (sort_by_used m.slots); clock = length m.slots }
      else m

  unfoldable pub next_tick : RecencyMap V → RecencyMap V × ℕ
  next_tick m = let m' = rebase m in (record m' { clock = m'.clock + 1 }, m'.clock + 1)

  unfoldable pub find : Bytes → List (Slot V) → Option V
  find k [] = none
  find k (s ∷ ss) = if bytes_eq s.key k then some s.value else find k ss

  -- `HashMap::remove`
  unfoldable pub remove_key : Bytes → List (Slot V) → List (Slot V)
  remove_key k [] = []
  remove_key k (s ∷ ss) = let rest = remove_key k ss in if bytes_eq s.key k then rest else s ∷ rest

  -- `HashMap::insert`, and a write through `get_mut`.
  unfoldable pub put : Bytes → V → ℕ → List (Slot V) → List (Slot V)
  put k v used ss = record { key = k; value = v; used = used } ∷ remove_key k ss

  -- `min_by_key(|(_, entry)| entry.used)`
  unfoldable pub oldest : List (Slot V) → Option (Slot V)
  oldest [] = none
  oldest (s ∷ ss) = elim (oldest ss) [
    | none ↦ some s
    | some m ↦ some (if ltb m.used s.used then m else s)
  ]

  -- `RecencyMap::get`
  unfoldable pub get : RecencyMap V → Bytes → RecencyMap V × Option V
  get m k =
      let (m', used) = next_tick m in
      elim (find k m'.slots) [
        | none ↦ (m', none)
        | some v ↦ (record m' { slots = put k v used m'.slots }, some v)
      ]

  evict : RecencyMap V → Option (Slot V) → RecencyMap V × Option Bytes
  evict m none = (m, none)
  evict m (some s) = (record m { slots = remove_key s.key m.slots }, some s.key)

  -- `RecencyMap::insert`
  unfoldable pub insert : RecencyMap V → Bytes → V → ℕ → RecencyMap V × Option Bytes
  unfolding evict
  insert m k v capacity =
      let (m', used) = next_tick m in
      let grown = record m' { slots = put k v used m'.slots } in
      if ltb capacity (length grown.slots) then evict grown (oldest grown.slots) else (grown, none)

-- `StmtCache`: the map, and the statements counted by a wrapping 64-bit counter.
pub record StmtCache {ℓ} (V : Type ℓ) : Type ℓ where
  pub inner : RecencyMap V
  pub executed : ℕ

abbrev pub max_prepared : ℕ
max_prepared = 256

module _ {ℓ} {V : Type ℓ} where
  unfoldable pub note_executed : StmtCache V → ℕ → StmtCache V
  note_executed c statements = record c { executed = (c.executed + statements) % 2 ^ 64 }

  unfoldable pub cache_get : StmtCache V → Bytes → StmtCache V × Option V
  cache_get c sql = let (m, found) = get c.inner sql in (record c { inner = m }, found)

  unfoldable pub cache_insert : StmtCache V → Bytes → V → StmtCache V
  cache_insert c sql v = record c { inner = (insert c.inner sql v max_prepared).0 }

  unfoldable pub cache_remove : StmtCache V → Bytes → StmtCache V
  cache_remove c sql = record c {
    inner = record { slots = remove_key sql c.inner.slots; clock = c.inner.clock };
  }

  unfoldable pub cache_clear : StmtCache V → StmtCache V
  cache_clear c = record c { inner = empty }
