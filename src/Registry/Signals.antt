-- ===== src/Registry/Signals.antt =====
-- kernel/src/registry.rs: what a change of the signaling tables asks for. A signal is the last value
-- of a table's sequence; `get(i)` is the head of what is left of a list at the i-th table.
pub mod Classified
use odoo_rust_orm.Prelude.{
  Bool, true, false, not, ◌&&◌, ◌||◌, List, [], ◌∷◌, Option, none, some, Bytes, codes, bytes_eq,
  any, if◌then◌else◌,
}
use odoo_rust_orm.Int.{ℤ, ltb_ℤ, eqb_ℤ}

abbrev pub Signals : Type 0
Signals = List (Option ℤ)

pub data SignalChange : Type 0 where
  no_change security registry irrelevant : SignalChange

abbrev pub registry_table : Bytes
registry_table = codes "orm_signaling_registry"

abbrev pub security_signal_tables : List Bytes
security_signal_tables =
    codes "orm_signaling_default" ∷ codes "orm_signaling_groups" ∷ codes "orm_signaling_stable" ∷ []

-- `SECURITY_SIGNAL_TABLES.contains(name)`
unfoldable pub is_security : Bytes → Bool
is_security name = any (λ t. bytes_eq name t) security_signal_tables

unfoldable pub signal_eq : Option ℤ → Option ℤ → Bool
signal_eq none none = true
signal_eq (some a) (some b) = eqb_ℤ a b
signal_eq _ _ = false

unfoldable pub signal_lt : Option ℤ → Option ℤ → Bool
signal_lt none (some b) = true
signal_lt (some a) (some b) = ltb_ℤ a b
signal_lt _ none = false

-- `old == new`
unfoldable pub signals_eq : Signals → Signals → Bool
unfolding signal_eq
signals_eq [] [] = true
signals_eq (a ∷ old) (b ∷ new) = signal_eq a b && signals_eq old new
signals_eq _ _ = false

abbrev pub rest : Signals → Signals
rest [] = []
rest (_ ∷ s) = s

-- `old.get(i) != new.get(i)`
unfoldable pub differs : Signals → Signals → Bool
unfolding signal_eq
differs [] [] = false
differs (a ∷ _) (b ∷ _) = not (signal_eq a b)
differs _ _ = true

-- `snapshot.get(i) < current.get(i)`
unfoldable pub precedes : Signals → Signals → Bool
unfolding signal_lt
precedes [] (_ ∷ _) = true
precedes (a ∷ _) (b ∷ _) = signal_lt a b
precedes _ [] = false

unfoldable pub moved : Bytes → List Bytes → Signals → Signals → Bool
unfolding differs
moved name [] old new = false
moved name (t ∷ tables) old new =
    (bytes_eq t name && differs old new) || moved name tables (rest old) (rest new)

unfoldable pub classify_signal_change : List Bytes → Signals → Signals → SignalChange
unfolding signals_eq moved
classify_signal_change tables old new =
    if signals_eq old new
    then no_change
    else if moved registry_table tables old new
    then registry
    else if any (λ t. moved t tables old new) security_signal_tables
    then security
    else irrelevant

unfoldable pub security_signals : List Bytes → Signals → Signals
unfolding is_security
security_signals [] signals = []
security_signals (t ∷ tables) [] = []
security_signals (t ∷ tables) (v ∷ signals) =
    let others = security_signals tables signals in if is_security t then v ∷ others else others

unfoldable pub snapshot_precedes : List Bytes → Signals → Signals → Bool
unfolding is_security precedes
snapshot_precedes [] snapshot current = false
snapshot_precedes (t ∷ tables) snapshot current =
    ((bytes_eq t registry_table || is_security t) && precedes snapshot current)
    || snapshot_precedes tables (rest snapshot) (rest current)
