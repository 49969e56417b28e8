-- ===== src/Cursor.antt =====
-- engine-py/src/cursor.rs: what the cursor reads off a statement's text before it is sent.
pub mod Copy
pub mod Placeholders
pub mod Statements
pub mod Heads
pub mod Numeric
use odoo_rust_orm.Prelude.{
  ℕ, zero, suc, ◌+◌, ◌-◌, Bool, true, false, List, [], ◌∷◌, ◌++◌, Option, none, some, Bytes, take,
  ◌==◌, if◌then◌else◌,
}
use odoo_rust_orm.Decimal.{decimal}

-- `find(")s")`
unfoldable pub find_close : Bytes → Option ℕ
find_close [] = none
find_close (_ ∷ []) = none
find_close (a ∷ b ∷ rest) =
    let later = find_close (b ∷ rest) in
    if (if a == b')' then b == b's' else false)
    then some 0
    else elim later [ none ↦ none | some p ↦ some (suc p) ]

-- What a round of the loop of `translate_placeholders` emits, the name that it pushes, and how many
-- bytes behind the first one it passes over. `count` names are pushed before it.
pub record Emission : Type 0 where
  pub emit : Bytes
  pub name : Option Bytes
  pub skip : ℕ

unfoldable pub named : ℕ → Bytes → Emission
named count rest = elim (find_close rest) [
  | none ↦ record { emit = b'%' ∷ []; name = none; skip = 0 }
  | some p ↦ record {
    emit = b'$' ∷ decimal (count + 1);
    name = some (take (p - 1) (drop_one rest));
    skip = p + 2;
  }
]
  where
    drop_one : Bytes → Bytes
    drop_one [] = []
    drop_one (_ ∷ bs) = bs

-- At a byte `c`, before `rest`.
unfoldable pub translate_round : ℕ → ℕ → Bytes → Emission
translate_round count c [] = record { emit = c ∷ []; name = none; skip = 0 }
translate_round count c (d ∷ rest) =
    if c == b'%'
    then (if d == b'%'
        then record { emit = b'%' ∷ []; name = none; skip = 1 }
        else if d == b's'
        then record { emit = b'$' ∷ decimal (count + 1); name = some []; skip = 1 }
        else if d == b'('
        then named count (d ∷ rest)
        else record { emit = c ∷ []; name = none; skip = 0 })
    else record { emit = c ∷ []; name = none; skip = 0 }

abbrev pub pushed : Option Bytes → List Bytes
pushed none = []
pushed (some name) = name ∷ []

abbrev pub counted : Option Bytes → ℕ → ℕ
counted none n = n
counted (some name) n = n + 1

unfoldable pub translate_from : ℕ → ℕ → Bytes → Bytes × List Bytes
translate_from skip count [] = ([], [])
translate_from (suc skip) count (c ∷ rest) = translate_from skip count rest
translate_from zero count (c ∷ rest) =
    let r = translate_round count c rest in
    let later = translate_from r.skip (counted r.name count) rest in
    (r.emit ++ later.0, pushed r.name ++ later.1)

-- The translated text and the placeholders' names, empty for `%s`.
unfoldable pub translate_placeholders : Bytes → Bytes × List Bytes
translate_placeholders sql = translate_from 0 0 sql
