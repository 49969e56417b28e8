-- ===== src/Cursor/Heads.antt =====
-- engine-py/src/cursor.rs: the tests on a statement's first word, and the tracking of an aborted
-- transaction.
pub mod Aborts
use odoo_rust_orm.Prelude.{
  ℕ, zero, suc, ◌+◌, ◌-◌, Bool, true, false, not, ◌&&◌, ◌||◌, List, [], ◌∷◌, Option, none, some,
  Bytes, codes, length, get_elem?, any, ltb, leb, ◌==◌, if◌then◌else◌,
}
use odoo_rust_orm.Sqllex.{is_alpha, is_digit, is_prefix}
use odoo_rust_orm.Cursor.Statements.{starts_ignore_case}

-- Unicode's white space in UTF-8: of three bytes, of two, and of one.
abbrev is_white_3 : ℕ → ℕ → ℕ → Bool
is_white_3 a b c =
    (a == 0xE1 && b == 0x9A && c == 0x80)
    || (a == 0xE2 && b == 0x80 && (leb 0x80 c && leb c 0x8A || c == 0xA8 || c == 0xA9 || c == 0xAF))
    || (a == 0xE2 && b == 0x81 && c == 0x9F)
    || (a == 0xE3 && b == 0x80 && c == 0x80)

abbrev is_white_2 : ℕ → ℕ → Bool
is_white_2 a b = a == 0xC2 && (b == 0x85 || b == 0xA0)

abbrev is_white_1 : ℕ → Bool
is_white_1 a = a == 32 || (leb 9 a && leb a 13)

-- `trim_start`
unfoldable pub trim_start : Bytes → Bytes
trim_start [] = []
trim_start (a ∷ []) = if is_white_1 a then [] else a ∷ []
trim_start (a ∷ b ∷ []) =
    let later = trim_start (b ∷ []) in
    if is_white_1 a then later else if is_white_2 a b then [] else a ∷ b ∷ []
trim_start (a ∷ b ∷ c ∷ rest) =
    let one = trim_start (b ∷ c ∷ rest) in
    let two = trim_start (c ∷ rest) in
    let three = trim_start rest in
    if is_white_1 a
    then one
    else if is_white_2 a b
    then two
    else if is_white_3 a b c
    then three
    else a ∷ b ∷ c ∷ rest

-- `trim_start_matches('(')`
unfoldable pub trim_open : Bytes → Bytes
trim_open [] = []
trim_open (b ∷ bs) = let later = trim_open bs in if b == b'(' then later else b ∷ bs

unfoldable pub head_of : Bytes → Bytes
head_of sql = trim_start (trim_open (trim_start sql))

abbrev ends_word : Option ℕ → Bool
ends_word none = false
ends_word (some b) = not (is_alpha b || is_digit b) && not (b == b'_')

unfoldable pub statement_is_ddl : Bytes → Bool
statement_is_ddl sql =
    any
      (λ lit.
        starts_ignore_case lit (head_of sql) && ends_word (get_elem? (head_of sql) (length lit)))
      (codes "create"
        ∷ codes "alter"
        ∷ codes "drop"
        ∷ codes "truncate"
        ∷ codes "comment"
        ∷ codes "do"
        ∷ codes "refresh"
        ∷ [])

unfoldable pub statement_drops : Bytes → Bool
statement_drops sql = starts_ignore_case (codes "drop ") (head_of sql)

unfoldable pub statement_invalidates_prepared : Bytes → Bool
statement_invalidates_prepared sql =
    starts_ignore_case (codes "rollback") (head_of sql)
    || starts_ignore_case (codes "drop ") (head_of sql)

unfoldable pub statement_rolls_back : Bytes → Bool
statement_rolls_back sql = starts_ignore_case (codes "rollback") (trim_start sql)

-- The two flags of a connection that the tracking reads and sets.
pub record TxFlags : Type 0 where
  pub in_tx : Bool
  pub aborted : Bool

-- What a statement ended with: the text of the error where it failed.
pub data Outcome : Type 0 where
  done : Outcome
  failed : Bytes → Outcome

abbrev pub raised_by_server : Bytes → Bool
raised_by_server message =
    is_prefix (codes "SQLSTATE:") message && not (is_prefix (codes "SQLSTATE:|") message)

unfoldable pub track_abort : TxFlags → Bytes → Outcome → TxFlags
track_abort flags query outcome =
    if not flags.in_tx then record { in_tx = false; aborted = false } else record {
      in_tx = true;
      aborted = elim outcome [
        | done ↦ if statement_rolls_back query then false else flags.aborted
        | failed message ↦ if raised_by_server message then true else flags.aborted
      ];
    }
