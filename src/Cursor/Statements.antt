-- ===== src/Cursor/Statements.antt =====
-- engine-py/src/cursor.rs: what kind of statement a text is. A loop over `i` is a recursion on the
-- bytes from `i` on, which carries `i` and how many bytes are still to be passed over.
pub mod Outside
use odoo_rust_orm.Prelude.{
  ℕ, zero, suc, ◌+◌, ◌-◌, Bool, true, false, not, ◌&&◌, ◌||◌, List, [], ◌∷◌, ◌++◌, Option, none,
  some, map, Bytes, codes, bytes_eq, length, take, drop, get_elem?, any, ltb, leb, ◌==◌,
  if◌then◌else◌,
}
use odoo_rust_orm.Sqllex.{opaque, Opaque, is_ident_byte, is_after_ident, is_alpha, is_digit}

abbrev pub skip_opaque : Bytes → ℕ → Option ℕ
skip_opaque bytes i = elim (opaque bytes i) [ none ↦ none | some token ↦ some token.end ]

-- `is_ascii_whitespace`
unfoldable pub is_space : ℕ → Bool
is_space b = b == 32 || b == 9 || b == 10 || b == 12 || b == 13

abbrev upper : ℕ → ℕ
upper b = if leb b'a' b && leb b b'z' then b - 32 else b

-- `to_ascii_uppercase`
unfoldable pub uppercase : Bytes → Bytes
uppercase bs = map (λ b. upper b) bs

-- How many identifier bytes follow.
unfoldable pub ident_run : Bytes → ℕ
ident_run [] = 0
ident_run (b ∷ bs) = let more = ident_run bs in if is_ident_byte b then suc more else 0

-- How many bytes behind this one the first loop of `leading_keyword` passes over; none where it ends.
unfoldable pub blank : Bytes → ℕ → ℕ → Option ℕ
blank bytes i c = if is_space c || c == b'(' then some 0 else elim (skip_opaque bytes i) [
  | none ↦ none
  | some end ↦ if c == b'-' || c == b'/' then some (end - i - 1) else none
]

unfoldable pub skip_blank : Bytes → ℕ → ℕ → Bytes → Bytes
skip_blank bytes skip i [] = []
skip_blank bytes (suc skip) i (c ∷ rest) = skip_blank bytes skip (i + 1) rest
skip_blank bytes zero i (c ∷ rest) = elim (blank bytes i c) [
  | none ↦ c ∷ rest
  | some k ↦ skip_blank bytes k (i + 1) rest
]

unfoldable pub leading_keyword : Bytes → Bytes
leading_keyword sql = let rest = skip_blank sql 0 0 sql in uppercase (take (ident_run rest) rest)

-- What a round of the loop of `statement_level_keywords` leaves.
pub record Round : Type 0 where
  pub skip : ℕ
  pub depth : ℕ
  pub level : Option ℕ
  pub word : List Bytes

-- `*level.get_or_insert(depth)`
abbrev level_or : Option ℕ → ℕ → ℕ
level_or none depth = depth
level_or (some l) depth = l

word_round : ℕ → Option ℕ → Bytes → Round
word_round depth level from_i =
    let l = level_or level depth in
    record {
      skip = ident_run from_i - 1;
      depth = depth;
      level = some l;
      word = if depth == l then uppercase (take (ident_run from_i) from_i) ∷ [] else [];
    }

level_byte : ℕ → Option ℕ → ℕ → Bytes → Round
level_byte depth level c rest =
    if c == b'('
    then record { skip = 0; depth = depth + 1; level = level; word = [] }
    else if c == b')'
    then record { skip = 0; depth = depth - 1; level = level; word = [] }
    else if is_ident_byte c
    then word_round depth level (c ∷ rest)
    else record { skip = 0; depth = depth; level = level; word = [] }

unfoldable pub level_round : Bytes → ℕ → ℕ → Option ℕ → ℕ → Bytes → Round
unfolding word_round level_byte
level_round bytes i depth level c rest = elim (skip_opaque bytes i) [
  | some end ↦ record { skip = end - i - 1; depth = depth; level = level; word = [] }
  | none ↦ level_byte depth level c rest
]

unfoldable pub level_words : Bytes → ℕ → ℕ → ℕ → Option ℕ → Bytes → List Bytes
level_words bytes skip i depth level [] = []
level_words bytes (suc skip) i depth level (c ∷ rest) =
    level_words bytes skip (i + 1) depth level rest
level_words bytes zero i depth level (c ∷ rest) =
    let r = level_round bytes i depth level c rest in
    r.word ++ level_words bytes r.skip (i + 1) r.depth r.level rest

unfoldable pub statement_level_keywords : Bytes → List Bytes
statement_level_keywords sql = level_words sql 0 0 0 none sql

abbrev pub one_of : List Bytes → Bytes → Bool
one_of words word = any (λ w. bytes_eq word w) words

unfoldable pub is_modifying : Bytes → Bool
is_modifying word =
    one_of (codes "INSERT" ∷ codes "UPDATE" ∷ codes "DELETE" ∷ codes "MERGE" ∷ []) word

unfoldable pub is_primary : Bytes → Bool
is_primary word =
    one_of (codes "SELECT" ∷ codes "VALUES" ∷ codes "TABLE" ∷ []) word || is_modifying word

-- `words.iter().skip(1).position(…)`, with what follows the word found.
unfoldable pub primary : List Bytes → Option (Bytes × List Bytes)
primary [] = none
primary (w ∷ ws) = if is_primary w then some (w, ws) else primary ws

unfoldable pub words_return_rows : List Bytes → Bool
words_return_rows words = elim (primary (drop 1 words)) [
  | none ↦ true
  | some found ↦
      if not (is_modifying found.0) then true else any (λ w. bytes_eq w (codes "RETURNING")) found.1
]

unfoldable pub with_statement_returns_rows : Bytes → Bool
with_statement_returns_rows sql = words_return_rows (statement_level_keywords sql)

-- `rest[..keyword.len()].eq_ignore_ascii_case(keyword)`, where `rest` is long enough
unfoldable pub starts_ignore_case : Bytes → Bytes → Bool
starts_ignore_case [] rest = true
starts_ignore_case (k ∷ ks) [] = false
starts_ignore_case (k ∷ ks) (b ∷ bs) = upper k == upper b && starts_ignore_case ks bs

abbrev ident_next : Option ℕ → Bool
ident_next none = false
ident_next (some b) = is_ident_byte b

-- Whether the keyword stands at `i`, by itself.
unfoldable pub keyword_at : Bytes → Bytes → ℕ → Bytes → Bool
keyword_at bytes keyword i rest =
    starts_ignore_case keyword rest
    && not (is_after_ident bytes i)
    && not (ident_next (get_elem? bytes (i + length keyword)))

unfoldable pub keyword_from : Bytes → Bytes → ℕ → ℕ → Bytes → Bool
keyword_from bytes keyword skip i [] = false
keyword_from bytes keyword (suc skip) i (c ∷ rest) = keyword_from bytes keyword skip (i + 1) rest
keyword_from bytes keyword zero i (c ∷ rest) = elim (skip_opaque bytes i) [
  | some end ↦ keyword_from bytes keyword (end - i - 1) (i + 1) rest
  | none ↦
      let later = keyword_from bytes keyword zero (i + 1) rest in
      if keyword_at bytes keyword i (c ∷ rest) then true else later
]

unfoldable pub has_bare_keyword : Bytes → Bytes → Bool
has_bare_keyword sql keyword = keyword_from sql keyword 0 0 sql

unfoldable pub returns_rows : Bytes → Bool
returns_rows sql =
    let word = leading_keyword sql in
    if one_of
      (codes "SELECT"
        ∷ codes "SHOW"
        ∷ codes "VALUES"
        ∷ codes "TABLE"
        ∷ codes "EXPLAIN"
        ∷ codes "FETCH"
        ∷ [])
      word
    then true
    else if bytes_eq word (codes "WITH")
    then with_statement_returns_rows sql
    else has_bare_keyword sql (codes "RETURNING")

unfoldable pub more_from : Bytes → Bool → ℕ → ℕ → Bytes → Bool
more_from bytes after skip i [] = false
more_from bytes after (suc skip) i (c ∷ rest) = more_from bytes after skip (i + 1) rest
more_from bytes after zero i (c ∷ rest) = elim (skip_opaque bytes i) [
  | some end ↦
      let later = more_from bytes after (end - i - 1) (i + 1) rest in
      if after && not (c == b'-' || c == b'/') then true else later
  | none ↦
      let later = more_from bytes (c == b';' || after) zero (i + 1) rest in
      if not (c == b';') && after && not (is_space c) then true else later
]

unfoldable pub has_multiple_statements : Bytes → Bool
has_multiple_statements sql = more_from sql false 0 0 sql
