-- ===== src/RuleExpr/Chars.antt =====
-- kernel/src/security.rs: the pieces that the reader of an expression takes from its text. A text
-- is the list of its code points, and a position in it is the list of those from there on.
use odoo_rust_orm.Prelude.{
  ℕ, ◌+◌, ◌-◌, ◌*◌, Bool, true, not, ◌&&◌, ◌||◌, [], ◌∷◌, Option, none, some, Bytes, leb, ◌==◌,
  if◌then◌else◌,
}
use mathlib.Core.Option
use odoo_rust_orm.Sqllex.{is_digit, is_alpha}
use odoo_rust_orm.Int.{ℤ, pos, negsuc, is_i64}
use odoo_rust_orm.Error.{Result, ok, err, refuse, other}

-- What the tables of `char` say beyond ASCII, and the reading of a double.
pub record Std : Type 0 where
  pub whitespace : ℕ → Bool
  pub alphabetic : ℕ → Bool
  pub alphanumeric : ℕ → Bool
  pub parse_f64 : Bytes → Result ℕ

module _ (std : Std) where
  -- `char::is_whitespace`: a tab to a carriage return, a blank, and others beyond ASCII.
  abbrev pub is_whitespace : ℕ → Bool
  is_whitespace c = (leb 9 c && leb c 13) || c == b' ' || (leb 0x80 c && Std.whitespace std c)

  -- `char::is_alphabetic`
  abbrev pub is_alphabetic : ℕ → Bool
  is_alphabetic c = is_alpha c || (leb 0x80 c && Std.alphabetic std c)

  -- `char::is_alphanumeric`
  abbrev pub is_alphanumeric : ℕ → Bool
  is_alphanumeric c = is_alpha c || is_digit c || (leb 0x80 c && Std.alphanumeric std c)

  -- `skip_ws`; the second function is its inner loop, on a comment. A newline ends the comment and
  -- is white space.
  unfoldable mutual
    pub skip_ws : Bytes → Bytes
    skip_ws [] = []
    skip_ws (c ∷ cs) =
        let spaces = skip_ws cs in
        let comment = skip_comment cs in
        if is_whitespace c then spaces else if c == b'#' then comment else c ∷ cs

    pub skip_comment : Bytes → Bytes
    skip_comment [] = []
    skip_comment (c ∷ cs) =
        let line = skip_ws cs in
        let comment = skip_comment cs in if c == b'\n' then line else comment

  abbrev is_word : ℕ → Bool
  is_word c = is_alphanumeric c || c == b'_'

  -- The loop that takes an identifier: it, and what is left.
  unfoldable pub take_word : Bytes → Bytes × Bytes
  take_word [] = ([], [])
  take_word (c ∷ cs) =
      let more = take_word cs in if is_word c then (c ∷ more.0, more.1) else ([], c ∷ cs)

-- The loop that takes the digits of a number, with one dot at most: them, whether a dot was among
-- them, and what is left.
unfoldable pub take_number : Bool → Bytes → Bytes × Bool × Bytes
take_number dotted [] = ([], dotted, [])
take_number dotted (c ∷ cs) =
    let digit = take_number dotted cs in
    let dot = take_number true cs in
    if is_digit c
    then (c ∷ digit.0, digit.1, digit.2)
    else if c == b'.' && not dotted
    then (c ∷ dot.0, dot.1, dot.2)
    else ([], dotted, c ∷ cs)

-- `str::parse::<i64>`: digits, and a sign before them.
unfoldable pub digits_value : ℕ → Bytes → Option ℕ
digits_value acc [] = some acc
digits_value acc (c ∷ cs) =
    let rest = digits_value (acc * 10 + (c - b'0')) cs in if is_digit c then rest else none

abbrev pub negate : ℕ → ℤ
negate n = if n == 0 then pos 0 else negsuc (n - 1)

abbrev magnitude : Bytes → Option ℕ
magnitude [] = none
magnitude (c ∷ cs) = digits_value 0 (c ∷ cs)

abbrev pub checked : Option ℤ → Result ℤ
checked none = err (other ∷ [])
checked (some i) = if is_i64 i then ok i else err (other ∷ [])

unfoldable pub parse_i64 : Bytes → Result ℤ
parse_i64 [] = err (other ∷ [])
parse_i64 (c ∷ cs) =
    if c == b'-'
    then checked (Option.map negate (magnitude cs))
    else if c == b'+'
    then checked (Option.map pos (magnitude cs))
    else checked (Option.map pos (digits_value 0 (c ∷ cs)))

abbrev pub escaped : ℕ → Option ℕ
escaped y =
    if y == b'n'
    then some b'\n'
    else if y == b't'
    then some b'\t'
    else if y == b'r'
    then some b'\r'
    else if y == b'\\' || y == b'\'' || y == b'"'
    then some y
    else none

abbrev pub prepend : ℕ → Result (Bytes × Bytes) → Result (Bytes × Bytes)
prepend c (ok r) = ok (c ∷ r.0, r.1)
prepend c (err chain) = err chain

-- The loop that takes a text behind its opening quote: it, and what is left behind the closing one.
unfoldable pub take_string : ℕ → Bytes → Result (Bytes × Bytes)
take_string quote [] = refuse
take_string quote (x ∷ []) =
    if x == b'\\' then refuse else if x == quote then ok ([], []) else refuse
take_string quote (x ∷ y ∷ rest) =
    let later = take_string quote rest in
    let next = take_string quote (y ∷ rest) in
    if x == b'\\'
    then elim (escaped y) [ none ↦ refuse | some c ↦ prepend c later ]
    else if x == quote
    then ok ([], y ∷ rest)
    else prepend x next
