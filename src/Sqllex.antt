-- ===== src/Sqllex.antt =====
-- kernel/src/sqllex.rs: the opaque regions of PostgreSQL text. A loop over `i` is a recursion on
-- the bytes from `i` on, which carries `i`; `len` is the length of the whole text.
pub mod Bounds
pub mod Quoting
use odoo_rust_orm.Prelude.{
  ℕ, zero, suc, ◌+◌, ◌-◌, Bool, true, false, not, ◌&&◌, ◌||◌, List, [], ◌∷◌, ◌++◌, Option, none,
  some, Bytes, bytes_eq, length, get_elem?, take, drop, ltb, leb, ◌==◌, if◌then◌else◌,
}

pub data Kind : Type 0 where
  text identifier dollar_string comment : Kind

pub record Opaque : Type 0 where
  pub kind : Kind
  pub end : ℕ
  pub terminated : Bool

abbrev pub is_digit : ℕ → Bool
is_digit b = leb b'0' b && leb b b'9'

abbrev pub is_alpha : ℕ → Bool
is_alpha b = (leb b'a' b && leb b b'z') || (leb b'A' b && leb b b'Z')

unfoldable pub is_ident_byte : ℕ → Bool
is_ident_byte b = is_alpha b || is_digit b || b == b'_' || b == b'$' || leb 0x80 b

-- `bytes.get(0) == Some(b)`
abbrev pub next_is : ℕ → Bytes → Bool
next_is b [] = false
next_is b (c ∷ _) = c == b

abbrev pub next_is_digit : Bytes → Bool
next_is_digit [] = false
next_is_digit (c ∷ _) = is_digit c

-- `iter().position(…)`
unfoldable pub position : (ℕ → Bool) → Bytes → Option ℕ
position p [] = none
position p (b ∷ bs) =
    if p b then some 0 else elim (position p bs) [ none ↦ none | some i ↦ some (suc i) ]

is_newline : ℕ → Bool
is_newline b = b == b'\n' || b == b'\r'

-- From the second `-` on: up to and with the newline.
unfoldable pub line_comment : ℕ → ℕ → Bytes → Opaque
unfolding is_newline position
line_comment len start body = record {
  kind = comment;
  end = elim (position is_newline body) [ none ↦ len | some i ↦ start + 3 + i ];
  terminated = true;
}

abbrev unterminated : Kind → ℕ → Opaque
unterminated kind len = record { kind = kind; end = len; terminated = false }

-- The loop of a block comment; `depth` comments are open.
unfoldable pub block_comment : ℕ → ℕ → ℕ → Bytes → Opaque
block_comment len depth i [] = unterminated comment len
block_comment len depth i (a ∷ []) = unterminated comment len
block_comment len depth i (a ∷ b ∷ bs) =
    let opened = block_comment len (depth + 1) (i + 2) bs in
    let closed = block_comment len (depth - 1) (i + 2) bs in
    let later = block_comment len depth (i + 1) (b ∷ bs) in
    if a == b'/' && b == b'*'
    then opened
    else if a == b'*' && b == b'/'
    then (if depth - 1 == 0
        then record { kind = comment; end = i + 2; terminated = true }
        else closed)
    else later

-- The loop of a quoted text or identifier.
unfoldable pub quoted : ℕ → Bool → ℕ → Kind → ℕ → Bytes → Opaque
quoted len escaped quote kind i [] = unterminated kind len
quoted len escaped quote kind i (b ∷ []) =
    if escaped && b == b'\\'
    then unterminated kind len
    else if b == quote
    then record { kind = kind; end = i + 1; terminated = true }
    else unterminated kind len
quoted len escaped quote kind i (b ∷ c ∷ bs) =
    let skip_two = quoted len escaped quote kind (i + 2) bs in
    let skip_one = quoted len escaped quote kind (i + 1) (c ∷ bs) in
    if escaped && b == b'\\'
    then skip_two
    else if b == quote
    then (if c == quote then skip_two else record { kind = kind; end = i + 1; terminated = true })
    else skip_one

-- How many bytes of a dollar tag's name follow.
unfoldable pub tag_length : Bytes → ℕ
tag_length [] = 0
tag_length (b ∷ bs) = if not (b == b'$') && is_ident_byte b then suc (tag_length bs) else 0

unfoldable pub is_prefix : Bytes → Bytes → Bool
is_prefix [] bs = true
is_prefix (a ∷ as_) [] = false
is_prefix (a ∷ as_) (b ∷ bs) = a == b && is_prefix as_ bs

-- `windows(tag.len()).position(|w| w == tag)`, for a tag that is not empty.
unfoldable pub window : Bytes → Bytes → Option ℕ
unfolding is_prefix
window tag [] = none
window tag (b ∷ bs) =
    if is_prefix tag (b ∷ bs)
    then some 0
    else elim (window tag bs) [ none ↦ none | some i ↦ some (suc i) ]

-- At a `$` that may open a tag; `tag_end` is relative to it.
dollar_body : ℕ → ℕ → Bytes → ℕ → Opaque
dollar_body len start from_dollar tag_end =
    elim (window (take tag_end from_dollar) (drop tag_end from_dollar)) [
      | none ↦ unterminated dollar_string len
      | some i ↦ record {
        kind = dollar_string;
        end = start + tag_end + i + tag_end;
        terminated = true;
      }
    ]

unfoldable pub dollar : ℕ → ℕ → Bytes → Option Opaque
unfolding dollar_body tag_length window
dollar len start [] = none
dollar len start (c ∷ bs) =
    if next_is b'$' (drop (tag_length bs) bs)
    then some (dollar_body len start (c ∷ bs) (tag_length bs + 2))
    else none

quote_kind : ℕ → Kind
quote_kind quote = if quote == b'"' then identifier else text

-- `E'…'`
abbrev pub opens_escape : Bool → ℕ → Bytes → Bool
opens_escape after_ident c rest = (c == b'e' || c == b'E') && next_is b'\'' rest && not after_ident

-- The region that opens at `start`, given the bytes from there on and what stands before.
unfoldable pub opaque_from : ℕ → ℕ → Bool → Bytes → Option Opaque
unfolding line_comment block_comment quoted dollar quote_kind
opaque_from len start after_ident [] = none
opaque_from len start after_ident (c ∷ rest) =
    if c == b'-' && next_is b'-' rest
    then some (line_comment len start (drop 1 rest))
    else if c == b'/' && next_is b'*' rest
    then some (block_comment len 1 (start + 2) (drop 1 rest))
    else if opens_escape after_ident c rest
    then some (quoted len true b'\'' text (start + 2) (drop 1 rest))
    else if c == b'\'' || c == b'"'
    then some (quoted len false c (quote_kind c) (start + 1) rest)
    else if c == b'$' && not after_ident && not (next_is_digit rest)
    then dollar len start (c ∷ rest)
    else none

ident_at : Option ℕ → Bool
ident_at none = false
ident_at (some b) = is_ident_byte b

-- `start > 0 && is_ident_byte(bytes[start - 1])`
unfoldable pub is_after_ident : Bytes → ℕ → Bool
unfolding ident_at
is_after_ident bytes start = ltb 0 start && ident_at (get_elem? bytes (start - 1))

unfoldable pub opaque : Bytes → ℕ → Option Opaque
unfolding opaque_from
opaque bytes start =
    opaque_from (length bytes) start (is_after_ident bytes start) (drop start bytes)
