-- ===== src/Sqllex/Quoting.antt =====
-- kernel/src/db.rs: `ident`, and the regions that kernel/src/sqllex.rs finds in quoted names and
-- in nested comments.
use odoo_rust_orm.Prelude.{
  ℕ, ◌+◌, ◌≤◌, Bool, true, false, ◌&&◌, ◌||◌, [], ◌∷◌, ◌++◌, some, ◌≡◌, refl, ap, ◌∙◌, arith, Bytes,
  length, drop, length-append, ◌==◌, if◌then◌else◌, flat_map, Bool-cases, inl, inr, append_assoc,
}
use odoo_rust_orm.Sqllex.{
  Kind, comment, identifier, quoted, block_comment, next_is, opaque_from, opaque, is_after_ident,
}

-- `str::replace` of a character by a text.
unfoldable pub replace : ℕ → Bytes → Bytes → Bytes
replace c by bs = flat_map (λ b. if b == c then by else b ∷ []) bs

-- `format!("\"{}\"", name.replace('"', "\"\""))`
unfoldable pub ident : Bytes → Bytes
unfolding replace
ident name = b'"' ∷ (replace b'"' (b'"' ∷ b'"' ∷ []) name ++ b'"' ∷ [])

pub drop-length-append : (pre bs : Bytes) → drop (length pre) (pre ++ bs) ≡ bs
drop-length-append [] bs = refl
drop-length-append (p ∷ pre) bs = drop-length-append pre bs

abbrev doubled : ℕ → Bytes → Bytes
doubled q bs = replace q (q ∷ q ∷ []) bs

quoted-other :
    (len q i : ℕ) (kind : Kind) (b : ℕ) (bs : Bytes)
    → (b == q) ≡ false
    → quoted len false q kind i (b ∷ bs) ≡ quoted len false q kind (i + 1) bs
unfolding quoted
quoted-other len q i kind b [] h = rw h
quoted-other len q i kind b (c ∷ bs) h = rw h

quoted-end :
    (len q i : ℕ) (kind : Kind) (rest : Bytes)
    → next_is q rest ≡ false
    → quoted len false q kind i (q ∷ rest) ≡ record { kind = kind; end = i + 1; terminated = true }
unfolding quoted
quoted-end len q i kind [] h = ground arith
quoted-end len q i kind (c ∷ rest) h = ground arith

quoted-pair :
    (len q i : ℕ) (kind : Kind) (rest : Bytes)
    → quoted len false q kind i (q ∷ q ∷ rest) ≡ quoted len false q kind (i + 2) rest
unfolding quoted
quoted-pair len q i kind rest = ground arith

replace_same :
    (c : ℕ) (by : Bytes) (b : ℕ) (bs : Bytes)
    → (b == c) ≡ true
    → replace c by (b ∷ bs) ≡ by ++ replace c by bs
unfolding replace
replace_same c by b bs h = rw h

replace_other :
    (c : ℕ) (by : Bytes) (b : ℕ) (bs : Bytes)
    → (b == c) ≡ false
    → replace c by (b ∷ bs) ≡ b ∷ replace c by bs
unfolding replace
replace_other c by b bs h = rw h

-- Doubling the quotes of any text hides its end.
quoted-doubled :
    (len q i : ℕ) (kind : Kind) (bs rest : Bytes)
    → next_is q rest ≡ false
    → quoted len false q kind i (doubled q bs ++ q ∷ rest)
      ≡ record { kind = kind; end = i + length (doubled q bs) + 1; terminated = true }
quoted-doubled len q i kind [] rest h =
    unfold replace in
    (quoted-end len q i kind rest h
      ∙ ap (λ e. record { kind = kind; end = e; terminated = true }) (omega arith))
quoted-doubled len q i kind (b ∷ bs) rest h = elim (Bool-cases (b == q)) [
  | inl e ↦ rw (replace_same q (q ∷ q ∷ []) b bs e) (
      quoted-pair len q i kind (doubled q bs ++ q ∷ rest)
      ∙ quoted-doubled len q (i + 2) kind bs rest h
      ∙ ap (λ e. record { kind = kind; end = e; terminated = true }) (omega arith))
  | inr e ↦ rw (replace_other q (q ∷ q ∷ []) b bs e) (
      quoted-other len q i kind b (doubled q bs ++ q ∷ rest) e
      ∙ quoted-doubled len q (i + 1) kind bs rest h
      ∙ ap (λ e. record { kind = kind; end = e; terminated = true }) (omega arith))
]

-- Behind a prefix the scan sees what follows it.
pub opaque-at :
    (pre bs : Bytes)
    → opaque (pre ++ bs) (length pre)
      ≡ opaque_from (length (pre ++ bs)) (length pre) (is_after_ident (pre ++ bs) (length pre)) bs
unfolding opaque
opaque-at pre bs = rw drop-length-append

opaque_from-ident :
    (pre name rest : Bytes) (after : Bool)
    → next_is b'"' rest ≡ false
    → opaque_from (length (pre ++ (ident name ++ rest))) (length pre) after (ident name ++ rest)
      ≡ some
          (record { kind = identifier; end = length pre + length (ident name); terminated = true })
unfolding opaque_from ident
opaque_from-ident pre name rest after h =
    let shown =
      quoted-doubled (length (pre ++ (ident name ++ rest))) b'"' (length pre + 1) identifier name
        rest h in
    ap some (
      ap (quoted (length (pre ++ (ident name ++ rest))) false b'"' identifier (length pre + 1))
        (append_assoc (doubled b'"' name) (b'"' ∷ []) rest)
      ∙ shown
      ∙ ap (λ e. record { kind = identifier; end = e; terminated = true })
          (omega (arith, length-append (doubled b'"' name) (b'"' ∷ []))))

-- A quoted name is one region, whatever the name holds and wherever it stands: no name can end
-- its own quotes, provided that the text after it does not go on with a quote.
pub opaque-ident :
    (pre name rest : Bytes)
    → next_is b'"' rest ≡ false
    → opaque (pre ++ (ident name ++ rest)) (length pre)
      ≡ some
          (record { kind = identifier; end = length pre + length (ident name); terminated = true })
opaque-ident pre name rest h =
    rw (opaque-at pre (ident name ++ rest)) (opaque_from-ident pre name rest _ h)

-- A comment's text: bytes, and comments inside it.
pub data Body : Type 0 where
  stop : Body
  byte : ℕ → Body → Body
  nested : Body → Body → Body

abbrev pub spell : Body → Bytes → Bytes
spell stop rest = rest
spell (byte b t) rest = b ∷ spell t rest
spell (nested inner t) rest = b'/' ∷ b'*' ∷ spell inner (b'*' ∷ b'/' ∷ spell t rest)

abbrev pub size : Body → ℕ
size stop = 0
size (byte b t) = 1 + size t
size (nested inner t) = 4 + size inner + size t

abbrev pub is_mark : ℕ → Bytes → Bool
is_mark b bs = (b == b'/' && next_is b'*' bs) || (b == b'*' && next_is b'/' bs)

-- No byte opens or closes a comment by itself.
abbrev pub IsPlain : Body → Bytes → Type 0
IsPlain stop rest = Unit
IsPlain (byte b t) rest = (is_mark b (spell t rest) ≡ false) × IsPlain t rest
IsPlain (nested inner t) rest = IsPlain inner (b'*' ∷ b'/' ∷ spell t rest) × IsPlain t rest

block_comment-other :
    (len depth i b : ℕ) (bs : Bytes)
    → is_mark b bs ≡ false
    → block_comment len depth i (b ∷ bs) ≡ block_comment len depth (i + 1) bs
unfolding block_comment
block_comment-other len depth i b [] h = refl
block_comment-other len depth i b (c ∷ bs) h = ground arith

block_comment-close :
    (len depth i : ℕ) (rest : Bytes)
    → 1 ≤ depth
    → block_comment len (depth + 1) i (b'*' ∷ b'/' ∷ rest) ≡ block_comment len depth (i + 2) rest
unfolding block_comment
block_comment-close len depth i rest h = ground arith

block_comment-spell :
    (body : Body) (len depth i : ℕ) (rest : Bytes)
    → 1 ≤ depth
    → IsPlain body rest
    → block_comment len depth i (spell body rest) ≡ block_comment len depth (i + size body) rest
unfolding block_comment
block_comment-spell stop len depth i rest h p =
    ap (λ j. block_comment len depth j rest) (omega arith)
block_comment-spell (byte b t) len depth i rest h (m, p) =
    block_comment-other len depth i b (spell t rest) m
    ∙ block_comment-spell t len depth (i + 1) rest h p
    ∙ ap (λ j. block_comment len depth j rest) (omega arith)
block_comment-spell (nested inner t) len depth i rest h (p, q) =
    block_comment-spell inner len (depth + 1) (i + 2) _ (omega arith) p
    ∙ block_comment-close len depth (i + 2 + size inner) (spell t rest) h
    ∙ block_comment-spell t len depth (i + 2 + size inner + 2) rest h q
    ∙ ap (λ j. block_comment len depth j rest) (omega arith)

block_comment-end :
    (len i : ℕ) (rest : Bytes)
    → block_comment len 1 i (b'*' ∷ b'/' ∷ rest)
      ≡ record { kind = comment; end = i + 2; terminated = true }
unfolding block_comment
block_comment-end len i rest = refl

opaque_from-comment :
    (len start : ℕ) (after : Bool) (bs : Bytes)
    → opaque_from len start after (b'/' ∷ b'*' ∷ bs) ≡ some (block_comment len 1 (start + 2) bs)
unfolding opaque_from
opaque_from-comment len start after bs = refl

-- A comment ends where the grammar of nested comments ends it, wherever it stands and whatever
-- follows.
pub opaque-comment :
    (pre : Bytes) (body : Body) (rest : Bytes)
    → IsPlain body (b'*' ∷ b'/' ∷ rest)
    → opaque (pre ++ b'/' ∷ b'*' ∷ spell body (b'*' ∷ b'/' ∷ rest)) (length pre)
      ≡ some (record { kind = comment; end = length pre + (size body + 4); terminated = true })
opaque-comment pre body rest p =
    opaque-at pre _
    ∙ opaque_from-comment _ (length pre) _ _
    ∙ ap some (
        block_comment-spell body _ 1 (length pre + 2) (b'*' ∷ b'/' ∷ rest) (omega arith) p
        ∙ block_comment-end _ (length pre + 2 + size body) rest
        ∙ ap (λ e. record { kind = comment; end = e; terminated = true }) (omega arith))
