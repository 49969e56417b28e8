-- ===== src/Config.antt =====
-- kernel/src/config.rs: the connection strings. The environment is not modelled.
use odoo_rust_orm.Prelude.{
  ℕ, ◌+◌, ◌-◌, ◌/◌, ◌%◌, Bool, true, false, ◌||◌, [], ◌∷◌, ◌++◌, ◌≡◌, refl, sym, ap, ◌∙◌, arith,
  append_assoc, append-nil, flat_map, flat_map-append, any, Bytes, codes, ltb, ◌==◌, if◌then◌else◌,
  if-intro, subst,
}
use odoo_rust_orm.Sqllex.{is_alpha, is_digit, is_prefix}
use odoo_rust_orm.Sqllex.Quoting.{replace}

unfoldable pub conninfo_value : Bytes → Bytes
conninfo_value value =
    b'\''
    ∷ (replace b'\'' (b'\\' ∷ b'\'' ∷ []) (replace b'\\' (b'\\' ∷ b'\\' ∷ []) value) ++ b'\'' ∷ [])

abbrev hex_digit : ℕ → ℕ
hex_digit n = if ltb n 10 then b'0' + n else b'A' + (n - 10)

unfoldable pub percent_byte : ℕ → Bytes
percent_byte b =
    if is_alpha b || is_digit b || any (λ c. c == b) (codes "-._~")
    then b ∷ []
    else b'%' ∷ hex_digit (b / 16) ∷ hex_digit (b % 16) ∷ []

unfoldable pub with_dbname : Bytes → Bytes → Bytes
with_dbname dsn db_name =
    if is_prefix (codes "postgres://") dsn || is_prefix (codes "postgresql://") dsn
    then dsn
      ++ (if any (λ c. c == b'?') dsn then codes "&" else codes "?")
      ++ codes "dbname="
      ++ flat_map percent_byte db_name
    else dsn ++ codes " dbname=" ++ conninfo_value db_name

-- How libpq reads a quoted value behind its opening quote, and what it leaves behind the closing
-- one; `escaped` says that a backslash stands before.
unfoldable pub read_value : Bool → Bytes → Bytes × Bytes
read_value escaped [] = ([], [])
read_value true (c ∷ rest) = let later = read_value false rest in (c ∷ later.0, later.1)
read_value false (c ∷ rest) =
    let after_escape = read_value true rest in
    let later = read_value false rest in
    if c == b'\\' then after_escape else if c == b'\'' then ([], rest) else (c ∷ later.0, later.1)

abbrev twice : Bytes → Bytes
twice bs = replace b'\'' (b'\\' ∷ b'\'' ∷ []) (replace b'\\' (b'\\' ∷ b'\\' ∷ []) bs)

abbrev Reads : ℕ → Bytes → Bytes → Type 0
Reads c more piece =
    read_value false (piece ++ more) ≡ (c ∷ (read_value false more).0, (read_value false more).1)

read_value-byte : (c : ℕ) (more : Bytes) → Reads c more (twice (c ∷ []))
unfolding read_value replace
read_value-byte c more =
    if-intro
      (λ p.
        Reads c more (flat_map (λ b. if b == b'\'' then b'\\' ∷ b'\'' ∷ [] else b ∷ []) (p ++ [])))
      (c == b'\\') (λ e. subst (λ d. Reads d more (b'\\' ∷ b'\\' ∷ [])) (ground arith) refl)
      (λ e.
        if-intro (λ p. Reads c more (p ++ [])) (c == b'\'')
          (λ f. subst (λ d. Reads d more (b'\\' ∷ b'\'' ∷ [])) (ground arith) refl)
          (λ f. rw (e, f)))

twice-cons : (c : ℕ) (cs : Bytes) → twice (c ∷ cs) ≡ twice (c ∷ []) ++ twice cs
unfolding replace
twice-cons c cs =
    flat_map-append (λ b. if b == b'\'' then b'\\' ∷ b'\'' ∷ [] else b ∷ [])
      (if c == b'\\' then b'\\' ∷ b'\\' ∷ [] else c ∷ []) (replace b'\\' (b'\\' ∷ b'\\' ∷ []) cs)
    ∙ ap (λ p. replace b'\'' (b'\\' ∷ b'\'' ∷ []) p ++ twice cs)
        (sym (append-nil (if c == b'\\' then b'\\' ∷ b'\\' ∷ [] else c ∷ [])))

read_value-twice :
    (value rest : Bytes) → read_value false (twice value ++ b'\'' ∷ rest) ≡ (value, rest)
read_value-twice [] rest = unfold read_value replace in refl
read_value-twice (c ∷ cs) rest =
    ap (λ l. read_value false (l ++ b'\'' ∷ rest)) (twice-cons c cs)
    ∙ ap (read_value false) (append_assoc (twice (c ∷ [])) (twice cs) (b'\'' ∷ rest))
    ∙ read_value-byte c (twice cs ++ b'\'' ∷ rest)
    ∙ ap (λ (r : Bytes × Bytes). (c ∷ r.0, r.1)) (read_value-twice cs rest)

-- A quoted value is read back as it was, and nothing of it behind its closing quote.
pub read_value-conninfo_value :
    (value rest : Bytes)
    → (inner : Bytes) × (conninfo_value value ++ rest ≡ b'\'' ∷ inner)
      × (read_value false inner ≡ (value, rest))
unfolding conninfo_value
read_value-conninfo_value value rest = (
  twice value ++ b'\'' ∷ rest,
  ap (◌∷◌ b'\'') (append_assoc (twice value) (b'\'' ∷ []) rest),
  read_value-twice value rest,
)
