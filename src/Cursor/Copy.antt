-- ===== src/Cursor/Copy.antt =====
-- engine-py/src/cursor.rs: the text format of COPY. A field is a list of characters.
use odoo_rust_orm.Prelude.{
  ℕ, Bool, true, false, ◌||◌, [], ◌∷◌, ◌++◌, ◌≡◌, refl, ap, ◌∙◌, arith, append_assoc, Bytes, ◌==◌,
  if◌then◌else◌, if-intro, subst,
}

unfoldable pub escape_char : ℕ → Bytes
escape_char c =
    if c == b'\\'
    then b'\\' ∷ b'\\' ∷ []
    else if c == b'\t'
    then b'\\' ∷ b't' ∷ []
    else if c == b'\n'
    then b'\\' ∷ b'n' ∷ []
    else if c == b'\r'
    then b'\\' ∷ b'r' ∷ []
    else c ∷ []

unfoldable pub copy_text_escape : Bytes → Bytes
copy_text_escape [] = []
copy_text_escape (c ∷ cs) = escape_char c ++ copy_text_escape cs

-- How PostgreSQL reads a field: up to a tab, or to a newline or a carriage return, which end the
-- line; a backslash and a letter are one character. `escaped` says that a backslash stands before.
abbrev unescaped : ℕ → ℕ
unescaped d =
    if d == b't' then b'\t' else if d == b'n' then b'\n' else if d == b'r' then b'\r' else d

abbrev pub ends_field : ℕ → Bool
ends_field c = c == b'\t' || c == b'\n' || c == b'\r'

unfoldable pub read_field : Bool → Bytes → Bytes × Bytes
read_field escaped [] = ([], [])
read_field true (d ∷ rest) = let later = read_field false rest in (unescaped d ∷ later.0, later.1)
read_field false (c ∷ rest) =
    let after_escape = read_field true rest in
    let later = read_field false rest in
    if c == b'\\'
    then after_escape
    else if ends_field c
    then ([], c ∷ rest)
    else (c ∷ later.0, later.1)

abbrev Reads : ℕ → Bytes → Bytes → Type 0
Reads c more piece =
    read_field false (piece ++ more) ≡ (c ∷ (read_field false more).0, (read_field false more).1)

read_field-escape_char : (c : ℕ) (more : Bytes) → Reads c more (escape_char c)
unfolding read_field escape_char
read_field-escape_char c more =
    if-intro (Reads c more) (c == b'\\')
      (λ e. subst (λ d. Reads d more (b'\\' ∷ b'\\' ∷ [])) (ground arith) refl)
      (λ e.
        if-intro (Reads c more) (c == b'\t')
          (λ f. subst (λ d. Reads d more (b'\\' ∷ b't' ∷ [])) (ground arith) refl)
          (λ f.
            if-intro (Reads c more) (c == b'\n')
              (λ g. subst (λ d. Reads d more (b'\\' ∷ b'n' ∷ [])) (ground arith) refl)
              (λ g.
                if-intro (Reads c more) (c == b'\r')
                  (λ h. subst (λ d. Reads d more (b'\\' ∷ b'r' ∷ [])) (ground arith) refl)
                  (λ h. rw (e, f, g, h)))))

read_field-end :
    (c : ℕ) (rest : Bytes) → ends_field c ≡ true → read_field false (c ∷ rest) ≡ ([], c ∷ rest)
unfolding read_field
read_field-end c rest h = ground arith

-- An escaped field is read back as it was, up to the tab, the newline or the carriage return behind
-- it: no field can end itself or its line.
pub read_field-copy_text_escape :
    (field : Bytes) (stop : ℕ) (rest : Bytes)
    → ends_field stop ≡ true
    → read_field false (copy_text_escape field ++ stop ∷ rest) ≡ (field, stop ∷ rest)
unfolding copy_text_escape
read_field-copy_text_escape [] stop rest h = read_field-end stop rest h
read_field-copy_text_escape (c ∷ cs) stop rest h =
    ap (read_field false) (append_assoc (escape_char c) (copy_text_escape cs) (stop ∷ rest))
    ∙ read_field-escape_char c (copy_text_escape cs ++ stop ∷ rest)
    ∙ ap (λ (r : Bytes × Bytes). (c ∷ r.0, r.1)) (read_field-copy_text_escape cs stop rest h)
