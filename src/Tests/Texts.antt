-- ===== src/Tests/Texts.antt =====
-- Runs of kernel/src/sqllex.rs on the texts of its own tests, and its theorems at concrete texts.
use odoo_rust_orm.Prelude.{
  ◌+◌, true, false, ◌||◌, ◌==◌, [], if◌then◌else◌, flat_map, flat_map-append, ◌∷◌, ◌++◌, none, some,
  ◌≡◌, refl, codes, length, Bytes,
}
use odoo_rust_orm.Sqllex.{
  text, identifier, dollar_string, comment, opaque, is_ident_byte, is_after_ident, is_prefix,
}
use odoo_rust_orm.Config.{
  conninfo_value, percent_byte, with_dbname, read_value, read_value-conninfo_value,
}
use odoo_rust_orm.Cursor.Copy.{copy_text_escape, read_field, read_field-copy_text_escape}
use odoo_rust_orm.Trigram.{
  value_to_pattern, pattern_to_pattern, segments, long_ones, join_any, escape_wildcards,
}
use odoo_rust_orm.Trigram.Matching.{Like, at_end, any_none, any_more, any_one, same}
use odoo_rust_orm.Trigram.Patterns.{pattern_to_pattern-Like}
use odoo_rust_orm.Sqllex.Quoting.{ident, opaque-ident}

regions :
    (opaque (codes "'it''s $1'SELECT") 0
      ≡ some (record { kind = text; end = 10; terminated = true }))
    × (opaque (codes "E'it\\'s ;'SELECT") 0
        ≡ some (record { kind = text; end = 10; terminated = true }))
    × (opaque (codes "/* a /* b */ c */SELECT") 0
        ≡ some (record { kind = comment; end = 17; terminated = true }))
    × (opaque (codes "$tag$x;$1$tag$SELECT") 0
        ≡ some (record { kind = dollar_string; end = 14; terminated = true }))
    × (opaque (codes "$tag$open") 0
        ≡ some (record { kind = dollar_string; end = 9; terminated = false }))
    × (opaque (codes "E'open\\") 0 ≡ some (record { kind = text; end = 7; terminated = false }))
    × (opaque (codes "name$1") 4 ≡ none)
    × (opaque (codes "$1") 0 ≡ none)
unfolding opaque is_after_ident is_ident_byte
regions = (refl, refl, refl, refl, refl, refl, refl, refl)

-- A name that tries to leave its quotes.
abbrev hostile : Bytes
hostile = codes "x\"; DROP TABLE t; --"

opaque-ident_example :
    opaque (codes "SELECT " ++ (ident hostile ++ codes " FROM t")) 7
    ≡ some (record { kind = identifier; end = 7 + length (ident hostile); terminated = true })
opaque-ident_example = opaque-ident (codes "SELECT ") hostile (codes " FROM t") refl

-- A `json_escape` of backslashes and quotes only.
abbrev escape_json : Bytes → Bytes
escape_json bs = flat_map (λ c. if c == b'\\' || c == b'"' then b'\\' ∷ c ∷ [] else c ∷ []) bs

patterns :
    (value_to_pattern escape_json (codes "100%") ≡ codes "%100\\%%")
    × (value_to_pattern escape_json (codes "ab") ≡ codes "%")
    × (value_to_pattern escape_json (codes "quote\"inside") ≡ codes "%quote\\\\\"inside%")
    × (pattern_to_pattern escape_json (codes "abc\\%def") ≡ codes "%abc\\%def%")
    × (pattern_to_pattern escape_json (codes "x%yz%abcdef") ≡ codes "%abcdef%")
    × (pattern_to_pattern escape_json (codes "trailing\\") ≡ codes "%")
unfolding value_to_pattern pattern_to_pattern segments long_ones join_any escape_wildcards
patterns = (refl, refl, refl, refl, refl, refl)

escape_json-append : (a b : Bytes) → escape_json (a ++ b) ≡ escape_json a ++ escape_json b
escape_json-append a b =
    flat_map-append (λ c. if c == b'\\' || c == b'"' then b'\\' ∷ c ∷ [] else c ∷ []) a b

matched : Like (codes "abc%d_f") (codes "abcxdef")
matched =
    same refl (same refl (same refl (any_more (any_none (same refl (any_one (same refl at_end)))))))

pattern_to_pattern-Like_example :
    Like
      (pattern_to_pattern escape_json (codes "abc%d_f"))
      (codes "{\"fr\": \"" ++ (escape_json (codes "abcxdef") ++ codes "\"}"))
pattern_to_pattern-Like_example =
    pattern_to_pattern-Like escape_json escape_json-append (codes "abc%d_f") (codes "abcxdef")
      (codes "{\"fr\": \"") (codes "\"}") matched

read_field-copy_text_escape_example :
    read_field false (copy_text_escape (codes "a\\b\rc\n\t") ++ b'\t' ∷ codes "c")
    ≡ (codes "a\\b\rc\n\t", b'\t' ∷ codes "c")
read_field-copy_text_escape_example =
    read_field-copy_text_escape (codes "a\\b\rc\n\t") b'\t' (codes "c") refl

read_value-conninfo_value_example :
    (inner : Bytes) × (conninfo_value (codes "o'dd\\") ++ codes " user=x" ≡ b'\'' ∷ inner)
    × (read_value false inner ≡ (codes "o'dd\\", codes " user=x"))
read_value-conninfo_value_example = read_value-conninfo_value (codes "o'dd\\") (codes " user=x")

urls :
    with_dbname (codes "postgres://h/?a=1") (codes "a b") ≡ codes "postgres://h/?a=1&dbname=a%20b"
unfolding with_dbname percent_byte is_prefix
urls = refl
