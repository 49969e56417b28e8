-- ===== src/Trigram.antt =====
-- kernel/src/trigram.rs: the `LIKE` prefilters of translated columns. A text is a list of characters;
-- what serde_json writes between the quotes of a text is a parameter.
pub mod Matching
pub mod Patterns
use odoo_rust_orm.Prelude.{
  ℕ, zero, suc, ◌+◌, Bool, true, false, not, ◌&&◌, ◌||◌, List, [], ◌∷◌, ◌++◌, map, Bytes, codes,
  length, all, ltb, leb, ◌==◌, if◌then◌else◌,
}

abbrev pub is_special : ℕ → Bool
is_special c = c == b'_' || c == b'%' || c == b'\\'

unfoldable pub escape_wildcards : Bytes → Bytes
escape_wildcards [] = []
escape_wildcards (c ∷ cs) =
    if is_special c then b'\\' ∷ c ∷ escape_wildcards cs else c ∷ escape_wildcards cs

-- ASCII's control characters are those below the space, and DEL.
unfoldable pub is_exact_on : Bytes → Bool
is_exact_on term =
    all (λ c. ltb c 128 && not (ltb c 32 || c == 127) && not (c == b'"') && not (c == b'\\')) term

-- The text between two wildcards.
abbrev pub wrapped : Bytes → Bytes
wrapped inner = b'%' ∷ (inner ++ b'%' ∷ [])

-- `kept.join("%")`
unfoldable pub join_any : List Bytes → Bytes
join_any [] = []
join_any (s ∷ []) = s
join_any (s ∷ t ∷ ss) = s ++ b'%' ∷ join_any (t ∷ ss)

-- The loop of `pattern_to_pattern`: the literal runs of the pattern; `cur` is the run so far. A
-- backslash at the end drops the run before it.
unfoldable pub segments : Bytes → Bytes → List Bytes
segments cur [] = cur ∷ []
segments cur (c ∷ []) =
    if c == b'\\'
    then []
    else if c == b'_' || c == b'%'
    then cur ∷ [] ∷ []
    else if c == b'\n'
    then cur ∷ [] ∷ []
    else (cur ++ c ∷ []) ∷ []
segments cur (c ∷ d ∷ rest) =
    let escaped = segments (cur ++ d ∷ []) rest in
    let closed = segments [] (d ∷ rest) in
    let longer = segments (cur ++ c ∷ []) (d ∷ rest) in
    if c == b'\\' then escaped else if c == b'_' || c == b'%' then cur ∷ closed else longer

-- `filter(|t| t.chars().count() >= 3)`
unfoldable pub long_ones : List Bytes → List Bytes
long_ones [] = []
long_ones (s ∷ ss) = let later = long_ones ss in if leb 3 (length s) then s ∷ later else later

module _ (json_escape : Bytes → Bytes) where
  unfoldable pub value_to_pattern : Bytes → Bytes
  value_to_pattern value =
      if ltb (length value) 3 then b'%' ∷ [] else wrapped (escape_wildcards (json_escape value))

  any_text : List Bytes → Bytes
  any_text [] = b'%' ∷ []
  any_text (k ∷ ks) = wrapped (join_any (k ∷ ks))

  unfoldable pub pattern_to_pattern : Bytes → Bytes
  unfolding any_text
  pattern_to_pattern pattern =
      any_text (map (λ t. escape_wildcards (json_escape t)) (long_ones (segments [] pattern)))
