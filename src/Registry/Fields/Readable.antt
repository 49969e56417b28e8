-- ===== src/Registry/Fields/Readable.antt =====
-- kernel/src/registry.rs: `Registry::field_readable`, which judges a field's group specification.
-- Which characters beyond ASCII are white space is a parameter.
pub mod Judged
use odoo_rust_orm.Prelude.{
  ℕ, Bool, true, false, not, ◌&&◌, ◌||◌, List, [], ◌∷◌, ◌++◌, Option, none, some, reverse, Bytes,
  codes, bytes_eq, any, all, if◌then◌else◌, ◌==◌,
}
use odoo_rust_orm.Error.{Result, ok, ◌>>=◌, ◌>>◌, refuse}
use odoo_rust_orm.Assoc.{lookup, has, member, name_key, id_key}
use odoo_rust_orm.RuleExpr.Chars.{Std, is_whitespace}
use odoo_rust_orm.RuleExpr.Parser.{split, is_empty}
use odoo_rust_orm.Registry.Fields.{Field, ensure_supported_read_access}

abbrev pub debug_group : Bytes
debug_group = codes "base.group_no_one"

module _ (std : Std) where
  trim_start : Bytes → Bytes
  trim_start [] = []
  trim_start (c ∷ cs) = let rest = trim_start cs in if is_whitespace std c then rest else c ∷ cs

  -- `str::trim`
  unfoldable pub trim : Bytes → Bytes
  unfolding trim_start
  trim s = reverse (trim_start (reverse (trim_start s)))

  -- The tokens of a specification: the groups asked for, and those that exclude.
  unfoldable pub sort_tokens : List Bytes → List Bytes × List Bytes
  unfolding trim
  sort_tokens [] = ([], [])
  sort_tokens (token ∷ tokens) =
      let rest = sort_tokens tokens in
      elim (trim token) [
        | [] ↦ rest
        | c ∷ cs ↦ if c == b'!' then (rest.0, cs ∷ rest.1) else ((c ∷ cs) ∷ rest.0, rest.1)
      ]

-- The groups of the specification that the principal holds, by their ids.
unfoldable pub held_ids : List (Bytes × ℕ) → List ℕ → List Bytes → List ℕ
held_ids group_ids user_groups [] = []
held_ids group_ids user_groups (xmlid ∷ xmlids) =
    let rest = held_ids group_ids user_groups xmlids in
    if bytes_eq xmlid debug_group then rest else elim (lookup xmlid group_ids) [
      | none ↦ rest
      | some id ↦ if member id user_groups then id ∷ rest else rest
    ]

-- The loop over the excluding groups that are held: `none` returns false.
unfoldable pub excluded : List (ℕ × List ℕ) → List ℕ → Bool → Option Bool
excluded scopes [] per_record = some per_record
excluded scopes (id ∷ ids) per_record =
    if not (has id scopes) then none else excluded scopes ids true

-- What the tokens and the limits leave: false, true, or a verdict that records have to give.
unfoldable pub judged : List (ℕ × List ℕ) → Bool → List ℕ → Option Bool → Result Bool
judged scopes asked positives none = ok false
judged scopes asked positives (some per_record) =
    if asked && is_empty positives
    then ok false
    else if per_record || (asked && all (λ id. has id scopes) positives)
    then refuse
    else ok true

unfoldable pub judge : List (ℕ × List ℕ) → Bool → List ℕ → List ℕ → Result Bool
unfolding excluded judged
judge scopes asked positives negatives =
    judged scopes asked positives (excluded scopes negatives false)

unfoldable pub by_spec : Std → List (Bytes × ℕ) → List ℕ → List (ℕ × List ℕ) → Bytes → Result Bool
unfolding sort_tokens held_ids judge
by_spec std group_ids user_groups scopes spec =
    let tokens = sort_tokens std (split b',' spec) in
    if bytes_eq spec (codes ".")
    then ok false
    else if is_empty tokens.0 && is_empty tokens.1
    then ok false
    else judge scopes (not (is_empty tokens.0)) (held_ids group_ids user_groups tokens.0)
        (held_ids group_ids user_groups tokens.1)

unfoldable pub field_readable :
    Std → List (Bytes × ℕ) → Field → List ℕ → List (ℕ × List ℕ) → Result Bool
unfolding by_spec
field_readable std group_ids f user_groups scopes =
    ensure_supported_read_access f
    >> elim f.groups [ none ↦ ok true | some spec ↦ by_spec std group_ids user_groups scopes spec ]
