-- ===== src/Trigram/Matching.antt =====
-- kernel/src/trigram.rs: a prefilter keeps every text that its search would match.
use odoo_rust_orm.Prelude.{
  ℕ, false, [], ◌∷◌, ◌++◌, ◌≡◌, append-nil, Bytes, length, ltb, if-intro, subst,
}
use odoo_rust_orm.Trigram.{is_special, escape_wildcards, value_to_pattern}

-- PostgreSQL's `LIKE`.
pub data Like : Bytes → Bytes → Type 0 where
  at_end : Like [] []
  any_none : {p t : Bytes} → Like p t → Like (b'%' ∷ p) t
  any_more : {p t : Bytes} {c : ℕ} → Like (b'%' ∷ p) t → Like (b'%' ∷ p) (c ∷ t)
  any_one : {p t : Bytes} {c : ℕ} → Like p t → Like (b'_' ∷ p) (c ∷ t)
  quoted : {p t : Bytes} {c : ℕ} → Like p t → Like (b'\\' ∷ c ∷ p) (c ∷ t)
  same : {p t : Bytes} {c : ℕ} → is_special c ≡ false → Like p t → Like (c ∷ p) (c ∷ t)

-- Escaped, a text matches itself.
pub Like-escape_wildcards :
    (s : Bytes) {p t : Bytes} → Like p t → Like (escape_wildcards s ++ p) (s ++ t)
unfolding escape_wildcards
Like-escape_wildcards [] m = m
Like-escape_wildcards (c ∷ s) {p} {t} m =
    if-intro (λ e. Like (e ++ p) (c ∷ (s ++ t))) (is_special c)
      (λ special. quoted (Like-escape_wildcards s m))
      (λ plain. same plain (Like-escape_wildcards s m))

pub Like-any : (t : Bytes) {p u : Bytes} → Like (b'%' ∷ p) u → Like (b'%' ∷ p) (t ++ u)
Like-any [] m = m
Like-any (c ∷ t) m = any_more (Like-any t m)

pub Like-rest : (t : Bytes) → Like (b'%' ∷ []) t
Like-rest t = subst (Like (b'%' ∷ [])) (append-nil t) (Like-any t (any_none at_end))

-- Every stored text that holds the value as JSON writes it passes the prefilter of the value.
pub value_to_pattern-Like :
    (json_escape : Bytes → Bytes) (before value after : Bytes)
    → Like (value_to_pattern json_escape value) (before ++ (json_escape value ++ after))
unfolding value_to_pattern
value_to_pattern-Like json_escape before value after =
    if-intro (λ p. Like p (before ++ (json_escape value ++ after))) (ltb (length value) 3)
      (λ short. Like-rest (before ++ (json_escape value ++ after)))
      (λ long.
        Like-any before (any_none (Like-escape_wildcards (json_escape value) (Like-rest after))))
