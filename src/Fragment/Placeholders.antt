-- ===== src/Fragment/Placeholders.antt =====
-- kernel/src/fragment.rs: the dollar signs of a rewritten comparand are those of its parameters.
use odoo_rust_orm.Prelude.{
  ℕ, zero, suc, ◌+◌, ◌-◌, ◌≤◌, ◌<◌, true, not, List, [], ◌∷◌, ◌++◌, Option, some, map, ◌≡◌, refl,
  ap, ◌∙◌, arith, Bytes, codes, bytes_eq, bytes_eq_iff, length, length-map, length-drop, get_elem?,
  take, all, ◌==◌, if◌then◌else◌, option-intro, if-intro,
}
use odoo_rust_orm.Error.{
  ok, ◌>>=◌, >>=-eq-ok, refuse, Each, Each-ok, Each-then, Each-intro, Each-step,
}
use odoo_rust_orm.Json.{Json, object, Fields, string}
use odoo_rust_orm.Sqllex.{Kind, text, identifier, dollar_string, comment, Opaque, opaque, is_digit}
use odoo_rust_orm.Sqllex.Bounds.{Within, opaque-Within}
use odoo_rust_orm.Scan.{Keeps, scan, scan-inv}
use odoo_rust_orm.Decimal.{decimal, decimal-is_digit}
use odoo_rust_orm.Fragment.{
  Value, ArrayType, cast, get_field, unescape, Rewriting, push, region, placeholder, percent, bare,
  rewrite_round, rewrite, params_json, params_of, string_of, bind_fragment, subselect,
}

-- How many dollar signs a text holds.
unfoldable pub dollars : Bytes → ℕ
dollars [] = 0
dollars (b ∷ bs) = if b == b'$' then suc (dollars bs) else dollars bs

dollars-append : (a b : Bytes) → dollars (a ++ b) ≡ dollars a + dollars b
unfolding dollars
dollars-append [] b = omega arith
dollars-append (x ∷ a) b = ground (arith, dollars-append a b)

dollars_digits : (bs : Bytes) → all (λ b. is_digit b) bs ≡ true → dollars bs ≡ 0
unfolding dollars
dollars_digits [] h = refl
dollars_digits (b ∷ bs) h = ground (arith, dollars_digits bs)

dollars-decimal : (n : ℕ) → dollars (decimal n) ≡ 0
dollars-decimal n = dollars_digits (decimal n) (decimal-is_digit n)

dollars-cast : (v : Value) → dollars (cast v) ≡ 0
unfolding dollars cast
dollars-cast v = ground arith

abbrev NoDollars : Bytes → Type 0
NoDollars out = dollars out ≡ 0

dollars-unescape : (bs : Bytes) → Each (λ out. dollars out ≡ 0) (unescape bs)
unfolding dollars unescape
dollars-unescape [] = refl
dollars-unescape (c ∷ []) =
    if-intro (Each NoDollars) (c == b'%') (λ e. tt)
      (λ e. if-intro (Each NoDollars) (c == b'$') (λ f. tt) (λ f. rw f))
dollars-unescape (c ∷ d ∷ rest) =
    if-intro (Each NoDollars) (c == b'%')
      (λ e.
        if-intro (Each NoDollars) (d == b'%')
          (λ f.
            Each-then NoDollars NoDollars (unescape rest) _ (dollars-unescape rest)
              (λ out none. none))
          (λ f. tt))
      (λ e.
        if-intro (Each NoDollars) (c == b'$') (λ f. tt)
          (λ f.
            Each-then NoDollars NoDollars (unescape (d ∷ rest)) _ (dollars-unescape (d ∷ rest))
              (λ out none. rw f none)))

module _ (code : Bytes) (values : List Value) where
  abbrev Counted : ℕ → Rewriting → Type 0
  Counted i s = dollars s.out ≡ s.used

  abbrev Moves : ℕ → ℕ × Rewriting → Type 0
  Moves i r = (i < r.0) × (r.0 ≤ length code) × Counted r.0 r.1

  push-Counted :
      (more : Bytes) (s : Rewriting)
      → dollars more ≡ 0
      → dollars s.out ≡ s.used
      → dollars (push more s).out ≡ (push more s).used
  unfolding push
  push-Counted more s h p = omega (arith, dollars-append s.out more, h, p)

  cast-at :
      (vs : List Value) (k : ℕ) {kind : Bytes}
      → get_elem? (map cast vs) k ≡ some kind
      → dollars kind ≡ 0
  cast-at [] k h = cc
  cast-at (v ∷ vs) zero h = ground (arith, dollars-cast v)
  cast-at (v ∷ vs) (suc k) h = cast-at vs k h

  region-Moves :
      (i : ℕ) (from_i : Bytes) (token : Opaque) (s : Rewriting)
      → Within i (length code) token
      → Counted i s
      → Each (Moves i) (region i from_i token s)
  unfolding region
  region-Moves i from_i token s within p =
      if-intro (Each (Moves i)) (not token.terminated) (λ e. tt) (λ e. by_kind token.kind)
    where
      inside : (more : Bytes) → dollars more ≡ 0 → Moves i (token.end, push more s)
      inside more h = (within.ahead, within.inside, push-Counted more s h p)

      unescaped :
          Each
            (Moves i)
            (unescape (take (token.end - i) from_i) >>= λ out. ok (token.end, push out s))
      unescaped =
          Each-then NoDollars (Moves i) (unescape (take (token.end - i) from_i)) _
            (dollars-unescape _) inside

      by_kind :
          (k : Kind)
          → Each (Moves i) (elim k [
            | comment ↦ ok (token.end, push (b' ' ∷ []) s)
            | dollar_string ↦ refuse
            | text ↦ unescape (take (token.end - i) from_i) >>= λ out. ok (token.end, push out s)
            | identifier ↦
                unescape (take (token.end - i) from_i) >>= λ out. ok (token.end, push out s)
          ])
      by_kind comment = inside (b' ' ∷ []) (unfold dollars in refl)
      by_kind dollar_string = tt
      by_kind text = unescaped
      by_kind identifier = unescaped

  placeholder-Moves :
      (i : ℕ) (s : Rewriting)
      → i + 2 ≤ length code
      → Counted i s
      → Each (Moves i) (placeholder (map cast values) i s)
  unfolding placeholder dollars
  placeholder-Moves i s le p =
      option-intro (Each (Moves i)) (get_elem? (map cast values) s.used) (λ e. tt)
        (λ kind e. (omega arith, le, counted kind (cast-at values s.used e)))
    where
      printed :
          (kind : Bytes)
          → dollars kind ≡ 0
          → dollars (decimal (s.used + 1) ++ codes "::" ++ kind) ≡ 0
      printed kind h = omega (
        arith,
        dollars-append (decimal (s.used + 1) ++ codes "::") kind,
        dollars-append (decimal (s.used + 1)) (codes "::"),
        dollars-decimal (s.used + 1),
        h,
      )

      counted :
          (kind : Bytes)
          → dollars kind ≡ 0
          → dollars (s.out ++ b'$' ∷ (decimal (s.used + 1) ++ codes "::" ++ kind)) ≡ s.used + 1
      counted kind h = omega (
        arith,
        dollars-append s.out (b'$' ∷ (decimal (s.used + 1) ++ codes "::" ++ kind)),
        printed kind h,
        p,
      )

  bare-Moves :
      (i c : ℕ) (rest : Bytes) (s : Rewriting)
      → i + length (c ∷ rest) ≤ length code
      → Counted i s
      → Each (Moves i) (bare (map cast values) i c rest s)
  unfolding bare percent dollars
  bare-Moves i c rest s le p =
      if-intro (Each (Moves i)) (c == b'%') (λ e. behind rest le)
        (λ e.
          if-intro (Each (Moves i)) (c == b'$') (λ f. tt)
            (λ f.
              if-intro (Each (Moves i)) (c == b';') (λ g. tt)
                (λ g. (omega arith, omega arith, push-Counted (c ∷ []) s (rw f) p))))
    where
      behind :
          (rest : Bytes)
          → i + length (c ∷ rest) ≤ length code
          → Each (Moves i) (percent (map cast values) i rest s)
      behind [] le = tt
      behind (d ∷ rest) le =
          if-intro (Each (Moves i)) (d == b'%')
            (λ e. (omega arith, omega arith, push-Counted (b'%' ∷ []) s refl p))
            (λ e.
              if-intro (Each (Moves i)) (d == b's') (λ f. placeholder-Moves i s (omega arith) p)
                (λ f. tt))

  rewrite_round-Moves :
      (i c : ℕ) (rest : Bytes) (s : Rewriting)
      → i + length (c ∷ rest) ≤ length code
      → Counted i s
      → Each (Moves i) (rewrite_round code (map cast values) i (c ∷ rest) s)
  unfolding rewrite_round
  rewrite_round-Moves i c rest s le p =
      option-intro (Each (Moves i)) (opaque code i) (λ e. bare-Moves i c rest s le p)
        (λ token e. region-Moves i (c ∷ rest) token s (opaque-Within code i e) p)

  rewrite_round-Keeps : Keeps Counted code (rewrite_round code (map cast values))
  rewrite_round-Keeps i c rest s j t d p h =
      Each-ok (Moves i)
        (rewrite_round-Moves i c rest s (omega (arith, length-drop i code, ap length d)) p) h

  length_matched :
      (s : Rewriting)
      → Counted (length code) s
      → Each
          (λ out. dollars out ≡ length values)
          (if s.used == length (map cast values) then ok s.out else refuse)
  length_matched s counted =
      if-intro (Each (λ out. dollars out ≡ length values)) (s.used == length (map cast values))
        (λ e. ground (arith, length-map cast values)) (λ e. tt)

  -- An accepted comparand has as many dollar signs as parameters: each is a placeholder's, and no
  -- text of the comparand's own can name a parameter.
  pub rewrite-dollars :
      {out : Bytes} → rewrite code (map cast values) ≡ ok out → dollars out ≡ length values
  unfolding rewrite
  rewrite-dollars h =
      let (s, scanned, matched) =
        >>=-eq-ok (scan (rewrite_round code (map cast values)) code _) _ h in
      let counted =
        scan-inv Counted code (rewrite_round code (map cast values)) rewrite_round-Keeps
          (record { out = []; used = 0 }) s (unfold dollars in refl) scanned in
      Each-ok (λ out. dollars out ≡ length values) (length_matched s counted) matched

string_of-some : (o : Option Json) (s : Bytes) → string_of o ≡ some s → o ≡ some (string s)
string_of-some o s h = ground arith

abbrev Bound : Bytes × List Value → Type 0
Bound r = dollars r.0 ≡ length r.1

dollars-wrap : (sql : Bytes) → dollars (codes "(" ++ sql ++ codes ")") ≡ dollars sql
unfolding dollars
dollars-wrap sql = omega (arith, dollars-append sql (codes ")"))

bind_code-Bound :
    (array_type : Value → ArrayType) (fields : Fields) (code : Bytes)
    → Each Bound (do
      items ← params_json (get_field (codes "$params") fields)
      values ← params_of array_type items
      sql ← rewrite code (map cast values)
      ok (codes "(" ++ sql ++ codes ")", values))
bind_code-Bound array_type fields code =
    Each-step Bound (params_json (get_field (codes "$params") fields)) _ λ items.
      Each-step Bound (params_of array_type items) _ λ values.
        Each-then (λ sql. dollars sql ≡ length values) Bound (rewrite code (map cast values)) _
          (Each-intro (rewrite code (map cast values)) (λ sql h. rewrite-dollars code values h))
          (λ sql h. dollars-wrap sql ∙ h)

bind_fragment-Bound :
    (array_type : Value → ArrayType) (fields : Fields)
    → Each Bound (bind_fragment array_type fields)
unfolding bind_fragment
bind_fragment-Bound array_type fields =
    option-intro (Each Bound) (string_of (get_field (codes "$sql") fields)) (λ e. tt)
      (λ code e. bind_code-Bound array_type fields code)

-- A comparand is compiled only with the request's own nonce, and binds as many parameters as its
-- text has dollar signs.
pub subselect_lem :
    (array_type : Value → ArrayType) (value : Json) (nonce : Option Bytes) {sql : Bytes}
    {values : List Value}
    → subselect array_type value nonce ≡ ok (sql, values)
    → (expected : Bytes) × (fields : Fields) × (nonce ≡ some expected)
      × (value ≡ object fields)
      × (get_field (codes "$nonce") fields ≡ some (string expected))
      × (dollars sql ≡ length values)
unfolding subselect
subselect_lem array_type (object fields) (some expected) h =
    let found =
      Each-ok _
        (option-intro
          (Each (λ r. (get_field (codes "$nonce") fields ≡ some (string expected)) × Bound r))
          (string_of (get_field (codes "$nonce") fields)) (λ e. tt)
          (λ nonce e.
            if-intro
              (Each (λ r. (get_field (codes "$nonce") fields ≡ some (string expected)) × Bound r))
              (bytes_eq nonce expected)
              (λ same. Each-intro (bind_fragment array_type fields) (λ r bound. (
                string_of-some (get_field (codes "$nonce") fields) expected
                    (e ∙ ap some ((bytes_eq_iff nonce expected).0 same)),
                Each-ok Bound (bind_fragment-Bound array_type fields) bound,
              )))
              (λ other. tt)))
        h in
    (expected, fields, refl, refl, found.0, found.1)
subselect_lem array_type _ _ h = cc
