-- ===== src/Trigram/Patterns.antt =====
-- kernel/src/trigram.rs: the prefilter of a pattern keeps every text that the pattern matches.
use odoo_rust_orm.Prelude.{
  ℕ, false, ◌||◌, List, [], ◌∷◌, ◌++◌, map, ◌≡◌, refl, sym, ap, ◌∙◌, arith, append_assoc, Bytes,
  length, leb, ◌==◌, if-intro, ◌⊎◌, inl, inr, subst,
}
use odoo_rust_orm.Trigram.{
  is_special, escape_wildcards, wrapped, join_any, segments, long_ones, any_text,
  pattern_to_pattern,
}
use odoo_rust_orm.Trigram.Matching.{
  Like, at_end, any_none, any_more, any_one, quoted, same, Like-escape_wildcards, Like-any,
  Like-rest,
}

-- The runs stand in the text one after the other.
data Runs : List Bytes → Bytes → Type 0 where
  no_more : {t : Bytes} → Runs [] t
  later_on :
      {s : Bytes} {ss : List Bytes} {t : Bytes} {c : ℕ} → Runs (s ∷ ss) t → Runs (s ∷ ss) (c ∷ t)
  right_here : {s : Bytes} {ss : List Bytes} {t : Bytes} → Runs ss t → Runs (s ∷ ss) (s ++ t)

Runs-later : (ss : List Bytes) (c : ℕ) (t : Bytes) → Runs ss t → Runs ss (c ∷ t)
Runs-later [] c t r = no_more
Runs-later (s ∷ ss) c t r = later_on r

Runs-behind : (ss : List Bytes) (before t : Bytes) → Runs ss t → Runs ss (before ++ t)
Runs-behind ss [] t r = r
Runs-behind ss (c ∷ before) t r = Runs-later ss c (before ++ t) (Runs-behind ss before t r)

Runs-tail : (s : Bytes) (ss : List Bytes) (t : Bytes) → Runs (s ∷ ss) t → Runs ss t
Runs-tail s ss t (later_on {t = u} {c} r) = Runs-later ss c u (Runs-tail s ss u r)
Runs-tail s ss t (right_here {t = u} r) = Runs-behind ss s u r

segments_any : (cur p : Bytes) → segments cur (b'%' ∷ p) ≡ cur ∷ segments [] p
unfolding segments
segments_any cur [] = refl
segments_any cur (d ∷ rest) = refl

segments_one : (cur p : Bytes) → segments cur (b'_' ∷ p) ≡ cur ∷ segments [] p
unfolding segments
segments_one cur [] = refl
segments_one cur (d ∷ rest) = refl

segments_quoted :
    (cur : Bytes) (c : ℕ) (p : Bytes) → segments cur (b'\\' ∷ c ∷ p) ≡ segments (cur ++ c ∷ []) p
unfolding segments
segments_quoted cur c p = refl

segments_same :
    (cur : Bytes) (c : ℕ) (p : Bytes)
    → is_special c ≡ false
    → (segments cur (c ∷ p) ≡ segments (cur ++ c ∷ []) p) ⊎ (segments cur (c ∷ p) ≡ cur ∷ [] ∷ [])
unfolding segments
segments_same cur c [] h =
    let Fits = λ (l : List Bytes). (l ≡ (cur ++ c ∷ []) ∷ []) ⊎ (l ≡ cur ∷ [] ∷ []) in
    if-intro Fits (c == b'\\') (λ e. absurd (ground arith))
      (λ e.
        if-intro Fits (c == b'_' || c == b'%') (λ f. inr refl)
          (λ f. if-intro Fits (c == b'\n') (λ g. inr refl) (λ g. inl refl)))
segments_same cur c (d ∷ rest) h =
    let Fits =
      λ (l : List Bytes). (l ≡ segments (cur ++ c ∷ []) (d ∷ rest)) ⊎ (l ≡ cur ∷ [] ∷ []) in
    if-intro Fits (c == b'\\') (λ e. absurd (ground arith))
      (λ e. if-intro Fits (c == b'_' || c == b'%') (λ f. absurd (ground arith)) (λ f. inl refl))

-- Every text that the pattern matches holds its runs, behind the run so far.
segments-Runs : (cur p t : Bytes) → Like p t → Runs (segments cur p) (cur ++ t)
segments-Runs cur p t at_end = unfold segments in right_here no_more
segments-Runs cur p t (any_none {p = q} m) =
    rw (segments_any cur q) (right_here (segments-Runs [] q t m))
segments-Runs cur p t (any_more {p = q} {t = u} {c} m) =
    let below : Runs (segments [] (b'%' ∷ q)) u = segments-Runs [] (b'%' ∷ q) u m in
    rw (segments_any cur q) (
      right_here (
        Runs-later (segments [] q) c u
          (Runs-tail [] (segments [] q) u (subst (λ l. Runs l u) (segments_any [] q) below))))
segments-Runs cur p t (any_one {p = q} {t = u} {c} m) =
    rw (segments_one cur q) (right_here (Runs-later (segments [] q) c u (segments-Runs [] q u m)))
segments-Runs cur p t (quoted {p = q} {t = u} {c} m) = rw (segments_quoted cur c q) (
    subst (Runs (segments (cur ++ c ∷ []) q)) (append_assoc cur (c ∷ []) u)
      (segments-Runs (cur ++ c ∷ []) q u m))
segments-Runs cur p t (same {p = q} {t = u} {c} plain m) = elim (segments_same cur c q plain) [
  | inl e ↦ rw e (
      subst (Runs (segments (cur ++ c ∷ []) q)) (append_assoc cur (c ∷ []) u)
        (segments-Runs (cur ++ c ∷ []) q u m))
  | inr e ↦ rw e (right_here (right_here no_more))
]

Runs-keep :
    (s : Bytes) (ss ks : List Bytes) (t : Bytes)
    → ((u : Bytes) → Runs ss u → Runs ks u)
    → Runs (s ∷ ss) t
    → Runs (s ∷ ks) t
Runs-keep s ss ks t f (later_on {t = u} r) = later_on (Runs-keep s ss ks u f r)
Runs-keep s ss ks t f (right_here {t = u} r) = right_here (f u r)

long_ones-Runs : (ss : List Bytes) (t : Bytes) → Runs ss t → Runs (long_ones ss) t
unfolding long_ones
long_ones-Runs [] t r = no_more
long_ones-Runs (s ∷ ss) t r =
    if-intro (λ ks. Runs ks t) (leb 3 (length s))
      (λ long. Runs-keep s ss (long_ones ss) t (long_ones-Runs ss) r)
      (λ short. long_ones-Runs ss t (Runs-tail s ss t r))

module _ (json_escape : Bytes → Bytes)
    (escape-append : (a b : Bytes) → json_escape (a ++ b) ≡ json_escape a ++ json_escape b) where
  abbrev escaped : Bytes → Bytes
  escaped s = escape_wildcards (json_escape s)

  at_once :
      (a b after : Bytes)
      → json_escape (a ++ b) ++ after ≡ json_escape a ++ (json_escape b ++ after)
  at_once a b after =
      ap (λ l. l ++ after) (escape-append a b) ∙ append_assoc (json_escape a) (json_escape b) after

  Like-Runs :
      (k : Bytes) (ks : List Bytes) (t after : Bytes)
      → Runs (k ∷ ks) t
      → Like (wrapped (join_any (map escaped (k ∷ ks)))) (json_escape t ++ after)
  unfolding join_any
  Like-Runs k ks t after (later_on {t = u} {c} r) =
      subst (Like (wrapped (join_any (map escaped (k ∷ ks))))) (sym (at_once (c ∷ []) u after))
        (Like-any (json_escape (c ∷ [])) (Like-Runs k ks u after r))
  Like-Runs k [] t after (right_here {t = u} r) =
      subst (Like (wrapped (escaped k))) (sym (at_once k u after))
        (any_none (Like-escape_wildcards (json_escape k) (Like-rest (json_escape u ++ after))))
  Like-Runs k (l ∷ ks) t after (right_here {t = u} r) =
      subst (Like (wrapped (join_any (map escaped (k ∷ l ∷ ks))))) (sym (at_once k u after)) (
        any_none (
          subst (λ p. Like p (json_escape k ++ (json_escape u ++ after)))
            (sym (append_assoc (escaped k) (b'%' ∷ join_any (map escaped (l ∷ ks))) (b'%' ∷ [])))
            (Like-escape_wildcards (json_escape k) (Like-Runs l ks u after r))))

  any_text-Like :
      (ks : List Bytes) (t before after : Bytes)
      → Runs ks t
      → Like (any_text json_escape (map escaped ks)) (before ++ (json_escape t ++ after))
  unfolding any_text
  any_text-Like [] t before after r = Like-rest (before ++ (json_escape t ++ after))
  any_text-Like (k ∷ ks) t before after r = Like-any before (Like-Runs k ks t after r)

  -- A stored text that a pattern matches passes the prefilter of the pattern, as JSON writes the text
  -- and whatever stands around it, provided that JSON writes a text piece by piece.
  pub pattern_to_pattern-Like :
      (pattern text before after : Bytes)
      → Like pattern text
      → Like (pattern_to_pattern json_escape pattern) (before ++ (json_escape text ++ after))
  unfolding pattern_to_pattern
  pattern_to_pattern-Like pattern text before after matches =
      any_text-Like (long_ones (segments [] pattern)) text before after
        (long_ones-Runs (segments [] pattern) text (segments-Runs [] pattern text matches))
