-- ===== src/Sqllex/Bounds.antt =====
-- kernel/src/sqllex.rs: an opaque region moves on, and stays within the text.
use odoo_rust_orm.Prelude.{
  ℕ, suc, ◌+◌, ◌-◌, ◌≤◌, ◌<◌, Bool, true, false, [], ◌∷◌, Option, none, some, ◌≡◌, refl, arith,
  Bytes, length, drop, length-drop, take, ◌==◌, Option-cases, ◌⊎◌, inl, inr, zero, subst, if-intro,
  ◌&&◌, ◌||◌, not,
}
use odoo_rust_orm.Sqllex.{
  Kind, Opaque, text, position, line_comment, block_comment, quoted, tag_length, window, dollar,
  dollar_body, is_newline, quote_kind, opens_escape, next_is_digit, opaque_from, opaque, is_prefix,
  next_is,
}

-- The end lies past `from` and within the text; an open region ends with the text.
pub record Within (from len : ℕ) (t : Opaque) : Type 0 where
  pub ahead : from < t.end
  pub inside : t.end ≤ len
  pub open_to_end : (t.terminated ≡ true) ⊎ (t.end ≡ len)

position-lt : (p : ℕ → Bool) (bs : Bytes) (i : ℕ) → position p bs ≡ some i → i < length bs
unfolding position
position-lt p [] i h = cc
position-lt p (b ∷ bs) i h = elim (Option-cases (position p bs)) [
  | inl e ↦ ground arith
  | inr (j, e) ↦ ground (arith, position-lt p bs j e)
]

is_prefix-le : (tag bs : Bytes) → is_prefix tag bs ≡ true → length tag ≤ length bs
unfolding is_prefix
is_prefix-le [] bs h = omega arith
is_prefix-le (a ∷ tag) [] h = cc
is_prefix-le (a ∷ tag) (b ∷ bs) h = ground (arith, is_prefix-le tag bs)

window-le : (tag bs : Bytes) (i : ℕ) → window tag bs ≡ some i → i + length tag ≤ length bs
unfolding window
window-le tag [] i h = cc
window-le tag (b ∷ bs) i h = elim (Option-cases (window tag bs)) [
  | inl e ↦ ground (arith, is_prefix-le tag (b ∷ bs))
  | inr (j, e) ↦ ground (arith, window-le tag bs j e, is_prefix-le tag (b ∷ bs))
]

line_comment-Within :
    (len start : ℕ) (body : Bytes)
    → len ≡ start + 2 + length body
    → Within start len (line_comment len start body)
unfolding line_comment
line_comment-Within len start body h = elim (Option-cases (position is_newline body)) [
  | inl e ↦ ground arith
  | inr (j, e) ↦ ground (arith, position-lt is_newline body j e)
]

block_comment-Within :
    (len depth i start : ℕ) (bs : Bytes)
    → len ≡ i + length bs
    → start < i
    → Within start len (block_comment len depth i bs)
unfolding block_comment
block_comment-Within len depth i start [] h g = ground arith
block_comment-Within len depth i start (a ∷ []) h g = ground arith
block_comment-Within len depth i start (a ∷ b ∷ bs) h g = ground (
  arith,
  block_comment-Within len (depth + 1) (i + 2) start bs,
  block_comment-Within len (depth - 1) (i + 2) start bs,
  block_comment-Within len depth (i + 1) start (b ∷ bs),
)

quoted-Within :
    (len : ℕ) (escaped : Bool) (quote : ℕ) (kind : Kind) (i start : ℕ) (bs : Bytes)
    → len ≡ i + length bs
    → start < i
    → Within start len (quoted len escaped quote kind i bs)
unfolding quoted
quoted-Within len escaped quote kind i start [] h g = ground arith
quoted-Within len escaped quote kind i start (b ∷ []) h g = ground arith
quoted-Within len escaped quote kind i start (b ∷ c ∷ bs) h g = ground (
  arith,
  quoted-Within len escaped quote kind (i + 2) start bs,
  quoted-Within len escaped quote kind (i + 1) start (c ∷ bs),
)

tag_length-le : (bs : Bytes) → tag_length bs ≤ length bs
unfolding tag_length
tag_length-le [] = omega arith
tag_length-le (b ∷ bs) = ground (arith, tag_length-le bs)

next_is-pos : (b : ℕ) (bs : Bytes) → next_is b bs ≡ true → 1 ≤ length bs
next_is-pos b [] h = cc
next_is-pos b (c ∷ bs) h = omega arith

length-take-le : (n : ℕ) (bs : Bytes) → n ≤ length bs → length (take n bs) ≡ n
length-take-le zero bs h = refl
length-take-le (suc n) [] h = absurd (omega arith)
length-take-le (suc n) (b ∷ bs) h = omega (arith, length-take-le n bs)

dollar_body-Within :
    (len start : ℕ) (bs : Bytes) (n : ℕ)
    → len ≡ start + length bs
    → n ≤ length bs
    → 1 ≤ n
    → Within start len (dollar_body len start bs n)
unfolding dollar_body
dollar_body-Within len start bs n h g pos = elim (Option-cases (window (take n bs) (drop n bs))) [
  | inl e ↦ ground arith
  | inr (j, e) ↦
      ground (arith, window-le (take n bs) (drop n bs) j e, length-take-le n bs, length-drop n bs)
]

-- What holds of the region, if there is one.
abbrev Fits : ℕ → ℕ → Option Opaque → Type 0
Fits start len none = Unit
Fits start len (some t) = Within start len t

next_is-lt : (b : ℕ) (bs : Bytes) → next_is b bs ≡ true → suc (length (drop 1 bs)) ≡ length bs
next_is-lt b [] h = cc
next_is-lt b (c ∷ bs) h = refl

and-true : (a b : Bool) → (a && b) ≡ true → (a ≡ true) × (b ≡ true)
and-true a b h = ground arith

dollar-Fits :
    (len start : ℕ) (bs : Bytes) → len ≡ start + length bs → Fits start len (dollar len start bs)
unfolding dollar
dollar-Fits len start [] h = tt
dollar-Fits len start (c ∷ bs) h =
    if-intro (Fits start len) (next_is b'$' (drop (tag_length bs) bs))
      (λ closed.
        dollar_body-Within len start (c ∷ bs) (tag_length bs + 2) h
          (omega (
            arith,
            next_is-pos b'$' (drop (tag_length bs) bs) closed,
            length-drop (tag_length bs) bs,
            tag_length-le bs,
          ))
          (omega arith))
      (λ _. tt)

opaque_from-Fits :
    (len start : ℕ) (after : Bool) (bs : Bytes)
    → len ≡ start + length bs
    → Fits start len (opaque_from len start after bs)
unfolding opaque_from
opaque_from-Fits len start after [] h = tt
opaque_from-Fits len start after (c ∷ rest) h =
    if-intro (Fits start len) (c == b'-' && next_is b'-' rest)
      (λ e.
        line_comment-Within len start (drop 1 rest)
          (omega (arith, next_is-lt b'-' rest (and-true _ _ e).1)))
      (λ _.
        if-intro (Fits start len) (c == b'/' && next_is b'*' rest)
          (λ e.
            block_comment-Within len 1 (start + 2) start (drop 1 rest)
              (omega (arith, next_is-lt b'*' rest (and-true _ _ e).1)) (omega arith))
          (λ _.
            if-intro (Fits start len) (opens_escape after c rest)
              (λ e.
                quoted-Within len true b'\'' text (start + 2) start (drop 1 rest)
                  (omega (arith, next_is-lt b'\'' rest (and-true _ _ (and-true _ _ e).0).1))
                  (omega arith))
              (λ _.
                if-intro (Fits start len) (c == b'\'' || c == b'"')
                  (λ _.
                    quoted-Within len false c (quote_kind c) (start + 1) start rest (omega arith)
                      (omega arith))
                  (λ _.
                    if-intro (Fits start len) (c == b'$' && not after && not (next_is_digit rest))
                      (λ _. dollar-Fits len start (c ∷ rest) h) (λ _. tt)))))

opaque_from-nil :
    (len start : ℕ) (after : Bool) (bs : Bytes) {t : Opaque}
    → opaque_from len start after bs ≡ some t
    → 1 ≤ length bs
unfolding opaque_from
opaque_from-nil len start after [] h = cc
opaque_from-nil len start after (c ∷ bs) h = omega arith

-- An opaque region ends past its start and within the text, so a scan that jumps to its end
-- makes progress and reads no byte past the text; a region left open ends with the text.
pub opaque-Within :
    (bytes : Bytes) (start : ℕ) {t : Opaque}
    → opaque bytes start ≡ some t
    → Within start (length bytes) t
unfolding opaque
opaque-Within bytes start h = subst (Fits start (length bytes)) h (
    opaque_from-Fits (length bytes) start _ (drop start bytes)
      (omega (arith, length-drop start bytes, opaque_from-nil _ start _ (drop start bytes) h)))
