-- ===== src/Cursor/Placeholders.antt =====
-- engine-py/src/cursor.rs: what `translate_placeholders` makes of a text, piece by piece.
use odoo_rust_orm.Prelude.{
  ℕ, zero, suc, ◌+◌, true, false, not, List, [], ◌∷◌, ◌++◌, none, ◌≡◌, refl, sym, ap, ap₂, ◌∙◌,
  arith, append_assoc, append-nil, Bytes, codes, replicate, all, ◌==◌, if◌then◌else◌, if-intro,
  subst,
}
use odoo_rust_orm.Decimal.{decimal}
use odoo_rust_orm.Sqllex.Quoting.{replace}
use odoo_rust_orm.Cursor.{
  Emission, counted, pushed, translate_round, translate_from, translate_placeholders,
}

abbrev pub prefixed : Bytes → ℕ → Bytes × List Bytes → Bytes × List Bytes
prefixed text k later = (text ++ later.0, replicate k [] ++ later.1)

-- Whatever follows, the piece becomes `text` of the number of placeholders before it, and pushes `k`
-- positional placeholders.
abbrev pub Spells : Bytes → (ℕ → Bytes) → ℕ → Type 0
Spells piece text k =
    (n : ℕ) (rest : Bytes)
    → translate_from 0 n (piece ++ rest) ≡ prefixed (text n) k (translate_from 0 (n + k) rest)

suc_of : (k l : ℕ) → suc (k + l) ≡ suc k + l
suc_of k l = omega arith

replicate-append :
    (k l : ℕ) (ls : List Bytes)
    → replicate k [] ++ (replicate l [] ++ ls) ≡ replicate (k + l) [] ++ ls
replicate-append zero l ls = ap (λ m. replicate m [] ++ ls) (omega arith)
replicate-append (suc k) l ls =
    ap (◌∷◌ []) (replicate-append k l ls) ∙ ap (λ m. replicate m [] ++ ls) (suc_of k l)

pub Spells-append :
    (a b : Bytes) (f g : ℕ → Bytes) (k l : ℕ)
    → Spells a f k
    → Spells b g l
    → Spells (a ++ b) (λ n. f n ++ g (n + k)) (k + l)
Spells-append a b f g k l first second n rest =
    ap (translate_from 0 n) (append_assoc a b rest)
    ∙ first n (b ++ rest)
    ∙ ap (prefixed (f n) k) (second (n + k) rest)
    ∙ ap₂ (λ as_ bs. (as_, bs)) (sym (append_assoc (f n) (g (n + k)) _)) (replicate-append k l _)
    ∙ ap (λ m. prefixed (f n ++ g (n + k)) (k + l) (translate_from 0 m rest)) (omega arith)

-- No placeholder stands before it: the count is unchanged.
same_count : (n : ℕ) (rest : Bytes) → translate_from 0 n rest ≡ translate_from 0 (n + 0) rest
same_count n rest = ap (λ m. translate_from 0 m rest) (omega arith)

pub Spells-nil : Spells [] (λ n. []) 0
Spells-nil n rest = same_count n rest

translate_from-round :
    (n c : ℕ) (rest : Bytes) {r : Emission}
    → translate_round n c rest ≡ r
    → translate_from 0 n (c ∷ rest) ≡ (
      r.emit ++ (translate_from r.skip (counted r.name n) rest).0,
      pushed r.name ++ (translate_from r.skip (counted r.name n) rest).1,
    )
unfolding translate_from
translate_from-round n c rest h =
    ap
      (λ r. (
        r.emit ++ (translate_from r.skip (counted r.name n) rest).0,
        pushed r.name ++ (translate_from r.skip (counted r.name n) rest).1,
      ))
      h

translate_round-other :
    (n c : ℕ) (rest : Bytes)
    → (c == b'%') ≡ false
    → translate_round n c rest ≡ record { emit = c ∷ []; name = none; skip = 0 }
unfolding translate_round
translate_round-other n c [] h = refl
translate_round-other n c (d ∷ rest) h = rw h

pub Spells-byte : (c : ℕ) → (c == b'%') ≡ false → Spells (c ∷ []) (λ n. c ∷ []) 0
Spells-byte c h n rest =
    translate_from-round n c rest (translate_round-other n c rest h)
    ∙ ap (prefixed (c ∷ []) 0) (same_count n rest)

pub Spells-percent : Spells (b'%' ∷ b'%' ∷ []) (λ n. b'%' ∷ []) 0
unfolding translate_from translate_round
Spells-percent n rest = ap (prefixed (b'%' ∷ []) 0) (same_count n rest)

pub Spells-placeholder : Spells (codes "%s") (λ n. b'$' ∷ decimal (n + 1)) 1
unfolding translate_from translate_round
Spells-placeholder n rest = refl

-- A text without `%` is passed on.
pub Spells-plain : (bs : Bytes) → all (λ b. not (b == b'%')) bs ≡ true → Spells bs (λ n. bs) 0
Spells-plain [] h = Spells-nil
Spells-plain (b ∷ bs) h =
    Spells-append (b ∷ []) bs (λ n. b ∷ []) (λ n. bs) 0 0 (Spells-byte b (ground arith))
      (Spells-plain bs (ground arith))

Spells-doubled : (b : ℕ) → Spells (if b == b'%' then b'%' ∷ b'%' ∷ [] else b ∷ []) (λ n. b ∷ []) 0
Spells-doubled b =
    if-intro (λ u. Spells u (λ n. b ∷ []) 0) (b == b'%')
      (λ e. subst (λ c. Spells (b'%' ∷ b'%' ∷ []) (λ n. c ∷ []) 0) (ground arith) Spells-percent)
      (λ e. Spells-byte b e)

-- Doubled percent signs are undone, in any text.
pub Spells-replace : (bs : Bytes) → Spells (replace b'%' (b'%' ∷ b'%' ∷ []) bs) (λ n. bs) 0
unfolding replace
Spells-replace [] = Spells-nil
Spells-replace (b ∷ bs) =
    Spells-append _ _ (λ n. b ∷ []) (λ n. bs) 0 0 (Spells-doubled b) (Spells-replace bs)

-- At the end of a text nothing follows.
pub Spells-all :
    (sql : Bytes) (text : ℕ → Bytes) (k : ℕ)
    → Spells sql text k
    → translate_placeholders sql ≡ (text 0, replicate k [])
unfolding translate_placeholders translate_from
Spells-all sql text k h =
    ap (translate_from 0 0) (sym (append-nil sql))
    ∙ h 0 []
    ∙ ap₂ (λ a b. (a, b)) (append-nil (text 0)) (append-nil (replicate k []))
