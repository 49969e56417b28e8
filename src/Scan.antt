-- ===== src/Scan.antt =====
-- The loop that the text scanners share: `while i < bytes.len() { … i = j; }`. It is a recursion on
-- the bytes from `i` on; a round that ends at `j` passes over the bytes up to there.
use native.Mathlib.Nat.{suc-add}
use odoo_rust_orm.Prelude.{
  ℕ, zero, suc, ◌+◌, ◌-◌, ◌≤◌, ◌<◌, [], ◌∷◌, ◌≡◌, refl, sym, ap, ◌∙◌, arith, Bytes, length, drop,
  length-drop, subst,
}
use odoo_rust_orm.Error.{Result, ok, ◌>>=◌, >>=-eq-ok, ok-injective}

-- A round is given `i` and the bytes from there on, at least one; it gives the next `i`.
abbrev pub Round : Type 0 → Type 0
Round S = ℕ → Bytes → S → Result (ℕ × S)

-- A round moves on within the text, and keeps an invariant of the position and the state.
abbrev pub Keeps {κ} : {S : Type 0} → (ℕ → S → Type κ) → Bytes → Round S → Type κ
Keeps {S} P bytes round =
    (i c : ℕ) (rest : Bytes) (s : S) (j : ℕ) (t : S)
    → drop i bytes ≡ c ∷ rest
    → P i s
    → round i (c ∷ rest) s ≡ ok (j, t)
    → (i < j) × (j ≤ length bytes) × P j t

drop-nil : (k : ℕ) → drop {A = ℕ} k [] ≡ []
drop-nil zero = refl
drop-nil (suc k) = refl

pub drop-drop : (m n : ℕ) (bs : Bytes) → drop m (drop n bs) ≡ drop (n + m) bs
drop-drop m zero bs = ap (λ k. drop k bs) (omega arith)
drop-drop m (suc n) [] = drop-nil m ∙ sym (drop-nil (suc n + m))
drop-drop m (suc n) (b ∷ bs) = drop-drop m n bs ∙ rw suc-add

module _ {S : Type 0} where
  unfoldable pub scan_from : Round S → ℕ → ℕ → Bytes → S → Result S
  scan_from round skip i [] s = ok s
  scan_from round (suc skip) i (c ∷ rest) s = scan_from round skip (i + 1) rest s
  scan_from round zero i (c ∷ rest) s = do
    r ← round i (c ∷ rest) s
    scan_from round (r.0 - i - 1) (i + 1) rest r.1

  unfoldable pub scan : Round S → Bytes → S → Result S
  scan round bytes s = scan_from round 0 0 bytes s

  -- Passing over bytes is starting behind them.
  scan_from-skip :
      (round : Round S) (k i : ℕ) (rest : Bytes) (s : S)
      → scan_from round k i rest s ≡ scan_from round 0 (i + k) (drop k rest) s
  unfolding scan_from
  scan_from-skip round zero i rest s = ap (λ j. scan_from round 0 j rest s) (omega arith)
  scan_from-skip round (suc k) i [] s = refl
  scan_from-skip round (suc k) i (c ∷ rest) s =
      scan_from-skip round k (i + 1) rest s
      ∙ ap (λ j. scan_from round 0 j (drop k rest) s) (omega arith)

  module _ {κ} (P : ℕ → S → Type κ) (bytes : Bytes) (round : Round S)
      (keeps : Keeps P bytes round) where
    jump :
        (i j c : ℕ) (rest : Bytes) (t : S)
        → drop i bytes ≡ c ∷ rest
        → i < j
        → scan_from round (j - i - 1) (i + 1) rest t ≡ scan_from round 0 j (drop j bytes) t
    jump i j c rest t h lt =
        scan_from-skip round (j - i - 1) (i + 1) rest t
        ∙ ap (λ n. scan_from round 0 n (drop (j - i - 1) rest) t) (omega arith)
        ∙ ap (λ l. scan_from round 0 j (drop (j - i - 1) (drop 1 l)) t) (sym h)
        ∙ ap (λ l. scan_from round 0 j l t)
            (ap (drop (j - i - 1)) (drop-drop 1 i bytes)
              ∙ drop-drop (j - i - 1) (i + 1) bytes
              ∙ ap (λ n. drop n bytes) (omega arith))

    scan_from-inv :
        (n i : ℕ) (rest : Bytes) (s t : S)
        → drop i bytes ≡ rest
        → i ≤ length bytes
        → length rest ≤ n
        → P i s
        → scan_from round 0 i rest s ≡ ok t
        → P (length bytes) t
    unfolding scan_from
    scan_from-inv n i [] s t d le small p h =
        subst (λ k. P k t) (omega (arith, length-drop i bytes, ap length d))
          (subst (P i) (ok-injective h) p)
    scan_from-inv zero i (c ∷ rest) s t d le small p h = absurd (omega arith)
    scan_from-inv (suc n) i (c ∷ rest) s t d le small p h =
        let (r, now, later) = >>=-eq-ok (round i (c ∷ rest) s) _ h in
        let (lt, le', p') = keeps i c rest s r.0 r.1 d p now in
        scan_from-inv n r.0 (drop r.0 bytes) r.1 t refl le'
          (omega (arith, length-drop r.0 bytes, length-drop i bytes, ap length d)) p'
          (sym (jump i r.0 c rest r.1 d lt) ∙ later)

    -- An invariant that each round keeps holds at the end of the text.
    pub scan-inv : (s t : S) → P 0 s → scan round bytes s ≡ ok t → P (length bytes) t
    unfolding scan
    scan-inv s t p h = scan_from-inv (length bytes) 0 bytes s t refl (omega arith) (omega arith) p h
