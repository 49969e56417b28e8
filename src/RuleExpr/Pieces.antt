-- ===== src/RuleExpr/Pieces.antt =====
-- The pieces of a written expression, which the reader of kernel/src/security.rs takes back.
use odoo_rust_orm.Prelude.{
  ℕ, zero, suc, ◌+◌, ◌*◌, ◌/◌, ◌%◌, ◌<◌, ◌≡◌, refl, sym, ap, ◌∙◌, Bool, true, false, not, ◌||◌, [],
  ◌∷◌, ◌++◌, Bytes, all, flat_map, ◌==◌, Bool-cases, if-intro, inl, inr, arith, some, append_assoc,
  subst,
}
use odoo_rust_orm.Sqllex.{is_digit, is_alpha}
use odoo_rust_orm.Decimal.{decimal, decimal_loop, decimal-is_digit}
use odoo_rust_orm.Error.{ok}
use odoo_rust_orm.RuleExpr.Chars.{
  Std, skip_ws, take_word, take_number, digits_value, take_string, prepend, escaped, is_whitespace,
}
use odoo_rust_orm.RuleExpr.Printer.{escape, is_letter}

-- What stands behind a written expression.
abbrev pub stops : Bytes → Bool
stops [] = true
stops (c ∷ _) = c == b',' || c == b'+' || c == b')' || c == b']'

take_string-plain :
    (c : ℕ) (cs : Bytes)
    → (c == b'\\') ≡ false
    → (c == b'\'') ≡ false
    → take_string b'\'' (c ∷ cs) ≡ prepend c (take_string b'\'' cs)
unfolding take_string
take_string-plain c [] p q = rw (p, q)
take_string-plain c (d ∷ cs) p q = rw (p, q)

-- A piece that the loop takes for one character.
abbrev Taken : ℕ → Bytes → Bytes → Type 0
Taken c more piece = take_string b'\'' (piece ++ more) ≡ prepend c (take_string b'\'' more)

take_string-backslash :
    (c y : ℕ) (cs : Bytes)
    → escaped y ≡ some c
    → take_string b'\'' (b'\\' ∷ y ∷ cs) ≡ prepend c (take_string b'\'' cs)
unfolding take_string
take_string-backslash c y cs e = rw e

escaped-eq : (c : ℕ) → (c == b'\\' || c == b'\'') ≡ true → escaped c ≡ some c
escaped-eq c h = ground arith

-- What a character is written as is taken for that character.
take_escape : (c : ℕ) (more : Bytes) → Taken c more (escape c)
take_escape c more =
    if-intro (Taken c more) (c == b'\\' || c == b'\'')
      (λ e. take_string-backslash c c more (escaped-eq c e))
      (λ e.
        if-intro (Taken c more) (c == b'\n') (λ f. take_letter b'\n' b'n' f refl)
          (λ f.
            if-intro (Taken c more) (c == b'\t') (λ g. take_letter b'\t' b't' g refl)
              (λ g.
                if-intro (Taken c more) (c == b'\r') (λ h. take_letter b'\r' b'r' h refl)
                  (λ h. take_string-plain c more (ground arith) (ground arith)))))
  where
    take_letter : (d y : ℕ) → (c == d) ≡ true → escaped y ≡ some d → Taken c more (b'\\' ∷ y ∷ [])
    take_letter d y same e =
        subst (λ x. Taken x more (b'\\' ∷ y ∷ [])) (ground arith) (take_string-backslash d y more e)

pub take_string-escape :
    (s rest : Bytes) → take_string b'\'' (flat_map escape s ++ b'\'' ∷ rest) ≡ ok (s, rest)
take_string-escape [] [] = unfold take_string in refl
take_string-escape [] (x ∷ rest) = unfold take_string in refl
take_string-escape (c ∷ s) rest =
    ap (take_string b'\'') (append_assoc (escape c) (flat_map escape s) (b'\'' ∷ rest))
    ∙ take_escape c (flat_map escape s ++ b'\'' ∷ rest)
    ∙ ap (prepend c) (take_string-escape s rest)

digits_value-digit :
    (a n : ℕ) (cs : Bytes)
    → digits_value a ((b'0' + n % 10) ∷ cs) ≡ digits_value (a * 10 + n % 10) cs
unfolding digits_value
digits_value-digit a n cs =
    let digit : is_digit (b'0' + n % 10) ≡ true = ground arith in
    rw digit (ap (λ k. digits_value k cs) (omega arith))

digits_value-decimal_loop :
    (fuel n : ℕ) (printed : Bytes)
    → n < fuel
    → digits_value 0 (decimal_loop fuel n printed) ≡ digits_value n printed
unfolding decimal_loop
digits_value-decimal_loop zero n printed h = absurd (omega arith)
digits_value-decimal_loop (suc fuel) n printed h = elim (Bool-cases (n / 10 == 0)) [
  | inl e ↦ rw e (digits_value-digit 0 n printed ∙ ap (λ k. digits_value k printed) (ground arith))
  | inr e ↦ rw e (
      digits_value-decimal_loop fuel (n / 10) _ (ground arith)
      ∙ digits_value-digit (n / 10) n printed
      ∙ ap (λ k. digits_value k printed) (omega arith))
]

-- A number as it is written has the value it had.
pub digits_value-decimal : (n : ℕ) → digits_value 0 (decimal n) ≡ some n
unfolding decimal
digits_value-decimal n =
    digits_value-decimal_loop (n + 1) n [] (omega arith) ∙ (unfold digits_value in refl)

decimal_loop-cons :
    (fuel n d : ℕ) (printed : Bytes)
    → (x : ℕ) × (xs : Bytes) × (decimal_loop fuel n (d ∷ printed) ≡ x ∷ xs)
unfolding decimal_loop
decimal_loop-cons zero n d printed = (d, printed, refl)
decimal_loop-cons (suc fuel) n d printed =
    if-intro (λ l. (x : ℕ) × (xs : Bytes) × (l ≡ x ∷ xs)) (n / 10 == 0) (λ e. (_, _, refl))
      (λ e. decimal_loop-cons fuel (n / 10) _ (d ∷ printed))

-- A number has a first digit.
pub decimal-cons : (n : ℕ) → (x : ℕ) × (xs : Bytes) × (decimal n ≡ x ∷ xs) × (is_digit x ≡ true)
decimal-cons n =
    let (x, xs, e) = cons in
    (x, xs, e, first x xs (ap (all (λ b. is_digit b)) (sym e) ∙ decimal-is_digit n))
  where
    cons : (x : ℕ) × (xs : Bytes) × (decimal n ≡ x ∷ xs)
    cons =
        unfold decimal decimal_loop in
        let step : n + 1 ≡ suc n = omega arith in
        rw step (
          if-intro (λ l. (x : ℕ) × (xs : Bytes) × (l ≡ x ∷ xs)) (n / 10 == 0) (λ e. (_, _, refl))
            (λ e. decimal_loop-cons n (n / 10) _ []))

    first : (x : ℕ) (xs : Bytes) → all (λ b. is_digit b) (x ∷ xs) ≡ true → is_digit x ≡ true
    first x xs h = ground arith

pub take_number-digits :
    (digits rest : Bytes)
    → all (λ b. is_digit b) digits ≡ true
    → stops rest ≡ true
    → take_number false (digits ++ rest) ≡ (digits, false, rest)
unfolding take_number
take_number-digits [] [] h s = refl
take_number-digits [] (c ∷ rest) h s = ground arith
take_number-digits (d ∷ digits) rest h s = ground (arith, take_number-digits digits rest)

-- What stands behind a part of a name.
abbrev pub breaks : Bytes → Bool
breaks [] = true
breaks (c ∷ _) = c == b',' || c == b'+' || c == b')' || c == b']' || c == b'.' || c == b'('

module _ (std : Std) where
  pub take_word-breaks :
      (n rest : Bytes)
      → all (λ x. is_letter x || is_digit x) n ≡ true
      → breaks rest ≡ true
      → take_word std (n ++ rest) ≡ (n, rest)
  unfolding take_word
  take_word-breaks [] [] h b = refl
  take_word-breaks [] (c ∷ rest) h b = ground arith
  take_word-breaks (c ∷ n) rest h b =
      let here : (is_alpha c || is_digit c || c == b'_') ≡ true = ground arith in
      let ih = take_word-breaks n rest (ground arith) b in ground (arith, ih)

  -- A character that begins an expression, and is not skipped.
  abbrev pub begins : ℕ → Bool
  begins c = not (is_whitespace std c || c == b'#' || c == b']' || c == b')')

  pub skip_ws-begins : (c : ℕ) (cs : Bytes) → begins c ≡ true → skip_ws std (c ∷ cs) ≡ c ∷ cs
  unfolding skip_ws
  skip_ws-begins c cs h = ground arith

  pub skip_ws-stops : (cs : Bytes) → stops cs ≡ true → skip_ws std cs ≡ cs
  unfolding skip_ws
  skip_ws-stops [] h = refl
  skip_ws-stops (c ∷ cs) h = ground arith
