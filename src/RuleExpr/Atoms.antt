-- ===== src/RuleExpr/Atoms.antt =====
-- The written texts, numbers and names, which the reader of kernel/src/security.rs takes back.
use odoo_rust_orm.Prelude.{
  ℕ, suc, ◌-◌, ◌≡◌, refl, sym, ap, subst, ◌∙◌, true, false, ◌||◌, [], ◌∷◌, ◌++◌, Bytes, flat_map,
  append_assoc, ◌==◌, arith, some,
}
use odoo_rust_orm.Sqllex.{is_digit}
use odoo_rust_orm.Decimal.{decimal, decimal-is_digit}
use odoo_rust_orm.Int.{ℤ, pos, negsuc, is_i64}
use odoo_rust_orm.Error.{ok}
use odoo_rust_orm.RuleExpr.{str, int}
use odoo_rust_orm.RuleExpr.Chars.{
  Std, skip_ws, take_number, digits_value, parse_i64, is_alphabetic, checked, negate,
}
use odoo_rust_orm.RuleExpr.Parser.{done, numeral, parse_expr, parse_atom, parse_name}
use odoo_rust_orm.RuleExpr.Printer.{escape, is_letter, signed, quoted}
use odoo_rust_orm.RuleExpr.Pieces.{
  stops, begins, take_string-escape, digits_value-decimal, decimal-cons, take_number-digits,
  skip_ws-begins,
}

parse_i64-decimal : (n : ℕ) → is_i64 (pos n) ≡ true → parse_i64 (decimal n) ≡ ok (pos n)
parse_i64-decimal n h =
    let (x, xs, e, d) = decimal-cons n in
    rw e (positive x xs (ap (digits_value 0) (sym e) ∙ digits_value-decimal n) d)
  where
    positive :
        (x : ℕ) (xs : Bytes)
        → digits_value 0 (x ∷ xs) ≡ some n
        → is_digit x ≡ true
        → parse_i64 (x ∷ xs) ≡ ok (pos n)
    positive x xs v d =
        let other : (x == b'-') ≡ false = ground arith in
        let no_sign : (x == b'+') ≡ false = ground arith in
        unfold parse_i64 in rw (other, no_sign, v, h)

parse_i64-negative :
    (n : ℕ) → is_i64 (negsuc n) ≡ true → parse_i64 (b'-' ∷ decimal (suc n)) ≡ ok (negsuc n)
parse_i64-negative n h =
    let (x, xs, e, d) = decimal-cons (suc n) in
    rw e (negative x xs (ap (digits_value 0) (sym e) ∙ digits_value-decimal (suc n)))
  where
    same : checked (some (negate (suc n))) ≡ ok (negsuc n)
    same =
        let flat : suc n - 1 ≡ n = omega arith in
        let ne : (suc n == 0) ≡ false = ground arith in rw (ne, flat, h)

    negative :
        (x : ℕ) (xs : Bytes)
        → digits_value 0 (x ∷ xs) ≡ some (suc n)
        → parse_i64 (b'-' ∷ x ∷ xs) ≡ ok (negsuc n)
    negative x xs v = unfold parse_i64 in rw v same

-- The case of a text that is not at its end.
pub cases-cons {ℓ} :
    {B : Type ℓ} (P : B → Type ℓ) (c : Bytes) (a : ℕ) (rest : Bytes) (x : B) (f : ℕ → Bytes → B)
    → c ≡ a ∷ rest
    → P (f a rest)
    → P (elim c [ [] ↦ x | b ∷ more ↦ f b more ])
cases-cons P [] a rest x f e h = cc
cases-cons P (a' ∷ rest') a rest x f e h =
    let same : a' ≡ a = cc in let more : rest' ≡ rest = cc in rw (same, more) h

module _ (std : Std) where
  parse_atom-digit :
      (f c : ℕ) (cs : Bytes)
      → is_digit c ≡ true
      → parse_atom std (suc f) (c ∷ cs) ≡ numeral std [] (take_number false (c ∷ cs))
  unfolding parse_expr
  parse_atom-digit f c cs d =
      let a : (c == b'[') ≡ false = ground arith in
      let b : (c == b'(') ≡ false = ground arith in
      let q : (c == b'\'' || c == b'"') ≡ false = ground arith in
      let m : (c == b'-') ≡ false = ground arith in
      let start : begins std c ≡ true = ground arith in
      cases-cons (λ r. r ≡ numeral std [] (take_number false (c ∷ cs))) (skip_ws std (c ∷ cs)) c cs
        _ _ (skip_ws-begins std c cs start) (rw (a, b, q, m, d))

  pub parse_atom-letter :
      (f c : ℕ) (cs : Bytes)
      → is_letter c ≡ true
      → parse_atom std (suc f) (c ∷ cs) ≡ parse_name std f [] (c ∷ cs)
  unfolding parse_expr
  parse_atom-letter f c cs l =
      let a : (c == b'[') ≡ false = ground arith in
      let b : (c == b'(') ≡ false = ground arith in
      let q : (c == b'\'' || c == b'"') ≡ false = ground arith in
      let m : (c == b'-') ≡ false = ground arith in
      let d : is_digit c ≡ false = ground arith in
      let start : begins std c ≡ true = ground arith in
      let w : (is_alphabetic std c || c == b'_') ≡ true = ground arith in
      cases-cons (λ r. r ≡ parse_name std f [] (c ∷ cs)) (skip_ws std (c ∷ cs)) c cs _ _
        (skip_ws-begins std c cs start) (rw (a, b, q, m, d, w))

  -- A text.
  pub parse_atom-quoted :
      (f : ℕ) (s rest : Bytes) → parse_atom std (suc f) (quoted s ++ rest) ≡ done (str s, rest)
  parse_atom-quoted f s rest =
      let inner = flat_map escape s ++ b'\'' ∷ rest in
      ap (λ l. parse_atom std (suc f) (b'\'' ∷ l))
        (append_assoc (flat_map escape s) (b'\'' ∷ []) rest)
      ∙ (unfold parse_expr in
          cases-cons (λ r. r ≡ done (str s, rest)) (skip_ws std (b'\'' ∷ inner)) b'\'' inner _ _
            (skip_ws-begins std b'\'' inner refl) (rw (take_string-escape s rest)))

  numeral-int :
      (sign digits rest : Bytes) (i : ℤ)
      → parse_i64 (sign ++ digits) ≡ ok i
      → numeral std sign (digits, false, rest) ≡ done (int i, rest)
  unfolding numeral
  numeral-int sign digits rest i h = rw h

  -- A whole number.
  pub parse_atom-signed :
      (f : ℕ) (i : ℤ) (rest : Bytes)
      → is_i64 i ≡ true
      → stops rest ≡ true
      → parse_atom std (suc f) (signed i ++ rest) ≡ done (int i, rest)
  parse_atom-signed f (pos n) rest h s =
      let (x, xs, e, d) = decimal-cons n in
      subst
        (λ l. parse_atom std (suc f) (l ++ rest) ≡ numeral std [] (take_number false (l ++ rest)))
        (sym e) (parse_atom-digit f x (xs ++ rest) d)
      ∙ ap (numeral std []) (take_number-digits (decimal n) rest (decimal-is_digit n) s)
      ∙ numeral-int [] (decimal n) rest (pos n) (parse_i64-decimal n h)
  parse_atom-signed f (negsuc n) rest h s =
      let inner = decimal (suc n) ++ rest in
      unfold parse_expr in
      cases-cons (λ r. r ≡ done (int (negsuc n), rest)) (skip_ws std (b'-' ∷ inner)) b'-' inner _ _
        (skip_ws-begins std b'-' inner refl)
        (ap (numeral std (b'-' ∷ []))
            (take_number-digits (decimal (suc n)) rest (decimal-is_digit (suc n)) s)
          ∙ numeral-int (b'-' ∷ []) (decimal (suc n)) rest (negsuc n) (parse_i64-negative n h))
