-- ===== src/RuleExpr/Left.antt =====
-- The reader of the expressions of kernel/src/security.rs: what its pieces leave of the text.
use odoo_rust_orm.Prelude.{
  ℕ, suc, ◌+◌, ◌≤◌, ◌<◌, ◌≡◌, Bool, true, false, List, [], ◌∷◌, ◌++◌, Bytes, length, ◌==◌, if-intro,
  option-intro, arith,
}
use odoo_rust_orm.Sqllex.{is_digit}
use odoo_rust_orm.Error.{Result, ok, err, Each}
use odoo_rust_orm.RuleExpr.{PyExpr, str}
use odoo_rust_orm.RuleExpr.Chars.{
  Std, skip_ws, skip_comment, take_word, take_number, take_string, parse_i64, prepend, escaped,
}
use odoo_rust_orm.RuleExpr.Parser.{
  Outcome, done, failed, out_of_fuel, ◌>>=◌, Reading, of_result, closed, named, numeral, whole,
  xmlid_of, segments_of, is_empty,
}

-- The run kept within its fuel, and `P` holds of its value if it has one.
abbrev pub Ends {ℓ} : {A : Type ℓ} → (A → Type 0) → Outcome A → Type 0
Ends P (done a) = P a
Ends P (failed chain) = Unit
Ends P out_of_fuel = ⊥

pub >>=-Ends {ℓ κ} :
    {A : Type ℓ} {B : Type κ} (Q : A → Type 0) (P : B → Type 0) (m : Outcome A)
    (next : A → Outcome B)
    → Ends Q m
    → ((a : A) → Q a → Ends P (next a))
    → Ends P (m >>= next)
>>=-Ends Q P (done a) next q go = go a q
>>=-Ends Q P (failed chain) next q go = tt
>>=-Ends Q P out_of_fuel next q go = absurd q

of_result-Ends {ℓ} : {A : Type ℓ} (P : A → Type 0) (r : Result A) → Each P r → Ends P (of_result r)
of_result-Ends P (ok a) each = each
of_result-Ends P (err chain) each = tt

pub of_result-Ends-any {ℓ} : {A : Type ℓ} (r : Result A) → Ends (λ a. Unit) (of_result r)
of_result-Ends-any (ok a) = tt
of_result-Ends-any (err chain) = tt

abbrev pub Left : ℕ → PyExpr × Bytes → Type 0
Left n r = length r.1 ≤ n

-- Less is left than there was.
abbrev pub Less : ℕ → PyExpr × Bytes → Type 0
Less n r = length r.1 < n

module _ (std : Std) where
  mutual
    unfolding skip_ws skip_comment

    pub length-skip_ws : (c : Bytes) → length (skip_ws std c) ≤ length c
    length-skip_ws [] = omega arith
    length-skip_ws (x ∷ c) = ground (arith, length-skip_ws c, length-skip_comment c)

    length-skip_comment : (c : Bytes) → length (skip_comment std c) ≤ length c
    length-skip_comment [] = omega arith
    length-skip_comment (x ∷ c) = ground (arith, length-skip_ws c, length-skip_comment c)

  pub length-take_word :
      (c : Bytes) → length (take_word std c).0 + length (take_word std c).1 ≡ length c
  unfolding take_word
  length-take_word [] = omega arith
  length-take_word (x ∷ c) = ground (arith, length-take_word c)

length-take_number : (dotted : Bool) (c : Bytes) → length (take_number dotted c).2 ≤ length c
unfolding take_number
length-take_number dotted [] = omega arith
length-take_number dotted (x ∷ c) =
    ground (arith, length-take_number dotted c, length-take_number true c)

-- A text of `n` characters is left with less.
abbrev Shorter : ℕ → Bytes × Bytes → Type 0
Shorter n r = length r.1 < n

prepend-Shorter :
    (n m c : ℕ) (r : Result (Bytes × Bytes))
    → n ≤ m
    → Each (Shorter n) r
    → Each (Shorter m) (prepend c r)
prepend-Shorter n m c (ok r) le h = omega arith
prepend-Shorter n m c (err chain) le h = tt

take_string-Shorter : (quote : ℕ) (c : Bytes) → Each (Shorter (length c)) (take_string quote c)
unfolding take_string
take_string-Shorter quote [] = tt
take_string-Shorter quote (x ∷ []) =
    let P = Each (Shorter 1) in
    if-intro P (x == b'\\') (λ e. tt) (λ e. if-intro P (x == quote) (λ e. omega arith) (λ e. tt))
take_string-Shorter quote (x ∷ y ∷ rest) =
    let n = length rest in
    let P = Each (Shorter (suc (suc n))) in
    let later = take_string-Shorter quote rest in
    let next = take_string-Shorter quote (y ∷ rest) in
    if-intro P (x == b'\\')
      (λ e.
        option-intro P (escaped y) (λ e. tt)
          (λ c e. prepend-Shorter n (suc (suc n)) c (take_string quote rest) (omega arith) later))
      (λ e.
        if-intro P (x == quote) (λ e. omega arith)
          (λ e.
            prepend-Shorter (suc n) (suc (suc n)) x (take_string quote (y ∷ rest)) (omega arith)
              next))

pub closed-Ends : (close : ℕ) (c : Bytes) → Ends (λ rest. length rest < length c) (closed close c)
unfolding closed
closed-Ends close [] = tt
closed-Ends close (x ∷ c) =
    if-intro (Ends (λ rest. length rest < length (x ∷ c))) (x == close) (λ e. omega arith) (λ e. tt)

pub named-Ends : (names : List Bytes) (c : Bytes) → Ends (Left (length c)) (named names c)
unfolding named
named-Ends [] c = tt
named-Ends (n ∷ []) c = ground arith
named-Ends (n ∷ m ∷ names) c = ground arith

numeral-Ends :
    (std : Std) (sign : Bytes) (r : Bytes × Bool × Bytes)
    → Ends (Left (length r.2)) (numeral std sign r)
unfolding numeral
numeral-Ends std sign (digits, dotted, rest) =
    let P = Left (length rest) in
    if-intro (Ends P) dotted
      (λ e.
        >>=-Ends (λ f. Unit) P (of_result (Std.parse_f64 std (sign ++ digits))) _
          (of_result-Ends-any (Std.parse_f64 std (sign ++ digits))) (λ f u. omega arith))
      (λ e.
        >>=-Ends (λ i. Unit) P (of_result (parse_i64 (sign ++ digits))) _
          (of_result-Ends-any (parse_i64 (sign ++ digits))) (λ i u. omega arith))

pub Less-Ends : {n m : ℕ} (r : Reading) → n ≤ m → Ends (Less n) r → Ends (Less m) r
Less-Ends (done a) le lt = omega arith
Less-Ends (failed chain) le lt = tt
Less-Ends out_of_fuel le lt = lt

pub Left-Ends : {n m : ℕ} (r : Reading) → n < m → Ends (Left n) r → Ends (Less m) r
Left-Ends (done a) lt le = omega arith
Left-Ends (failed chain) lt le = tt
Left-Ends out_of_fuel lt le = le

pub xmlid_of-Ends : (e : PyExpr) → Ends (λ x. Unit) (xmlid_of e)
xmlid_of-Ends (str s) = tt
xmlid_of-Ends _ = tt

pub segments_of-Ends : (e : PyExpr) → Ends (λ x. Unit) (segments_of e)
segments_of-Ends (str s) = tt
segments_of-Ends _ = tt

pub whole-Ends : (c : Bytes) (e : PyExpr) → Ends (λ x. Unit) (whole c e)
whole-Ends [] e = tt
whole-Ends (_ ∷ _) e = tt

pub length-is_empty : (c : Bytes) → is_empty c ≡ false → 0 < length c
length-is_empty [] h = cc
length-is_empty (x ∷ c) h = omega arith

pub string-Ends :
    (n ch : ℕ) (c : Bytes)
    → length c < n
    → Ends (Less n) (of_result (take_string ch c) >>= λ s. done (str s.0, s.1))
string-Ends n ch c lt =
    >>=-Ends (Shorter (length c)) (Less n) (of_result (take_string ch c)) _
      (of_result-Ends (Shorter (length c)) (take_string ch c) (take_string-Shorter ch c))
      (λ s lt'. omega arith)

pub number-Ends :
    (std : Std) (n : ℕ) (sign c : Bytes)
    → length c < n
    → Ends (Less n) (numeral std sign (take_number false c))
number-Ends std n sign c lt =
    let le = length-take_number false c in
    Left-Ends (numeral std sign (take_number false c)) (omega arith)
      (numeral-Ends std sign (take_number false c))

pub digit-Ends :
    (std : Std) (n ch : ℕ) (c : Bytes)
    → is_digit ch ≡ true
    → length c < n
    → Ends (Less n) (numeral std [] (take_number false (ch ∷ c)))
digit-Ends std n ch c d lt =
    let le = length-take_number false c in
    Left-Ends (numeral std [] (take_number false (ch ∷ c))) less
      (numeral-Ends std [] (take_number false (ch ∷ c)))
  where
    less : length (take_number false (ch ∷ c)).2 < n
    less = let le = length-take_number false c in unfold take_number in rw d (omega arith)
