-- ===== src/RuleExpr/Parser.antt =====
-- kernel/src/security.rs: `parse_py` and the functions it calls. A call leaves less of the text, but
-- not by structure, so each call, and each round of a loop, costs a unit of fuel.
use odoo_rust_orm.Prelude.{
  ℕ, zero, suc, ◌+◌, ◌*◌, Bool, true, false, ◌&&◌, ◌||◌, List, [], ◌∷◌, ◌++◌, map, Bytes, codes,
  bytes_eq, length, ◌==◌, if◌then◌else◌,
}
use odoo_rust_orm.Sqllex.{is_digit, next_is}
use odoo_rust_orm.Error.{Result, Chain, ok, err, refusal}
use odoo_rust_orm.RuleExpr.{
  PyExpr, Exprs, str, int, float, bool, none_value, seq, name, ref, add, no_exprs, expr, push,
}
use odoo_rust_orm.RuleExpr.Chars.{
  Std, is_alphabetic, skip_ws, take_word, take_number, parse_i64, take_string,
}

-- `out_of_fuel` has no counterpart in the program.
pub data Outcome {ℓ} (A : Type ℓ) : Type ℓ where
  done : A → Outcome A
  failed : Chain → Outcome A
  out_of_fuel : Outcome A

infixl 5 ◌>>=◌
abbrev pub ◌>>=◌ {ℓ κ} : {A : Type ℓ} {B : Type κ} → Outcome A → (A → Outcome B) → Outcome B
done a >>= next = next a
failed chain >>= next = failed chain
out_of_fuel >>= next = out_of_fuel

abbrev pub reject {ℓ} : {A : Type ℓ} → Outcome A
reject = failed (refusal ∷ [])

abbrev pub of_result {ℓ} : {A : Type ℓ} → Result A → Outcome A
of_result (ok a) = done a
of_result (err chain) = failed chain

-- What a function reads, and the text that it leaves.
abbrev pub Reading : Type 0
Reading = Outcome (PyExpr × Bytes)

-- `c.get(*p) != Some(&close)` refuses.
unfoldable pub closed : ℕ → Bytes → Outcome Bytes
closed close [] = reject
closed close (c ∷ cs) = if c == close then done cs else reject

-- `str::split`
unfoldable pub split : ℕ → Bytes → List Bytes
split sep [] = [] ∷ []
split sep (c ∷ cs) = elim (split sep cs) [
  | [] ↦ (c ∷ []) ∷ []
  | piece ∷ pieces ↦ if c == sep then [] ∷ piece ∷ pieces else (c ∷ piece) ∷ pieces
]

abbrev pub is_one : Exprs → Bool
is_one (expr _ no_exprs) = true
is_one _ = false

-- `items.remove(0)`
abbrev pub first_of : Exprs → PyExpr
first_of no_exprs = none_value
first_of (expr x _) = x

-- The `match` on the names at the end of an identifier.
unfoldable pub named : List Bytes → Bytes → Reading
named [] rest = reject
named (n ∷ []) rest =
    if bytes_eq n (codes "True")
    then done (bool true, rest)
    else if bytes_eq n (codes "False")
    then done (bool false, rest)
    else if bytes_eq n (codes "None")
    then done (none_value, rest)
    else done (name (n ∷ []), rest)
named (n ∷ m ∷ ns) rest =
    if bytes_eq n (codes "True") || bytes_eq n (codes "False") || bytes_eq n (codes "None")
    then reject
    else done (name (n ∷ m ∷ ns), rest)

abbrev pub xmlid_of : PyExpr → Outcome Bytes
xmlid_of (str s) = done s
xmlid_of _ = reject

abbrev pub segments_of : PyExpr → Outcome (List Bytes)
segments_of (str s) = done (map (λ f. b'*' ∷ f) (split b'.' s))
segments_of _ = reject

abbrev pub is_empty {ℓ} : {A : Type ℓ} → List A → Bool
is_empty [] = true
is_empty (_ ∷ _) = false

-- A number, from its first character on.
unfoldable pub numeral : Std → Bytes → Bytes × Bool × Bytes → Reading
numeral std sign (digits, dotted, rest) =
    if dotted
    then of_result (Std.parse_f64 std (sign ++ digits)) >>= (λ f. done (float f, rest))
    else of_result (parse_i64 (sign ++ digits)) >>= (λ i. done (int i, rest))

-- All of the text has to be read.
abbrev pub whole : Bytes → PyExpr → Outcome PyExpr
whole [] e = done e
whole (_ ∷ _) e = reject

abbrev pub enough : Bytes → ℕ
enough c = 5 * length c + 6

module _ (std : Std) where
  unfoldable mutual
    pub parse_expr : ℕ → Bytes → Reading
    parse_expr zero c = out_of_fuel
    parse_expr (suc f) c = do left ← parse_atom f c; parse_sum f left.0 left.1

    -- The loop of `parse_expr`.
    pub parse_sum : ℕ → PyExpr → Bytes → Reading
    parse_sum zero left c = out_of_fuel
    parse_sum (suc f) left c = elim (skip_ws std c) [
      | [] ↦ done (left, [])
      | x ∷ c ↦
          let more = parse_atom f c >>= λ right. parse_sum f (add left right.0) right.1 in
          if x == b'+' then more else done (left, x ∷ c)
    ]

    pub parse_atom : ℕ → Bytes → Reading
    parse_atom zero c = out_of_fuel
    parse_atom (suc f) c = elim (skip_ws std c) [
      | [] ↦ reject
      | ch ∷ c ↦
          let list = parse_items f b']' no_exprs c in
          let tuple = parse_items f b')' no_exprs c in
          let string = of_result (take_string ch c) >>= λ s. done (str s.0, s.1) in
          let minus = numeral std (ch ∷ []) (take_number false c) in
          let number = numeral std [] (take_number false (ch ∷ c)) in
          let word = parse_name f [] (ch ∷ c) in
          if ch == b'['
          then list
          else if ch == b'('
          then tuple
          else if ch == b'\'' || ch == b'"'
          then string
          else if ch == b'-'
          then minus
          else if is_digit ch
          then number
          else if is_alphabetic std ch || ch == b'_'
          then word
          else reject
    ]

    -- The loop on the items of a list or a tuple, which `close` ends.
    pub parse_items : ℕ → ℕ → Exprs → Bytes → Reading
    parse_items zero close items c = out_of_fuel
    parse_items (suc f) close items c =
        let more = do
          item ← parse_expr f (skip_ws std c)
          after_item f close (push items item.0) (skip_ws std item.1)
        in elim (skip_ws std c) [
          | [] ↦ more
          | x ∷ rest ↦ if x == close then done (seq items, rest) else more
        ]

    -- The `match` behind an item.
    pub after_item : ℕ → ℕ → Exprs → Bytes → Reading
    after_item zero close items c = out_of_fuel
    after_item (suc f) close items [] = reject
    after_item (suc f) close items (x ∷ c) =
        let next = parse_items f close items c in
        let last = parse_items f close items (x ∷ c) in
        if x == b','
        then next
        else if x == b')' && close == b')' && is_one items
        then done (first_of items, c)
        else if x == close
        then last
        else reject

    -- The loop on the parts of an identifier.
    pub parse_name : ℕ → List Bytes → Bytes → Reading
    parse_name zero names c = out_of_fuel
    parse_name (suc f) names c =
        let seg = take_word std c in
        let reference = do
          inner ← argument f seg.1
          xmlid ← xmlid_of inner.0
          done (ref xmlid, inner.1)
        in let mapped = do
          inner ← argument f seg.1
          fields ← segments_of inner.0
          after_name f (names ++ fields) inner.1
          in let plain = after_name f (names ++ seg.0 ∷ []) seg.1 in
            if is_empty seg.0
            then reject
            else if bytes_eq seg.0 (codes "ref") && is_empty names && next_is b'(' seg.1
            then reference
            else if bytes_eq seg.0 (codes "mapped") && next_is b'(' seg.1
            then mapped
            else plain

    -- The argument of a call, in its parentheses.
    pub argument : ℕ → Bytes → Reading
    argument zero c = out_of_fuel
    argument (suc f) [] = reject
    argument (suc f) (_ ∷ c) = do
      inner ← parse_expr f c
      rest ← closed b')' (skip_ws std inner.1)
      done (inner.0, rest)

    -- Whether a dot goes on with the identifier.
    pub after_name : ℕ → List Bytes → Bytes → Reading
    after_name zero names c = out_of_fuel
    after_name (suc f) names [] = named names []
    after_name (suc f) names (x ∷ c) =
        let more = parse_name f names c in if x == b'.' then more else named names (x ∷ c)

  unfoldable pub parse_py : Bytes → Outcome PyExpr
  parse_py c = parse_expr (enough c) c >>= λ e. whole (skip_ws std e.1) e.0
