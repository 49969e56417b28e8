-- ===== src/Sqlgen/Leaves/Sets.antt =====
-- kernel/src/sqlgen.rs: the conversions of sets of values, each of which leaves fewer to be done.
use odoo_rust_orm.Prelude.{
  ℕ, Bool, true, false, not, ◌||◌, List, [], ◌∷◌, Option, none, some, map, Bytes, leb, ◌==◌, any,
  ◌≡◌, refl, arith, if-intro, Bool-cases, inl, inr,
}
use odoo_rust_orm.Error.{Result, ok, err, Each, Each-step, Each-then}
use odoo_rust_orm.Json.{Json, number, string}
use odoo_rust_orm.Sqlgen.Comparands.{
  Floats, is_falsy_id, is_number, is_string, is_boolean_value, number_as_python_text, as_double,
  whole_or, as_whole, coerce_numeric,
}
use odoo_rust_orm.RuleExpr.Chars.{Std, parse_i64}
use odoo_rust_orm.RuleExpr.Eval.{Doubles}
use odoo_rust_orm.Int.{ℤ}
use odoo_rust_orm.Registry.Fields.Readable.{trim}
use odoo_rust_orm.Sqlgen.Class.{Context}
use odoo_rust_orm.Sqlgen.Members.{to_text, each_of, select, without_falsy, coerced, to_boolean}

falsy_gone : (v : Json) → is_falsy_id (without_falsy v) ≡ false
unfolding is_falsy_id
falsy_gone v = elim (Bool-cases (is_falsy_id v)) [ inl e ↦ rw e refl | inr e ↦ rw e e ]

string_kept : (v : Json) → is_string (without_falsy v) ≡ is_string v
unfolding is_falsy_id
string_kept (number n) =
    if-intro (λ w. is_string w ≡ false) (is_falsy_id (number n)) (λ _. refl) (λ _. refl)
string_kept _ = refl

pub none_falsy : (items : List Json) → any is_falsy_id (map (λ v. without_falsy v) items) ≡ false
none_falsy [] = refl
none_falsy (v ∷ vs) = rw (falsy_gone v) (none_falsy vs)

pub same_strings :
    (items : List Json)
    → any (λ v. is_string v) (map (λ v. without_falsy v) items) ≡ any (λ v. is_string v) items
same_strings [] = refl
same_strings (v ∷ vs) = rw (string_kept v, same_strings vs) refl

-- Nothing that a list has not is in a selection of it, nor what is selected against.
pub any-select-other :
    (p q : Json → Bool) (items : List Json) → any p items ≡ false → any p (select q items) ≡ false
any-select-other p q [] h = refl
any-select-other p q (v ∷ vs) h =
    let rest = any-select-other p q vs (ground arith) in
    if-intro (λ l. any p l ≡ false) (q v) (λ _. ground arith) (λ _. rest)

pub any-select-not :
    (p : Json → Bool) (items : List Json) → any p (select (λ v. not (p v)) items) ≡ false
any-select-not p [] = refl
any-select-not p (v ∷ vs) =
    let rest = any-select-not p vs in
    elim (Bool-cases (p v)) [ inl e ↦ rw e rest | inr e ↦ rw (e, e) rest ]

pub text_is : (v : Json) → Each (λ y. is_number y ≡ false) (to_text v)
text_is (number n) = Each-step _ (number_as_python_text n) _ (λ s. refl)
text_is _ = refl

pub texts_only :
    (items : List Json)
    → Each (λ ys. any (λ v. is_number v) ys ≡ false) (each_of (λ v. to_text v) items)
unfolding each_of
texts_only [] = refl
texts_only (v ∷ vs) =
    Each-then (λ y. is_number y ≡ false) _ (to_text v) _ (text_is v)
      (λ y h.
        Each-then (λ ys. any (λ v. is_number v) ys ≡ false) _ (each_of (λ v. to_text v) vs) _
          (texts_only vs) (λ ys rest. ground arith))

abbrev pub NoString : Option Json → Type 0
NoString none = Unit
NoString (some v) = is_string v ≡ false

abbrev pub IsNumber : Option Json → Type 0
IsNumber none = Unit
IsNumber (some v) = is_number v ≡ true

as_double-IsNumber : (floats : Floats) (r : Result ℕ) → Each IsNumber (as_double floats r)
as_double-IsNumber floats (ok bits) =
    if-intro (Each IsNumber) (Doubles.is_finite floats.doubles bits) (λ _. refl) (λ _. tt)
as_double-IsNumber floats (err chain) = tt

whole_or-IsNumber :
    (double : Result (Option Json)) (r : Result ℤ)
    → Each IsNumber double
    → Each IsNumber (whole_or double r)
whole_or-IsNumber double (ok i) h = refl
whole_or-IsNumber double (err chain) h = h

as_whole-IsNumber :
    (double : Result (Option Json)) (whole : Bool) (s : Bytes)
    → Each IsNumber double
    → Each IsNumber (as_whole double whole s)
as_whole-IsNumber double false s h = h
as_whole-IsNumber double true s h = whole_or-IsNumber double (parse_i64 s) h

pub coerce_numeric-IsNumber :
    (std : Std) (floats : Floats) (s : Bytes) (whole : Bool)
    → Each IsNumber (coerce_numeric std floats (string s) whole)
unfolding coerce_numeric
coerce_numeric-IsNumber std floats s whole =
    if-intro (Each IsNumber) (any (λ c. leb 0x80 c) s || any (λ c. c == b'_') s) (λ _. tt)
      (λ _. as_whole-IsNumber _ whole (trim std s) (as_double-IsNumber floats _))

IsNumber-NoString : (r : Result (Option Json)) → Each IsNumber r → Each NoString r
IsNumber-NoString (ok none) h = tt
IsNumber-NoString (ok (some (number n))) h = refl
IsNumber-NoString (ok (some _)) h = cc
IsNumber-NoString (err chain) h = tt

coerce_numeric-NoString :
    (std : Std) (floats : Floats) (v : Json) (whole : Bool)
    → Each NoString (coerce_numeric std floats v whole)
unfolding coerce_numeric
coerce_numeric-NoString std floats (string s) whole =
    IsNumber-NoString _ (coerce_numeric-IsNumber std floats s whole)
coerce_numeric-NoString std floats _ whole = refl

pub no_strings :
    (c : Context) (whole : Bool) (items : List Json)
    → Each (λ ys. any (λ v. is_string v) ys ≡ false) (coerced c whole items)
unfolding coerced
no_strings c whole [] = refl
no_strings c whole (v ∷ vs) =
    Each-then NoString _ (coerce_numeric c.std c.floats v whole) _
      (coerce_numeric-NoString c.std c.floats v whole)
      (λ o h.
        Each-then (λ ys. any (λ v. is_string v) ys ≡ false) _ (coerced c whole vs) _
          (no_strings c whole vs) (λ ys rest. with_head o ys h rest))
  where
    with_head :
        (o : Option Json) (ys : List Json)
        → NoString o
        → any (λ v. is_string v) ys ≡ false
        → any (λ v. is_string v) (elim o [ none ↦ ys | some y ↦ y ∷ ys ]) ≡ false
    with_head none ys h rest = rest
    with_head (some y) ys h rest = ground arith

boolean_is : (c : Context) (v : Json) → is_boolean_value (to_boolean c v) ≡ true
boolean_is c (string s) = refl
boolean_is c _ = refl

pub all_boolean :
    (c : Context) (items : List Json)
    → any (λ v. not (is_boolean_value v)) (map (λ v. to_boolean c v) items) ≡ false
all_boolean c [] = refl
all_boolean c (v ∷ vs) = rw (boolean_is c v) (all_boolean c vs)
