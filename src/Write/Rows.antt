-- ===== src/Write/Rows.antt =====
-- kernel/src/write.rs and engine-py/src/cursor.rs: how many placeholders the row statements have, as
-- the cursor counts them.
pub mod Counts
use native.Mathlib.Nat.{suc-mul}
use odoo_rust_orm.Decimal.{decimal}
use odoo_rust_orm.Prelude.{
  ℕ, zero, suc, ◌+◌, ◌*◌, ◌≤◌, Bool, true, false, not, ◌&&◌, List, [], ◌∷◌, ◌++◌, Option, none,
  some, map, ◌≡◌, refl, sym, ap, ap₂, ◌∙◌, arith, Bytes, codes, length, length-replicate, replicate,
  all, ◌==◌, if◌then◌else◌, if-intro, option-intro, subst, Bool-cases, inl, inr,
}
use odoo_rust_orm.Error.{
  Result, ok, ◌>>=◌, >>=-eq-ok, ok-injective, Each, Each-ok, Each-intro, Each-step,
}
use odoo_rust_orm.Sqllex.Quoting.{ident, replace}
use odoo_rust_orm.Cursor.{translate_placeholders}
use odoo_rust_orm.Cursor.Placeholders.{
  Spells, Spells-append, Spells-plain, Spells-placeholder, Spells-all, Spells-nil,
}
use odoo_rust_orm.Write.{
  UpdateShape, values, uniform, Field, Model, refuse_column, assignment, value_repeats, join,
  cast_of, writable, row_of, rows_of, tmp_expr, update_values, uniform_expr, update_uniform,
  update_text, update_rows_sql, insertable, insert_text, insert_default, insert_rows_sql,
}

-- A text with `k` positional placeholders and no named one.
pub record Holds (bs : Bytes) (k : ℕ) : Type 0 where
  pub text : ℕ → Bytes
  pub spells : Spells bs text k

abbrev pub IsPlain : Bytes → Type 0
IsPlain bs = all (λ b. not (b == b'%')) bs ≡ true

infixl 5 ◌then◌
pub ◌then◌ : {a b : Bytes} {k l : ℕ} → Holds a k → Holds b l → Holds (a ++ b) (k + l)
◌then◌ {a} {b} {k} {l} x y = record {
  text = λ n. x.text n ++ y.text (n + k);
  spells = Spells-append a b x.text y.text k l x.spells y.spells;
}

pub plain : (bs : Bytes) → IsPlain bs → Holds bs 0
plain bs h = record { text = λ n. bs; spells = Spells-plain bs h }

pub one_placeholder : Holds (codes "%s") 1
one_placeholder = record { text = λ n. b'$' ∷ decimal (n + 1); spells = Spells-placeholder }

pub as_many : {bs : Bytes} {k l : ℕ} → Holds bs k → k ≡ l → Holds bs l
as_many {bs} x h = subst (Holds bs) h x

pub translate-Holds :
    (bs : Bytes) (k : ℕ) → Holds bs k → (translate_placeholders bs).1 ≡ replicate k []
translate-Holds bs k x = ap (λ r. r.1) (Spells-all bs x.text k x.spells)

-- The joined texts hold what each of them holds.
unfoldable pub total : {A : Type 0} → (A → ℕ) → List A → ℕ
total f [] = 0
total f (x ∷ xs) = f x + total f xs

abbrev pub Every {κ} : {A : Type 0} → (A → Type κ) → List A → Type κ
Every P [] = Unit
Every P (x ∷ xs) = P x × Every P xs

pub join-Holds :
    {A : Type 0} (piece : A → Bytes) (count : A → ℕ) (xs : List A)
    → Every (λ x. Holds (piece x) (count x)) xs
    → Holds (join (map piece xs)) (total count xs)
unfolding join total
join-Holds piece count [] h = plain [] refl
join-Holds piece count (x ∷ []) h = as_many h.0 (omega arith)
join-Holds piece count (x ∷ y ∷ xs) h =
    as_many (h.0 then plain (codes ", ") refl then join-Holds piece count (y ∷ xs) h.1)
      (omega arith)

two_more : (n k : ℕ) → k + 0 + suc n * k ≡ suc (suc n) * k
two_more n k = rw (suc-mul, suc-mul) (omega arith)

pub join-replicate-Holds :
    (piece : Bytes) (k n : ℕ) → Holds piece k → Holds (join (replicate n piece)) (n * k)
unfolding join
join-replicate-Holds piece k zero h = as_many (plain [] refl) (omega arith)
join-replicate-Holds piece k (suc zero) h = as_many h (omega arith)
join-replicate-Holds piece k (suc (suc n)) h =
    as_many (h then plain (codes ", ") refl then join-replicate-Holds piece k (suc n) h)
      (two_more n k)

pub rows_of-Holds : (width row_count : ℕ) → Holds (rows_of width row_count) (row_count * width)
unfolding rows_of row_of
rows_of-Holds width row_count = join-replicate-Holds (row_of width) width row_count (
    as_many
      (plain (codes "(") refl
        then join-replicate-Holds (codes "%s") 1 width one_placeholder
        then plain (codes ")") refl)
      (omega arith))

all-append : (a b : Bytes) → IsPlain a → IsPlain b → IsPlain (a ++ b)
all-append [] b h g = g
all-append (x ∷ a) b h g = ground (arith, all-append a b)

pub ident-IsPlain : (name : Bytes) → IsPlain name → IsPlain (ident name)
unfolding ident replace
ident-IsPlain name h =
    all-append (replace b'"' (b'"' ∷ b'"' ∷ []) name) (b'"' ∷ []) (quotes name h) refl
  where
    quotes : (bs : Bytes) → IsPlain bs → IsPlain (replace b'"' (b'"' ∷ b'"' ∷ []) bs)
    quotes [] h = refl
    quotes (b ∷ bs) h = elim (Bool-cases (b == b'"')) [
      | inl e ↦ rw e (quotes bs (ground arith))
      | inr e ↦ rw e (ground (arith, quotes bs))
    ]

-- No percent sign in the column's name or in its cast.
pub record PlainField (f : Field) : Type 0 where
  pub plain_name : IsPlain f.name
  pub plain_cast : IsPlain (cast_of f)

pub assignment-Holds :
    (table expr : Bytes) (f : Field) (k : ℕ)
    → IsPlain table
    → PlainField f
    → Holds expr k
    → Holds (assignment table f expr) (value_repeats f * k)
unfolding assignment value_repeats
assignment-Holds table expr f k h pf e =
    let column = plain (ident f.name) (ident-IsPlain f.name pf.plain_name) in
    elim (Bool-cases f.translate_whole) [
      | inl whole ↦ rw whole (
          as_many
            (column
              then plain _ refl
              then e
              then plain _ refl
              then plain _ refl
              then plain _ refl
              then plain table h
              then plain _ refl
              then column
              then plain _ refl
              then plain _ refl
              then plain _ refl
              then e
              then plain _ refl
              then plain _ refl
              then plain _ refl
              then e
              then plain _ refl
              then plain _ refl)
            (omega arith))
      | inr part ↦ rw part (as_many (column then plain _ refl then e) (omega arith))
    ]
