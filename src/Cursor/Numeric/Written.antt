-- ===== src/Cursor/Numeric/Written.antt =====
-- engine-py/src/cursor.rs: what `numeric_binary_to_text` writes, and that it never reads past the
-- value.
use odoo_rust_orm.Prelude.{
  ℕ, zero, suc, ◌+◌, ◌-◌, ◌*◌, ◌<◌, ◌≤◌, true, false, List, [], ◌∷◌, ◌++◌, Option, none, some,
  Bytes, codes, length, replicate, take, get_elem?, ltb, ltb→lt, ==_iff, all, ◌==◌, if◌then◌else◌,
  if-intro, ◌≡◌, refl, sym, ap, ◌∙◌, arith, length-append, length-replicate, subst, some-injective,
  Member, here, there,
}
use odoo_rust_orm.Decimal.{decimal, decimal-is_digit}
use odoo_rust_orm.Int.{ℤ, pos, negsuc, ◌+ℤ◌}
use odoo_rust_orm.Sqllex.{is_digit}
use odoo_rust_orm.Cursor.Numeric.{
  ◌>>=◌, Decoded, too_short, text, u16_at, i16_of, pad4, digit, groups, whole_part, fraction,
  frac_part, spelled, by_sign, numeric_fields, numeric_binary_to_text,
}

-- There is an answer, and it has the property.
abbrev Gives {ℓ κ} : {A : Type ℓ} → (A → Type κ) → Option A → Type (ℓ ⊔ κ)
Gives {A = A} P o = (a : A) × (o ≡ some a) × P a

Gives-then {ℓ κ μ ν} :
    {A : Type ℓ} {B : Type κ} {Q : A → Type μ} (P : B → Type ν) (m : Option A) {next : A → Option B}
    → Gives Q m
    → ((a : A) → m ≡ some a → Q a → Gives P (next a))
    → Gives P (m >>= next)
Gives-then {Q = Q} P (some a) (b, is, q) go = go a refl (subst Q (sym (some-injective is)) q)
Gives-then P none (b, is, q) go = cc

abbrev Some {ℓ} : {A : Type ℓ} → A → Type 0
Some a = Unit

get_elem?-Gives : {A : Type 0} (xs : List A) (i : ℕ) → i < length xs → Gives Some (get_elem? xs i)
get_elem?-Gives [] i h = absurd (omega arith)
get_elem?-Gives (x ∷ xs) zero h = (x, refl, tt)
get_elem?-Gives (x ∷ xs) (suc i) h = get_elem?-Gives xs i (omega arith)

u16_at-Gives : (raw : Bytes) (i : ℕ) → i + 1 < length raw → Gives Some (u16_at raw i)
unfolding u16_at
u16_at-Gives raw i h =
    Gives-then Some (get_elem? raw i) (get_elem?-Gives raw i (omega arith)) (λ high _ _.
      Gives-then Some (get_elem? raw (i + 1)) (get_elem?-Gives raw (i + 1) h)
        (λ low _ _. (high * 256 + low, refl, tt)))

-- Decimal digits alone.
abbrev pub AllDigits : Bytes → Type 0
AllDigits s = all (λ b. is_digit b) s ≡ true

digits_append : (s t : Bytes) → AllDigits s → AllDigits t → AllDigits (s ++ t)
digits_append [] t hs ht = ht
digits_append (c ∷ cs) t hs ht = let rest = digits_append cs t (ground arith) ht in ground arith

digits_zeros : (n : ℕ) → AllDigits (replicate n b'0')
digits_zeros zero = refl
digits_zeros (suc n) = digits_zeros n

pad4-AllDigits : (d : ℕ) → AllDigits (pad4 d)
unfolding pad4
pad4-AllDigits d =
    digits_append (replicate (4 - length (decimal d)) b'0') (decimal d)
      (digits_zeros (4 - length (decimal d))) (decimal-is_digit d)

pad4_grows : (d : ℕ) → 1 ≤ length (pad4 d)
unfolding pad4
pad4_grows d = omega (
  arith,
  length-append (replicate (4 - length (decimal d)) b'0') (decimal d),
  length-replicate {A = ℕ} (4 - length (decimal d)) b'0',
)

take-AllDigits : (n : ℕ) (s : Bytes) → AllDigits s → AllDigits (take n s)
take-AllDigits zero s h = refl
take-AllDigits (suc n) [] h = refl
take-AllDigits (suc n) (c ∷ cs) h = let rest = take-AllDigits n cs (ground arith) in ground arith

length-take-le : (n : ℕ) (s : Bytes) → n ≤ length s → length (take n s) ≡ n
length-take-le zero s h = refl
length-take-le (suc n) [] h = absurd (omega arith)
length-take-le (suc n) (c ∷ cs) h = ap suc (length-take-le n cs (omega arith))

ge_of_ltb : (a b : ℕ) → ltb a b ≡ false → b ≤ a
ge_of_ltb a b h = ground arith

-- What stands behind the digits before the point, for a scale.
abbrev pub Point : ℕ → Bytes → Type 0
Point zero s = s ≡ []
Point (suc more) s = (frac : Bytes) × (s ≡ b'.' ∷ frac) × AllDigits frac × (length frac ≡ suc more)

-- The texts of the values that are no number, by what stands in place of the sign.
abbrev pub fixed_texts : List (ℕ × Bytes)
fixed_texts = (0xC000, codes "NaN") ∷ (0xD000, codes "Infinity") ∷ (0xF000, codes "-Infinity") ∷ []

-- Why the value is refused, or how its text is built.
pub data Written (raw : Bytes) : Decoded → Type 0 where
  no_header : length raw < 8 → Written raw too_short
  digits_missing :
      {ndigits : ℕ}
      → u16_at raw 0 ≡ some ndigits
      → length raw < 8 + ndigits * 2
      → Written raw too_short
  not_finite :
      {sign : ℕ} {t : Bytes}
      → u16_at raw 4 ≡ some sign
      → Member (sign, t) fixed_texts
      → Written raw (text t)
  finite :
      {sign dscale : ℕ} (whole point : Bytes)
      → u16_at raw 4 ≡ some sign
      → u16_at raw 6 ≡ some dscale
      → AllDigits whole
      → Point dscale point
      → Written raw (text ((if sign == 0x4000 then codes "-" else []) ++ (whole ++ point)))

module _ (raw : Bytes) (ndigits : ℕ) (fits : 8 + ndigits * 2 ≤ length raw) where
  digit-Gives : (k : ℤ) → Gives Some (digit raw ndigits k)
  unfolding digit
  digit-Gives (negsuc _) = (0, refl, tt)
  digit-Gives (pos k) =
      if-intro (Gives Some) (ltb k ndigits)
        (λ e. u16_at-Gives raw (8 + 2 * k) (omega (arith, ltb→lt k ndigits e))) (λ e. (0, refl, tt))

  groups-Gives : (k count : ℕ) → Gives AllDigits (groups raw ndigits k count)
  unfolding groups
  groups-Gives k zero = ([], refl, refl)
  groups-Gives k (suc count) =
      Gives-then AllDigits (digit raw ndigits (pos k)) (digit-Gives (pos k)) (λ d _ _.
        Gives-then AllDigits (groups raw ndigits (k + 1) count) (groups-Gives (k + 1) count)
          (λ rest _ digits.
            (pad4 d ++ rest, refl, digits_append (pad4 d) rest (pad4-AllDigits d) digits)))

  whole_part-Gives : (weight : ℤ) → Gives AllDigits (whole_part raw ndigits weight)
  unfolding whole_part
  whole_part-Gives (negsuc _) = (codes "0", refl, refl)
  whole_part-Gives (pos weight) =
      Gives-then AllDigits (digit raw ndigits (pos 0)) (digit-Gives (pos 0)) (λ d _ _.
        Gives-then AllDigits (groups raw ndigits 1 weight) (groups-Gives 1 weight) (λ rest _ digits.
          (decimal d ++ rest, refl, digits_append (decimal d) rest (decimal-is_digit d) digits)))

  abbrev Long : ℕ → Bytes → Type 0
  Long dscale s = AllDigits s × (dscale ≤ length s)

  -- A unit of fuel for each digit that is still missing is enough.
  fraction-Gives :
      (fuel : ℕ) (k : ℤ) (dscale : ℕ) (frac : Bytes)
      → AllDigits frac
      → dscale ≤ length frac + fuel
      → Gives (Long dscale) (fraction raw ndigits fuel k dscale frac)
  unfolding fraction
  fraction-Gives zero k dscale frac digits enough =
      if-intro (Gives (Long dscale)) (ltb (length frac) dscale)
        (λ e. absurd (omega (arith, ltb→lt (length frac) dscale e)))
        (λ e. (frac, refl, (digits, omega arith)))
  fraction-Gives (suc fuel) k dscale frac digits enough =
      if-intro (Gives (Long dscale)) (ltb (length frac) dscale)
        (λ _. Gives-then (Long dscale) (digit raw ndigits k) (digit-Gives k) (λ d _ _.
          fraction-Gives fuel (k +ℤ pos 1) dscale (frac ++ pad4 d)
            (digits_append frac (pad4 d) digits (pad4-AllDigits d))
            (omega (arith, length-append frac (pad4 d), pad4_grows d))))
        (λ e. (frac, refl, (digits, ge_of_ltb (length frac) dscale e)))

  frac_part-Gives :
      (weight : ℤ) (dscale : ℕ) → Gives (Point dscale) (frac_part raw ndigits weight dscale)
  unfolding frac_part
  frac_part-Gives weight zero = ([], refl, refl)
  frac_part-Gives weight (suc more) =
      Gives-then (Point (suc more))
        (fraction raw ndigits (suc more) (weight +ℤ pos 1) (suc more) [])
        (fraction-Gives (suc more) (weight +ℤ pos 1) (suc more) [] refl (omega arith))
        (λ frac _ long. (
          b'.' ∷ take (suc more) frac,
          refl,
          (
            take (suc more) frac,
            refl,
            take-AllDigits (suc more) frac long.0,
            length-take-le (suc more) frac long.1,
          ),
        ))

  spelled-Gives :
      (weight : ℤ) (sign dscale : ℕ)
      → u16_at raw 4 ≡ some sign
      → u16_at raw 6 ≡ some dscale
      → Gives (Written raw) (spelled raw ndigits weight sign dscale)
  unfolding spelled
  spelled-Gives weight sign dscale sign_is scale_is =
      Gives-then (Written raw) (whole_part raw ndigits weight) (whole_part-Gives weight)
        (λ whole _ digits.
          Gives-then (Written raw) (frac_part raw ndigits weight dscale)
            (frac_part-Gives weight dscale)
            (λ point _ points. (text _, refl, finite whole point sign_is scale_is digits points)))

fixed-Gives :
    (raw : Bytes) (sign code : ℕ) (t : Bytes)
    → u16_at raw 4 ≡ some sign
    → (sign == code) ≡ true
    → Member (code, t) fixed_texts
    → Gives (Written raw) (some (text t))
fixed-Gives raw sign code t sign_is same at =
    (text t, refl, not_finite (sign_is ∙ ap some ((==_iff sign code).0 same)) at)

by_sign-Gives :
    (raw : Bytes) (ndigits : ℕ) (weight : ℤ) (sign dscale : ℕ)
    → u16_at raw 0 ≡ some ndigits
    → u16_at raw 4 ≡ some sign
    → u16_at raw 6 ≡ some dscale
    → Gives (Written raw) (by_sign raw ndigits weight sign dscale)
unfolding by_sign
by_sign-Gives raw ndigits weight sign dscale digits_are sign_is scale_is =
    if-intro (Gives (Written raw)) (sign == 0xC000)
      (λ e. fixed-Gives raw sign 0xC000 (codes "NaN") sign_is e here)
      (λ _.
        if-intro (Gives (Written raw)) (sign == 0xD000)
          (λ e. fixed-Gives raw sign 0xD000 (codes "Infinity") sign_is e (there here))
          (λ _.
            if-intro (Gives (Written raw)) (sign == 0xF000)
              (λ e. fixed-Gives raw sign 0xF000 (codes "-Infinity") sign_is e (there (there here)))
              (λ _.
                if-intro (Gives (Written raw)) (ltb (length raw) (8 + ndigits * 2))
                  (λ e. (too_short, refl, digits_missing digits_are (ltb→lt _ _ e)))
                  (λ e.
                    spelled-Gives raw ndigits (ge_of_ltb (length raw) (8 + ndigits * 2) e) weight
                      sign dscale sign_is scale_is))))

-- The conversion never reads past the value and its loop ends: it refuses a value that is shorter
-- than its header or its digits, or writes the text of a value that is no number, or the sign,
-- digits, and, where the scale is not zero, a point with exactly as many digits behind it as the
-- scale says.
pub numeric_binary_to_text-Written :
    (raw : Bytes) → (d : Decoded) × (numeric_binary_to_text raw ≡ some d) × Written raw d
unfolding numeric_binary_to_text numeric_fields
numeric_binary_to_text-Written raw =
    if-intro (Gives (Written raw)) (ltb (length raw) 8)
      (λ e. (too_short, refl, no_header (ltb→lt (length raw) 8 e)))
      (λ e.
        let long = ge_of_ltb (length raw) 8 e in
        Gives-then (Written raw) (u16_at raw 0) (u16_at-Gives raw 0 (omega arith))
          (λ ndigits digits_are _.
            Gives-then (Written raw) (u16_at raw 2) (u16_at-Gives raw 2 (omega arith))
              (λ weight _ _.
                Gives-then (Written raw) (u16_at raw 4) (u16_at-Gives raw 4 (omega arith))
                  (λ sign sign_is _.
                    Gives-then (Written raw) (u16_at raw 6) (u16_at-Gives raw 6 (omega arith))
                      (λ dscale scale_is _.
                        by_sign-Gives raw ndigits (i16_of weight) sign dscale digits_are sign_is
                          scale_is)))))
