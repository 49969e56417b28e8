-- ===== src/Tests/Numerics.antt =====
-- Runs of `numeric_binary_to_text` of engine-py/src/cursor.rs, and its theorem at a concrete value.
use odoo_rust_orm.Prelude.{some, [], ◌∷◌, ◌≡◌, refl, Bytes, codes}
use odoo_rust_orm.Decimal.{decimal_loop, decimal}
use odoo_rust_orm.Int.{◌+ℤ◌}
use odoo_rust_orm.Cursor.Numeric.{
  Decoded, too_short, text, u16_at, i16_of, pad4, digit, groups, whole_part, fraction, frac_part,
  spelled, by_sign, numeric_fields, numeric_binary_to_text,
}
use odoo_rust_orm.Cursor.Numeric.Written.{Written, numeric_binary_to_text-Written}

decoding : Unit {0}
unfolding decimal_loop decimal ◌+ℤ◌ u16_at i16_of pad4 digit groups whole_part fraction frac_part
    spelled by_sign numeric_fields numeric_binary_to_text
decoding = tt

-- The digits 1, 2345 and 6780, of which three are behind the point.
abbrev stored : Bytes
stored = 0 ∷ 3 ∷ 0 ∷ 1 ∷ 0 ∷ 0 ∷ 0 ∷ 3 ∷ 0 ∷ 1 ∷ 9 ∷ 41 ∷ 26 ∷ 124 ∷ []

stored_text : numeric_binary_to_text stored ≡ some (text (codes "12345.678"))
unfolding decoding
stored_text = refl

-- A value below one, whose first digit stands behind the point.
small_text :
    numeric_binary_to_text (0 ∷ 1 ∷ 255 ∷ 254 ∷ 64 ∷ 0 ∷ 0 ∷ 9 ∷ 0 ∷ 5 ∷ [])
    ≡ some (text (codes "-0.000000050"))
unfolding decoding
small_text = refl

-- A digit is missing; and a value that is no number.
missing_digit :
    (numeric_binary_to_text (0 ∷ 1 ∷ 0 ∷ 0 ∷ 0 ∷ 0 ∷ 0 ∷ 0 ∷ 7 ∷ []) ≡ some too_short)
    × (numeric_binary_to_text (0 ∷ 0 ∷ 0 ∷ 0 ∷ 192 ∷ 0 ∷ 0 ∷ 0 ∷ []) ≡ some (text (codes "NaN")))
unfolding decoding
missing_digit = (refl, refl)

numeric_binary_to_text-Written_example :
    (d : Decoded) × (numeric_binary_to_text stored ≡ some d) × Written stored d
numeric_binary_to_text-Written_example = numeric_binary_to_text-Written stored
