-- ===== src/Cursor/Numeric.antt =====
-- engine-py/src/cursor.rs: `numeric_binary_to_text`, which writes out the server's binary form of a
-- NUMERIC. `none` is the panic of an index out of range.
pub mod Written
use odoo_rust_orm.Prelude.{
  ℕ, zero, suc, ◌+◌, ◌-◌, ◌*◌, Bool, true, false, List, [], ◌∷◌, ◌++◌, Option, none, some, Bytes,
  codes, length, replicate, take, get_elem?, ltb, ◌==◌, if◌then◌else◌,
}
use odoo_rust_orm.Decimal.{decimal}
use odoo_rust_orm.Int.{ℤ, pos, negsuc, ◌+ℤ◌}

infixl 5 ◌>>=◌
abbrev pub ◌>>=◌ {ℓ κ} : {A : Type ℓ} {B : Type κ} → Option A → (A → Option B) → Option B
none >>= next = none
some a >>= next = next a

pub data Decoded : Type 0 where
  too_short : Decoded
  text : Bytes → Decoded

-- `u16::from_be_bytes([raw[i], raw[i + 1]])`
unfoldable pub u16_at : Bytes → ℕ → Option ℕ
u16_at raw i = do high ← get_elem? raw i; low ← get_elem? raw (i + 1); some (high * 256 + low)

-- `i16::from_be_bytes`
unfoldable pub i16_of : ℕ → ℤ
i16_of n = if ltb n 0x8000 then pos n else negsuc (0xFFFF - n)

-- `{:04}`
unfoldable pub pad4 : ℕ → Bytes
pad4 d = replicate (4 - length (decimal d)) b'0' ++ decimal d

module _ (raw : Bytes) (ndigits : ℕ) where
  -- `digit`, of the place behind the first digit; the digits that are left out are zero.
  unfoldable pub digit : ℤ → Option ℕ
  digit (negsuc _) = some 0
  digit (pos k) = if ltb k ndigits then u16_at raw (8 + 2 * k) else some 0

  unfoldable pub groups : ℕ → ℕ → Option Bytes
  groups k zero = some []
  groups k (suc count) = do d ← digit (pos k); rest ← groups (k + 1) count; some (pad4 d ++ rest)

  unfoldable pub whole_part : ℤ → Option Bytes
  whole_part (negsuc _) = some (codes "0")
  whole_part (pos weight) = do d ← digit (pos 0); rest ← groups 1 weight; some (decimal d ++ rest)

  -- `while frac.len() < dscale`; without fuel there is no answer.
  unfoldable pub fraction : ℕ → ℤ → ℕ → Bytes → Option Bytes
  fraction zero k dscale frac = if ltb (length frac) dscale then none else some frac
  fraction (suc fuel) k dscale frac =
      let next = (digit k >>= λ d. fraction fuel (k +ℤ pos 1) dscale (frac ++ pad4 d)) in
      if ltb (length frac) dscale then next else some frac

  -- Each round writes four digits at least.
  unfoldable pub frac_part : ℤ → ℕ → Option Bytes
  frac_part weight zero = some []
  frac_part weight (suc more) = do
    frac ← fraction (suc more) (weight +ℤ pos 1) (suc more) []
    some (b'.' ∷ take (suc more) frac)

  unfoldable pub spelled : ℤ → ℕ → ℕ → Option Decoded
  spelled weight sign dscale = do
    whole ← whole_part weight
    frac ← frac_part weight dscale
    some (text ((if sign == 0x4000 then codes "-" else []) ++ (whole ++ frac)))

  unfoldable pub by_sign : ℤ → ℕ → ℕ → Option Decoded
  by_sign weight sign dscale =
      if sign == 0xC000
      then some (text (codes "NaN"))
      else if sign == 0xD000
      then some (text (codes "Infinity"))
      else if sign == 0xF000
      then some (text (codes "-Infinity"))
      else if ltb (length raw) (8 + ndigits * 2)
      then some too_short
      else spelled weight sign dscale

unfoldable pub numeric_fields : Bytes → Option Decoded
numeric_fields raw = do
  ndigits ← u16_at raw 0
  weight ← u16_at raw 2
  sign ← u16_at raw 4
  dscale ← u16_at raw 6
  by_sign raw ndigits (i16_of weight) sign dscale

unfoldable pub numeric_binary_to_text : Bytes → Option Decoded
numeric_binary_to_text raw = if ltb (length raw) 8 then some too_short else numeric_fields raw
