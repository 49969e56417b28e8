-- ===== src/Int.antt =====
-- i64 arithmetic, on which kernel/src/security.rs evaluates whole numbers.
use odoo_rust_orm.Prelude.{
  ℕ, suc, ◌+◌, ◌-◌, Bool, false, Option, none, some, ltb, leb, ◌==◌, if◌then◌else◌,
}

-- `negsuc n` is -(n + 1).
pub data ℤ : Type 0 where
  pos : ℕ → ℤ
  negsuc : ℕ → ℤ

abbrev pub pos_part : ℤ → ℕ
pos_part (pos n) = n
pos_part (negsuc n) = 0

abbrev pub neg_part : ℤ → ℕ
neg_part (pos n) = 0
neg_part (negsuc n) = suc n

-- a - b, as an integer.
abbrev pub sub_ℕ : ℕ → ℕ → ℤ
sub_ℕ a b = if leb b a then pos (a - b) else negsuc (b - a - 1)

infixl 65 ◌+ℤ◌
unfoldable pub ◌+ℤ◌ : ℤ → ℤ → ℤ
a +ℤ b = sub_ℕ (pos_part a + pos_part b) (neg_part a + neg_part b)

-- Whether an i64 holds the number.
abbrev pub is_i64 : ℤ → Bool
is_i64 (pos n) = ltb n 0x8000000000000000
is_i64 (negsuc n) = ltb n 0x8000000000000000

-- `i64::checked_add`
unfoldable pub checked_add : ℤ → ℤ → Option ℤ
checked_add a b = if is_i64 (a +ℤ b) then some (a +ℤ b) else none

abbrev pub ltb_ℤ : ℤ → ℤ → Bool
ltb_ℤ a b = ltb (pos_part a + neg_part b) (pos_part b + neg_part a)

abbrev pub eqb_ℤ : ℤ → ℤ → Bool
eqb_ℤ (pos a) (pos b) = a == b
eqb_ℤ (negsuc a) (negsuc b) = a == b
eqb_ℤ _ _ = false
