-- ===== src/Decimal.antt =====
-- How Rust prints an unsigned integer.
use odoo_rust_orm.Prelude.{
  ℕ, zero, suc, ◌+◌, ◌/◌, ◌%◌, ◌≡◌, refl, arith, true, [], ◌∷◌, Bytes, all, ◌==◌, if◌then◌else◌,
  Bool-cases, inl, inr,
}
use odoo_rust_orm.Sqllex.{is_digit}

unfoldable pub decimal_loop : ℕ → ℕ → Bytes → Bytes
decimal_loop zero n printed = printed
decimal_loop (suc fuel) n printed =
    let longer = (b'0' + n % 10) ∷ printed in
    let rest = decimal_loop fuel (n / 10) longer in if n / 10 == 0 then longer else rest

-- A number has no more digits than it counts.
unfoldable pub decimal : ℕ → Bytes
decimal n = decimal_loop (n + 1) n []

digit-is_digit : (n : ℕ) → is_digit (b'0' + n % 10) ≡ true
digit-is_digit n = ground arith

decimal_loop-is_digit :
    (fuel n : ℕ) (printed : Bytes)
    → all (λ b. is_digit b) printed ≡ true
    → all (λ b. is_digit b) (decimal_loop fuel n printed) ≡ true
unfolding decimal_loop
decimal_loop-is_digit zero n printed h = h
decimal_loop-is_digit (suc fuel) n printed h =
    let here = digit-is_digit n in
    elim (Bool-cases (n / 10 == 0)) [
      | inl e ↦ rw e (ground arith)
      | inr e ↦ rw e (decimal_loop-is_digit fuel (n / 10) _ (ground arith))
    ]

pub decimal-is_digit : (n : ℕ) → all (λ b. is_digit b) (decimal n) ≡ true
unfolding decimal
decimal-is_digit n = decimal_loop-is_digit (n + 1) n [] refl
