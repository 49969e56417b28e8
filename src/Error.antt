-- ===== src/Error.antt =====
-- kernel/src/error.rs: what an `anyhow` chain holds, and its classification.
-- The messages are left out: an error is the list of its causes, outermost first.
use odoo_rust_orm.Prelude.{List, [], ◌∷◌, Bool, true, false, ◌≡◌, refl, any, subst}

pub data Cause : Type 0 where
  database tx_end_failed registry_stale access_denied refusal needs_round_trip other : Cause

abbrev pub Chain : Type 0
Chain = List Cause

pub data ErrorKind : Type 0 where
  refused denied stale db internal : ErrorKind

-- `ErrorKind::of`: the first cause that has a kind decides.
unfoldable pub kind_of : Chain → ErrorKind
kind_of [] = internal
kind_of (database ∷ _) = db
kind_of (tx_end_failed ∷ _) = db
kind_of (registry_stale ∷ _) = stale
kind_of (access_denied ∷ _) = denied
kind_of (refusal ∷ _) = refused
kind_of (needs_round_trip ∷ rest) = kind_of rest
kind_of (other ∷ rest) = kind_of rest

abbrev is_round_trip : Cause → Bool
is_round_trip needs_round_trip = true
is_round_trip _ = false

-- `needs_round_trip`
unfoldable pub wants_round_trip : Chain → Bool
wants_round_trip chain = any is_round_trip chain

pub data Result {ℓ} (A : Type ℓ) : Type ℓ where
  ok : A → Result A
  err : Chain → Result A

infixl 5 ◌>>=◌ ◌>>◌
-- The `?` operator: the first error ends the function.
abbrev pub ◌>>=◌ {ℓ κ} : {A : Type ℓ} {B : Type κ} → Result A → (A → Result B) → Result B
err chain >>= next = err chain
ok value >>= next = next value

abbrev pub ◌>>◌ {κ} : {B : Type κ} → Result (Unit {0}) → Result B → Result B
guard >> rest = guard >>= λ done. rest

-- The `refuse!` and `deny_access!` macros.
abbrev pub refuse {ℓ} : {A : Type ℓ} → Result A
refuse = err (refusal ∷ [])

abbrev pub deny_access {ℓ} : {A : Type ℓ} → Result A
deny_access = err (access_denied ∷ [])

pub ok-injective {ℓ} : {A : Type ℓ} {x y : A} → ok x ≡ ok y → x ≡ y
ok-injective same = cc

-- What a function that succeeds has passed through.
pub >>=-eq-ok {ℓ κ} :
    {A : Type ℓ} {B : Type κ} {out : B} (first : Result A) (next : A → Result B)
    → (first >>= next) ≡ ok out
    → (mid : A) × (first ≡ ok mid) × (next mid ≡ ok out)
>>=-eq-ok (err chain) next went = cc
>>=-eq-ok (ok value) next went = (value, refl, went)

-- Whatever a function gives, if it succeeds.
abbrev pub Each {ℓ κ} : {A : Type ℓ} → (A → Type κ) → Result A → Type κ
Each P (ok value) = P value
Each P (err chain) = Unit

pub Each-ok {ℓ κ} : {A : Type ℓ} (P : A → Type κ) {r : Result A} {x : A} → Each P r → r ≡ ok x → P x
Each-ok P each h = subst (Each P) h each

pub Each-then {ℓ κ μ ν} :
    {A : Type ℓ} {B : Type κ} (Q : A → Type μ) (P : B → Type ν) (m : Result A) (next : A → Result B)
    → Each Q m
    → ((value : A) → Q value → Each P (next value))
    → Each P (m >>= next)
Each-then Q P (ok value) next each go = go value each
Each-then Q P (err chain) next each go = tt

pub Each-imp {ℓ κ μ} :
    {A : Type ℓ} (Q : A → Type κ) (P : A → Type μ) (r : Result A)
    → ((value : A) → Q value → P value)
    → Each Q r
    → Each P r
Each-imp Q P (ok value) go each = go value each
Each-imp Q P (err chain) go each = tt

-- What holds where a function succeeds.
pub Each-intro {ℓ κ} :
    {A : Type ℓ} {P : A → Type κ} (r : Result A) → ((value : A) → r ≡ ok value → P value) → Each P r
Each-intro (ok value) holds = holds value refl
Each-intro (err chain) holds = tt

pub Each-step {ℓ κ ν} :
    {A : Type ℓ} {B : Type κ} (P : B → Type ν) (m : Result A) (next : A → Result B)
    → ((value : A) → Each P (next value))
    → Each P (m >>= next)
Each-step P (ok value) next go = go value
Each-step P (err chain) next go = tt
