-- ===== src/Registry/Groups/Stack.antt =====
-- kernel/src/registry.rs: the stack of `Security::groups_of`: what it holds, and how much can still be
-- put on it.
use odoo_rust_orm.Prelude.{
  ℕ, ◌+◌, ◌≤◌, ◌≡◌, inl, inr, refl, ap, ◌∙◌, true, false, ◌||◌, List, [], ◌∷◌, ◌++◌, reverse,
  length, length-append, if◌then◌else◌, arith, Bool-cases, ◌==◌,
}
use mathlib.Core.List.{reverse-append}
use odoo_rust_orm.Assoc.{member, lookup, id_key}
use odoo_rust_orm.Registry.Groups.{or_empty, extend, entries}

member-append : (g : ℕ) (xs ys : List ℕ) → member g (xs ++ ys) ≡ member g xs || member g ys
unfolding member
member-append g [] ys = refl
member-append g (x ∷ xs) ys = ground (arith, member-append g xs ys)

member-reverse : (g : ℕ) (xs : List ℕ) → member g (reverse xs) ≡ member g xs
unfolding member
member-reverse g [] = refl
member-reverse g (x ∷ xs) =
    ap (member g) (reverse-append (x ∷ []) xs)
    ∙ member-append g (reverse xs) (x ∷ [])
    ∙ (let ih = member-reverse g xs in ground (arith, ih))

pub member-extend :
    (g : ℕ) (more stack : List ℕ) → member g (extend more stack) ≡ member g more || member g stack
member-extend g more stack =
    member-append g (reverse more) stack ∙ ap (λ b. b || member g stack) (member-reverse g more)

length-reverse : (xs : List ℕ) → length (reverse xs) ≡ length xs
length-reverse [] = refl
length-reverse (x ∷ xs) =
    ap length (reverse-append (x ∷ []) xs)
    ∙ omega (arith, length-append (reverse xs) (x ∷ []), length-reverse xs)

pub length-extend : (more stack : List ℕ) → length (extend more stack) ≡ length more + length stack
length-extend more stack = omega (arith, length-append (reverse more) stack, length-reverse more)

-- What the entries of the groups not yet seen can still put on the stack.
abbrev pub pending : List ℕ → List (ℕ × List ℕ) → ℕ
pending seen [] = 0
pending seen (e ∷ es) = (if member e.0 seen then 0 else length e.1) + pending seen es

pending-le :
    (g : ℕ) (seen : List ℕ) (es : List (ℕ × List ℕ)) → pending (g ∷ seen) es ≤ pending seen es
unfolding member
pending-le g seen [] = omega arith
pending-le g seen (e ∷ es) = ground (arith, pending-le g seen es)

pub pending-entries : (es : List (ℕ × List ℕ)) → pending [] es ≡ entries es
unfolding member
pending-entries [] = refl
pending-entries (e ∷ es) = ap (λ n. length e.1 + n) (pending-entries es)

-- A group that is seen for the first time pays for what it puts there.
pub pending-fresh :
    (g : ℕ) (seen : List ℕ) (es : List (ℕ × List ℕ))
    → member g seen ≡ false
    → pending (g ∷ seen) es + length (or_empty (lookup g es)) ≤ pending seen es
unfolding member lookup
pending-fresh g seen [] new = omega arith
pending-fresh g seen (e ∷ es) new = elim (Bool-cases (e.0 == g)) [
  | inl eq ↦
      let same : e.0 ≡ g = ground arith in
      let back : (g == e.0) ≡ true = ground arith in
      let rest = pending-le g seen es in rw (eq, back, same, new) (omega arith)
  | inr ne ↦
      let back : (g == e.0) ≡ false = ground arith in
      let rest = pending-fresh g seen es new in rw (ne, back) (omega arith)
]
