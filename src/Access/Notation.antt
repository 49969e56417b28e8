-- ===== src/Access/Notation.antt =====
-- kernel/src/security.rs: what `normalize_domain`, `or_domains` and `scoped` spell, as prefix
-- notation.
use odoo_rust_orm.Prelude.{
  ℕ, zero, suc, Bool, true, false, List, [], ◌∷◌, ◌++◌, ◌≡◌, refl, sym, ap, ◌∙◌, append_assoc,
  append-nil, length, replicate, flat_map, bytes_eq, arith,
}
use odoo_rust_orm.Json.{Json, string, array, of_list}
use odoo_rust_orm.Domain.{amp, bang}
use odoo_rust_orm.Domain.Prefix.{Expr, term, constant, negated, both, operator, tokens}
use odoo_rust_orm.Access.{expect, normalize_loop, normalize_domain}

-- Several expressions under one operator, from the left.
abbrev pub under : Bool → Expr → List Expr → Expr
under op e [] = e
under op e (f ∷ fs) = under op (both op e f) fs

abbrev pub spelled : List Expr → Json
spelled es = array (of_list (flat_map tokens es))

operands :
    {A : Type 0} (out : List A) (op : A) (a b : List A)
    → ((out ++ op ∷ []) ++ a) ++ b ≡ out ++ op ∷ (a ++ b)
operands out op a b = rw (append_assoc, append_assoc)

normalize_loop-operator :
    (op : Bool) (out : List Json) (n : ℕ) (rest : List Json)
    → normalize_loop out (suc n) (operator op ∷ rest)
      ≡ normalize_loop (out ++ operator op ∷ []) (suc (suc n)) rest
unfolding normalize_loop expect bytes_eq
normalize_loop-operator true out n rest =
    ap (λ k. normalize_loop (out ++ operator true ∷ []) k rest) (omega arith)
normalize_loop-operator false out n rest =
    ap (λ k. normalize_loop (out ++ operator false ∷ []) k rest) (omega arith)

-- A complete expression takes one off what is expected.
normalize_loop-tokens :
    (e : Expr) (out : List Json) (n : ℕ) (rest : List Json)
    → normalize_loop out (suc n) (tokens e ++ rest) ≡ normalize_loop (out ++ tokens e) n rest
unfolding normalize_loop expect bytes_eq
normalize_loop-tokens (term l) out n rest =
    ap (λ k. normalize_loop (out ++ tokens (term l)) k rest) (omega arith)
normalize_loop-tokens (constant true) out n rest =
    ap (λ k. normalize_loop (out ++ tokens (constant true)) k rest) (omega arith)
normalize_loop-tokens (constant false) out n rest =
    ap (λ k. normalize_loop (out ++ tokens (constant false)) k rest) (omega arith)
normalize_loop-tokens (negated e) out n rest =
    normalize_loop-tokens e (out ++ string bang ∷ []) n rest
    ∙ ap (λ l. normalize_loop l n rest) (append_assoc out (string bang ∷ []) (tokens e))
normalize_loop-tokens (both op a b) out n rest =
    normalize_loop-operator op out n ((tokens a ++ tokens b) ++ rest)
    ∙ ap (normalize_loop (out ++ operator op ∷ []) (suc (suc n)))
        (append_assoc (tokens a) (tokens b) rest)
    ∙ normalize_loop-tokens a (out ++ operator op ∷ []) (suc n) (tokens b ++ rest)
    ∙ normalize_loop-tokens b ((out ++ operator op ∷ []) ++ tokens a) n rest
    ∙ ap (λ l. normalize_loop l n rest) (operands out (operator op) (tokens a) (tokens b))

-- An expression is not spelled by nothing.
pub tokens-cons : (e : Expr) → (item : Json) × (items : List Json) × (tokens e ≡ item ∷ items)
tokens-cons (term l) = (_, _, refl)
tokens-cons (constant true) = (_, _, refl)
tokens-cons (constant false) = (_, _, refl)
tokens-cons (negated e) = (_, _, refl)
tokens-cons (both op a b) = (_, _, refl)

-- A complete term is joined to the next one by `&`.
normalize_loop-next :
    (e f : Expr) (rest : List Json)
    → normalize_loop (tokens e) 0 (tokens f ++ rest)
      ≡ normalize_loop (tokens (both true e f)) 0 rest
normalize_loop-next e f rest =
    let (item, items, spells) = tokens-cons f in
    ap (λ l. normalize_loop (tokens e) 0 (l ++ rest)) spells
    ∙ unfold normalize_loop in
      refl
      ∙ ap (λ l. normalize_loop (string amp ∷ tokens e) 1 (l ++ rest)) (sym spells)
      ∙ normalize_loop-tokens f (string amp ∷ tokens e) 0 rest

normalize_loop-all :
    (e : Expr) (fs : List Expr)
    → normalize_loop (tokens e) 0 (flat_map tokens fs) ≡ tokens (under true e fs)
normalize_loop-all e [] = unfold normalize_loop in refl
normalize_loop-all e (f ∷ fs) =
    normalize_loop-next e f (flat_map tokens fs) ∙ normalize_loop-all (both true e f) fs

pub normalize_domain-tokens :
    (e : Expr) (fs : List Expr)
    → normalize_domain (flat_map tokens (e ∷ fs)) ≡ tokens (under true e fs)
unfolding normalize_domain
normalize_domain-tokens e fs =
    normalize_loop-tokens e [] 0 (flat_map tokens fs) ∙ normalize_loop-all e fs

replicate-next :
    {A : Type 0} (n : ℕ) (a : A) (l : List A) → replicate (suc n) a ++ l ≡ replicate n a ++ a ∷ l
replicate-next zero a l = refl
replicate-next (suc n) a l = ap (◌∷◌ a) (replicate-next n a l)

-- As many operators as there are operands, less one, and the operands.
pub replicate-tokens :
    (op : Bool) (e : Expr) (fs : List Expr)
    → replicate (length fs) (operator op) ++ (tokens e ++ flat_map tokens fs)
      ≡ tokens (under op e fs)
replicate-tokens op e [] = append-nil (tokens e)
replicate-tokens op e (f ∷ fs) =
    replicate-next (length fs) (operator op) (tokens e ++ (tokens f ++ flat_map tokens fs))
    ∙ ap (λ l. replicate (length fs) (operator op) ++ operator op ∷ l)
        (sym (append_assoc (tokens e) (tokens f) (flat_map tokens fs)))
    ∙ replicate-tokens op (both op e f) fs
