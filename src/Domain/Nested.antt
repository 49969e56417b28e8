-- ===== src/Domain/Nested.antt =====
-- kernel/src/domain.rs: `parse_nested`, which reads a leaf's value as a domain of its own.
use odoo_rust_orm.Prelude.{
  Bool, true, false, ◌||◌, List, [], ◌∷◌, Option, none, some, ◌≡◌, refl, sym, arith, bytes_eq, all,
  if◌then◌else◌, Bool-cases, inl, inr,
}
use odoo_rust_orm.Error.{Result, ok, err, >>=-eq-ok}
use odoo_rust_orm.Json.{Json, string, array, nil, cons, to_list}
use odoo_rust_orm.Domain.{Node, Item, amp, bar, bang, step, parse_stack, close, parse}

unfoldable pub looks_like_a_term : Json → Bool
looks_like_a_term (string s) = bytes_eq s amp || bytes_eq s bar || bytes_eq s bang
looks_like_a_term (array (cons _ (cons _ (cons _ nil)))) = true
looks_like_a_term _ = false

-- `parse(value).ok()`
abbrev pub accepted {ℓ} : {A : Type ℓ} → Result A → Option A
accepted (ok a) = some a
accepted (err chain) = none

unfoldable pub parse_nested : Json → Option Node
parse_nested (array items) =
    if all (λ i. looks_like_a_term i) (to_list items) then accepted (parse (array items)) else none
parse_nested _ = none

-- What the parser takes as a term looks like one.
step-looks_like_a_term :
    (item : Json) (stack : List Item) {out : List Item}
    → step item stack ≡ ok out
    → looks_like_a_term item ≡ true
unfolding step looks_like_a_term
step-looks_like_a_term (string s) stack h = ground arith
step-looks_like_a_term (array (cons a (cons b (cons c nil)))) stack h = refl
step-looks_like_a_term _ stack h = cc

parse_stack-looks_like_a_term :
    (items : List Json) {out : List Item}
    → parse_stack items ≡ ok out
    → all (λ i. looks_like_a_term i) items ≡ true
unfolding parse_stack
parse_stack-looks_like_a_term [] h = refl
parse_stack-looks_like_a_term (item ∷ items) h =
    let (stack, below, now) = >>=-eq-ok (parse_stack items) (step item) h in
    let here = step-looks_like_a_term item stack now in
    rw here (parse_stack-looks_like_a_term items below)

-- The quiet reader accepts exactly what the parser accepts, with the same node.
pub parse_nested-parse : (value : Json) → parse_nested value ≡ accepted (parse value)
unfolding parse_nested parse
parse_nested-parse (array items) =
    elim (Bool-cases (all (λ i. looks_like_a_term i) (to_list items))) [
      | inl e ↦ rw e
      | inr e ↦ rw e (sym (refused (parse (array items)) (λ n h. strange n h e)))
    ]
  where
    strange :
        (n : Node)
        → parse (array items) ≡ ok n
        → all (λ i. looks_like_a_term i) (to_list items) ≡ false
        → ⊥
    strange n h e =
        let (stack, below, now) = >>=-eq-ok (parse_stack (to_list items)) close h in
        cc (parse_stack-looks_like_a_term (to_list items) below, e)

    refused : (r : Result Node) → ((n : Node) → r ≡ ok n → ⊥) → accepted r ≡ none
    refused (ok n) never = absurd (never n refl)
    refused (err chain) never = refl
parse_nested-parse _ = refl
