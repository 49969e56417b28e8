-- ===== src/Domain/Internal/Smaller.antt =====
-- kernel/src/domain.rs: the domain that `parse_nested` reads off a value has leaves whose values
-- nest less deep than that value.
use odoo_rust_orm.Prelude.{
  ◌≤◌, ◌<◌, max, Bool, true, ◌||◌, List, [], ◌∷◌, ◌++◌, some, ◌≡◌, refl, sym, ap, ◌∙◌, arith,
  append_assoc, Bool-cases, inl, inr, Bytes, bytes_eq,
}
use odoo_rust_orm.Error.{Result, ok, err, >>=-eq-ok, ok-injective}
use odoo_rust_orm.Json.{Json, string, array, Items, nil, cons, to_list}
use odoo_rust_orm.Domain.{
  Leaf, Node, Item, finish, constant_leaf, parse_operand, parse_leaf, sentinel_number, combine,
  negate, push_leaf, step, amp, bar, bang, parse_stack, close, parse,
}
use odoo_rust_orm.Domain.Depth.Limit.{constant_leaf-ok}
use odoo_rust_orm.Domain.Junctions.{leaf_list, value, item_values, finish-from_node}
use odoo_rust_orm.Domain.Nested.{accepted, parse_nested, parse_nested-parse}
use odoo_rust_orm.Domain.Prefix.Sound.{value-combine, value-negate, value-close}
use odoo_rust_orm.Domain.Internal.{json_height, items_height, leaves, tallest}

abbrev read_leaf : Leaf → List Leaf
read_leaf l = l ∷ []

-- The leaves of the items of a stack.
abbrev stacked : List Item → List Leaf
stacked stack = item_values leaf_list read_leaf true stack

tallest-append : (ls ms : List Leaf) → tallest (ls ++ ms) ≡ max (tallest ls) (tallest ms)
tallest-append [] ms = omega arith
tallest-append (l ∷ ls) ms = omega (arith, tallest-append ls ms)

stacked-combine :
    (op : Bool) (stack : List Item) {out : List Item}
    → combine op stack ≡ ok out
    → stacked out ≡ stacked stack
unfolding item_values combine
stacked-combine op (a ∷ b ∷ stack) h =
    let (i, out_is, joins) = value-combine leaf_list read_leaf op a b stack h in
    rw (out_is, joins) (append_assoc (leaves (finish a.node)) (leaves (finish b.node)) _)
stacked-combine op (a ∷ []) h = cc
stacked-combine op [] h = cc

stacked-negate :
    (stack : List Item) {out : List Item} → negate stack ≡ ok out → stacked out ≡ stacked stack
unfolding item_values negate
stacked-negate (a ∷ stack) h =
    let (i, out_is, same) = value-negate leaf_list read_leaf a stack h in rw (out_is, same) refl
stacked-negate [] h = cc

constant_leaf-leaves :
    (a : Json) (op : Bytes) (b : Json) {n : Node}
    → constant_leaf (sentinel_number a) op (sentinel_number b) ≡ ok n
    → leaves n ≡ []
unfolding value
constant_leaf-leaves a op b h = elim (constant_leaf-ok _ op _ h) [
  | inl e ↦ rw e refl
  | inr e ↦ rw e refl
]

parse_operand-tallest :
    (a : Json) (op : Bytes) (b : Json) {n : Node}
    → parse_operand a op b ≡ ok n
    → tallest (leaves n) ≤ json_height b
unfolding parse_operand value
parse_operand-tallest (string f) op b h = rw (← ok-injective h) (omega arith)
parse_operand-tallest a op b h = rw (constant_leaf-leaves a op b h) (omega arith)

stacked-push_leaf :
    (a op b : Json) (stack : List Item) {out : List Item}
    → push_leaf a op b stack ≡ ok out
    → tallest (stacked out) ≤ max (json_height b) (tallest (stacked stack))
unfolding push_leaf parse_leaf item_values
stacked-push_leaf a (string op) b stack h =
    let (n, read, e) = >>=-eq-ok (parse_operand a op b) _ h in
    rw (← ok-injective e, finish-from_node, tallest-append)
      (omega (arith, parse_operand-tallest a op b read))
stacked-push_leaf a _ b stack h = cc

stacked-step :
    (j : Json) (stack : List Item) {out : List Item}
    → step j stack ≡ ok out
    → tallest (stacked out) ≤ max (json_height j) (tallest (stacked stack))
unfolding step json_height
stacked-step (string op) stack h = elim (Bool-cases (bytes_eq op amp || bytes_eq op bar)) [
  | inl e ↦ omega (arith, ap tallest (stacked-combine (bytes_eq op amp) stack (rw e at h)))
  | inr e ↦ elim (Bool-cases (bytes_eq op bang)) [
    | inl f ↦ omega (arith, ap tallest (stacked-negate stack (rw (e, f) at h)))
    | inr f ↦ cc (rw (e, f) at h)
  ]
]
stacked-step (array (cons a (cons b (cons c nil)))) stack h =
    omega (arith, stacked-push_leaf a b c stack h)
stacked-step _ stack h = cc

stacked-parse_stack :
    (items : Items) {out : List Item}
    → parse_stack (to_list items) ≡ ok out
    → tallest (stacked out) ≤ items_height items
unfolding parse_stack json_height
stacked-parse_stack nil h = rw (← ok-injective h) (unfold item_values in omega arith)
stacked-parse_stack (cons j items) h =
    let (stack, before, now) = >>=-eq-ok (parse_stack (to_list items)) (step j) h in
    omega (arith, stacked-step j stack now, stacked-parse_stack items before)

parse-tallest : (v : Json) {n : Node} → parse v ≡ ok n → tallest (leaves n) < json_height v
unfolding parse json_height
parse-tallest (array items) h =
    let (stack, read, closed) = >>=-eq-ok (parse_stack (to_list items)) close h in
    omega (
      arith,
      ap tallest (value-close leaf_list read_leaf stack closed),
      stacked-parse_stack items read,
    )
parse-tallest _ h = cc

accepted-ok : {A : Type 0} (r : Result A) {a : A} → accepted r ≡ some a → r ≡ ok a
accepted-ok (ok x) h = cc
accepted-ok (err chain) h = cc

pub parse_nested-tallest :
    (v : Json) {n : Node} → parse_nested v ≡ some n → tallest (leaves n) < json_height v
parse_nested-tallest v h = parse-tallest v (accepted-ok (parse v) (sym (parse_nested-parse v) ∙ h))
