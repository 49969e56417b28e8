-- ===== src/Domain/Depth/Limit.antt =====
-- kernel/src/domain.rs: `parse` builds nothing deeper than MAX_DOMAIN_NESTING.
use odoo_rust_orm.Prelude.{
  ◌≤◌, Bool, true, List, [], ◌∷◌, ◌⊎◌, inl, inr, ◌≡◌, refl, sym, arith, Bool-cases, Bytes, bytes_eq,
  ◌||◌,
}
use odoo_rust_orm.Error.{ok, >>=-eq-ok, ok-injective}
use odoo_rust_orm.Json.{Json, string, array, nil, cons, to_list, Sentinel, one_value, zero_value}
use odoo_rust_orm.Domain.{
  Node, true_node, false_node, max_domain_nesting, Item, finish, nary, parse_operand, parse_leaf,
  constant_leaf, combine, negate_node, negate, push_leaf, step, amp, bar, bang, parse_stack, close,
  parse,
}
use odoo_rust_orm.Domain.Junctions.{finish-from_node}
use odoo_rust_orm.Domain.Depth.{depth, AllTracked, nary-Tracked, negate_node-Tracked}

pub constant_leaf-ok :
    (a : Sentinel) (op : Bytes) (b : Sentinel) {n : Node}
    → constant_leaf a op b ≡ ok n
    → (n ≡ true_node) ⊎ (n ≡ false_node)
unfolding constant_leaf
constant_leaf-ok one_value op one_value h = inl (ground arith)
constant_leaf-ok zero_value op one_value h = inr (ground arith)
constant_leaf-ok _ op _ h = cc

constant_leaf-depth :
    (a : Sentinel) (op : Bytes) (b : Sentinel) {n : Node}
    → constant_leaf a op b ≡ ok n
    → depth n ≡ 1
unfolding constant_leaf
constant_leaf-depth a op b h = elim (constant_leaf-ok a op b h) [
  | inl e ↦ rw e (unfold depth in refl)
  | inr e ↦ rw e (unfold depth in refl)
]

parse_operand-depth :
    (a : Json) (op : Bytes) (b : Json) {n : Node} → parse_operand a op b ≡ ok n → depth n ≡ 1
unfolding parse_operand
parse_operand-depth (string f) op b h = rw (← ok-injective h) (unfold depth in refl)
parse_operand-depth a op b h = constant_leaf-depth _ op _ h

push_leaf-AllTracked :
    (a op b : Json) (stack : List Item) {out : List Item}
    → AllTracked stack
    → push_leaf a op b stack ≡ ok out
    → AllTracked out
unfolding push_leaf parse_leaf
push_leaf-AllTracked a (string op) b stack t h =
    let (n, read, e) = >>=-eq-ok (parse_operand a op b) _ h in
    rw (← ok-injective e)
      ((rw finish-from_node (sym (parse_operand-depth a op b read)), omega arith), t)
push_leaf-AllTracked a _ b stack t h = cc

combine-AllTracked :
    (op : Bool) (stack : List Item) {out : List Item}
    → AllTracked stack
    → combine op stack ≡ ok out
    → AllTracked out
unfolding combine
combine-AllTracked op (a ∷ b ∷ stack) (s, (t, ts)) h =
    let (i, built, e) = >>=-eq-ok (nary op (a ∷ b ∷ [])) _ h in
    rw (← ok-injective e) (nary-Tracked op (a ∷ b ∷ []) (s, (t, tt)) built, ts)
combine-AllTracked op _ t h = cc

negate-AllTracked :
    (stack : List Item) {out : List Item}
    → AllTracked stack
    → negate stack ≡ ok out
    → AllTracked out
unfolding negate
negate-AllTracked (a ∷ stack) (t, ts) h =
    let (i, built, e) = >>=-eq-ok (negate_node (finish a.node) a.depth) _ h in
    rw (← ok-injective e) (negate_node-Tracked (finish a.node) a.depth t.0 t.1 built, ts)
negate-AllTracked [] t h = cc

step-AllTracked :
    (j : Json) (stack : List Item) {out : List Item}
    → AllTracked stack
    → step j stack ≡ ok out
    → AllTracked out
unfolding step
step-AllTracked (string op) stack t h = elim (Bool-cases (bytes_eq op amp || bytes_eq op bar)) [
  | inl e ↦ combine-AllTracked (bytes_eq op amp) stack t (rw e at h)
  | inr e ↦ elim (Bool-cases (bytes_eq op bang)) [
    | inl f ↦ negate-AllTracked stack t (rw (e, f) at h)
    | inr f ↦ cc (rw (e, f) at h)
  ]
]
step-AllTracked (array (cons a (cons b (cons c nil)))) stack t h =
    push_leaf-AllTracked a b c stack t h
step-AllTracked _ stack t h = cc

parse_stack-AllTracked :
    (items : List Json) {out : List Item} → parse_stack items ≡ ok out → AllTracked out
unfolding parse_stack
parse_stack-AllTracked [] h = rw (← ok-injective h) tt
parse_stack-AllTracked (j ∷ items) h =
    let (stack, before, now) = >>=-eq-ok (parse_stack items) (step j) h in
    step-AllTracked j stack (parse_stack-AllTracked items before) now

depth-close :
    (stack : List Item) {n : Node}
    → AllTracked stack
    → close stack ≡ ok n
    → depth n ≤ max_domain_nesting
unfolding close
depth-close [] t h = rw (← ok-injective h) (unfold depth in omega arith)
depth-close (a ∷ []) t h = rw (← ok-injective h) (omega (arith, t.0))
depth-close (a ∷ b ∷ stack) t h =
    let (i, built, e) = >>=-eq-ok (nary true (a ∷ b ∷ stack)) _ h in
    rw (← ok-injective e) (omega (arith, nary-Tracked true (a ∷ b ∷ stack) t built))

-- No accepted domain nests deeper than the limit, whatever its text: what is built can be
-- walked recursively.
pub depth-parse-le : (j : Json) {n : Node} → parse j ≡ ok n → depth n ≤ max_domain_nesting
unfolding parse
depth-parse-le (array items) h =
    let (stack, read, closed) = >>=-eq-ok (parse_stack (to_list items)) close h in
    depth-close stack (parse_stack-AllTracked (to_list items) read) closed
depth-parse-le _ h = cc
