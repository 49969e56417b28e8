-- ===== src/Domain/Prefix/Accepted.antt =====
-- kernel/src/domain.rs: the domains that `parse` accepts are those of prefix notation.
use odoo_rust_orm.Prelude.{
  Bool, true, false, List, [], ◌∷◌, ◌++◌, ◌≡◌, refl, sym, ap, ap₂, ◌∙◌, subst, append_assoc, Bytes,
  bytes_eq, bytes_eq_iff, Bool-cases, inl, inr,
}
use odoo_rust_orm.Error.{ok, refuse, >>=-eq-ok, ok-injective}
use odoo_rust_orm.Json.{Json, string, array, nil, cons, to_list}
use odoo_rust_orm.Domain.{
  Node, Item, parse_leaf, combine, negate, push_leaf, amp, bar, bang, step, parse_stack, close,
  parse, Leaf,
}
use odoo_rust_orm.Domain.Meaning.{Truth, eval}
use odoo_rust_orm.Domain.Junctions.{
  Algebra, truth, value, value-truth, finish-from_node, item_values,
}
use odoo_rust_orm.Domain.Prefix.{Expr, negated, both, operator, meanings, Denotes}
use odoo_rust_orm.Domain.Prefix.Sound.{value-combine, value-negate, value-close}
use odoo_rust_orm.Domain.Prefix.Notation.{Spells, SpellsAll, Notates, parse_leaf-Leafs}

module _ (A : Algebra) (read : Leaf → A.Value) where
  -- What the stack holds stands for the terms that were read: an item for an expression each.
  abbrev Stacked : List Json → List Item → Type 0
  Stacked ts [] = ts ≡ []
  Stacked ts (i ∷ stack) =
      (e : Expr) × (us vs : List Json) × (ts ≡ us ++ vs)
      × Spells e us
      × Denotes A read i e
      × Stacked vs stack

  operator-Stacked :
      (op : Bool) (ts : List Json) (stack : List Item) {out : List Item}
      → Stacked ts stack
      → combine op stack ≡ ok out
      → Stacked (operator op ∷ ts) out
  unfolding combine
  operator-Stacked op ts [] held h = cc
  operator-Stacked op ts (a ∷ []) held h = cc
  operator-Stacked op ts (a ∷ b ∷ stack) {out} held h =
      let (e, us, vs, is, spells, means, below) = held in
      let (f, ws, xs, is', spells', means', rest) = below in
      let (i, out_is, joins) = value-combine A read op a b stack h in
      subst (λ o. Stacked (operator op ∷ ts) o) (sym out_is)
        (
          both op e f,
          operator op ∷ (us ++ ws),
          xs,
          ap (◌∷◌ (operator op)) (is ∙ ap (λ l. us ++ l) is' ∙ sym (append_assoc us ws xs)),
          (us, ws, refl, spells, spells'),
          joins ∙ ap₂ (A.join op) means means',
          rest,
        )

  bang-Stacked :
      (ts : List Json) (stack : List Item) {out : List Item}
      → Stacked ts stack
      → negate stack ≡ ok out
      → Stacked (string bang ∷ ts) out
  unfolding negate
  bang-Stacked ts [] held h = cc
  bang-Stacked ts (a ∷ stack) held h =
      let (e, us, vs, is, spells, means, rest) = held in
      let (i, out_is, neg) = value-negate A read a stack h in
      subst (λ o. Stacked (string bang ∷ ts) o) (sym out_is)
        (
          negated e,
          string bang ∷ us,
          vs,
          ap (◌∷◌ (string bang)) is,
          (us, refl, spells),
          neg ∙ ap A.negate means,
          rest,
        )

  leaf-Stacked :
      (left op right : Json) (ts : List Json) (stack : List Item) {out : List Item}
      → Stacked ts stack
      → push_leaf left op right stack ≡ ok out
      → Stacked (array (cons left (cons op (cons right nil))) ∷ ts) out
  unfolding push_leaf
  leaf-Stacked left op right ts stack {out} held h =
      let (n, is, pushed) = >>=-eq-ok (parse_leaf left op right) _ h in
      let (e, spells, means) = parse_leaf-Leafs A read left op right is in
      let term_json = array (cons left (cons op (cons right nil))) in
      subst (λ o. Stacked (term_json ∷ ts) o) (ok-injective pushed)
        (e, term_json ∷ [], ts, refl, spells, ap (value A read) (finish-from_node n) ∙ means, held)

  word-Stacked :
      (op : Bytes) (ts : List Json) (stack : List Item) {out : List Item}
      → Stacked ts stack
      → step (string op) stack ≡ ok out
      → Stacked (string op ∷ ts) out
  unfolding step
  word-Stacked op ts stack {out} held h = elim (Bool-cases (bytes_eq op amp)) [
    | inl e ↦
        subst (λ o. Stacked (string o ∷ ts) out) (sym ((bytes_eq_iff op amp).0 e))
          (operator-Stacked true ts stack held (rw e at h))
    | inr n ↦ elim (Bool-cases (bytes_eq op bar)) [
      | inl e ↦
          subst (λ o. Stacked (string o ∷ ts) out) (sym ((bytes_eq_iff op bar).0 e))
            (operator-Stacked false ts stack held (rw (n, e) at h))
      | inr m ↦ elim (Bool-cases (bytes_eq op bang)) [
        | inl e ↦
            subst (λ o. Stacked (string o ∷ ts) out) (sym ((bytes_eq_iff op bang).0 e))
              (bang-Stacked ts stack held (rw (n, m, e) at h))
        | inr k ↦ let not_so : refuse ≡ ok out = rw (n, m, k) at h in cc
      ]
    ]
  ]

  step-Stacked :
      (item : Json) (ts : List Json) (stack : List Item) {out : List Item}
      → Stacked ts stack
      → step item stack ≡ ok out
      → Stacked (item ∷ ts) out
  unfolding step
  step-Stacked (string op) ts stack held h = word-Stacked op ts stack held h
  step-Stacked (array (cons a (cons b (cons c nil)))) ts stack held h =
      leaf-Stacked a b c ts stack held h
  step-Stacked _ ts stack held h = cc

  parse_stack-Stacked :
      (ts : List Json) {out : List Item} → parse_stack ts ≡ ok out → Stacked ts out
  unfolding parse_stack
  parse_stack-Stacked [] h = subst (λ o. Stacked [] o) (ok-injective h) refl
  parse_stack-Stacked (t ∷ ts) h =
      let (stack, before, now) = >>=-eq-ok (parse_stack ts) (step t) h in
      step-Stacked t ts stack (parse_stack-Stacked ts before) now

  Stacked-SpellsAll :
      (ts : List Json) (stack : List Item)
      → Stacked ts stack
      → (es : List Expr) × SpellsAll es ts × (item_values A read true stack ≡ meanings A read es)
  unfolding item_values
  Stacked-SpellsAll ts [] held = ([], held, refl)
  Stacked-SpellsAll ts (i ∷ stack) held =
      let (e, us, vs, is, spells, means, rest) = held in
      let (es, all, mean) = Stacked-SpellsAll vs stack rest in
      (e ∷ es, (us, vs, is, spells, all), ap₂ (A.join true) means mean)

  value-Notates :
      (j : Json) {n : Node}
      → parse j ≡ ok n
      → (es : List Expr) × Notates es j × (value A read n ≡ meanings A read es)
  unfolding parse
  value-Notates (array items) h =
      let (stack, read_all, closed) = >>=-eq-ok (parse_stack (to_list items)) close h in
      let (es, all, means) =
        Stacked-SpellsAll (to_list items) stack (parse_stack-Stacked (to_list items) read_all) in
      (es, (items, refl, all), value-close A read stack closed ∙ means)
  value-Notates _ h = cc

-- Whatever `parse` accepts is a list in prefix notation: it spells expressions, with an operand for
-- each `!` and two for each `&` and `|`, where a constant is `[b, "=", 1]` of a Boolean or a number
-- as operands. The node selects, row by row in three-valued logic, what the expressions say:
-- operators by their operands, and several expressions by their conjunction.
pub parse-Notates :
    (v : Leaf → Truth) (j : Json) {n : Node}
    → parse j ≡ ok n
    → (es : List Expr) × Notates es j × (eval v n ≡ meanings truth v es)
parse-Notates v j {n} h =
    let (es, notes, means) = value-Notates truth v j h in (es, notes, sym (value-truth v n) ∙ means)
