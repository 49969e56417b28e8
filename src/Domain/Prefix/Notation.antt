-- ===== src/Domain/Prefix/Notation.antt =====
-- kernel/src/domain.rs: prefix notation, and the terms of three parts that `parse` takes for a leaf or a
-- constant.
use odoo_rust_orm.Prelude.{
  Bool, true, false, List, [], ◌∷◌, ◌++◌, ◌≡◌, refl, sym, ap, ◌∙◌, arith, subst, Bytes, codes,
  bytes_eq, bytes_eq_iff, ◌==◌, if◌then◌else◌, Bool-cases, inl, inr,
}
use odoo_rust_orm.Error.{ok, refuse, ok-injective}
use odoo_rust_orm.Json.{
  Json, bool, number, string, array, Items, nil, cons, Number, pos_int, neg_int, float, Sentinel,
  zero_value, one_value, sentinel_of, to_list,
}
use odoo_rust_orm.Domain.{
  Node, true_node, false_node, sentinel_number, constant_leaf, parse_operand, parse_leaf, bang,
  Leaf,
}
use odoo_rust_orm.Domain.Junctions.{Algebra, value}
use odoo_rust_orm.Domain.Prefix.{Expr, term, constant, negated, both, operator, triple, meaning}

-- The operands that stand for true and for false: the Booleans, and one and zero as numbers.
pub data Says : Bool → Json → Type 0 where
  yes : Says true (bool true)
  one : Says true (number (pos_int 1))
  one_float : Says true (number (float 0x3FF0000000000000))
  no : Says false (bool false)
  zero : Says false (number (pos_int 0))
  zero_float : Says false (number (float 0))
  minus_zero : Says false (number (float 0x8000000000000000))

-- The terms that spell an expression: a constant is `[b, "=", 1]`, of any operands that stand for it
-- and for one.
abbrev pub Spells : Expr → List Json → Type 0
Spells (term l) ts = ts ≡ triple (string l.field) l.op l.value ∷ []
Spells (constant b) ts =
    (left right : Json) × (ts ≡ triple left (codes "=") right ∷ []) × Says b left × Says true right
Spells (negated e) ts = (us : List Json) × (ts ≡ string bang ∷ us) × Spells e us
Spells (both op a b) ts =
    (us vs : List Json) × (ts ≡ operator op ∷ (us ++ vs)) × Spells a us × Spells b vs

abbrev pub SpellsAll : List Expr → List Json → Type 0
SpellsAll [] ts = ts ≡ []
SpellsAll (e ∷ es) ts = (us vs : List Json) × (ts ≡ us ++ vs) × Spells e us × SpellsAll es vs

-- A domain is a list of the terms that spell its expressions, one behind the other.
abbrev pub Notates : List Expr → Json → Type 0
Notates es j = (items : Items) × (j ≡ array items) × SpellsAll es (to_list items)

abbrev sentinel : Bool → Sentinel
sentinel true = one_value
sentinel false = zero_value

constant_leaf-ok :
    (s t : Sentinel) (op : Bytes) {n : Node}
    → constant_leaf s op t ≡ ok n
    → (b : Bool) × (s ≡ sentinel b)
      × (t ≡ one_value)
      × (op ≡ codes "=")
      × (n ≡ (if b then true_node else false_node))
unfolding constant_leaf
constant_leaf-ok one_value one_value op h = elim (Bool-cases (bytes_eq op (codes "="))) [
  | inl e ↦ (true, refl, refl, (bytes_eq_iff op (codes "=")).0 e, sym (ok-injective (rw e at h)))
  | inr e ↦ let not_so : refuse ≡ ok _ = rw e at h in cc
]
constant_leaf-ok zero_value one_value op h = elim (Bool-cases (bytes_eq op (codes "="))) [
  | inl e ↦ (false, refl, refl, (bytes_eq_iff op (codes "=")).0 e, sym (ok-injective (rw e at h)))
  | inr e ↦ let not_so : refuse ≡ ok _ = rw e at h in cc
]
constant_leaf-ok _ _ op h = cc

sentinel_of-yes : (n : Number) → sentinel_of n ≡ one_value → Says true (number n)
unfolding sentinel_of
sentinel_of-yes (pos_int k) h =
    let same : 1 ≡ k = ground arith in subst (λ m. Says true (number (pos_int m))) same one
sentinel_of-yes (neg_int k) h = cc
sentinel_of-yes (float bits) h =
    let same : 0x3FF0000000000000 ≡ bits = ground arith in
    subst (λ m. Says true (number (float m))) same one_float

sentinel_of-no : (n : Number) → sentinel_of n ≡ zero_value → Says false (number n)
unfolding sentinel_of
sentinel_of-no (pos_int k) h =
    let same : 0 ≡ k = ground arith in subst (λ m. Says false (number (pos_int m))) same zero
sentinel_of-no (neg_int k) h = cc
sentinel_of-no (float bits) h = elim (Bool-cases (bits == 0)) [
  | inl e ↦
      let same : 0 ≡ bits = ground arith in
      subst (λ m. Says false (number (float m))) same zero_float
  | inr e ↦
      let same : 0x8000000000000000 ≡ bits = ground arith in
      subst (λ m. Says false (number (float m))) same minus_zero
]

sentinel_number-Says : (b : Bool) (j : Json) → sentinel_number j ≡ sentinel b → Says b j
unfolding sentinel_number
sentinel_number-Says true (bool true) h = yes
sentinel_number-Says false (bool false) h = no
sentinel_number-Says true (bool false) h = cc
sentinel_number-Says false (bool true) h = cc
sentinel_number-Says true (number n) h = sentinel_of-yes n h
sentinel_number-Says false (number n) h = sentinel_of-no n h
sentinel_number-Says true _ h = cc
sentinel_number-Says false _ h = cc

module _ (A : Algebra) (read : Leaf → A.Value) where
  -- A term of three parts that is accepted spells one expression.
  abbrev pub Leafs : List Json → Node → Type 0
  Leafs ts n = (e : Expr) × Spells e ts × (value A read n ≡ meaning A read e)

  value_constant : (b : Bool) → value A read (if b then true_node else false_node) ≡ A.unit b
  unfolding value
  value_constant true = refl
  value_constant false = refl

  constant-Leafs :
      (left right : Json) (op : Bytes) {n : Node}
      → constant_leaf (sentinel_number left) op (sentinel_number right) ≡ ok n
      → Leafs (triple left op right ∷ []) n
  constant-Leafs left right op {n} h =
      let (b, is_left, is_right, is_op, is) = constant_leaf-ok _ _ op h in
      (
        constant b,
        (
          left,
          right,
          ap (λ o. triple left o right ∷ []) is_op,
          sentinel_number-Says b left is_left,
          sentinel_number-Says true right is_right,
        ),
        ap (value A read) is ∙ value_constant b,
      )

  pub parse_leaf-Leafs :
      (left op right : Json) {n : Node}
      → parse_leaf left op right ≡ ok n
      → Leafs (array (cons left (cons op (cons right nil))) ∷ []) n
  unfolding parse_leaf parse_operand
  parse_leaf-Leafs (string field) (string op) right h =
      let l : Leaf = record { field = field; op = op; value = right } in
      (term l, refl, ap (value A read) (sym (ok-injective h)) ∙ (unfold value in refl))
  parse_leaf-Leafs left (string op) right h = constant-Leafs left right op h
  parse_leaf-Leafs _ _ right h = cc
