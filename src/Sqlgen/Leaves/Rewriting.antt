-- ===== src/Sqlgen/Leaves/Rewriting.antt =====
-- kernel/src/sqlgen.rs: the rewritings of a leaf by `optimize_leaf`, one after the other, come to an
-- end.
use odoo_rust_orm.Prelude.{
  ℕ, suc, ◌≤◌, Bool, true, false, not, ◌&&◌, ◌||◌, Option, none, some, Bytes, codes, bytes_eq, ap,
  if◌then◌else◌, ◌≡◌, refl, arith, if-intro, Member,
}
use odoo_rust_orm.Error.{ok, Each, Each-then, Each-step, Each-ok}
use odoo_rust_orm.Json.{Json, bool, number, string, array}
use odoo_rust_orm.Domain.{Leaf, Node}
use odoo_rust_orm.Domain.Internal.{leaves}
use odoo_rust_orm.Domain.Junctions.{value}
use odoo_rust_orm.ReadRules.{split_once}
use odoo_rust_orm.Registry.Fields.{Field}
use odoo_rust_orm.Sqlgen.Comparands.{is_py_falsy, is_number, ends_with}
use odoo_rust_orm.Sqlgen.Days.{leaf_node}
use odoo_rust_orm.Sqlgen.Class.{
  Context, Class, maybe, equal, unequal, within, without, order, pattern, other_class, class_of,
  typed, is_relational, is_dotted, Step, pass, keep, into,
}
use odoo_rust_orm.Sqlgen.Patterns.{
  all_wild, contains_equal, trivial_holds, rewrite_trivial, pattern_text, number_pattern, negates,
  rewrite_pattern,
}
use odoo_rust_orm.Sqlgen.Leaves.{
  members_of, rewrite_maybe, rewrite_equal, rewritten_by, rewrite_by, check_field, field_of,
  optimize_leaf,
}
use odoo_rust_orm.Sqlgen.Leaves.Bounds.{rank-le}
use odoo_rust_orm.Sqlgen.Leaves.Rank.{
  flag, rank, equal_rank, set_rank, rank_at, AllBelow, AllBelow-Member, Lower, Rewritten,
  leaf_node-AllBelow, defects_unset,
}
use odoo_rust_orm.Sqlgen.Leaves.Dates.{Blankless}
use odoo_rust_orm.Sqlgen.Leaves.Ends.{rewrite_members-Lower}
use odoo_rust_orm.Sqlgen.Leaves.Ranked.{rewrite_order-Lower}

unset_rank :
    (c : Context) (dotted : Bool) (field : Option Field)
    → equal_rank c dotted field (bool false) ≡ 1
unset_rank c true field = refl
unset_rank c false field = ap (λ k. suc k) (defects_unset c field)

AllBelow-unset :
    (c : Context) (name : Bytes) (k : ℕ) (holds : Bool)
    → AllBelow c
        (suc (suc k))
        (leaves (leaf_node name (if holds then codes "!=" else codes "=") (bool false)))
unfolding class_of bytes_eq ends_with
AllBelow-unset c name k true =
    leaf_node-AllBelow c name (codes "!=") (bool false)
      (omega (arith, unset_rank c (is_dotted (split_once name)) (field_of c name)))
AllBelow-unset c name k false =
    leaf_node-AllBelow c name (codes "=") (bool false)
      (omega (arith, unset_rank c (is_dotted (split_once name)) (field_of c name)))

rewrite_trivial-Lower :
    (c : Context) (l : Leaf) (relational empty : Bool) (k : ℕ)
    → Lower c (suc (suc k)) (rewrite_trivial l relational empty)
unfolding rewrite_trivial value
rewrite_trivial-Lower c l relational empty k =
    if-intro (Lower c (suc (suc k))) (relational || (empty && contains_equal l.op))
      (λ _. AllBelow-unset c l.field k (trivial_holds l.op empty))
      (λ _. if-intro (Lower c (suc (suc k))) (trivial_holds l.op empty) (λ _. tt) (λ _. tt))

number_pattern-Lower :
    (c : Context) (l : Leaf) (field : Option Field) (v : Json)
    → class_of l.op ≡ pattern
    → Each (Lower c (suc (suc (flag (is_number v))))) (number_pattern c l field v)
number_pattern-Lower c l field (number n) matches =
    if-intro (Each (Lower c 3)) (contains_equal l.op) (λ _. tt)
      (λ _.
        Each-step (Lower c 3) (pattern_text c field n) _
          (λ s. leaf_node-AllBelow c l.field l.op (string s) (rw matches (omega arith))))
number_pattern-Lower c l field _ matches = tt

rewrite_pattern-Lower :
    (c : Context) (l : Leaf) (dotted : Bool) (field : Option Field)
    → class_of l.op ≡ pattern
    → Each (Lower c (suc (suc (flag (is_number l.value))))) (rewrite_pattern c l dotted field)
unfolding rewrite_pattern
rewrite_pattern-Lower c l dotted field matches =
    let k = suc (suc (flag (is_number l.value))) in
    let relational = dotted || typed is_relational field in
    let falsy = is_py_falsy l.value in
    let wild = all_wild l.value in
    let empty = falsy && not (is_number l.value) in
    if-intro (Each (Lower c k)) (dotted && (falsy || wild || is_number l.value)) (λ _. tt)
      (λ _.
        Each-step (Lower c k) (if relational && (falsy || wild) then negates c field else ok true) _
          (λ plain.
            if-intro (Each (Lower c k)) (not plain) {x = ok keep} (λ _. tt)
              (λ _.
                if-intro (Each (Lower c k)) (empty || wild)
                  {x = ok (rewrite_trivial l relational empty)}
                  (λ _. rewrite_trivial-Lower c l relational empty (flag (is_number l.value)))
                  (λ _. number_pattern-Lower c l field l.value matches))))

rewrite_maybe-Lower :
    (c : Context) (l : Leaf) (path : Option (Bytes × Bytes)) (field : Option Field)
    → split_once l.field ≡ path
    → Lower c
        (suc (equal_rank c (is_dotted path) (field_of c l.field) l.value))
        (rewrite_maybe l path field)
unfolding rewrite_maybe value class_of bytes_eq ends_with
rewrite_maybe-Lower c l (some p) field split =
    if-intro (Lower c 2) (typed is_relational field)
      (λ _. leaf_node-AllBelow c p.0 (codes "any") _ (omega arith))
      (λ _.
        if-intro (Lower c 2) (is_py_falsy l.value) (λ _. tt)
          (λ _. leaf_node-AllBelow c l.field (codes "=") l.value (rw split (omega arith))))
rewrite_maybe-Lower c l none field split =
    let k = suc (equal_rank c false (field_of c l.field) l.value) in
    if-intro (Lower c k) (is_py_falsy l.value) (λ _. tt)
      (λ _. leaf_node-AllBelow c l.field (codes "=") l.value (rw split (omega arith)))

rewrite_equal-Lower :
    (c : Context) (l : Leaf) (dotted : Bool) (op : Bytes)
    → ((d : Bool) (f : Option Field) (v : Json) → rank_at c (class_of op) d f v ≡ set_rank c d f v)
    → is_dotted (split_once l.field) ≡ dotted
    → Lower c (equal_rank c dotted (field_of c l.field) l.value) (rewrite_equal l dotted op)
unfolding rewrite_equal
rewrite_equal-Lower c l true op is_set path =
    leaf_node-AllBelow c l.field op (array (members_of l.value)) (rw (is_set, path) (omega arith))
rewrite_equal-Lower c l false op is_set path =
    if-intro (Lower c (equal_rank c false (field_of c l.field) l.value))
      (not (bytes_eq l.field (codes "display_name")))
      (λ _.
        leaf_node-AllBelow c l.field op (array (members_of l.value))
          (rw (is_set, path) (omega arith)))
      (λ _. tt)

rewrite_by-Lower :
    (c : Context) (texts : Blankless c.calendar) (l : Leaf) (k : Class)
    (path : Option (Bytes × Bytes))
    → class_of l.op ≡ k
    → split_once l.field ≡ path
    → Each
        (Lower c (rank_at c k (is_dotted path) (field_of c l.field) l.value))
        (rewrite_by c k l path (field_of c l.field))
unfolding rewrite_by class_of bytes_eq ends_with
rewrite_by-Lower c texts l maybe path is split =
    rewrite_maybe-Lower c l path (field_of c l.field) split
rewrite_by-Lower c texts l equal path is split =
    rewrite_equal-Lower c l (is_dotted path) (codes "in") (λ d f v. refl)
      (ap (λ p. is_dotted p) split)
rewrite_by-Lower c texts l unequal path is split =
    rewrite_equal-Lower c l (is_dotted path) (codes "not in") (λ d f v. refl)
      (ap (λ p. is_dotted p) split)
rewrite_by-Lower c texts l within path is split =
    rewrite_members-Lower c texts l true (is_dotted path) l.value (λ d f v. rw is refl)
      (ap (λ p. is_dotted p) split) refl
rewrite_by-Lower c texts l without path is split =
    rewrite_members-Lower c texts l false (is_dotted path) l.value (λ d f v. rw is refl)
      (ap (λ p. is_dotted p) split) refl
rewrite_by-Lower c texts l order path is split =
    rewrite_order-Lower c texts l (is_dotted path) l.value is (ap (λ p. is_dotted p) split) refl
rewrite_by-Lower c texts l pattern path is split =
    rewrite_pattern-Lower c l (is_dotted path) (field_of c l.field) is
rewrite_by-Lower c texts l other_class path is split = tt

rewritten_by-Rewritten :
    (c : Context) (k : ℕ) (s : Step) → Lower c k s → Rewritten c k (rewritten_by s)
rewritten_by-Rewritten c k pass low = tt
rewritten_by-Rewritten c k keep low = tt
rewritten_by-Rewritten c k (into n) low = low

pub optimize_leaf-Rewritten :
    (c : Context)
    → Blankless c.calendar
    → (l : Leaf) → Each (Rewritten c (rank c l)) (optimize_leaf c l)
unfolding optimize_leaf rank
optimize_leaf-Rewritten c texts l =
    Each-step (Rewritten c _) (check_field c l (field_of c l.field)) _ (λ done.
      Each-then (Lower c _) (Rewritten c _)
        (rewrite_by c (class_of l.op) l (split_once l.field) (field_of c l.field)) _
        (rewrite_by-Lower c texts l (class_of l.op) (split_once l.field) refl refl)
        (λ s low. rewritten_by-Rewritten c _ s low))

-- A leaf, a leaf of what it is rewritten to, and so on: so many rewritings.
pub data Rewritings (c : Context) : Leaf → ℕ → Type 0 where
  stop : {l : Leaf} → Rewritings c l 0
  rewriting :
      {l m : Leaf} {n : Node} {k : ℕ}
      → optimize_leaf c l ≡ ok (some n)
      → Member m (leaves n)
      → Rewritings c m k
      → Rewritings c l (suc k)

Rewritings-rank :
    (c : Context) → Blankless c.calendar → {l : Leaf} {k : ℕ} → Rewritings c l k → k ≤ rank c l
Rewritings-rank c texts stop = omega arith
Rewritings-rank c texts (rewriting {l} {m} {n} went at more) =
    let fewer = Rewritings-rank c texts more in
    let below = Each-ok (Rewritten c (rank c l)) (optimize_leaf-Rewritten c texts l) went in
    omega (arith, fewer, AllBelow-Member c (rank c l) (leaves n) below at)

-- Whatever the leaf, its field, its value, the models and the time zone: where the text of no date has
-- a blank, at most four rewritings by `optimize_leaf` follow one another, each of a leaf of what the
-- one before has given.
pub Rewritings-le :
    (c : Context) → Blankless c.calendar → (l : Leaf) (k : ℕ) → Rewritings c l k → k ≤ 4
Rewritings-le c texts l k chain = omega (arith, Rewritings-rank c texts chain, rank-le c l)
