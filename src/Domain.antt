-- ===== src/Domain.antt =====
-- kernel/src/domain.rs: domain nodes, and the parser of prefix-notation domains.
-- The tracing calls are left out. Where the source keeps a stack as a vector with the top at
-- its end, the list here has the top in front, so `stack.reverse()` is the list itself.
pub mod Meaning
pub mod Nested
pub mod Constants
pub mod Fold
pub mod Reduced
pub mod Junctions
pub mod Depth
pub mod Prefix
pub mod Internal
use odoo_rust_orm.Prelude.{
  ℕ, ◌+◌, ◌-◌, max, Bool, true, false, ◌||◌, List, [], ◌∷◌, ◌++◌, reverse, Option, none, some,
  Bytes, codes, bytes_eq, length, ltb, if◌then◌else◌,
}
use odoo_rust_orm.Error.{Result, ok, err, ◌>>=◌, refuse}
use odoo_rust_orm.Json.{
  Json, null, bool, number, string, array, object, Items, nil, cons, Sentinel, zero_value,
  one_value, other_value, sentinel_of, to_list,
}

pub record Leaf : Type 0 where
  pub field : Bytes
  pub op : Bytes
  pub value : Json

-- `Vec<Node>` is the second type of the block.
mutual
  pub data Node : Type 0 where
    and : Nodes → Node
    or : Nodes → Node
    not : Node → Node
    leaf : Leaf → Node
    true_node : Node
    false_node : Node

  pub data Nodes : Type 0 where
    none_left : Nodes
    child : Node → Nodes → Nodes

abbrev pub of_nodes : List Node → Nodes
of_nodes [] = none_left
of_nodes (n ∷ ns) = child n (of_nodes ns)

abbrev pub to_nodes : Nodes → List Node
to_nodes none_left = []
to_nodes (child n ns) = n ∷ to_nodes ns

abbrev pub max_domain_nesting : ℕ
max_domain_nesting = 100

-- `Junction { and, children }`; `plain` is `Pending::Node`.
pub data Pending : Type 0 where
  plain : Node → Pending
  junction : Bool → List Node → Pending

pub record Item : Type 0 where
  pub node : Pending
  pub depth : ℕ

-- `Pending::from`
unfoldable pub from_node : Node → Pending
from_node (and ns) = junction true (to_nodes ns)
from_node (or ns) = junction false (to_nodes ns)
from_node n = plain n

unfoldable pub finish : Pending → Node
finish (plain n) = n
finish (junction true ns) = and (of_nodes ns)
finish (junction false ns) = or (of_nodes ns)

unfoldable pub checked : ℕ → Result ℕ
checked depth = if ltb max_domain_nesting depth then refuse else ok depth

-- `for child in children.into_iter().rev() { inner.push_front(child) }`
push_front_all : List Node → List Node → List Node
push_front_all [] inner = inner
push_front_all (c ∷ cs) inner = push_front_all cs (c ∷ inner)

-- The smaller side is moved.
unfoldable pub merge : List Node → List Node → List Node
unfolding push_front_all
merge children inner =
    if ltb (length children) (length inner)
    then push_front_all (reverse children) inner
    else children ++ inner

same : Bool → Bool → Bool
same true b = b
same false true = false
same false false = true

-- One round of the loop of `nary`, on its two variables.
unfoldable pub absorb : Bool → Pending → ℕ → List Node → ℕ → List Node × ℕ
unfolding same
absorb op (plain n) d children depth = (children ++ n ∷ [], max depth (d + 1))
absorb op (junction other inner) d children depth =
    if same op other
    then (merge children inner, max depth d)
    else (children ++ finish (junction other inner) ∷ [], max depth (d + 1))

unfoldable pub nary_loop : Bool → List Item → List Node → ℕ → List Node × ℕ
nary_loop op [] children depth = (children, depth)
nary_loop op (item ∷ items) children depth =
    let step = absorb op item.node item.depth children depth in nary_loop op items step.0 step.1

unfoldable pub nary : Bool → List Item → Result Item
nary op operands = do
  let built = nary_loop op operands [] 1
  depth ← checked built.1
  ok (record { node = junction op built.0; depth = depth })

-- `sentinel_number`
unfoldable pub sentinel_number : Json → Sentinel
sentinel_number (bool true) = one_value
sentinel_number (bool false) = zero_value
sentinel_number (number n) = sentinel_of n
sentinel_number _ = other_value

unfoldable pub constant_leaf : Sentinel → Bytes → Sentinel → Result Node
constant_leaf one_value op one_value = if bytes_eq op (codes "=") then ok true_node else refuse
constant_leaf zero_value op one_value = if bytes_eq op (codes "=") then ok false_node else refuse
constant_leaf _ op _ = refuse

unfoldable pub parse_operand : Json → Bytes → Json → Result Node
parse_operand (string field) op value = ok (leaf (record { field = field; op = op; value = value }))
parse_operand left op right = constant_leaf (sentinel_number left) op (sentinel_number right)

unfoldable pub parse_leaf : Json → Json → Json → Result Node
parse_leaf left (string op) right = parse_operand left op right
parse_leaf left _ right = refuse

-- `&` and `|`, which take two operands from the stack.
unfoldable pub combine : Bool → List Item → Result (List Item)
combine op (a ∷ b ∷ stack) = do item ← nary op (a ∷ b ∷ []); ok (item ∷ stack)
combine op _ = refuse

-- `!`: a double negation is dropped.
unfoldable pub negate_node : Node → ℕ → Result Item
negate_node (not inner) depth = ok (record { node = from_node inner; depth = depth - 1 })
negate_node other depth = do
  depth' ← checked (depth + 1)
  ok (record { node = plain (not other); depth = depth' })

unfoldable pub negate : List Item → Result (List Item)
negate (a ∷ stack) = do item ← negate_node (finish a.node) a.depth; ok (item ∷ stack)
negate [] = refuse

unfoldable pub push_leaf : Json → Json → Json → List Item → Result (List Item)
push_leaf left op right stack = do
  n ← parse_leaf left op right
  ok (record { node = from_node n; depth = 1 } ∷ stack)

abbrev pub amp : Bytes
amp = codes "&"

abbrev pub bar : Bytes
bar = codes "|"

abbrev pub bang : Bytes
bang = codes "!"

-- The body of the loop, on one term of the domain.
unfoldable pub step : Json → List Item → Result (List Item)
step (string op) stack =
    if bytes_eq op amp || bytes_eq op bar
    then combine (bytes_eq op amp) stack
    else if bytes_eq op bang
    then negate stack
    else refuse
step (array (cons a (cons b (cons c nil)))) stack = push_leaf a b c stack
step _ stack = refuse

-- `for item in items.iter().rev()`
unfoldable pub parse_stack : List Json → Result (List Item)
parse_stack [] = ok []
parse_stack (item ∷ items) = do stack ← parse_stack items; step item stack

-- What is left on the stack; several terms are joined by an implicit `&`.
unfoldable pub close : List Item → Result Node
close [] = ok true_node
close (a ∷ []) = ok (finish a.node)
close stack = do item ← nary true stack; ok (finish item.node)

unfoldable pub parse : Json → Result Node
parse (array items) = do stack ← parse_stack (to_list items); close stack
parse _ = refuse
