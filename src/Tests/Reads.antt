-- ===== src/Tests/Reads.antt =====
-- Runs of the access rules of kernel/src/security.rs, and their theorems at concrete rows.
use odoo_rust_orm.Prelude.{
  ℕ, ◌≤◌, ◌<◌, ◌++◌, true, false, List, [], ◌∷◌, none, some, ◌≡◌, refl, arith, Bytes, codes, map,
  bytes_eq, ◌⊎◌, if◌then◌else◌, Bool-cases, inl, inr, Member, here, there,
}
use odoo_rust_orm.Error.{Result, ok, err, refuse, deny_access}
use odoo_rust_orm.Json.{Json, array, number, pos_int, of_list, sentinel_of}
use odoo_rust_orm.Domain.{
  Leaf, Node, and, child, leaf, none_left, from_node, finish, checked, merge, absorb, nary_loop,
  nary, sentinel_number, constant_leaf, parse_operand, parse_leaf, combine, negate_node, negate,
  push_leaf, step, parse_stack, close, parse,
}
use odoo_rust_orm.Access.Rows.Bound.{own_meaning, Reads, own_domain-eval}
use odoo_rust_orm.Domain.Meaning.{Truth, holds, unknown, eval}
use odoo_rust_orm.Domain.Junctions.{truth}
use odoo_rust_orm.Domain.Prefix.{Expr, term, both, meanings, meaning, tokens}
use odoo_rust_orm.Access.{expect, normalize_loop, normalize_domain, or_terms, or_domains, scoped}
use odoo_rust_orm.Access.Notation.{spelled}
use odoo_rust_orm.Access.Meaning.{
  any_meaning, in_companies, scoped_meaning, or_domains-spelled, scoped-spelled,
}
use odoo_rust_orm.Access.Rows.{
  skipped, row_domain, push_domain, combined, Rule, UserCtx, contains, held_companies, held_scope,
  sort, dedup, gather, own_domain,
}
use odoo_rust_orm.Access.Grants.{
  check_inner, check_model, each, is_guarded, guard_denies, Security, listed, check_read_access,
}
use odoo_rust_orm.Access.Grants.Hierarchy.{
  Needs, itself, parent, Readable, check_read_access-Readable, check_read_access_complete,
  check_read_access_decides,
}

abbrev open_leaf : Leaf
open_leaf = record { field = codes "open"; op = codes "="; value = number (pos_int 1) }

abbrev mine_leaf : Leaf
mine_leaf = record { field = codes "mine"; op = codes "="; value = number (pos_int 1) }

-- `open` is NULL, all else is TRUE.
abbrev reading : Leaf → Truth
reading l = if bytes_eq l.field (codes "open") then unknown else holds

-- `["|", "open", "&", …]`: two terms and a single one.
or_two :
    or_domains (spelled (term open_leaf ∷ term mine_leaf ∷ []) ∷ spelled (term open_leaf ∷ []) ∷ [])
    ≡ spelled (both false (both true (term open_leaf) (term mine_leaf)) (term open_leaf) ∷ [])
unfolding or_domains or_terms normalize_domain normalize_loop expect bytes_eq
or_two = refl

or_domains-spelled_example :
    (es : List Expr) × (or_domains (map spelled ((term open_leaf ∷ term mine_leaf ∷ []) ∷ [] ∷ []))
      ≡ spelled es)
    × (meanings truth reading es
        ≡ any_meaning reading ((term open_leaf ∷ term mine_leaf ∷ []) ∷ [] ∷ []))
or_domains-spelled_example =
    or_domains-spelled reading ((term open_leaf ∷ term mine_leaf ∷ []) ∷ [] ∷ [])

scoped-spelled_example :
    (fs : List Expr) × (scoped
        (spelled (term open_leaf ∷ term mine_leaf ∷ []))
        (codes "company_id")
        (1 ∷ 3 ∷ [])
        true
      ≡ spelled fs)
    × (meanings truth reading fs
        ≡ scoped_meaning reading true
            (meanings truth reading (term open_leaf ∷ term mine_leaf ∷ []))
            (meaning truth reading (in_companies (codes "company_id") (1 ∷ 3 ∷ []))))
scoped-spelled_example =
    scoped-spelled reading (term open_leaf ∷ term mine_leaf ∷ []) (codes "company_id") (1 ∷ 3 ∷ [])
      true

abbrev member : UserCtx
member = record {
  groups = 5 ∷ 7 ∷ [];
  uid = 8;
  company_id = 1;
  company_ids = 1 ∷ 3 ∷ [];
  access_partner = some (21, 20);
  scopes = λ g. if contains (5 ∷ []) g then some (3 ∷ 1 ∷ 3 ∷ []) else none;
}

scopes_of :
    (held_scope (5 ∷ 6 ∷ []) member ≡ some (1 ∷ 3 ∷ [])) × (held_scope (5 ∷ 7 ∷ []) member ≡ none)
unfolding held_scope held_companies sort dedup
scopes_of = (refl, refl)

scope_is : held_scope (5 ∷ 6 ∷ []) member ≡ some (1 ∷ 3 ∷ [])
unfolding held_scope held_companies sort dedup
scope_is = refl

all_are : held_companies (5 ∷ 6 ∷ []) member ≡ some (3 ∷ 1 ∷ 3 ∷ [])
unfolding held_companies
all_are = refl

-- A project and its parent; the groups 5 and 7 may read them.
abbrev security : Security
security = record {
  access = λ m. some (if bytes_eq m (codes "project") then 5 ∷ [] else 6 ∷ 7 ∷ []);
  denying_guards = λ m. some ((some 8, []) ∷ (some 5, 7 ∷ []) ∷ []);
  parents = λ m. if bytes_eq m (codes "project") then some (codes "thread" ∷ []) else none;
  anchors = λ m. none;
}

passes : check_read_access security member (codes "project") ≡ ok tt
unfolding check_read_access check_inner check_model each is_guarded guard_denies bytes_eq
passes = refl

Needs-thread : Needs security member (codes "project") (codes "thread")
unfolding bytes_eq
Needs-thread = parent here itself

check_read_access-Readable_example : Readable security member (codes "thread")
check_read_access-Readable_example =
    check_read_access-Readable security member (codes "project") (codes "thread") passes
      Needs-thread

abbrev level : Bytes → ℕ
level m = if bytes_eq m (codes "project") then 1 else 0

no_members : {A : Type 0} {x : A} → Member x [] → ⊥
no_members i = elim i [ ]

below_project : (p : Bytes) → Member p (codes "thread" ∷ []) → level p < 1
unfolding bytes_eq
below_project p here = omega arith
below_project p (there i) = absurd (no_members i)

climbs : (m p : Bytes) → Member p (listed (security.parents m)) → level p < level m
climbs m p i = elim (Bool-cases (bytes_eq m (codes "project"))) [
  | inl e ↦ rw e (below_project p (rw e at i))
  | inr e ↦ absurd (no_members (rw e at i))
]

readable : (n : Bytes) → Needs security member (codes "project") n → Readable security member n
readable n needs = check_read_access-Readable security member (codes "project") n passes needs

level-le : level (codes "project") ≤ 16
unfolding bytes_eq
level-le = omega arith

check_read_access_complete_example : check_read_access security member (codes "project") ≡ ok tt
check_read_access_complete_example =
    check_read_access_complete security member level climbs (codes "project") level-le readable

check_read_access_decides_example :
    (check_read_access security member (codes "project") ≡ ok tt)
    ⊎ (check_read_access security member (codes "project") ≡ deny_access)
check_read_access_decides_example =
    check_read_access_decides security member level climbs (codes "project") level-le

abbrev eval_row : List Expr → UserCtx → Result Json
eval_row es user = ok (spelled es)

abbrev no_reach : Bytes → Unit {0} → UserCtx → Result Json
no_reach model reach user = refuse

abbrev spells : Rule (List Expr) (Unit {0}) → List Expr
spells rule = elim rule.parsed [ none ↦ [] | some r ↦ elim r [ ok es ↦ es | err why ↦ [] ] ]

-- A permission that is held, one that is not and does not parse, and a guard of everyone.
abbrev rows : List (Rule (List Expr) (Unit {0}))
rows =
    record {
      groups = 5 ∷ [];
      restrict = false;
      parsed = some (ok (term open_leaf ∷ []));
      reach = none;
      exempt = [];
    }
    ∷ record {
      groups = 6 ∷ [];
      restrict = false;
      parsed = some (err []);
      reach = none;
      exempt = [];
    }
    ∷ record {
      groups = [];
      restrict = true;
      parsed = some (ok (term mine_leaf ∷ []));
      reach = none;
      exempt = 9 ∷ [];
    }
    ∷ []

abbrev bound_node : Node
bound_node = and (child (leaf mine_leaf) (child (leaf open_leaf) none_left))

abbrev bound_json : Json
bound_json = array (of_list (tokens (term mine_leaf) ++ tokens (term open_leaf)))

bound_is :
    own_domain eval_row no_reach (codes "task") none member [] (some rows) ≡ ok (some bound_json)
unfolding own_domain gather skipped row_domain push_domain combined or_domains or_terms
    normalize_domain normalize_loop expect bytes_eq
bound_is = refl

bound_parses : parse bound_json ≡ ok bound_node
unfolding from_node finish checked merge absorb nary_loop nary sentinel_number constant_leaf
    parse_operand parse_leaf combine negate_node negate push_leaf step parse_stack close parse
    bytes_eq sentinel_of
bound_parses = refl

bound-Reads : Reads spells eval_row no_reach (codes "task") none member rows
unfolding skipped row_domain
bound-Reads = (λ e. refl, ((λ e. absurd (ground arith)), ((λ e. refl), tt)))

own_domain-eval_example :
    eval reading bound_node
    ≡ own_meaning spells eval_row no_reach (codes "task") none member reading [] (some rows)
own_domain-eval_example =
    own_domain-eval spells eval_row no_reach (codes "task") none member reading [] (some rows)
      bound-Reads bound_is bound_parses
