-- ===== src/Access/Rows.antt =====
-- kernel/src/security.rs: `rules_domain_inner`, which combines the access rows that bind a user, and
-- `held_scope`. What the registry and the evaluation of a row's domain give are parameters, which
-- ReadRules puts in place.
pub mod Bound
pub mod Scopes
use odoo_rust_orm.Prelude.{
  ℕ, zero, suc, ◌+◌, ◌-◌, Bool, true, false, not, ◌&&◌, ◌||◌, List, [], ◌∷◌, ◌++◌, Option, none,
  some, map, Bytes, codes, bytes_eq, length, replicate, any, flat_map, ltb, leb, ◌==◌,
  if◌then◌else◌,
}
use odoo_rust_orm.Error.{Result, ok, err, ◌>>=◌, refuse}
use odoo_rust_orm.Json.{Json, string, array, nil, cons, of_list}
use odoo_rust_orm.Access.{items_of, normalize_domain, or_domains, scoped}

-- The fields of a row that the combination reads. `parsed` holds an expression of type `E`, or its
-- parse error.
pub record Rule (E R : Type 0) : Type 0 where
  pub groups : List ℕ
  pub restrict : Bool
  pub parsed : Option (Result E)
  pub reach : Option R
  pub exempt : List ℕ

pub record UserCtx : Type 0 where
  pub uid : ℕ
  pub company_id : ℕ
  pub company_ids : List ℕ
  pub access_partner : Option (ℕ × ℕ)
  pub groups : List ℕ
  pub scopes : ℕ → Option (List ℕ)

abbrev pub contains : List ℕ → ℕ → Bool
contains [] i = false
contains (x ∷ xs) i = x == i || contains xs i

abbrev pub holds_any : List ℕ → List ℕ → Bool
holds_any held groups = any (contains held) groups

insert_sorted : ℕ → List ℕ → List ℕ
insert_sorted i [] = i ∷ []
insert_sorted i (x ∷ xs) = if leb i x then i ∷ x ∷ xs else x ∷ insert_sorted i xs

-- `companies.sort_unstable()`
unfoldable pub sort : List ℕ → List ℕ
unfolding insert_sorted
sort [] = []
sort (x ∷ xs) = insert_sorted x (sort xs)

-- `companies.dedup()`
unfoldable pub dedup : List ℕ → List ℕ
dedup [] = []
dedup (x ∷ []) = x ∷ []
dedup (x ∷ y ∷ xs) = let rest = dedup (y ∷ xs) in if x == y then rest else x ∷ rest

-- The loop of `held_scope`.
unfoldable pub held_companies : List ℕ → UserCtx → Option (List ℕ)
held_companies [] user = some []
held_companies (g ∷ gs) user =
    let rest = held_companies gs user in
    if contains user.groups g
    then elim (user.scopes g) [
      | none ↦ none
      | some companies ↦ elim rest [ none ↦ none | some others ↦ some (companies ++ others) ]
    ]
    else rest

unfoldable pub held_scope : List ℕ → UserCtx → Option (List ℕ)
held_scope groups user = elim (held_companies groups user) [
  | none ↦ none
  | some cs ↦ some (dedup (sort cs))
]

-- `!v.is_empty()`
abbrev pub non_empty {ℓ} : {A : Type ℓ} → List A → Bool
non_empty [] = false
non_empty (_ ∷ _) = true

-- The end of `rules_domain_inner`: `None` is TRUE.
unfoldable pub combined : List Json → List Json → List Json → Option Json
combined inherited global_domains group_domains =
    let all =
      inherited ++ flat_map items_of global_domains ++ items_of (or_domains group_domains) in
    if non_empty all then some (array (of_list all)) else none

-- The two lists that the loop over the rows fills.
pub record Domains : Type 0 where
  pub globals : List Json
  pub permissions : List Json

abbrev pub no_domains : Domains
no_domains = record { globals = []; permissions = [] }

-- Whether the loop passes over a row.
unfoldable pub skipped : {E R : Type 0} → UserCtx → Rule E R → Bool
skipped user rule =
    (non_empty rule.groups && not (holds_any user.groups rule.groups))
    || (rule.restrict && holds_any user.groups rule.exempt)

unfoldable pub push_domain : {E R : Type 0} → Rule E R → Json → Domains → Domains
push_domain rule dom found =
    if non_empty rule.groups && not rule.restrict
    then record { globals = found.globals; permissions = found.permissions ++ dom ∷ [] }
    else record { globals = found.globals ++ dom ∷ []; permissions = found.permissions }

module _ {E R : Type 0} (eval_py : E → UserCtx → Result Json)
    (reach_domain : Bytes → R → UserCtx → Result Json) where
  parsed_domain : UserCtx → Option (Result E) → Result Json
  parsed_domain user none = ok (array nil)
  parsed_domain user (some (ok e)) = eval_py e user
  parsed_domain user (some (err why)) = refuse

  with_reach : Bytes → UserCtx → Option R → Json → Result Json
  with_reach model user none dom = ok dom
  with_reach model user (some reach) dom = do
    reached ← reach_domain model reach user
    ok (array (of_list (items_of reached ++ normalize_domain (items_of dom))))

  with_scope : Option Bytes → UserCtx → Rule E R → Json → Json
  with_scope none user rule dom = dom
  with_scope (some anchor) user rule dom = elim (held_scope rule.groups user) [
    | none ↦ dom
    | some companies ↦
        if non_empty rule.groups then scoped dom anchor companies rule.restrict else dom
  ]

  -- The domain of one row that binds the user.
  unfoldable pub row_domain : Bytes → Option Bytes → UserCtx → Rule E R → Result Json
  unfolding parsed_domain with_reach with_scope
  row_domain model anchor user rule = do
    dom ← parsed_domain user rule.parsed
    reached ← with_reach model user rule.reach dom
    ok (with_scope anchor user rule reached)

  -- `for rule in rules`
  unfoldable pub gather :
      Bytes → Option Bytes → UserCtx → List (Rule E R) → Domains → Result Domains
  gather model anchor user [] found = ok found
  gather model anchor user (rule ∷ rules) found =
      if skipped user rule then gather model anchor user rules found else (do
        dom ← row_domain model anchor user rule
        gather model anchor user rules (push_domain rule dom found))

  -- After the parents: the model's own rows, and the domains inherited from them.
  unfoldable pub own_domain :
      Bytes → Option Bytes → UserCtx → List Json → Option (List (Rule E R)) → Result (Option Json)
  own_domain model anchor user inherited none =
      ok (if non_empty inherited then some (array (of_list inherited)) else none)
  own_domain model anchor user inherited (some rules) = do
    found ← gather model anchor user rules no_domains
    ok (combined inherited found.globals found.permissions)

-- What the registry holds of a model. `via_has_column` is of a model and a field's name.
pub record Registry (E R : Type 0) : Type 0 where
  pub adds_guard : Bytes → Bool
  pub climbs : Bytes → Bool
  pub inherits_of : Bytes → List (Bytes × Bytes)
  pub via_has_column : Bytes → Bytes → Option Bool
  pub rules : Bytes → Option (List (Rule E R))
  pub anchors : Bytes → Option Bytes

abbrev any_leaf : Bytes → Json → Json
any_leaf via dom = array (cons (string via) (cons (string (codes "any")) (cons dom nil)))

abbrev push_inherited : Bytes → Option Json → List Json → List Json
push_inherited via none rest = rest
push_inherited via (some dom) rest = any_leaf via dom ∷ rest

-- `for (parent, via) in registry.inherits_of(model)`
unfoldable pub inherit :
    (Bytes → Result (Option Json))
    → (Bytes → Option Bool)
    → List (Bytes × Bytes)
    → Result (List Json)
inherit parent_domain has_column [] = ok []
inherit parent_domain has_column ((parent, via) ∷ parents) = elim (has_column via) [
  | none ↦ refuse
  | some column ↦ if not column then refuse else (do
    dom ← parent_domain parent
    rest ← inherit parent_domain has_column parents
    ok (push_inherited via dom rest))
]

-- `rules_domain_inner`: the fuel counts the levels that the limit on the depth leaves.
unfoldable pub rules_domain_inner :
    {E R : Type 0}
    → (E → UserCtx → Result Json)
    → (Bytes → R → UserCtx → Result Json)
    → Registry E R
    → UserCtx
    → ℕ
    → Bytes
    → Result (Option Json)
rules_domain_inner eval_py reach_domain registry user zero model = refuse
rules_domain_inner eval_py reach_domain registry user (suc fuel) model =
    if registry.adds_guard model then refuse else (do
      inherited ←
          (if registry.climbs model
            then inherit (rules_domain_inner eval_py reach_domain registry user fuel)
                (registry.via_has_column model) (registry.inherits_of model)
            else ok [])
      own_domain eval_py reach_domain model (registry.anchors model) user inherited
          (registry.rules model))

unfoldable pub rules_domain :
    {E R : Type 0}
    → (E → UserCtx → Result Json)
    → (Bytes → R → UserCtx → Result Json)
    → Registry E R
    → UserCtx
    → Bytes
    → Result (Option Json)
rules_domain eval_py reach_domain registry user model =
    rules_domain_inner eval_py reach_domain registry user 17 model
