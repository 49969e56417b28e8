-- ===== src/Access/Meaning.antt =====
-- kernel/src/security.rs: what the combined domains select, in three-valued logic.
use odoo_rust_orm.Prelude.{
  ℕ, suc, Bool, true, false, List, [], ◌∷◌, ◌++◌, none, some, map, ◌≡◌, refl, sym, ap, ap₂, ◌∙◌,
  append-nil, length, flat_map, Bytes, codes, bytes_eq, arith, ◌⊎◌, inl, inr, Bool-cases,
  if◌then◌else◌,
}
use odoo_rust_orm.Json.{Json, string, bool, array, of_list}
use odoo_rust_orm.Domain.{Leaf, amp, bang}
use odoo_rust_orm.Domain.Meaning.{
  Truth, holds, fails, truth_and, truth_or, truth_not, joined, neutral, joined_assoc,
  joined-neutral,
}
use odoo_rust_orm.Domain.Junctions.{truth}
use odoo_rust_orm.Domain.Prefix.{
  Expr, term, constant, negated, both, tokens, meaning, meanings, to_list-of_list,
}
use odoo_rust_orm.Access.{
  items_of, normalize_domain, or_terms, or_domains, ids_json, within, scoped,
}
use odoo_rust_orm.Access.Notation.{
  under, spelled, normalize_domain-tokens, replicate-tokens, tokens-cons,
}

-- The records of some companies, and the shared ones.
abbrev pub in_companies : Bytes → List ℕ → Expr
in_companies anchor companies =
    let inside = term (record { field = anchor; op = codes "in"; value = ids_json companies }) in
    if bytes_eq anchor (codes "id")
    then inside
    else both false inside (term (record { field = anchor; op = codes "="; value = bool false }))

within-tokens : (anchor : Bytes) (cs : List ℕ) → within anchor cs ≡ tokens (in_companies anchor cs)
unfolding within
within-tokens anchor cs = elim (Bool-cases (bytes_eq anchor (codes "id"))) [
  | inl e ↦ rw e
  | inr e ↦ rw e
]

scoped_and :
    (d : Json) (anchor : Bytes) (cs : List ℕ) (x : Json) (xs : List Json)
    → items_of d ≡ x ∷ xs
    → scoped d anchor cs false
      ≡ array (of_list (string amp ∷ (normalize_domain (x ∷ xs) ++ within anchor cs)))
unfolding scoped normalize_domain
scoped_and d anchor cs x xs h = rw (scoped, h)

module _ (v : Leaf → Truth) where
  abbrev pub any_meaning : List (List Expr) → Truth
  any_meaning [] = fails
  any_meaning (es ∷ ds) = truth_or (meanings truth v es) (any_meaning ds)

  abbrev pub all_meaning : List (List Expr) → Truth
  all_meaning [] = holds
  all_meaning (es ∷ ds) = truth_and (meanings truth v es) (all_meaning ds)

  abbrev list_meaning : Bool → List Expr → Truth
  list_meaning op [] = neutral op
  list_meaning op (e ∷ es) = joined op (meaning truth v e) (list_meaning op es)

  meaning-under :
      (op : Bool) (e : Expr) (fs : List Expr)
      → meaning truth v (under op e fs) ≡ joined op (meaning truth v e) (list_meaning op fs)
  meaning-under op e [] = sym (joined-neutral op (meaning truth v e))
  meaning-under op e (f ∷ fs) =
      meaning-under op (both op e f) fs
      ∙ joined_assoc op (meaning truth v e) (meaning truth v f) (list_meaning op fs)

  list_meaning-true : (es : List Expr) → list_meaning true es ≡ meanings truth v es
  unfolding neutral
  list_meaning-true [] = refl
  list_meaning-true (e ∷ es) = ap (joined true (meaning truth v e)) (list_meaning-true es)

  meaning-under-true :
      (e : Expr) (fs : List Expr) → meaning truth v (under true e fs) ≡ meanings truth v (e ∷ fs)
  meaning-under-true e fs =
      meaning-under true e fs ∙ ap (joined true (meaning truth v e)) (list_meaning-true fs)

  -- One term is its conjunction.
  meanings_one : (e : Expr) → meanings truth v (e ∷ []) ≡ meaning truth v e
  meanings_one e = joined-neutral true (meaning truth v e)

  truth_or-holds : (t : Truth) → truth_or t holds ≡ holds
  truth_or-holds t = ground arith

  truth_or-fails : (t : Truth) → truth_or t fails ≡ t
  truth_or-fails t = ground arith

  -- What the loop of `or_domains` collects: nothing where a domain is TRUE, else each domain's terms,
  -- which normalize to one expression each.
  record Terms (ds : List (List Expr)) (terms : List (List Json)) : Type 0 where
    exprs : List Expr
    spells : flat_map normalize_domain terms ≡ flat_map tokens exprs
    as_many : length terms ≡ length exprs
    means : list_meaning false exprs ≡ any_meaning ds

  or_terms-spelled :
      (ds : List (List Expr))
      → ((or_terms (map spelled ds) ≡ none) × (any_meaning ds ≡ holds))
        ⊎ ((terms : List (List Json)) × (or_terms (map spelled ds) ≡ some terms) × Terms ds terms)
  unfolding or_terms neutral joined
  or_terms-spelled [] =
      inr ([], refl, record { exprs = []; spells = refl; as_many = refl; means = refl })
  or_terms-spelled ([] ∷ ds) = inl (refl, refl)
  or_terms-spelled ((e ∷ es) ∷ ds) =
      let (item, items, starts) = tokens-cons e in
      let here =
        to_list-of_list (tokens e ++ flat_map tokens es)
        ∙ ap (λ l. l ++ flat_map tokens es) starts in
      let terms = normalize_domain-tokens e es in
      elim (or_terms-spelled ds) [
        | inl (empty, means) ↦ inl (rw (here, or_terms, empty), rw (means, truth_or-holds))
        | inr (rest, found, all) ↦ inr (
          (item ∷ items ++ flat_map tokens es) ∷ rest,
          rw (here, or_terms, found),
          record {
            exprs = under true e es ∷ all.exprs;
            spells =
                ap₂ (λ a b. a ++ b)
                  (ap (λ l. normalize_domain (l ++ flat_map tokens es)) (sym starts) ∙ terms)
                  all.spells;
            as_many = ap suc all.as_many;
            means = ap₂ truth_or (meaning-under-true e es) all.means;
          },
        )
      ]

  no_exprs : (es : List Expr) → 0 ≡ length es → es ≡ []
  no_exprs [] h = refl
  no_exprs (e ∷ es) h = absurd (omega (arith, h))

  some_exprs :
      (es : List Expr) (n : ℕ)
      → suc n ≡ length es
      → (e : Expr) × (fs : List Expr) × (es ≡ e ∷ fs) × (n ≡ length fs)
  some_exprs [] n h = absurd (omega (arith, h))
  some_exprs (e ∷ es) n h = (e, es, refl, omega (arith, h))

  -- `or_domains` spells one domain, which selects what some of the domains select, an empty domain
  -- being TRUE and no domain FALSE.
  pub or_domains-spelled :
      (ds : List (List Expr))
      → (es : List Expr) × (or_domains (map spelled ds) ≡ spelled es)
        × (meanings truth v es ≡ any_meaning ds)
  unfolding or_domains joined
  or_domains-spelled ds = elim (or_terms-spelled ds) [
    | inl (empty, means) ↦ ([], rw (or_domains, empty), unfold neutral in sym means)
    | inr ([], found, all) ↦
        let none_left = no_exprs all.exprs all.as_many in
        (
          constant false ∷ [],
          rw (or_domains, found),
          unfold neutral in ap (list_meaning false) (sym none_left) ∙ all.means,
        )
    | inr (t ∷ ts, found, all) ↦
        let (e, fs, exprs_are, as_many) = some_exprs all.exprs (length ts) all.as_many in
        (
          under false e fs ∷ [],
          rw (or_domains, found, all.spells, exprs_are, as_many)
              (ap (λ l. array (of_list l))
                (replicate-tokens false e fs ∙ sym (append-nil (tokens (under false e fs))))),
          meanings_one (under false e fs)
              ∙ meaning-under false e fs
              ∙ ap (list_meaning false) (sym exprs_are)
              ∙ all.means,
        )
  ]

  abbrev pub scoped_meaning : Bool → Truth → Truth → Truth
  scoped_meaning true domain inside = truth_or domain (truth_not inside)
  scoped_meaning false domain inside = truth_and domain inside

  -- A permission held in some companies reaches, of its domain, their records and the shared ones; a
  -- guard binds there only.
  pub scoped-spelled :
      (es : List Expr) (anchor : Bytes) (companies : List ℕ) (guard : Bool)
      → (fs : List Expr) × (scoped (spelled es) anchor companies guard ≡ spelled fs)
        × (meanings truth v fs
            ≡ scoped_meaning guard
                (meanings truth v es)
                (meaning truth v (in_companies anchor companies)))
  unfolding scoped joined neutral bytes_eq
  scoped-spelled es anchor companies true =
      let outside = negated (in_companies anchor companies) in
      let (fs, spells, means) = or_domains-spelled (es ∷ (outside ∷ []) ∷ []) in
      (
        fs,
        ap (λ l. or_domains (spelled es ∷ array (of_list (string bang ∷ l)) ∷ []))
              (within-tokens anchor companies ∙ sym (append-nil _))
            ∙ spells,
        means ∙ ap (truth_or (meanings truth v es)) (truth_or-fails _ ∙ meanings_one outside),
      )
  scoped-spelled [] anchor companies false = (
    in_companies anchor companies ∷ [],
    ap (λ l. array (of_list l)) (within-tokens anchor companies ∙ sym (append-nil _)),
    meanings_one (in_companies anchor companies),
  )
  scoped-spelled (e ∷ es) anchor companies false =
      let (item, items, starts) = tokens-cons e in
      let inside = in_companies anchor companies in
      (
        both true (under true e es) inside ∷ [],
        scoped_and (spelled (e ∷ es)) anchor companies item (items ++ flat_map tokens es) (
              to_list-of_list (tokens e ++ flat_map tokens es)
              ∙ ap (λ l. l ++ flat_map tokens es) starts)
            ∙ ap (λ l. array (of_list (string amp ∷ l)))
                (ap₂ (λ a b. a ++ b)
                    (ap (λ l. normalize_domain (l ++ flat_map tokens es)) (sym starts)
                      ∙ normalize_domain-tokens e es)
                    (within-tokens anchor companies)
                  ∙ sym (append-nil _)),
        meanings_one (both true (under true e es) inside)
            ∙ ap (λ a. truth_and a (meaning truth v inside)) (meaning-under-true e es),
      )
