-- ===== src/Access/Rows/Bound.antt =====
-- kernel/src/security.rs: what the rows that bind a user select together.
use odoo_rust_orm.Prelude.{
  true, false, not, ◌&&◌, List, [], ◌∷◌, ◌++◌, Option, none, some, map, ◌≡◌, refl, sym, ap, ap₂,
  ◌∙◌, append_assoc, append-nil, flat_map, flat_map-append, Bytes, if◌then◌else◌, Bool-cases, inl,
  inr,
}
use odoo_rust_orm.Error.{Result, ok, ok-injective}
use odoo_rust_orm.Json.{Json, array, nil, of_list}
use odoo_rust_orm.Domain.{Leaf, Node, true_node, parse_stack, close, parse}
use odoo_rust_orm.Domain.Meaning.{Truth, holds, truth_and, joined, neutral, eval}
use odoo_rust_orm.Domain.Junctions.{truth}
use odoo_rust_orm.Domain.Prefix.{Expr, tokens, meaning, meanings, to_list-of_list}
use odoo_rust_orm.Domain.Prefix.Sound.{eval-parse}
use odoo_rust_orm.Access.{items_of, or_domains}
use odoo_rust_orm.Access.Notation.{spelled}
use odoo_rust_orm.Access.Meaning.{any_meaning, all_meaning, or_domains-spelled}
use odoo_rust_orm.Access.Rows.{
  Rule, UserCtx, non_empty, combined, Domains, no_domains, skipped, row_domain, push_domain, gather,
  own_domain,
}

abbrev flatten : List (List Expr) → List Expr
flatten [] = []
flatten (es ∷ gs) = es ++ flatten gs

flat_map-spelled :
    (gs : List (List Expr)) → flat_map items_of (map spelled gs) ≡ flat_map tokens (flatten gs)
flat_map-spelled [] = refl
flat_map-spelled (es ∷ gs) =
    ap₂ (λ a b. a ++ b) (to_list-of_list (flat_map tokens es)) (flat_map-spelled gs)
    ∙ sym (flat_map-append tokens es (flatten gs))

-- What a read is bound by: no domain leaves it unrestricted.
abbrev pub restriction : Option Json → Result Node
restriction none = ok true_node
restriction (some d) = parse d

parse_nil : parse (array nil) ≡ ok true_node
unfolding parse parse_stack close
parse_nil = refl

restriction_if :
    (l : List Json)
    → restriction (if non_empty l then some (array (of_list l)) else none)
      ≡ parse (array (of_list l))
restriction_if [] = sym parse_nil
restriction_if (x ∷ l) = refl

restriction-combined :
    (i g p : List Json)
    → restriction (combined i g p)
      ≡ parse (array (of_list ((i ++ flat_map items_of g) ++ items_of (or_domains p))))
unfolding combined
restriction-combined i g p = restriction_if _

module _ (v : Leaf → Truth) where
  truth_and_assoc : (a b c : Truth) → truth_and (truth_and a b) c ≡ truth_and a (truth_and b c)
  truth_and_assoc a b c = unfold joined in odoo_rust_orm.Domain.Meaning.joined_assoc true a b c

  meanings-append :
      (es fs : List Expr)
      → meanings truth v (es ++ fs) ≡ truth_and (meanings truth v es) (meanings truth v fs)
  unfolding joined neutral
  meanings-append [] fs = refl
  meanings-append (e ∷ es) fs =
      ap (truth_and (meaning truth v e)) (meanings-append es fs)
      ∙ sym (truth_and_assoc (meaning truth v e) (meanings truth v es) (meanings truth v fs))

  meanings-flatten : (gs : List (List Expr)) → meanings truth v (flatten gs) ≡ all_meaning v gs
  unfolding neutral
  meanings-flatten [] = refl
  meanings-flatten (es ∷ gs) =
      meanings-append es (flatten gs) ∙ ap (truth_and (meanings truth v es)) (meanings-flatten gs)

  -- The inherited domains, every guard's and one permission's at least.
  pub combined-eval :
      (es : List Expr) (gs ps : List (List Expr)) {n : Node}
      → restriction (combined (flat_map tokens es) (map spelled gs) (map spelled ps)) ≡ ok n
      → eval v n ≡ truth_and (truth_and (meanings truth v es) (all_meaning v gs)) (any_meaning v ps)
  combined-eval es gs ps {n} read =
      let (fs, spells, means) = or_domains-spelled v ps in
      let text =
        restriction-combined _ _ _
        ∙ ap (λ l. parse (array (of_list l)))
            (ap₂ (λ a b. a ++ b)
                (ap (λ l. flat_map tokens es ++ l) (flat_map-spelled gs)
                  ∙ sym (flat_map-append tokens es (flatten gs)))
                (ap items_of spells ∙ to_list-of_list (flat_map tokens fs))
              ∙ sym (flat_map-append tokens (es ++ flatten gs) fs)) in
      eval-parse v ((es ++ flatten gs) ++ fs) (sym text ∙ read)
      ∙ meanings-append (es ++ flatten gs) fs
      ∙ ap₂ truth_and
          (meanings-append es (flatten gs)
            ∙ ap (truth_and (meanings truth v es)) (meanings-flatten gs))
          means

module _ {E R : Type 0} (spells : Rule E R → List Expr) where
  -- What the rows say that bind the user: the guards and the rows of no group, and the permissions.
  pub guards : UserCtx → List (Rule E R) → List (List Expr)
  guards user [] = []
  guards user (rule ∷ rules) =
      if skipped user rule
      then guards user rules
      else if non_empty rule.groups && not rule.restrict
      then guards user rules
      else spells rule ∷ guards user rules

  pub permissions : UserCtx → List (Rule E R) → List (List Expr)
  permissions user [] = []
  permissions user (rule ∷ rules) =
      if skipped user rule
      then permissions user rules
      else if non_empty rule.groups && not rule.restrict
      then spells rule ∷ permissions user rules
      else permissions user rules

  module _ (eval_py : E → UserCtx → Result Json) (reach_domain : Bytes → R → UserCtx → Result Json)
      (model : Bytes) (anchor : Option Bytes) (user : UserCtx) where
    -- The rows that bind the user evaluate, to what `spells` says of each.
    abbrev pub Reads : List (Rule E R) → Type 0
    Reads [] = Unit
    Reads (rule ∷ rules) =
        (skipped user rule ≡ false
          → row_domain eval_py reach_domain model anchor user rule ≡ ok (spelled (spells rule)))
        × Reads rules

    snoc :
        (l : List Json) (es : List Expr) (gs : List (List Expr))
        → (l ++ spelled es ∷ []) ++ map spelled gs ≡ l ++ map spelled (es ∷ gs)
    snoc l es gs = append_assoc l (spelled es ∷ []) (map spelled gs)

    gather-ok :
        (rules : List (Rule E R)) (found : Domains)
        → Reads rules
        → gather eval_py reach_domain model anchor user rules found
          ≡ ok (record {
            globals = found.globals ++ map spelled (guards user rules);
            permissions = found.permissions ++ map spelled (permissions user rules);
          })
    unfolding gather guards permissions push_domain
    gather-ok [] found reads = rw (append-nil, append-nil)
    gather-ok (rule ∷ rules) found (here, later) = elim (Bool-cases (skipped user rule)) [
      | inl passed ↦ rw passed (gather-ok rules found later)
      | inr bound ↦ elim (Bool-cases (non_empty rule.groups && not rule.restrict)) [
        | inl e ↦
            rw (bound, here bound, e)
              (gather-ok rules _ later
                ∙ rw (snoc found.permissions (spells rule) (permissions user rules)))
        | inr e ↦
            rw (bound, here bound, e)
              (gather-ok rules _ later ∙ rw (snoc found.globals (spells rule) (guards user rules)))
      ]
    ]

    own_domain-combined :
        (es : List Expr) (rules : List (Rule E R)) {o : Option Json}
        → Reads rules
        → own_domain eval_py reach_domain model anchor user (flat_map tokens es) (some rules) ≡ ok o
        → combined
            (flat_map tokens es)
            (map spelled (guards user rules))
            (map spelled (permissions user rules))
          ≡ o
    unfolding own_domain
    own_domain-combined es rules reads h = ok-injective (rw (gather-ok rules no_domains reads) at h)

    abbrev pub AllRead : Option (List (Rule E R)) → Type 0
    AllRead none = Unit
    AllRead (some rules) = Reads rules

    -- What is inherited, every guard and every row of no group, and one at least of the permissions
    -- held; what is inherited alone, where the model has no rows.
    abbrev pub own_meaning : (Leaf → Truth) → List Expr → Option (List (Rule E R)) → Truth
    own_meaning v es none = meanings truth v es
    own_meaning v es (some rules) =
        truth_and (truth_and (meanings truth v es) (all_meaning v (guards user rules)))
          (any_meaning v (permissions user rules))

    -- A read is bound by what is inherited, by every guard and every row of no group, and by one at
    -- least of the permissions held; by what is inherited alone where the model has no rows. Where no
    -- domain comes out, which leaves the read unrestricted, that holds of every record. The rows are
    -- those that the loop does not pass over, and each of them evaluates to a domain.
    pub own_domain-eval :
        (v : Leaf → Truth) (es : List Expr) (rules : Option (List (Rule E R))) {o : Option Json}
        {n : Node}
        → AllRead rules
        → own_domain eval_py reach_domain model anchor user (flat_map tokens es) rules ≡ ok o
        → restriction o ≡ ok n
        → eval v n ≡ own_meaning v es rules
    unfolding own_domain
    own_domain-eval v es none reads h read =
        eval-parse v es
          (sym (restriction_if (flat_map tokens es)) ∙ ap restriction (ok-injective h) ∙ read)
    own_domain-eval v es (some rules) reads h read =
        combined-eval v es (guards user rules) (permissions user rules)
          (ap restriction (own_domain-combined es rules reads h) ∙ read)
