-- ===== src/RuleSet/History.antt =====
-- kernel/src/security.rs: what `RuleSet::ensure_evaluated` and `get` answer after any sequence of
-- changes, against the history of the one model that is asked about.
use odoo_rust_orm.Prelude.{
  ◌≡◌, refl, ap, ◌∙◌, Bool, true, false, ◌&&◌, List, [], ◌∷◌, Bytes, bytes_eq, bytes_eq_iff,
  if◌then◌else◌, if-intro, Bool-cases, inl, inr,
}
use odoo_rust_orm.Assoc.{
  member, has, insert, name_key, member-add_member, member-add_member-other, has-remove,
  has-remove-other,
}
use odoo_rust_orm.Error.{Result, ok, refuse}
use odoo_rust_orm.Domain.{Node}
use odoo_rust_orm.RuleSet.{
  RuleSet, with_ruled, insert_domain, resolve, mark_unrestricted, mark_unevaluated, note_reads,
  ensure_evaluated, non_empty,
}

-- The changes, each to one model.
pub data Change : Type 0 where
  inserted resolved : Node → Change
  unrestricted : Change
  unevaluated : Bytes → Change
  noted : List (Bytes × Bytes) → Change

abbrev pub apply : Bytes → Change → RuleSet → RuleSet
apply model (inserted node) s = insert_domain model node s
apply model (resolved node) s = resolve model node s
apply model unrestricted s = mark_unrestricted model s
apply model (unevaluated reason) s = mark_unevaluated model reason s
apply model (noted reads) s = note_reads model reads s

abbrev pub run : List (Bytes × Change) → RuleSet → RuleSet
run [] s = s
run ((model, change) ∷ changes) s = run changes (apply model change s)

-- What the changes to one model leave: whether it was compiled, and whether its rules wait.
pub data Status : Type 0 where
  untouched evaluated waiting : Status

abbrev pub after : Change → Status → Status
after (resolved node) status = evaluated
after (unevaluated reason) status = waiting
after (noted reads) status = status
after _ waiting = waiting
after _ _ = evaluated

abbrev pub history : Bytes → List (Bytes × Change) → Status → Status
history model [] status = status
history model ((m, change) ∷ changes) status =
    history model changes (if bytes_eq m model then after change status else status)

-- A model passes once its rules are evaluated, or where it has none and none are waiting.
abbrev pub verdict : Bool → Status → Result (Unit {0})
verdict ruled waiting = refuse
verdict true untouched = refuse
verdict _ _ = ok tt

abbrev is_waiting : Status → Bool
is_waiting waiting = true
is_waiting _ = false

abbrev is_touched : Status → Bool
is_touched untouched = false
is_touched _ = true

module _ (model : Bytes) where
  record Tracks (status : Status) (s : RuleSet) : Type 0 where
    waits : has model s.unevaluated ≡ is_waiting status
    touched : member model s.compiled ≡ is_touched status

  has-insert {ℓ} :
      {V : Type ℓ} (v : V) (es : List (Bytes × V)) → has model (insert model v es) ≡ true
  unfolding has insert
  has-insert v es = let same = (bytes_eq_iff model model).1 refl in rw same

  has-insert-other {ℓ} :
      {V : Type ℓ} (m : Bytes) (v : V) (es : List (Bytes × V))
      → bytes_eq m model ≡ false
      → has model (insert m v es) ≡ has model es
  unfolding has insert
  has-insert-other m v es ne = rw ne (has-remove-other m model es ne)

  apply-own :
      (change : Change) (status : Status) (s : RuleSet)
      → Tracks status s
      → Tracks (after change status) (apply model change s)
  unfolding insert_domain resolve mark_unrestricted mark_unevaluated note_reads
  apply-own (inserted node) untouched s t = record {
    waits = t.waits;
    touched = member-add_member model s.compiled;
  }
  apply-own (inserted node) evaluated s t = record {
    waits = t.waits;
    touched = member-add_member model s.compiled;
  }
  apply-own (inserted node) waiting s t = record {
    waits = t.waits;
    touched = member-add_member model s.compiled;
  }
  apply-own (resolved node) status s t = record {
    waits = has-remove model s.unevaluated;
    touched = member-add_member model s.compiled;
  }
  apply-own unrestricted untouched s t = record {
    waits = t.waits;
    touched = member-add_member model s.compiled;
  }
  apply-own unrestricted evaluated s t = record {
    waits = t.waits;
    touched = member-add_member model s.compiled;
  }
  apply-own unrestricted waiting s t = record {
    waits = t.waits;
    touched = member-add_member model s.compiled;
  }
  apply-own (unevaluated reason) status s t = record {
    waits = has-insert reason s.unevaluated;
    touched = member-add_member model s.compiled;
  }
  apply-own (noted reads) status s t =
      if-intro (Tracks status) (non_empty reads)
        (λ e. record { waits = t.waits; touched = t.touched }) (λ e. t)

  apply-other :
      (m : Bytes) (change : Change) (status : Status) (s : RuleSet)
      → bytes_eq m model ≡ false
      → Tracks status s
      → Tracks status (apply m change s)
  unfolding insert_domain resolve mark_unrestricted mark_unevaluated note_reads
  apply-other m (inserted node) status s ne t = record {
    waits = t.waits;
    touched = member-add_member-other m model s.compiled ne ∙ t.touched;
  }
  apply-other m (resolved node) status s ne t = record {
    waits = has-remove-other m model s.unevaluated ne ∙ t.waits;
    touched = member-add_member-other m model s.compiled ne ∙ t.touched;
  }
  apply-other m unrestricted status s ne t = record {
    waits = t.waits;
    touched = member-add_member-other m model s.compiled ne ∙ t.touched;
  }
  apply-other m (unevaluated reason) status s ne t = record {
    waits = has-insert-other m reason s.unevaluated ne ∙ t.waits;
    touched = member-add_member-other m model s.compiled ne ∙ t.touched;
  }
  apply-other m (noted reads) status s ne t =
      if-intro (Tracks status) (non_empty reads)
        (λ e. record { waits = t.waits; touched = t.touched }) (λ e. t)

  apply-ruled : (m : Bytes) (change : Change) (s : RuleSet) → (apply m change s).ruled ≡ s.ruled
  unfolding insert_domain resolve mark_unrestricted mark_unevaluated note_reads
  apply-ruled m (inserted node) s = refl
  apply-ruled m (resolved node) s = refl
  apply-ruled m unrestricted s = refl
  apply-ruled m (unevaluated reason) s = refl
  apply-ruled m (noted reads) s =
      if-intro (λ (t : RuleSet). t.ruled ≡ s.ruled) (non_empty reads) (λ e. refl) (λ e. refl)

  ensure-verdict :
      (status : Status) (s : RuleSet)
      → Tracks status s
      → ensure_evaluated model s ≡ verdict (member model s.ruled) status
  unfolding ensure_evaluated
  ensure-verdict untouched s t = rw (t.waits, t.touched) (by_rule (member model s.ruled))
    where
      by_rule : (b : Bool) → (if b && true then refuse else ok tt) ≡ verdict b untouched
      by_rule true = refl
      by_rule false = refl
  ensure-verdict evaluated s t = rw (t.waits, t.touched) (by_rule (member model s.ruled))
    where
      by_rule : (b : Bool) → (if b && false then refuse else ok tt) ≡ verdict b evaluated
      by_rule true = refl
      by_rule false = refl
  ensure-verdict waiting s t = rw t.waits (by_rule (member model s.ruled))
    where
      by_rule : (b : Bool) → refuse ≡ verdict b waiting
      by_rule true = refl
      by_rule false = refl

  run-verdict :
      (changes : List (Bytes × Change)) (status : Status) (s : RuleSet)
      → Tracks status s
      → ensure_evaluated model (run changes s)
        ≡ verdict (member model s.ruled) (history model changes status)
  run-verdict [] status s t = ensure-verdict status s t
  run-verdict ((m, change) ∷ changes) status s t = elim (Bool-cases (bytes_eq m model)) [
    | inl own ↦
        let same = (bytes_eq_iff m model).0 own in
        let tracks : Tracks (after change status) (apply m change s) =
          rw same (apply-own change status s t) in
        rw own (
          run-verdict changes (after change status) (apply m change s) tracks
          ∙ ap (λ r. verdict (member model r) (history model changes (after change status)))
              (apply-ruled m change s))
    | inr not_own ↦ rw not_own (
        run-verdict changes status (apply m change s) (apply-other m change status s not_own t)
        ∙ ap (λ r. verdict (member model r) (history model changes status))
            (apply-ruled m change s))
  ]

-- Whatever the changes, a model is read where its rules were compiled and none of them wait, or where
-- nothing rules it; the changes to other models do not count.
pub ensure_evaluated-history :
    (ruled : List Bytes) (changes : List (Bytes × Change)) (model : Bytes)
    → ensure_evaluated model (run changes (with_ruled ruled))
      ≡ verdict (member model ruled) (history model changes untouched)
unfolding with_ruled
ensure_evaluated-history ruled changes model =
    run-verdict model changes untouched (with_ruled ruled) fresh
  where
    fresh : Tracks model untouched (with_ruled ruled)
    fresh = unfold with_ruled has member in record { waits = refl; touched = refl }
