-- ===== src/Access/Grants/Hierarchy.antt =====
-- kernel/src/security.rs: what `check_read_access` decides over the hierarchy of delegated parents.
use odoo_rust_orm.Prelude.{
  ℕ, zero, suc, ◌≤◌, ◌<◌, true, false, List, [], ◌∷◌, some, Bytes, ◌≡◌, refl, ◌⊎◌, inl, inr, arith,
  Option-cases, Member, here, there,
}
use odoo_rust_orm.Error.{Result, ok, deny_access, >>=-eq-ok}
use odoo_rust_orm.Access.Rows.{UserCtx, holds_any}
use odoo_rust_orm.Access.Grants.{
  Security, listed, is_guarded, check_model, each, check_inner, check_read_access,
}

module _ (security : Security) (user : UserCtx) where
  -- The models whose access a model needs: itself, and its parents' in turn.
  pub data Needs : Bytes → Bytes → Type 0 where
    itself : {m : Bytes} → Needs m m
    parent : {m p n : Bytes} → Member p (listed (security.parents m)) → Needs p n → Needs m n

  -- The user holds a read permission on the model and no guard that admits nothing binds it.
  pub record Readable (m : Bytes) : Type 0 where
    pub granted : List ℕ
    pub permits : security.access m ≡ some granted
    pub held : holds_any user.groups granted ≡ true
    pub unguarded : is_guarded security user m ≡ false

  check_model-Readable : (m : Bytes) → check_model security user m ≡ ok tt → Readable m
  unfolding check_model
  check_model-Readable m h = elim (Option-cases (security.access m)) [
    | inl e ↦ absurd (ground arith)
    | inr (granted, e) ↦ record {
      granted = granted;
      permits = e;
      held = ground arith;
      unguarded = ground arith;
    }
  ]

  Readable-check_model : (m : Bytes) → Readable m → check_model security user m ≡ ok tt
  unfolding check_model
  Readable-check_model m r = rw (check_model, r.permits, r.held, r.unguarded)

  -- A model is passed or denied, never refused.
  check_model-decides :
      (m : Bytes)
      → (check_model security user m ≡ ok tt) ⊎ (check_model security user m ≡ deny_access)
  unfolding check_model
  check_model-decides m = ground arith

  each_passes :
      (check : Bytes → Result (Unit {0})) (ms : List Bytes) (m : Bytes)
      → each check ms ≡ ok tt
      → Member m ms
      → check m ≡ ok tt
  unfolding each
  each_passes check [] n h i = elim i [ ]
  each_passes check (m ∷ ms) n h here = (>>=-eq-ok (check m) (λ done. each check ms) h).1
  each_passes check (n ∷ ms) m h (there i) =
      each_passes check ms m (>>=-eq-ok (check n) (λ done. each check ms) h).2 i

  check_inner-Readable :
      (fuel : ℕ) (m n : Bytes) → check_inner security user fuel m ≡ ok tt → Needs m n → Readable n
  unfolding check_inner
  check_inner-Readable zero m n h needs = cc
  check_inner-Readable (suc fuel) m n h itself =
      check_model-Readable m (>>=-eq-ok (check_model security user m) _ h).1
  check_inner-Readable (suc fuel) m n h (parent {p} i needs) =
      check_inner-Readable fuel p n
        (each_passes (check_inner security user fuel) (listed (security.parents m)) p
          (>>=-eq-ok (check_model security user m) _ h).2 i)
        needs

  -- Where the check passes, the user holds a read permission on the model and on every parent that it
  -- delegates to, and no guard that admits nothing binds the user there.
  pub check_read_access-Readable :
      (m n : Bytes) → check_read_access security user m ≡ ok tt → Needs m n → Readable n
  unfolding check_read_access
  check_read_access-Readable m n h needs = check_inner-Readable 17 m n h needs

  each-ok :
      (check : Bytes → Result (Unit {0})) (ms : List Bytes)
      → ((m : Bytes) → Member m ms → check m ≡ ok tt)
      → each check ms ≡ ok tt
  unfolding each
  each-ok check [] h = refl
  each-ok check (m ∷ ms) h = rw (h m here) (each-ok check ms (λ n i. h n (there i)))

  each-decides :
      (check : Bytes → Result (Unit {0})) (ms : List Bytes)
      → ((m : Bytes) → Member m ms → (check m ≡ ok tt) ⊎ (check m ≡ deny_access))
      → (each check ms ≡ ok tt) ⊎ (each check ms ≡ deny_access)
  unfolding each
  each-decides check [] h = inl refl
  each-decides check (m ∷ ms) h = elim (h m here) [
    | inl e ↦ rw e (each-decides check ms (λ n i. h n (there i)))
    | inr e ↦ inr (rw e)
  ]

  module _ (level : Bytes → ℕ)
      (climbs : (m p : Bytes) → Member p (listed (security.parents m)) → level p < level m) where
    check_inner-ok :
        (fuel : ℕ) (m : Bytes)
        → level m < fuel
        → ((n : Bytes) → Needs m n → Readable n)
        → check_inner security user fuel m ≡ ok tt
    unfolding check_inner
    check_inner-ok zero m lt h = absurd (omega arith)
    check_inner-ok (suc fuel) m lt h = rw (Readable-check_model m (h m itself)) (
        each-ok (check_inner security user fuel) (listed (security.parents m)) (λ p i.
          check_inner-ok fuel p (omega (arith, climbs m p i)) (λ n needs. h n (parent i needs))))

    check_inner-decides :
        (fuel : ℕ) (m : Bytes)
        → level m < fuel
        → (check_inner security user fuel m ≡ ok tt)
          ⊎ (check_inner security user fuel m ≡ deny_access)
    unfolding check_inner
    check_inner-decides zero m lt = absurd (omega arith)
    check_inner-decides (suc fuel) m lt = elim (check_model-decides m) [
      | inl e ↦ rw e (
          each-decides (check_inner security user fuel) (listed (security.parents m))
            (λ p i. check_inner-decides fuel p (omega (arith, climbs m p i))))
      | inr e ↦ inr (rw e)
    ]

    -- In a hierarchy without cycles and at most 16 levels high, the check passes where the model and
    -- all that it delegates to are readable.
    pub check_read_access_complete :
        (m : Bytes)
        → level m ≤ 16
        → ((n : Bytes) → Needs m n → Readable n)
        → check_read_access security user m ≡ ok tt
    unfolding check_read_access
    check_read_access_complete m le readable = check_inner-ok 17 m (omega arith) readable

    -- In a hierarchy without cycles and at most 16 levels high, the check passes or denies: it never
    -- refuses.
    pub check_read_access_decides :
        (m : Bytes)
        → level m ≤ 16
        → (check_read_access security user m ≡ ok tt)
          ⊎ (check_read_access security user m ≡ deny_access)
    unfolding check_read_access
    check_read_access_decides m le = check_inner-decides 17 m (omega arith)
