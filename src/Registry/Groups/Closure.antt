-- ===== src/Registry/Groups/Closure.antt =====
-- kernel/src/registry.rs: `Security::groups_of` ends, and gives the groups that a user holds.
use odoo_rust_orm.Prelude.{
  ℕ, zero, suc, ◌+◌, ◌≤◌, ◌≡◌, ◌↔◌, ◌⊎◌, inl, inr, refl, sym, ◌∙◌, Bool, true, false, ◌||◌, List,
  [], ◌∷◌, Option, none, some, length, arith, Bool-cases, ◌==◌,
}
use mathlib.Core.Logic.{∥∥₁_elim}
use mathlib.Core.Bool.{So-prop}
use odoo_rust_orm.Assoc.{member, lookup, id_key}
use odoo_rust_orm.Registry.Groups.{
  Grants, or_empty, extend, one, close_groups, entries, start, groups_of,
}
use odoo_rust_orm.Registry.Groups.Stack.{
  member-extend, length-extend, pending, pending-entries, pending-fresh,
}

-- The groups that a user holds: the user's own, the one that everyone holds, and what they imply.
pub data Held (s : Grants) (uid : ℕ) : ℕ → Type 0 where
  own : {g : ℕ} → member g (or_empty (lookup uid s.user_groups)) ≡ true → Held s uid g
  of_everyone : {g : ℕ} → s.everyone ≡ some g → Held s uid g
  implied :
      {g h : ℕ} → Held s uid g → member h (or_empty (lookup g s.implied)) ≡ true → Held s uid h

module _ (s : Grants) (uid : ℕ) where
  -- Either seen or still on the stack.
  abbrev known : List ℕ → List ℕ → ℕ → Bool
  known seen stack g = member g seen || member g stack

  record Inv (seen stack : List ℕ) : Type 0 where
    sound : (g : ℕ) → known seen stack g ≡ true → Held s uid g
    roots : (g : ℕ) → member g (start s uid) ≡ true → known seen stack g ≡ true
    closed :
        (g h : ℕ)
        → member g seen ≡ true
        → member h (or_empty (lookup g s.implied)) ≡ true
        → known seen stack h ≡ true

  known-skip :
      (seen stack : List ℕ) (g x : ℕ)
      → member g seen ≡ true
      → known seen (g ∷ stack) x ≡ known seen stack x
  unfolding member
  known-skip seen stack g x old = elim (Bool-cases (g == x)) [
    | inl eq ↦
        let same : g ≡ x = ground arith in
        let seen_x : member x seen ≡ true = rw (← same) old in rw (eq, seen_x)
    | inr ne ↦ rw ne
  ]

  known-visit :
      (seen stack more : List ℕ) (g x : ℕ)
      → known (g ∷ seen) (extend more stack) x ≡ known seen (g ∷ stack) x || member x more
  unfolding member
  known-visit seen stack more g x = let both = member-extend x more stack in ground (arith, both)

  Inv-skip :
      (seen stack : List ℕ) (g : ℕ) → member g seen ≡ true → Inv seen (g ∷ stack) → Inv seen stack
  Inv-skip seen stack g old inv = record {
    sound = λ x h. inv.sound x (known-skip seen stack g x old ∙ h);
    roots = λ x h. sym (known-skip seen stack g x old) ∙ inv.roots x h;
    closed = λ x y h k. sym (known-skip seen stack g y old) ∙ inv.closed x y h k;
  }

  abbrev implies : ℕ → List ℕ
  implies g = or_empty (lookup g s.implied)

  or-inl : (a b : Bool) → a ≡ true → (a || b) ≡ true
  or-inl a b h = ground arith

  or-inr : (a b : Bool) → b ≡ true → (a || b) ≡ true
  or-inr a b h = ground arith

  or-cases : (a b : Bool) → (a || b) ≡ true → (a ≡ true) ⊎ (b ≡ true)
  or-cases true b h = inl refl
  or-cases false b h = inr h

  top-known : (seen stack : List ℕ) (g : ℕ) → known seen (g ∷ stack) g ≡ true
  unfolding member
  top-known seen stack g = ground arith

  Inv-visit :
      (seen stack : List ℕ) (g : ℕ)
      → Inv seen (g ∷ stack)
      → Inv (g ∷ seen) (extend (implies g) stack)
  Inv-visit seen stack g inv = record {
    sound = λ x h.
        elim (or-cases (known seen (g ∷ stack) x) (member x (implies g)) (sym (visit x) ∙ h)) [
          | inl was ↦ inv.sound x was
          | inr new ↦ Held.implied (inv.sound g (top-known seen stack g)) new
        ];
    roots =
        λ x h. visit x ∙ or-inl (known seen (g ∷ stack) x) (member x (implies g)) (inv.roots x h);
    closed = λ x y h k. visit y ∙ at x y h k;
  }
    where
      visit :
          (x : ℕ)
          → known (g ∷ seen) (extend (implies g) stack) x
            ≡ known seen (g ∷ stack) x || member x (implies g)
      visit x = known-visit seen stack (implies g) g x

      at :
          (x y : ℕ)
          → member x (g ∷ seen) ≡ true
          → member y (implies x) ≡ true
          → (known seen (g ∷ stack) y || member y (implies g)) ≡ true
      at x y h k = elim (or-cases (g == x) (member x seen) (unfold member in h)) [
        | inl eq ↦
            let same : g ≡ x = ground arith in
            or-inr (known seen (g ∷ stack) y) (member y (implies g)) (rw same k)
        | inr old ↦ or-inl (known seen (g ∷ stack) y) (member y (implies g)) (inv.closed x y old k)
      ]

  -- The fuel is enough, and the invariant holds at the end.
  close_groups-Inv :
      (fuel : ℕ) (seen stack : List ℕ)
      → length stack + pending seen s.implied ≤ fuel
      → Inv seen stack
      → (out : List ℕ) × (close_groups s.implied fuel seen stack ≡ some out) × Inv out []
  unfolding close_groups
  close_groups-Inv fuel seen [] le inv = (seen, refl, inv)
  close_groups-Inv zero seen (g ∷ stack) le inv = absurd (omega arith)
  close_groups-Inv (suc fuel) seen (g ∷ stack) le inv = elim (Bool-cases (member g seen)) [
    | inl old ↦
        let (out, e, last) =
          close_groups-Inv fuel seen stack (omega arith) (Inv-skip seen stack g old inv) in
        (out, rw old e, last)
    | inr new ↦
        let paid = pending-fresh g seen s.implied new in
        let len = length-extend (implies g) stack in
        let (out, e, last) =
          close_groups-Inv fuel (g ∷ seen) (extend (implies g) stack) (omega arith)
            (Inv-visit seen stack g inv) in
        (out, rw new e, last)
  ]

  abbrev own_groups : List ℕ
  own_groups = or_empty (lookup uid s.user_groups)

  member-start : (g : ℕ) → member g (start s uid) ≡ member g (one s.everyone) || member g own_groups
  unfolding member
  member-start g =
      let all = member-extend g (one s.everyone) (extend own_groups []) in
      let own = member-extend g own_groups [] in ground (arith, all, own)

  one-eq : (g : ℕ) (o : Option ℕ) → member g (one o) ≡ true → o ≡ some g
  unfolding member
  one-eq g none h = cc
  one-eq g (some x) h = ground arith

  member-one : (g : ℕ) (o : Option ℕ) → o ≡ some g → member g (one o) ≡ true
  unfolding member
  member-one g none h = cc
  member-one g (some x) h = ground arith

  start-Held : (g : ℕ) → member g (start s uid) ≡ true → Held s uid g
  start-Held g h =
      elim (or-cases (member g (one s.everyone)) (member g own_groups) (sym (member-start g) ∙ h)) [
        | inl e ↦ Held.of_everyone (one-eq g s.everyone e)
        | inr o ↦ Held.own o
      ]

  Inv-start : Inv [] (start s uid)
  unfolding member
  Inv-start = record { sound = λ g h. start-Held g h; roots = λ g h. h; closed = λ g h a b. cc }

  known-done : (out : List ℕ) (g : ℕ) → known out [] g ≡ true → member g out ≡ true
  unfolding member
  known-done out g h = ground arith

  complete : (out : List ℕ) (g : ℕ) → Inv out [] → Held s uid g → member g out ≡ true
  complete out g inv (Held.own h) =
      known-done out g
        (inv.roots g (member-start g ∙ or-inr (member g (one s.everyone)) (member g own_groups) h))
  complete out g inv (Held.of_everyone h) = known-done out g (
      inv.roots g (
        member-start g
        ∙ or-inl (member g (one s.everyone)) (member g own_groups) (member-one g s.everyone h)))
  complete out g inv (Held.implied {g = x} held h) =
      known-done out g (inv.closed x g (complete out x inv held) h)

-- The closure ends, and gives exactly the groups that the user holds.
pub groups_of-Held :
    (s : Grants) (uid g : ℕ)
    → (seen : List ℕ) × (groups_of s uid ≡ some seen) × ((member g seen ≡ true) ↔ ∥ Held s uid g ∥₁)
unfolding groups_of member
groups_of-Held s uid g =
    let enough = pending-entries s.implied in
    let (out, e, inv) =
      close_groups-Inv s uid (length (start s uid) + entries s.implied) [] (start s uid)
        (omega arith) (Inv-start s uid) in
    (
      out,
      e,
      (
        λ m. ∣ inv.sound g (or-inl s uid (member g out) false m) ∣₁,
        λ h. ∥∥₁_elim h (So-prop _) (complete s uid out g inv),
      ),
    )
