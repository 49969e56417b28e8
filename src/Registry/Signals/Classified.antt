-- ===== src/Registry/Signals/Classified.antt =====
-- kernel/src/registry.rs: what the classification of a change says of the security signals.
use odoo_rust_orm.Prelude.{
  ◌≡◌, refl, sym, ap, ap₂, ◌∙◌, ◌⊎◌, inl, inr, Bool, true, false, not, ◌&&◌, ◌||◌, List, [], ◌∷◌,
  Option, none, some, Bytes, codes, bytes_eq, any, Bool-cases, arith,
}
use odoo_rust_orm.Int.{ℤ, pos, negsuc}
use odoo_rust_orm.Registry.Signals.{
  Signals, security, registry, registry_table, security_signal_tables, is_security, signal_eq,
  signal_lt, signals_eq, rest, differs, precedes, moved, classify_signal_change, security_signals,
  snapshot_precedes,
}

signal_eq-true : (a b : Option ℤ) → signal_eq a b ≡ true → a ≡ b
unfolding signal_eq
signal_eq-true none none h = refl
signal_eq-true (some (pos a)) (some (pos b)) h = ap (λ n. some (pos n)) (ground arith)
signal_eq-true (some (negsuc a)) (some (negsuc b)) h = ap (λ n. some (negsuc n)) (ground arith)
signal_eq-true (some (pos a)) (some (negsuc b)) h = cc
signal_eq-true (some (negsuc a)) (some (pos b)) h = cc
signal_eq-true none (some b) h = cc
signal_eq-true (some a) none h = cc

signals_eq-true : (old new : Signals) → signals_eq old new ≡ true → old ≡ new
unfolding signals_eq
signals_eq-true [] [] h = refl
signals_eq-true [] (b ∷ new) h = cc
signals_eq-true (a ∷ old) [] h = cc
signals_eq-true (a ∷ old) (b ∷ new) h =
    ap₂ (λ x xs. x ∷ xs) (signal_eq-true a b (ground arith))
      (signals_eq-true old new (ground arith))

-- Some table that governs security has another value.
and_false : (a : Bool) → (a && false) ≡ false
and_false true = refl
and_false false = refl

security_moved : List Bytes → Signals → Signals → Bool
unfolding is_security differs
security_moved [] old new = false
security_moved (t ∷ tables) old new =
    (is_security t && differs old new) || security_moved tables (rest old) (rest new)

or-false : (a b : Bool) → (a || b) ≡ false → (a ≡ false) × (b ≡ false)
or-false true b h = cc
or-false false b h = (refl, h)

or-shuffle :
    (a b c d m n o : Bool)
    → (((a && d) || m) || (((b && d) || n) || (((c && d) || o) || false)))
      ≡ (((a || (b || (c || false))) && d) || (m || (n || (o || false))))
or-shuffle true b c true m n o = refl
or-shuffle false true c true true n o = refl
or-shuffle false true c true false n o = refl
or-shuffle false false true true true n o = refl
or-shuffle false false true true false true o = refl
or-shuffle false false true true false false o = refl
or-shuffle false false false true m n o = refl
or-shuffle a b c false m n o =
    rw (and_false a, and_false b, and_false c, and_false (a || (b || (c || false))))

any-moved :
    (tables : List Bytes) (old new : Signals)
    → any (λ t. moved t tables old new) security_signal_tables ≡ security_moved tables old new
unfolding moved security_moved is_security
any-moved [] old new = refl
any-moved (t ∷ tables) old new =
    or-shuffle (bytes_eq t (codes "orm_signaling_default"))
      (bytes_eq t (codes "orm_signaling_groups")) (bytes_eq t (codes "orm_signaling_stable"))
      (differs old new) (moved (codes "orm_signaling_default") tables (rest old) (rest new))
      (moved (codes "orm_signaling_groups") tables (rest old) (rest new))
      (moved (codes "orm_signaling_stable") tables (rest old) (rest new))
    ∙ ap (λ m. (is_security t && differs old new) || m) (any-moved tables (rest old) (rest new))

security_signals-nil : (tables : List Bytes) → security_signals tables [] ≡ []
unfolding security_signals
security_signals-nil [] = refl
security_signals-nil (t ∷ tables) = refl

security_signals-same :
    (tables : List Bytes) (old new : Signals)
    → security_moved tables old new ≡ false
    → security_signals tables old ≡ security_signals tables new
unfolding security_signals security_moved differs
security_signals-same [] old new h = refl
security_signals-same (t ∷ tables) [] [] h = refl
security_signals-same (t ∷ tables) [] (b ∷ new) h =
    let (here, later) = or-false (is_security t && true) (security_moved tables [] new) h in
    let off : is_security t ≡ false = ground arith in
    rw off (sym (security_signals-nil tables) ∙ security_signals-same tables [] new later)
security_signals-same (t ∷ tables) (a ∷ old) [] h =
    let (here, later) = or-false (is_security t && true) (security_moved tables old []) h in
    let off : is_security t ≡ false = ground arith in
    rw off (security_signals-same tables old [] later ∙ security_signals-nil tables)
security_signals-same (t ∷ tables) (a ∷ old) (b ∷ new) h =
    let (here, later) =
      or-false (is_security t && not (signal_eq a b)) (security_moved tables old new) h in
    let ih = security_signals-same tables old new later in
    elim (Bool-cases (is_security t)) [
      | inl on ↦
          let same : signal_eq a b ≡ true = ground arith in
          rw on (ap₂ (λ x xs. x ∷ xs) (signal_eq-true a b same) ih)
      | inr off ↦ rw off ih
    ]

-- Either the change asks for the registry or the security to be read again, or no signal that
-- governs security has changed.
pub classify_signal_change-security_signals :
    (tables : List Bytes) (old new : Signals)
    → (classify_signal_change tables old new ≡ registry)
      ⊎ ((classify_signal_change tables old new ≡ security)
          ⊎ (security_signals tables old ≡ security_signals tables new))
unfolding classify_signal_change
classify_signal_change-security_signals tables old new = elim (Bool-cases (signals_eq old new)) [
  | inl same ↦ inr (inr (ap (security_signals tables) (signals_eq-true old new same)))
  | inr changed ↦ elim (Bool-cases (moved registry_table tables old new)) [
    | inl structure ↦ inl (rw (changed, structure))
    | inr not_structure ↦
        let all = any-moved tables old new in
        elim (Bool-cases (security_moved tables old new)) [
          | inl yes_moved ↦ inr (inl (rw (changed, not_structure, all, yes_moved)))
          | inr not_moved ↦ inr (inr (security_signals-same tables old new not_moved))
        ]
  ]
]

signal_lt_refl : (a : Option ℤ) → signal_lt a a ≡ false
unfolding signal_lt
signal_lt_refl none = refl
signal_lt_refl (some (pos a)) = ground arith
signal_lt_refl (some (negsuc a)) = ground arith

precedes_refl : (s : Signals) → precedes s s ≡ false
unfolding precedes
precedes_refl [] = refl
precedes_refl (a ∷ s) = signal_lt_refl a

precedes-differs : (old new : Signals) → precedes old new ≡ true → differs old new ≡ true
unfolding precedes differs
precedes-differs [] [] h = cc
precedes-differs [] (b ∷ new) h = refl
precedes-differs (a ∷ old) [] h = refl
precedes-differs (a ∷ old) (b ∷ new) h = elim (Bool-cases (signal_eq a b)) [
  | inl same ↦
      let eq = signal_eq-true a b same in
      let no : signal_lt b b ≡ true = rw eq at h in let none_less = signal_lt_refl b in cc
  | inr other ↦ rw other
]

or-merge :
    (r s p d later m sm : Bool)
    → (((r || s) && p) || later) ≡ true
    → (p ≡ true → d ≡ true)
    → (later ≡ true → (m || sm) ≡ true)
    → (((r && d) || m) || ((s && d) || sm)) ≡ true
or-merge r s true d later m sm h pd lm = let e = pd refl in ground arith
or-merge r s false d later m sm h pd lm = ground arith

snapshot_precedes-moved :
    (tables : List Bytes) (old new : Signals)
    → snapshot_precedes tables old new ≡ true
    → (moved registry_table tables old new || security_moved tables old new) ≡ true
unfolding snapshot_precedes moved security_moved
snapshot_precedes-moved [] old new h = cc
snapshot_precedes-moved (t ∷ tables) old new h =
    or-merge (bytes_eq t registry_table) (is_security t) (precedes old new) (differs old new)
      (snapshot_precedes tables (rest old) (rest new))
      (moved registry_table tables (rest old) (rest new))
      (security_moved tables (rest old) (rest new)) h (precedes-differs old new)
      (snapshot_precedes-moved tables (rest old) (rest new))

snapshot_precedes_refl : (tables : List Bytes) (s : Signals) → snapshot_precedes tables s s ≡ false
unfolding snapshot_precedes
snapshot_precedes_refl [] s = refl
snapshot_precedes_refl (t ∷ tables) s =
    let here = precedes_refl s in
    rw (
      here,
      and_false (bytes_eq t registry_table || is_security t),
      snapshot_precedes_refl tables (rest s),
    )

-- A snapshot that is behind has to be read again: the change is one of the registry or of security.
pub snapshot_precedes-classify_signal_change :
    (tables : List Bytes) (snapshot current : Signals)
    → snapshot_precedes tables snapshot current ≡ true
    → (classify_signal_change tables snapshot current ≡ registry)
      ⊎ (classify_signal_change tables snapshot current ≡ security)
unfolding classify_signal_change
snapshot_precedes-classify_signal_change tables old new h = elim (Bool-cases (signals_eq old new)) [
  | inl same ↦
      let eq = signals_eq-true old new same in
      let no : snapshot_precedes tables new new ≡ true = rw eq at h in
      let none_behind = snapshot_precedes_refl tables new in cc
  | inr changed ↦
      let some_moved = snapshot_precedes-moved tables old new h in
      elim (Bool-cases (moved registry_table tables old new)) [
        | inl structure ↦ inl (rw (changed, structure))
        | inr not_structure ↦
            let all = any-moved tables old new in
            let yes : security_moved tables old new ≡ true = rw not_structure at some_moved in
            inr (rw (changed, not_structure, all, yes))
      ]
]
