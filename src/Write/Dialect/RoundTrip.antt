-- ===== src/Write/Dialect/RoundTrip.antt =====
-- kernel/src/write.rs and engine-py/src/cursor.rs: the cursor undoes the port's dialect.
use native.Mathlib.Nat.{suc-add}
use odoo_rust_orm.Prelude.{
  ℕ, zero, suc, ◌+◌, ◌-◌, ◌≤◌, ◌<◌, not, ◌&&◌, List, [], ◌∷◌, ◌++◌, ◌≡◌, refl, sym, ap, ap₂, ◌∙◌,
  arith, Bytes, codes, length, length-append, length-drop, replicate, take, drop, ◌==◌, if-intro,
  option-intro, subst,
}
use odoo_rust_orm.Error.{Result, ok, >>=-eq-ok, ok-injective, Each, Each-ok, Each-step}
use odoo_rust_orm.Json.{Json}
use odoo_rust_orm.Decimal.{decimal}
use odoo_rust_orm.Sqllex.{Opaque, opaque, next_is_digit, is_after_ident}
use odoo_rust_orm.Sqllex.Bounds.{Within, opaque-Within}
use odoo_rust_orm.Sqllex.Quoting.{replace}
use odoo_rust_orm.Scan.{Keeps, scan, scan-inv}
use odoo_rust_orm.Cursor.{translate_placeholders}
use odoo_rust_orm.Cursor.Placeholders.{
  Spells, Spells-append, Spells-nil, Spells-byte, Spells-percent, Spells-placeholder,
  Spells-replace, Spells-all,
}
use odoo_rust_orm.Write.Dialect.{
  digit_run, parse_usize, Dialect, append_text, look_up, parameter, dialect_byte, dialect_region,
  dialect_round, to_odoo_dialect,
}

take-nil : (k : ℕ) → take {A = ℕ} k [] ≡ []
take-nil zero = refl
take-nil (suc k) = refl

take-add : (i k : ℕ) (bs : Bytes) → take i bs ++ take k (drop i bs) ≡ take (i + k) bs
take-add zero k bs = ap (λ m. take m bs) (omega arith)
take-add (suc i) k [] = take-nil k ∙ sym (take-nil (suc i + k))
take-add (suc i) k (b ∷ bs) = ap (◌∷◌ b) (take-add i k bs) ∙ rw suc-add

take-length : (bs : Bytes) → take (length bs) bs ≡ bs
take-length [] = refl
take-length (b ∷ bs) = ap (◌∷◌ b) (take-length bs)

digit_run-le : (bs : Bytes) → digit_run bs ≤ length bs
unfolding digit_run
digit_run-le [] = omega arith
digit_run-le (b ∷ bs) = ground (arith, digit_run-le bs)

module _ {V : Type 0} (to_json : V → Result Json) (values : List V) (sql : Bytes) where
  -- The text so far spells the part of the SQL that is read, exactly so while it has no parameters.
  record Undone (i : ℕ) (s : Dialect) : Type 0 where
    text : ℕ → Bytes
    spells : Spells s.out text (length s.params)
    same_text : s.params ≡ [] → text 0 ≡ take i sql

  abbrev Moves : ℕ → ℕ × Dialect → Type 0
  Moves i r = (i < r.0) × (r.0 ≤ length sql) × Undone r.0 r.1

  append_text-Undone :
      (i k : ℕ) (from_i piece : Bytes) (s : Dialect)
      → drop i sql ≡ from_i
      → Undone i s
      → Spells piece (λ n. take k from_i) 0
      → Undone (i + k) (append_text piece s)
  unfolding append_text
  append_text-Undone i k from_i piece s d u piece_spells = record {
    text = λ n. u.text n ++ take k from_i;
    spells =
        subst (λ m. Spells (s.out ++ piece) (λ n. u.text n ++ take k from_i) m) (omega arith)
          (Spells-append s.out piece u.text (λ n. take k from_i) (length s.params) 0 u.spells
            piece_spells);
    same_text =
        λ none_yet. ap₂ (λ a b. a ++ take k b) (u.same_text none_yet) (sym d) ∙ take-add i k sql;
  }

  not_nil : {A : Type 0} (xs : List A) (x : A) → xs ++ x ∷ [] ≡ [] → ⊥
  not_nil [] x h = cc
  not_nil (y ∷ xs) x h = cc

  parameter-Moves :
      (i c : ℕ) (rest : Bytes) (s : Dialect)
      → i + length (c ∷ rest) ≤ length sql
      → Undone i s
      → Each (Moves i) (parameter to_json values i rest s)
  unfolding parameter
  parameter-Moves i c rest s le u =
      Each-step (Moves i) (parse_usize (take (digit_run rest) rest)) _ λ index.
        Each-step (Moves i) (look_up to_json values index) _ λ value. (
          omega arith,
          omega (arith, digit_run-le rest),
          record {
            text = λ n. u.text n ++ b'$' ∷ decimal (n + length s.params + 1);
            spells =
                subst
                  (λ m.
                    Spells (s.out ++ codes "%s")
                      (λ n. u.text n ++ b'$' ∷ decimal (n + length s.params + 1)) m)
                  (sym (length-append s.params (value ∷ [])))
                  (Spells-append s.out (codes "%s") u.text (λ n. b'$' ∷ decimal (n + 1))
                    (length s.params) 1 u.spells Spells-placeholder);
            same_text = λ none_yet. absurd (not_nil s.params value none_yet);
          },
        )

  dialect_byte-Moves :
      (i c : ℕ) (rest : Bytes) (s : Dialect)
      → drop i sql ≡ c ∷ rest
      → i + length (c ∷ rest) ≤ length sql
      → Undone i s
      → Each (Moves i) (dialect_byte to_json values sql i c rest s)
  unfolding dialect_byte
  dialect_byte-Moves i c rest s d le u =
      if-intro (Each (Moves i)) (c == b'%')
        (λ e.
          moved (b'%' ∷ b'%' ∷ [])
            (subst (λ b. Spells (b'%' ∷ b'%' ∷ []) (λ n. b ∷ []) 0) (ground arith) Spells-percent))
        (λ e.
          if-intro (Each (Moves i)) (c == b'$' && not (is_after_ident sql i) && next_is_digit rest)
            (λ f. parameter-Moves i c rest s le u) (λ f. moved (c ∷ []) (Spells-byte c e)))
    where
      moved : (piece : Bytes) → Spells piece (λ n. c ∷ []) 0 → Moves i (i + 1, append_text piece s)
      moved piece spells =
          (omega arith, omega arith, append_text-Undone i 1 (c ∷ rest) piece s d u spells)

  dialect_region-Moves :
      (i : ℕ) (from_i : Bytes) (token : Opaque) (s : Dialect)
      → drop i sql ≡ from_i
      → Within i (length sql) token
      → Undone i s
      → Each (Moves i) (dialect_region to_json values i from_i token s)
  unfolding dialect_region
  dialect_region-Moves i from_i token s d within u =
      if-intro (Each (Moves i)) (not token.terminated) (λ e. tt)
        (λ e. (
          within.ahead,
          within.inside,
          subst
              (λ j.
                Undone j
                  (append_text (replace b'%' (b'%' ∷ b'%' ∷ []) (take (token.end - i) from_i)) s))
              (omega (arith, within.ahead))
              (append_text-Undone i (token.end - i) from_i _ s d u
                (Spells-replace (take (token.end - i) from_i))),
        ))

  dialect_round-Keeps : Keeps Undone sql (dialect_round to_json values sql)
  dialect_round-Keeps i c rest s j t d u h =
      Each-ok (Moves i) (moves (omega (arith, length-drop i sql, ap length d))) h
    where
      moves :
          i + length (c ∷ rest) ≤ length sql
          → Each (Moves i) (dialect_round to_json values sql i (c ∷ rest) s)
      moves le =
          unfold dialect_round in
          option-intro (Each (Moves i)) (opaque sql i) (λ e. dialect_byte-Moves i c rest s d le u)
            (λ token e. dialect_region-Moves i (c ∷ rest) token s d (opaque-Within sql i e) u)

  Undone-start : Undone 0 (record { out = []; params = [] })
  Undone-start = record { text = λ n. []; spells = Spells-nil; same_text = λ none_yet. refl }

  dialect-Undone :
      {out : Bytes} {params : List Json}
      → to_odoo_dialect to_json values sql ≡ ok (out, params)
      → Undone (length sql) (record { out = out; params = params })
  unfolding to_odoo_dialect
  dialect-Undone h =
      let (s, scanned, is) = >>=-eq-ok (scan (dialect_round to_json values sql) sql _) _ h in
      let u =
        scan-inv Undone sql (dialect_round to_json values sql) dialect_round-Keeps
          (record { out = []; params = [] }) s Undone-start scanned in
      subst (λ r. Undone (length sql) (record { out = r.0; params = r.1 })) (ok-injective is) u

  -- The cursor finds as many positional placeholders in the port's text as there are parameters, and
  -- no named one.
  pub to_odoo_dialect-translate_placeholders :
      {out : Bytes} {params : List Json}
      → to_odoo_dialect to_json values sql ≡ ok (out, params)
      → (translate_placeholders out).1 ≡ replicate (length params) []
  to_odoo_dialect-translate_placeholders {out} {params} h =
      let u = dialect-Undone h in ap (λ r. r.1) (Spells-all out u.text (length params) u.spells)

  -- Where there are no parameters, the cursor gives the compiled SQL back.
  pub translate_placeholders-to_odoo_dialect :
      {out : Bytes}
      → to_odoo_dialect to_json values sql ≡ ok (out, [])
      → translate_placeholders out ≡ (sql, [])
  translate_placeholders-to_odoo_dialect {out} h =
      let u = dialect-Undone h in
      Spells-all out u.text 0 u.spells
      ∙ ap (λ text. (text, [])) (u.same_text refl ∙ take-length sql)
