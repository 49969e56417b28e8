-- ===== src/RuleExpr/Fuel.antt =====
-- The reader of the expressions of kernel/src/security.rs ends: what each of its functions leaves of
-- the text, and the fuel that it needs.
use odoo_rust_orm.Prelude.{
  ℕ, zero, suc, ◌+◌, ◌*◌, ◌≤◌, ◌<◌, ◌≡◌, refl, ◌≢◌, ◌&&◌, ◌||◌, List, [], ◌∷◌, ◌++◌, ap, Bytes,
  codes, bytes_eq, length, ◌==◌, if-intro, arith, subst,
}
use odoo_rust_orm.Sqllex.{is_digit, next_is}
use odoo_rust_orm.RuleExpr.{PyExpr, Exprs, add, push, no_exprs}
use odoo_rust_orm.RuleExpr.Chars.{Std, skip_ws, take_word, is_alphabetic}
use odoo_rust_orm.RuleExpr.Parser.{
  out_of_fuel, closed, named, parse_expr, parse_sum, parse_atom, parse_items, after_item,
  parse_name, argument, after_name, parse_py, enough, xmlid_of, segments_of, is_empty, is_one,
}
use odoo_rust_orm.RuleExpr.Left.{
  Ends, >>=-Ends, Less, length-skip_ws, length-take_word, closed-Ends, named-Ends, Less-Ends,
  Left-Ends, xmlid_of-Ends, segments_of-Ends, whole-Ends, length-is_empty, string-Ends, number-Ends,
  digit-Ends,
}

-- What holds of both cases of a text holds of the split.
cases-intro {ℓ} :
    {B : Type ℓ} (P : B → Type 0) (c : Bytes) {x : B} {f : ℕ → Bytes → B}
    → P x
    → ((a : ℕ) (rest : Bytes) → c ≡ a ∷ rest → P (f a rest))
    → P (elim c [ [] ↦ x | a ∷ rest ↦ f a rest ])
cases-intro P [] nothing some = nothing
cases-intro P (a ∷ rest) nothing some = some a rest refl

module _ (std : Std) where
  -- One induction on the fuel.
  mutual
    unfolding parse_expr

    parse_expr-Ends :
        (f : ℕ) (c : Bytes) → 5 * length c + 3 < f → Ends (Less (length c)) (parse_expr std f c)
    parse_expr-Ends zero c h = absurd (omega arith)
    parse_expr-Ends (suc f) c h =
        >>=-Ends (Less (length c)) (Less (length c)) (parse_atom std f c) _
          (parse_atom-Ends f c (omega arith))
          (λ left lt. parse_sum-Ends f (length c) left.0 left.1 lt (omega arith))

    parse_sum-Ends :
        (f n : ℕ) (left : PyExpr) (c : Bytes)
        → length c < n
        → 5 * length c + 1 < f
        → Ends (Less n) (parse_sum std f left c)
    parse_sum-Ends zero n left c lt h = absurd (omega arith)
    parse_sum-Ends (suc f) n left c lt h =
        let P = Ends (Less n) in
        cases-intro P (skip_ws std c) (omega arith) (λ x rest e.
          let le = length-skip_ws std c in
          let len = ap length e in
          if-intro P (x == b'+')
            (λ e.
              >>=-Ends (Less (length rest)) (Less n) (parse_atom std f rest) _
                (parse_atom-Ends f rest (omega arith))
                (λ right lt'.
                  parse_sum-Ends f n (add left right.0) right.1 (omega arith) (omega arith)))
            (λ e. omega arith))

    parse_atom-Ends :
        (f : ℕ) (c : Bytes) → 5 * length c + 2 < f → Ends (Less (length c)) (parse_atom std f c)
    parse_atom-Ends zero c h = absurd (omega arith)
    parse_atom-Ends (suc f) c h =
        let n = length c in
        let P = Ends (Less n) in
        cases-intro P (skip_ws std c) tt (λ ch rest e.
          let le = length-skip_ws std c in
          let len = ap length e in
          if-intro P (ch == b'[')
            (λ e. parse_items-Ends f b']' n no_exprs rest (omega arith) (omega arith))
            (λ e.
              if-intro P (ch == b'(')
                (λ e. parse_items-Ends f b')' n no_exprs rest (omega arith) (omega arith))
                (λ e.
                  if-intro P (ch == b'\'' || ch == b'"') (λ e. string-Ends n ch rest (omega arith))
                    (λ e.
                      if-intro P (ch == b'-') (λ e. number-Ends std n (ch ∷ []) rest (omega arith))
                        (λ e.
                          if-intro P (is_digit ch) (λ d. digit-Ends std n ch rest d (omega arith))
                            (λ e.
                              if-intro P (is_alphabetic std ch || ch == b'_')
                                (λ e.
                                  parse_name-Ends f n [] (ch ∷ rest) (omega arith) (omega arith))
                                (λ e. tt)))))))

    parse_items-Ends :
        (f close n : ℕ) (items : Exprs) (c : Bytes)
        → length c < n
        → 5 * length c + 4 < f
        → Ends (Less n) (parse_items std f close items c)
    parse_items-Ends zero close n items c lt h = absurd (omega arith)
    parse_items-Ends (suc f) close n items c lt h =
        let P = Ends (Less n) in
        let le = length-skip_ws std c in
        let more =
          >>=-Ends (Less (length c)) (Less n) (parse_expr std f (skip_ws std c))
            (λ item. after_item std f close (push items item.0) (skip_ws std item.1))
            (Less-Ends (parse_expr std f (skip_ws std c)) le
              (parse_expr-Ends f (skip_ws std c) (omega arith)))
            (λ item lt'.
              let le' = length-skip_ws std item.1 in
              after_item-Ends f close n (push items item.0) (skip_ws std item.1) (omega arith)
                (omega arith)) in
        cases-intro P (skip_ws std c) more (λ x rest e.
          if-intro P (x == close) (λ eq. let len = ap length e in omega arith) (λ ne. more))

    after_item-Ends :
        (f close n : ℕ) (items : Exprs) (c : Bytes)
        → length c < n
        → 5 * length c + 5 < f
        → Ends (Less n) (after_item std f close items c)
    after_item-Ends zero close n items c lt h = absurd (omega arith)
    after_item-Ends (suc f) close n items [] lt h = tt
    after_item-Ends (suc f) close n items (x ∷ c) lt h =
        let P = Ends (Less n) in
        if-intro P (x == b',') (λ e. parse_items-Ends f close n items c (omega arith) (omega arith))
          (λ e.
            if-intro P (x == b')' && close == b')' && is_one items) (λ e. omega arith)
              (λ e.
                if-intro P (x == close)
                  (λ e. parse_items-Ends f close n items (x ∷ c) (omega arith) (omega arith))
                  (λ e. tt)))

    parse_name-Ends :
        (f n : ℕ) (names : List Bytes) (c : Bytes)
        → length c ≤ n
        → 5 * length c + 1 < f
        → Ends (Less n) (parse_name std f names c)
    parse_name-Ends zero n names c le h = absurd (omega arith)
    parse_name-Ends (suc f) n names c le h =
        let P = Ends (Less n) in
        let seg = take_word std c in
        let part = length-take_word std c in
        if-intro P (is_empty seg.0) (λ e. tt)
          (λ e.
            let full = length-is_empty seg.0 e in
            let lt : length seg.1 < n = omega arith in
            let small : 5 * length seg.1 + 1 < f = omega arith in
            if-intro P (bytes_eq seg.0 (codes "ref") && is_empty names && next_is b'(' seg.1)
              (λ e.
                >>=-Ends (Less n) (Less n) (argument std f seg.1) _
                  (argument-Ends f n seg.1 (omega arith) small)
                  (λ inner lt'.
                    >>=-Ends (λ x. Unit) (Less n) (xmlid_of inner.0) _ (xmlid_of-Ends inner.0)
                      (λ xmlid u. lt')))
              (λ e.
                if-intro P (bytes_eq seg.0 (codes "mapped") && next_is b'(' seg.1)
                  (λ e.
                    >>=-Ends (Less (length seg.1)) (Less n) (argument std f seg.1) _
                      (argument-Ends f (length seg.1) seg.1 (omega arith) small)
                      (λ inner lt'.
                        >>=-Ends (λ x. Unit) (Less n) (segments_of inner.0) _
                          (segments_of-Ends inner.0)
                          (λ fields u.
                            after_name-Ends f n (names ++ fields) inner.1 (omega arith)
                              (omega arith))))
                  (λ e. after_name-Ends f n (names ++ seg.0 ∷ []) seg.1 lt small)))

    argument-Ends :
        (f n : ℕ) (c : Bytes)
        → length c ≤ n
        → 5 * length c + 1 < f
        → Ends (Less n) (argument std f c)
    argument-Ends zero n c le h = absurd (omega arith)
    argument-Ends (suc f) n [] le h = tt
    argument-Ends (suc f) n (_ ∷ c) le h =
        >>=-Ends (Less (length c)) (Less n) (parse_expr std f c) _
          (parse_expr-Ends f c (omega arith))
          (λ inner lt.
            let le' = length-skip_ws std inner.1 in
            >>=-Ends (λ rest. length rest < length (skip_ws std inner.1)) (Less n)
              (closed b')' (skip_ws std inner.1)) _ (closed-Ends b')' (skip_ws std inner.1))
              (λ rest lt'. omega arith))

    after_name-Ends :
        (f n : ℕ) (names : List Bytes) (c : Bytes)
        → length c < n
        → 5 * length c + 1 < f
        → Ends (Less n) (after_name std f names c)
    after_name-Ends zero n names c lt h = absurd (omega arith)
    after_name-Ends (suc f) n names [] lt h = Left-Ends (named names []) lt (named-Ends names [])
    after_name-Ends (suc f) n names (x ∷ c) lt h =
        if-intro (Ends (Less n)) (x == b'.')
          (λ e. parse_name-Ends f n names c (omega arith) (omega arith))
          (λ e. Left-Ends (named names (x ∷ c)) lt (named-Ends names (x ∷ c)))

  -- The fuel is enough for every text.
  pub parse_py-Ends : (c : Bytes) → Ends (λ e. Unit) (parse_py std c)
  unfolding parse_py
  parse_py-Ends c =
      >>=-Ends (Less (length c)) (λ e. Unit) (parse_expr std (enough c) c) _
        (parse_expr-Ends (enough c) c (omega arith)) (λ e lt. whole-Ends (skip_ws std e.1) e.0)

  -- Reading an expression ends, whatever the text.
  pub parse_py-ne-out_of_fuel : (c : Bytes) → parse_py std c ≢ out_of_fuel
  parse_py-ne-out_of_fuel c e = subst (Ends (λ e. Unit)) e (parse_py-Ends c)
