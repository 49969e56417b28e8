-- ===== src/RuleExpr/Reads.antt =====
-- What the reader of kernel/src/security.rs does on the parts of a written expression.
use odoo_rust_orm.Prelude.{
  ℕ, suc, ◌+◌, ◌*◌, ◌-◌, ◌≤◌, ◌<◌, ◌≡◌, refl, ap, ◌∙◌, true, false, ◌||◌, [], ◌∷◌, ◌++◌, Bytes,
  codes, length, length-append, append_assoc, ◌==◌, arith,
}
use odoo_rust_orm.Sqllex.{next_is}
use odoo_rust_orm.Int.{pos, negsuc}
use odoo_rust_orm.RuleExpr.{
  PyExpr, Exprs, str, int, float, bool, none_value, seq, name, ref, add, no_exprs, expr, push,
}
use odoo_rust_orm.RuleExpr.Chars.{Std, skip_ws}
use odoo_rust_orm.RuleExpr.Parser.{done, parse_expr, parse_sum, parse_atom, parse_items, after_item}
use odoo_rust_orm.RuleExpr.Printer.{repr, repr_items, writable}
use odoo_rust_orm.RuleExpr.Pieces.{stops, begins, decimal-cons, skip_ws-begins, skip_ws-stops}
use odoo_rust_orm.RuleExpr.Atoms.{cases-cons}

-- The sums on the left of a sum.
unfoldable pub adds : PyExpr → ℕ
adds (add a b) = suc (adds a)
adds _ = 0

-- The items that stand before the others.
abbrev onto : Exprs → Exprs → Exprs
onto no_exprs ys = ys
onto (expr x xs) ys = expr x (onto xs ys)

pub onto-nil : (xs : Exprs) → onto xs no_exprs ≡ xs
onto-nil no_exprs = refl
onto-nil (expr x xs) = ap (expr x) (onto-nil xs)

onto-push : (xs : Exprs) (x : PyExpr) (ys : Exprs) → onto (push xs x) ys ≡ onto xs (expr x ys)
onto-push no_exprs x ys = refl
onto-push (expr y xs) x ys = ap (expr y) (onto-push xs x ys)

adds-repr-le : (e : PyExpr) → adds e ≤ length (repr e)
unfolding adds repr
adds-repr-le (add a b) =
    omega (arith, adds-repr-le a, length-append (repr a) (b'+' ∷ b'(' ∷ (repr b ++ codes ")")))
adds-repr-le _ = omega arith

module _ (std : Std) where
  abbrev Begins : Bytes → Type 0
  Begins text = (c : ℕ) × (cs : Bytes) × (text ≡ c ∷ cs) × (begins std c ≡ true)

  repr-Begins : (e : PyExpr) → writable e ≡ true → Begins (repr e)
  unfolding repr writable
  repr-Begins (str s) h = (_, _, refl, refl)
  repr-Begins (int (pos n)) h = let (x, xs, e, d) = decimal-cons n in (x, xs, e, ground arith)
  repr-Begins (int (negsuc n)) h = (_, _, refl, refl)
  repr-Begins (float bits) h = cc
  repr-Begins (bool true) h = (_, _, refl, refl)
  repr-Begins (bool false) h = (_, _, refl, refl)
  repr-Begins none_value h = (_, _, refl, refl)
  repr-Begins (seq items) h = (_, _, refl, refl)
  repr-Begins (name []) h = cc
  repr-Begins (name ([] ∷ ns)) h = cc
  repr-Begins (name ((c ∷ n) ∷ ns)) h = (c, _, refl, ground arith)
  repr-Begins (ref s) h = (_, _, refl, refl)
  repr-Begins (add a b) h =
      let (c, cs, e, g) = repr-Begins a (ground arith) in
      (c, _, ap (λ l. l ++ b'+' ∷ b'(' ∷ (repr b ++ codes ")")) e, g)

  -- Each form but a sum, read as an atom.
  abbrev pub ReadsAtom : PyExpr → Type 0
  ReadsAtom e =
      (f : ℕ) (rest : Bytes)
      → stops rest ≡ true
      → 5 * length (repr e) < f
      → parse_atom std f (repr e ++ rest) ≡ done (e, rest)

  -- The reader of a sum comes to its loop, with the expression on the left.
  abbrev pub ReadsSum : PyExpr → Type 0
  ReadsSum e =
      (m : ℕ) (rest : Bytes)
      → stops rest ≡ true
      → 5 * length (repr e) < adds e + m
      → parse_expr std (suc (adds e + m)) (repr e ++ rest) ≡ parse_sum std m e rest

  abbrev ReadsExpr : PyExpr → Type 0
  ReadsExpr e =
      (f : ℕ) (rest : Bytes)
      → stops rest ≡ true
      → next_is b'+' rest ≡ false
      → 5 * length (repr e) + 1 < f
      → parse_expr std f (repr e ++ rest) ≡ done (e, rest)

  abbrev pub ReadsItems : Exprs → Type 0
  ReadsItems xs =
      (f : ℕ) (before : Exprs) (rest : Bytes)
      → 5 * length (repr_items xs) + 1 < f
      → parse_items std f b']' before (repr_items xs ++ rest) ≡ done (seq (onto before xs), rest)

  parse_sum-stops :
      (m : ℕ) (e : PyExpr) (rest : Bytes)
      → stops rest ≡ true
      → next_is b'+' rest ≡ false
      → parse_sum std (suc m) e rest ≡ done (e, rest)
  unfolding parse_expr
  parse_sum-stops m e [] s p = unfold skip_ws in refl
  parse_sum-stops m e (c ∷ cs) s p =
      cases-cons (λ r. r ≡ done (e, c ∷ cs)) (skip_ws std (c ∷ cs)) c cs _ _
        (skip_ws-stops std (c ∷ cs) s) (rw p)

  pub sum-ReadsExpr : (e : PyExpr) → ReadsSum e → ReadsExpr e
  sum-ReadsExpr e reads f rest s p lt =
      let le = adds-repr-le e in
      let m = f - adds e - 2 in
      let split : f ≡ suc (adds e + suc m) = omega arith in
      rw split (reads (suc m) rest s (omega arith) ∙ parse_sum-stops m e rest s p)

  pub atom-ReadsSum : (e : PyExpr) → adds e ≡ 0 → ReadsAtom e → ReadsSum e
  unfolding parse_expr
  atom-ReadsSum e none reads m rest s lt =
      let same : adds e + m ≡ m = omega arith in rw (same, reads m rest s (omega arith))

  -- The text of an expression, with what stands behind it, begins as the expression.
  skip_ws-repr :
      (e : PyExpr) (rest : Bytes)
      → writable e ≡ true
      → skip_ws std (repr e ++ rest) ≡ repr e ++ rest
  skip_ws-repr e rest h =
      let (c, cs, p, g) = repr-Begins e h in rw p (skip_ws-begins std c (cs ++ rest) g)

  close-begins :
      (c close : ℕ)
      → (close == b']' || close == b')') ≡ true
      → begins std c ≡ true
      → (c == close) ≡ false
  close-begins c close k g = ground arith

  -- An item, up to what is done behind it.
  parse_items-item :
      (f close : ℕ) (before : Exprs) (x : PyExpr) (d : ℕ) (rest : Bytes)
      → (close == b']' || close == b')') ≡ true
      → writable x ≡ true
      → stops (d ∷ rest) ≡ true
      → (d == b'+') ≡ false
      → ReadsExpr x
      → 5 * length (repr x) + 1 < f
      → parse_items std (suc f) close before (repr x ++ d ∷ rest)
        ≡ after_item std f close (push before x) (d ∷ rest)
  unfolding parse_expr
  parse_items-item f close before x d rest k h s p reads lt =
      let (c, cs, e, g) = repr-Begins x h in
      let skipped = skip_ws-repr x (d ∷ rest) h in
      cases-cons (λ r. r ≡ after_item std f close (push before x) (d ∷ rest))
        (skip_ws std (repr x ++ d ∷ rest)) c (cs ++ d ∷ rest) _ _
        (skipped ∙ ap (λ l. l ++ d ∷ rest) e)
        (rw (
          close-begins c close k g,
          skipped,
          reads f (d ∷ rest) s p lt,
          skip_ws-stops std (d ∷ rest) s,
        ))

  after_item-comma :
      (f close : ℕ) (items : Exprs) (rest : Bytes)
      → after_item std (suc f) close items (b',' ∷ rest) ≡ parse_items std f close items rest
  unfolding parse_expr
  after_item-comma f close items rest = refl

  after_item-group :
      (f : ℕ) (x : PyExpr) (rest : Bytes)
      → after_item std (suc f) b')' (push no_exprs x) (b')' ∷ rest) ≡ done (x, rest)
  unfolding parse_expr
  after_item-group f x rest = refl

  pub parse_items-end :
      (f : ℕ) (items : Exprs) (rest : Bytes)
      → parse_items std (suc f) b']' items (b']' ∷ rest) ≡ done (seq items, rest)
  unfolding parse_expr skip_ws
  parse_items-end f items rest = refl

  pub parse_atom-open :
      (f : ℕ) (rest : Bytes)
      → (parse_atom std (suc f) (b'[' ∷ rest) ≡ parse_items std f b']' no_exprs rest)
        × (parse_atom std (suc f) (b'(' ∷ rest) ≡ parse_items std f b')' no_exprs rest)
  unfolding parse_expr skip_ws
  parse_atom-open f rest = (refl, refl)

  parse_sum-plus :
      (m : ℕ) (a b : PyExpr) (rest more : Bytes)
      → parse_atom std m rest ≡ done (b, more)
      → parse_sum std (suc m) a (b'+' ∷ rest) ≡ parse_sum std m (add a b) more
  unfolding parse_expr skip_ws
  parse_sum-plus m a b rest more h = rw h

  -- The right side of a sum.
  parse_sum-right :
      (m : ℕ) (a b : PyExpr) (rest : Bytes)
      → writable b ≡ true
      → ReadsExpr b
      → 5 * length (repr b) + 4 < m
      → parse_sum std (suc m) a (b'+' ∷ b'(' ∷ (repr b ++ b')' ∷ rest))
        ≡ parse_sum std m (add a b) rest
  parse_sum-right m a b rest h reads lt =
      let k = m - 3 in
      let split : m ≡ suc (suc (suc k)) = omega arith in
      parse_sum-plus m a b (b'(' ∷ (repr b ++ b')' ∷ rest)) rest (
        rw split (
          (parse_atom-open (suc (suc k)) (repr b ++ b')' ∷ rest)).1
          ∙ parse_items-item (suc k) b')' no_exprs b b')' rest refl h refl refl reads (omega arith)
          ∙ after_item-group k b rest))

  pub reads_add : (a b : PyExpr) → writable b ≡ true → ReadsSum a → ReadsExpr b → ReadsSum (add a b)
  unfolding repr adds
  reads_add a b h reads_a reads_b m rest s lt =
      let le = adds-repr-le a in
      let len = length-append (repr a) (b'+' ∷ b'(' ∷ (repr b ++ codes ")")) in
      let len' = length-append (repr b) (codes ")") in
      let right = b'+' ∷ b'(' ∷ (repr b ++ b')' ∷ rest) in
      let same : adds (add a b) + m ≡ adds a + suc m = omega arith in
      let text : (repr a ++ b'+' ∷ b'(' ∷ (repr b ++ codes ")")) ++ rest ≡ repr a ++ right =
        append_assoc (repr a) (b'+' ∷ b'(' ∷ (repr b ++ codes ")")) rest
        ∙ ap (λ l. repr a ++ b'+' ∷ b'(' ∷ l) (append_assoc (repr b) (codes ")") rest) in
      rw (text, same)
        (reads_a (suc m) right refl (omega arith)
          ∙ parse_sum-right m a b rest h reads_b (omega arith))

  pub reads_item :
      (x : PyExpr) (xs : Exprs)
      → writable x ≡ true
      → ReadsExpr x
      → ReadsItems xs
      → ReadsItems (expr x xs)
  unfolding repr
  reads_item x xs h reads_x reads_xs f before rest lt =
      let len = length-append (repr x) (b',' ∷ repr_items xs) in
      let k = f - 2 in
      let split : f ≡ suc (suc k) = omega arith in
      rw (split, append_assoc (repr x) (b',' ∷ repr_items xs) rest)
        (parse_items-item (suc k) b']' before x b',' (repr_items xs ++ rest) refl h refl refl
            reads_x (omega arith)
          ∙ after_item-comma k b']' (push before x) (repr_items xs ++ rest)
          ∙ reads_xs k (push before x) rest (omega arith)
          ∙ ap (λ l. done (seq l, rest)) (onto-push before x xs))
