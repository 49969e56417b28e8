-- ===== src/RuleExpr/RoundTrip.antt =====
-- The reader of access row expressions of kernel/src/security.rs against RuleExpr/Printer.
use odoo_rust_orm.Prelude.{
  ℕ, zero, suc, ◌*◌, ◌-◌, ◌≤◌, ◌<◌, ◌≡◌, refl, sym, ap, ◌∙◌, true, false, List, [], ◌∷◌, ◌++◌,
  Bytes, codes, bytes_eq, length, length-append, append-nil, arith,
}
use odoo_rust_orm.RuleExpr.{
  PyExpr, Exprs, str, int, float, bool, none_value, seq, name, ref, add, no_exprs, expr,
}
use odoo_rust_orm.RuleExpr.Chars.{Std, skip_ws}
use odoo_rust_orm.RuleExpr.Parser.{done, parse_atom, parse_py, enough, named}
use odoo_rust_orm.RuleExpr.Printer.{dotted, is_ident, repr, repr_items, writable, all_writable}
use odoo_rust_orm.RuleExpr.Pieces.{stops}
use odoo_rust_orm.RuleExpr.Atoms.{parse_atom-quoted, parse_atom-signed}
use odoo_rust_orm.RuleExpr.Names.{
  parse_atom-chain, parse_atom-ref, length-dotted-le, named-not-literal,
}
use odoo_rust_orm.RuleExpr.Reads.{
  adds, onto-nil, ReadsAtom, ReadsSum, ReadsItems, sum-ReadsExpr, atom-ReadsSum, parse_items-end,
  parse_atom-open, reads_add, reads_item,
}

module _ (std : Std) where
  -- Fuel above a bound is a successor.
  atom-ReadsSum-spend :
      (e : PyExpr)
      → adds e ≡ 0
      → ((f : ℕ) (rest : Bytes)
          → stops rest ≡ true
          → 5 * length (repr e) ≤ f
          → parse_atom std (suc f) (repr e ++ rest) ≡ done (e, rest))
      → ReadsSum std e
  atom-ReadsSum-spend e none reads = atom-ReadsSum std e none atom
    where
      atom : ReadsAtom std e
      atom zero rest s lt = absurd (omega arith)
      atom (suc f) rest s lt = reads f rest s (omega arith)

  reads_literal :
      (n : Bytes) (e : PyExpr) (f : ℕ) (rest : Bytes)
      → is_ident n ≡ true
      → named (n ∷ []) rest ≡ done (e, rest)
      → stops rest ≡ true
      → 1 < f
      → parse_atom std (suc f) (n ++ rest) ≡ done (e, rest)
  reads_literal n e f rest h last s lt =
      ap (λ l. parse_atom std (suc f) (l ++ rest)) (sym (append-nil n))
      ∙ parse_atom-chain std f n [] rest h refl s lt
      ∙ last

  reads_name :
      (n : Bytes) (ns : List Bytes) (f : ℕ) (rest : Bytes)
      → writable (name (n ∷ ns)) ≡ true
      → stops rest ≡ true
      → 5 * length (repr (name (n ∷ ns))) ≤ f
      → parse_atom std (suc f) (repr (name (n ∷ ns)) ++ rest) ≡ done (name (n ∷ ns), rest)
  unfolding repr writable
  reads_name [] ns f rest h s le = cc
  reads_name (c ∷ n) ns f rest h s le =
      let parts = length-dotted-le ns in
      let len = length-append n (dotted ns) in
      parse_atom-chain std f (c ∷ n) ns rest (ground arith) (ground arith) s (omega arith)
      ∙ named-not-literal (c ∷ n) ns rest (ground arith)

  reads_ref :
      (s : Bytes) (f : ℕ) (rest : Bytes)
      → 5 * length (repr (ref s)) ≤ f
      → parse_atom std (suc f) (repr (ref s) ++ rest) ≡ done (ref s, rest)
  unfolding repr
  reads_ref s f rest le =
      let k = f - 4 in
      let split : f ≡ suc (suc (suc (suc k))) = omega arith in
      rw split (parse_atom-ref std k s rest)

  mutual
    unfolding repr writable adds named bytes_eq

    reads_sum : (e : PyExpr) → writable e ≡ true → ReadsSum std e
    reads_sum (str s) h =
        atom-ReadsSum-spend (str s) refl (λ f rest stop le. parse_atom-quoted std f s rest)
    reads_sum (int i) h =
        atom-ReadsSum-spend (int i) refl (λ f rest stop le. parse_atom-signed std f i rest h stop)
    reads_sum (float bits) h = cc
    reads_sum (bool true) h = atom-ReadsSum-spend (bool true) refl (λ f rest stop le.
        reads_literal (codes "True") (bool true) f rest refl refl stop (omega arith))
    reads_sum (bool false) h = atom-ReadsSum-spend (bool false) refl (λ f rest stop le.
        reads_literal (codes "False") (bool false) f rest refl refl stop (omega arith))
    reads_sum none_value h = atom-ReadsSum-spend none_value refl (λ f rest stop le.
        reads_literal (codes "None") none_value f rest refl refl stop (omega arith))
    reads_sum (seq items) h =
        let reads = reads_items items h in
        atom-ReadsSum-spend (seq items) refl (λ f rest stop le.
          (parse_atom-open std f (repr_items items ++ rest)).0
          ∙ reads f no_exprs rest (omega arith))
    reads_sum (name []) h = cc
    reads_sum (name (n ∷ ns)) h =
        atom-ReadsSum-spend (name (n ∷ ns)) refl
          (λ f rest stop le. reads_name n ns f rest h stop le)
    reads_sum (ref s) h = atom-ReadsSum-spend (ref s) refl (λ f rest stop le. reads_ref s f rest le)
    reads_sum (add a b) h =
        let right = reads_sum b (ground arith) in
        reads_add std a b (ground arith) (reads_sum a (ground arith)) (sum-ReadsExpr std b right)

    reads_items : (xs : Exprs) → all_writable xs ≡ true → ReadsItems std xs
    reads_items no_exprs h zero before rest lt = absurd (omega arith)
    reads_items no_exprs h (suc f) before rest lt =
        parse_items-end std f before rest ∙ ap (λ l. done (seq l, rest)) (sym (onto-nil before))
    reads_items (expr x xs) h f before rest lt =
        let item = reads_sum x (ground arith) in
        reads_item std x xs (ground arith) (sum-ReadsExpr std x item)
          (reads_items xs (ground arith)) f before rest lt

  -- An expression is read back from its Python text as it was: texts in single quotes with
  -- backslashes, quotes, newlines, tabs and carriage returns escaped, whole numbers of 64 bits, dotted
  -- names of ASCII words that are no literals, references, lists and sums. It holds no double.
  pub parse_py-repr : (e : PyExpr) → writable e ≡ true → parse_py std (repr e) ≡ done e
  unfolding parse_py
  parse_py-repr e h =
      let read = sum-ReadsExpr std e (reads_sum e h) (enough (repr e)) [] refl refl (omega arith) in
      let text = append-nil (repr e) in rw (rw text at read) (unfold skip_ws in refl)
