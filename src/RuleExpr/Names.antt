-- ===== src/RuleExpr/Names.antt =====
-- The written names and references, which the reader of kernel/src/security.rs takes back.
use odoo_rust_orm.Prelude.{
  ℕ, zero, suc, ◌*◌, ◌≤◌, ◌<◌, ◌≡◌, refl, ap, ◌∙◌, Bool, true, false, ◌&&◌, List, [], ◌∷◌, ◌++◌,
  Bytes, codes, bytes_eq, length, length-append, all, append_assoc, ◌==◌, arith,
}
use odoo_rust_orm.Sqllex.{next_is}
use odoo_rust_orm.RuleExpr.{str, name, ref}
use odoo_rust_orm.RuleExpr.Chars.{Std, skip_ws}
use odoo_rust_orm.RuleExpr.Parser.{
  done, named, parse_expr, parse_sum, parse_atom, parse_name, after_name, argument, closed,
  is_empty,
}
use odoo_rust_orm.RuleExpr.Printer.{is_ident, is_literal, quoted, chain, dotted}
use odoo_rust_orm.RuleExpr.Pieces.{stops, breaks, take_word-breaks}
use odoo_rust_orm.RuleExpr.Atoms.{parse_atom-letter, parse_atom-quoted}

and_false : (a : Bool) → (a && false) ≡ false
and_false true = refl
and_false false = refl

and_false2 : (a b : Bool) → (a && b && false) ≡ false
and_false2 true b = and_false b
and_false2 false b = refl

breaks-stops : (rest : Bytes) → stops rest ≡ true → breaks rest ≡ true
breaks-stops [] h = refl
breaks-stops (c ∷ rest) h = ground arith

dotted-breaks :
    (ns : List Bytes) (rest : Bytes) → stops rest ≡ true → breaks (dotted ns ++ rest) ≡ true
dotted-breaks [] rest h = breaks-stops rest h
dotted-breaks (n ∷ ns) rest h = refl

dotted-next_is :
    (ns : List Bytes) (rest : Bytes) → stops rest ≡ true → next_is b'(' (dotted ns ++ rest) ≡ false
dotted-next_is [] [] h = refl
dotted-next_is [] (c ∷ rest) h = ground arith
dotted-next_is (n ∷ ns) rest h = refl

pub length-dotted-le : (ns : List Bytes) → length ns ≤ length (dotted ns)
length-dotted-le [] = omega arith
length-dotted-le (n ∷ ns) = omega (arith, length-dotted-le ns, length-append n (dotted ns))

pub named-not-literal :
    (n : Bytes) (ns : List Bytes) (rest : Bytes)
    → is_literal n ≡ false
    → named (n ∷ ns) rest ≡ done (name (n ∷ ns), rest)
unfolding named
named-not-literal n [] rest h =
    let a : bytes_eq n (codes "True") ≡ false = ground arith in
    let b : bytes_eq n (codes "False") ≡ false = ground arith in
    let c : bytes_eq n (codes "None") ≡ false = ground arith in rw (a, b, c)
named-not-literal n (m ∷ ns) rest h = rw h

module _ (std : Std) where
  after_name-stops :
      (f : ℕ) (names : List Bytes) (rest : Bytes)
      → stops rest ≡ true
      → after_name std (suc f) names rest ≡ named names rest
  unfolding parse_expr
  after_name-stops f names [] h = refl
  after_name-stops f names (c ∷ rest) h = let e : (c == b'.') ≡ false = ground arith in rw e

  after_name-dot :
      (f : ℕ) (names : List Bytes) (rest : Bytes)
      → after_name std (suc f) names (b'.' ∷ rest) ≡ parse_name std f names rest
  unfolding parse_expr
  after_name-dot f names rest = refl

  parse_name-plain :
      (f : ℕ) (names : List Bytes) (n rest : Bytes)
      → is_ident n ≡ true
      → breaks rest ≡ true
      → next_is b'(' rest ≡ false
      → parse_name std (suc f) names (n ++ rest) ≡ after_name std f (names ++ n ∷ []) rest
  unfolding parse_expr
  parse_name-plain f names [] rest h b p = cc
  parse_name-plain f names (c ∷ n) rest h b p =
      let word = take_word-breaks std (c ∷ n) rest (ground arith) b in
      let no_ref : (bytes_eq (c ∷ n) (codes "ref") && is_empty names && next_is b'(' rest) ≡ false =
        rw p (and_false2 (bytes_eq (c ∷ n) (codes "ref")) (is_empty names)) in
      let no_mapped : (bytes_eq (c ∷ n) (codes "mapped") && next_is b'(' rest) ≡ false =
        rw p (and_false (bytes_eq (c ∷ n) (codes "mapped"))) in
      rw (word, no_ref, no_mapped)

  -- A name, part by part.
  parse_name-chain :
      (ns : List Bytes) (f : ℕ) (names : List Bytes) (n rest : Bytes)
      → is_ident n ≡ true
      → all is_ident ns ≡ true
      → stops rest ≡ true
      → suc (2 * length ns) < f
      → parse_name std f names (n ++ (dotted ns ++ rest)) ≡ named (names ++ n ∷ ns) rest
  parse_name-chain ns zero names n rest h hs s lt = absurd (omega arith)
  parse_name-chain ns (suc zero) names n rest h hs s lt = absurd (omega arith)
  parse_name-chain [] (suc (suc f)) names n rest h hs s lt =
      parse_name-plain (suc f) names n rest h (breaks-stops rest s) (dotted-next_is [] rest s)
      ∙ after_name-stops f (names ++ n ∷ []) rest s
  parse_name-chain (m ∷ ns) (suc (suc f)) names n rest h hs s lt =
      parse_name-plain (suc f) names n (dotted (m ∷ ns) ++ rest) h refl refl
      ∙ after_name-dot f (names ++ n ∷ []) ((m ++ dotted ns) ++ rest)
      ∙ ap (parse_name std f (names ++ n ∷ [])) (append_assoc m (dotted ns) rest)
      ∙ parse_name-chain ns f (names ++ n ∷ []) m rest (ground arith) (ground arith) s (omega arith)
      ∙ ap (λ l. named l rest) (append_assoc names (n ∷ []) (m ∷ ns))

  pub parse_atom-chain :
      (f : ℕ) (n : Bytes) (ns : List Bytes) (rest : Bytes)
      → is_ident n ≡ true
      → all is_ident ns ≡ true
      → stops rest ≡ true
      → suc (2 * length ns) < f
      → parse_atom std (suc f) (chain (n ∷ ns) ++ rest) ≡ named (n ∷ ns) rest
  parse_atom-chain f [] ns rest h hs s lt = cc
  parse_atom-chain f (c ∷ n) ns rest h hs s lt =
      ap (λ t. parse_atom std (suc f) (c ∷ t)) (append_assoc n (dotted ns) rest)
      ∙ parse_atom-letter std f c (n ++ (dotted ns ++ rest)) (ground arith)
      ∙ parse_name-chain ns f [] (c ∷ n) rest h hs s lt

  parse_expr-quoted :
      (f : ℕ) (s rest : Bytes)
      → parse_expr std (suc (suc f)) (quoted s ++ b')' ∷ rest) ≡ done (str s, b')' ∷ rest)
  unfolding parse_expr
  parse_expr-quoted f s rest = rw (parse_atom-quoted std f s (b')' ∷ rest)) (ends f)
    where
      ends : (f : ℕ) → parse_sum std (suc f) (str s) (b')' ∷ rest) ≡ done (str s, b')' ∷ rest)
      ends f = unfold parse_expr skip_ws in refl

  argument-quoted :
      (f : ℕ) (s rest : Bytes)
      → argument std (suc (suc (suc f))) (b'(' ∷ (quoted s ++ b')' ∷ rest)) ≡ done (str s, rest)
  unfolding parse_expr
  argument-quoted f s rest = rw (parse_expr-quoted f s rest) (unfold closed skip_ws in refl)

  parse_name-ref :
      (f : ℕ) (s rest : Bytes)
      → parse_name std
          (suc (suc (suc (suc f))))
          []
          (codes "ref" ++ b'(' ∷ (quoted s ++ b')' ∷ rest))
        ≡ done (ref s, rest)
  unfolding parse_expr bytes_eq
  parse_name-ref f s rest =
      let inner = quoted s ++ b')' ∷ rest in
      rw (take_word-breaks std (codes "ref") (b'(' ∷ inner) refl refl, argument-quoted f s rest)

  pub parse_atom-ref :
      (f : ℕ) (s rest : Bytes)
      → parse_atom std
          (suc (suc (suc (suc (suc f)))))
          ((codes "ref(" ++ quoted s ++ codes ")") ++ rest)
        ≡ done (ref s, rest)
  parse_atom-ref f s rest =
      ap (λ t. parse_atom std (suc (suc (suc (suc (suc f))))) t)
        (append_assoc (codes "ref(" ++ quoted s) (codes ")") rest)
      ∙ parse_atom-letter std (suc (suc (suc (suc f)))) b'r'
          (codes "ef(" ++ (quoted s ++ b')' ∷ rest)) refl
      ∙ parse_name-ref f s rest
