-- ===== src/Tests/Rules.antt =====
-- Runs of the reader of kernel/src/security.rs on expressions of access rows, and the theorems on
-- expressions and rule sets at concrete inputs.
use odoo_rust_orm.Prelude.{
  ◌≡◌, refl, ◌≢◌, true, false, List, [], ◌∷◌, none, some, Bytes, codes, bytes_eq, ◌==◌,
}
use odoo_rust_orm.Int.{pos, negsuc, ◌+ℤ◌, checked_add}
use odoo_rust_orm.Error.{ok, refuse, refusal, err, other}
use odoo_rust_orm.Assoc.{member, name_key, has, remove, insert, add_member}
use odoo_rust_orm.RuleExpr.{PyExpr, str, int, bool, none_value, seq, name, ref, add, no_exprs, expr}
use odoo_rust_orm.RuleExpr.Chars.{
  Std, skip_ws, take_word, take_number, parse_i64, digits_value, take_string,
}
use odoo_rust_orm.RuleExpr.Parser.{
  done, failed, out_of_fuel, parse_expr, parse_py, named, numeral, closed, split,
}
use odoo_rust_orm.RuleExpr.Fuel.{parse_py-ne-out_of_fuel}
use odoo_rust_orm.RuleExpr.Printer.{repr, writable}
use odoo_rust_orm.RuleExpr.RoundTrip.{parse_py-repr}
use odoo_rust_orm.RuleExpr.Eval.{Doubles}
use odoo_rust_orm.RuleSet.{with_ruled, ensure_evaluated, insert_domain, mark_unevaluated, resolve}
use odoo_rust_orm.RuleSet.History.{
  Change, inserted, resolved, unevaluated, run, history, verdict, untouched,
  ensure_evaluated-history,
}
use odoo_rust_orm.Domain.{true_node}

-- Nothing beyond ASCII is a letter, and no text is a double.
abbrev pub ascii : Std
ascii = record {
  whitespace = λ c. c == 0xA0;
  alphabetic = λ c. false;
  alphanumeric = λ c. false;
  parse_f64 = λ s. err (other ∷ []);
}

-- [('company_id', 'in', [False, *company_ids])], with a comment behind it
abbrev company_row : Bytes
company_row = codes "[('company_id', 'in', [False] + user.company_ids.ids)] # rows"

abbrev company_expr : PyExpr
company_expr = seq (
    expr
      (seq (
        expr (str (codes "company_id")) (
          expr (str (codes "in")) (
            expr
              (add (seq (expr (bool false) no_exprs))
                (name (codes "user" ∷ codes "company_ids" ∷ codes "ids" ∷ [])))
              no_exprs))))
      no_exprs)

reads_row : parse_py ascii company_row ≡ done company_expr
unfolding parse_py parse_expr skip_ws take_word take_string named bytes_eq
reads_row = refl

parses :
    (parse_py ascii (codes "(1)") ≡ done (int (pos 1)))
    × (parse_py ascii (codes "(1,)") ≡ done (seq (expr (int (pos 1)) no_exprs)))
    × (parse_py ascii (codes "-12 + 5") ≡ done (add (int (negsuc 11)) (int (pos 5))))
    × (parse_py ascii (codes "ref('base.main')") ≡ done (ref (codes "base.main")))
    × (parse_py ascii (codes "user.mapped('a.b')")
        ≡ done (name (codes "user" ∷ codes "*a" ∷ codes "*b" ∷ [])))
    × (parse_py ascii (codes "True.x") ≡ failed (refusal ∷ []))
    × (parse_py ascii (codes "[1 2]") ≡ failed (refusal ∷ []))
    × (parse_py ascii (codes "'a") ≡ failed (refusal ∷ []))
    × (parse_py ascii (codes "9223372036854775808") ≡ failed (other ∷ []))
unfolding parse_py parse_expr skip_ws take_word take_string take_number parse_i64 digits_value
    numeral named closed split bytes_eq
parses = (refl, refl, refl, refl, refl, refl, refl, refl, refl)

parse_py-ne-out_of_fuel_example : parse_py ascii (codes "((((((1") ≢ out_of_fuel
parse_py-ne-out_of_fuel_example = parse_py-ne-out_of_fuel ascii (codes "((((((1")

-- [-7, 'it\'s\ta\n\rname\\', a.b, ref('m.x')] + (1 + None)
abbrev written : PyExpr
written =
    add
      (seq (
        expr (int (negsuc 6)) (
          expr (str (codes "it's\ta\n\rname\\"))
            (expr (name (codes "a" ∷ codes "b" ∷ [])) (expr (ref (codes "m.x")) no_exprs)))))
      (add (int (pos 1)) none_value)

parse_py-repr_example : parse_py ascii (repr written) ≡ done written
parse_py-repr_example = parse_py-repr ascii written (unfold writable bytes_eq in refl)

abbrev pub doubles : Doubles
doubles = record { is_finite = λ b. true; as_f64 = λ n. some 0; plus = λ a b. 0 }

sums :
    (checked_add (pos 0x7FFFFFFFFFFFFFFF) (pos 1) ≡ none)
    × (checked_add (pos 0x7FFFFFFFFFFFFFFF) (negsuc 0) ≡ some (pos 0x7FFFFFFFFFFFFFFE))
    × (checked_add (negsuc 0x7FFFFFFFFFFFFFFF) (negsuc 0) ≡ none)
unfolding checked_add ◌+ℤ◌
sums = (refl, refl, refl)

abbrev partner_model : Bytes
partner_model = codes "res.partner"

abbrev changes : List (Bytes × Change)
changes =
    (partner_model, unevaluated (codes "no context"))
    ∷ (codes "res.users", inserted true_node)
    ∷ (partner_model, inserted true_node)
    ∷ []

ensure_evaluated-history_example :
    ensure_evaluated partner_model (run changes (with_ruled (partner_model ∷ [])))
    ≡ verdict (member partner_model (partner_model ∷ [])) (history partner_model changes untouched)
ensure_evaluated-history_example =
    ensure_evaluated-history (partner_model ∷ []) changes partner_model

waits :
    (ensure_evaluated partner_model (run changes (with_ruled (partner_model ∷ []))) ≡ refuse)
    × (ensure_evaluated (codes "res.users") (run changes (with_ruled (codes "res.users" ∷ [])))
        ≡ ok tt)
    × (ensure_evaluated partner_model (with_ruled (partner_model ∷ [])) ≡ refuse)
    × (ensure_evaluated partner_model
          (run ((partner_model, resolved true_node) ∷ []) (with_ruled (partner_model ∷ [])))
        ≡ ok tt)
unfolding ensure_evaluated with_ruled has insert_domain mark_unevaluated insert bytes_eq remove
    member add_member resolve
waits = (refl, refl, refl, refl)
