-- ===== src/Tests/Principals.antt =====
-- Runs of the reading of a model's rules as a whole, from the text of the access rows on.
use odoo_rust_orm.Prelude.{ℕ, ◌≡◌, refl, true, false, [], ◌∷◌, none, some, codes, bytes_eq}
use odoo_rust_orm.Int.{pos}
use odoo_rust_orm.Error.{ok}
use odoo_rust_orm.Json.{number, pos_int}
use odoo_rust_orm.Domain.Prefix.{term, both}
use odoo_rust_orm.Access.Notation.{spelled}
use odoo_rust_orm.Access.Rows.{
  UserCtx, Registry, rules_domain, rules_domain_inner, own_domain, gather, skipped, row_domain,
  push_domain, combined,
}
use odoo_rust_orm.Access.{or_domains, or_terms, normalize_domain, normalize_loop, expect}
use odoo_rust_orm.Assoc.{lookup}
use odoo_rust_orm.Reach.Meaning.{reached, leaf_on}
use odoo_rust_orm.Reach.{Reach, reach_domain}
use odoo_rust_orm.RuleExpr.{PyExpr, str, int, seq, no_exprs, expr, reads_names}
use odoo_rust_orm.RuleExpr.Chars.{
  skip_ws, take_word, take_number, parse_i64, digits_value, take_string,
}
use odoo_rust_orm.RuleExpr.Parser.{parse_expr, parse_py, numeral}
use odoo_rust_orm.Registry.Load.{Row, rule_of, read_row, row_reach, parsed_filter}
use odoo_rust_orm.ReadRules.{Lookups, row_value, row_reached, read_rules}
use odoo_rust_orm.ReadRules.Fixed.{rule_of-row_value}
use odoo_rust_orm.Tests.Rules.{ascii}
use odoo_rust_orm.Tests.Sources.{grants, from, anchor}

abbrev lookups : Lookups
lookups = record {
  xmlid = λ m n. ok (some (some 4));
  partners = λ uid. ok (some (some 20, some 21));
  anchors = λ model. ok (some ((codes "owner", anchor) ∷ []));
}

abbrev row : Row
row = record {
  model = codes "res.partner";
  group = 1;
  guard = false;
  members_only = false;
  domain = some (codes "[('a', '=', 1)]");
  reach = some (codes "own");
  anchor = none;
  exemptions = [];
}

abbrev user : ℕ → UserCtx
user uid = record {
  uid = uid;
  company_id = 1;
  company_ids = 1 ∷ [];
  access_partner = none;
  groups = 1 ∷ [];
  scopes = λ g. none;
}

-- ('a', '=', 1)
abbrev filter : PyExpr
filter = seq (
    expr (seq (expr (str (codes "a")) (expr (str (codes "=")) (expr (int (pos 1)) no_exprs))))
      no_exprs)

own : Reach
own = record { rung = codes "own"; anchor = none }

loads : ((rule_of ascii row).reach ≡ some own) × ((rule_of ascii row).parsed ≡ some (ok filter))
unfolding rule_of read_row row_reach parsed_filter own parse_py parse_expr skip_ws take_word
    take_string take_number parse_i64 digits_value numeral reads_names bytes_eq
loads = (refl, refl)

rule_of-row_value_example :
    row_value from grants lookups filter (user 7) ≡ row_value from grants lookups filter (user 8)
rule_of-row_value_example =
    rule_of-row_value ascii row own filter from grants lookups (user 7) (user 8) loads.0 loads.1

abbrev partners : Registry PyExpr Reach
partners = record {
  adds_guard = λ m. false;
  climbs = λ m. false;
  inherits_of = λ m. [];
  via_has_column = λ m f. none;
  rules = λ m. some (
      record {
        groups = 1 ∷ [];
        restrict = false;
        parsed = some (ok filter);
        reach = some own;
        exempt = [];
      }
      ∷ []);
  anchors = λ m. none;
}

-- The user's own records and the shared ones, of those that the filter admits.
bound :
    read_rules from grants lookups partners (user 7) (codes "res.partner")
    ≡ ok (
        some (
          spelled (
            both true
              (reached anchor (leaf_on (codes "user_id") (codes "in") (7 ∷ [])))
              (term (record { field = codes "a"; op = codes "="; value = number (pos_int 1) }))
            ∷ [])))
unfolding read_rules rules_domain rules_domain_inner own_domain gather skipped row_domain
    push_domain combined row_value row_reached reach_domain own bytes_eq lookup or_domains or_terms
    normalize_domain normalize_loop expect
bound = refl
