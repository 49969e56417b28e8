-- ===== src/Tests/Cursors.antt =====
-- Runs of the statement tests of engine-py/src/cursor.rs, and their theorems at concrete texts.
use odoo_rust_orm.Prelude.{true, false, not, ◌&&◌, [], ◌∷◌, ◌≡◌, refl, codes, bytes_eq, any}
use odoo_rust_orm.Sqllex.{opaque, is_ident_byte, is_after_ident, is_prefix}
use odoo_rust_orm.Cursor.Statements.{
  is_space, uppercase, ident_run, blank, skip_blank, leading_keyword, level_round, level_words,
  statement_level_keywords, is_modifying, is_primary, primary, words_return_rows,
  with_statement_returns_rows, starts_ignore_case, keyword_at, keyword_from, has_bare_keyword,
  returns_rows, more_from, has_multiple_statements,
}
use odoo_rust_orm.Cursor.Heads.{
  done, failed, trim_start, trim_open, head_of, statement_is_ddl, statement_drops,
  statement_rolls_back,
}
use odoo_rust_orm.Cursor.Heads.Aborts.{undoes, track_all, track_all-failed}

returning :
    (returns_rows (codes "/* c */ (select 1)") ≡ true)
    × (returns_rows (codes "UPDATE t SET a='RETURNING'") ≡ false)
    × (returns_rows (codes "UPDATE t SET a=1 returning id") ≡ true)
    × (returns_rows (codes "WITH x AS (SELECT 1) UPDATE t SET a=1") ≡ false)
    × (returns_rows (codes "WITH x AS (DELETE FROM t RETURNING id) SELECT 1") ≡ true)
    × (has_multiple_statements (codes "SELECT ';'; -- x") ≡ false)
    × (has_multiple_statements (codes "SELECT 1; SELECT 2") ≡ true)
unfolding opaque is_ident_byte is_after_ident bytes_eq is_space uppercase ident_run blank skip_blank
    leading_keyword level_round level_words statement_level_keywords is_modifying is_primary primary
    words_return_rows with_statement_returns_rows starts_ignore_case keyword_at keyword_from
    has_bare_keyword returns_rows more_from has_multiple_statements
returning = (refl, refl, refl, refl, refl, refl, refl)

heads :
    (statement_is_ddl (codes " ( CREATE TABLE t") ≡ true)
    × (statement_is_ddl (codes "DOES") ≡ false)
    × (statement_drops (codes "drop table t") ≡ true)
    × (statement_rolls_back (codes " Rollback to savepoint s") ≡ true)
unfolding trim_start trim_open head_of starts_ignore_case statement_is_ddl statement_drops
    statement_rolls_back
heads = (refl, refl, refl, refl)

bare : has_bare_keyword (codes "UPDATE t SET a=1 returning id") (codes "RETURNING") ≡ true
unfolding opaque is_ident_byte is_after_ident starts_ignore_case keyword_at keyword_from
    has_bare_keyword
bare = refl

two_statements : has_multiple_statements (codes "SELECT 1; SELECT 2") ≡ true
unfolding opaque is_ident_byte is_after_ident is_space more_from has_multiple_statements
two_statements = refl

no_primary : any (λ w. is_primary w) (codes "X" ∷ codes "AS" ∷ []) ≡ false
unfolding is_primary is_modifying bytes_eq
no_primary = refl

update-is_primary : is_primary (codes "UPDATE") ≡ true
unfolding is_primary is_modifying bytes_eq
update-is_primary = refl

kept_on : statement_rolls_back (codes "SELECT 1") ≡ false
unfolding trim_start starts_ignore_case statement_rolls_back
kept_on = refl

server_error :
    (is_prefix (codes "SQLSTATE:") (codes "SQLSTATE:23505|x")
      && not (is_prefix (codes "SQLSTATE:|") (codes "SQLSTATE:23505|x")))
    ≡ true
unfolding is_prefix
server_error = refl

none_undone : any (λ s. undoes s) ((codes "SELECT 1", done) ∷ []) ≡ false
none_undone = rw kept_on

track_all-failed_example :
    track_all
      (record { in_tx = true; aborted = false })
      ((codes "ROLLBACK", done)
        ∷ (codes "INSERT", failed (codes "SQLSTATE:23505|x"))
        ∷ (codes "SELECT 1", done)
        ∷ [])
    ≡ record { in_tx = true; aborted = true }
track_all-failed_example =
    track_all-failed (record { in_tx = true; aborted = false }) ((codes "ROLLBACK", done) ∷ [])
      ((codes "SELECT 1", done) ∷ []) (codes "INSERT") (codes "SQLSTATE:23505|x") refl server_error
      none_undone
