-- ===== src/Lib.antt =====
-- Verification of odoo-rust-orm, the Rust engine that answers Odoo's ORM reads.
--
-- The program is a kernel crate (kernel/src), which compiles a search domain and the access rows of
-- a user into SQL and runs it on the caller's transaction; a Python extension (engine-py/src),
-- which owns the connection and speaks the cursor's dialect; and an HTTP server (server/src). What
-- is modelled is the pure code of the kernel and the extension: what is parsed, rewritten, cached
-- and decided before a statement is sent.
--
-- Which file models what, with the names of the code:
-- - Domain: kernel/src/domain.rs, the nodes, the prefix parser `parse` with its nesting limit, and
--   its helpers. Domain.Constants has `fold_constants`, `is_false` and `referenced_fields`,
--   Domain.Nested `parse_nested`, Domain.Internal `reject_internal_operators`. Domain.Meaning gives
--   nodes their three truth values, Domain.Junctions any reading with associative connectives;
--   Domain.Prefix has expressions and their terms, and Domain.Prefix.Notation which lists of terms
--   spell them, which the parser is held against.
-- - Access: kernel/src/security.rs, `or_leaves`, `or_domains`, `normalize_domain` and `scoped`.
--   Access.Rows has `held_scope`, the loop and the recursion of `rules_domain_inner`; Access.Grants
--   has `check_read_access`. Their domains are token lists, which the parser of Domain reads.
-- - RuleExpr: kernel/src/security.rs, the expressions of access rows and `reads_names`.
--   RuleExpr.Chars and RuleExpr.Parser have `parse_py` and the functions it calls, RuleExpr.Fuel
--   its end; RuleExpr.Printer writes expressions in Python's syntax, for the reader to take back.
--   RuleExpr.Eval has `eval_py` and `add_values`.
-- - Reach and Resolve: kernel/src/security.rs, what the reach of an access row admits, and
--   `resolve_name` with its walk over relations. ReadRules puts the evaluation of expressions and
--   of reaches in place of the parameters of Access.Rows.
-- - RuleSet: kernel/src/security.rs, the rules that a request has compiled.
-- - Registry: kernel/src/registry.rs. Registry.Groups has `groups_of`, Registry.Signals what a
--   change of the signals asks for, Registry.Fields the types and the storage of fields and
--   `field_readable`, Registry.Normalize `normalize_model`, Registry.Topology `AccessTopology::of`,
--   Registry.Load what `load_security` makes of the access rows that it has read.
-- - Sqlgen: kernel/src/sqlgen.rs. Sqlgen.Paths has `normalize_path`, which puts a related field's
--   path in its place, and `path_target`; Sqlgen.Leaves has `optimize_leaf`, by the class of the
--   leaf's operator: Sqlgen.Patterns the patterns with `negates_by_operator`, Sqlgen.Members `in` and
--   `not in`, Sqlgen.Orders the operators of order. Sqlgen.Comparands has the conversions of values
--   and Sqlgen.Days `datetime_day_comparand`. Sqlgen.Leaves.Rank counts the rewritings that a leaf
--   can have before it, and Sqlgen.Leaves.Settled says what is known of a leaf without any.
--   Sqlgen.Negation has `negate` and `negate_leaf` with `searches_one_value`; Sqlgen.Negation.Rows
--   says apart from the code which records a leaf is meant to select, where a field may have several
--   values, Sqlgen.Negation.Hops and Sqlgen.Negation.Fits when it has one.
-- - Sqllex: kernel/src/sqllex.rs, the opaque regions of SQL text (`opaque`), which every scanner of
--   SQL below jumps over. Sqllex.Quoting has `ident` of kernel/src/db.rs.
-- - Scan: the loop over a text that Fragment and Write.Dialect share.
-- - Fragment: kernel/src/fragment.rs, the SQL comparands that Python resolved.
-- - Write: kernel/src/write.rs, the row statements; Write.Dialect has `to_odoo_dialect`, which puts
--   the port's placeholders for the compiler's.
-- - Cursor: engine-py/src/cursor.rs, `translate_placeholders`, which reads that dialect;
--   Cursor.Statements and Cursor.Heads have the tests on a statement's text and `track_abort`,
--   Cursor.Copy the escapes of COPY, Cursor.Numeric `numeric_binary_to_text`.
-- - Config: kernel/src/config.rs, the quoting of connection strings.
-- - StmtCache: kernel/src/db.rs, the cache of prepared statements, against a queue in order of use.
-- - Trigram: kernel/src/trigram.rs, the `LIKE` prefilters.
-- - Int: the arithmetic of `i64`; Assoc: the maps and sets that the code changes or walks.
-- - Error: kernel/src/error.rs; Json: the serde_json values that the code reads; Decimal: how an
--   unsigned integer is printed.
-- - Tests: the theorems at concrete inputs, and runs of the code on the inputs of its own tests.
--
-- Texts are lists of bytes (Prelude.Lists), in Trigram, RuleExpr and Sqlgen lists of characters; the
-- scanners of SQL read byte by byte where the code reads a character, which is the same since they
-- ask for ASCII only. Numbers are the native naturals. The clock of the statement cache is a 64-bit
-- integer with its overflow, and so are the parsed index of a placeholder and `wrapping_sub`. An
-- `anyhow` error is the list of its causes (Error), its message left out; tracing calls are left
-- out everywhere. Maps are association lists where the code changes or walks them, and lookup
-- functions where it only reads them. A double is its bit pattern.
--
-- Fuel: `check_read_access` and `rules_domain` recurse on 17 levels, which is the code's own
-- limit of 16 on the depth of `_inherits`, counted from the first model; running out is the
-- code's refusal. `resolve_name` and `normalize_path` have the code's own limits of rounds, and
-- refuse past them. `parse_py` spends a unit on each call and on each round of a loop, and is
-- given 5 times the text's length and 6 more, which is enough on every text (RuleExpr.Fuel).
-- `groups_of` is given a round for each group of its start and for each entry of the
-- implications, which is enough (Registry.Groups.Closure). `numeric_binary_to_text` has a round
-- for each digit behind the point, which is enough (Cursor.Numeric.Written).
-- `reject_internal_operators` has a unit for each level at which the leaves' values nest, which
-- is enough (Domain.Internal.Reached). `negate` has a unit for each rewriting of a leaf and one
-- more, which is enough (Sqlgen.Negation.Ended), and `searches_one_value` one for each level of
-- related fields, which the source does not bound. All other loops are structural, those over a
-- text by a count of the bytes that are still to be passed over.
--
-- Parameters: the registry's lookups where only Access.Rows is concerned, what the database answers
-- to the queries of `resolve_name`, the characters beyond ASCII that the standard library counts as
-- letters or white space, the reading of a double from text and the arithmetic on doubles,
-- serde_json's text of a string, the sea_query crate's `array_type`, the text of dates, the
-- widening of a single-precision float, the text of a double that has no fraction, and the calendar
-- and the time zones of the chrono crates (Sqlgen.Days), of which the one hypothesis is that the text
-- of a date has no blank.
--
-- Not modelled: the rest of the SQL generator (kernel/src/sqlgen.rs), the requests
-- (kernel/src/orm.rs, kernel/src/scan.rs), the queries of the registry and the merging of an
-- exported one (kernel/src/registry.rs), what is read from the environment (kernel/src/config.rs),
-- connections (kernel/src/connect.rs, kernel/src/freshness.rs) and the server (server/src).
-- Connections, the transfer of COPY and the conversion of Python objects in engine-py/src go
-- through the network or the interpreter.
mod Prelude
pub mod Error
pub mod Json
pub mod Domain
pub mod Sqllex
pub mod StmtCache
pub mod Scan
pub mod Decimal
pub mod Fragment
pub mod Cursor
pub mod Write
pub mod Trigram
pub mod Config
pub mod RuleExpr
pub mod Int
pub mod Assoc
pub mod Registry
pub mod RuleSet
pub mod Reach
pub mod Resolve
pub mod ReadRules
pub mod Sqlgen
pub mod Access
mod Tests
