-- ===== src/RuleExpr/Printer.antt =====
-- Access row expressions in Python's syntax, against which the reader of kernel/src/security.rs is
-- checked. A text stands in single quotes, where a backslash, a quote, a newline, a tab and a carriage
-- return are escaped as Python's `repr` does, and all other characters stand as they are. The right
-- side of a sum stands in parentheses, and each item of a list before a comma.
use odoo_rust_orm.Prelude.{
  ℕ, suc, Bool, true, false, not, ◌&&◌, ◌||◌, List, [], ◌∷◌, ◌++◌, Bytes, codes, bytes_eq, all,
  flat_map, ◌==◌, if◌then◌else◌,
}
use odoo_rust_orm.Sqllex.{is_digit, is_alpha}
use odoo_rust_orm.Decimal.{decimal}
use odoo_rust_orm.Int.{ℤ, pos, negsuc, is_i64}
use odoo_rust_orm.RuleExpr.{
  PyExpr, Exprs, str, int, float, bool, none_value, seq, name, ref, add, no_exprs, expr,
}

abbrev pub escape : ℕ → Bytes
escape c =
    if c == b'\\' || c == b'\''
    then b'\\' ∷ c ∷ []
    else if c == b'\n'
    then b'\\' ∷ b'n' ∷ []
    else if c == b'\t'
    then b'\\' ∷ b't' ∷ []
    else if c == b'\r'
    then b'\\' ∷ b'r' ∷ []
    else c ∷ []

abbrev pub quoted : Bytes → Bytes
quoted s = b'\'' ∷ (flat_map escape s ++ b'\'' ∷ [])

-- The parts of a name behind its first.
abbrev pub dotted : List Bytes → Bytes
dotted [] = []
dotted (n ∷ ns) = b'.' ∷ (n ++ dotted ns)

abbrev pub chain : List Bytes → Bytes
chain [] = []
chain (n ∷ ns) = n ++ dotted ns

abbrev pub signed : ℤ → Bytes
signed (pos n) = decimal n
signed (negsuc n) = b'-' ∷ decimal (suc n)

unfoldable mutual
  pub repr : PyExpr → Bytes
  repr (str s) = quoted s
  repr (int i) = signed i
  repr (float bits) = []
  repr (bool true) = codes "True"
  repr (bool false) = codes "False"
  repr none_value = codes "None"
  repr (seq items) = b'[' ∷ repr_items items
  repr (name names) = chain names
  repr (ref xmlid) = codes "ref(" ++ quoted xmlid ++ codes ")"
  repr (add a b) = repr a ++ b'+' ∷ b'(' ∷ (repr b ++ codes ")")

  pub repr_items : Exprs → Bytes
  repr_items no_exprs = codes "]"
  repr_items (expr x xs) = repr x ++ b',' ∷ repr_items xs

abbrev pub is_letter : ℕ → Bool
is_letter c = is_alpha c || c == b'_'

abbrev pub is_ident : Bytes → Bool
is_ident [] = false
is_ident (c ∷ cs) = is_letter c && all (λ x. is_letter x || is_digit x) cs

abbrev pub is_literal : Bytes → Bool
is_literal n = bytes_eq n (codes "True") || bytes_eq n (codes "False") || bytes_eq n (codes "None")

-- Names of ASCII words that are no literals, whole numbers of 64 bits, and no doubles.
unfoldable mutual
  pub writable : PyExpr → Bool
  writable (int i) = is_i64 i
  writable (float bits) = false
  writable (seq items) = all_writable items
  writable (name []) = false
  writable (name (n ∷ ns)) = is_ident n && not (is_literal n) && all is_ident ns
  writable (add a b) = writable a && writable b
  writable _ = true

  pub all_writable : Exprs → Bool
  all_writable no_exprs = true
  all_writable (expr x xs) = writable x && all_writable xs
