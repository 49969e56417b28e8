-- ===== src/RuleExpr.antt =====
-- kernel/src/security.rs: the expressions that access rows hold, and their reader in RuleExpr/Parser.
pub mod Chars
pub mod Parser
pub mod Left
pub mod Fuel
pub mod Printer
pub mod Pieces
pub mod Atoms
pub mod Names
pub mod Reads
pub mod RoundTrip
pub mod Eval
use odoo_rust_orm.Prelude.{ℕ, Bool, true, false, ◌||◌, List, [], ◌∷◌, Bytes}
use odoo_rust_orm.Int.{ℤ}

-- `Vec<PyExpr>` is `Exprs`; a float is the bit pattern of its double.
mutual
  pub data PyExpr : Type 0 where
    str : Bytes → PyExpr
    int : ℤ → PyExpr
    float : ℕ → PyExpr
    bool : Bool → PyExpr
    none_value : PyExpr
    seq : Exprs → PyExpr
    name : List Bytes → PyExpr
    ref : Bytes → PyExpr
    add : PyExpr → PyExpr → PyExpr

  pub data Exprs : Type 0 where
    no_exprs : Exprs
    expr : PyExpr → Exprs → Exprs

unfoldable mutual
  pub reads_names : PyExpr → Bool
  reads_names (name _) = true
  reads_names (seq items) = any_reads_names items
  reads_names (add a b) = reads_names a || reads_names b
  reads_names _ = false

  pub any_reads_names : Exprs → Bool
  any_reads_names no_exprs = false
  any_reads_names (expr x xs) = reads_names x || any_reads_names xs

-- `Vec::push`
abbrev pub push : Exprs → PyExpr → Exprs
push no_exprs x = expr x no_exprs
push (expr y ys) x = expr y (push ys x)
