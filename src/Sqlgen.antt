-- ===== src/Sqlgen.antt =====
-- kernel/src/sqlgen.rs: the compilation of domains into SQL.
pub mod Paths
pub mod Comparands
pub mod Days
pub mod Class
pub mod Patterns
pub mod Members
pub mod Orders
pub mod Leaves
pub mod Negation
