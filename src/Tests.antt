-- ===== src/Tests.antt =====
-- The theorems at concrete inputs, and runs of the code.
mod Domains
mod Reads
mod Fragments
mod Writes
mod Cursors
mod Texts
mod Statements
mod Rules
mod Sources
mod Principals
mod Nested
mod Paths
mod Models
mod Numerics
mod Rewrites
mod Bills
mod Negations
