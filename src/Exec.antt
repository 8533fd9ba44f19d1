-- ===== src/Exec.antt =====
-- src/exec: the execution process, from the order table and the account up to the strategy's calls.
pub mod Orders
pub mod Account
pub mod Doubles
pub mod Samples
mod Tests
pub mod Rate
pub mod Router
pub mod Risk
pub mod View
pub mod Context
pub mod Strategy
pub mod Runner
