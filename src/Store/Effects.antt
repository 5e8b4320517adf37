-- ===== src/Store/Effects.antt =====
-- What one transaction, or two in a row, do to the runs and the ledger.
pub mod Claim
pub mod Cancel
pub mod Release
pub mod Settle
pub mod Spend
pub mod Wait
pub mod Sweep
pub mod Requeue
pub mod Fails
