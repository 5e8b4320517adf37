-- ===== src/Store.antt =====
-- internal/store: the run queue and the reservation ledger in Firestore. A collection is a function
-- from document ids, and a transaction reads and writes one state.
pub mod Keys
pub mod Row
pub mod Ledger
pub mod Db
pub mod Queue
pub mod Accounting
pub mod Decisions
pub mod Sweep
pub mod Retry
pub mod Trace
pub mod Effects
pub mod Notices
pub mod Inbox
pub mod Holds
