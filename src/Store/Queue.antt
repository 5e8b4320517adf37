-- ===== src/Store/Queue.antt =====
-- internal/store/queue.go: the queue's transactions. Each child holds some of them, and each child of
-- those a proof about them.
pub mod Enqueue
pub mod Claim
pub mod Release
pub mod Requeue
pub mod Settle
pub mod Refresh
