-- ===== src/Pool.antt =====
-- Package internal/pool: the session pool of the router's wallet.
pub mod Slot
pub mod Lease
pub mod Candidates
pub mod Transient
pub mod Attempts
pub mod Reconcile
pub mod Open
pub mod Failover
pub mod Acquire
pub mod Scan
