-- ===== src/Mulberry.antt =====
-- internal/mulberry: the router, in front of the shards.
pub mod Network
pub mod Connections
pub mod State
pub mod Router
pub mod TwoPhase
pub mod Server
pub mod Cluster
pub mod Journal
pub mod Kept
pub mod Counting
pub mod Unanimous
pub mod Decision
pub mod Outcome
pub mod Agreement
pub mod Fresh
pub mod Direct
pub mod Asking
pub mod Applying
pub mod Atomic
pub mod Sync
