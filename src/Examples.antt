-- ===== src/Examples.antt =====
-- Concrete runs of the program's parts.
pub mod Clock
pub mod Store
pub mod Locking
pub mod Writers
pub mod Transactions
pub mod Voting
pub mod Cluster
pub mod Graph
pub mod Routing
pub mod Opening
pub mod Placement
pub mod Syncing
pub mod Sessions
