-- ===== src/Examples.antt =====
-- The theorems at concrete inputs.
pub mod Queues
pub mod Processes
pub mod Late
pub mod Pending
pub mod Backoff
pub mod SortedHeap
pub mod Timers
pub mod Tasks
pub mod Shards
pub mod Waiting
pub mod Clients
pub mod Cluster
