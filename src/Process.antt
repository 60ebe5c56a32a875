-- ===== src/Process.antt =====
-- persistence/process: the process store. Each operation is a transaction.
pub mod Common
pub mod Publish
pub mod Decision
pub mod AppDatabase
pub mod Start
pub mod Policies
pub mod Stop
pub mod Timers
pub mod WaitUntil
pub mod LocalQueue
pub mod Execute
pub mod Rpc
pub mod Retries
pub mod Pages
pub mod Reads
