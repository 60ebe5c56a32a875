-- ===== src/Engine.antt =====
-- engine: what happens to the tasks once they are read.
pub mod Backoff
pub mod ImmediateTaskPages
pub mod TimerGate
pub mod TimerHeap
pub mod TimerNotifications
pub mod TimerTaskQueue
pub mod ImmediateTaskQueue
pub mod Actions
pub mod WorkerCalls
pub mod ImmediateTasks
pub mod WaitUntilTasks
pub mod ExecuteTasks
pub mod TaskLoop
pub mod TimerTasks
pub mod CompletionChannels
