-- ===== src/DataModels/Enums.antt =====
-- persistence/data_models/data_models_enums.go: the statuses and task types, with the numbers
-- that the database holds for them.
use xdb.Prelude.{ℕ, Bool, true, false}

pub data ProcessExecutionStatus : Type 0 where
  undefined running completed failed timeout terminated : ProcessExecutionStatus

pub ProcessExecutionStatus-discrete : Discrete ProcessExecutionStatus
ProcessExecutionStatus-discrete = hlevel

-- The comparison with ProcessExecutionStatusRunning.
abbrev pub is_running : ProcessExecutionStatus → Bool
is_running running = true
is_running _ = false

pub data StateExecutionStatus : Type 0 where
  wait_until_running wait_until_waiting execute_running : StateExecutionStatus
  completed failed timeout aborted : StateExecutionStatus

abbrev pub state_status_code : StateExecutionStatus → ℕ
state_status_code wait_until_running = 1
state_status_code wait_until_waiting = 2
state_status_code execute_running = 3
state_status_code completed = 4
state_status_code failed = 5
state_status_code timeout = 6
state_status_code aborted = 7

pub data ImmediateTaskType : Type 0 where
  wait_until execute new_local_queue_messages visibility : ImmediateTaskType

pub data TimerTaskType : Type 0 where
  process_timeout timer_command worker_task_backoff : TimerTaskType
