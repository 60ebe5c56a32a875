-- ===== src/Examples/Late.antt =====
-- A worker answers WaitUntil after its process execution was stopped; and pages that are merged.
use xdb.Prelude.{
  ℕ, arith, List, [], ◌∷◌, none, some, ok, ◌≡◌, refl, codes, nat_key, string_key, pair_key,
  string_discrete, pair_discrete, ℕ_discrete,
}
use xdb.Prelude.Maps.{get}
use xdb.DataModels.Enums.{StateExecutionStatus}
use xdb.DataModels.LocalQueues.{any_of_completion}
use xdb.DataModels.Infos.{CommandRequest, after, empty_command_request, new_command_results}
use xdb.Database.Rows.{Db, empty_db, AsyncStateExecutionRow, StateKey}
use xdb.Database.Tx.{Env}
use xdb.Process.WaitUntil.{
  ProcessWaitUntilExecutionRequest, ProcessWaitUntilExecutionResponse, update_wait_until_execution,
}
use xdb.Process.WaitUntil.Waiting.{timers_from, update_wait_until_execution-timers}
use xdb.Engine.ImmediateTaskPages.{ImmediateTaskPage, merge_immediate_task_pages}
use xdb.Engine.ImmediateTaskPages.Coverage.{
  is_covered, merge_immediate_task_pages-is_covered, IsApart, merge_immediate_task_pages-IsApart,
}

-- The state execution was aborted, which raised its version to 2.
abbrev aborted_state : AsyncStateExecutionRow
aborted_state = record {
  version = 2;
  status = StateExecutionStatus.aborted;
  wait_until_commands = empty_command_request;
  wait_until_command_results = new_command_results;
  last_failure = none;
  input = record { encoding = []; contents = [] };
  info = record {
    namespace = codes "n";
    process_id = codes "p";
    process_type = codes "t";
    worker_url = codes "u";
    state_config = none;
    recover_from_state_execution_id = none;
    recover_from_api = none;
    app_database_config = none;
  };
}

abbrev key : StateKey
key = (5, (codes "a", 1))

abbrev stopped_db : Db
stopped_db = record empty_db { states = (key, aborted_state) ∷ [] }

abbrev env : Env
env = record { committed = stopped_db; now = 200; app_answer = λ _ _. none }

abbrev one_timer : CommandRequest
one_timer = record {
  waiting_type = any_of_completion;
  timer_commands = after 10 ∷ [];
  local_queue_commands = [];
}

abbrev late_request : ProcessWaitUntilExecutionRequest
late_request = record {
  key = key;
  previous_version = 1;
  command_request = one_timer;
  publish = [];
  task_shard_id = 0;
  task_sequence = 1;
}

late_wait_example :
    (resp : ProcessWaitUntilExecutionResponse) × (db' : Db) × (update_wait_until_execution
        late_request env stopped_db
      ≡ ok (resp, db'))
    × (get db'.states key
        ≡ some (record aborted_state {
          version = 3;
          status = StateExecutionStatus.wait_until_waiting;
          wait_until_commands = one_timer;
        }))
    × (db'.timer_tasks ≡ timers_from late_request 200 1 0 (after 10 ∷ []))
    × (resp.fire_timestamps ≡ 210 ∷ [])
unfolding get string_discrete pair_discrete ℕ_discrete
late_wait_example =
    update_wait_until_execution-timers late_request env stopped_db aborted_state refl refl

abbrev page : ℕ → ℕ → ImmediateTaskPage
page from to = record { min_task_sequence = from; max_task_sequence = to; pending_count = 0 }

abbrev pages : List ImmediateTaskPage
pages = page 1 2 ∷ page 7 8 ∷ page 3 4 ∷ []

merged_pages : merge_immediate_task_pages pages ≡ page 1 4 ∷ page 7 8 ∷ []
unfolding merge_immediate_task_pages
merged_pages = refl

covered_example : is_covered 3 (merge_immediate_task_pages pages) ≡ is_covered 3 pages
covered_example =
    merge_immediate_task_pages-is_covered 3 pages (omega arith, (omega arith, (omega arith, tt)))

merged_example : IsApart (merge_immediate_task_pages pages)
merged_example = merge_immediate_task_pages-IsApart pages
