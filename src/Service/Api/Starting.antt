-- ===== src/Service/Api/Starting.antt =====
-- service/api/service_impl.go over persistence/process: a process that is started is described, and
-- is not started again.
use xdb.Prelude.{
  ℕ, zero, suc, ◌+◌, true, false, List, [], ◌∷◌, some, GoString, Option, none, ok, ◌≡◌, ◌≢◌, refl,
  nat_key, string_key, pair_key, ap,
}
use xdb.DataModels.Infos.{Uuid}
use xdb.Database.Rows.{Db, ProcessExecutionRow}
use xdb.Database.Tx.{Env, run_tx, finish}
use xdb.Process.AppDatabase.{attempt, write_to_app_database, handle_initial_local_attributes_write}
use xdb.Process.Start.{
  ProcessExecutionStartRequest, key_of, app_config, attributes_of, policy_of, already, other_policy,
}
use xdb.Engine.Actions.{Notification, new_immediate_tasks, new_timer_tasks}
use xdb.Process.Policies.{start_written, do_start_process_tx, start_process}
use xdb.Process.Policies.Table.{may_start, HasLatest, status_of, apply_policy-refuses}
use xdb.Service.Api.{error_with_status, ApiEnv, store_request, start_answered, api_start_process}

-- A request that writes nothing to the tables of the application or to the attributes
abbrev pub WritesNothing : ProcessExecutionStartRequest → Type 0
WritesNothing r =
    (app_config r.process_start_config ≡ none) × (attributes_of r.process_start_config ≡ [])

abbrev env_at : ApiEnv → Db → Env
env_at env db = record { committed = db; now = env.now; app_answer = env.app_answer }

-- Who is notified of a start: the queue of immediate tasks, and that of timer tasks of the time of the
-- process timeout, if there is one.
abbrev pub start_notices : ℕ → GoString × GoString → Uuid → ℕ → ℕ → List Notification
start_notices shard partition id now zero = new_immediate_tasks shard (some partition) id ∷ []
start_notices shard partition id now (suc n) =
    new_immediate_tasks shard (some partition) id
    ∷ new_timer_tasks shard (some partition) id ((now + suc n) ∷ [])
    ∷ []

refuses_lem :
    (env : ApiEnv) (r : ProcessExecutionStartRequest) (db : Db)
    (latest : Option (Uuid × ProcessExecutionRow))
    → env.connection.begins ≡ true
    → WritesNothing r
    → policy_of r.process_start_config ≢ other_policy
    → HasLatest db (key_of r) latest
    → may_start (policy_of r.process_start_config) (status_of latest) ≡ false
    → start_process env.connection (store_request env r) (env.drawn 0) env.now env.app_answer db
      ≡ (ok already, db)
unfolding start_process run_tx finish do_start_process_tx start_written attempt
    write_to_app_database handle_initial_local_attributes_write
refuses_lem env r db latest begins (tables, attributes) known has may =
    let refused =
      apply_policy-refuses (env_at env db) db (store_request env r) (env.drawn 0)
        (policy_of r.process_start_config) latest known has may in
    rw (begins, tables, refused, attributes) refl

-- Where the database begins, the request writes nothing to the tables of the application or to the
-- attributes, its policy is a known one, and the table of the policies does not let it start after the
-- latest execution, StartProcess answers with a conflict, changes no table and notifies nobody.
pub api_start_process-conflict :
    (env : ApiEnv) (r : ProcessExecutionStartRequest) (db : Db)
    (latest : Option (Uuid × ProcessExecutionRow))
    → env.connection.begins ≡ true
    → WritesNothing r
    → policy_of r.process_start_config ≢ other_policy
    → HasLatest db (key_of r) latest
    → may_start (policy_of r.process_start_config) (status_of latest) ≡ false
    → api_start_process env r db ≡ (error_with_status 409, db, [])
unfolding api_start_process
api_start_process-conflict env r db latest begins nothing known has may =
    ap (λ o. start_answered (store_request env r) o.0 o.1)
      (refuses_lem env r db latest begins nothing known has may)
