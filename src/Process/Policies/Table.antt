-- ===== src/Process/Policies/Table.antt =====
-- persistence/process/start_process.go: which policy starts a new process execution, given the
-- status of the latest one.
use xdb.Prelude.{
  arith, Bool, true, false, not, Option, none, some, ok, if◌then◌else◌, ◌≡◌, ◌≢◌, refl, ap, ◌∙◌,
  GoString, nat_key, string_key, pair_key, Bool-cases, inl, inr,
}
use xdb.Prelude.Maps.{get, get-set_self, get-set_ne}
use xdb.DataModels.Enums.{ProcessExecutionStatus, is_running}
use xdb.DataModels.Infos.{Uuid}
use xdb.Database.Rows.{Db, ProcessExecutionRow}
use xdb.Database.Tx.{◌>>◌, ◌>>=◌, Env, Tx, pure}
use xdb.Database.Statements.{
  select_latest_process_execution_for_update, for_update, abort_rows, update_process_execution,
  batch_update_async_state_executions_to_abort_running,
}
use xdb.Database.Statements.Answers.{
  select_process_execution-found, select_process_execution_for_update-found,
}
use xdb.Database.Tasks.{insert_immediate_task_row}
use xdb.Process.Common.{add_visibility_task_record_process_execution_status}
use xdb.Process.Start.{
  ProcessIdReusePolicy, disallow_reuse, allow_if_no_running, allow_if_previous_exit_abnormally,
  terminate_if_running, other_policy, StartProcessRequest, started, already, key_of,
  start_after_previous, start_brand_new, StartProcessResponse,
}
use xdb.Process.Start.Inserted.{
  IsFresh, HasRow-OnlyTimed, update_latest_and_insert_new_process_execution_lem,
  insert_timeout_timer_lem, start_brand_new_lem, start_after_previous_lem,
}
use xdb.Process.Policies.Started.{IsClosed, HasStarted, HasRow-HasStarted, HasRow-abort_rows}
use xdb.Process.Policies.{
  apply_policy, apply_disallow_reuse_policy, apply_allow_if_no_running_policy,
  apply_allow_if_previous_exit_abnormally_policy, apply_terminate_if_running_policy, is_completed,
  allow_unless_running, allow_if_abnormal, disallow_if_found, terminate_if_found,
  terminate_previous,
}

-- The table of the policies: does a process whose latest execution has this status start anew?
abbrev pub may_start : ProcessIdReusePolicy → Option ProcessExecutionStatus → Bool
may_start other_policy _ = false
may_start _ none = true
may_start disallow_reuse (some _) = false
may_start terminate_if_running (some _) = true
may_start allow_if_no_running (some s) = not (is_running s)
may_start allow_if_previous_exit_abnormally (some ProcessExecutionStatus.running) = false
may_start allow_if_previous_exit_abnormally (some ProcessExecutionStatus.completed) = false
may_start allow_if_previous_exit_abnormally (some _) = true

-- The latest process execution of the key and its row, or that there is none.
abbrev pub HasLatest : Db → GoString × GoString → Option (Uuid × ProcessExecutionRow) → Type 0
HasLatest db key none = get db.latest key ≡ none
HasLatest db key (some (id, p)) = (get db.latest key ≡ some id) × (get db.processes id ≡ some p)

abbrev pub status_of : Option (Uuid × ProcessExecutionRow) → Option ProcessExecutionStatus
status_of none = none
status_of (some (_, p)) = some p.status

-- The two tests of the code are the table's.
refuse_abnormal {ℓ} :
    {A : Type ℓ} (x y : A) (s : ProcessExecutionStatus)
    → may_start allow_if_previous_exit_abnormally (some s) ≡ false
    → (if is_running s then x else if is_completed s then x else y) ≡ x
refuse_abnormal x y ProcessExecutionStatus.undefined h = absurd (cc h)
refuse_abnormal x y ProcessExecutionStatus.running h = refl
refuse_abnormal x y ProcessExecutionStatus.completed h = refl
refuse_abnormal x y ProcessExecutionStatus.failed h = absurd (cc h)
refuse_abnormal x y ProcessExecutionStatus.timeout h = absurd (cc h)
refuse_abnormal x y ProcessExecutionStatus.terminated h = absurd (cc h)

start_abnormal {ℓ} :
    {A : Type ℓ} (x y : A) (s : ProcessExecutionStatus)
    → may_start allow_if_previous_exit_abnormally (some s) ≡ true
    → ((if is_running s then x else if is_completed s then x else y) ≡ y) × (is_running s ≡ false)
start_abnormal x y ProcessExecutionStatus.undefined h = (refl, refl)
start_abnormal x y ProcessExecutionStatus.running h = absurd (cc h)
start_abnormal x y ProcessExecutionStatus.completed h = absurd (cc h)
start_abnormal x y ProcessExecutionStatus.failed h = (refl, refl)
start_abnormal x y ProcessExecutionStatus.timeout h = (refl, refl)
start_abnormal x y ProcessExecutionStatus.terminated h = (refl, refl)

module _ (e : Env) (db : Db) (r : StartProcessRequest) (id : Uuid) where
  -- Where the table says no, the answer is that the process was started already, and the tables
  -- are as they were.
  pub apply_policy-refuses :
      (policy : ProcessIdReusePolicy) (latest : Option (Uuid × ProcessExecutionRow))
      → policy ≢ other_policy
      → HasLatest db (key_of r.request) latest
      → may_start policy (status_of latest) ≡ false
      → apply_policy policy r id e db ≡ ok (already, db)
  unfolding apply_policy select_latest_process_execution_for_update
  apply_policy-refuses other_policy latest known h no_ = absurd (known refl)
  apply_policy-refuses disallow_reuse (some (previous, p)) known h no_ =
      rw (apply_disallow_reuse_policy, ◌>>=◌, h.0, disallow_if_found) refl
  apply_policy-refuses allow_if_no_running (some (previous, p)) known h no_ =
      rw
        (
          apply_allow_if_no_running_policy,
          ◌>>=◌,
          h.0,
          allow_unless_running,
          ◌>>=◌,
          select_process_execution-found e db previous p h.1,
        )
        (ground (arith, no_))
  apply_policy-refuses allow_if_previous_exit_abnormally (some (previous, p)) known h no_ =
      rw
        (
          apply_allow_if_previous_exit_abnormally_policy,
          ◌>>=◌,
          h.0,
          allow_if_abnormal,
          ◌>>=◌,
          select_process_execution-found e db previous p h.1,
        )
        (ap (λ tx. tx e db)
          (refuse_abnormal (pure already) (start_after_previous r id) p.status no_))
  apply_policy-refuses terminate_if_running (some (previous, p)) known h no_ = absurd (cc no_)
  apply_policy-refuses disallow_reuse none known h no_ = absurd (cc no_)
  apply_policy-refuses allow_if_no_running none known h no_ = absurd (cc no_)
  apply_policy-refuses allow_if_previous_exit_abnormally none known h no_ = absurd (cc no_)
  apply_policy-refuses terminate_if_running none known h no_ = absurd (cc no_)

terminate_previous_lem :
    (e : Env) (db : Db) (r : StartProcessRequest) (id previous : Uuid) (p : ProcessExecutionRow)
    → get db.processes previous ≡ some p
    → IsFresh db id
    → (db' : Db) × (terminate_previous r (for_update previous p) e db ≡ ok (tt, db'))
      × (db'.latest ≡ db.latest)
      × IsFresh db' id
      × IsClosed db'.processes (some (previous, p))
unfolding terminate_previous update_process_execution
    add_visibility_task_record_process_execution_status insert_immediate_task_row
terminate_previous_lem e db r id previous p found fresh = elim (Bool-cases (is_running p.status)) [
  | inl open_ ↦
      rw (open_, ◌>>◌, found)
        (
          _,
          refl,
          refl,
          record {
            process =
                get-set_ne db.processes previous id _ (λ same. cc (same, fresh.process, found))
                ∙ fresh.process;
            states = fresh.states;
          },
          (_, get-set_self db.processes previous _, refl),
        )
  | inr closed ↦ rw closed (db, refl, refl, fresh, (p, found, closed))
]

terminate_if_found_lem :
    (e : Env) (db : Db) (r : StartProcessRequest) (id previous : Uuid) (p : ProcessExecutionRow)
    → HasLatest db (key_of r.request) (some (previous, p))
    → IsFresh db id
    → (db' : Db) × (terminate_if_found r id (some previous) e db ≡ ok (started id true, db'))
      × HasStarted r id e.now (some (previous, p)) db'
unfolding terminate_if_found batch_update_async_state_executions_to_abort_running
terminate_if_found_lem e db r id previous p h fresh =
    let (db1, ended, same1, fresh1, closed) =
      terminate_previous_lem e db r id previous p h.1 fresh in
    let (db2, inserted, rows) =
      update_latest_and_insert_new_process_execution_lem e db1 r id previous fresh1
        (ap (λ m. get m (key_of r.request)) same1 ∙ h.0) in
    let db3 : Db = record db2 { states = abort_rows previous db2.states } in
    let (db4, timed, same) = insert_timeout_timer_lem e db3 r id in
    (
      db4,
      rw
          (
            ◌>>=◌,
            select_process_execution_for_update-found e db previous p h.1,
            ◌>>◌,
            ended,
            ◌>>=◌,
            inserted,
            timed,
          )
          refl,
      HasRow-HasStarted r id e.now (some (previous, p)) db1 db4 db1.processes fresh1.process closed
          (HasRow-OnlyTimed r id e.now db1 db1.processes db3 db4
            (HasRow-abort_rows r id e.now db1 db1.processes db2 previous
              (λ same_id. cc (same_id, h.1, fresh.process)) rows)
            same)
          same.timed,
    )

module _ (e : Env) (db : Db) (r : StartProcessRequest) (id : Uuid) (fresh : IsFresh db id) where
  start_brand_new-HasStarted :
      get db.latest (key_of r.request) ≡ none
      → (db' : Db) × (start_brand_new r id e db ≡ ok (started id true, db'))
        × HasStarted r id e.now none db'
  start_brand_new-HasStarted absent =
      let (db', ran, rows, timed) = start_brand_new_lem e db r id fresh absent in
      (db', ran, HasRow-HasStarted r id e.now none db db' db.processes fresh.process tt rows timed)

  start_after_previous-HasStarted :
      (previous : Uuid) (p : ProcessExecutionRow)
      → HasLatest db (key_of r.request) (some (previous, p))
      → is_running p.status ≡ false
      → (db' : Db) × (start_after_previous r id e db ≡ ok (started id true, db'))
        × HasStarted r id e.now (some (previous, p)) db'
  start_after_previous-HasStarted previous p h closed =
      let (db', ran, rows, timed) = start_after_previous_lem e db r id previous fresh h.0 in
      (
        db',
        ran,
        HasRow-HasStarted r id e.now (some (previous, p)) db db' db.processes fresh.process
            (p, h.1, closed) rows timed,
      )

  -- Where the id that is drawn is fresh and the table of the policies says yes after the latest
  -- execution, the start succeeds. The new process execution is the latest one and its row runs from
  -- now on, in the shard of the request and with its timeout; a start state has its row, in version 1,
  -- and its task, for Execute if it skips WaitUntil and for WaitUntil otherwise; a task records the
  -- status running, there is a timer for the process timeout if that is not 0, and the execution that
  -- was the latest one is closed.
  pub apply_policy-starts :
      (policy : ProcessIdReusePolicy) (latest : Option (Uuid × ProcessExecutionRow))
      → HasLatest db (key_of r.request) latest
      → may_start policy (status_of latest) ≡ true
      → (db' : Db) × (apply_policy policy r id e db ≡ ok (started id true, db'))
        × HasStarted r id e.now latest db'
  unfolding apply_policy select_latest_process_execution_for_update
  apply_policy-starts other_policy latest h yes_ = absurd (cc yes_)
  apply_policy-starts disallow_reuse none h yes_ =
      rw (apply_disallow_reuse_policy, ◌>>=◌, h, disallow_if_found) (start_brand_new-HasStarted h)
  apply_policy-starts disallow_reuse (some _) h yes_ = absurd (cc yes_)
  apply_policy-starts allow_if_no_running none h yes_ =
      rw (apply_allow_if_no_running_policy, ◌>>=◌, h, allow_unless_running)
        (start_brand_new-HasStarted h)
  apply_policy-starts allow_if_no_running (some (previous, p)) h yes_ =
      let closed : is_running p.status ≡ false = ground (arith, yes_) in
      rw
        (
          apply_allow_if_no_running_policy,
          ◌>>=◌,
          h.0,
          allow_unless_running,
          ◌>>=◌,
          select_process_execution-found e db previous p h.1,
          closed,
        )
        (start_after_previous-HasStarted previous p h closed)
  apply_policy-starts allow_if_previous_exit_abnormally none h yes_ =
      rw (apply_allow_if_previous_exit_abnormally_policy, ◌>>=◌, h, allow_if_abnormal)
        (start_brand_new-HasStarted h)
  apply_policy-starts allow_if_previous_exit_abnormally (some (previous, p)) h yes_ =
      let (same, closed) =
        start_abnormal (pure already) (start_after_previous r id) p.status yes_ in
      rw
        (
          apply_allow_if_previous_exit_abnormally_policy,
          ◌>>=◌,
          h.0,
          allow_if_abnormal,
          ◌>>=◌,
          select_process_execution-found e db previous p h.1,
        )
        (rw (ap (λ (tx : Tx StartProcessResponse). tx e db) same)
          (start_after_previous-HasStarted previous p h closed))
  apply_policy-starts terminate_if_running none h yes_ =
      rw (apply_terminate_if_running_policy, ◌>>=◌, h, terminate_if_found)
        (start_brand_new-HasStarted h)
  apply_policy-starts terminate_if_running (some (previous, p)) h yes_ =
      rw (apply_terminate_if_running_policy, ◌>>=◌, h.0)
        (terminate_if_found_lem e db r id previous p h fresh)
