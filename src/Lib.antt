-- ===== src/Lib.antt =====
-- xcherry: a process orchestrator. A process execution runs asynchronous state executions on a
-- worker; a database holds their rows, and tasks of two kinds, immediate and timer, drive them.
--
-- Parts and files.
--  * DataModels models persistence/data_models. Enums: data_models_enums.go. StateIds:
--    state_execution_id.go. Sequences: state_execution_sequence_maps_json.go, the counters and the
--    pending executions of a process execution. LocalQueues: state_execution_local_queues_json.go,
--    the messages and the queue commands that wait for them. Infos: the values of the columns.
--  * Database models extensions/postgres as far as the process store uses it. Rows: the tables,
--    maps by primary key and lists of tasks. Tx: a transaction as a function on the tables that
--    answers or fails, and the frame begin, commit or rollback of every operation. Statements and
--    Tasks: one function for each SQL statement of transactional.go and non_transactional.go.
--    Visibility: what persistence/visibility/visibility_store.go records of the status of a process
--    execution.
--  * Process models persistence/process, a module for each operation: Start and Policies
--    (start_process.go), AppDatabase (write_app_database.go, write_local_attributes.go), Stop
--    (stop_process.go), WaitUntil (wait_until.go), LocalQueue (process_local_queue.go), Execute
--    (complete_execute.go), Rpc (update_process_execution_for_rpc.go), Timers (the three operations
--    on timer tasks), Retries (backoff_immediate_task.go, recover_from_state_execution_failure.go),
--    Publish (publish_to_local_queue.go), Decision (handleStateDecision of common.go), Common
--    (sql_process_store_common.go), Pages (the reads of tasks, and the command results of
--    prepare_state.go) and Reads (the other reads).
--  * Engine models engine/: ImmediateTaskQueue is the state of immediate_task_queue.go with its
--    handlers pollAndDispatchAndPrepareNext and receiveCompletedTask, the pages that tasks share in
--    a store by address; ImmediateTaskPages is mergeImmediateTaskPages, with a stable sort for
--    sort.Slice. Sequences have no bound 2^63 there. Backoff is GetNextBackoff of backoff.go, with
--    int32 and int64 as patterns; the float product of the interval with the power of the
--    coefficient, converted to int32, is a parameter. TimerGate is LocalTimerGateImpl of
--    timer_gate.go, where the clock and the goroutine of the gate are steps beside the calls, and
--    Alarm what it promises. TimerTaskQueue is the state of timer_task_queue.go with its handlers
--    (TimerNotifications has the filtering of requests; Firing, Waking, Loading, Running and
--    Keeping prove what the handlers leave behind) and its loop as a step relation (Steps) over any
--    interleaving of handlers, notifications and gates; the loop of
--    sendAllFiredTimerTasksToProcessor has fuel for each task and one more, which is proved to be
--    enough. container/heap is an interface with its documented laws (TimerHeap); a sorted slice
--    meets them (Examples.SortedHeap). The processor of immediate_task_concurrent_processor.go is a
--    chain of Actions: calls of the process store on its tables, with the notifications sent.
--    WorkerCalls has the calls of workers and what counts as a failure (with common/httperror),
--    ImmediateTasks what follows a failure, WaitUntilTasks and ExecuteTasks the two worker APIs
--    (with common/decision), and TaskLoop processImmediateTask and the turn of the loop in Start.
--    TimerTasks is timer_task_concurrent_processor.go. Workers, HTTP, clocks, floats and what the
--    database answers outside a transaction are fields of ProcessorEnv; a context that has run out
--    is a connection that does not begin or commit. CompletionChannels is
--    wait_for_process_completion_channel.go, each call one step under the lock.
--  * Service models service/async: Shards is ReBalance of service_impl.go, with the maps of
--    shards of task_notifier_impl.go and of the processors. A queue is the number of the
--    re-balancing that made it; timers, locks and logging are left out. Cluster is the assignment
--    of shards of event_delegate.go, with the hash ring as an interface. It models service/api too:
--    Api has the requests of service_impl.go over the process store (Api.Rpc that of Rpc), with the
--    notifications they send. Waiting is waiting for completion in both, with what ends the wait as
--    an argument.
--  * Prelude holds what they share: maps, lists, tests, results. Examples has the theorems at
--    concrete inputs.
--
-- How the code is modelled.
--  * An operation takes the tables and gives a result and the tables: do...Tx is a transaction,
--    the operation itself is run_tx of it. A pointer that is changed in place is a result. Reads on
--    the session see the tables from before the transaction, reads on the transaction its own.
--  * Integers are natural numbers. A Go int is its 64-bit pattern and an int32 its 32-bit
--    pattern, with the wrap-around where the code counts. A JSON column holds the value, so
--    encoding and decoding are the identity. A Go map is an association list, and the theorems hold
--    for every order of its entries; loops are structural, or have fuel that is proved to be
--    enough: one more than the number for its decimal digits, one more than the loaded tasks for
--    the loop of the timer queue.
--  * UUIDs that the code draws, the clock and the answers of the application's tables are
--    arguments.
--  * A unique key that is violated, a missing row, a failed conditional update and a panic are
--    errors.
--
-- Not modelled: the listing of the visibility store, the HTTP servers, the listing of the API
-- service, the requests between servers, the member list library, configuration, logging, the
-- schema tool and the database driver, which are I/O or glue; negative counts of queue commands,
-- which panic.
pub mod Prelude
pub mod DataModels
pub mod Database
pub mod Process
pub mod Engine
pub mod Service
pub mod Examples
