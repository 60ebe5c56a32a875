-- ===== src/Engine/Actions.antt =====
-- What the processors of engine/ do: they call the process store, one operation after the other, and
-- notify. A panic is an error too.
pub mod Atomic
use xdb.Prelude.{ℕ, List, [], ◌∷◌, ◌++◌, Option, Error, Result, ok, err, GoString}
use xdb.DataModels.Enums.{ProcessExecutionStatus}
use xdb.DataModels.Infos.{Uuid}
use xdb.Database.Rows.{Db}
use xdb.Database.Tx.{Done}

-- xcapi.NotifyImmediateTasksRequest and NotifyTimerTasksRequest to the task notifier, and Signal to
-- the channels of the shard that wait for a process execution to end. A partition is the namespace
-- and the process id.
pub data Notification : Type 0 where
  new_immediate_tasks : ℕ → Option (GoString × GoString) → Uuid → Notification
  new_timer_tasks : ℕ → Option (GoString × GoString) → Uuid → List ℕ → Notification
  process_ended : ℕ → Uuid → ProcessExecutionStatus → Notification

pub record Outcome (A : Type 0) : Type 0 where
  pub result : Result A
  pub tables : Db
  pub sent : List Notification

abbrev pub Action : Type 0 → Type 0
Action A = Db → Outcome A

abbrev pub then_sent : {A : Type 0} → List Notification → Outcome A → Outcome A
then_sent before o = record { result = o.result; tables = o.tables; sent = before ++ o.sent }

abbrev pub continue : {A B : Type 0} → Outcome A → Result A → (A → Action B) → Outcome B
continue o (err x) f = record { result = err x; tables = o.tables; sent = o.sent }
continue o (ok a) f = then_sent o.sent (f a o.tables)

infixl 5 ◌>>=◌ ◌>>◌
abbrev pub ◌>>=◌ : {A B : Type 0} → Action A → (A → Action B) → Action B
◌>>=◌ m f db = continue (m db) (m db).result f

abbrev pub ◌>>◌ : {B : Type 0} → Action Done → Action B → Action B
m >> n = m >>= λ _. n

abbrev pub pure : {A : Type 0} → A → Action A
pure a db = record { result = ok a; tables = db; sent = [] }

abbrev pub lift : {A : Type 0} → Result A → Action A
lift r db = record { result = r; tables = db; sent = [] }

abbrev pub raise : {A : Type 0} → Error → Action A
raise x = lift (err x)

-- An operation of the process store.
abbrev pub call : {A : Type 0} → (Db → Result A × Db) → Action A
call op db = let r = op db in record { result = r.0; tables = r.1; sent = [] }

-- A read of the process store.
abbrev pub ask : {A : Type 0} → (Db → Result A) → Action A
ask op db = record { result = op db; tables = db; sent = [] }

abbrev pub notify : Notification → Action Done
notify n db = record { result = ok tt; tables = db; sent = n ∷ [] }
