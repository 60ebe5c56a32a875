-- ===== src/Database/Tx.antt =====
-- A transaction: what the code does between StartTransaction and Commit or Rollback. It reads the
-- committed tables (the calls of `p.session`) and works on its own copy. An error drops the copy.
pub mod Runs
use xdb.Prelude.{
  ℕ, Bool, true, false, List, Option, none, some, Error, Result, ok, err, ok-injective, ◌≡◌, refl,
  ◌⊎◌, inl, inr, begin_failure, commit_failure, if◌then◌else◌, arith,
}
use xdb.Database.Rows.{Db, AppDatabaseWriteRow}

-- What a transaction takes from outside: the clock, and what the tables of the application, whose
-- constraints are the user's, answer to a write after the writes so far.
pub record Env : Type 0 where
  pub committed : Db
  pub now : ℕ
  pub app_answer : List AppDatabaseWriteRow → AppDatabaseWriteRow → Option Error

abbrev pub Tx {ℓ} : Type ℓ → Type ℓ
Tx A = Env → Db → Result (A × Db)

-- A statement that answers nothing.
abbrev pub Done : Type 0
Done = Unit

infixl 5 ◌>>=◌ ◌>>◌
abbrev pub ◌>>=◌ {ℓ κ} : {A : Type ℓ} {B : Type κ} → Tx A → (A → Tx B) → Tx B
◌>>=◌ m f e db = elim (m e db) [ err x ↦ err x | ok (a, db') ↦ f a e db' ]

abbrev pub ◌>>◌ {ℓ} : {B : Type ℓ} → Tx Done → Tx B → Tx B
◌>>◌ m n e db = elim (m e db) [ err x ↦ err x | ok (a, db') ↦ n e db' ]

abbrev pub pure {ℓ} : {A : Type ℓ} → A → Tx A
pure a e db = ok (a, db)

abbrev pub fail {ℓ} : {A : Type ℓ} → Error → Tx A
fail x e db = err x

abbrev pub lift {ℓ} : {A : Type ℓ} → Result A → Tx A
lift (ok a) e db = ok (a, db)
lift (err x) e db = err x

-- time.Now().Unix()
abbrev pub get_now : Tx ℕ
get_now e db = ok (e.now, db)

-- What the connection does at the two ends of a transaction.
pub record Connection : Type 0 where
  pub begins : Bool
  pub commits : Bool

-- What the application's tables answer.
abbrev pub AppAnswer : Type 0
AppAnswer = List AppDatabaseWriteRow → AppDatabaseWriteRow → Option Error

unfoldable pub finish {ℓ} :
    {A : Type ℓ} → Connection → (A → Bool) → Db → Result (A × Db) → Result A × Db
finish c rolls_back db (err x) = (err x, db)
finish c rolls_back db (ok (a, db')) =
    if rolls_back a then (ok a, db) else if c.commits then (ok a, db') else (err commit_failure, db)

-- The frame that the operations of the process store share: `rolls_back` says which responses
-- roll back although there is no error.
unfoldable pub run_tx {ℓ} :
    {A : Type ℓ} → Connection → (A → Bool) → Tx A → ℕ → AppAnswer → Db → Result A × Db
unfolding finish
run_tx c rolls_back tx now app db =
    if c.begins
    then finish c rolls_back db (tx (record { committed = db; now = now; app_answer = app }) db)
    else (err begin_failure, db)

abbrev pub always_commits {ℓ} : {A : Type ℓ} → A → Bool
always_commits _ = false

-- An operation that answers with an error leaves the tables as they were.
pub run_tx_err {ℓ} :
    {A : Type ℓ} (c : Connection) (f : A → Bool) (tx : Tx A) (now : ℕ) (app : AppAnswer) (db : Db)
    (x : Error)
    → (run_tx c f tx now app db).0 ≡ err x
    → (run_tx c f tx now app db).1 ≡ db
unfolding run_tx
run_tx_err c f tx now app db x e = ground arith

-- So does a response that rolls back.
pub run_tx_rolled_back {ℓ} :
    {A : Type ℓ} (c : Connection) (f : A → Bool) (tx : Tx A) (now : ℕ) (app : AppAnswer) (db : Db)
    (a : A)
    → (run_tx c f tx now app db).0 ≡ ok a
    → f a ≡ true
    → (run_tx c f tx now app db).1 ≡ db
unfolding run_tx
run_tx_rolled_back c f tx now app db a e r = ground arith
