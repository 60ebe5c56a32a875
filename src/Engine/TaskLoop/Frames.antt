-- ===== src/Engine/TaskLoop/Frames.antt =====
-- The frame of the operations of persistence/process, where an answer goes with the old tables.
use xdb.Prelude.{
  ok-injective, commit_failure, begin_failure, ℕ, Bool, true, false, Result, ok, err, ◌≡◌, refl, ap,
  ◌∙◌, if◌then◌else◌,
}
use xdb.Database.Rows.{Db}
use xdb.Database.Tx.{Connection, AppAnswer, Tx, Env, run_tx, finish, always_commits}

abbrev finished : {A : Type 0} → Bool → Bool → A → Db → Db → Result A × Db
finished back commits a db db' =
    if back then (ok a, db) else if commits then (ok a, db') else (err commit_failure, db)

abbrev begun : {A : Type 0} → Bool → Db → Result A × Db → Result A × Db
begun begins db r = if begins then r else (err begin_failure, db)

finish-rolls_back_at :
    {A : Type 0} (back commits : Bool) (a' a : A) (db db' : Db)
    → (a' ≡ a → back ≡ true)
    → (finished back commits a' db db').0 ≡ ok a
    → (finished back commits a' db db').1 ≡ db
finish-rolls_back_at true commits a' a db db' h e = refl
finish-rolls_back_at false true a' a db db' h e = absurd (cc (h (ok-injective e)))
finish-rolls_back_at false false a' a db db' h e = refl

finish-rolls_back :
    {A : Type 0} (c : Connection) (f : A → Bool) (db : Db) (r : Result (A × Db)) (a : A)
    → f a ≡ true
    → (finish c f db r).0 ≡ ok a
    → (finish c f db r).1 ≡ db
unfolding finish
finish-rolls_back c f db (err x) a b e = refl
finish-rolls_back c f db (ok (a', db')) a b e =
    finish-rolls_back_at (f a') c.commits a' a db db' (λ p. ap f p ∙ b) e

-- What a transaction answers where it begins holds of what it answers.
begin_lem :
    {A : Type 0} (begins : Bool) (db : Db) (r : Result A × Db) (a : A)
    → (r.0 ≡ ok a → r.1 ≡ db)
    → (begun begins db r).0 ≡ ok a
    → (begun begins db r).1 ≡ db
begin_lem true db r a h e = h e
begin_lem false db r a h e = refl

-- An answer that rolls back leaves the tables alone.
pub run_tx-rolls_back :
    {A : Type 0} (c : Connection) (f : A → Bool) (tx : Tx A) (now : ℕ) (app : AppAnswer) (db : Db)
    (a : A)
    → (run_tx c f tx now app db).0 ≡ ok a
    → f a ≡ true
    → (run_tx c f tx now app db).1 ≡ db
unfolding run_tx
run_tx-rolls_back c f tx now app db a e b =
    begin_lem c.begins db _ a (finish-rolls_back c f db _ a b) e

commit-same :
    {A : Type 0} (commits : Bool) (a' a : A) (db db' : Db)
    → (a' ≡ a → db' ≡ db)
    → (finished false commits a' db db').0 ≡ ok a
    → (finished false commits a' db db').1 ≡ db
commit-same true a' a db db' h e = h (ok-injective e)
commit-same false a' a db db' h e = refl

finish-same :
    {A : Type 0} (c : Connection) (db : Db) (r : Result (A × Db)) (a : A)
    → ((db' : Db) → r ≡ ok (a, db') → db' ≡ db)
    → (finish c always_commits db r).0 ≡ ok a
    → (finish c always_commits db r).1 ≡ db
unfolding finish
finish-same c db (err x) a h e = refl
finish-same c db (ok (a', db')) a h e = commit-same c.commits a' a db db' (λ p. h db' (cc p)) e

-- A transaction that answers `a` without a change leaves the tables alone.
pub run_tx-same :
    {A : Type 0} (c : Connection) (tx : Tx A) (now : ℕ) (app : AppAnswer) (db : Db) (a : A)
    → ((e : Env) (db' : Db) → tx e db ≡ ok (a, db') → db' ≡ db)
    → (run_tx c always_commits tx now app db).0 ≡ ok a
    → (run_tx c always_commits tx now app db).1 ≡ db
unfolding run_tx
run_tx-same c tx now app db a h e =
    begin_lem c.begins db _ a (finish-same c db _ a (λ db' q. h _ db' q)) e
