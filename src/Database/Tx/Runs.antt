-- ===== src/Database/Tx/Runs.antt =====
-- How a transaction that succeeds is taken apart, and when `run_tx` leaves the tables alone.
use xdb.Prelude.{
  ℕ, Bool, true, Result, ok, err, ◌≡◌, refl, ◌∙◌, subst, GoMap, Error, inl, inr, Bool-cases,
}
use xdb.Database.Rows.{Db, StateKey, AsyncStateExecutionRow}
use xdb.Database.Tx.{Env, Tx, Done, ◌>>=◌, ◌>>◌, pure, fail, Connection, AppAnswer, run_tx, finish}

-- `P` holds of the tables before and after every success of the transaction.
abbrev pub Ensures {ℓ} : {A : Type ℓ} (P : Db → A → Db → Type 0) → Tx A → Type ℓ
Ensures {A = A} P tx = (e : Env) (db : Db) (a : A) (db' : Db) → tx e db ≡ ok (a, db') → P db a db'

-- The transaction does not touch the state executions.
abbrev pub KeepsStates {ℓ} : {A : Type ℓ} → Tx A → Type ℓ
KeepsStates tx = Ensures (λ db a db'. db'.states ≡ db.states) tx

bind-KeepsStates_at {ℓ κ} :
    {A : Type ℓ} {B : Type κ} (m : Tx A) (f : A → Tx B)
    → KeepsStates m
    → ((a : A) → KeepsStates (f a))
    → (e : Env) (db : Db) (b : B) (db' : Db) (r : Result (A × Db)) → m e db ≡ r
    → (m >>= f) e db ≡ ok (b, db')
    → db'.states ≡ db.states
bind-KeepsStates_at m f h k e db b db' (err x) p q = absurd (cc (p, q))
bind-KeepsStates_at m f h k e db b db' (ok (a, db1)) p q =
    k a e db1 b db' (cc (p, q)) ∙ h e db a db1 p

pub bind-KeepsStates {ℓ κ} :
    {A : Type ℓ} {B : Type κ} (m : Tx A) (f : A → Tx B)
    → KeepsStates m
    → ((a : A) → KeepsStates (f a))
    → KeepsStates (m >>= f)
bind-KeepsStates m f h k e db b db' q = bind-KeepsStates_at m f h k e db b db' (m e db) refl q

pub pure-KeepsStates {ℓ} : {A : Type ℓ} (a : A) → KeepsStates (pure a)
pure-KeepsStates a e db b db' q = cc q

pub fail-KeepsStates {ℓ} : {A : Type ℓ} (x : Error) → KeepsStates {A = A} (fail x)
fail-KeepsStates x e db b db' q = absurd (cc q)

finish-unchanged {ℓ} :
    {A : Type ℓ} (c : Connection) (f : A → Bool) (db : Db) (r : Result (A × Db))
    → ((a : A) (db' : Db) → r ≡ ok (a, db') → f a ≡ true)
    → (finish c f db r).1 ≡ db
unfolding finish
finish-unchanged c f db (err x) h = refl
finish-unchanged c f db (ok (a, db')) h = rw (h a db' refl) refl

-- Every success from tables with the given state executions has an answer in `P`.
abbrev pub Yields {ℓ} :
    {A : Type ℓ} → GoMap StateKey AsyncStateExecutionRow → (A → Type 0) → Tx A → Type ℓ
Yields {A = A} states P tx =
    (e : Env) (db : Db) → db.states ≡ states → (a : A) (db' : Db) → tx e db ≡ ok (a, db') → P a

bind-Yields_at {ℓ κ} :
    {A : Type ℓ} {B : Type κ} (states : GoMap StateKey AsyncStateExecutionRow) (P : B → Type 0)
    (m : Tx A) (f : A → Tx B)
    → KeepsStates m
    → ((a : A) → Yields states P (f a))
    → (e : Env) (db : Db) → db.states ≡ states
    → (b : B) (db' : Db) (r : Result (A × Db)) → m e db ≡ r
    → (m >>= f) e db ≡ ok (b, db')
    → P b
bind-Yields_at states P m f h k e db s b db' (err x) p q = absurd (cc (p, q))
bind-Yields_at states P m f h k e db s b db' (ok (a, db1)) p q =
    k a e db1 (h e db a db1 p ∙ s) b db' (cc (p, q))

pub bind-Yields {ℓ κ} :
    {A : Type ℓ} {B : Type κ} (states : GoMap StateKey AsyncStateExecutionRow) (P : B → Type 0)
    (m : Tx A) (f : A → Tx B)
    → KeepsStates m
    → ((a : A) → Yields states P (f a))
    → Yields states P (m >>= f)
bind-Yields states P m f h k e db s b db' q =
    bind-Yields_at states P m f h k e db s b db' (m e db) refl q

pub then-Yields {κ} :
    {B : Type κ} (states : GoMap StateKey AsyncStateExecutionRow) (P : B → Type 0) (m : Tx Done)
    (n : Tx B)
    → KeepsStates m
    → Yields states P n
    → Yields states P (m >> n)
then-Yields states P m n h k = bind-Yields states P m (λ _. n) h (λ _. k)

-- A step that fails has no success after it.
pub fails-Yields {κ} :
    {B : Type κ} (states : GoMap StateKey AsyncStateExecutionRow) (P : B → Type 0) (m : Tx Done)
    (n : Tx B) (x : Error)
    → ((e : Env) (db : Db) → db.states ≡ states → m e db ≡ err x)
    → Yields states P (m >> n)
fails-Yields states P m n x h e db s b db' q = absurd (cc (h e db s, q))

-- A transaction whose every success rolls back leaves the tables as they were.
pub run_tx-Yields {ℓ} :
    {A : Type ℓ} (c : Connection) (f : A → Bool) (tx : Tx A) (now : ℕ) (app : AppAnswer) (db : Db)
    → Yields db.states (λ a. f a ≡ true) tx
    → (run_tx c f tx now app db).1 ≡ db
unfolding run_tx
run_tx-Yields c f tx now app db h = elim (Bool-cases c.begins) [
  | inl yes_ ↦ rw yes_ (
      finish-unchanged c f db _
        (h (record { committed = db; now = now; app_answer = app }) db refl))
  | inr no_ ↦ rw no_ refl
]

-- Every success has an answer in `P`.
abbrev pub Answers {ℓ} : {A : Type ℓ} → (A → Type 0) → Tx A → Type ℓ
Answers {A = A} P tx = (e : Env) (db : Db) (a : A) (db' : Db) → tx e db ≡ ok (a, db') → P a

bind-Answers_at {ℓ κ} :
    {A : Type ℓ} {B : Type κ} (P : B → Type 0) (m : Tx A) (f : A → Tx B)
    → ((a : A) → Answers P (f a))
    → (e : Env) (db : Db) (b : B) (db' : Db) (r : Result (A × Db)) → m e db ≡ r
    → (m >>= f) e db ≡ ok (b, db')
    → P b
bind-Answers_at P m f k e db b db' (err x) p q = absurd (cc (p, q))
bind-Answers_at P m f k e db b db' (ok (a, db1)) p q = k a e db1 b db' (cc (p, q))

pub bind-Answers {ℓ κ} :
    {A : Type ℓ} {B : Type κ} (P : B → Type 0) (m : Tx A) (f : A → Tx B)
    → ((a : A) → Answers P (f a))
    → Answers P (m >>= f)
bind-Answers P m f k e db b db' q = bind-Answers_at P m f k e db b db' (m e db) refl q

pub then-Answers {κ} :
    {B : Type κ} (P : B → Type 0) (m : Tx Done) (n : Tx B) → Answers P n → Answers P (m >> n)
then-Answers P m n k = bind-Answers P m (λ _. n) (λ _. k)

pub pure-Answers {ℓ} : {A : Type ℓ} (P : A → Type 0) (a : A) → P a → Answers P (pure a)
pure-Answers P a h e db b db' q = subst P (cc q) h

bind-Answers_from_at {ℓ κ} :
    {A : Type ℓ} {B : Type κ} (Q : A → Type 0) (P : B → Type 0) (m : Tx A) (f : A → Tx B)
    → Answers Q m
    → ((a : A) → Q a → Answers P (f a))
    → (e : Env) (db : Db) (b : B) (db' : Db) (r : Result (A × Db)) → m e db ≡ r
    → (m >>= f) e db ≡ ok (b, db')
    → P b
bind-Answers_from_at Q P m f h k e db b db' (err x) p q = absurd (cc (p, q))
bind-Answers_from_at Q P m f h k e db b db' (ok (a, db1)) p q =
    k a (h e db a db1 p) e db1 b db' (cc (p, q))

-- The same, where the first part ensures `Q` of its answer.
pub bind-Answers_from {ℓ κ} :
    {A : Type ℓ} {B : Type κ} (Q : A → Type 0) (P : B → Type 0) (m : Tx A) (f : A → Tx B)
    → Answers Q m
    → ((a : A) → Q a → Answers P (f a))
    → Answers P (m >>= f)
bind-Answers_from Q P m f h k e db b db' q =
    bind-Answers_from_at Q P m f h k e db b db' (m e db) refl q
