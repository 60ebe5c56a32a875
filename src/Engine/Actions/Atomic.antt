-- ===== src/Engine/Actions/Atomic.antt =====
-- Actions of the processors of engine/ that do all or nothing: an error leaves the tables as they
-- were, and nobody is notified.
use xdb.Prelude.{[], Error, Result, ok, err, ◌≡◌, refl, ◌∙◌}
use xdb.Database.Rows.{Db}
use xdb.Database.Tx.{Done}
use xdb.Engine.Actions.{Action, Outcome, continue, ◌>>=◌, lift, call, ask}

abbrev pub Nothing : {A : Type 0} → Outcome A → Db → Type 0
Nothing o db = (o.tables ≡ db) × (o.sent ≡ [])

abbrev pub IsAtomic : {A : Type 0} → Action A → Type 0
IsAtomic m = (db : Db) (x : Error) → (m db).result ≡ err x → Nothing (m db) db

-- An action that gives no error.
abbrev pub IsTotal : Action Done → Type 0
IsTotal m = (db : Db) → (m db).result ≡ ok tt

-- An operation of the store that leaves the tables as they were where it fails.
abbrev pub KeepsOnError : {A : Type 0} → (Db → Result A × Db) → Type 0
KeepsOnError op = (db : Db) (x : Error) → (op db).0 ≡ err x → (op db).1 ≡ db

continue-Nothing :
    {A B : Type 0} (o : Outcome A) (r : Result A) (f : A → Action B) (db : Db) (x : Error)
    → ((y : Error) → r ≡ err y → Nothing o db)
    → ((a : A)
        → r ≡ ok a
        → (f a o.tables).result ≡ err x
        → Nothing o db × Nothing (f a o.tables) o.tables)
    → (continue o r f).result ≡ err x
    → Nothing (continue o r f) db
continue-Nothing o (err y) f db x h k e = h y refl
continue-Nothing o (ok a) f db x h k e =
    let (first, then_) = k a refl e in (then_.0 ∙ first.0, rw (first.1) (then_.1))

pub total-no_error : (m : Action Done) (db : Db) (x : Error) → IsTotal m → ¬ ((m db).result ≡ err x)
total-no_error m db x t e = absurd (cc (t db, e))

pub lift-IsAtomic :
    {A : Type 0} (r : Result A) (f : A → Action Done)
    → ((a : A) → IsAtomic (f a))
    → IsAtomic (lift r >>= f)
lift-IsAtomic r f h db x e =
    continue-Nothing (lift r db) r f db x (λ y k. (refl, refl))
      (λ a k q. ((refl, refl), h a db x q)) e

pub ask-IsAtomic :
    {A : Type 0} (op : Db → Result A) (f : A → Action Done)
    → ((a : A) → IsAtomic (f a))
    → IsAtomic (ask op >>= f)
ask-IsAtomic op f h db x e =
    continue-Nothing (ask op db) (op db) f db x (λ y k. (refl, refl))
      (λ a k q. ((refl, refl), h a db x q)) e

-- An operation, and then what gives no error.
pub call-IsAtomic :
    {A : Type 0} (op : Db → Result A × Db) (f : A → Action Done)
    → KeepsOnError op
    → ((a : A) → IsTotal (f a))
    → IsAtomic (call op >>= f)
call-IsAtomic op f h t db x e =
    continue-Nothing (call op db) (op db).0 f db x (λ y k. (h db y k, refl))
      (λ a k q. absurd (total-no_error (f a) (op db).1 x (t a) q)) e

-- An operation, and then what gives an error only where the operation has left the tables alone.
pub call_checked-IsAtomic :
    {A : Type 0} (op : Db → Result A × Db) (f : A → Action Done)
    → KeepsOnError op
    → ((db : Db) (a : A) (x : Error)
        → (op db).0 ≡ ok a
        → (f a (op db).1).result ≡ err x
        → ((op db).1 ≡ db) × Nothing (f a (op db).1) (op db).1)
    → IsAtomic (call op >>= f)
call_checked-IsAtomic op f h c db x e =
    continue-Nothing (call op db) (op db).0 f db x (λ y k. (h db y k, refl))
      (λ a k q. let (same, nothing) = c db a x k q in ((same, refl), nothing)) e
