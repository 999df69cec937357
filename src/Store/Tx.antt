-- ===== src/Store/Tx.antt =====
-- A body that runs inside a SQLite transaction, and the transaction around it.
use ngy_coding_agent.Base.{ℕ, Result, ok, err, Option, none, some}
use ngy_coding_agent.Store.Schema.{Db, StoreError, DatabaseError, database}

-- What an operation takes from outside: whether `BEGIN IMMEDIATE` or a later statement is refused
-- by the database and with what error, the clock's answer, and the identifiers that are drawn.
pub record Env : Type 0 where
  pub begin_error : Option DatabaseError
  pub commit_error : Option DatabaseError
  pub now : ℕ
  pub task_id : ℕ
  pub client_request_id : ℕ
  pub repository_id : ℕ

abbrev pub Tx : Type 0 → Type 0
Tx A = Db → Result StoreError (A × Db)

infixl 5 ◌>>=◌ ◌>>◌
unfoldable pub ◌>>=◌ : {A B : Type 0} → Tx A → (A → Tx B) → Tx B
◌>>=◌ m f db = elim (m db) [ err e ↦ err e | ok (a, db') ↦ f a db' ]

abbrev pub ◌>>◌ : {B : Type 0} → Tx (Unit {0}) → Tx B → Tx B
m >> k = m >>= λ _. k

abbrev pub pure : {A : Type 0} → A → Tx A
pure a db = ok (a, db)

abbrev pub raise : {A : Type 0} → StoreError → Tx A
raise e db = err e

-- A fallible step that leaves the database alone.
unfoldable pub lift : {A : Type 0} → Result StoreError A → Tx A
lift (ok a) db = ok (a, db)
lift (err e) db = err e

abbrev pub gets : {A : Type 0} → (Db → A) → Tx A
gets f db = ok (f db, db)

unfoldable pub require : {A : Type 0} → Option A → StoreError → Tx A
require none e db = err e
require (some a) e db = ok (a, db)

-- A transaction that is dropped before its commit is rolled back.
unfoldable pub commit :
    {A : Type 0} → Option DatabaseError → Db → Result StoreError (A × Db) → Result StoreError A × Db
commit refused db (err e) = (err e, db)
commit none db (ok (a, db')) = (ok a, db')
commit (some e) db (ok (a, db')) = (err (database e), db)

unfoldable pub begin :
    {A : Type 0} → Option DatabaseError → Env → Tx A → Db → Result StoreError A × Db
unfolding commit
begin none env body db = commit env.commit_error db (body db)
begin (some e) env body db = (err (database e), db)

unfoldable pub transact : {A : Type 0} → Env → Tx A → Db → Result StoreError A × Db
unfolding begin
transact env body db = begin env.begin_error env body db
