-- ===== src/Store/Ensures.antt =====
-- Rules for what a body of crates/coding-agent-store/src leaves behind when it returns.
use ngy_coding_agent.Base.{subst, sym, Result, ok, err, Option, none, some, ◌≡◌, refl, arith}
use ngy_coding_agent.Store.Schema.{Db, StoreError, DatabaseError}
use ngy_coding_agent.Store.Tx.{Env, Tx, ◌>>=◌, lift, require, transact, commit, begin}

-- `Q` holds of the value and the database that are returned.
abbrev pub Ensures : {A : Type 0} → (A → Db → Type 0) → Result StoreError (A × Db) → Type 0
Ensures Q (ok (a, db)) = Q a db
Ensures Q (err e) = Unit

module _ {A B : Type 0} (R : B → Db → Type 0) (db : Db) where
  pub Ensures-bind :
      (m : Tx A) (f : A → Tx B)
      → ((a : A) (db' : Db) → m db ≡ ok (a, db') → Ensures R (f a db'))
      → Ensures R ((m >>= f) db)
  unfolding ◌>>=◌
  Ensures-bind m f h = go (m db) refl
    where
      go :
          (r : Result StoreError (A × Db))
          → m db ≡ r
          → Ensures R (elim r [ err e ↦ err e | ok (a, db') ↦ f a db' ])
      go (err e) p = tt
      go (ok (a, db')) p = h a db' p

  pub Ensures-ok :
      (m : Tx A) (f : A → Tx B) {a : A} {db' : Db}
      → m db ≡ ok (a, db')
      → Ensures R (f a db')
      → Ensures R ((m >>= f) db)
  unfolding ◌>>=◌
  Ensures-ok m f e h =
      subst (λ r. Ensures R (elim r [ err x ↦ err x | ok (a, db') ↦ f a db' ])) (sym e) h

  pub Ensures-err :
      (m : Tx A) (f : A → Tx B) {x : StoreError} → m db ≡ err x → Ensures R ((m >>= f) db)
  unfolding ◌>>=◌
  Ensures-err m f e =
      subst (λ r. Ensures R (elim r [ err x ↦ err x | ok (a, db') ↦ f a db' ])) (sym e) tt

  pub Ensures-lift :
      (r : Result StoreError A) (f : A → Tx B)
      → ((a : A) → r ≡ ok a → Ensures R (f a db))
      → Ensures R ((lift r >>= f) db)
  unfolding ◌>>=◌ lift
  Ensures-lift (err e) f h = tt
  Ensures-lift (ok a) f h = h a refl

  pub Ensures-require :
      (o : Option A) (e : StoreError) (f : A → Tx B)
      → ((a : A) → o ≡ some a → Ensures R (f a db))
      → Ensures R ((require o e >>= f) db)
  unfolding ◌>>=◌ require
  Ensures-require none e f h = tt
  Ensures-require (some a) e f h = h a refl

module _ {A : Type 0} where
  commit-keeps :
      (P : Db → Type 0) (refused : Option DatabaseError) (db : Db) (r : Result StoreError (A × Db))
      → P db
      → Ensures (λ a db'. P db') r
      → P (commit refused db r).1
  unfolding commit
  commit-keeps P refused db (err e) h k = h
  commit-keeps P none db (ok (a, db')) h k = k
  commit-keeps P (some e) db (ok (a, db')) h k = h

  begin-keeps :
      (P : Db → Type 0) (refused : Option DatabaseError) (env : Env) (body : Tx A) (db : Db)
      → P db
      → Ensures (λ a db'. P db') (body db)
      → P (begin refused env body db).1
  unfolding begin
  begin-keeps P none env body db h k = commit-keeps P env.commit_error db (body db) h k
  begin-keeps P (some e) env body db h k = h

  -- A transaction keeps what holds before it, if its body ensures it.
  pub transact-keeps :
      (P : Db → Type 0) (env : Env) (body : Tx A) (db : Db)
      → P db
      → Ensures (λ a db'. P db') (body db)
      → P (transact env body db).1
  unfolding transact
  transact-keeps P env body db h k = begin-keeps P env.begin_error env body db h k

  commit_rollback :
      (refused : Option DatabaseError) (db : Db) (r : Result StoreError (A × Db)) {e : StoreError}
      → (commit refused db r).0 ≡ err e
      → (commit refused db r).1 ≡ db
  unfolding commit
  commit_rollback refused db (err e) h = refl
  commit_rollback none db (ok (a, db')) h = cc
  commit_rollback (some e) db (ok (a, db')) h = refl

  begin_rollback :
      (refused : Option DatabaseError) (env : Env) (body : Tx A) (db : Db) {e : StoreError}
      → (begin refused env body db).0 ≡ err e
      → (begin refused env body db).1 ≡ db
  unfolding begin
  begin_rollback none env body db h = commit_rollback env.commit_error db (body db) h
  begin_rollback (some e) env body db h = refl

  pub transact_rollback :
      (env : Env) (body : Tx A) (db : Db) {e : StoreError}
      → (transact env body db).0 ≡ err e
      → (transact env body db).1 ≡ db
  unfolding transact
  transact_rollback env body db h = begin_rollback env.begin_error env body db h

  commit-eq-ok :
      (refused : Option DatabaseError) (db : Db) (r : Result StoreError (A × Db)) {a : A}
      → (commit refused db r).0 ≡ ok a
      → r ≡ ok (a, (commit refused db r).1)
  unfolding commit
  commit-eq-ok refused db (err e) h = cc
  commit-eq-ok none db (ok (a, db')) h = ground arith
  commit-eq-ok (some e) db (ok (a, db')) h = cc

  begin-eq-ok :
      (refused : Option DatabaseError) (env : Env) (body : Tx A) (db : Db) {a : A}
      → (begin refused env body db).0 ≡ ok a
      → body db ≡ ok (a, (begin refused env body db).1)
  unfolding begin
  begin-eq-ok none env body db h = commit-eq-ok env.commit_error db (body db) h
  begin-eq-ok (some e) env body db h = cc

  -- What a transaction returns is what its body returned, and what it leaves is what that left.
  pub transact-eq-ok :
      (env : Env) (body : Tx A) (db : Db) {a : A}
      → (transact env body db).0 ≡ ok a
      → body db ≡ ok (a, (transact env body db).1)
  unfolding transact
  transact-eq-ok env body db h = begin-eq-ok env.begin_error env body db h

  pub transact_commits :
      (env : Env) (body : Tx A) (db : Db) {a : A} {db' : Db}
      → env.begin_error ≡ none
      → env.commit_error ≡ none
      → body db ≡ ok (a, db')
      → transact env body db ≡ (ok a, db')
  unfolding transact begin commit
  transact_commits env body db b c h = ground arith
