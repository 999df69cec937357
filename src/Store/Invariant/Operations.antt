-- ===== src/Store/Invariant/Operations.antt =====
-- The operations of crates/coding-agent-store/src/tasks.rs keep the invariant.
use ngy_coding_agent.Base.{
  Result-cases, ◌⊎◌, inl, inr, Bool-cases, ℕ, ◌+◌, ◌<◌, ◌≡◌, refl, List, Option, none, some, ok,
  err, Result, arith, Bool,
}
use ngy_coding_agent.Domain.Task.{Task, NewTask}
use ngy_coding_agent.Domain.Event.{TaskEventKind}
use ngy_coding_agent.Store.Schema.{
  constraint_failed, Db, StoreError, TaskRow, find_where, task_not_found, task_not_retryable,
  task_attempt_overflow,
}
use ngy_coding_agent.Store.Tx.{Env, Tx, ◌>>=◌, ◌>>◌, pure}
use ngy_coding_agent.Store.Ensures.{
  Ensures, Ensures-lift, Ensures-require, Ensures-ok, Ensures-err, transact-keeps,
}
use ngy_coding_agent.Store.Table.{find-snoc}
use ngy_coding_agent.Store.Codec.{u32_limit, task_from_record}
use ngy_coding_agent.Store.Codec.Roundtrip.{IsReady}
use ngy_coding_agent.Store.Tasks.Events.{
  current_timestamp, load_where, insert_task, insertable, lifecycle_kind, append_lifecycle_event,
  decode_row,
}
use ngy_coding_agent.Store.Tasks.{
  created, queued_row, create_new, create_body, create_checked, create_or_find, create_task,
  retry_new, retry_or_find, same_input, retry_body, retry_task, conflicts,
}
use ngy_coding_agent.Store.Invariant.{IsWellFormed}
use ngy_coding_agent.Store.Invariant.Insert.{IsNew, insertable-IsNew, inserted, insert-IsPending}
use ngy_coding_agent.Store.Invariant.Lifecycle.{Ensures-lifecycle}

decode-cases :
    (o : Option TaskRow) (db : Db)
    → ((found : Option Task) × (decode_row o db ≡ ok (found, db)))
      ⊎ ((e : StoreError) × (decode_row o db ≡ err e))
unfolding decode_row
decode-cases none db = inl (none, refl)
decode-cases (some row) db = elim (Result-cases (task_from_record row)) [
  | inl (t, e) ↦ inl (some t, rw (e, decode_row))
  | inr (x, e) ↦ inr (x, rw (e, decode_row))
]

module _ {B : Type 0} (R : B → Db → Type 0) (db : Db) where
  pub Ensures-load :
      (p : TaskRow → Bool) (f : Option Task → Tx B)
      → ((o : Option Task) → load_where p db ≡ ok (o, db) → Ensures R (f o db))
      → Ensures R ((load_where p >>= f) db)
  unfolding load_where
  Ensures-load p f h = elim (decode-cases (find_where p db.tasks) db) [
    | inl (o, e) ↦ Ensures-ok R db (load_where p) f e (h o e)
    | inr (x, e) ↦ Ensures-err R db (load_where p) f e
  ]

  pub Ensures-insert :
      (row : TaskRow) (f : Unit {0} → Tx B)
      → (IsNew row db → Ensures R (f tt (inserted db row)))
      → Ensures R ((insert_task row >>= f) db)
  unfolding insert_task
  Ensures-insert row f h = elim (Bool-cases (insertable row db)) [
    | inl e ↦
        Ensures-ok R db (insert_task row) f {a = tt} {db' = inserted db row} (ground arith)
          (h (insertable-IsNew row db e))
    | inr e ↦ Ensures-err R db (insert_task row) f {x = constraint_failed} (ground arith)
  ]

-- A new row with its first event.
pub queued-IsReady :
    (id request repository : ℕ) (prompt : List ℕ) (attempt : ℕ) (source : Option ℕ) (now : ℕ)
    → 0 < attempt
    → attempt < u32_limit
    → IsReady (queued_row id request repository prompt attempt source now)
queued-IsReady id request repository prompt attempt source now p q = record {
  attempt_positive = p;
  attempt_fits = q;
  state_fits = refl;
}

abbrev pub WellFormedAfter : {A : Type 0} → A → Db → Type 0
WellFormedAfter a db = IsWellFormed db

module _ (db : Db) (w : IsWellFormed db) where
  insert-keeps :
      (id request repository : ℕ) (prompt : List ℕ) (attempt : ℕ) (source : Option ℕ) (now : ℕ)
      → 0 < attempt
      → attempt < u32_limit
      → Ensures WellFormedAfter (
          (do
            insert_task (queued_row id request repository prompt attempt source now)
            (task, event) ← append_lifecycle_event id TaskEventKind.task_queued now
            pure (created task event))
            db)
  unfolding lifecycle_kind
  insert-keeps id request repository prompt attempt source now p q =
      let row = queued_row id request repository prompt attempt source now in
      Ensures-insert WellFormedAfter db row _ λ new.
        Ensures-lifecycle (inserted db row) id now (insert-IsPending db row w new)
          (find-snoc (λ t. t.id) id db.tasks row new.new_id refl)
          (queued-IsReady id request repository prompt attempt source now p q)
          (rw (w.known id new.new_id) refl) WellFormedAfter _ λ payload after. after

  create_new-keeps :
      (env : Env) (input : NewTask) → Ensures WellFormedAfter (create_new env input db)
  unfolding create_new current_timestamp
  create_new-keeps env input = Ensures-lift WellFormedAfter db _ _ λ now _.
      insert-keeps env.task_id input.client_request_id input.repository_id input.prompt 1 none now
        (omega arith) (omega arith)

  create_or_find-keeps :
      (env : Env) (input : NewTask) (found : Option Task)
      → Ensures WellFormedAfter (create_or_find env input found db)
  unfolding create_or_find same_input
  create_or_find-keeps env input none = create_new-keeps env input
  create_or_find-keeps env input (some task) = elim (Bool-cases (conflicts input task)) [
    | inl e ↦ rw (e, same_input) tt
    | inr e ↦ rw (e, same_input) w
  ]

  create_body-keeps :
      (env : Env) (input : NewTask) → Ensures WellFormedAfter (create_body env input db)
  unfolding create_body
  create_body-keeps env input =
      Ensures-load WellFormedAfter db _ _ λ found _. create_or_find-keeps env input found

  create_checked-keeps :
      (env : Env) (input : Result StoreError NewTask) → IsWellFormed (create_checked env db input).1
  unfolding create_checked
  create_checked-keeps env (err e) = w
  create_checked-keeps env (ok input) =
      transact-keeps IsWellFormed env (create_body env input) db w (create_body-keeps env input)

  -- Creating a task, whatever its input and whether or not it is created, keeps a well-formed
  -- store well-formed.
  pub create_task-IsWellFormed :
      (env : Env) (input : NewTask) → IsWellFormed (create_task env input db).1
  unfolding create_task
  create_task-IsWellFormed env input = create_checked-keeps env _

  retry_new-keeps : (env : Env) (source : Task) → Ensures WellFormedAfter (retry_new env source db)
  unfolding retry_new current_timestamp
  retry_new-keeps env source =
      Ensures-require WellFormedAfter db _ task_attempt_overflow _ λ _ fits.
        Ensures-lift WellFormedAfter db _ _ λ now _.
          insert-keeps env.task_id env.client_request_id source.repository_id source.prompt
            (source.attempt + 1) (some source.id) now (omega arith) (ground arith)

  retry_or_find-keeps :
      (env : Env) (source : Task) (child : Option Task)
      → Ensures WellFormedAfter (retry_or_find env source child db)
  unfolding retry_or_find
  retry_or_find-keeps env source none = retry_new-keeps env source
  retry_or_find-keeps env source (some child) = w

  retry_body-keeps : (env : Env) (source : ℕ) → Ensures WellFormedAfter (retry_body env source db)
  unfolding retry_body
  retry_body-keeps env source = Ensures-load WellFormedAfter db _ _ λ found _.
      Ensures-require WellFormedAfter db found task_not_found _ λ task _.
        Ensures-require WellFormedAfter db _ task_not_retryable _
          λ _ _. Ensures-load WellFormedAfter db _ _ λ child _. retry_or_find-keeps env task child

  -- Retrying a task, whatever its status and whether or not it is retried, keeps a well-formed
  -- store well-formed.
  pub retry_task-IsWellFormed : (env : Env) (source : ℕ) → IsWellFormed (retry_task env source db).1
  unfolding retry_task
  retry_task-IsWellFormed env source =
      transact-keeps IsWellFormed env (retry_body env source) db w (retry_body-keeps env source)
