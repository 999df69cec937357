-- ===== src/Store/Invariant/Lifecycle.antt =====
-- `append_lifecycle_event` of crates/coding-agent-store/src/tasks.rs, on the row of a pending task.
use ngy_coding_agent.Base.{
  ℕ, suc, ◌<◌, ◌≡◌, refl, List, some, ok, arith, Bool-cases, ltb, ltb→lt, inl, inr, sym, subst,
}
use ngy_coding_agent.Domain.Value.{event_id}
use ngy_coding_agent.Domain.Task.{TaskStatus}
use ngy_coding_agent.Domain.Event.{TaskEventPayload, kind}
use ngy_coding_agent.Store.Schema.{Db, EventRow, TaskRow, find_where, update_where, same_id}
use ngy_coding_agent.Store.Tx.{Tx, ◌>>=◌}
use ngy_coding_agent.Store.Ensures.{Ensures-ok, Ensures-err, Ensures}
use ngy_coding_agent.Store.History.{at, advance, replay}
use ngy_coding_agent.Store.Append.{
  recorded, next_event, append_lifecycle_event-room, append_lifecycle_event-full,
}
use ngy_coding_agent.Store.Codec.{event_from_record, payload_json}
use ngy_coding_agent.Store.Codec.Roundtrip.{
  IsReady, IsStored, IsWritable, task_from_record-IsStored, payload_from_value-payload_json,
  lifecycle_payload-IsWritable,
}
use ngy_coding_agent.Store.Tasks.Events.{
  append_lifecycle_event, lifecycle_kind, set_last_event, max_rowid,
}
use ngy_coding_agent.Store.Table.{found-key}
use ngy_coding_agent.Store.Invariant.{Decodes, IsWellFormed}
use ngy_coding_agent.Store.Invariant.Record.{IsPending, record-IsWellFormed}

-- A row of schema version 1 whose payload was written for it decodes.
pub Decodes-written :
    (r : EventRow) (p : TaskEventPayload) {n : ℕ}
    → r.schema_version ≡ 1
    → r.id ≡ suc n
    → r.kind ≡ kind p
    → r.payload_json ≡ payload_json p
    → IsWritable r.task_id (suc n) p
    → Decodes r
unfolding event_from_record event_id
Decodes-written r p {n} v i k j w = (
  record {
    id = suc n;
    schema_version = r.schema_version;
    task_id = r.task_id;
    payload = p;
    created_at = r.created_at;
  },
  ground (arith, payload_from_value-payload_json p r.task_id (suc n) w),
)

module _ (db : Db) (i : ℕ) (now : ℕ) {row : TaskRow} (pending : IsPending db i)
    (found : find_where (same_id i) db.tasks ≡ some row) (ready : IsReady row)
    (moved : advance (replay i db.task_events) (lifecycle_kind row.status) ≡ at row.status) where
  abbrev pub logged_tasks : List TaskRow
  logged_tasks = update_where (same_id i) (set_last_event (suc db.sequence)) db.tasks

  abbrev pub logged_row : TaskRow
  logged_row = set_last_event (suc db.sequence) row

  logged-IsReady : IsReady logged_row
  unfolding set_last_event
  logged-IsReady = record {
    attempt_positive = ready.attempt_positive;
    attempt_fits = ready.attempt_fits;
    state_fits = ground (arith, ready.state_fits);
  }

  logged-IsStored : IsStored logged_row
  unfolding set_last_event
  logged-IsStored = record { ready = logged-IsReady; event_positive = omega arith }

  -- The payload that is written is made from the row.
  pub logged :
      db.sequence < max_rowid
      → (p : TaskEventPayload) × (append_lifecycle_event i (lifecycle_kind row.status) now db
          ≡ ok (
            (logged_row, suc db.sequence),
            recorded db logged_tasks
                (next_event db i (lifecycle_kind row.status) (payload_json p) now),
          ))
        × IsWellFormed (
            recorded db logged_tasks
              (next_event db i (lifecycle_kind row.status) (payload_json p) now))
  unfolding set_last_event
  logged free =
      let (p, made, kinds, writable) =
        lifecycle_payload-IsWritable logged_row {i = i} {e = suc db.sequence} logged-IsReady
          (found-key (λ t. t.id) i db.tasks found) refl in
      (
        p,
        append_lifecycle_event-room db i (lifecycle_kind row.status) now found pending.keys.ids
            pending.keys.rising (task_from_record-IsStored logged_row logged-IsStored) made free,
        record-IsWellFormed db i (next_event db i (lifecycle_kind row.status) (payload_json p) now)
            pending found refl refl
            (Decodes-written (next_event db i (lifecycle_kind row.status) (payload_json p) now) p
              refl refl (sym kinds) refl writable)
            free logged-IsStored moved,
      )

  -- The rule for the call: it fails on a full table, or the invariant holds again.
  pub Ensures-lifecycle :
      {B : Type 0} (R : B → Db → Type 0) (f : TaskRow × ℕ → Tx B)
      → ((p : TaskEventPayload)
          → let after =
              recorded db logged_tasks
                (next_event db i (lifecycle_kind row.status) (payload_json p) now) in
            IsWellFormed after → Ensures R (f (logged_row, suc db.sequence) after))
      → Ensures R ((append_lifecycle_event i (lifecycle_kind row.status) now >>= f) db)
  Ensures-lifecycle R f h = elim (Bool-cases (ltb db.sequence max_rowid)) [
    | inl free ↦
        let (p, e, w) = logged (ltb→lt db.sequence max_rowid free) in
        Ensures-ok R db (append_lifecycle_event i (lifecycle_kind row.status) now) f e (h p w)
    | inr full ↦
        Ensures-err R db (append_lifecycle_event i (lifecycle_kind row.status) now) f
          (append_lifecycle_event-full db i (lifecycle_kind row.status) now full)
  ]

  pub Ensures-lifecycle_of :
      {B : Type 0} (s : TaskStatus) (R : B → Db → Type 0) (f : TaskRow × ℕ → Tx B)
      → row.status ≡ s
      → ((p : TaskEventPayload)
          → let after =
              recorded db logged_tasks
                (next_event db i (lifecycle_kind row.status) (payload_json p) now) in
            IsWellFormed after → Ensures R (f (logged_row, suc db.sequence) after))
      → Ensures R ((append_lifecycle_event i (lifecycle_kind s) now >>= f) db)
  Ensures-lifecycle_of s R f e h =
      subst (λ s. Ensures R ((append_lifecycle_event i (lifecycle_kind s) now >>= f) db)) e
        (Ensures-lifecycle R f h)
