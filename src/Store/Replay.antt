-- ===== src/Store/Replay.antt =====
-- What the log of a well-formed store says of its tasks (crates/coding-agent-store/src/tasks.rs).
use ngy_coding_agent.Base.{ℕ, ◌≡◌, ap, sym, ◌∙◌, subst, Option-cases, inl, inr, some, none, Option}
use ngy_coding_agent.Store.Schema.{Db, find_where, same_id, TaskRow}
use ngy_coding_agent.Store.Table.{find-keyed, found-key}
use ngy_coding_agent.Store.History.{History, absent, at, replay, last_of}
use ngy_coding_agent.Store.Invariant.{IsWellFormed, IsCurrent}

-- Where the table says that a task stands.
abbrev pub standing : Option TaskRow → History
standing none = absent
standing (some row) = at row.status

module _ (db : Db) (w : IsWellFormed db) (i : ℕ) where
  -- In a well-formed store the event log alone determines the table of tasks: replaying the events
  -- of a task along its lifecycle gives the status that its row has, and gives nothing for a task
  -- that has no row; so no event was ever illegal.
  pub replay-standing : replay i db.task_events ≡ standing (find_where (same_id i) db.tasks)
  replay-standing = elim (Option-cases (find_where (same_id i) db.tasks)) [
    | inl e ↦ w.known i e ∙ ap standing (sym e)
    | inr (row, e) ↦
        let (c, _) = find-keyed (λ t. t.id) (IsCurrent db.task_events) i db.tasks e w.current in
        subst (λ j. replay j db.task_events ≡ at row.status) (found-key (λ t. t.id) i db.tasks e)
          c.status
        ∙ ap standing (sym e)
  ]

  -- In a well-formed store the last event id in the row of a task is the id of the last event that
  -- the log holds of it.
  pub last_event-last_of :
      (row : TaskRow)
      → find_where (same_id i) db.tasks ≡ some row
      → row.last_event_id ≡ last_of i db.task_events
  last_event-last_of row e =
      let (c, _) = find-keyed (λ t. t.id) (IsCurrent db.task_events) i db.tasks e w.current in
      subst (λ j. row.last_event_id ≡ last_of j db.task_events) (found-key (λ t. t.id) i db.tasks e)
        c.last
