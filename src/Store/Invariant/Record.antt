-- ===== src/Store/Invariant/Record.antt =====
-- Recording an event of one task brings the database back to its invariant.
use ngy_coding_agent.Base.{
  ℕ, suc, ◌<◌, ◌≡◌, ◌≢◌, refl, sym, ◌∙◌, List, [], ◌∷◌, ◌++◌, All, All-append, map, none, some,
  subst, arith, Bool,
}
use ngy_coding_agent.Store.Schema.{Db, EventRow, TaskRow, find_where, update_where, same_id}
use ngy_coding_agent.Store.Table.{
  Distinct, map-update, find-update_none, All-update, All-found, All-and, found-key,
}
use ngy_coding_agent.Store.History.{
  Rising, Rising-snoc, replay-snoc, last-snoc, absent, at, advance, replay,
}
use ngy_coding_agent.Store.Append.{recorded}
use ngy_coding_agent.Store.Codec.Roundtrip.{IsStored}
use ngy_coding_agent.Store.Tasks.Events.{set_last_event, max_rowid}
use ngy_coding_agent.Store.Invariant.{IsCurrent, Decodes, HasKeys, IsWellFormed, sources}

pub sources-update :
    (p : TaskRow → Bool) (f : TaskRow → TaskRow) (ts : List TaskRow)
    → ((t : TaskRow) → (f t).retry_of ≡ t.retry_of)
    → sources (update_where p f ts) ≡ sources ts
unfolding update_where
sources-update p f [] same = refl
sources-update p f (t ∷ ts) same = ground (arith, same t, sources-update p f ts same)

-- All but the task `i` are current: `i` has just been changed or added.
pub record IsPending (db : Db) (i : ℕ) : Type 0 where
  pub keys : HasKeys db
  pub open keys use *
  pub others : All (λ t. t.id ≢ i → IsCurrent db.task_events t) db.tasks
  pub known :
      (j : ℕ) → j ≢ i → find_where (same_id j) db.tasks ≡ none → replay j db.task_events ≡ absent

-- An UPDATE of the row `i` that keeps its keys.
module _ (f : TaskRow → TaskRow) (same_id' : (t : TaskRow) → (f t).id ≡ t.id)
    (same_request : (t : TaskRow) → (f t).client_request_id ≡ t.client_request_id)
    (same_source : (t : TaskRow) → (f t).retry_of ≡ t.retry_of) where
  pub update-HasKeys :
      (db : Db) (i : ℕ)
      → HasKeys db
      → HasKeys (record db { tasks = update_where (same_id i) f db.tasks })
  update-HasKeys db i h = record {
    ids = rw (map-update (λ t. t.id) (same_id i) f db.tasks same_id') h.ids;
    requests =
        rw (map-update (λ t. t.client_request_id) (same_id i) f db.tasks same_request) h.requests;
    retried = rw (sources-update (same_id i) f db.tasks same_source) h.retried;
    rising = h.rising;
    decodes = h.decodes;
    room = h.room;
    readable = h.readable;
  }

  pub update-IsPending :
      (db : Db) (i : ℕ)
      → IsWellFormed db
      → IsPending (record db { tasks = update_where (same_id i) f db.tasks }) i
  update-IsPending db i w = record {
    keys = update-HasKeys db i w.keys;
    others =
        All-update (λ t. t.id) (IsCurrent db.task_events)
          (λ t. t.id ≢ i → IsCurrent db.task_events t) i f db.tasks
          (λ t c here away. absurd (away (same_id' t ∙ here))) (λ t c away _. c) w.current;
    known = λ j n h. w.known j (find-update_none (λ t. t.id) i j f db.tasks same_id' h);
  }

module _ (db : Db) (i : ℕ) (e : EventRow) {row : TaskRow} (pending : IsPending db i)
    (found : find_where (same_id i) db.tasks ≡ some row) (own : e.task_id ≡ i)
    (new : e.id ≡ suc db.sequence) (decoded : Decodes e) (free : db.sequence < max_rowid)
    (stored : IsStored (set_last_event (suc db.sequence) row))
    (moved : advance (replay i db.task_events) e.kind ≡ at row.status) where
  abbrev log : List EventRow
  log = db.task_events ++ e ∷ []

  abbrev row' : TaskRow
  row' = set_last_event (suc db.sequence) row

  recorded_row : IsCurrent log row'
  unfolding set_last_event
  recorded_row =
      let k = found-key (λ t. t.id) i db.tasks found in
      record {
        stored = stored;
        status = ground (arith, k, replay-snoc row.id e absent db.task_events);
        last = ground (arith, k, last-snoc row.id e 0 db.task_events);
      }

  other_row : (t : TaskRow) → t.id ≢ i → IsCurrent db.task_events t → IsCurrent log t
  other_row t away c = record {
    stored = c.stored;
    status = ground (arith, c.status, replay-snoc t.id e absent db.task_events);
    last = ground (arith, c.last, last-snoc t.id e 0 db.task_events);
  }

  known_absent : (j : ℕ) → find_where (same_id j) db.tasks ≡ none → replay j log ≡ absent
  known_absent j h =
      let away : j ≢ i = λ k. cc (k, h, found) in
      ground (arith, away, pending.known j away h, replay-snoc j e absent db.task_events)

  -- The invariant holds again once the event of the pending task is recorded.
  pub record-IsWellFormed :
      IsWellFormed
        (recorded db (update_where (same_id i) (set_last_event (suc db.sequence)) db.tasks) e)
  unfolding set_last_event
  record-IsWellFormed =
      let f = set_last_event (suc db.sequence) in
      let base = update-HasKeys f (λ t. refl) (λ t. refl) (λ t. refl) db i pending.keys in
      record {
        keys = record {
          ids = base.ids;
          requests = base.requests;
          retried = base.retried;
          rising =
              subst (λ hi. Rising 0 hi log) new
                (Rising-snoc 0 db.sequence db.task_events e base.rising (omega arith));
          decodes = All-append Decodes db.task_events (e ∷ []) base.decodes (decoded, tt);
          room = omega arith;
          readable = base.readable;
        };
        current =
            All-update (λ t. t.id)
              (λ t. (t.id ≢ i → IsCurrent db.task_events t) × (t.id ≡ i → t ≡ row)) (IsCurrent log)
              i f db.tasks (λ t p k. subst (λ r. IsCurrent log (f r)) (sym (p.1 k)) recorded_row)
              (λ t p away. other_row t away (p.0 away))
              (All-and (λ t. t.id ≢ i → IsCurrent db.task_events t) (λ t. t.id ≡ i → t ≡ row)
                db.tasks pending.others (All-found (λ t. t.id) i db.tasks found base_ids));
        known = λ j h. known_absent j (find-update_none (λ t. t.id) i j f db.tasks (λ t. refl) h);
      }
    where
      base_ids : Distinct (map (λ t. t.id) db.tasks)
      base_ids = pending.keys.ids
