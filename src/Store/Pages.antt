-- ===== src/Store/Pages.antt =====
-- The pages of the event log that crates/coding-agent-store/src/projection.rs reads back.
use ngy_coding_agent.Base.{
  ℕ, zero, suc, ◌<◌, ◌≤◌, ◌≡◌, refl, sym, subst, List, [], ◌∷◌, Option, some, ok, Bool, true, ◌&&◌,
  arith, ltb, leb, Bool-cases, inl, inr, map, All, take, collect, sort_by, insert_by, none,
}
use Prim.Native.Nat.{min}
use ngy_coding_agent.Domain.Value.{event_cursor, event_id}
use ngy_coding_agent.Domain.Event.{TaskEvent}
use ngy_coding_agent.Store.Schema.{Db, EventRow, select_where}
use ngy_coding_agent.Store.Codec.{event_from_record}
use ngy_coding_agent.Store.History.{Rising, max_id-Rising}
use ngy_coding_agent.Store.Tasks.Events.{max_rowid}
use ngy_coding_agent.Store.Table.{All-map}
use ngy_coding_agent.Store.Invariant.{IsWellFormed, Decodes}
use ngy_coding_agent.Store.Projection.{
  latest_event_id, by_id, of_task, in_page, limited, load_events, event_page, ReadEnv, read,
}

-- Ids rise strictly from above `lo`.
abbrev pub Ascending : ℕ → List ℕ → Type 0
Ascending lo [] = Unit {0}
Ascending lo (n ∷ ns) = (lo < n) × Ascending n ns

abbrev pub ids : List EventRow → List ℕ
ids es = map (λ e. e.id) es

pub Ascending-weaken : (lo hi : ℕ) (ns : List ℕ) → lo ≤ hi → Ascending hi ns → Ascending lo ns
Ascending-weaken lo hi [] h a = tt
Ascending-weaken lo hi (n ∷ ns) h a = (omega (arith, a.0), a.1)

pub Rising-Ascending : (lo hi : ℕ) (es : List EventRow) → Rising lo hi es → Ascending lo (ids es)
Rising-Ascending lo hi [] r = tt
Rising-Ascending lo hi (e ∷ es) r = (r.0, Rising-Ascending e.id hi es r.1)

select-Ascending :
    (p : EventRow → Bool) (lo : ℕ) (es : List EventRow)
    → Ascending lo (ids es)
    → Ascending lo (ids (select_where p es))
unfolding select_where
select-Ascending p lo [] a = tt
select-Ascending p lo (e ∷ es) a = elim (Bool-cases (p e)) [
  | inl t ↦ rw t (a.0, select-Ascending p e.id es a.1)
  | inr f ↦
      rw f (select-Ascending p lo es (Ascending-weaken lo e.id (ids es) (omega (arith, a.0)) a.1))
]

select-All :
    (Q : EventRow → Type 0) (p : EventRow → Bool) (es : List EventRow)
    → All Q es
    → All (λ e. Q e × (p e ≡ true)) (select_where p es)
unfolding select_where
select-All Q p [] a = tt
select-All Q p (e ∷ es) a = elim (Bool-cases (p e)) [
  | inl t ↦ rw t ((a.0, t), select-All Q p es a.1)
  | inr f ↦ rw f (select-All Q p es a.1)
]

insert_first :
    (e : EventRow) (es : List EventRow) → Ascending e.id (ids es) → insert_by by_id e es ≡ e ∷ es
unfolding insert_by
insert_first e [] a = refl
insert_first e (d ∷ es) a = ground (arith, a.0)

sort-Ascending : (lo : ℕ) (es : List EventRow) → Ascending lo (ids es) → sort_by by_id es ≡ es
unfolding sort_by
sort-Ascending lo [] a = refl
sort-Ascending lo (e ∷ es) a = rw (sort-Ascending e.id es a.1) (insert_first e es a.1)

take-Ascending :
    (n lo : ℕ) (es : List EventRow) → Ascending lo (ids es) → Ascending lo (ids (take n es))
take-Ascending zero lo es a = tt
take-Ascending (suc n) lo [] a = tt
take-Ascending (suc n) lo (e ∷ es) a = (a.0, take-Ascending n e.id es a.1)

take-All : (Q : EventRow → Type 0) (n : ℕ) (es : List EventRow) → All Q es → All Q (take n es)
take-All Q zero es a = tt
take-All Q (suc n) [] a = tt
take-All Q (suc n) (e ∷ es) a = (a.0, take-All Q n es a.1)

-- A row decodes to an event with its id and its task.
decoded_id :
    (r : EventRow) (e : TaskEvent)
    → event_from_record r ≡ ok e
    → (e.id ≡ r.id) × (e.task_id ≡ r.task_id)
unfolding event_from_record event_id
decoded_id r e h = ground arith

abbrev pub event_ids : List TaskEvent → List ℕ
event_ids es = map (λ e. e.id) es

collect-Decodes :
    (es : List EventRow)
    → All Decodes es
    → (events : List TaskEvent) × (collect event_from_record es ≡ ok events)
      × (event_ids events ≡ ids es)
unfolding collect
collect-Decodes [] a = ([], refl, refl)
collect-Decodes (e ∷ es) a =
    let (event, p) = a.0 in
    let (events, q, r) = collect-Decodes es a.1 in
    (event ∷ events, rw (p, q) refl, rw (r, (decoded_id e event p).0) refl)

raise_floor :
    (after lo : ℕ) (es : List EventRow)
    → Ascending lo (ids es)
    → All (λ e. after < e.id) es
    → Ascending after (ids es)
raise_floor after lo [] a h = tt
raise_floor after lo (e ∷ es) a h = (h.0, a.1)

All-unit : (es : List EventRow) → All (λ e. Unit {0}) es
All-unit [] = tt
All-unit (e ∷ es) = (tt, All-unit es)

-- The rows that a page of the task (or of all) may hold: those with an id above `after`, up to the
-- last.
abbrev pub eligible : Db → Option ℕ → ℕ → List EventRow
eligible db task_id after =
    select_where (λ e. of_task task_id e && (ltb after e.id && leb e.id db.sequence)) db.task_events

-- The database refuses no statement of a read.
pub record IsAnswered (env : ReadEnv) : Type 0 where
  pub begins : env.begin_error ≡ none
  pub latest : env.latest_error ≡ none
  pub events : env.events_error ≡ none
  pub commits : env.commit_error ≡ none

module _ (db : Db) (w : IsWellFormed db) (task_id : Option ℕ) (after limit : ℕ) where
  eligible_ascends : Ascending after (ids (eligible db task_id after))
  eligible_ascends =
      raise_floor after 0 (eligible db task_id after)
        (select-Ascending _ 0 db.task_events
          (Rising-Ascending 0 db.sequence db.task_events w.rising))
        (All-map _ (λ e. after < e.id) (eligible db task_id after) (λ e h. above e h.1)
          (select-All (λ e. Unit {0}) _ db.task_events (All-unit db.task_events)))
    where
      above :
          (e : EventRow)
          → (of_task task_id e && (ltb after e.id && leb e.id db.sequence)) ≡ true
          → after < e.id
      above e h = ground arith

  page_rows :
      limited (some (db.sequence, limit)) (
        sort_by by_id (
          select_where
            (λ e. of_task task_id e && in_page after (some (db.sequence, limit)) e)
            db.task_events))
      ≡ take (min limit max_rowid) (eligible db task_id after)
  page_rows = rw (sort-Ascending after (eligible db task_id after) eligible_ascends) refl

  -- On a well-formed store whose database answers, a page can be read: it holds the first rows, up
  -- to the limit, of the task (or of all tasks) with ids above the given one, in rising order of
  -- their ids, and says how far the log goes.
  pub event_page_lem :
      (env : ReadEnv)
      → IsAnswered env
      → (events : List TaskEvent) × (event_page env task_id after limit db
          ≡ ok (record { events = events; high_watermark = db.sequence }))
        × (event_ids events ≡ ids (take (min limit max_rowid) (eligible db task_id after)))
        × Ascending after (event_ids events)
  unfolding event_page load_events latest_event_id event_cursor read
  event_page_lem env v =
      let rows = take (min limit max_rowid) (eligible db task_id after) in
      let (events, p, q) = collect-Decodes rows (
        take-All Decodes (min limit max_rowid) (eligible db task_id after) (
          All-map _ Decodes (eligible db task_id after) (λ e h. h.0)
            (select-All Decodes _ db.task_events w.decodes))) in
      (
        events,
        rw
            (
              v.begins,
              v.latest,
              v.events,
              v.commits,
              max_id-Rising db.sequence db.task_events w.rising,
              page_rows,
              p,
            )
            refl,
        q,
        subst (Ascending after) (sym q) (
            take-Ascending (min limit max_rowid) after (eligible db task_id after)
              eligible_ascends),
      )
