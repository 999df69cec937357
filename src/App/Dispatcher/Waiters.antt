-- ===== src/App/Dispatcher/Waiters.antt =====
-- The waiters of crates/coding-agent-app/src/event_dispatcher.rs: who is still to be answered.
use ngy_coding_agent.Base.{
  ℕ, zero, suc, ◌<◌, List, [], ◌∷◌, Option, none, some, ok, err, Result, All, All-append, Bool,
  true, arith, leb, Bool-cases, inl, inr, ◌||◌, ◌==◌,
}
use ngy_coding_agent.Domain.Value.{event_cursor}
use ngy_coding_agent.Domain.Event.{TaskEvent}
use ngy_coding_agent.Store.Schema.{Db, StoreError}
use ngy_coding_agent.Store.Projection.{EventPage, ReadEnv, events_after}
use ngy_coding_agent.App.Dispatcher.{
  Dispatcher, FlushWaiter, pending, complete_waiters, fail_waiters, publish_event, publish_page,
  publish_available, Published, or_stop, page_or_stop, finish, sorted, event_page_size, report,
  Input, command, disconnected, woken, flush, close, run_round, wait_flush,
}

-- Every waiter waits for an event above the cursor.
abbrev pub IsWaiting : Dispatcher → Type 0
IsWaiting d = All (λ w. d.cursor < w.target) d.waiters

pending-lt : (c : ℕ) (ws : List FlushWaiter) → All (λ w. c < w.target) (pending c ws)
unfolding pending
pending-lt c [] = tt
pending-lt c (w ∷ ws) = elim (Bool-cases (leb w.target c)) [
  | inl e ↦ rw e (pending-lt c ws)
  | inr e ↦ rw e (ground arith, pending-lt c ws)
]

publish_event-IsWaiting :
    (e : TaskEvent) (d : Dispatcher) → IsWaiting d → IsWaiting (publish_event e d).1
unfolding publish_event event_cursor complete_waiters
publish_event-IsWaiting e d h = elim (Bool-cases (leb e.id d.cursor)) [
  | inl old ↦ rw old h
  | inr new ↦ rw new (pending-lt e.id d.waiters)
]

or_stop-IsWaiting :
    (one rest : Published) → IsWaiting one.1 → IsWaiting rest.1 → IsWaiting (or_stop one rest).1
or_stop-IsWaiting (ok u, d) rest h k = k
or_stop-IsWaiting (err e, d) rest h k = h

publish_page-IsWaiting :
    (es : List TaskEvent) (d : Dispatcher) → IsWaiting d → IsWaiting (publish_page es d).1
unfolding publish_page
publish_page-IsWaiting [] d h = h
publish_page-IsWaiting (e ∷ es) d h =
    let one = publish_event-IsWaiting e d h in
    or_stop-IsWaiting (publish_event e d) _ one (publish_page-IsWaiting es _ one)

abbrev OnPublished : Option Published → Type 0
OnPublished none = Unit {0}
OnPublished (some r) = IsWaiting r.1

finish-IsWaiting :
    (before high : ℕ) (page : Published) (again : Option Published)
    → IsWaiting page.1
    → OnPublished again
    → OnPublished (finish before high page again)
finish-IsWaiting before high (err e, d) again h k = h
finish-IsWaiting before high (ok u, d) again h k =
    elim (Bool-cases (leb high d.cursor || d.cursor == before)) [
      | inl stop ↦ rw stop h
      | inr go ↦ rw go k
    ]

page_or_stop-IsWaiting :
    (read : Result StoreError EventPage) (d : Dispatcher) (page : Published)
    (again : Option Published)
    → IsWaiting d
    → IsWaiting page.1
    → OnPublished again
    → OnPublished (page_or_stop read d page again)
page_or_stop-IsWaiting (err e) d page again h j k = h
page_or_stop-IsWaiting (ok p) d page again h j k =
    finish-IsWaiting d.cursor p.high_watermark page again j k

publish_available-IsWaiting :
    (fuel : ℕ) (reads : ℕ → ReadEnv) (db : Db) (d : Dispatcher)
    → IsWaiting d
    → OnPublished (publish_available fuel reads db d)
unfolding publish_available
publish_available-IsWaiting zero reads db d h = tt
publish_available-IsWaiting (suc fuel) reads db d h =
    let page =
      publish_page-IsWaiting (sorted (events_after (reads 0) d.cursor event_page_size db)) d h in
    page_or_stop-IsWaiting _ d _ _ h page
      (publish_available-IsWaiting fuel (λ n. reads (suc n)) db _ page)

abbrev OnDispatcher : Option Dispatcher → Type 0
OnDispatcher none = Unit {0}
OnDispatcher (some d) = IsWaiting d

report-IsWaiting : (r : Option Published) → OnPublished r → OnDispatcher (report r)
unfolding report fail_waiters
report-IsWaiting none h = tt
report-IsWaiting (some (ok u, d)) h = h
report-IsWaiting (some (err e, d)) h = tt

-- The state that a round leaves, if it ends.
abbrev pub OnRound : Option (Bool × Dispatcher) → Type 0
OnRound none = Unit {0}
OnRound (some (go, d)) = IsWaiting d

going :
    (r : Option Dispatcher)
    → OnDispatcher r
    → OnRound (elim r [ none ↦ none | some d' ↦ some (true, d') ])
going none h = tt
going (some d) h = h

-- If every waiter of the dispatcher waits for an event above its cursor, then so it is after any
-- round that ends, whatever the input and whatever the store answers: a flush is never left
-- waiting for an event that has been published.
pub run_round-IsWaiting :
    (fuel : ℕ) (reads : ℕ → ReadEnv) (db : Db) (input : Input) (d : Dispatcher)
    → IsWaiting d
    → OnRound (run_round fuel reads db input d)
unfolding run_round fail_waiters
run_round-IsWaiting fuel reads db (command (flush target response)) d h =
    elim (Bool-cases (leb target d.cursor)) [
      | inl past ↦ rw past h
      | inr ahead ↦ rw ahead (
          going _ (
            report-IsWaiting _ (
              publish_available-IsWaiting fuel reads db (wait_flush target response d)
                (All-append (λ w. d.cursor < w.target) d.waiters _ h (ground arith, tt)))))
    ]
run_round-IsWaiting fuel reads db (command (close response)) d h = tt
run_round-IsWaiting fuel reads db disconnected d h = tt
run_round-IsWaiting fuel reads db woken d h =
    going _ (report-IsWaiting _ (publish_available-IsWaiting fuel reads db d h))
