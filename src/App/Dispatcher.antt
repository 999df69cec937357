-- ===== src/App/Dispatcher.antt =====
-- crates/coding-agent-app/src/event_dispatcher.rs: the actor that publishes recorded events. A
-- response channel is the number of its requester, and what has been sent stands in the state.
pub mod Ids
pub mod Publish
pub mod Waiters
use ngy_coding_agent.Base.{
  ℕ, zero, suc, Bool, true, false, ◌||◌, Option, none, some, List, [], ◌∷◌, ◌++◌, Result, ok, err,
  leb, ◌==◌, if◌then◌else◌, map_err, map, sort_by,
}
use ngy_coding_agent.Domain.Value.{event_cursor, pos}
use ngy_coding_agent.Domain.Event.{TaskEvent}
use ngy_coding_agent.Store.Schema.{Db, StoreError, domain}
use ngy_coding_agent.Store.Projection.{EventPage, ReadEnv, events_after}

pub data EventDispatcherError : Type 0 where
  store : StoreError → EventDispatcherError
  closed : EventDispatcherError

pub record FlushWaiter : Type 0 where
  pub target : ℕ
  pub response : ℕ

-- The actor, with the events that it has broadcast and the answers that it has sent, oldest first.
pub record Dispatcher : Type 0 where
  pub cursor : ℕ
  pub waiters : List FlushWaiter
  pub events : List TaskEvent
  pub responses : List (ℕ × Result EventDispatcherError (Unit {0}))

unfoldable pub reached : ℕ → List FlushWaiter → List FlushWaiter
reached cursor [] = []
reached cursor (w ∷ ws) =
    let rest = reached cursor ws in if leb w.target cursor then w ∷ rest else rest

unfoldable pub pending : ℕ → List FlushWaiter → List FlushWaiter
pending cursor [] = []
pending cursor (w ∷ ws) =
    let rest = pending cursor ws in if leb w.target cursor then rest else w ∷ rest

-- `complete_waiters`
unfoldable pub complete_waiters : ℕ → Dispatcher → Dispatcher
unfolding reached pending
complete_waiters cursor d = record d {
  waiters = pending cursor d.waiters;
  responses = d.responses ++ map (λ w. (w.response, ok tt)) (reached cursor d.waiters);
}

unfoldable pub fail_waiters : EventDispatcherError → Dispatcher → Dispatcher
fail_waiters error d = record d {
  waiters = [];
  responses = d.responses ++ map (λ w. (w.response, err error)) d.waiters;
}

abbrev pub Published : Type 0
Published = Result StoreError (Unit {0}) × Dispatcher

abbrev pub send_event : Result StoreError ℕ → TaskEvent → Dispatcher → Published
send_event (err e) event d = (err e, d)
send_event (ok cursor) event d =
    (ok tt, complete_waiters cursor (record d { cursor = cursor; events = d.events ++ event ∷ [] }))

-- One round of the loop over a page.
unfoldable pub publish_event : TaskEvent → Dispatcher → Published
publish_event event d =
    if leb event.id d.cursor
    then (ok tt, d)
    else send_event (map_err domain (event_cursor (pos event.id))) event d

abbrev pub or_stop : Published → Published → Published
or_stop (err e, d) rest = (err e, d)
or_stop (ok u, d) rest = rest

unfoldable pub publish_page : List TaskEvent → Dispatcher → Published
unfolding publish_event
publish_page [] d = (ok tt, d)
publish_page (e ∷ es) d =
    let one = publish_event e d in let rest = publish_page es one.1 in or_stop one rest

abbrev pub event_page_size : ℕ
event_page_size = 256

abbrev pub by_event_id : TaskEvent → TaskEvent → Bool
by_event_id d e = leb d.id e.id

-- Whether the loop ends after a page.
abbrev pub finish : ℕ → ℕ → Published → Option Published → Option Published
finish before high (err e, d) again = some (err e, d)
finish before high (ok u, d) again =
    if leb high d.cursor || d.cursor == before then some (ok u, d) else again

abbrev pub sorted : Result StoreError EventPage → List TaskEvent
sorted (err e) = []
sorted (ok page) = sort_by by_event_id page.events

abbrev pub page_or_stop :
    Result StoreError EventPage → Dispatcher → Published → Option Published → Option Published
page_or_stop (err e) d page again = some (err e, d)
page_or_stop (ok p) d page again = finish d.cursor p.high_watermark page again

-- `publish_available`, on fuel: the number of pages. What the database answers to the read of a
-- page goes by the number of the page.
unfoldable pub publish_available : ℕ → (ℕ → ReadEnv) → Db → Dispatcher → Option Published
unfolding publish_page
publish_available zero reads db d = none
publish_available (suc fuel) reads db d =
    let read = events_after (reads 0) d.cursor event_page_size db in
    let page = publish_page (sorted read) d in
    let again = publish_available fuel (λ n. reads (suc n)) db page.1 in
    page_or_stop read d page again

pub data DispatcherCommand : Type 0 where
  flush : ℕ → ℕ → DispatcherCommand
  close : ℕ → DispatcherCommand

-- What the actor waits for: a command, the end of the commands, or a wake or a tick.
pub data Input : Type 0 where
  command : DispatcherCommand → Input
  disconnected woken : Input

-- `publish_available` in the loop of the actor: a failure answers every waiter.
unfoldable pub report : Option Published → Option Dispatcher
unfolding fail_waiters
report none = none
report (some (ok u, d)) = some d
report (some (err e, d)) = some (fail_waiters (store e) d)

abbrev pub wait_flush : ℕ → ℕ → Dispatcher → Dispatcher
wait_flush target response d = record d {
  waiters = d.waiters ++ record { target = target; response = response } ∷ [];
}

-- One round of `run_dispatcher`, and whether the actor goes on.
unfoldable pub run_round : ℕ → (ℕ → ReadEnv) → Db → Input → Dispatcher → Option (Bool × Dispatcher)
unfolding report publish_available
run_round fuel reads db (command (flush target response)) d =
    if leb target d.cursor
    then some (true, record d { responses = d.responses ++ (response, ok tt) ∷ [] })
    else elim (report (publish_available fuel reads db (wait_flush target response d))) [
      | none ↦ none
      | some d' ↦ some (true, d')
    ]
run_round fuel reads db (command (close response)) d = some (
  false,
  record (fail_waiters closed d) {
    responses = (fail_waiters closed d).responses ++ (response, ok tt) ∷ [];
  },
)
run_round fuel reads db disconnected d = some (false, fail_waiters closed d)
run_round fuel reads db woken d = elim (report (publish_available fuel reads db d)) [
  | none ↦ none
  | some d' ↦ some (true, d')
]
