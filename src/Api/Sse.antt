-- ===== src/Api/Sse.antt =====
-- crates/coding-agent-api/src/sse.rs: the replay of recorded events to a client and the live events
-- after it. Ids are not negative. A read of the backend is an argument, by its number; so are what
-- the live stream answers when it is polled, and which events can be serialised.
pub mod Order
pub mod Drain
pub mod Replay
pub mod Connect
pub mod Delivery
pub mod Buffer
pub mod Work
pub mod Unpolled
pub mod Ends
use ngy_coding_agent.Base.{
  ℕ, zero, suc, ◌+◌, Bool, true, false, not, ◌&&◌, ◌||◌, Option, none, some, List, [], ◌∷◌, Result,
  ok, err, ltb, leb, ◌==◌, if◌then◌else◌, sort_by, length,
}
use ngy_coding_agent.Domain.Event.{TaskEvent}
use ngy_coding_agent.Store.Schema.{select_where}

abbrev pub page_size : ℕ
page_size = 256

abbrev pub ready_live_batch_size : ℕ
ready_live_batch_size = 256

abbrev pub max_buffered_live_events : ℕ
max_buffered_live_events = 4_096

-- What a poll of the live stream answers: `LiveEventItem`, nothing yet, or the end.
pub data Poll : Type 0 where
  event : TaskEvent → Poll
  lagged pending ended : Poll

-- A connection: the last id that was sent, the buffer of live events by rising id, the polls to
-- come, the number of the next read, and the events and the
-- resets that were sent, newest first.
pub record Stream : Type 0 where
  pub last : ℕ
  pub buffered : List TaskEvent
  pub live : List Poll
  pub live_closed : Bool
  pub reads : ℕ
  pub frames : List TaskEvent
  pub resets : List ℕ

abbrev pub by_event_id : TaskEvent → TaskEvent → Bool
by_event_id d e = leb d.id e.id

-- `dedup_by_key`: of neighbours with one id the first stays.
unfoldable pub dedup_from : TaskEvent → List TaskEvent → List TaskEvent
dedup_from e [] = e ∷ []
dedup_from e (f ∷ fs) =
    let same = dedup_from e fs in
    let next = dedup_from f fs in if f.id == e.id then same else e ∷ next

unfoldable pub dedup : List TaskEvent → List TaskEvent
unfolding dedup_from
dedup [] = []
dedup (e ∷ es) = dedup_from e es

unfoldable pub normalize_page : {E : Type 0} → Result E (List TaskEvent) → Option (List TaskEvent)
unfolding dedup
normalize_page (err e) = none
normalize_page (ok page) = some (dedup (sort_by by_event_id page))

-- Whether the stream goes on, with its state.
abbrev pub Flow : Type 0
Flow = Bool × Stream

unfoldable pub and_then : Flow → (Stream → Flow) → Flow
and_then (false, s) k = (false, s)
and_then (true, s) k = k s

-- `BTreeMap::insert`
unfoldable pub insert : TaskEvent → List TaskEvent → List TaskEvent
insert e [] = e ∷ []
insert e (f ∷ fs) =
    let rest = insert e fs in
    if ltb e.id f.id then e ∷ f ∷ fs else if e.id == f.id then e ∷ fs else f ∷ rest

unfoldable pub contains_key : ℕ → List TaskEvent → Bool
contains_key id [] = false
contains_key id (e ∷ es) = e.id == id || contains_key id es

-- `LiveDrain`
pub record LiveDrain : Type 0 where
  pub lagged : ℕ
  pub exhausted : Bool

-- The answer to `live.next()`, and the polls after it.
unfoldable pub next : List Poll → Poll × List Poll
next [] = (pending, [])
next (p ∷ ps) = (p, ps)

-- An event that is new goes into the buffer, unless that is full.
unfoldable pub buffer_event : TaskEvent → Stream → Option Stream
unfolding insert contains_key
buffer_event e s =
    if ltb s.last e.id
    then if not (contains_key e.id s.buffered) && leb max_buffered_live_events (length s.buffered)
      then none
      else some (record s { buffered = insert e s.buffered })
    else some s

abbrev pub Drained : Type 0
Drained = Option (LiveDrain × Stream)

unfoldable pub drain_event : Option Stream → (Stream → Drained) → Drained
drain_event none k = none
drain_event (some s) k = k s

-- What a poll does, with the rest of the loop.
unfoldable pub drain_poll : Poll → ℕ → Stream → (ℕ → Stream → Drained) → Drained
unfolding drain_event buffer_event
drain_poll (event e) count s rest = drain_event (buffer_event e s) (rest count)
drain_poll lagged count s rest = rest (suc count) s
drain_poll pending count s rest = some (record { lagged = count; exhausted = false }, s)
drain_poll ended count s rest =
    some (record { lagged = count; exhausted = false }, record s { live_closed = true })

-- The loop of `drain_ready_live`, with the number of rounds that are left and `lagged` so far.
unfoldable pub drain_from : ℕ → ℕ → Stream → Drained
unfolding drain_poll next
drain_from zero count s = some (record { lagged = count; exhausted = true }, s)
drain_from (suc n) count s =
    let polled =
      drain_poll (next s.live).0 count (record s { live = (next s.live).1 }) (drain_from n) in
    if s.live_closed then some (record { lagged = count; exhausted = false }, s) else polled

unfoldable pub drain_ready_live : Stream → Drained
unfolding drain_from
drain_ready_live s = drain_from ready_live_batch_size 0 s

module _ (serialises : TaskEvent → Bool) where
  -- `persisted_event`, its frame, and the new `last`.
  unfoldable pub send : TaskEvent → Stream → Flow
  send e s =
      if serialises e then (true, record s { frames = e ∷ s.frames; last = e.id }) else (false, s)

  -- The loop over a page.
  unfoldable pub send_page : ℕ → List TaskEvent → Stream → Flow
  unfolding and_then send
  send_page high [] s = (true, s)
  send_page high (e ∷ es) s =
      let sent = and_then (send e s) (send_page high es) in
      let skipped = send_page high es s in
      if leb e.id s.last || ltb high e.id then skipped else sent

  -- The loop over the buffer, which has been taken.
  unfoldable pub send_buffered : List TaskEvent → Stream → Flow
  send_buffered [] s = (true, s)
  send_buffered (e ∷ es) s =
      let sent = and_then (send e s) (send_buffered es) in
      let skipped = send_buffered es s in if leb e.id s.last then skipped else sent

  unfoldable pub flush_buffered : Stream → Flow
  unfolding send_buffered
  flush_buffered s = send_buffered s.buffered (record s { buffered = [] })

  -- A live event once the replay is done.
  unfoldable pub live_event : TaskEvent → Stream → Flow
  live_event e s = if ltb s.last e.id then send e s else (true, s)

  module _ {E : Type 0} (events_between : ℕ → ℕ → ℕ → ℕ → Result E (List TaskEvent)) where
    -- The read of a page, by the number of the read.
    unfoldable pub read_page : ℕ → Stream → Option (List TaskEvent)
    unfolding normalize_page
    read_page high s = normalize_page (events_between s.reads s.last high page_size)

    unfoldable pub page_flow : ℕ → Option (List TaskEvent) → Stream → Flow
    unfolding send_page
    page_flow high none s = (false, s)
    page_flow high (some page) s = send_page high page (record s { reads = suc s.reads })

    -- Whether a page has ended the stream, or has brought nothing that is new.
    unfoldable pub stopped : ℕ → Flow → Bool
    stopped before flow = not flow.0 || flow.1.last == before

    -- `while last < high`, on fuel: the number of pages.
    unfoldable pub replay : ℕ → ℕ → Stream → Option Flow
    unfolding read_page page_flow stopped
    replay zero high s = none
    replay (suc fuel) high s =
        let page = page_flow high (read_page high s) s in
        let again = replay fuel high page.1 in
        if not (ltb s.last high)
        then some (true, s)
        else if stopped s.last page
        then some (false, page.1)
        else again

    -- `buffered.retain(|id, _| *id > last)`
    unfoldable pub retain : Stream → Stream
    retain s = record s { buffered = select_where (λ e. ltb s.last e.id) s.buffered }
