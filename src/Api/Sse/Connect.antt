-- ===== src/Api/Sse/Connect.antt =====
-- crates/coding-agent-api/src/sse.rs: a whole connection, without its heartbeats and service states.
-- `latest_event_id` and `events_between` are the backend, by the number of the read.
use ngy_coding_agent.Base.{
  ℕ, zero, suc, ◌+◌, ◌-◌, Bool, true, false, Option, none, some, List, [], ◌∷◌, Result, ok, err,
  ltb, if◌then◌else◌,
}
use ngy_coding_agent.Domain.Event.{TaskEvent}
use ngy_coding_agent.Api.Sse.{
  Stream, Flow, Poll, event, lagged, pending, ended, LiveDrain, Drained, drain_ready_live,
  flush_buffered, live_event, replay, retain, next,
}

-- `stream.reset`, which ends the stream.
unfoldable pub reset : ℕ → Stream → Flow
reset high s = (false, record s { resets = high ∷ s.resets })

-- `usize::from(drain.exhausted)` with the lags.
unfoldable pub refills : LiveDrain → ℕ
refills d = if d.exhausted then suc d.lagged else d.lagged

-- The events of a connection from `after`, which subscribes to the polls `live`.
unfoldable pub opened : ℕ → List Poll → Stream
opened after live = record {
  last = after;
  buffered = [];
  live = live;
  live_closed = false;
  reads = 0;
  frames = [];
  resets = [];
}

module _ (serialises : TaskEvent → Bool) where
  module _ {E : Type 0} (latest_event_id : ℕ → Result E ℕ)
      (events_between : ℕ → ℕ → ℕ → ℕ → Result E (List TaskEvent)) where
    -- The read of the newest id, and the replay up to it.
    unfoldable pub replay_to : Result E ℕ → Stream → Option Flow
    unfolding reset replay
    replay_to (err e) s = some (false, s)
    replay_to (ok high) s =
        let replayed = replay serialises events_between (suc (high - s.last)) high s in
        if ltb high s.last then some (reset high s) else replayed

    unfoldable pub read_latest : Stream → Option Flow
    unfolding replay_to
    read_latest s = replay_to (latest_event_id s.reads) (record s { reads = suc s.reads })

    -- Going on with a stream that has not ended.
    unfoldable pub continue : Option Flow → (Stream → Option Flow) → Option Flow
    continue none k = none
    continue (some (false, s)) k = some (false, s)
    continue (some (true, s)) k = k s

    -- What follows a drain of `s`, with the refills that it asks for.
    unfoldable pub drained : Drained → Stream → (ℕ → Stream → Option Flow) → Option Flow
    unfolding refills
    drained none s k = some (false, s)
    drained (some (d, t)) s k = k (refills d) t

    -- The refills that are pending, on fuel, and then the buffer.
    unfoldable pub catch_up : ℕ → ℕ → Stream → Option Flow
    unfolding continue drained read_latest drain_ready_live retain flush_buffered
    catch_up zero pending_refills s = none
    catch_up (suc rounds) zero s = some (flush_buffered serialises s)
    catch_up (suc rounds) (suc pending_refills) s = continue (read_latest s) λ t.
        drained (drain_ready_live (retain serialises events_between t)) t
          λ more u. catch_up rounds (pending_refills + more) u

    -- One answer of the live stream.
    unfoldable pub live_step : ℕ → Poll → Stream → Option Flow
    unfolding catch_up live_event
    live_step rounds (event e) s = some (live_event serialises e s)
    live_step rounds lagged s =
        let cleared : Stream = record s { buffered = [] } in
        drained (drain_ready_live cleared) cleared λ more u. catch_up rounds (1 + more) u
    live_step rounds pending s = some (true, s)
    live_step rounds ended s = some (true, record s { live_closed = true })

    -- The last loop, for a number of answers.
    unfoldable pub live_loop : ℕ → ℕ → Stream → Option Flow
    unfolding live_step next
    live_loop rounds zero s = some (true, s)
    live_loop rounds (suc n) s =
        let one = live_step rounds (next s.live).0 (record s { live = (next s.live).1 }) in
        let rest = continue one (live_loop rounds n) in
        if s.live_closed then some (true, s) else rest

    unfoldable pub connect : ℕ → ℕ → ℕ → List Poll → Option Flow
    unfolding opened live_loop
    connect rounds n after live =
        continue
          (continue (read_latest (opened after live))
            λ s. drained (drain_ready_live s) s λ more u. catch_up rounds more u)
          (live_loop rounds n)
