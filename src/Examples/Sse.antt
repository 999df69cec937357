-- ===== src/Examples/Sse.antt =====
-- The theorems on the stream of events at concrete inputs.
use ngy_coding_agent.Base.{
  ℕ, zero, suc, ◌≡◌, ◌≤◌, refl, some, List, [], ◌∷◌, Result, ok, err, true, false, Bool, arith,
}
use ngy_coding_agent.Domain.Event.{TaskEvent, TaskEventPayload}
use ngy_coding_agent.Api.Sse.{
  Stream, Flow, event, lagged, replay, drain_ready_live, drain_from, drain_poll, drain_event,
  buffer_event, insert, contains_key, next,
}
use ngy_coding_agent.Api.Sse.Order.{InOrder}
use ngy_coding_agent.Api.Sse.Connect.{connect}
use ngy_coding_agent.Api.Sse.Ends.{connect-InOrder}
use ngy_coding_agent.Api.Sse.Replay.{replay-ends}
use ngy_coding_agent.Api.Sse.Buffer.{IsBuffer, drain_ready_live-IsBuffer}

abbrev event_at : ℕ → TaskEvent
event_at id = record {
  id = id;
  schema_version = 1;
  task_id = 7;
  payload = TaskEventPayload.plan_updated (record { revision = 1; items = [] });
  created_at = id;
}

-- The first read answers out of order and twice.
abbrev events_between : ℕ → ℕ → ℕ → ℕ → Result ℕ (List TaskEvent)
events_between zero after high size = ok (event_at 3 ∷ event_at 2 ∷ event_at 3 ∷ [])
events_between (suc n) after high size = err 1

abbrev all_serialise : TaskEvent → Bool
all_serialise e = true

abbrev connected : Stream
connected = record {
  last = 1;
  buffered = [];
  live = event (event_at 4) ∷ lagged ∷ event (event_at 1) ∷ [];
  live_closed = false;
  reads = 0;
  frames = [];
  resets = [];
}

replay-ends_example :
    (r : Flow) × (replay all_serialise events_between 3 3 connected ≡ some r)
    × ((r.0 ≡ true) → 3 ≤ r.1.last)
replay-ends_example = replay-ends all_serialise events_between 3 3 connected (omega arith)

-- The backend of a connection, whose second read is that of a page.
abbrev latest_event_id : ℕ → Result ℕ ℕ
latest_event_id n = ok 3

abbrev pages : ℕ → ℕ → ℕ → ℕ → Result ℕ (List TaskEvent)
pages (suc zero) after high size = ok (event_at 3 ∷ event_at 2 ∷ event_at 3 ∷ [])
pages n after high size = err 1

connect-InOrder_example :
    (r : Flow) × (connect all_serialise latest_event_id pages 8 1 1 connected.live ≡ some r)
    × InOrder 1 r.1
connect-InOrder_example =
    connect-InOrder all_serialise latest_event_id pages 8 1 1 connected.live (omega arith)

connected-IsBuffer : IsBuffer connected
connected-IsBuffer = record { ascends = tt; bounded = omega arith }

abbrev after_drain : Stream
after_drain = record connected { buffered = event_at 4 ∷ []; live = [] }

drained_by :
    drain_ready_live connected ≡ some (record { lagged = 1; exhausted = false }, after_drain)
unfolding drain_ready_live drain_from drain_poll drain_event buffer_event insert contains_key next
drained_by = refl

drain_ready_live-IsBuffer_example : IsBuffer after_drain
drain_ready_live-IsBuffer_example =
    drain_ready_live-IsBuffer connected (record { lagged = 1; exhausted = false }) after_drain
      connected-IsBuffer drained_by
