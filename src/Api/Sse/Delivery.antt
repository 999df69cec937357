-- ===== src/Api/Sse/Delivery.antt =====
-- What a whole connection of crates/coding-agent-api/src/sse.rs delivers.
use ngy_coding_agent.Base.{
  not, ◌&&◌, leb, length, ℕ, zero, suc, ◌+◌, ◌-◌, ◌≡◌, refl, subst, inl, inr, Bool, true, false,
  Option, none, some, List, [], Result, ok, err, ltb, ltb→lt, if_both, arith, Bool-cases,
}
use ngy_coding_agent.Domain.Event.{TaskEvent}
use ngy_coding_agent.Api.Sse.{
  insert, contains_key, max_buffered_live_events, Stream, Flow, Poll, event, lagged, pending, ended,
  Drained, LiveDrain, drain_ready_live, buffer_event, flush_buffered, live_event, retain, next,
}
use ngy_coding_agent.Api.Sse.Drain.{IsKept, drain_ready_live-keeps}
use ngy_coding_agent.Api.Sse.Order.{InOrder, send-InOrder, send_buffered-InOrder, replay-InOrder}
use ngy_coding_agent.Api.Sse.Connect.{
  reset, opened, replay_to, read_latest, continue, drained, catch_up, live_step, live_loop, connect,
  refills,
}

module _ (after : ℕ) where
  -- The state of a stream, if there is one.
  abbrev Ordered : Option Flow → Type 0
  Ordered o = (r : Flow) → o ≡ some r → InOrder after r.1

  some_flow : {r t : Flow} → Path (Option Flow) (some r) (some t) → r ≡ t
  some_flow h = cc

  some-Ordered : (r : Flow) → InOrder after r.1 → Ordered (some r)
  some-Ordered r p t h = subst (λ x. InOrder after x.1) (some_flow h) p

  none-Ordered : Ordered none
  none-Ordered r h = ground arith

  -- The same of a stream alone.
  abbrev Buffered : Option Stream → Type 0
  Buffered o = (t : Stream) → o ≡ some t → InOrder after t

  some_stream : {s t : Stream} → Path (Option Stream) (some s) (some t) → s ≡ t
  some_stream h = cc

  some-Buffered : (s : Stream) → InOrder after s → Buffered (some s)
  some-Buffered s p t h = subst (InOrder after) (some_stream h) p

  none-Buffered : Buffered none
  none-Buffered t h = ground arith

  buffer_event-InOrder :
      (e : TaskEvent) (s : Stream) → InOrder after s → Buffered (buffer_event e s)
  unfolding buffer_event
  buffer_event-InOrder e s p =
      if_both Buffered (ltb s.last e.id)
        (if_both Buffered
          (not (contains_key e.id s.buffered) && leb max_buffered_live_events (length s.buffered))
          none-Buffered (some-Buffered (record s { buffered = insert e s.buffered }) p))
        (some-Buffered s p)

  kept : IsKept (InOrder after)
  kept = record {
    live = λ s l p. p;
    closed = λ s p. p;
    buffer = λ e s t p h. buffer_event-InOrder e s p t h;
  }

  drain-InOrder :
      (s : Stream)
      → InOrder after s
      → (d : LiveDrain) (t : Stream) → drain_ready_live s ≡ some (d, t)
      → InOrder after t
  drain-InOrder s p d t h = drain_ready_live-keeps (InOrder after) kept s d t p h

  module _ (serialises : TaskEvent → Bool) where
    live_event-Ordered :
        (e : TaskEvent) (s : Stream) → InOrder after s → Ordered (some (live_event serialises e s))
    unfolding live_event
    live_event-Ordered e s p = some-Ordered _ (elim (Bool-cases (ltb s.last e.id)) [
      | inl new ↦ rw new (send-InOrder serialises after e s (ltb→lt s.last e.id new) p)
      | inr old ↦ rw old p
    ])

    module _ {E : Type 0} (latest_event_id : ℕ → Result E ℕ)
        (events_between : ℕ → ℕ → ℕ → ℕ → Result E (List TaskEvent)) where
      replay_to-Ordered :
          (high : Result E ℕ) (s : Stream)
          → InOrder after s
          → Ordered (replay_to serialises latest_event_id events_between high s)
      unfolding replay_to reset
      replay_to-Ordered (err e) s p = some-Ordered (false, s) p
      replay_to-Ordered (ok high) s p =
          if_both Ordered (ltb high s.last) (some-Ordered (reset high s) p)
            (replay-InOrder serialises after events_between (suc (high - s.last)) high s p)

      continue-Ordered :
          (o : Option Flow) (k : Stream → Option Flow)
          → Ordered o
          → ((s : Stream) → InOrder after s → Ordered (k s))
          → Ordered (continue serialises latest_event_id events_between o k)
      unfolding continue
      continue-Ordered none k p h = none-Ordered
      continue-Ordered (some (false, s)) k p h = p
      continue-Ordered (some (true, s)) k p h = h s (p (true, s) refl)

      drained-Ordered :
          (o : Drained) (s : Stream) (k : ℕ → Stream → Option Flow)
          → InOrder after s
          → ((d : LiveDrain) (t : Stream) → o ≡ some (d, t) → InOrder after t)
          → ((n : ℕ) (t : Stream) → InOrder after t → Ordered (k n t))
          → Ordered (drained serialises latest_event_id events_between o s k)
      unfolding drained
      drained-Ordered none s k p q h = some-Ordered (false, s) p
      drained-Ordered (some (d, t)) s k p q h = h (refills d) t (q d t refl)

      catch_up-Ordered :
          (rounds pending_refills : ℕ) (s : Stream)
          → InOrder after s
          → Ordered (catch_up serialises latest_event_id events_between rounds pending_refills s)
      unfolding catch_up read_latest flush_buffered retain
      catch_up-Ordered zero pending_refills s p = none-Ordered
      catch_up-Ordered (suc rounds) zero s p =
          some-Ordered _
            (send_buffered-InOrder serialises after s.buffered (record s { buffered = [] }) p)
      catch_up-Ordered (suc rounds) (suc pending_refills) s p =
          continue-Ordered _ _
            (replay_to-Ordered (latest_event_id s.reads) (record s { reads = suc s.reads }) p)
            (λ t q.
              drained-Ordered _ t _ q (drain-InOrder (retain serialises events_between t) q)
                (λ more u r. catch_up-Ordered rounds (pending_refills + more) u r))

      live_step-Ordered :
          (rounds : ℕ) (poll : Poll) (s : Stream)
          → InOrder after s
          → Ordered (live_step serialises latest_event_id events_between rounds poll s)
      unfolding live_step
      live_step-Ordered rounds (event e) s p = live_event-Ordered e s p
      live_step-Ordered rounds lagged s p =
          let cleared : Stream = record s { buffered = [] } in
          drained-Ordered _ cleared _ p (drain-InOrder cleared p)
            (λ more u r. catch_up-Ordered rounds (1 + more) u r)
      live_step-Ordered rounds pending s p = some-Ordered (true, s) p
      live_step-Ordered rounds ended s p = some-Ordered (true, record s { live_closed = true }) p

      live_loop-Ordered :
          (rounds n : ℕ) (s : Stream)
          → InOrder after s
          → Ordered (live_loop serialises latest_event_id events_between rounds n s)
      unfolding live_loop
      live_loop-Ordered rounds zero s p = some-Ordered (true, s) p
      live_loop-Ordered rounds (suc n) s p =
          if_both Ordered s.live_closed (some-Ordered (true, s) p) (
            continue-Ordered _ _
              (live_step-Ordered rounds (next s.live).0 (record s { live = (next s.live).1 }) p)
              (λ t q. live_loop-Ordered rounds n t q))

      -- Every state that a connection reaches.
      pub connect-Ordered :
          (rounds n : ℕ) (live : List Poll) (r : Flow)
          → connect serialises latest_event_id events_between rounds n after live ≡ some r
          → InOrder after r.1
      unfolding connect opened read_latest
      connect-Ordered rounds n live r h =
          continue-Ordered _ _
            (continue-Ordered _ _
              (replay_to-Ordered (latest_event_id 0) (record (opened after live) { reads = 1 })
                (omega arith))
              (λ s q.
                drained-Ordered _ s _ q (drain-InOrder s q)
                  (λ more u p. catch_up-Ordered rounds more u p)))
            (λ t q. live_loop-Ordered rounds n t q) r h
