-- ===== src/Api/Sse/Ends.antt =====
-- A whole connection of crates/coding-agent-api/src/sse.rs comes to its end or to the last loop.
use ngy_coding_agent.Base.{
  ℕ, zero, suc, ◌+◌, ◌*◌, ◌-◌, ◌≤◌, ◌<◌, ◌≡◌, refl, subst, Bool, true, false, Option, none, some,
  List, [], ◌∷◌, Result, ok, err, ltb, length, if_both, arith, sym,
}
use ngy_coding_agent.Domain.Event.{TaskEvent}
use ngy_coding_agent.Api.Sse.{
  Stream, Flow, Poll, event, lagged, pending, ended, Drained, flush_buffered, live_event, retain,
  next,
}
use ngy_coding_agent.Api.Sse.Order.{InOrder}
use ngy_coding_agent.Api.Sse.Replay.{replay-ends}
use ngy_coding_agent.Api.Sse.Work.{polls, Costs, drain_ready_live-Costs}
use ngy_coding_agent.Api.Sse.Unpolled.{send_buffered-Leaves, live_event-Leaves, replay-Left}
use ngy_coding_agent.Api.Sse.Connect.{
  reset, opened, replay_to, read_latest, continue, drained, catch_up, live_step, live_loop, connect,
  refills,
}
use ngy_coding_agent.Api.Sse.Delivery.{connect-Ordered}

-- There is a result, and it leaves a bounded number of polls.
abbrev Ends : ℕ → Option Flow → Type 0
Ends w o = (r : Flow) × (o ≡ some r) × (polls r.1 ≤ w)

some-Ends : (w : ℕ) (r : Flow) → polls r.1 ≤ w → Ends w (some r)
some-Ends w r p = (r, refl, p)

same_polls : (s t : Stream) → t.live ≡ s.live → polls t ≤ polls s
same_polls s t p = subst (λ l. 2 * length l ≤ polls s) (sym p) (omega arith)

weaker_Ends : (v w : ℕ) (o : Option Flow) → v ≤ w → Ends v o → Ends w o
weaker_Ends v w o p (r, h, q) = (r, h, omega (arith, p, q))

less : (a : ℕ) → a < 0 → ⊥
less a h = omega (arith, h)

module _ (serialises : TaskEvent → Bool) where
  module _ {E : Type 0} (latest_event_id : ℕ → Result E ℕ)
      (events_between : ℕ → ℕ → ℕ → ℕ → Result E (List TaskEvent)) where
    replay_to-Ends :
        (high : Result E ℕ) (s : Stream)
        → Ends (polls s) (replay_to serialises latest_event_id events_between high s)
    unfolding replay_to reset
    replay_to-Ends (err e) s = some-Ends _ (false, s) (omega arith)
    replay_to-Ends (ok high) s =
        let again =
          replay-ends serialises events_between (suc (high - s.last)) high s (omega arith) in
        if_both (Ends (polls s)) (ltb high s.last) (some-Ends _ (reset high s) (omega arith)) (
          again.0,
          again.1,
          same_polls s again.0.1 (
              replay-Left s.live serialises events_between (suc (high - s.last)) high s refl again.0
                again.1),
        )

    continue-some :
        (v w : ℕ) (r : Flow) (k : Stream → Option Flow)
        → v ≤ w
        → polls r.1 ≤ v
        → ((s : Stream) → polls s ≤ v → Ends w (k s))
        → Ends w (continue serialises latest_event_id events_between (some r) k)
    unfolding continue
    continue-some v w (false, s) k p q h = some-Ends w (false, s) (omega (arith, p, q))
    continue-some v w (true, s) k p q h = h s q

    continue-Ends :
        (v w : ℕ) (o : Option Flow) (k : Stream → Option Flow)
        → v ≤ w
        → Ends v o
        → ((s : Stream) → polls s ≤ v → Ends w (k s))
        → Ends w (continue serialises latest_event_id events_between o k)
    continue-Ends v w o k p (r, h, q) g = rw h (continue-some v w r k p q g)

    drained-Ends :
        (v w : ℕ) (o : Drained) (s : Stream) (k : ℕ → Stream → Option Flow)
        → polls s ≤ w
        → Costs v o
        → ((n : ℕ) (t : Stream) → n + polls t ≤ v → Ends w (k n t))
        → Ends w (drained serialises latest_event_id events_between o s k)
    unfolding drained
    drained-Ends v w none s k p c h = some-Ends w (false, s) p
    drained-Ends v w (some (d, t)) s k p c h = h (refills d) t (c d t refl)

    catch_up-Ends :
        (rounds pending_refills : ℕ) (s : Stream)
        → pending_refills + polls s < rounds
        → Ends
            (pending_refills + polls s)
            (catch_up serialises latest_event_id events_between rounds pending_refills s)
    unfolding catch_up read_latest flush_buffered retain
    catch_up-Ends zero pending_refills s f = absurd (less _ f)
    catch_up-Ends (suc rounds) zero s f = weaker_Ends (polls s) _ _ (omega arith) (
        some-Ends _ (flush_buffered serialises s) (
          same_polls s (flush_buffered serialises s).1
            (send_buffered-Leaves s.live serialises s.buffered (record s { buffered = [] }) refl)))
    catch_up-Ends (suc rounds) (suc more) s f =
        continue-Ends (polls s) _ _ _ (omega arith)
          (replay_to-Ends (latest_event_id s.reads) (record s { reads = suc s.reads }))
          (λ t q.
            drained-Ends (polls t) _ _ t _ (omega (arith, q))
              (drain_ready_live-Costs (retain serialises events_between t))
              (λ n u c.
                weaker_Ends (more + n + polls u) _ _ (omega (arith, q, c))
                  (catch_up-Ends rounds (more + n) u (omega (arith, f, q, c)))))

    halved : (s : Stream) (o : Option Flow) → Ends (suc (polls s)) o → Ends (polls s) o
    halved s o (r, h, q) = (r, h, omega (arith, q))

    live_step-Ends :
        (rounds : ℕ) (poll : Poll) (s : Stream)
        → suc (polls s) < rounds
        → Ends (polls s) (live_step serialises latest_event_id events_between rounds poll s)
    unfolding live_step
    live_step-Ends rounds (event e) s f =
        some-Ends _ _ (
          same_polls s (live_event serialises e s).1 (live_event-Leaves s.live serialises e s refl))
    live_step-Ends rounds lagged s f =
        let cleared : Stream = record s { buffered = [] } in
        halved s _ (
          drained-Ends (polls s) _ _ cleared _ (omega arith) (drain_ready_live-Costs cleared)
            (λ n u c.
              weaker_Ends (1 + n + polls u) _ _ (omega (arith, c))
                (catch_up-Ends rounds (1 + n) u (omega (arith, f, c)))))
    live_step-Ends rounds pending s f = some-Ends _ (true, s) (omega arith)
    live_step-Ends rounds ended s f =
        some-Ends _ (true, record s { live_closed = true }) (omega arith)

    next-polls : (l : List Poll) → 2 * length (next l).1 ≤ 2 * length l
    unfolding next
    next-polls [] = omega arith
    next-polls (p ∷ ps) = omega arith

    live_loop-Ends :
        (rounds n : ℕ) (s : Stream)
        → suc (polls s) < rounds
        → Ends (polls s) (live_loop serialises latest_event_id events_between rounds n s)
    unfolding live_loop
    live_loop-Ends rounds zero s f = some-Ends _ (true, s) (omega arith)
    live_loop-Ends rounds (suc n) s f =
        let rest : Stream = record s { live = (next s.live).1 } in
        if_both (Ends (polls s)) s.live_closed (some-Ends _ (true, s) (omega arith)) (
          weaker_Ends (polls rest) _ _ (next-polls s.live) (
            continue-Ends (polls rest) _ _ _ (omega arith)
              (live_step-Ends rounds (next s.live).0 rest (omega (arith, f, next-polls s.live)))
              (λ t q.
                weaker_Ends (polls t) _ _ q
                  (live_loop-Ends rounds n t (omega (arith, f, q, next-polls s.live))))))

    connect-Ends :
        (rounds n after : ℕ) (live : List Poll)
        → suc (2 * length live) < rounds
        → Ends
            (2 * length live)
            (connect serialises latest_event_id events_between rounds n after live)
    unfolding connect opened read_latest
    connect-Ends rounds n after live f =
        continue-Ends (2 * length live) _ _ _ (omega arith)
          (continue-Ends (2 * length live) _ _ _ (omega arith)
            (replay_to-Ends (latest_event_id 0) (record (opened after live) { reads = 1 }))
            (λ s q. drained-Ends (polls s) _ _ s _ q (drain_ready_live-Costs s) (λ m u c.
              weaker_Ends (m + polls u) _ _ (omega (arith, q, c))
                (catch_up-Ends rounds m u (omega (arith, f, q, c))))))
          (λ t q. weaker_Ends (polls t) _ _ q (live_loop-Ends rounds n t (omega (arith, f, q))))

    -- Whatever the backend answers, unsorted, repeated or out of range, and whatever the live
    -- stream does, a connection from `after` with fuel for more than two rounds for each answer of
    -- the live stream reaches a state, and the events that it has sent by then have strictly
    -- rising ids above `after`, in the replay, the refills after a lag, the buffer and live.
    pub connect-InOrder :
        (rounds n after : ℕ) (live : List Poll)
        → suc (2 * length live) < rounds
        → (r : Flow) × (connect serialises latest_event_id events_between rounds n after live
            ≡ some r)
          × InOrder after r.1
    connect-InOrder rounds n after live f =
        let ends = connect-Ends rounds n after live f in
        (
          ends.0,
          ends.1,
          connect-Ordered after serialises latest_event_id events_between rounds n live ends.0
              ends.1,
        )
