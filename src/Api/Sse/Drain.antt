-- ===== src/Api/Sse/Drain.antt =====
-- What a drain of the live events keeps in crates/coding-agent-api/src/sse.rs.
use ngy_coding_agent.Base.{ℕ, zero, suc, ◌≡◌, refl, subst, Option, none, some, List, if_both, arith}
use ngy_coding_agent.Domain.Event.{TaskEvent}
use ngy_coding_agent.Api.Sse.{
  Stream, Poll, event, lagged, pending, ended, LiveDrain, Drained, buffer_event, drain_event,
  drain_poll, drain_from, drain_ready_live, next, ready_live_batch_size, true,
}

-- What holds whatever is polled, and whatever goes into the buffer.
pub record IsKept (P : Stream → Type 0) : Type 0 where
  pub live : (s : Stream) (l : List Poll) → P s → P (record s { live = l })
  pub closed : (s : Stream) → P s → P (record s { live_closed = true })
  pub buffer : (e : TaskEvent) (s t : Stream) → P s → buffer_event e s ≡ some t → P t

some_drain : {d d' : LiveDrain} {s t : Stream} → Path Drained (some (d, s)) (some (d', t)) → s ≡ t
some_drain h = cc

module _ (P : Stream → Type 0) (k : IsKept P) where
  -- Every state that a drain ends in.
  abbrev Drains : Drained → Type 0
  Drains o = (d : LiveDrain) (s : Stream) → o ≡ some (d, s) → P s

  some-Drains : (d : LiveDrain) (s : Stream) → P s → Drains (some (d, s))
  some-Drains d s b e t h = subst P (some_drain h) b

  none-Drains : Drains none
  none-Drains d s h = ground arith

  drain_event-Drains :
      (o : Option Stream) (rest : Stream → Drained)
      → ((s : Stream) → o ≡ some s → P s)
      → ((s : Stream) → P s → Drains (rest s))
      → Drains (drain_event o rest)
  unfolding drain_event
  drain_event-Drains none rest b h = none-Drains
  drain_event-Drains (some s) rest b h = h s (b s refl)

  drain_poll-Drains :
      (p : Poll) (count : ℕ) (s : Stream) (rest : ℕ → Stream → Drained)
      → P s
      → ((n : ℕ) (t : Stream) → P t → Drains (rest n t))
      → Drains (drain_poll p count s rest)
  unfolding drain_poll
  drain_poll-Drains (event e) count s rest b h =
      drain_event-Drains (buffer_event e s) (rest count) (λ t q. k.buffer e s t b q) (h count)
  drain_poll-Drains lagged count s rest b h = h (suc count) s b
  drain_poll-Drains pending count s rest b h = some-Drains _ s b
  drain_poll-Drains ended count s rest b h =
      some-Drains _ (record s { live_closed = true }) (k.closed s b)

  drain_from-Drains : (n count : ℕ) (s : Stream) → P s → Drains (drain_from n count s)
  unfolding drain_from
  drain_from-Drains zero count s b = some-Drains _ s b
  drain_from-Drains (suc n) count s b = if_both Drains s.live_closed (some-Drains _ s b) (
      drain_poll-Drains (next s.live).0 count (record s { live = (next s.live).1 }) (drain_from n)
        (k.live s (next s.live).1 b) (λ m t q. drain_from-Drains n m t q))

  pub drain_ready_live-keeps :
      (s : Stream) (d : LiveDrain) (after : Stream)
      → P s
      → drain_ready_live s ≡ some (d, after)
      → P after
  unfolding drain_ready_live
  drain_ready_live-keeps s d after b h = drain_from-Drains ready_live_batch_size 0 s b d after h
