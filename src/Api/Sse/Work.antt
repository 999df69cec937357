-- ===== src/Api/Sse/Work.antt =====
-- How many polls and refills are left in a connection of crates/coding-agent-api/src/sse.rs.
use ngy_coding_agent.Base.{
  ℕ, zero, suc, ◌+◌, ◌*◌, ◌≤◌, ◌≡◌, refl, subst, true, not, ◌&&◌, leb, Option, none, some, List, [],
  ◌∷◌, ltb, length, if_both, arith,
}
use ngy_coding_agent.Domain.Event.{TaskEvent}
use ngy_coding_agent.Api.Sse.{
  Stream, Poll, event, lagged, pending, ended, LiveDrain, Drained, buffer_event, drain_event,
  drain_poll, drain_from, drain_ready_live, next, contains_key, insert, max_buffered_live_events,
}
use ngy_coding_agent.Api.Sse.Connect.{refills}

abbrev pub polls : Stream → ℕ
polls s = 2 * length s.live

-- What a drain leaves: its refills, and the polls to come.
abbrev pub Costs : ℕ → Drained → Type 0
Costs bound o = (d : LiveDrain) (s : Stream) → o ≡ some (d, s) → refills d + polls s ≤ bound

same_drain :
    {d d' : LiveDrain} {s t : Stream}
    → Path Drained (some (d, s)) (some (d', t))
    → Path (LiveDrain × Stream) (d, s) (d', t)
same_drain h = cc

some-Costs :
    (bound : ℕ) (d : LiveDrain) (s : Stream)
    → refills d + polls s ≤ bound
    → Costs bound (some (d, s))
some-Costs bound d s p e t h =
    subst (λ (x : LiveDrain × Stream). refills x.0 + polls x.1 ≤ bound) (same_drain h) p

none-Costs : (bound : ℕ) → Costs bound none
none-Costs bound d s h = ground arith

weaker : (a b : ℕ) (o : Drained) → a ≤ b → Costs a o → Costs b o
weaker a b o p c d s h = omega (arith, p, c d s h)

-- The events that are buffered are not polls.
abbrev Polled : List Poll → Option Stream → Type 0
Polled l o = (t : Stream) → o ≡ some t → t.live ≡ l

some_same : {s t : Stream} → Path (Option Stream) (some s) (some t) → s ≡ t
some_same h = cc

some-Polled : (l : List Poll) (s : Stream) → s.live ≡ l → Polled l (some s)
some-Polled l s p t h = subst (λ (x : Stream). x.live ≡ l) (some_same h) p

none-Polled : (l : List Poll) → Polled l none
none-Polled l t h = ground arith

buffer_event-Polled : (e : TaskEvent) (s : Stream) → Polled s.live (buffer_event e s)
unfolding buffer_event
buffer_event-Polled e s =
    if_both (Polled s.live) (ltb s.last e.id)
      (if_both (Polled s.live)
        (not (contains_key e.id s.buffered) && leb max_buffered_live_events (length s.buffered))
        (none-Polled s.live)
        (some-Polled s.live (record s { buffered = insert e s.buffered }) refl))
      (some-Polled s.live s refl)

drain_event-Costs :
    (o : Option Stream) (l : List Poll) (count : ℕ) (rest : Stream → Drained)
    → Polled l o
    → ((t : Stream) → Costs (suc (count + polls t)) (rest t))
    → Costs (suc (count + 2 * length l)) (drain_event o rest)
unfolding drain_event
drain_event-Costs none l count rest p c = none-Costs _
drain_event-Costs (some t) l count rest p c =
    subst (λ (x : List Poll). Costs (suc (count + 2 * length x)) (rest t)) (p t refl) (c t)

drain_poll-Costs :
    (p : Poll) (count : ℕ) (s : Stream) (rest : ℕ → Stream → Drained)
    → ((m : ℕ) (t : Stream) → Costs (suc (m + polls t)) (rest m t))
    → Costs (suc (suc (count + polls s))) (drain_poll p count s rest)
unfolding drain_poll refills
drain_poll-Costs (event e) count s rest c = weaker (suc (count + polls s)) _ _ (omega arith) (
    drain_event-Costs (buffer_event e s) s.live count (rest count) (buffer_event-Polled e s)
      (c count))
drain_poll-Costs lagged count s rest c =
    weaker (suc (suc count + polls s)) _ _ (omega arith) (c (suc count) s)
drain_poll-Costs pending count s rest c = some-Costs _ _ s (omega arith)
drain_poll-Costs ended count s rest c =
    some-Costs _ _ (record s { live_closed = true }) (omega arith)

next-Costs :
    (l : List Poll) (count : ℕ) (s : Stream) (rest : ℕ → Stream → Drained)
    → ((m : ℕ) (t : Stream) → Costs (suc (m + polls t)) (rest m t))
    → Costs
        (count + 2 * length l)
        (drain_poll (next l).0 count (record s { live = (next l).1 }) rest)
unfolding next drain_poll refills
next-Costs [] count s rest c = some-Costs _ _ (record s { live = [] }) (omega arith)
next-Costs (p ∷ ps) count s rest c =
    weaker (suc (suc (count + 2 * length ps))) _ _ (omega arith)
      (drain_poll-Costs p count (record s { live = ps }) rest c)

drain_round-Costs :
    (n count : ℕ) (s : Stream)
    → ((m : ℕ) (t : Stream) → Costs (suc (m + polls t)) (drain_from n m t))
    → Costs (count + polls s) (drain_from (suc n) count s)
unfolding drain_from refills
drain_round-Costs n count s c =
    if_both (Costs (count + polls s)) s.live_closed (some-Costs _ _ s (omega arith))
      (next-Costs s.live count s (drain_from n) c)

drain_from-Costs : (n count : ℕ) (s : Stream) → Costs (suc (count + polls s)) (drain_from n count s)
unfolding drain_from refills
drain_from-Costs zero count s = some-Costs _ _ s (omega arith)
drain_from-Costs (suc n) count s =
    weaker (count + polls s) _ _ (omega arith)
      (drain_round-Costs n count s (λ m t. drain_from-Costs n m t))

-- A drain asks for no more refills than it has taken polls, twice.
pub drain_ready_live-Costs : (s : Stream) → Costs (polls s) (drain_ready_live s)
unfolding drain_ready_live
drain_ready_live-Costs s =
    weaker (0 + polls s) _ _ (omega arith) (drain_round-Costs 255 0 s (drain_from-Costs 255))
