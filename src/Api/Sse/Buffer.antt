-- ===== src/Api/Sse/Buffer.antt =====
-- The buffer of live events in crates/coding-agent-api/src/sse.rs.
use ngy_coding_agent.Base.{
  ℕ, suc, ◌≤◌, ◌<◌, ◌≡◌, refl, subst, inl, inr, Bool, true, false, not, ◌&&◌, Option, none, some,
  List, [], ◌∷◌, ltb, leb, ◌==◌, if_both, Bool-cases, arith, length, All, ltb→lt, ==→eq,
}
use ngy_coding_agent.Domain.Event.{TaskEvent}
use ngy_coding_agent.Api.Sse.Drain.{IsKept, drain_ready_live-keeps}
use ngy_coding_agent.Store.Table.{All-map}
use ngy_coding_agent.Api.Sse.{
  Stream, LiveDrain, insert, contains_key, buffer_event, drain_ready_live, max_buffered_live_events,
}

-- Events by strictly rising id: the entries of a map.
abbrev pub Ascends : List TaskEvent → Type 0
Ascends [] = Unit {0}
Ascends (e ∷ es) = All (λ f. e.id < f.id) es × Ascends es

insert-All :
    (P : TaskEvent → Type 0) (e : TaskEvent) (l : List TaskEvent)
    → P e
    → All P l
    → All P (insert e l)
unfolding insert
insert-All P e [] p a = (p, tt)
insert-All P e (f ∷ fs) p a = elim (Bool-cases (ltb e.id f.id)) [
  | inl before ↦ rw before (p, a)
  | inr after ↦ rw after (if_both (All P) (e.id == f.id) (p, a.1) (a.0, insert-All P e fs p a.1))
]

after_both : (a b : ℕ) → ltb a b ≡ false → (a == b) ≡ false → b < a
after_both a b h k = ground arith

insert-Ascends : (e : TaskEvent) (l : List TaskEvent) → Ascends l → Ascends (insert e l)
unfolding insert
insert-Ascends e [] a = (tt, tt)
insert-Ascends e (f ∷ fs) a = elim (Bool-cases (ltb e.id f.id)) [
  | inl before ↦
      let low = ltb→lt e.id f.id before in
      rw before (
        (low, All-map (λ g. f.id < g.id) (λ g. e.id < g.id) fs (λ g h. omega (arith, low, h)) a.0),
        a,
      )
  | inr after ↦ rw after (elim (Bool-cases (e.id == f.id)) [
    | inl same ↦
        let e1 = ==→eq e.id f.id same in
        rw same
          (All-map (λ g. f.id < g.id) (λ g. e.id < g.id) fs (λ g h. omega (arith, e1, h)) a.0, a.1)
    | inr other ↦ rw other (
      insert-All (λ g. f.id < g.id) e fs (after_both e.id f.id after other) a.0,
      insert-Ascends e fs a.1,
    )
  ])
]

insert-length : (e : TaskEvent) (l : List TaskEvent) → length (insert e l) ≤ suc (length l)
unfolding insert
insert-length e [] = omega arith
insert-length e (f ∷ fs) = ground (arith, insert-length e fs)

-- Nothing is there under an id below all the others.
above_absent : (id : ℕ) (l : List TaskEvent) → All (λ f. id < f.id) l → contains_key id l ≡ false
unfolding contains_key
above_absent id [] a = refl
above_absent id (f ∷ fs) a = ground (arith, above_absent id fs a.1, a.0)

insert_known :
    (e : TaskEvent) (l : List TaskEvent)
    → Ascends l
    → contains_key e.id l ≡ true
    → length (insert e l) ≡ length l
unfolding insert contains_key
insert_known e [] a h = cc
insert_known e (f ∷ fs) a h = elim (Bool-cases (ltb e.id f.id)) [
  | inl before ↦
      let low = ltb→lt e.id f.id before in
      let missing =
        above_absent e.id fs
          (All-map (λ g. f.id < g.id) (λ g. e.id < g.id) fs (λ g h. omega (arith, low, h)) a.0) in
      ground (arith, missing, low)
  | inr after ↦ ground (arith, after, insert_known e fs a.1)
]

-- The buffer is a map, and within its limit.
pub record IsBuffer (s : Stream) : Type 0 where
  pub ascends : Ascends s.buffered
  pub bounded : length s.buffered ≤ max_buffered_live_events

below_limit :
    (known : Bool) (n : ℕ)
    → known ≡ false
    → (not known && leb max_buffered_live_events n) ≡ false
    → n < max_buffered_live_events
below_limit known n h k = ground arith

some_stream : {s t : Stream} → Path (Option Stream) (some s) (some t) → s ≡ t
some_stream h = cc

inserted-IsBuffer :
    (e : TaskEvent) (s : Stream)
    → (not (contains_key e.id s.buffered) && leb max_buffered_live_events (length s.buffered))
      ≡ false
    → IsBuffer s
    → IsBuffer (record s { buffered = insert e s.buffered })
inserted-IsBuffer e s room b = record {
  ascends = insert-Ascends e s.buffered b.ascends;
  bounded = elim (Bool-cases (contains_key e.id s.buffered)) [
    | inl known ↦ omega (arith, insert_known e s.buffered b.ascends known, b.bounded)
    | inr new ↦ omega (arith, insert-length e s.buffered, below_limit _ _ new room)
  ];
}

-- Every state that a result has.
abbrev Buffered : Option Stream → Type 0
Buffered o = (s : Stream) → o ≡ some s → IsBuffer s

some-Buffered : (s : Stream) → IsBuffer s → Buffered (some s)
some-Buffered s b t h = subst IsBuffer (some_stream h) b

none-Buffered : Buffered none
none-Buffered t h = ground arith

buffer_event-IsBuffer : (e : TaskEvent) (s : Stream) → IsBuffer s → Buffered (buffer_event e s)
unfolding buffer_event
buffer_event-IsBuffer e s b = elim (Bool-cases (ltb s.last e.id)) [
  | inr old ↦ rw old (some-Buffered s b)
  | inl new ↦
      rw new
        (elim (Bool-cases (
          not (contains_key e.id s.buffered) && leb max_buffered_live_events (length s.buffered))) [
            | inl full ↦ rw full none-Buffered
            | inr room ↦ rw room (some-Buffered _ (inserted-IsBuffer e s room b))
          ])
]

kept_by_drains : IsKept IsBuffer
kept_by_drains = record {
  live = λ s l b. record { ascends = b.ascends; bounded = b.bounded };
  closed = λ s b. record { ascends = b.ascends; bounded = b.bounded };
  buffer = λ e s t b h. buffer_event-IsBuffer e s b t h;
}

-- Draining live events keeps the buffer a map with strictly rising ids and at most 4096 events.
pub drain_ready_live-IsBuffer :
    (s : Stream) (d : LiveDrain) (after : Stream)
    → IsBuffer s
    → drain_ready_live s ≡ some (d, after)
    → IsBuffer after
drain_ready_live-IsBuffer s d after b h =
    drain_ready_live-keeps IsBuffer kept_by_drains s d after b h
