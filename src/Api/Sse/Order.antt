-- ===== src/Api/Sse/Order.antt =====
-- The order of what crates/coding-agent-api/src/sse.rs sends.
use ngy_coding_agent.Base.{
  ◌∙◌, ℕ, zero, suc, ◌≤◌, ◌<◌, ◌≡◌, refl, sym, subst, inl, inr, Bool, true, false, ◌||◌, Option,
  none, some, List, [], ◌∷◌, Result, ltb, leb, if_both, Bool-cases, arith,
}
use ngy_coding_agent.Domain.Event.{TaskEvent}
use ngy_coding_agent.Api.Sse.{
  Stream, Flow, and_then, send, send_page, send_buffered, read_page, page_flow, stopped, replay,
}

-- Events, newest first, whose ids rise strictly from above `after` up to `last`.
abbrev pub Sent : ℕ → ℕ → List TaskEvent → Type 0
Sent after last [] = after ≤ last
Sent after last (e ∷ es) = (e.id ≡ last) × (before : ℕ) × (before < last) × Sent after before es

-- What was sent is in order, `last` being the newest.
abbrev pub InOrder : ℕ → Stream → Type 0
InOrder after s = Sent after s.last s.frames

abbrev Orderly : ℕ → Flow → Type 0
Orderly after r = InOrder after r.1

module _ (serialises : TaskEvent → Bool) (after : ℕ) where
  pub send-InOrder :
      (e : TaskEvent) (s : Stream)
      → s.last < e.id
      → InOrder after s
      → InOrder after (send serialises e s).1
  unfolding send
  send-InOrder e s new p = if_both (Orderly after) (serialises e) (refl, s.last, new, p) p

  and_then-InOrder :
      (r : Flow) (k : Stream → Flow)
      → ((s : Stream) → InOrder after s → InOrder after (k s).1)
      → InOrder after r.1
      → InOrder after (and_then r k).1
  unfolding and_then
  and_then-InOrder (false, s) k h p = p
  and_then-InOrder (true, s) k h p = h s p

  pub new_event : (a b : ℕ) → leb a b ≡ false → b < a
  new_event a b h = ground arith

  send_page-InOrder :
      (high : ℕ) (page : List TaskEvent) (s : Stream)
      → InOrder after s
      → InOrder after (send_page serialises high page s).1
  unfolding send_page
  send_page-InOrder high [] s p = p
  send_page-InOrder high (e ∷ es) s p = elim (Bool-cases (leb e.id s.last || ltb high e.id)) [
    | inl old ↦ rw old (send_page-InOrder high es s p)
    | inr new ↦ rw new (
        and_then-InOrder (send serialises e s) (send_page serialises high es)
          (λ t q. send_page-InOrder high es t q) (send-InOrder e s (ground arith) p))
  ]

  pub send_buffered-InOrder :
      (es : List TaskEvent) (s : Stream)
      → InOrder after s
      → InOrder after (send_buffered serialises es s).1
  unfolding send_buffered
  send_buffered-InOrder [] s p = p
  send_buffered-InOrder (e ∷ es) s p = elim (Bool-cases (leb e.id s.last)) [
    | inl old ↦ rw old (send_buffered-InOrder es s p)
    | inr new ↦ rw new (
        and_then-InOrder (send serialises e s) (send_buffered serialises es)
          (λ t q. send_buffered-InOrder es t q) (send-InOrder e s (new_event e.id s.last new) p))
  ]

  module _ {E : Type 0} (events_between : ℕ → ℕ → ℕ → ℕ → Result E (List TaskEvent)) where
    page_flow-InOrder :
        (high : ℕ) (page : Option (List TaskEvent)) (s : Stream)
        → InOrder after s
        → InOrder after (page_flow serialises events_between high page s).1
    unfolding page_flow
    page_flow-InOrder high none s p = p
    page_flow-InOrder high (some page) s p = send_page-InOrder high page _ p

    again_only :
        (fuel high : ℕ) (s : Stream)
        → ltb s.last high ≡ true
        → stopped serialises events_between s.last (
            page_flow serialises events_between high (read_page serialises events_between high s) s)
          ≡ false
        → replay serialises events_between (suc fuel) high s
          ≡ replay serialises events_between fuel high
              (page_flow serialises events_between high
                (read_page serialises events_between high s)
                s).1
    unfolding replay
    again_only fuel high s short more = rw (short, more) refl

    -- A replay keeps the order, whatever the backend answers.
    pub replay-InOrder :
        (fuel high : ℕ) (s : Stream)
        → InOrder after s
        → (r : Flow) → replay serialises events_between fuel high s ≡ some r
        → InOrder after r.1
    unfolding replay
    replay-InOrder zero high s p r h = cc
    replay-InOrder (suc fuel) high s p r h =
        let page =
          page_flow serialises events_between high (read_page serialises events_between high s) s in
        let one = page_flow-InOrder high (read_page serialises events_between high s) s p in
        elim (Bool-cases (ltb s.last high)) [
          | inr reached ↦
              let same : Path Flow (true, s) r = ground (arith, reached) in
              subst (Orderly after) same p
          | inl short ↦ elim (Bool-cases (stopped serialises events_between s.last page)) [
            | inl over ↦
                let same : Path Flow (false, page.1) r = ground (arith, short, over) in
                subst (Orderly after) same one
            | inr more ↦
                replay-InOrder fuel high page.1 one r (sym (again_only fuel high s short more) ∙ h)
          ]
        ]
