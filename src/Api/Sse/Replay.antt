-- ===== src/Api/Sse/Replay.antt =====
-- The end of the replay of crates/coding-agent-api/src/sse.rs.
use ngy_coding_agent.Base.{
  ◌-◌, ltb→lt, ℕ, zero, suc, ◌≤◌, ◌<◌, ◌≡◌, refl, inl, inr, Bool, true, false, ◌||◌, Option, none,
  some, List, [], ◌∷◌, Result, ltb, leb, if_both, Bool-cases, arith,
}
use ngy_coding_agent.Domain.Event.{TaskEvent}
use ngy_coding_agent.Api.Sse.{
  Stream, Flow, and_then, send, send_page, read_page, page_flow, stopped, replay,
}

nothing_below : (n : ℕ) → n < 0 → ⊥
nothing_below n h = omega (arith, h)

closer :
    (high last last' fuel : ℕ)
    → last < high
    → last < last'
    → high - last < suc fuel
    → high - last' < fuel
closer high last last' fuel p q r = omega (arith, p, q, r)

module _ (serialises : TaskEvent → Bool) where
  send_forward :
      (e : TaskEvent) (s : Stream) → s.last < e.id → s.last ≤ (send serialises e s).1.last
  unfolding send
  send_forward e s new =
      if_both {A = Flow} (λ r. s.last ≤ r.1.last) (serialises e) (omega (arith, new)) (omega arith)

  and_then-forward :
      (from : ℕ) (r : Flow) (k : Stream → Flow)
      → ((s : Stream) → s.last ≤ (k s).1.last)
      → from ≤ r.1.last
      → from ≤ (and_then r k).1.last
  unfolding and_then
  and_then-forward from (false, s) k h p = p
  and_then-forward from (true, s) k h p = omega (arith, h s, p)

  send_page-forward :
      (high : ℕ) (page : List TaskEvent) (s : Stream)
      → s.last ≤ (send_page serialises high page s).1.last
  unfolding send_page
  send_page-forward high [] s = omega arith
  send_page-forward high (e ∷ es) s = elim (Bool-cases (leb e.id s.last || ltb high e.id)) [
    | inl old ↦ rw old (send_page-forward high es s)
    | inr new ↦ rw new (
        and_then-forward s.last (send serialises e s) (send_page serialises high es)
          (send_page-forward high es) (send_forward e s (ground arith)))
  ]

  module _ {E : Type 0} (events_between : ℕ → ℕ → ℕ → ℕ → Result E (List TaskEvent)) where
    page-forward :
        (high : ℕ) (page : Option (List TaskEvent)) (s : Stream)
        → s.last ≤ (page_flow serialises events_between high page s).1.last
    unfolding page_flow
    page-forward high none s = omega arith
    page-forward high (some page) s = send_page-forward high page (record s { reads = suc s.reads })

    progress :
        (before : ℕ) (r : Flow)
        → before ≤ r.1.last
        → stopped serialises events_between before r ≡ false
        → before < r.1.last
    unfolding stopped
    progress before r p h = ground arith

    -- Whatever the backend answers, the replay ends when the fuel exceeds the number of ids that
    -- are left, and when it does not end the stream it has reached the id it was to reach.
    pub replay-ends :
        (fuel high : ℕ) (s : Stream)
        → high - s.last < fuel
        → (r : Flow) × (replay serialises events_between fuel high s ≡ some r)
          × ((r.0 ≡ true) → high ≤ r.1.last)
    unfolding replay
    replay-ends zero high s enough = absurd (nothing_below _ enough)
    replay-ends (suc fuel) high s enough =
        let read = read_page serialises events_between high s in
        let page = page_flow serialises events_between high read s in
        elim (Bool-cases (ltb s.last high)) [
          | inr reached ↦ rw reached ((true, s), refl, λ h. ground arith)
          | inl short ↦
              rw short (elim (Bool-cases (stopped serialises events_between s.last page)) [
                | inl over ↦ rw over ((false, page.1), refl, λ h. ground arith)
                | inr more ↦ rw more (
                    replay-ends fuel high page.1 (
                      closer high s.last page.1.last fuel (ltb→lt s.last high short)
                        (progress s.last page (page-forward high read s) more) enough))
              ])
        ]
