-- ===== src/Api/Sse/Unpolled.antt =====
-- What takes no poll of the live stream in crates/coding-agent-api/src/sse.rs.
use ngy_coding_agent.Base.{
  ℕ, zero, suc, ◌≡◌, subst, Bool, true, false, not, ◌||◌, leb, Option, none, some, List, [], ◌∷◌,
  Result, ltb, if_both, arith,
}
use ngy_coding_agent.Domain.Event.{TaskEvent}
use ngy_coding_agent.Api.Sse.{
  Stream, Flow, Poll, and_then, send, send_page, send_buffered, page_flow, stopped, read_page,
  replay, live_event,
}

module _ (l : List Poll) where
  abbrev pub Leaves : Flow → Type 0
  Leaves r = r.1.live ≡ l

  abbrev pub Left : Option Flow → Type 0
  Left o = (r : Flow) → o ≡ some r → Leaves r

  same_flow : {r t : Flow} → Path (Option Flow) (some r) (some t) → r ≡ t
  same_flow h = cc

  some-Left : (r : Flow) → Leaves r → Left (some r)
  some-Left r p t h = subst Leaves (same_flow h) p

  none-Left : Left none
  none-Left r h = ground arith

  module _ (serialises : TaskEvent → Bool) where
    send-Leaves : (e : TaskEvent) (s : Stream) → s.live ≡ l → Leaves (send serialises e s)
    unfolding send
    send-Leaves e s p = if_both Leaves (serialises e) p p

    and_then-Leaves :
        (r : Flow) (k : Stream → Flow)
        → Leaves r
        → ((s : Stream) → s.live ≡ l → Leaves (k s))
        → Leaves (and_then r k)
    unfolding and_then
    and_then-Leaves (false, s) k p h = p
    and_then-Leaves (true, s) k p h = h s p

    send_page-Leaves :
        (high : ℕ) (page : List TaskEvent) (s : Stream)
        → s.live ≡ l
        → Leaves (send_page serialises high page s)
    unfolding send_page
    send_page-Leaves high [] s p = p
    send_page-Leaves high (e ∷ es) s p =
        if_both Leaves (leb e.id s.last || ltb high e.id) (send_page-Leaves high es s p)
          (and_then-Leaves _ _ (send-Leaves e s p) (send_page-Leaves high es))

    pub send_buffered-Leaves :
        (es : List TaskEvent) (s : Stream) → s.live ≡ l → Leaves (send_buffered serialises es s)
    unfolding send_buffered
    send_buffered-Leaves [] s p = p
    send_buffered-Leaves (e ∷ es) s p =
        if_both Leaves (leb e.id s.last) (send_buffered-Leaves es s p)
          (and_then-Leaves _ _ (send-Leaves e s p) (send_buffered-Leaves es))

    pub live_event-Leaves :
        (e : TaskEvent) (s : Stream) → s.live ≡ l → Leaves (live_event serialises e s)
    unfolding live_event
    live_event-Leaves e s p = if_both Leaves (ltb s.last e.id) (send-Leaves e s p) p

    module _ {E : Type 0} (events_between : ℕ → ℕ → ℕ → ℕ → Result E (List TaskEvent)) where
      page_flow-Leaves :
          (high : ℕ) (page : Option (List TaskEvent)) (s : Stream)
          → s.live ≡ l
          → Leaves (page_flow serialises events_between high page s)
      unfolding page_flow
      page_flow-Leaves high none s p = p
      page_flow-Leaves high (some page) s p =
          send_page-Leaves high page (record s { reads = suc s.reads }) p

      pub replay-Left :
          (fuel high : ℕ) (s : Stream)
          → s.live ≡ l
          → Left (replay serialises events_between fuel high s)
      unfolding replay
      replay-Left zero high s p = none-Left
      replay-Left (suc fuel) high s p =
          let read = read_page serialises events_between high s in
          let page = page_flow serialises events_between high read s in
          let one = page_flow-Leaves high read s p in
          if_both Left (not (ltb s.last high)) (some-Left (true, s) p) (
            if_both Left (stopped serialises events_between s.last page)
              (some-Left (false, page.1) one) (replay-Left fuel high page.1 one))
