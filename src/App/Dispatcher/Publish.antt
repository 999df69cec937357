-- ===== src/App/Dispatcher/Publish.antt =====
-- That `publish_available` of crates/coding-agent-app/src/event_dispatcher.rs publishes the log.
use ngy_coding_agent.Base.{
  ℕ, zero, suc, ◌+◌, ◌<◌, ◌≤◌, ◌≡◌, refl, sym, ap, subst, ◌∙◌, List, [], ◌∷◌, ◌++◌, none, some, ok,
  true, arith, ltb, leb, leb→le, ◌==◌, ◌||◌, Bool-cases, inl, inr, take, sort_by, insert_by, ◌&&◌,
}
use Prim.Native.Nat.{max}
use mathlib.Core.List.{append-nil, append_assoc}
use ngy_coding_agent.Domain.Value.{event_cursor}
use ngy_coding_agent.Domain.Event.{TaskEvent}
use ngy_coding_agent.Store.Schema.{Db, select_where}
use ngy_coding_agent.Store.History.{Rising-bound}
use ngy_coding_agent.Store.Invariant.{IsWellFormed}
use ngy_coding_agent.Store.Projection.{ReadEnv, events_after}
use ngy_coding_agent.Store.Pages.{
  Rising-Ascending, Ascending, ids, event_ids, event_page_lem, IsAnswered,
}
use ngy_coding_agent.App.Dispatcher.{
  Dispatcher, complete_waiters, reached, publish_event, publish_page, publish_available,
  event_page_size, by_event_id,
}
use ngy_coding_agent.App.Dispatcher.Ids.{
  above, last_id, above-Ascending, taken_bound, above_split, last-above, above_none,
  event_ids-append, ids-take, select-above, bound-ids, taken_nothing, goes_on,
}

abbrev sent : TaskEvent → Dispatcher → Dispatcher
sent e d = complete_waiters e.id (record d { cursor = e.id; events = d.events ++ e ∷ [] })

publish_event-above :
    (e : TaskEvent) (d : Dispatcher) → d.cursor < e.id → publish_event e d ≡ (ok tt, sent e d)
unfolding publish_event event_cursor
publish_event-above e d h = ground arith

-- A page in the order of its ids is sent whole.
publish_page-Ascending :
    (es : List TaskEvent) (d : Dispatcher)
    → Ascending d.cursor (event_ids es)
    → (after : Dispatcher) × (publish_page es d ≡ (ok tt, after))
      × (after.events ≡ d.events ++ es)
      × (after.cursor ≡ last_id d.cursor (event_ids es))
unfolding publish_page complete_waiters
publish_page-Ascending [] d a = (d, refl, sym (append-nil d.events), refl)
publish_page-Ascending (e ∷ es) d a =
    let (after, p, q, c) = publish_page-Ascending es (sent e d) a.1 in
    (after, rw (publish_event-above e d a.0, p) refl, q ∙ append_assoc d.events (e ∷ []) es, c)

insert_first :
    (e : TaskEvent) (es : List TaskEvent)
    → Ascending e.id (event_ids es)
    → insert_by by_event_id e es ≡ e ∷ es
unfolding insert_by
insert_first e [] a = refl
insert_first e (d ∷ es) a = ground (arith, a.0)

sort-Ascending :
    (lo : ℕ) (es : List TaskEvent) → Ascending lo (event_ids es) → sort_by by_event_id es ≡ es
unfolding sort_by
sort-Ascending lo [] a = refl
sort-Ascending lo (e ∷ es) a = rw (sort-Ascending e.id es a.1) (insert_first e es a.1)

module _ (db : Db) (w : IsWellFormed db) where
  abbrev log : List ℕ
  log = ids db.task_events

  log_ascends : Ascending 0 log
  log_ascends = Rising-Ascending 0 db.sequence db.task_events w.rising

  -- One page from a cursor.
  page_of :
      (env : ReadEnv) (c : ℕ)
      → IsAnswered env
      → (events : List TaskEvent) × (events_after env c event_page_size db
          ≡ ok (record { events = events; high_watermark = db.sequence }))
        × (event_ids events ≡ take event_page_size (above c log))
        × Ascending c (event_ids events)
  unfolding events_after
  page_of env c v =
      let (events, p, q, asc) = event_page_lem db w none c event_page_size env v in
      let bound = Rising-bound 0 db.sequence db.task_events w.rising in
      (
        events,
        p,
        q
            ∙ ids-take event_page_size
                (select_where (λ e. ltb c e.id && leb e.id db.sequence) db.task_events)
            ∙ ap (take event_page_size) (select-above c db.sequence db.task_events bound),
        asc,
      )

  -- A page after which nothing is left above the cursor.
  done_page :
      (c : ℕ)
      → above (last_id c (take event_page_size (above c log))) log ≡ []
      → (above c log ≡ take event_page_size (above c log))
        × (last_id c (take event_page_size (above c log)) ≡ max c db.sequence)
  done_page c none_left =
      let all : above c log ≡ take event_page_size (above c log) =
        above_split event_page_size c 0 log log_ascends
        ∙ ap (λ l. take event_page_size (above c log) ++ l) none_left
        ∙ append-nil _ in
      (
        all,
        ap (last_id c) (sym all)
            ∙ subst (λ m. last_id m (above c log) ≡ max c db.sequence) (omega arith)
                (last-above c 0 db.sequence db.task_events w.rising),
      )

  stopped_page :
      (c : ℕ)
      → (leb db.sequence (last_id c (take event_page_size (above c log)))
          || last_id c (take event_page_size (above c log)) == c)
        ≡ true
      → above (last_id c (take event_page_size (above c log))) log ≡ []
  stopped_page c stop =
      elim (Bool-cases (leb db.sequence (last_id c (take event_page_size (above c log))))) [
        | inl reached ↦
            above_none _ db.sequence log
              (bound-ids db.sequence db.task_events
                (Rising-bound 0 db.sequence db.task_events w.rising))
              (leb→le db.sequence _ reached)
        | inr short ↦
            let unmoved : last_id c (take event_page_size (above c log)) ≡ c = ground arith in
            rw unmoved
              (taken_nothing 255 c (above c log) (above-Ascending c 0 log log_ascends) unmoved)
      ]

  -- On a well-formed store, when the database answers every read, given fuel for more pages than
  -- ids lie between its cursor and the end of the log, the loop of the dispatcher ends without an
  -- error; it has published exactly the ids of the log above its cursor, each once and in rising
  -- order, and its cursor stands at the end of the log, or where it was if that is further.
  pub publish_available_lem :
      (fuel : ℕ) (reads : ℕ → ReadEnv) (d : Dispatcher)
      → ((n : ℕ) → IsAnswered (reads n))
      → 0 < fuel
      → db.sequence < fuel + d.cursor
      → (after : Dispatcher) × (publish_available fuel reads db d ≡ some (ok tt, after))
        × (event_ids after.events ≡ event_ids d.events ++ above d.cursor (ids db.task_events))
        × (after.cursor ≡ max d.cursor db.sequence)
  unfolding publish_available
  publish_available_lem zero reads d v h k = absurd (omega arith)
  publish_available_lem (suc fuel) reads d v h k =
      let c = d.cursor in
      let (events, p, q, asc) = page_of (reads 0) c (v 0) in
      let (next, e, ev, cu) = publish_page-Ascending events d asc in
      let at : next.cursor ≡ last_id c (take event_page_size (above c log)) =
        cu ∙ ap (last_id c) q in
      let so_far : event_ids next.events
          ≡ event_ids d.events ++ take event_page_size (above c log) =
        ap event_ids ev ∙ event_ids-append d.events events ∙ ap (λ l. event_ids d.events ++ l) q in
      elim (Bool-cases (leb db.sequence next.cursor || next.cursor == c)) [
        | inl stop ↦
            let (all, end) =
              done_page c
                (stopped_page c (subst (λ n. (leb db.sequence n || n == c) ≡ true) at stop)) in
            (
              next,
              rw (p, sort-Ascending c events asc, e, stop) refl,
              so_far ∙ ap (λ l. event_ids d.events ++ l) (sym all),
              at ∙ end,
            )
        | inr go ↦
            let back : c ≤ next.cursor =
              subst (λ n. c ≤ n) (sym at) (taken_bound event_page_size c 0 log log_ascends) in
            let (short, moved) = goes_on db.sequence next.cursor c go back in
            let (after, r, s, t) =
              publish_available_lem fuel (λ n. reads (suc n)) next (λ n. v (suc n)) (omega arith)
                (omega arith) in
            (
              after,
              rw (p, sort-Ascending c events asc, e, go) r,
              s
                  ∙ ap (λ l. l ++ above next.cursor log) so_far
                  ∙ append_assoc (event_ids d.events) (take event_page_size (above c log))
                      (above next.cursor log)
                  ∙ ap
                      (λ n.
                        event_ids d.events ++ (take event_page_size (above c log) ++ above n log))
                      at
                  ∙ ap (λ l. event_ids d.events ++ l)
                      (sym (above_split event_page_size c 0 log log_ascends)),
              t ∙ omega (arith, short, moved),
            )
      ]
