-- ===== src/Store/Detail.antt =====
-- What `project_task_detail` of crates/coding-agent-store/src/projection.rs makes of the events of a
-- task, panel by panel.
use mathlib.Core.List.{append-nil, append_assoc}
use ngy_coding_agent.Base.{
  ℕ, ◌≡◌, refl, ap, sym, ◌∙◌, Option, none, some, List, [], ◌∷◌, ◌++◌, true, arith, Bool-cases, inl,
  inr, subst,
}
use ngy_coding_agent.Domain.Task.{Task}
use ngy_coding_agent.Domain.Event.{
  TaskEvent, TaskEventPayload, TimelineEntry, PlanSnapshot, DiffSnapshot, TestSnapshot,
  ActivityEntry,
}
use ngy_coding_agent.Store.Projection.{
  TaskDetail, project_event, project_events, project_task_detail, timeline_entry, none_has_id,
}

-- The last of some values, or what was there before.
abbrev pub latest {ℓ} :
    {A : Type ℓ} → (TaskEventPayload → Option A) → Option A → List TaskEvent → Option A
latest f o [] = o
latest f o (e ∷ es) = latest f (elim (f e.payload) [ none ↦ o | some a ↦ some a ]) es

abbrev pub plan_of : TaskEventPayload → Option PlanSnapshot
plan_of (TaskEventPayload.plan_updated p) = some p
plan_of _ = none

abbrev pub diff_of : TaskEventPayload → Option DiffSnapshot
diff_of (TaskEventPayload.diff_updated d) = some d
diff_of _ = none

abbrev pub tests_of : TaskEventPayload → Option TestSnapshot
tests_of (TaskEventPayload.test_updated t) = some t
tests_of _ = none

abbrev pub lifecycle_of : TaskEventPayload → Option Task
lifecycle_of (TaskEventPayload.task_queued t) = some t
lifecycle_of (TaskEventPayload.task_started t) = some t
lifecycle_of (TaskEventPayload.task_completed t) = some t
lifecycle_of (TaskEventPayload.task_failed t) = some t
lifecycle_of (TaskEventPayload.task_cancelled t) = some t
lifecycle_of (TaskEventPayload.task_interrupted t) = some t
lifecycle_of _ = none

abbrev pub entered : Option Task → TaskEvent → List TimelineEntry → List TimelineEntry
entered none e rest = rest
entered (some t) e rest = timeline_entry e t.failure ∷ rest

-- One entry for each lifecycle event, in their order.
abbrev pub timeline_of : List TaskEvent → List TimelineEntry
timeline_of [] = []
timeline_of (e ∷ es) = entered (lifecycle_of e.payload) e (timeline_of es)

plan_one :
    (d : TaskDetail) (e : TaskEvent) (p : TaskEventPayload)
    → (project_event d e p).plan ≡ elim (plan_of p) [ none ↦ d.plan | some a ↦ some a ]
unfolding project_event
plan_one d e p = ground arith

project-plan :
    (d : TaskDetail) (es : List TaskEvent) → (project_events d es).plan ≡ latest plan_of d.plan es
unfolding project_events
project-plan d [] = refl
project-plan d (e ∷ es) =
    project-plan (project_event d e e.payload) es
    ∙ ap (λ o. latest plan_of o es) (plan_one d e e.payload)

diff_one :
    (d : TaskDetail) (e : TaskEvent) (p : TaskEventPayload)
    → (project_event d e p).diff ≡ elim (diff_of p) [ none ↦ d.diff | some a ↦ some a ]
unfolding project_event
diff_one d e p = ground arith

project-diff :
    (d : TaskDetail) (es : List TaskEvent) → (project_events d es).diff ≡ latest diff_of d.diff es
unfolding project_events
project-diff d [] = refl
project-diff d (e ∷ es) =
    project-diff (project_event d e e.payload) es
    ∙ ap (λ o. latest diff_of o es) (diff_one d e e.payload)

tests_one :
    (d : TaskDetail) (e : TaskEvent) (p : TaskEventPayload)
    → (project_event d e p).tests ≡ elim (tests_of p) [ none ↦ d.tests | some a ↦ some a ]
unfolding project_event
tests_one d e p = ground arith

project-tests :
    (d : TaskDetail) (es : List TaskEvent)
    → (project_events d es).tests ≡ latest tests_of d.tests es
unfolding project_events
project-tests d [] = refl
project-tests d (e ∷ es) =
    project-tests (project_event d e e.payload) es
    ∙ ap (λ o. latest tests_of o es) (tests_one d e e.payload)

entry_timeline :
    (d : TaskDetail) (e : TaskEvent) (a : ActivityEntry)
    → (project_event d e (TaskEventPayload.activity_appended a)).timeline ≡ d.timeline
unfolding project_event
entry_timeline d e a = ground arith

timeline_step :
    (d : TaskDetail) (e : TaskEvent) (es : List TaskEvent) (p : TaskEventPayload)
    → (project_event d e p).timeline ++ timeline_of es
      ≡ d.timeline ++ entered (lifecycle_of p) e (timeline_of es)
unfolding project_event
timeline_step d e es (TaskEventPayload.plan_updated p) = refl
timeline_step d e es (TaskEventPayload.diff_updated p) = refl
timeline_step d e es (TaskEventPayload.test_updated p) = refl
timeline_step d e es (TaskEventPayload.activity_appended a) =
    ap (λ l. l ++ timeline_of es) (entry_timeline d e a)
timeline_step d e es (TaskEventPayload.task_queued t) = append_assoc d.timeline _ _
timeline_step d e es (TaskEventPayload.task_started t) = append_assoc d.timeline _ _
timeline_step d e es (TaskEventPayload.task_completed t) = append_assoc d.timeline _ _
timeline_step d e es (TaskEventPayload.task_failed t) = append_assoc d.timeline _ _
timeline_step d e es (TaskEventPayload.task_cancelled t) = append_assoc d.timeline _ _
timeline_step d e es (TaskEventPayload.task_interrupted t) = append_assoc d.timeline _ _

timeline_one :
    (d : TaskDetail) (e : TaskEvent) (es : List TaskEvent) (p : TaskEventPayload)
    → e.payload ≡ p
    → (project_event d e p).timeline ++ timeline_of es ≡ d.timeline ++ timeline_of (e ∷ es)
unfolding project_event
timeline_one d e es p h =
    timeline_step d e es p
    ∙ ap (λ q. d.timeline ++ entered (lifecycle_of q) e (timeline_of es)) (sym h)

project-timeline :
    (d : TaskDetail) (es : List TaskEvent)
    → (project_events d es).timeline ≡ d.timeline ++ timeline_of es
unfolding project_events
project-timeline d [] = sym (append-nil d.timeline)
project-timeline d (e ∷ es) =
    project-timeline (project_event d e e.payload) es ∙ timeline_one d e es e.payload refl

-- Each entry has an id that none before it has.
abbrev pub OnceEach : List ActivityEntry → List ActivityEntry → Type 0
OnceEach seen [] = Unit {0}
OnceEach seen (a ∷ rest) = (none_has_id a.id seen ≡ true) × OnceEach (seen ++ a ∷ []) rest

OnceEach-snoc :
    (seen xs : List ActivityEntry) (a : ActivityEntry)
    → OnceEach seen xs
    → none_has_id a.id (seen ++ xs) ≡ true
    → OnceEach seen (xs ++ a ∷ [])
OnceEach-snoc seen [] a h n = (subst (λ l. none_has_id a.id l ≡ true) (append-nil seen) n, tt)
OnceEach-snoc seen (x ∷ xs) a h n = (
  h.0,
  OnceEach-snoc (seen ++ x ∷ []) xs a h.1
      (subst (λ l. none_has_id a.id l ≡ true) (sym (append_assoc seen (x ∷ []) xs)) n),
)

append_entry :
    (d : TaskDetail) (e : TaskEvent) (entry : ActivityEntry)
    → OnceEach [] d.activity
    → OnceEach [] (project_event d e (TaskEventPayload.activity_appended entry)).activity
unfolding project_event
append_entry d e entry h = elim (Bool-cases (none_has_id entry.id d.activity)) [
  | inl new ↦ rw new (OnceEach-snoc [] d.activity entry h new)
  | inr known ↦ rw known h
]

activity_one :
    (d : TaskDetail) (e : TaskEvent) (p : TaskEventPayload)
    → OnceEach [] d.activity
    → OnceEach [] (project_event d e p).activity
unfolding project_event
activity_one d e (TaskEventPayload.activity_appended entry) h = append_entry d e entry h
activity_one d e (TaskEventPayload.plan_updated p) h = h
activity_one d e (TaskEventPayload.diff_updated p) h = h
activity_one d e (TaskEventPayload.test_updated p) h = h
activity_one d e (TaskEventPayload.task_queued t) h = h
activity_one d e (TaskEventPayload.task_started t) h = h
activity_one d e (TaskEventPayload.task_completed t) h = h
activity_one d e (TaskEventPayload.task_failed t) h = h
activity_one d e (TaskEventPayload.task_cancelled t) h = h
activity_one d e (TaskEventPayload.task_interrupted t) h = h

project-OnceEach :
    (d : TaskDetail) (es : List TaskEvent)
    → OnceEach [] d.activity
    → OnceEach [] (project_events d es).activity
unfolding project_events
project-OnceEach d [] h = h
project-OnceEach d (e ∷ es) h =
    project-OnceEach (project_event d e e.payload) es (activity_one d e e.payload h)

-- What is projected from the events of a task: the plan, diff and tests are those of the last
-- event that has one, the timeline has one entry for each lifecycle event in their order, and no
-- two entries of the activity have the same id.
pub project_task_detail_lem :
    (task : Task) (es : List TaskEvent) (cursor : ℕ)
    → ((project_task_detail task es cursor).plan ≡ latest plan_of none es)
      × ((project_task_detail task es cursor).diff ≡ latest diff_of none es)
      × ((project_task_detail task es cursor).tests ≡ latest tests_of none es)
      × ((project_task_detail task es cursor).timeline ≡ timeline_of es)
      × OnceEach [] (project_task_detail task es cursor).activity
unfolding project_task_detail
project_task_detail_lem task es cursor = (
  project-plan _ es,
  project-diff _ es,
  project-tests _ es,
  project-timeline _ es,
  project-OnceEach _ es tt,
)
