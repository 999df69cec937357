-- ===== src/Store/Invariant/Cleared.antt =====
-- What `recover_incomplete` of crates/coding-agent-store/src/tasks.rs leaves of unfinished tasks.
use ngy_coding_agent.Base.{
  ℕ, ◌≡◌, ◌≢◌, refl, sym, subst, List, [], ◌∷◌, ◌⊎◌, inl, inr, arith, map, All, insert_by, sort_by,
  true, false, Bool-cases, ◌==◌,
}
use ngy_coding_agent.Domain.Task.{TaskFailure}
use ngy_coding_agent.Store.Schema.{Db, TaskRow, update_where, select_where, same_id}
use ngy_coding_agent.Store.Tasks.Events.{set_last_event}
use ngy_coding_agent.Store.Tasks.Recovery.{
  is_incomplete, incomplete_row, incomplete_ids, interrupt, oldest_first,
}

abbrev pub Member : ℕ → List ℕ → Type 0
Member i [] = ⊥
Member i (j ∷ js) = (i ≡ j) ⊎ Member i js

abbrev ids : List TaskRow → List ℕ
ids ts = map (λ t. t.id) ts

Member-insert :
    (i : ℕ) (t : TaskRow) (ts : List TaskRow)
    → Member i (ids (t ∷ ts))
    → Member i (ids (insert_by oldest_first t ts))
unfolding insert_by
Member-insert i t [] m = m
Member-insert i t (u ∷ ts) m = elim (Bool-cases (oldest_first t u)) [
  | inl e ↦ rw e m
  | inr e ↦ rw e (elim m [
    | inl h ↦ inr (Member-insert i t ts (inl h))
    | inr k ↦ elim k [ inl h ↦ inl h | inr n ↦ inr (Member-insert i t ts (inr n)) ]
  ])
]

Member-sort :
    (i : ℕ) (ts : List TaskRow) → Member i (ids ts) → Member i (ids (sort_by oldest_first ts))
unfolding sort_by
Member-sort i [] m = m
Member-sort i (t ∷ ts) m =
    Member-insert i t (sort_by oldest_first ts)
      (elim m [ inl h ↦ inl h | inr n ↦ inr (Member-sort i ts n) ])

-- Each row that is not finished has its id among `js`.
abbrev pub Listed : List ℕ → List TaskRow → Type 0
Listed js ts = All (λ t. is_incomplete t.status ≡ true → Member t.id js) ts

Listed-weaken :
    (f : List ℕ) (g : List ℕ) (ts : List TaskRow)
    → ((i : ℕ) → Member i f → Member i g)
    → Listed f ts
    → Listed g ts
Listed-weaken f g [] h l = tt
Listed-weaken f g (t ∷ ts) h l = (λ e. h t.id (l.0 e), Listed-weaken f g ts h l.1)

select_keep :
    (t : TaskRow) (ts : List TaskRow)
    → incomplete_row t ≡ true
    → select_where incomplete_row (t ∷ ts) ≡ t ∷ select_where incomplete_row ts
unfolding select_where
select_keep t ts e = rw e refl

select_skip :
    (t : TaskRow) (ts : List TaskRow)
    → incomplete_row t ≡ false
    → select_where incomplete_row (t ∷ ts) ≡ select_where incomplete_row ts
unfolding select_where
select_skip t ts e = rw e refl

select-Listed : (ts : List TaskRow) → Listed (ids (select_where incomplete_row ts)) ts
select-Listed [] = tt
select-Listed (t ∷ ts) = elim (Bool-cases (incomplete_row t)) [
  | inl e ↦
      subst (λ l. Listed (ids l) (t ∷ ts)) (sym (select_keep t ts e))
        (
          λ _. inl refl,
          Listed-weaken (ids (select_where incomplete_row ts))
              (t.id ∷ ids (select_where incomplete_row ts)) ts (λ i m. inr m) (select-Listed ts),
        )
  | inr e ↦
      subst (λ l. Listed (ids l) (t ∷ ts)) (sym (select_skip t ts e))
        (λ h. absurd (cc (h, e)), select-Listed ts)
]

pub incomplete_ids-Listed : (db : Db) → Listed (incomplete_ids db) db.tasks
unfolding incomplete_ids
incomplete_ids-Listed db =
    Listed-weaken _ _ db.tasks (λ i m. Member-sort i _ m) (select-Listed db.tasks)

apart : (a b : ℕ) → (a == b) ≡ false → a ≢ b
apart a b h e = ground arith

-- The round of one id takes it off the list.
pub recovered-Listed :
    (now n i : ℕ) (failure : TaskFailure) (js : List ℕ) (ts : List TaskRow)
    → Listed (i ∷ js) ts
    → Listed js (
        update_where
          (same_id i)
          (set_last_event n)
          (update_where (same_id i) (interrupt now failure) ts))
unfolding update_where set_last_event interrupt is_incomplete
recovered-Listed now n i failure js [] l = tt
recovered-Listed now n i failure js (t ∷ ts) l = elim (Bool-cases (t.id == i)) [
  | inl e ↦ rw (e, e) (λ h. absurd (cc h), recovered-Listed now n i failure js ts l.1)
  | inr e ↦
      rw (e, e)
        (
          λ h. elim (l.0 h) [ inl k ↦ absurd (apart t.id i e k) | inr m ↦ m ],
          recovered-Listed now n i failure js ts l.1,
        )
]

pub none-Listed : (ts : List TaskRow) → Listed [] ts → All (λ t. is_incomplete t.status ≡ false) ts
none-Listed [] l = tt
none-Listed (t ∷ ts) l = (
  elim (Bool-cases (is_incomplete t.status)) [ inl e ↦ absurd (l.0 e) | inr e ↦ e ],
  none-Listed ts l.1,
)
