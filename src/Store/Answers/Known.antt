-- ===== src/Store/Answers/Known.antt =====
-- What `create_task` of crates/coding-agent-store/src/tasks.rs answers to a request that is known.
use ngy_coding_agent.Base.{
  [], inl, inr, ◌⊎◌, ◌==◌, ==_refl, ==→eq, not, ◌||◌, Bool-cases, ℕ, ◌≡◌, refl, ◌∙◌, some, ok, err,
  true, false, arith, if◌then◌else◌, List, ◌∷◌, Bool,
}
use ngy_coding_agent.Domain.Task.{NewTask, Task, try_new}
use ngy_coding_agent.Store.Schema.{Db, find_where, same_request, same_bytes, idempotency_conflict}
use ngy_coding_agent.Store.Tx.{Env, ◌>>=◌, transact, begin, commit}
use ngy_coding_agent.Store.Tasks.{
  create_task, create_checked, create_body, create_or_find, same_input, conflicts, existing,
}
use ngy_coding_agent.Store.Invariant.{IsWellFormed}
use ngy_coding_agent.Store.Invariant.Panel.{load_where-IsWellFormed}
use ngy_coding_agent.Store.Answers.{IsServing}

same_bytes_refl : (xs : List ℕ) → same_bytes xs xs ≡ true
unfolding same_bytes
same_bytes_refl [] = refl
same_bytes_refl (x ∷ xs) = ground (arith, same_bytes_refl xs)

same_bytes-eq : (xs ys : List ℕ) → same_bytes xs ys ≡ true → xs ≡ ys
unfolding same_bytes
same_bytes-eq [] [] h = refl
same_bytes-eq [] (y ∷ ys) h = cc
same_bytes-eq (x ∷ xs) [] h = cc
same_bytes-eq (x ∷ xs) (y ∷ ys) h = ground (arith, same_bytes-eq xs ys)

-- Whether a task was made from the input.
abbrev pub Made : NewTask → Task → Type 0
Made input task = (task.repository_id ≡ input.repository_id) × (task.prompt ≡ input.prompt)

Made-conflicts : (input : NewTask) (task : Task) → Made input task → conflicts input task ≡ false
unfolding conflicts
Made-conflicts input task m =
    rw (m.0, m.1, same_bytes_refl input.prompt, ==_refl input.repository_id) refl

both : (a b : Bool) → (not a || not b) ≡ false → (a ≡ true) × (b ≡ true)
both a b h = ground arith

conflicts-Made : (input : NewTask) (task : Task) → conflicts input task ≡ false → Made input task
unfolding conflicts
conflicts-Made input task h =
    let (repository, prompt) =
      both (task.repository_id == input.repository_id) (same_bytes task.prompt input.prompt) h in
    (
      ==→eq task.repository_id input.repository_id repository,
      same_bytes-eq task.prompt input.prompt prompt,
    )

module _ (db : Db) (w : IsWellFormed db) (env : Env) (v : IsServing env) where
  -- A request that is known already: same input, the same task; other input, a conflict. Nothing
  -- changes.
  existing-body :
      (input : NewTask) (task : Task)
      → find_where (same_request input.client_request_id) db.tasks ≡ some task
      → create_body env input db
        ≡ (if conflicts input task then err idempotency_conflict else ok (existing task, db))
  unfolding create_body create_or_find same_input ◌>>=◌
  existing-body input task e =
      ground (arith, load_where-IsWellFormed db (same_request input.client_request_id) w, e)

  -- In a well-formed store whose database answers, creating a task whose prompt is accepted and
  -- whose request id is known changes nothing: with the same repository and trimmed prompt it
  -- answers with the task that exists, with other input it fails with an idempotency conflict.
  module _ (input new : NewTask) (task : Task)
      (accepted : try_new input.client_request_id input.repository_id input.prompt ≡ ok new)
      (known : find_where (same_request new.client_request_id) db.tasks ≡ some task) where
    known_answer :
        create_task env input db
        ≡ ((if conflicts new task then err idempotency_conflict else ok (existing task)), db)
    unfolding create_task create_checked transact begin commit
    known_answer = ground (arith, accepted, v.begins, v.commits, existing-body new task known)

    -- In a well-formed store whose database answers, creating a task whose prompt is accepted and
    -- whose request id is known changes nothing: with the same repository and trimmed prompt it
    -- answers with the task that exists, with other input it fails with an idempotency conflict.
    pub create_task-existing :
        (Made new task × (create_task env input db ≡ (ok (existing task), db)))
        ⊎ (¬ Made new task × (create_task env input db ≡ (err idempotency_conflict, db)))
    create_task-existing = elim (Bool-cases (conflicts new task)) [
      | inl other ↦ inr (λ m. cc (Made-conflicts new task m, other), known_answer ∙ rw other refl)
      | inr same ↦ inl (conflicts-Made new task same, known_answer ∙ rw same refl)
    ]
