-- ===== src/Store/Invariant/Repositories.antt =====
-- `register_repository` of crates/coding-agent-store/src/repositories.rs keeps the invariant.
use ngy_coding_agent.Base.{
  ◌≡◌, ◌==◌, [], ◌∷◌, ok, if_both, All, All-append, ℕ, refl, List, Option, none, some, Bool-cases,
  inl, inr, subst,
}
use ngy_coding_agent.Domain.Repository.{NewRepository}
use ngy_coding_agent.Store.Schema.{Db, RepositoryRow, has_repository, update_where}
use ngy_coding_agent.Store.Tx.{Env}
use ngy_coding_agent.Store.Ensures.{Ensures, Ensures-bind, Ensures-lift, Ensures-ok, transact-keeps}
use ngy_coding_agent.Store.Tasks.Events.{current_timestamp}
use ngy_coding_agent.Store.Repositories.{
  repository_insertable, insert_repository, update_repository, register_existing, register_new,
  reopen, register_or_reopen, register_body, register_repository,
}
use ngy_coding_agent.Store.Invariant.{IsWellFormed, IsReadable}
use ngy_coding_agent.Domain.Path.{CanonicalPath}
use ngy_coding_agent.Store.Repositories.Record.{repository_from_record}
use ngy_coding_agent.Store.Invariant.Operations.{WellFormedAfter}

-- A row whose paths are canonical is read as it is.
pub repository_from_record-IsReadable :
    (r : RepositoryRow) → IsReadable r → repository_from_record r.repository ≡ ok r.repository
unfolding repository_from_record
repository_from_record-IsReadable r h = rw (h.selected, h.git, h.cargo) refl

update-IsReadable :
    (id now : ℕ) (selected : CanonicalPath) (rows : List RepositoryRow)
    → All IsReadable rows
    → All IsReadable (update_where (has_repository id) (reopen selected.path now) rows)
unfolding update_where reopen
update-IsReadable id now selected [] h = tt
update-IsReadable id now selected (r ∷ rs) h = (
  if_both IsReadable (r.repository.id == id)
      (record { selected = selected.accepted; git = h.0.git; cargo = h.0.cargo }) h.0,
  update-IsReadable id now selected rs h.1,
)

-- The rest of the invariant does not speak of the table of repositories.
pub repositories-IsWellFormed :
    (db : Db) (rows : List RepositoryRow)
    → IsWellFormed db
    → All IsReadable rows
    → IsWellFormed (record db { repositories = rows })
repositories-IsWellFormed db rows w readable = record {
  keys = record {
    ids = w.keys.ids;
    requests = w.keys.requests;
    retried = w.keys.retried;
    rising = w.keys.rising;
    decodes = w.keys.decodes;
    room = w.keys.room;
    readable = readable;
  };
  current = w.current;
  known = w.known;
}

module _ (db : Db) (w : IsWellFormed db) where
  insert-keeps :
      (row : RepositoryRow) → IsReadable row → Ensures WellFormedAfter (insert_repository row db)
  unfolding insert_repository
  insert-keeps row readable = elim (Bool-cases (repository_insertable row db)) [
    | inl e ↦ rw e (
        repositories-IsWellFormed db _ w
          (All-append IsReadable db.repositories (row ∷ []) w.keys.readable (readable, tt)))
    | inr e ↦ rw e tt
  ]

  register_or_reopen-keeps :
      (env : Env) (input : NewRepository) (now : ℕ) (found : Option RepositoryRow)
      → Ensures WellFormedAfter (register_or_reopen env input now found db)
  unfolding register_or_reopen register_existing register_new update_repository insert_repository
  register_or_reopen-keeps env input now (some row) =
      Ensures-ok WellFormedAfter db
        (update_repository row.repository.id input.selected_path.path now) _ refl
        (Ensures-lift WellFormedAfter _ _ _ λ r _. repositories-IsWellFormed db _ w (
          update-IsReadable row.repository.id now input.selected_path db.repositories
            w.keys.readable))
  register_or_reopen-keeps env input now none =
      Ensures-bind WellFormedAfter db (insert_repository _) _ λ _ db' e.
        subst (Ensures WellFormedAfter) e (
          insert-keeps _ (record {
            selected = input.selected_path.accepted;
            git = input.git_root.accepted;
            cargo = input.cargo_workspace_root.accepted;
          }))

  pub register_repository-IsWellFormed :
      (env : Env) (input : NewRepository) → IsWellFormed (register_repository env input db).1
  unfolding register_repository register_body current_timestamp
  register_repository-IsWellFormed env input =
      transact-keeps IsWellFormed env (register_body env input) db w (
        Ensures-lift WellFormedAfter db _ _ λ now _.
          Ensures-ok WellFormedAfter db _ _ refl (register_or_reopen-keeps env input now _))
