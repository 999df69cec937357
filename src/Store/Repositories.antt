-- ===== src/Store/Repositories.antt =====
-- crates/coding-agent-store/src/repositories.rs, as it is built outside Windows.
pub mod Record
use ngy_coding_agent.Base.{
  ℕ, Bool, ◌&&◌, ◌||◌, Option, none, some, List, [], ◌∷◌, ◌++◌, Result, ok, err, ltb, leb, ◌==◌,
  if◌then◌else◌, map, map_err, sort_by, collect, is_none,
}
use ngy_coding_agent.Domain.Path.{CanonicalPath}
use ngy_coding_agent.Domain.Repository.{NewRepository, Repository}
use ngy_coding_agent.Store.Schema.{
  Db, StoreError, constraint_failed, domain, RepositoryRow, find_where, update_where,
  has_repository, same_keys,
}
use ngy_coding_agent.Store.Tx.{Env, Tx, ◌>>=◌, ◌>>◌, pure, lift, gets, transact}
use ngy_coding_agent.Store.Tasks.Events.{current_timestamp}
use Record.{repository_from_record}

pub data RegisterRepositoryOutcome : Type 0 where
  created existing : Repository → RegisterRepositoryOutcome

-- `identity_key`
unfoldable pub identity_key : CanonicalPath → List ℕ
identity_key path = path.path

-- The UPDATE of a repository that is registered again.
unfoldable pub reopen : List ℕ → ℕ → RepositoryRow → RepositoryRow
reopen selected now r = record r {
  repository = record r.repository { selected_path = selected; last_opened_at = now };
}

unfoldable pub update_repository : ℕ → List ℕ → ℕ → Tx (Unit {0})
update_repository id selected now db = ok (
  tt,
  record db {
    repositories = update_where (has_repository id) (reopen selected now) db.repositories;
  },
)

-- The constraints that SQLite checks on an INSERT: the id and the pair of keys are new.
unfoldable pub repository_insertable : RepositoryRow → Db → Bool
repository_insertable row db =
    is_none (find_where (has_repository row.repository.id) db.repositories)
    && is_none (find_where (same_keys row.git_identity_key row.cargo_identity_key) db.repositories)

unfoldable pub insert_repository : RepositoryRow → Tx (Unit {0})
insert_repository row db =
    if repository_insertable row db
    then ok (tt, record db { repositories = db.repositories ++ row ∷ [] })
    else err constraint_failed

unfoldable pub register_existing : NewRepository → ℕ → RepositoryRow → Tx RegisterRepositoryOutcome
unfolding update_repository
register_existing input now row = do
  update_repository row.repository.id input.selected_path.path now
  repository ← lift (repository_from_record (reopen input.selected_path.path now row).repository)
  pure (existing repository)

unfoldable pub register_new : Env → NewRepository → ℕ → Tx RegisterRepositoryOutcome
unfolding insert_repository
register_new env input now = do
  let repository : Repository = record {
    id = env.repository_id;
    selected_path = input.selected_path.path;
    display_name = input.display_name;
    git_root = input.git_root.path;
    cargo_workspace_root = input.cargo_workspace_root.path;
    created_at = now;
    last_opened_at = now;
  }
  insert_repository (record {
    repository = repository;
    git_identity_key = identity_key input.git_root;
    cargo_identity_key = identity_key input.cargo_workspace_root;
  })
  pure (created repository)

unfoldable pub register_or_reopen :
    Env → NewRepository → ℕ → Option RepositoryRow → Tx RegisterRepositoryOutcome
unfolding register_existing register_new
register_or_reopen env input now (some row) = register_existing input now row
register_or_reopen env input now none = register_new env input now

unfoldable pub register_body : Env → NewRepository → Tx RegisterRepositoryOutcome
unfolding register_or_reopen
register_body env input = do
  now ← current_timestamp env
  found ← gets λ db.
      find_where (same_keys (identity_key input.git_root) (identity_key input.cargo_workspace_root))
        db.repositories
  register_or_reopen env input now found

unfoldable pub register_repository :
    Env → NewRepository → Db → Result StoreError RegisterRepositoryOutcome × Db
unfolding register_body
register_repository env input = transact env (register_body env input)

-- `ORDER BY last_opened_at DESC, id`
abbrev pub latest_opened_first : Repository → Repository → Bool
latest_opened_first r s =
    ltb s.last_opened_at r.last_opened_at || (s.last_opened_at == r.last_opened_at && leb r.id s.id)

unfoldable pub list_repositories : Db → Result StoreError (List Repository)
list_repositories db =
    collect repository_from_record
      (sort_by latest_opened_first (map (λ r. r.repository) db.repositories))
