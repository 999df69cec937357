-- ===== src/Store/Repositories/Record.antt =====
-- `repository_from_record` of crates/coding-agent-store/src/repositories.rs and src/projection.rs.
use ngy_coding_agent.Base.{Result, ok, ◌>>=◌, map_err}
use ngy_coding_agent.Domain.Path.{try_from_canonical}
use ngy_coding_agent.Domain.Repository.{Repository}
use ngy_coding_agent.Store.Schema.{StoreError, domain}

unfoldable pub repository_from_record : Repository → Result StoreError Repository
repository_from_record r = do
  selected ← map_err domain (try_from_canonical r.selected_path)
  git ← map_err domain (try_from_canonical r.git_root)
  cargo ← map_err domain (try_from_canonical r.cargo_workspace_root)
  ok (record r { selected_path = selected; git_root = git; cargo_workspace_root = cargo })
