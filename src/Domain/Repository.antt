-- ===== src/Domain/Repository.antt =====
-- crates/coding-agent-domain/src/repository.rs. The paths of a `Repository` are bytes, since a row of
-- the store has these fields too and may hold any; they are checked when the row is read.
use ngy_coding_agent.Base.{ℕ, String, List}
use ngy_coding_agent.Domain.Path.{CanonicalPath}

pub record NewRepository : Type 0 where
  pub selected_path : CanonicalPath
  pub display_name : String
  pub git_root : CanonicalPath
  pub cargo_workspace_root : CanonicalPath

pub record Repository : Type 0 where
  pub id : ℕ
  pub selected_path : List ℕ
  pub display_name : String
  pub git_root : List ℕ
  pub cargo_workspace_root : List ℕ
  pub created_at : ℕ
  pub last_opened_at : ℕ
