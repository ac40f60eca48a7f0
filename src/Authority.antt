-- ===== src/Authority.antt =====
-- internal/core/authority.go: the authority that a lease carries.
use specd.Prelude.{ℕ, String, List}

pub record ToolAuthority : Type 0 where
  pub id : String
  pub arg_constraints : List String

pub record AuthorityV1 : Type 0 where
  pub schema_version : String
  pub actor_id : String
  pub worker_id : String
  pub spec_id : String
  pub task_id : String
  pub phase : String
  pub role : String
  pub mode : String
  pub allowed_tools : List ToolAuthority
  pub denied_tools : List String
  pub declared_read_paths : List String
  pub declared_write_paths : List String
  pub network_policy : String
  pub sandbox_profile : String
  pub baseline_revision : String
  pub issued_at : ℕ
  pub expires_at : ℕ
  pub policy_digest : String
  pub digest : String
