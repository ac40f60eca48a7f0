-- ===== src/Lease/Samples.antt =====
-- A lease of internal/orchestration/lease.go, for the tests.
use specd.Prelude.{[], pos}
use specd.Authority.{AuthorityV1}
use specd.Lease.{Lease, LeaseState}

abbrev authority : AuthorityV1
authority = record {
  schema_version = "1";
  actor_id = "controller";
  worker_id = "w1";
  spec_id = "demo";
  task_id = "T1";
  phase = "execute";
  role = "craftsman";
  mode = "write";
  allowed_tools = [];
  denied_tools = [];
  declared_read_paths = [];
  declared_write_paths = [];
  network_policy = "deny";
  sandbox_profile = "required";
  baseline_revision = "abc";
  issued_at = 10;
  expires_at = 20;
  policy_digest = "p";
  digest = "d";
}

abbrev pub sample : Lease
sample = record {
  lease_id = "l1";
  mission_id = "m1";
  task_id = "T1";
  attempt = pos 1;
  worker_id = "w1";
  issued_at = 10;
  expires_at = 20;
  policy_digest = "p";
  dispatch_digest = "";
  state = LeaseState.active;
  revocation_reason = "";
  authority = authority;
  retries = pos 0;
  driver_session_id = "";
}
