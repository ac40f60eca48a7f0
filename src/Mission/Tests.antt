-- ===== src/Mission/Tests.antt =====
-- internal/orchestration/conflict.go and decide.go: the theorems at one lease and two missions.
use specd.Prelude.{String, [], ◌∷◌, All, pos, none, ◌≡◌, ◌↔◌}
use specd.Lease.Samples.{sample}
use specd.Mission.{MissionV1, CoordinationRule, pre_dispatch_conflict, check_parallel_conflict}
use specd.Mission.Conflict.{
  IsFree, MayRunBeside, pre_dispatch_conflict-exact, check_parallel_conflict-exact,
}

abbrev as_is : String → String
as_is p = p

abbrev running : MissionV1
running = record {
  protocol_version = "1";
  session_id = "s";
  mission_id = "m1";
  spec_slug = "demo";
  task_id = "T1";
  attempt = pos 1;
  role = "craftsman";
  authority_ref = "a";
  declared_files = "a.go" ∷ "b.go" ∷ [];
  acceptance = [];
  verify = "go test ./...";
  context_ref = "c";
  context_digest = "c";
  config_digest = "c";
  palette_digest = "p";
  policy_digest = "p";
  subject_head = "abc";
  dispatch_digest = "";
  diff_digest = "";
  route_class = "r";
  route_reason = "r";
  worker = "";
  limits = record {
    max_attempts = pos 3;
    timeout_seconds = pos 60;
    max_tokens = pos 0;
    max_cost_micros = pos 0;
  };
  issued_at = 10;
  expires_at = 20;
  status = "pending";
}

abbrev candidate : MissionV1
candidate = record running { mission_id = "m2"; task_id = "T2"; declared_files = "b.go" ∷ [] }

abbrev isolated : CoordinationRule
isolated = record { digest = ""; ordered_tasks = []; isolation_id = "tree-2" }

pre_dispatch_conflict-exact_example :
    (pre_dispatch_conflict as_is "T2" ("b.go" ∷ []) (running ∷ []) (sample ∷ []) 15 ≡ none)
    ↔ All (IsFree as_is "T2" ("b.go" ∷ []) (running ∷ []) 15) (sample ∷ [])
pre_dispatch_conflict-exact_example =
    pre_dispatch_conflict-exact as_is "T2" ("b.go" ∷ []) (running ∷ []) (sample ∷ []) 15

check_parallel_conflict-exact_example :
    (check_parallel_conflict as_is candidate (running ∷ []) (sample ∷ []) isolated 15 ≡ none)
    ↔ All (MayRunBeside as_is candidate (running ∷ []) isolated 15) (sample ∷ [])
check_parallel_conflict-exact_example =
    check_parallel_conflict-exact as_is candidate (running ∷ []) (sample ∷ []) isolated 15
