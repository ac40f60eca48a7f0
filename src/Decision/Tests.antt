-- ===== src/Decision/Tests.antt =====
-- internal/orchestration/decide.go and driver.go: the theorems at a frontier of two tasks.
use specd.Prelude.{String, false, true, [], ◌∷◌, none, some, pos, ◌≡◌, ◌≢◌, refl, ◌↔◌, sort_by}
use specd.Task.{TaskRunStatus}
use specd.Phases.{Phase}
use specd.Frontier.Workers.{FrontierTask}
use specd.Lease.{escalation}
use specd.Decision.{
  Snapshot, DecisionLimits, Action, decide, dispatch_frontier, evaluate_brakes, measured_brakes,
  decide_dispatch, first_stop,
}
use specd.Decision.Dispatch.{IsFree, decide-IsFree, dispatch_frontier_complete}

abbrev task : String → FrontierTask
task id = record {
  id = id;
  role = "craftsman";
  verify = "go test ./...";
  terminal = TaskRunStatus.pending;
  worker = "";
  continues = false;
}

abbrev two : Snapshot
two = record {
  revision = pos 3;
  phase = Phase.execute;
  records = [];
  frontier = task "T3" ∷ task "T2" ∷ [];
  leases = [];
  now = 12;
  cost_micros = pos 0;
  tokens = pos 0;
  telemetry_known = false;
  telemetry_trusted = false;
}

abbrev limits : DecisionLimits
limits = record {
  deadline = 0;
  max_retries = pos 2;
  allow_dispatch = true;
  max_cost_micros = pos 0;
  max_tokens = pos 0;
  require_telemetry = false;
  workers = none;
  approval = none;
}

two-dispatched : (decide two limits).action ≡ Action.dispatch
unfolding decide evaluate_brakes measured_brakes escalation decide_dispatch first_stop sort_by
two-dispatched = refl

decide-IsFree_example :
    ((decide two limits).action ≡ Action.dispatch) ↔ (IsFree two limits × (two.frontier ≢ []))
decide-IsFree_example = decide-IsFree two limits

dispatch_frontier_complete_example :
    ((dispatch_frontier two limits).0 ≡ decide two limits)
    × (((decide two limits).action ≡ Action.dispatch) ↔ (
        (t : FrontierTask) × ((dispatch_frontier two limits).1 ≡ some t)
        × (t.id ≡ (decide two limits).task_id)))
dispatch_frontier_complete_example = dispatch_frontier_complete two limits
