-- ===== src/Decision.antt =====
-- internal/orchestration/decide.go, brakes.go, driver.go and sense.go (Snapshot): one tick of the
-- controller.
-- A WorkerPresence is the answer of its only method, `none` where the field is nil. The records of a
-- snapshot are texts. A cost or token count is an integer.
pub mod Dispatch
mod Tests
use specd.Prelude.{
  ℕ, String, Bool, true, false, not, ◌&&◌, ◌||◌, List, [], ◌∷◌, Option, none, some, ◌==◌, ltb, eqb,
  str_le, sort_by, if◌then◌else◌, ℤ, pos, less_int,
}
use Prim.Native.String.{◌++◌}
use specd.Phases.{Phase}
use specd.Frontier.Workers.{FrontierTask}
use specd.Lease.{Lease, Reclaim, escalation}

pub record Snapshot : Type 0 where
  pub revision : ℤ
  pub phase : Phase
  pub records : List (String × String)
  pub frontier : List FrontierTask
  pub leases : List Lease
  pub now : ℕ
  pub cost_micros : ℤ
  pub tokens : ℤ
  pub telemetry_known : Bool
  pub telemetry_trusted : Bool

pub data Action : Type 0 where
  wait dispatch halt timeout escalate waiting_approval : Action
  -- Go's empty string: no decision.
  unset : Action

pub record ApprovalHandoff : Type 0 where
  pub gate : String
  pub route : String
  pub actor : String
  pub blocked : Bool

abbrev pub handoff_reason : ApprovalHandoff → String
handoff_reason h =
    if h.blocked
    then "waiting_approval: lifecycle gate " ++ h.gate
      ++ " cannot be approved by anyone while its readiness gates refuse; run `" ++ h.route ++ "`"
    else "waiting_approval: lifecycle gate " ++ h.gate ++ " requires " ++ h.actor
      ++ " approval; run `" ++ h.route ++ "`"

pub record DecisionLimits : Type 0 where
  pub deadline : ℕ
  pub max_retries : ℤ
  pub allow_dispatch : Bool
  pub max_cost_micros : ℤ
  pub max_tokens : ℤ
  pub require_telemetry : Bool
  pub workers : Option Bool
  pub approval : Option ApprovalHandoff

pub record Decision : Type 0 where
  pub action : Action
  pub task_id : String
  pub reason : String
  pub handoff : Option ApprovalHandoff

abbrev pub decide_to : Action → (reason : String) → Decision
decide_to action reason = record { action = action; task_id = ""; reason = reason; handoff = none }

abbrev pub brake_reason : String → (trusted : Bool) → String
brake_reason base trusted = if trusted then base else base ++ " (untrusted telemetry)"

-- `limit > 0 && known && value > limit`.
abbrev pub exceeds : (limit : ℤ) → (known : Bool) → (value : ℤ) → Bool
exceeds limit known value = less_int (pos 0) limit && known && less_int limit value

-- The brakes after the required telemetry.
unfoldable pub measured_brakes : Snapshot → DecisionLimits → Decision
measured_brakes s limits =
    if exceeds limits.max_cost_micros s.telemetry_known s.cost_micros
    then decide_to Action.halt (brake_reason "cost limit exceeded" s.telemetry_trusted)
    else if exceeds limits.max_tokens s.telemetry_known s.tokens
    then decide_to Action.halt (brake_reason "token limit exceeded" s.telemetry_trusted)
    else if not (eqb limits.deadline 0) && not (ltb s.now limits.deadline)
    then decide_to Action.timeout "deadline reached"
    else decide_to Action.unset ""

unfoldable pub evaluate_brakes : Snapshot → DecisionLimits → Decision
unfolding measured_brakes
evaluate_brakes s limits =
    if limits.require_telemetry && not s.telemetry_known
    then decide_to Action.halt "required telemetry unknown"
    else if limits.require_telemetry && not s.telemetry_trusted
    then decide_to Action.halt
        "required telemetry untrusted: only worker-reported accounting hints present; supply a trusted (host/adapter/attested) source"
    else measured_brakes s limits

abbrev pub is_unset_action : Action → Bool
is_unset_action Action.unset = true
is_unset_action _ = false

abbrev pub is_dispatch_action : Action → Bool
is_dispatch_action Action.dispatch = true
is_dispatch_action _ = false

-- The order of `sort.SliceStable`: `frontier[i].ID < frontier[j].ID`, kept stable.
abbrev pub id_le : FrontierTask → FrontierTask → Bool
id_le a b = str_le a.id b.id

abbrev pub frontier_empty : Option ApprovalHandoff → Decision
frontier_empty (some h) = record {
  action = Action.waiting_approval;
  task_id = "";
  reason = handoff_reason h;
  handoff = some h;
}
frontier_empty none =
    decide_to Action.wait
      "waiting: frontier empty (no task has all dependencies resolved); inspect with `specd status <slug> --guide`"

abbrev pub dispatch_first : List FrontierTask → Option ApprovalHandoff → Decision
dispatch_first [] approval = frontier_empty approval
dispatch_first (t ∷ ts) approval = record {
  action = Action.dispatch;
  task_id = t.id;
  reason = "frontier ready";
  handoff = none;
}

-- `limits.Workers != nil && !limits.Workers.WorkerAvailable()`.
abbrev pub lacks_worker : Option Bool → Bool
lacks_worker none = false
lacks_worker (some available) = not available

abbrev pub is_nil : List FrontierTask → Bool
is_nil [] = true
is_nil (t ∷ ts) = false

-- What Decide does once neither a brake nor an escalation stops it.
unfoldable pub decide_dispatch : Snapshot → DecisionLimits → Decision
unfolding sort_by
decide_dispatch s limits =
    if not limits.allow_dispatch
    then decide_to Action.wait
        "waiting: dispatch authority absent; grant it with `specd brain run <slug> --authority`"
    else if is_nil s.frontier
    then frontier_empty limits.approval
    else if lacks_worker limits.workers
    then decide_to Action.wait
        "waiting: no worker definition for active harness; repair with `specd init --repair`"
    else dispatch_first (sort_by id_le s.frontier) limits.approval

-- A brake comes first, then an escalation, then the rest of Decide.
unfoldable pub first_stop : (brake : Decision) → Reclaim → (rest : Decision) → Decision
first_stop brake reclaim rest =
    if not (is_unset_action brake.action)
    then brake
    else if not (reclaim.task_id == "")
    then record {
      action = Action.escalate;
      task_id = reclaim.task_id;
      reason = reclaim.reason;
      handoff = none;
    }
    else rest

unfoldable pub decide : Snapshot → DecisionLimits → Decision
unfolding evaluate_brakes escalation decide_dispatch first_stop
decide s limits =
    first_stop (evaluate_brakes s limits) (escalation s.leases limits.max_retries s.now)
      (decide_dispatch s limits)

-- What DispatchFrontier hands to its dispatcher: the decision, and the task if one is dispatched.
unfoldable pub find_task : List FrontierTask → String → Option FrontierTask
find_task [] id = none
find_task (t ∷ ts) id = let rest = find_task ts id in if t.id == id then some t else rest

unfoldable pub dispatch_frontier : Snapshot → DecisionLimits → Decision × Option FrontierTask
unfolding decide find_task
dispatch_frontier s limits =
    let decision = decide s limits in
    if not (is_dispatch_action decision.action)
    then (decision, none)
    else elim (find_task s.frontier decision.task_id) [
      | some t ↦ (decision, some t)
      | none ↦ (decide_to Action.wait "selected task not found", none)
    ]
