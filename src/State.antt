-- ===== src/State.antt =====
-- internal/core/state.go: the state of a spec and its projection onto the canonical fields.
-- A Go map is the list of its entries. A `json.RawMessage` is the text of its JSON value without
-- spacing, since encoding indents it anew. An `int64` revision is its bit pattern, below 2 ^ 64.
pub mod Records
pub mod Governed
pub mod Store
pub mod Projection
pub mod Saved
pub mod Valid
pub mod Append
mod Tests
mod AppendTests
use specd.Prelude.{
  ℕ, ◌+◌, ◌%◌, ◌^◌, String, Bool, true, false, not, ◌&&◌, ◌||◌, List, [], ◌∷◌, Option, none, some,
  ◌==◌, eqb, if◌then◌else◌, ℤ, pos, same_int, ◌≡◌, refl,
}
use specd.Task.{TaskRunStatus}
use specd.Phases.{Status, Phase, Stage, Condition, valid_status, phase_for_status, same_status}

pub data Mode : Type 0 where
  default agent orchestrated : Mode
  other : String → Mode

unfoldable pub valid_mode : Mode → Bool
valid_mode (Mode.other _) = false
valid_mode _ = true

pub record State : Type 0 where
  pub schema_version : ℤ
  pub slug : String
  pub mode : Mode
  pub status : Status
  pub phase : Phase
  pub cycle : ℤ
  pub stage : Stage
  pub condition : Condition
  pub current_request : String
  pub revision : ℕ
  pub last_event_id : String
  pub records : List (String × String)
  pub task_status : List (String × TaskRunStatus)
  pub extra : List (String × String)

-- `StateSchemaVersion`.
abbrev pub state_schema_version : ℤ
state_schema_version = pos 2

unfoldable pub initial_state : String → State
unfolding phase_for_status
initial_state slug = record {
  schema_version = state_schema_version;
  slug = slug;
  mode = Mode.default;
  status = Status.requirements;
  phase = phase_for_status Status.requirements;
  cycle = pos 1;
  stage = Stage.requirements;
  condition = Condition.active;
  current_request = "";
  revision = 0;
  last_event_id = "";
  records = [];
  task_status = [];
  extra = [];
}

-- The conversion `Stage(s.Status)`.
abbrev pub stage_of_status : Status → Stage
stage_of_status Status.requirements = Stage.requirements
stage_of_status Status.design = Stage.design
stage_of_status Status.tasks = Stage.tasks
stage_of_status Status.executing = Stage.executing
stage_of_status Status.verifying = Stage.verifying
stage_of_status Status.complete = Stage.complete
stage_of_status Status.blocked = Stage.other "blocked"
stage_of_status (Status.other s) = if s == "" then Stage.unset else Stage.other s

-- `if s.Stage == StageComplete`.
abbrev condition_of_stage : Stage → Condition
condition_of_stage Stage.complete = Condition.complete
condition_of_stage _ = Condition.active

-- The last switch of projectCanonical.
unfoldable pub adopt_condition : Stage → Condition → Condition
adopt_condition stage Condition.unset = condition_of_stage stage
adopt_condition stage Condition.active = condition_of_stage stage
adopt_condition stage Condition.complete = condition_of_stage stage
adopt_condition stage Condition.blocked = condition_of_stage stage
adopt_condition stage condition = condition

-- `if s.Cycle == 0 { s.Cycle = 1 }`.
abbrev first_cycle : State → State
first_cycle s = if same_int s.cycle (pos 0) then record s { cycle = pos 1 } else s

-- projectCanonical after its first statement.
unfoldable pub project_stage : State → State
unfolding valid_status adopt_condition
project_stage s =
    if same_status s.status Status.blocked
    then record s { condition = Condition.blocked }
    else if not (valid_status s.status)
    then s
    else record s {
      stage = stage_of_status s.status;
      condition = adopt_condition (stage_of_status s.status) s.condition;
    }

unfoldable pub project_canonical : State → State
unfolding project_stage
project_canonical s = project_stage (first_cycle s)
