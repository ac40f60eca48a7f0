-- ===== src/Phases.antt =====
-- internal/core/phases.go: the statuses, phases, stages and conditions of a spec, and the lifecycle.
-- A status, phase, stage or condition is a Go string: a constructor for each constant, `unset` for the
-- empty string where the code asks for it, and `other` for any other text.
pub mod Lifecycle
mod Tests
use specd.Prelude.{
  ℕ, suc, ◌+◌, String, Bool, true, false, not, ◌&&◌, ◌||◌, List, [], ◌∷◌, map, Option, none, some,
  ◌==◌, leb, eqb, any, if◌then◌else◌, length,
}

pub data Status : Type 0 where
  requirements design tasks executing verifying complete blocked : Status
  other : String → Status

pub data Phase : Type 0 where
  perceive analyze plan execute verify reflect any_phase : Phase
  -- Go's zero value, which `phaseForStatus` answers for a status that it lacks.
  unset : Phase
  other : String → Phase

abbrev pub status_order : List Status
status_order =
    Status.requirements ∷ Status.design ∷ Status.tasks ∷ Status.executing ∷ Status.verifying
    ∷ Status.complete ∷ []

-- `==` on statuses.
abbrev pub same_status : Status → Status → Bool
same_status Status.requirements Status.requirements = true
same_status Status.design Status.design = true
same_status Status.tasks Status.tasks = true
same_status Status.executing Status.executing = true
same_status Status.verifying Status.verifying = true
same_status Status.complete Status.complete = true
same_status Status.blocked Status.blocked = true
same_status (Status.other s) (Status.other t) = s == t
same_status _ _ = false

abbrev pub same_phase : Phase → Phase → Bool
same_phase Phase.perceive Phase.perceive = true
same_phase Phase.analyze Phase.analyze = true
same_phase Phase.plan Phase.plan = true
same_phase Phase.execute Phase.execute = true
same_phase Phase.verify Phase.verify = true
same_phase Phase.reflect Phase.reflect = true
same_phase Phase.any_phase Phase.any_phase = true
same_phase Phase.unset Phase.unset = true
same_phase (Phase.other s) (Phase.other t) = s == t
same_phase _ _ = false

-- The map `phaseForStatus`.
abbrev pub phase_for_status? : Status → Option Phase
phase_for_status? Status.requirements = some Phase.perceive
phase_for_status? Status.design = some Phase.analyze
phase_for_status? Status.tasks = some Phase.plan
phase_for_status? Status.executing = some Phase.execute
phase_for_status? Status.verifying = some Phase.verify
phase_for_status? Status.complete = some Phase.reflect
phase_for_status? Status.blocked = some Phase.reflect
phase_for_status? (Status.other _) = none

unfoldable pub phase_for_status : Status → Phase
phase_for_status status = elim (phase_for_status? status) [ none ↦ Phase.unset | some p ↦ p ]

unfoldable pub valid_status : Status → Bool
valid_status status = elim (phase_for_status? status) [ none ↦ false | some _ ↦ true ]

-- The values of the map `phaseForStatus`.
abbrev pub known_phases : List Phase
known_phases =
    Phase.perceive ∷ Phase.analyze ∷ Phase.plan ∷ Phase.execute ∷ Phase.verify ∷ Phase.reflect
    ∷ Phase.reflect ∷ []

unfoldable pub valid_phase : Phase → Bool
valid_phase phase = any (same_phase phase) known_phases

-- The loop of statusIndex from position `i`. `none` is its -1.
unfoldable pub index_from : ℕ → List Status → Status → Option ℕ
index_from i [] status = none
index_from i (known ∷ rest) status =
    let later = index_from (i + 1) rest status in if same_status status known then some i else later

unfoldable pub status_index : Status → Option ℕ
unfolding index_from
status_index status = index_from 0 status_order status

-- `fromIndex >= 0 && toIndex == fromIndex+1`.
abbrev follows : Option ℕ → Option ℕ → Bool
follows (some i) (some j) = eqb j (i + 1)
follows _ _ = false

unfoldable pub can_advance_status : Status → Status → Bool
unfolding status_index
can_advance_status from to = follows (status_index from) (status_index to)

pub data AdvanceError : Type 0 where
  invalid_current invalid_target : Status → AdvanceError
  no_successor : Status → AdvanceError
  not_the_successor : (current next : Status) → AdvanceError

pub data Advance : Type 0 where
  to_phase : Phase → Advance
  refused : AdvanceError → Advance

-- `currentIndex < 0 || currentIndex+1 >= len(statusOrder)`.
abbrev is_last : Option ℕ → Bool
is_last none = true
is_last (some i) = leb (length status_order) (i + 1)

unfoldable pub advance_status : Status → Status → Advance
unfolding can_advance_status valid_status phase_for_status
advance_status current next =
    if not (valid_status current)
    then refused (invalid_current current)
    else if is_last (status_index current)
    then refused (no_successor current)
    else if not (valid_status next)
    then refused (invalid_target next)
    else if not (can_advance_status current next)
    then refused (not_the_successor current next)
    else to_phase (phase_for_status next)

pub data Stage : Type 0 where
  requirements design tasks executing verifying complete : Stage
  unset : Stage
  other : String → Stage

pub data Condition : Type 0 where
  active waiting_approval waiting_clarification paused blocked cancelled complete : Condition
  unset : Condition
  other : String → Condition

pub record StageCondition : Type 0 where
  pub stage : Stage
  pub condition : Condition
  pub current_request : String

unfoldable pub valid_stage : Stage → Bool
valid_stage Stage.unset = false
valid_stage (Stage.other _) = false
valid_stage _ = true

unfoldable pub valid_condition : Condition → Bool
valid_condition Condition.unset = false
valid_condition (Condition.other _) = false
valid_condition _ = true

abbrev pub is_complete_stage : Stage → Bool
is_complete_stage Stage.complete = true
is_complete_stage _ = false

abbrev pub is_complete_condition : Condition → Bool
is_complete_condition Condition.complete = true
is_complete_condition _ = false

abbrev pub is_cancelled : Condition → Bool
is_cancelled Condition.cancelled = true
is_cancelled _ = false

abbrev pub is_waiting_approval : Condition → Bool
is_waiting_approval Condition.waiting_approval = true
is_waiting_approval _ = false

-- `a != b`.
abbrev pub differ : Bool → Bool → Bool
differ true b = not b
differ false b = b

pub data StageError : Type 0 where
  invalid_stage : Stage → StageError
  invalid_condition : Condition → StageError
  invalid_pair : Stage → Condition → StageError
  request_required : StageError

-- `none` is Go's nil error.
unfoldable pub validate_stage_condition : StageCondition → Option StageError
unfolding valid_stage valid_condition
validate_stage_condition sc =
    if not (valid_stage sc.stage)
    then some (invalid_stage sc.stage)
    else if not (valid_condition sc.condition)
    then some (invalid_condition sc.condition)
    else if not (is_cancelled sc.condition)
        && differ (is_complete_stage sc.stage) (is_complete_condition sc.condition)
    then some (invalid_pair sc.stage sc.condition)
    else if is_waiting_approval sc.condition && sc.current_request == ""
    then some request_required
    else none

-- The conversion `Status(sc.Stage)`.
abbrev pub status_of_stage : Stage → Status
status_of_stage Stage.requirements = Status.requirements
status_of_stage Stage.design = Status.design
status_of_stage Stage.tasks = Status.tasks
status_of_stage Stage.executing = Status.executing
status_of_stage Stage.verifying = Status.verifying
status_of_stage Stage.complete = Status.complete
status_of_stage Stage.unset = Status.other ""
status_of_stage (Stage.other s) = Status.other s

unfoldable pub project_status : StageCondition → Status
project_status sc = elim sc.condition [
  | Condition.blocked ↦ Status.blocked
  | Condition.cancelled ↦ Status.blocked
  | _ ↦ status_of_stage sc.stage
]
