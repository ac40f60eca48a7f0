-- ===== src/Phases/Tests.antt =====
-- internal/core/phases.go: the theorems at single steps and pairs.
use specd.Prelude.{◌≡◌, refl, ◌↔◌, none}
use specd.Phases.{
  Status, Phase, Stage, Condition, StageCondition, to_phase, advance_status,
  validate_stage_condition, valid_stage, valid_condition,
}
use specd.Phases.Lifecycle.{Next, IsLegal, advance_status-exact, validate_stage_condition-IsLegal}

advance_status-exact_example :
    (advance_status Status.design Status.tasks ≡ to_phase Phase.plan)
    ↔ Next Status.design Status.tasks Phase.plan
advance_status-exact_example = advance_status-exact Status.design Status.tasks Phase.plan

abbrev held : StageCondition
held = record { stage = Stage.executing; condition = Condition.blocked; current_request = "" }

held-valid : validate_stage_condition held ≡ none
unfolding validate_stage_condition valid_stage valid_condition
held-valid = refl

validate_stage_condition-IsLegal_example : (validate_stage_condition held ≡ none) ↔ IsLegal held
validate_stage_condition-IsLegal_example = validate_stage_condition-IsLegal held
