-- ===== src/State/Governed.antt =====
-- internal/core/state.go, Validate: the checks of a state before it is written and after it is read.
use specd.Prelude.{
  String, Bool, true, false, not, ◌&&◌, Option, none, some, ◌==◌, if◌then◌else◌, pos, same_int,
  less_int, ℤ,
}
use specd.Phases.{
  Status, Phase, Stage, StageCondition, StageError, valid_status, valid_phase, phase_for_status,
  same_status, same_phase, project_status, validate_stage_condition,
}
use specd.Approval.{approval_request_pending}
use specd.State.{State, Mode, valid_mode, project_canonical, state_schema_version}
use specd.State.Records.{
  Decoders, RecordError, Read, records, failed, amendments, spikes, approval_requests,
}

pub data StateError : Type 0 where
  unsupported_schema : ℤ → StateError
  slug_required : StateError
  invalid_mode : Mode → StateError
  invalid_status : Status → StateError
  invalid_cycle : ℤ → StateError
  legacy_blocked : StateError
  bad_stage : StageError → StateError
  not_the_projection : Status → (projected : Status) → StateError
  invalid_phase : Phase → StateError
  other_phase : Phase → Status → StateError
  bad_amendment bad_spike bad_request : RecordError → StateError
  request_not_open : String → StateError

abbrev pub is_unset_stage : Stage → Bool
is_unset_stage Stage.unset = true
is_unset_stage _ = false

abbrev pub is_blocked : Status → Bool
is_blocked status = same_status status Status.blocked

abbrev pub stage_condition_of : State → StageCondition
stage_condition_of s = record {
  stage = s.stage;
  condition = s.condition;
  current_request = s.current_request;
}

-- `if err != nil { return ... }`, and the rest on success.
abbrev pub or_failed {ℓ} :
    {A : Type ℓ} → Read A → (RecordError → StateError) → Option StateError → Option StateError
or_failed (failed e) wrap rest = some (wrap e)
or_failed (records l) wrap rest = rest

module _ (d : Decoders) where
  -- The last check: a request that the stage waits for is open.
  unfoldable pub validate_request : State → Option StateError
  unfolding approval_requests
  validate_request s = elim (approval_requests d s) [
    | failed e ↦ some (bad_request e)
    | records requests ↦
        if not (s.current_request == "")
          && not (approval_request_pending requests s.current_request)
        then some (request_not_open s.current_request)
        else none
  ]

  unfoldable pub validate_records : State → Option StateError
  unfolding amendments spikes validate_request
  validate_records s =
      or_failed (amendments d s) bad_amendment
        (or_failed (spikes d s) bad_spike (validate_request s))

  -- The checks from ValidatePhase on.
  unfoldable pub validate_phase : State → Option StateError
  unfolding valid_phase phase_for_status validate_records
  validate_phase s =
      if not (valid_phase s.phase)
      then some (invalid_phase s.phase)
      else if not (same_phase s.phase (phase_for_status s.status)) && not (is_blocked s.status)
      then some (other_phase s.phase s.status)
      else validate_records s

  unfoldable pub validate_axes : State → Option StateError
  unfolding validate_stage_condition project_status validate_phase
  validate_axes s =
      if is_unset_stage s.stage && is_blocked s.status
      then some legacy_blocked
      else elim (validate_stage_condition (stage_condition_of s)) [
        | some e ↦ some (bad_stage e)
        | none ↦
            if not (same_status (project_status (stage_condition_of s)) s.status)
            then some (not_the_projection s.status (project_status (stage_condition_of s)))
            else validate_phase s
      ]

  -- Validate on the projected copy.
  unfoldable pub validate_projected : State → Option StateError
  unfolding valid_mode valid_status validate_axes
  validate_projected s =
      if not (same_int s.schema_version state_schema_version)
      then some (unsupported_schema s.schema_version)
      else if s.slug == ""
      then some slug_required
      else if not (valid_mode s.mode)
      then some (invalid_mode s.mode)
      else if not (valid_status s.status)
      then some (invalid_status s.status)
      else if less_int s.cycle (pos 1)
      then some (invalid_cycle s.cycle)
      else validate_axes s

  unfoldable pub validate : State → Option StateError
  unfolding validate_projected project_canonical
  validate s = validate_projected (project_canonical s)
