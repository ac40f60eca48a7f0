-- ===== src/Phases/Lifecycle.antt =====
-- internal/core/phases.go, AdvanceStatus: one step of the lifecycle, and where steps lead.
use specd.Prelude.{
  not-false, String, true, false, ◌≡◌, refl, ◌⊎◌, ◌↔◌, arith, none, ◌==◌, ◌≢◌, not, eq_iff, ◌&&◌,
  guard_iff,
}
use specd.Phases.{
  is_complete_stage, is_complete_condition, is_cancelled, is_waiting_approval, differ, Status,
  Phase, to_phase, advance_status, valid_status, Stage, Condition, StageCondition,
  validate_stage_condition, project_status, valid_stage, valid_condition,
}

-- The lifecycle of the documents: each status with the phase of its only successor.
pub data Next : Status → Status → Phase → Type 0 where
  to_design : Next Status.requirements Status.design Phase.analyze
  to_tasks : Next Status.design Status.tasks Phase.plan
  to_executing : Next Status.tasks Status.executing Phase.execute
  to_verifying : Next Status.executing Status.verifying Phase.verify
  to_complete : Next Status.verifying Status.complete Phase.reflect

pub Next-advance : {s t : Status} {p : Phase} → Next s t p → advance_status s t ≡ to_phase p
unfolding advance_status
Next-advance to_design = refl
Next-advance to_tasks = refl
Next-advance to_executing = refl
Next-advance to_verifying = refl
Next-advance to_complete = refl

advance-Next : (s t : Status) (p : Phase) → advance_status s t ≡ to_phase p → Next s t p
unfolding advance_status
advance-Next Status.requirements Status.design p h =
    let e : Phase.analyze ≡ p = cc in rw (← e) to_design
advance-Next Status.design Status.tasks p h = let e : Phase.plan ≡ p = cc in rw (← e) to_tasks
advance-Next Status.tasks Status.executing p h =
    let e : Phase.execute ≡ p = cc in rw (← e) to_executing
advance-Next Status.executing Status.verifying p h =
    let e : Phase.verify ≡ p = cc in rw (← e) to_verifying
advance-Next Status.verifying Status.complete p h =
    let e : Phase.reflect ≡ p = cc in rw (← e) to_complete
advance-Next _ _ p h = cc

-- AdvanceStatus succeeds exactly along the lifecycle, and answers with the phase of the new status.
pub advance_status-exact :
    (s t : Status) (p : Phase) → (advance_status s t ≡ to_phase p) ↔ Next s t p
advance_status-exact s t p = (advance-Next s t p, Next-advance)

-- A legal pair: cancelled at any stage; otherwise complete together or not at all, with a request
-- where approval is awaited.
pub record IsLegal (sc : StageCondition) : Type 0 where
  pub known_stage : (sc.stage ≢ Stage.unset) × ((s : String) → sc.stage ≢ Stage.other s)
  pub known_condition :
      (sc.condition ≢ Condition.unset) × ((s : String) → sc.condition ≢ Condition.other s)
  pub finished :
      (sc.condition ≡ Condition.cancelled)
      ⊎ ((sc.stage ≡ Stage.complete) ↔ (sc.condition ≡ Condition.complete))
  pub answerable : sc.condition ≡ Condition.waiting_approval → sc.current_request ≢ ""

known_stage_lem :
    (s : Stage) → (valid_stage s ≡ true) ↔ ((s ≢ Stage.unset) × ((t : String) → s ≢ Stage.other t))
unfolding valid_stage
known_stage_lem Stage.unset = (λ h. cc, λ k. absurd (k.0 refl))
known_stage_lem (Stage.other t) = (λ h. cc, λ k. absurd (k.1 t refl))
known_stage_lem Stage.requirements = (λ h. (λ e. cc, λ t e. cc), λ k. refl)
known_stage_lem Stage.design = (λ h. (λ e. cc, λ t e. cc), λ k. refl)
known_stage_lem Stage.tasks = (λ h. (λ e. cc, λ t e. cc), λ k. refl)
known_stage_lem Stage.executing = (λ h. (λ e. cc, λ t e. cc), λ k. refl)
known_stage_lem Stage.verifying = (λ h. (λ e. cc, λ t e. cc), λ k. refl)
known_stage_lem Stage.complete = (λ h. (λ e. cc, λ t e. cc), λ k. refl)

known_condition_lem :
    (c : Condition)
    → (valid_condition c ≡ true) ↔ ((c ≢ Condition.unset) × ((t : String) → c ≢ Condition.other t))
unfolding valid_condition
known_condition_lem Condition.unset = (λ h. cc, λ k. absurd (k.0 refl))
known_condition_lem (Condition.other t) = (λ h. cc, λ k. absurd (k.1 t refl))
known_condition_lem Condition.active = (λ h. (λ e. cc, λ t e. cc), λ k. refl)
known_condition_lem Condition.waiting_approval = (λ h. (λ e. cc, λ t e. cc), λ k. refl)
known_condition_lem Condition.waiting_clarification = (λ h. (λ e. cc, λ t e. cc), λ k. refl)
known_condition_lem Condition.paused = (λ h. (λ e. cc, λ t e. cc), λ k. refl)
known_condition_lem Condition.blocked = (λ h. (λ e. cc, λ t e. cc), λ k. refl)
known_condition_lem Condition.cancelled = (λ h. (λ e. cc, λ t e. cc), λ k. refl)
known_condition_lem Condition.complete = (λ h. (λ e. cc, λ t e. cc), λ k. refl)

complete_stage_lem : (s : Stage) → (is_complete_stage s ≡ true) ↔ (s ≡ Stage.complete)
complete_stage_lem s = ground arith

complete_condition_lem :
    (c : Condition) → (is_complete_condition c ≡ true) ↔ (c ≡ Condition.complete)
complete_condition_lem c = ground arith

cancelled_lem : (c : Condition) → (is_cancelled c ≡ true) ↔ (c ≡ Condition.cancelled)
cancelled_lem c = ground arith

waiting_lem : (c : Condition) → (is_waiting_approval c ≡ true) ↔ (c ≡ Condition.waiting_approval)
waiting_lem c = ground arith

finished_lem :
    (s : Stage) (c : Condition)
    → (not (is_cancelled c) && differ (is_complete_stage s) (is_complete_condition c) ≡ false)
      ↔ ((c ≡ Condition.cancelled) ⊎ ((s ≡ Stage.complete) ↔ (c ≡ Condition.complete)))
finished_lem s c = ground (arith, cancelled_lem c, complete_stage_lem s, complete_condition_lem c)

request_lem :
    (sc : StageCondition)
    → (is_waiting_approval sc.condition && sc.current_request == "" ≡ false)
      ↔ (sc.condition ≡ Condition.waiting_approval → sc.current_request ≢ "")
request_lem sc = ground (arith, waiting_lem sc.condition, eq_iff sc.current_request "")

IsLegal-validate : (sc : StageCondition) → IsLegal sc → validate_stage_condition sc ≡ none
unfolding validate_stage_condition
IsLegal-validate sc legal =
    rw
      (
        (known_stage_lem sc.stage).1 legal.known_stage,
        (known_condition_lem sc.condition).1 legal.known_condition,
        (finished_lem sc.stage sc.condition).1 legal.finished,
        (request_lem sc).1 legal.answerable,
      )
      refl

validate-IsLegal : (sc : StageCondition) → validate_stage_condition sc ≡ none → IsLegal sc
unfolding validate_stage_condition
validate-IsLegal sc h =
    let (a, ha) = (guard_iff (not (valid_stage sc.stage)) _ _).0 h in
    let (b, hb) = (guard_iff (not (valid_condition sc.condition)) _ _).0 ha in
    let (c, hc) =
      (guard_iff
          (not (is_cancelled sc.condition)
            && differ (is_complete_stage sc.stage) (is_complete_condition sc.condition))
          _ _).0
        hb in
    let (d, hd) =
      (guard_iff (is_waiting_approval sc.condition && sc.current_request == "") _ _).0 hc in
    record {
      known_stage = (known_stage_lem sc.stage).0 (not-false _ a);
      known_condition = (known_condition_lem sc.condition).0 (not-false _ b);
      finished = (finished_lem sc.stage sc.condition).0 c;
      answerable = (request_lem sc).0 d;
    }

-- ValidateStageCondition accepts exactly the legal pairs: a known stage and a known condition, which
-- are complete together unless the condition is cancelled, and a request where approval is awaited.
pub validate_stage_condition-IsLegal :
    (sc : StageCondition) → (validate_stage_condition sc ≡ none) ↔ IsLegal sc
validate_stage_condition-IsLegal sc = (validate-IsLegal sc, IsLegal-validate sc)

-- The single-axis status of a valid pair is a valid status: `blocked` for a blocked or cancelled
-- condition, and `complete` exactly where both axes are complete.
pub project_status-valid :
    (sc : StageCondition)
    → validate_stage_condition sc ≡ none
    → (valid_status (project_status sc) ≡ true)
      × ((project_status sc ≡ Status.blocked)
          ↔ ((sc.condition ≡ Condition.blocked) ⊎ (sc.condition ≡ Condition.cancelled)))
      × ((project_status sc ≡ Status.complete)
          ↔ ((sc.stage ≡ Stage.complete) × (sc.condition ≡ Condition.complete)))
unfolding validate_stage_condition valid_stage valid_condition project_status valid_status
project_status-valid sc h = ground arith
