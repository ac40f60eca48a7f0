-- ===== src/State/Projection.antt =====
-- internal/core/state.go: what projectCanonical leaves, and what a validated state satisfies.
use specd.Prelude.{true, false, ◌≡◌, refl, inl, inr, arith, Bool-cases, pos, ◌∙◌, same_int}
use specd.Phases.{Status, Stage, Condition, same_status, valid_status}
use specd.State.{
  State, project_canonical, project_stage, first_cycle, adopt_condition, stage_of_status,
}

adopt_condition-twice :
    (stage : Stage) (c : Condition)
    → adopt_condition stage (adopt_condition stage c) ≡ adopt_condition stage c
unfolding adopt_condition
adopt_condition-twice stage c = ground arith

-- The three outcomes of project_stage.
abbrev pub block : State → State
block s = record s { condition = Condition.blocked }

abbrev pub adopt : State → State
adopt s = record s {
  stage = stage_of_status s.status;
  condition = adopt_condition (stage_of_status s.status) s.condition;
}

pub project_stage-blocked :
    (s : State) → same_status s.status Status.blocked ≡ true → project_stage s ≡ block s
unfolding project_stage
project_stage-blocked s e = rw e refl

pub project_stage-unknown :
    (s : State)
    → same_status s.status Status.blocked ≡ false
    → valid_status s.status ≡ false
    → project_stage s ≡ s
unfolding project_stage
project_stage-unknown s e f = rw (e, f) refl

pub project_stage-adopted :
    (s : State)
    → same_status s.status Status.blocked ≡ false
    → valid_status s.status ≡ true
    → project_stage s ≡ adopt s
unfolding project_stage
project_stage-adopted s e f = rw (e, f) refl

adopt-twice : (s : State) → adopt (adopt s) ≡ adopt s
adopt-twice s = rw (adopt_condition-twice (stage_of_status s.status) s.condition) refl

project_stage-twice : (s : State) → project_stage (project_stage s) ≡ project_stage s
project_stage-twice s = elim (Bool-cases (same_status s.status Status.blocked)) [
  | inl e ↦ rw (project_stage-blocked s e) (project_stage-blocked (block s) e)
  | inr e ↦ elim (Bool-cases (valid_status s.status)) [
    | inl f ↦ rw (project_stage-adopted s e f) (project_stage-adopted (adopt s) e f ∙ adopt-twice s)
    | inr f ↦ rw (project_stage-unknown s e f) (project_stage-unknown s e f)
  ]
]

project_stage-condition :
    (s : State)
    → (project_stage s).status ≡ Status.blocked
    → (project_stage s).condition ≡ Condition.blocked
project_stage-condition s = elim (Bool-cases (same_status s.status Status.blocked)) [
  | inl e ↦ rw (project_stage-blocked s e) (λ h. refl)
  | inr e ↦ elim (Bool-cases (valid_status s.status)) [
    | inl f ↦ rw (project_stage-adopted s e f) (λ h. cc (rw h at e))
    | inr f ↦ rw (project_stage-unknown s e f) (λ h. cc (rw h at e))
  ]
]

project_stage-cycle : (s : State) → (project_stage s).cycle ≡ s.cycle
project_stage-cycle s = elim (Bool-cases (same_status s.status Status.blocked)) [
  | inl e ↦ rw (project_stage-blocked s e) refl
  | inr e ↦ elim (Bool-cases (valid_status s.status)) [
    | inl f ↦ rw (project_stage-adopted s e f) refl
    | inr f ↦ rw (project_stage-unknown s e f) refl
  ]
]

first_cycle-done : (s : State) → same_int (first_cycle s).cycle (pos 0) ≡ false
first_cycle-done s = elim (Bool-cases (same_int s.cycle (pos 0))) [
  | inl e ↦ rw e refl
  | inr e ↦ rw (e, e) refl
]

first_cycle-same : (s : State) → same_int s.cycle (pos 0) ≡ false → first_cycle s ≡ s
first_cycle-same s e = rw e refl

-- Projecting twice is projecting once.
pub project_canonical-idempotent :
    (s : State) → project_canonical (project_canonical s) ≡ project_canonical s
unfolding project_canonical
project_canonical-idempotent s =
    rw
      (first_cycle-same (project_stage (first_cycle s))
        (rw (project_stage-cycle (first_cycle s)) (first_cycle-done s)))
      (project_stage-twice (first_cycle s))

-- A blocked status forces the blocked condition.
pub project_canonical-blocked :
    (s : State)
    → (project_canonical s).status ≡ Status.blocked
    → (project_canonical s).condition ≡ Condition.blocked
unfolding project_canonical
project_canonical-blocked s h = project_stage-condition (first_cycle s) h
