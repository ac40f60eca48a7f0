-- ===== src/Mission.antt =====
-- internal/orchestration/mission.go, conflict.go, and the conflict tests of decide.go and worker.go:
-- missions, and which of them may run beside live leases.
-- `filepath.ToSlash(filepath.Clean(_))` is the parameter `clean`.
pub mod Overlap
pub mod Conflict
mod Tests
use specd.Prelude.{
  ℕ, suc, ◌+◌, String, Bool, false, not, ◌&&◌, ◌||◌, List, [], ◌∷◌, Option, none, some, ◌==◌, ltb,
  eqb, any, mem, if◌then◌else◌, ℤ, pos, same_int, less_int, length,
}
use specd.Lease.{Lease, before_expiry, is_active}

pub record MissionLimits : Type 0 where
  pub max_attempts : ℤ
  pub timeout_seconds : ℤ
  pub max_tokens : ℤ
  pub max_cost_micros : ℤ

pub record MissionV1 : Type 0 where
  pub protocol_version : String
  pub session_id : String
  pub mission_id : String
  pub spec_slug : String
  pub task_id : String
  pub attempt : ℤ
  pub role : String
  pub authority_ref : String
  pub declared_files : List String
  pub acceptance : List String
  pub verify : String
  pub context_ref : String
  pub context_digest : String
  pub config_digest : String
  pub palette_digest : String
  pub policy_digest : String
  pub subject_head : String
  pub dispatch_digest : String
  pub diff_digest : String
  pub route_class : String
  pub route_reason : String
  pub worker : String
  pub limits : MissionLimits
  pub issued_at : ℕ
  pub expires_at : ℕ
  pub status : String

pub data MissionError : Type 0 where
  version_unsupported required_pin_missing limit_invalid file_invalid : MissionError
  initial_status_invalid : String → MissionError

-- The loop over the declared files, from those that it has seen.
unfoldable pub repeats_file : (seen : List String) → List String → Bool
unfolding mem
repeats_file seen [] = false
repeats_file seen (f ∷ fs) = (f == "" || mem f seen) || repeats_file (f ∷ seen) fs

-- `n < 1`.
abbrev pub below_one : ℤ → Bool
below_one n = less_int n (pos 1)

abbrev pub lacks_pin : MissionV1 → Bool
lacks_pin m =
    m.session_id == ""
    || m.mission_id == ""
    || m.spec_slug == ""
    || m.task_id == ""
    || below_one m.attempt
    || m.role == ""
    || m.authority_ref == ""
    || m.verify == ""
    || m.context_ref == ""
    || m.context_digest == ""
    || m.config_digest == ""
    || m.palette_digest == ""
    || m.policy_digest == ""
    || m.subject_head == ""
    || m.route_class == ""
    || m.route_reason == ""
    || eqb m.issued_at 0
    || not (ltb m.issued_at m.expires_at)

unfoldable pub validate_mission : MissionV1 → Option MissionError
unfolding repeats_file
validate_mission m =
    if not (m.protocol_version == "1")
    then some version_unsupported
    else if lacks_pin m
    then some required_pin_missing
    else if not (m.status == "pending")
    then some (initial_status_invalid m.status)
    else if below_one m.limits.max_attempts || below_one m.limits.timeout_seconds
    then some limit_invalid
    else if repeats_file [] m.declared_files
    then some file_invalid
    else none

-- The last mission of that identifier: what the map `byID` holds.
unfoldable pub by_id : List MissionV1 → String → Option MissionV1
by_id [] id = none
by_id (m ∷ ms) id = elim (by_id ms id) [
  | some later ↦ some later
  | none ↦ if m.mission_id == id then some m else none
]

pub data ConflictError : Type 0 where
  parallel_mission_unknown : (mission_id : String) → ConflictError
  shared_worktree_serial : (active candidate : String) → ConflictError
  write_scope_conflict : (active candidate : String) → ConflictError
  lease_conflict : (task_id : String) → ℤ → ConflictError

pub record CoordinationRule : Type 0 where
  pub digest : String
  pub ordered_tasks : List String
  pub isolation_id : String

-- `slices.Index`, where `none` is its -1.
unfoldable pub index_of : List String → String → Option ℕ
index_of [] x = none
index_of (y ∷ ys) x =
    let rest = index_of ys x in
    if y == x then some 0 else elim rest [ none ↦ none | some i ↦ some (suc i) ]

-- `i >= 0 && j == i+1`.
abbrev pub is_next : Option ℕ → Option ℕ → Bool
is_next (some i) (some j) = eqb j (i + 1)
is_next _ _ = false

unfoldable pub coordinated : (first second : String) → CoordinationRule → Bool
unfolding index_of
coordinated first second rule =
    if rule.digest == "" || ltb (length rule.ordered_tasks) 2
    then false
    else is_next (index_of rule.ordered_tasks first) (index_of rule.ordered_tasks second)

-- A lease that is active at `now`.
abbrev pub is_live : ℕ → Lease → Bool
is_live now l = is_active l.state && before_expiry now l

unfoldable pub check_claim_conflict : List Lease → MissionV1 → (now : ℕ) → Option ConflictError
check_claim_conflict [] m now = none
check_claim_conflict (l ∷ ls) m now =
    let rest = check_claim_conflict ls m now in
    if l.task_id == m.task_id
      && same_int l.attempt m.attempt
      && is_active l.state
      && before_expiry now l
    then some (lease_conflict m.task_id m.attempt)
    else rest

module _ (clean : String → String) where
  unfoldable pub normalize_scope : String → String
  normalize_scope p = if p == "" then "" else clean p

  -- The keys of `seen`.
  unfoldable pub scope_keys : List String → List String
  unfolding normalize_scope
  scope_keys [] = []
  scope_keys (p ∷ ps) =
      let rest = scope_keys ps in if normalize_scope p == "" then rest else normalize_scope p ∷ rest

  unfoldable pub scopes_overlap : List String → List String → Bool
  unfolding scope_keys normalize_scope mem
  scopes_overlap a b = any (λ p. mem (normalize_scope p) (scope_keys a)) b

  -- One round of the loop of PreDispatchConflict, under the rest of them.
  unfoldable pub lease_overlap :
      (task_id : String)
      → (declared : List String) → (missions : List MissionV1) → Lease
      → Option ConflictError
  unfolding by_id scopes_overlap
  lease_overlap task_id declared missions l =
      if l.task_id == task_id then none else elim (by_id missions l.mission_id) [
        | none ↦ none
        | some m ↦
            if scopes_overlap declared m.declared_files
            then some (write_scope_conflict m.task_id task_id)
            else none
      ]

  unfoldable pub pre_dispatch_conflict :
      (task_id : String)
      → (declared : List String) → (missions : List MissionV1) → List Lease
      → (now : ℕ) → Option ConflictError
  unfolding lease_overlap
  pre_dispatch_conflict task_id declared missions [] now = none
  pre_dispatch_conflict task_id declared missions (l ∷ ls) now =
      let rest = pre_dispatch_conflict task_id declared missions ls now in
      if not (is_active l.state) || not (before_expiry now l)
      then rest
      else elim (lease_overlap task_id declared missions l) [ some e ↦ some e | none ↦ rest ]

  -- The tests of CheckParallelConflict on the mission of a live lease.
  unfoldable pub mission_error :
      (candidate active : MissionV1) → CoordinationRule → Option ConflictError
  unfolding coordinated scopes_overlap
  mission_error candidate active rule =
      if active.mission_id == candidate.mission_id
      then none
      else if coordinated active.task_id candidate.task_id rule
      then none
      else if rule.isolation_id == ""
      then some (shared_worktree_serial active.task_id candidate.task_id)
      else if scopes_overlap candidate.declared_files active.declared_files
      then some (write_scope_conflict active.task_id candidate.task_id)
      else none

  -- One round of its loop, for a live lease.
  unfoldable pub parallel_error :
      (candidate : MissionV1)
      → (missions : List MissionV1) → Lease
      → CoordinationRule
      → Option ConflictError
  unfolding by_id mission_error
  parallel_error candidate missions l rule = elim (by_id missions l.mission_id) [
    | none ↦ some (parallel_mission_unknown l.mission_id)
    | some m ↦ mission_error candidate m rule
  ]

  unfoldable pub check_parallel_conflict :
      (candidate : MissionV1)
      → (missions : List MissionV1) → List Lease
      → CoordinationRule
      → (now : ℕ) → Option ConflictError
  unfolding parallel_error
  check_parallel_conflict candidate missions [] rule now = none
  check_parallel_conflict candidate missions (l ∷ ls) rule now =
      let rest = check_parallel_conflict candidate missions ls rule now in
      if not (is_active l.state) || not (before_expiry now l)
      then rest
      else elim (parallel_error candidate missions l rule) [ some e ↦ some e | none ↦ rest ]
