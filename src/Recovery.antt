-- ===== src/Recovery.antt =====
-- internal/orchestration/acp.go, session.go, checkpoint.go, recover.go and mission.go
-- (ComputeMissionState): the append-only ledger of missions, the session of a controller, and what a
-- restart makes of a checkpoint and a ledger.
-- A ledger is the list of its events. `json.Unmarshal` of a payload is a parameter that answers
-- `none` where it fails. An `int64` revision is its bit pattern, below 2 ^ 64.
pub mod Ledger
pub mod Resume
mod Tests
use specd.Prelude.{
  ℕ, suc, ◌+◌, ◌%◌, ◌^◌, String, Bool, true, false, not, ◌&&◌, ◌||◌, List, [], ◌∷◌, ◌++◌, Option,
  none, some, ◌==◌, ltb, eqb, any, if◌then◌else◌, ◌≡◌, refl, ℤ, pos, same_int, less_int,
}
use text.Mathlib.Text.{find?}
use specd.Lease.{Lease, LeaseState, is_active, is_revoked, before_expiry}
use specd.Mission.{MissionV1}

-- The field Kind: a constructor for each constant.
pub data AcpKind : Type 0 where
  dispatch claim report cancel : AcpKind
  other : String → AcpKind

abbrev pub is_claim : AcpKind → Bool
is_claim AcpKind.claim = true
is_claim _ = false

abbrev pub is_report : AcpKind → Bool
is_report AcpKind.report = true
is_report _ = false

-- Telemetry, Observation, GitHead, ChangedFiles, VerifyRef and TraceDigest are left out: no operation
-- here reads them, and an event here is one that reports none of them.
pub record AcpEvent : Type 0 where
  pub time : ℕ
  pub kind : AcpKind
  pub task_id : String
  pub payload : String
  pub mission_id : String
  pub attempt : ℤ
  pub audit_id : ℤ
  pub audit_kind : String
  pub run_id : String
  pub policy_digest : String
  pub dispatch_digest : String

-- The count of NextAttempt.
unfoldable pub claims_of : List AcpEvent → String → ℕ
claims_of [] task_id = 0
claims_of (e ∷ es) task_id =
    let rest = claims_of es task_id in
    if is_claim e.kind && e.task_id == task_id then suc rest else rest

unfoldable pub next_attempt : List AcpEvent → String → ℕ
unfolding claims_of
next_attempt events task_id = claims_of events task_id + 1

unfoldable pub has_mission : List AcpEvent → String → Bool
has_mission events id = if id == "" then false else any (λ e. e.mission_id == id) events

unfoldable pub mission_event : List AcpEvent → String → Option AcpEvent
mission_event [] id = none
mission_event (e ∷ es) id =
    let rest = mission_event es id in
    if not (e.mission_id == "") && e.mission_id == id then some e else rest

pub data AuditError : Type 0 where
  missing_identity sensitive_data : AuditError
  unknown_kind : String → AuditError

-- The map `auditStage`.
unfoldable pub audit_stage : String → Option ℕ
audit_stage kind =
    if kind == "authority"
    then some 1
    else if kind == "tools"
    then some 2
    else if kind == "diff"
    then some 3
    else if kind == "scans"
    then some 4
    else if kind == "verify"
    then some 5
    else if kind == "review"
    then some 6
    else if kind == "exceptions"
    then some 7
    else if kind == "submit"
    then some 8
    else none

-- `strings.Contains`.
abbrev pub contains : String → String → Bool
contains s part = elim (find? s part) [ none ↦ false | some _ ↦ true ]

abbrev pub sensitive_markers : List String
sensitive_markers =
    "--token=" ∷ "password=" ∷ "secret=" ∷ "chain-of-thought" ∷ "hidden reasoning" ∷ []

-- The ledger after an append, or the error.
pub data Appended : Type 0 where
  appended : List AcpEvent → Appended
  duplicate_mission : String → Appended
  invalid_event : AuditError → Appended

-- AppendClaim numbers an attempt that the caller left open.
abbrev pub numbered : List AcpEvent → AcpEvent → AcpEvent
numbered events e =
    if same_int e.attempt (pos 0)
    then record e { kind = AcpKind.claim; attempt = pos (next_attempt events e.task_id) }
    else record e { kind = AcpKind.claim }

-- `strings.ToLower` is the parameter `to_lower`.
module _ (to_lower : String → String) where
  unfoldable pub validate_audit_event : AcpEvent → Option AuditError
  unfolding audit_stage
  validate_audit_event e =
      if same_int e.audit_id (pos 0) && e.audit_kind == ""
      then none
      else if less_int e.audit_id (pos 1)
          || e.run_id == ""
          || e.mission_id == ""
          || e.task_id == ""
          || e.policy_digest == ""
      then some missing_identity
      else elim (audit_stage e.audit_kind) [
        | none ↦ some (unknown_kind e.audit_kind)
        | some _ ↦
            if any (contains (to_lower e.payload)) sensitive_markers
            then some sensitive_data
            else none
      ]

  unfoldable pub append_acp : List AcpEvent → AcpEvent → Appended
  unfolding validate_audit_event
  append_acp events e = elim (validate_audit_event e) [
    | some error ↦ invalid_event error
    | none ↦ appended (events ++ e ∷ [])
  ]

  unfoldable pub append_claim : List AcpEvent → AcpEvent → Appended
  unfolding append_acp next_attempt
  append_claim events e = append_acp events (numbered events e)

  unfoldable pub append_dispatch : List AcpEvent → AcpEvent → Appended
  unfolding append_acp has_mission
  append_dispatch events e =
      if not (e.mission_id == "") && has_mission events e.mission_id
      then duplicate_mission e.mission_id
      else append_acp events (record e { kind = AcpKind.dispatch })

pub data SessionState : Type 0 where
  running cancelled complete crashed : SessionState
  unset : SessionState
  other : String → SessionState

pub record Session : Type 0 where
  pub id : String
  pub revision : ℕ
  pub state : SessionState
  pub step : ℤ
  pub leases : List Lease
  pub pending_missions : List MissionV1
  pub missions : List MissionV1
  pub waiting_approval : String

abbrev pub session_status : Session → SessionState
session_status s = elim s.state [ SessionState.unset ↦ SessionState.running | st ↦ st ]

unfoldable pub is_terminal : Session → Bool
is_terminal s = elim (session_status s) [
  | SessionState.cancelled ↦ true
  | SessionState.complete ↦ true
  | _ ↦ false
]

pub data Saved : Type 0 where
  saved : Session → Saved
  revision_conflict : Saved

-- SaveSessionCAS under the lock, from the session on disk.
unfoldable pub save_session_cas :
    (current : Session) → (expected_revision : ℕ) → (next : Session) → Saved
save_session_cas current expected next =
    if not (eqb current.revision expected)
    then revision_conflict
    else saved (record next { revision = (expected + 1) % 2 ^ 64 })

pub record Checkpoint : Type 0 where
  pub session_id : String
  pub step : ℤ
  pub wave : ℤ
  pub decision : String
  pub mission_id : String
  pub task_id : String
  pub mission : Option MissionV1
  pub lease : Option Lease
  pub time : ℕ

-- ResumePlan, whose three outcomes exclude each other.
pub data ResumePlan : Type 0 where
  nothing_to_do : ResumePlan
  reissue : Checkpoint → ResumePlan
  conflict : (mission_id : String) → (in_ledger in_checkpoint : String) → ResumePlan

-- `none` is a checkpoint that does not exist.
unfoldable pub plan_resume : Option Checkpoint → List AcpEvent → ResumePlan
unfolding mission_event
plan_resume none events = nothing_to_do
plan_resume (some cp) events =
    if cp.mission_id == "" then nothing_to_do else elim (mission_event events cp.mission_id) [
      | none ↦ reissue cp
      | some e ↦
          if not (e.task_id == cp.task_id)
          then conflict cp.mission_id e.task_id cp.task_id
          else nothing_to_do
    ]

unfoldable pub derive_status : Session → Option Checkpoint → List AcpEvent → SessionState
unfolding is_terminal has_mission
derive_status s cp events = if is_terminal s then session_status s else elim cp [
  | none ↦ SessionState.running
  | some c ↦
      if not (c.mission_id == "") && not (has_mission events c.mission_id)
      then SessionState.crashed
      else SessionState.running
]

contains_example : contains "a password=b" "password=" ≡ true
contains_example = refl

contains_absent : contains "password" "password=" ≡ false
contains_absent = refl
