-- ===== src/Evidence.antt =====
-- internal/core/evidence.go (EvidenceRecord, EvidenceStatus) and escalation.go: the evidence of a task,
-- and when failures escalate it.
-- A map of records by task is a function, with `none` for a missing key. A time stamp is the text that
-- the code compares. An `int` is an integer.
pub mod Timeline
pub mod Escalation
pub mod Contract
pub mod Met
pub mod Quality
mod Tests
use Prim.Native.String.{◌++◌ as ◌<>◌}
use specd.Prelude.{
  ℕ, suc, ltb, ◌+◌, String, Bool, true, false, not, ◌&&◌, ◌||◌, List, [], ◌∷◌, ◌++◌, Option, none,
  some, ◌==◌, str_le, sort_by, any, keep, if◌then◌else◌, ℤ, pos, same_int, less_int,
}
use specd.Task.{TaskRow}
use specd.Task.Rewrite.{RewriteError, Rewritten, written, not_written, rewrite_task_status_line}

-- Telemetry is left out: a record here is one without it.
pub record EvidenceRecord : Type 0 where
  pub task_id : String
  pub command : String
  pub exit_code : ℤ
  pub git_head : String
  pub evidence_ref : String
  pub context_receipt_digest : String
  pub timestamp : String
  pub actor : String
  pub attempt : ℤ
  pub plan_revision : ℤ
  pub scope_revision : ℤ
  pub zero_test_detected : Bool

pub record OverrideRecord : Type 0 where
  pub task_id : String
  pub reason : String
  pub actor : String
  pub timestamp : String
  pub prior_fail_count : ℤ

pub data EvidenceStatusType : Type 0 where
  missing failing stale malformed incompatible passing invalid : EvidenceStatusType

unfoldable pub head_pinned : String → Bool
head_pinned head = not (head == "") && not (head == "unknown")

unfoldable pub evidence_status : EvidenceRecord → EvidenceStatusType
unfolding head_pinned
evidence_status r =
    if r.task_id == ""
    then EvidenceStatusType.missing
    else if r.zero_test_detected
    then EvidenceStatusType.invalid
    else if not (head_pinned r.git_head)
    then EvidenceStatusType.malformed
    else if not (same_int r.exit_code (pos 0))
    then EvidenceStatusType.failing
    else EvidenceStatusType.passing

-- An entry of the merged timeline of ConsecutiveVerifyFails.
pub record Event : Type 0 where
  pub ts : String
  pub sub : ℕ
  pub reset : Bool
  pub pass : Bool

unfoldable pub verify_events : List EvidenceRecord → (task_id : String) → List Event
verify_events [] task_id = []
verify_events (e ∷ es) task_id =
    let rest = verify_events es task_id in
    if not (e.task_id == task_id)
    then rest
    else record { ts = e.timestamp; sub = 0; reset = false; pass = same_int e.exit_code (pos 0) }
      ∷ rest

unfoldable pub override_events : List OverrideRecord → (task_id : String) → List Event
override_events [] task_id = []
override_events (o ∷ os) task_id =
    let rest = override_events os task_id in
    if not (o.task_id == task_id)
    then rest
    else record { ts = o.timestamp; sub = 1; reset = true; pass = false } ∷ rest

-- The order of `sort.SliceStable`, as "at most": by time stamp, then `sub`.
abbrev pub event_le : Event → Event → Bool
event_le a b = if a.ts == b.ts then not (ltb b.sub a.sub) else str_le a.ts b.ts

-- The loop that counts, from a count.
unfoldable pub count_fails : ℕ → List Event → ℕ
count_fails count [] = count
count_fails count (e ∷ es) = count_fails (if e.reset || e.pass then 0 else suc count) es

unfoldable pub timeline :
    List EvidenceRecord → List OverrideRecord → (task_id : String) → List Event
unfolding verify_events override_events sort_by
timeline evidence overrides task_id =
    sort_by event_le (verify_events evidence task_id ++ override_events overrides task_id)

unfoldable pub consecutive_verify_fails :
    List EvidenceRecord → List OverrideRecord → (task_id : String) → ℕ
unfolding timeline count_fails
consecutive_verify_fails evidence overrides task_id =
    count_fails 0 (timeline evidence overrides task_id)

unfoldable pub is_escalated : (consecutive_fails : ℕ) → (max_fails : ℤ) → Bool
is_escalated fails max_fails = less_int (pos 0) max_fails && not (less_int (pos fails) max_fails)

-- The map that EscalatedCounts fills, in the order of the tasks.
unfoldable pub escalated_counts :
    List EvidenceRecord → List OverrideRecord → List TaskRow → (max_fails : ℤ) → List (String × ℕ)
unfolding consecutive_verify_fails is_escalated
escalated_counts evidence overrides [] max_fails = []
escalated_counts evidence overrides (task ∷ tasks) max_fails =
    let count = consecutive_verify_fails evidence overrides task.id in
    let rest = escalated_counts evidence overrides tasks max_fails in
    if is_escalated count max_fails then (task.id, count) ∷ rest else rest
