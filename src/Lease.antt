-- ===== src/Lease.antt =====
-- internal/orchestration/lease.go, heartbeat.go, cancel.go, and the lease tests of decide.go,
-- worker.go and recover.go: leases, their renewal, revocation and expiry.
-- An instant is a number of nanoseconds since Go's zero time, which is 0; a `time.Duration` and an
-- `int` are integers.
pub mod Samples
pub mod Expiry
pub mod Renewal
pub mod Release
mod Tests
use specd.Prelude.{
  ℕ, ◌+◌, ◌-◌, String, Bool, true, false, not, ◌&&◌, ◌||◌, List, [], ◌∷◌, Option, none, some, ◌==◌,
  ltb, eqb, any, if◌then◌else◌, ℤ, pos, negsuc, same_int, less_int,
}
use specd.Authority.{AuthorityV1}

-- `unset` is Go's empty string.
pub data LeaseState : Type 0 where
  active revoked expired : LeaseState
  unset : LeaseState
  other : String → LeaseState

abbrev pub is_active : LeaseState → Bool
is_active LeaseState.active = true
is_active _ = false

abbrev pub is_revoked : LeaseState → Bool
is_revoked LeaseState.revoked = true
is_revoked _ = false

abbrev pub is_unset : LeaseState → Bool
is_unset LeaseState.unset = true
is_unset _ = false

pub record Lease : Type 0 where
  pub lease_id : String
  pub mission_id : String
  pub task_id : String
  pub attempt : ℤ
  pub worker_id : String
  pub issued_at : ℕ
  pub expires_at : ℕ
  pub policy_digest : String
  pub dispatch_digest : String
  pub state : LeaseState
  pub revocation_reason : String
  pub authority : AuthorityV1
  pub retries : ℤ
  pub driver_session_id : String

pub data LeaseError : Type 0 where
  session_unknown : LeaseError
  lease_session_conflict lease_session_mismatch : (lease_id session_id : String) → LeaseError
  heartbeat_lease_mismatch heartbeat_lease_expired heartbeat_renewal_limit : LeaseError
  cancel_reason_or_time_required cancel_reason_conflict cancel_lease_not_active : LeaseError

-- `t.Add(d)`. No instant is before Go's zero time here.
abbrev pub add_time : ℕ → ℤ → ℕ
add_time t (pos n) = t + n
add_time t (negsuc n) = t - (n + 1)

-- `d <= 0`.
abbrev pub not_positive : ℤ → Bool
not_positive (pos n) = eqb n 0
not_positive (negsuc n) = true

pub record Reclaim : Type 0 where
  pub task_id : String
  pub retry : Bool
  pub reason : String

abbrev pub no_reclaim : Reclaim
no_reclaim = record { task_id = ""; retry = false; reason = "" }

pub record HeartbeatV1 : Type 0 where
  pub lease_id : String
  pub mission_id : String
  pub worker_id : String
  pub attempt : ℤ
  pub at : ℕ

pub data RecoveryAction : Type 0 where
  retry escalate : RecoveryAction

pub record RetryPolicy : Type 0 where
  pub max_attempts : ℤ
  pub escalation_owner : String

pub record RecoveryDecision : Type 0 where
  pub action : RecoveryAction
  pub retry : Bool
  pub owner : String
  pub reason : String

pub data WorkerState : Type 0 where
  active expired : WorkerState

pub data Leased : Type 0 where
  leased : Lease → Leased
  refused : LeaseError → Leased

-- The lease as CancelLease leaves it, and whether it changed.
pub data Cancelled : Type 0 where
  cancelled : Lease → (changed : Bool) → Cancelled
  not_cancelled : Lease → LeaseError → Cancelled

abbrev pub with_session : Lease → String → Lease
with_session l s = record l { driver_session_id = s }

abbrev pub with_expiry : Lease → ℕ → Lease
with_expiry l t = record l { expires_at = t }

abbrev pub with_revocation : Lease → String → Lease
with_revocation l why = record l { state = LeaseState.revoked; revocation_reason = why }

unfoldable pub bind_lease_to_session : Lease → String → Leased
bind_lease_to_session l session =
    if session == ""
    then refused session_unknown
    else if not (l.driver_session_id == "") && not (l.driver_session_id == session)
    then refused (lease_session_conflict l.lease_id l.driver_session_id)
    else leased (with_session l session)

unfoldable pub validate_lease_session : Lease → String → Option LeaseError
validate_lease_session l session =
    if l.driver_session_id == ""
    then none
    else if not (session == l.driver_session_id)
    then some (lease_session_mismatch l.lease_id session)
    else none

-- `now.Before(l.ExpiresAt)`.
abbrev pub before_expiry : ℕ → Lease → Bool
before_expiry now l = ltb now l.expires_at

unfoldable pub reclaim_expired : List Lease → (now : ℕ) → (max_retries : ℤ) → List Reclaim
reclaim_expired [] now max_retries = []
reclaim_expired (l ∷ ls) now max_retries =
    let rest = reclaim_expired ls now max_retries in
    if before_expiry now l
    then rest
    else record {
      task_id = l.task_id;
      retry = less_int l.retries max_retries;
      reason = "lease expired";
    }
      ∷ rest

-- The loop of Escalation.
unfoldable pub first_exhausted : List Reclaim → Reclaim
first_exhausted [] = no_reclaim
first_exhausted (r ∷ rs) =
    let rest = first_exhausted rs in
    if not r.retry
    then record { task_id = r.task_id; retry = r.retry; reason = "retry limit exceeded" }
    else rest

unfoldable pub escalation : List Lease → (max_retries : ℤ) → (now : ℕ) → Reclaim
unfolding reclaim_expired first_exhausted
escalation ls max_retries now = first_exhausted (reclaim_expired ls now max_retries)

-- The identity test of RenewLease.
abbrev pub is_beat_of : Lease → HeartbeatV1 → Bool
is_beat_of l h =
    is_active l.state
    && h.lease_id == l.lease_id
    && h.mission_id == l.mission_id
    && h.worker_id == l.worker_id
    && same_int h.attempt l.attempt

-- The new expiry: the extension, or the end of the lifetime if that comes first.
abbrev pub next_expiry : Lease → HeartbeatV1 → (extension max_lifetime : ℤ) → ℕ
next_expiry l h extension max_lifetime =
    let next = add_time h.at extension in
    let ceiling = add_time l.issued_at max_lifetime in if ltb ceiling next then ceiling else next

unfoldable pub renew_lease : Lease → HeartbeatV1 → (extension max_lifetime : ℤ) → Leased
renew_lease l h extension max_lifetime =
    if not (is_beat_of l h)
    then refused heartbeat_lease_mismatch
    else if eqb h.at 0
        || not (before_expiry h.at l)
        || not_positive extension
        || not_positive max_lifetime
    then refused heartbeat_lease_expired
    else if not (ltb h.at (next_expiry l h extension max_lifetime))
    then refused heartbeat_renewal_limit
    else leased (with_expiry l (next_expiry l h extension max_lifetime))

unfoldable pub cancel_lease : Lease → (reason : String) → (now : ℕ) → Cancelled
cancel_lease l reason now =
    if reason == "" || eqb now 0
    then not_cancelled l cancel_reason_or_time_required
    else if is_revoked l.state
    then if not (l.revocation_reason == reason)
      then not_cancelled l cancel_reason_conflict
      else cancelled l false
    else if not (is_active l.state) && not (is_unset l.state)
    then not_cancelled l cancel_lease_not_active
    else cancelled (with_revocation l reason) true

unfoldable pub classify_recovery : Lease → RetryPolicy → RecoveryDecision
classify_recovery l p =
    if not (not_positive p.max_attempts) && less_int l.retries p.max_attempts
    then record {
      action = RecoveryAction.retry;
      retry = true;
      owner = "";
      reason = l.revocation_reason;
    }
    else record {
      action = RecoveryAction.escalate;
      retry = false;
      owner = p.escalation_owner;
      reason = "retry limit exceeded";
    }

unfoldable pub lease_worker_state : Lease → ℕ → WorkerState
lease_worker_state l now = if before_expiry now l then WorkerState.active else WorkerState.expired

unfoldable pub has_live_lease : List Lease → ℕ → Bool
has_live_lease ls now = any (λ l. (is_active l.state || is_unset l.state) && before_expiry now l) ls
