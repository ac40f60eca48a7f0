-- ===== src/Lease/Tests.antt =====
-- internal/orchestration/lease.go, heartbeat.go and cancel.go: the theorems at one lease.
use specd.Prelude.{
  ne_of_test, arith, true, ℕ, ◌≤◌, String, false, ◌==◌, if◌then◌else◌, pos, none, ◌≡◌, ◌≢◌, refl,
  ◌↔◌,
}
use specd.Lease.{
  Lease, LeaseState, HeartbeatV1, leased, refused, renew_lease, with_expiry, add_time,
  bind_lease_to_session, validate_lease_session, lease_session_conflict, session_unknown, cancelled,
  not_cancelled, cancel_lease, cancel_reason_conflict,
}
use specd.Lease.Samples.{sample}
use specd.Lease.Renewal.{MayRenew, IsRenewal, once, again, renew_lease-exact, renew_lease-bounded}
use specd.Lease.Release.{bind_lease_to_session-exclusive, cancel_lease-idempotent}

abbrev beat : ℕ → HeartbeatV1
beat at = record { lease_id = "l1"; mission_id = "m1"; worker_id = "w1"; attempt = pos 1; at = at }

program : Unit {0}
unfolding renew_lease bind_lease_to_session validate_lease_session cancel_lease
program = tt

first_renewal : renew_lease sample (beat 15) (pos 10) (pos 30) ≡ leased (with_expiry sample 25)
unfolding program
first_renewal = refl

-- The second extension would reach 44, and is cut off at the end of the lifetime.
second_renewal :
    renew_lease (with_expiry sample 25) (beat 24) (pos 20) (pos 30) ≡ leased (with_expiry sample 40)
unfolding program
second_renewal = refl

renew_lease-exact_example :
    (renew_lease sample (beat 15) (pos 10) (pos 30) ≡ leased (with_expiry sample 25)) ↔ (
      MayRenew sample (beat 15) (pos 10) (pos 30)
      × IsRenewal sample (with_expiry sample 25) (beat 15) (pos 10) (pos 30))
renew_lease-exact_example =
    renew_lease-exact sample (with_expiry sample 25) (beat 15) (pos 10) (pos 30)

renew_lease-bounded_example :
    (40 ≤ add_time 10 (pos 30)) × (with_expiry sample 40 ≡ with_expiry sample 40)
renew_lease-bounded_example = renew_lease-bounded (pos 30) sample (with_expiry sample 40) (
    again (with_expiry sample 25) (with_expiry sample 40) (beat 24) (pos 20)
      (once (with_expiry sample 25) (beat 15) (pos 10) first_renewal) second_renewal)

abbrev bound : Lease
bound = record sample { driver_session_id = "s1" }

bound-leased : bind_lease_to_session sample "s1" ≡ leased bound
unfolding program
bound-leased = refl

abbrev session : String
session = "s1"

abbrev other : String
other = "s2"

bind_lease_to_session-exclusive_example :
    ((validate_lease_session bound other ≡ none) ↔ (other ≡ session))
    × ((bind_lease_to_session bound other ≡ leased bound) ↔ (other ≡ session))
    × (other ≡ "" → bind_lease_to_session bound other ≡ refused session_unknown)
    × (other ≢ ""
        → other ≢ session
        → bind_lease_to_session bound other ≡ refused (lease_session_conflict "l1" session))
bind_lease_to_session-exclusive_example =
    bind_lease_to_session-exclusive sample bound session other bound-leased

abbrev reason : String
reason = "stuck"

abbrev excuse : String
excuse = "late"

abbrev revoked : Lease
revoked = record sample { state = LeaseState.revoked; revocation_reason = reason }

sample-cancelled : cancel_lease sample reason 12 ≡ cancelled revoked true
unfolding program
sample-cancelled = refl

cancel_lease-idempotent_example :
    (LeaseState.revoked ≡ LeaseState.revoked)
    × (reason ≡ reason)
    × (cancel_lease revoked excuse 13 ≡ (
        if reason == excuse
        then cancelled revoked false
        else not_cancelled revoked cancel_reason_conflict))
cancel_lease-idempotent_example =
    cancel_lease-idempotent sample revoked reason excuse 12 13 true sample-cancelled
      (ne_of_test excuse "" refl) (λ h. omega (arith, h))
