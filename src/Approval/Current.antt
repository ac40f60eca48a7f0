-- ===== src/Approval/Current.antt =====
-- internal/core/approval_request.go, approvalCurrent: which requests may be approved.
use specd.Prelude.{
  ℕ, String, Bool, true, false, List, [], ◌∷◌, Option, none, ◌==◌, eqb, eqb-ne_zero, trim_space,
  ◌≡◌, ◌≢◌, refl, ◌↔◌, guard_iff, same_int, same_int_iff, eq_iff,
}
use specd.Approval.{
  ApprovalTransition, ApprovalPins, ApprovalRequestRecord, latest_approval_request,
  approval_transition_allowed, planned, RecordKey, planned_unless, inherit, continuation_error,
  plan_approval_request, plan_from, approval_drift, drifted, approval_current, has_expired,
  stale_unless_nil, past_expiry,
}
use specd.Approval.Chain.{IsContinuation, creates, continues, plan-parts, latest-absent}

drifted-nil :
    (b : Bool) (n : String) (rest : List String)
    → (drifted b n rest ≡ []) ↔ ((b ≡ true) × (rest ≡ []))
drifted-nil true n rest = (λ h. (refl, h), λ h. h.1)
drifted-nil false n rest = (λ h. cc, λ h. cc)

-- ApprovalDrift is empty exactly if the pins are those of now.
pub approval_drift-nil : (p c : ApprovalPins) → (approval_drift p c ≡ []) ↔ (p ≡ c)
unfolding approval_drift
approval_drift-nil p c = (
  λ h.
      let (a, ha) = (drifted-nil (p.artifact_digest == c.artifact_digest) _ _).0 h in
      let (b, hb) = (drifted-nil (same_int p.state_revision c.state_revision) _ _).0 ha in
      let (d, hd) = (drifted-nil (p.plan_digest == c.plan_digest) _ _).0 hb in
      let (e, he) = (drifted-nil (p.config_digest == c.config_digest) _ _).0 hd in
      let a' = (eq_iff _ _).0 a in
      let b' = (same_int_iff p.state_revision c.state_revision).0 b in
      let d' = (eq_iff _ _).0 d in let e' = (eq_iff _ _).0 e in cc,
  λ h.
      rw
        (
          h,
          (eq_iff c.artifact_digest _).1 refl,
          (same_int_iff c.state_revision _).1 refl,
          (eq_iff c.plan_digest _).1 refl,
          (eq_iff c.config_digest _).1 refl,
        )
        refl,
)

stale_unless_nil-none :
    (id : String) (drift : List String) → (stale_unless_nil id drift ≡ none) ↔ (drift ≡ [])
stale_unless_nil-none id [] = (λ h. refl, λ h. refl)
stale_unless_nil-none id (d ∷ drift) = (λ h. cc, λ h. cc)

module _ (parse_time : String → Option ℕ) (now : ℕ) where
  approval_current-none :
      (request : ApprovalRequestRecord) (current : ApprovalPins)
      → (approval_current parse_time now request current ≡ none)
        ↔ ((has_expired parse_time now request ≡ false) × (request.pins ≡ current))
  unfolding approval_current
  approval_current-none request current =
      let (there, back) =
        guard_iff (has_expired parse_time now request) (past_expiry request.id)
          (stale_unless_nil request.id (approval_drift request.pins current)) in
      let (out, into) = stale_unless_nil-none request.id (approval_drift request.pins current) in
      let (same, drift) = approval_drift-nil request.pins current in
      (λ h. ((there h).0, same (out (there h).1)), λ h. back (h.0, into (drift h.1)))

  approvable :
      (t : ApprovalTransition)
      → approval_transition_allowed t ApprovalTransition.approved ≡ true
      → t ≡ ApprovalTransition.requested
  unfolding approval_transition_allowed
  approvable ApprovalTransition.requested h = refl
  approvable ApprovalTransition.unset h = cc
  approvable ApprovalTransition.draft h = cc
  approvable ApprovalTransition.approved h = cc
  approvable _ h = cc

  continues-approved :
      (existing : List ApprovalRequestRecord) (r latest r' : ApprovalRequestRecord) (count : ℕ)
      → r.transition ≡ ApprovalTransition.approved
      → count ≢ 0
      → IsContinuation parse_time now existing r latest count r'
      → approval_current parse_time now latest r.pins ≡ none
  unfolding continuation_error
  continues-approved existing r latest r' count a n (creates z h) = absurd (n z)
  continues-approved existing r latest r' count a n (continues z h) = rw a at h

  requested-counted :
      (existing : List ApprovalRequestRecord) (id : String)
      → (latest_approval_request existing id).0.transition ≡ ApprovalTransition.requested
      → (latest_approval_request existing id).1 ≢ 0
  requested-counted existing id h z = cc (rw (latest-absent existing id z).0 at h)

  plan_from-approved :
      (existing : List ApprovalRequestRecord) (r latest : ApprovalRequestRecord) (count : ℕ)
      → r.transition ≡ ApprovalTransition.approved
      → latest.transition ≡ ApprovalTransition.requested
      → eqb count 0 ≡ false
      → approval_current parse_time now latest r.pins ≡ none
      → plan_from parse_time now existing r latest count
        ≡ planned (record { id = r.id; sequence = count }) (inherit latest r)
  unfolding plan_from continuation_error planned_unless approval_transition_allowed
  plan_from-approved existing r latest count a q n current = rw (q, a, n, current) refl

  -- PlanApprovalRequest plans the approval of a request exactly if its newest transition is
  -- `requested`, it has not expired at `now`, and the pins at hand are those that it pinned. The
  -- identifier is not blank.
  pub plan_approval_request-approved :
      (existing : List ApprovalRequestRecord) (r : ApprovalRequestRecord)
      → (trim_space r.id == "") ≡ false
      → r.transition ≡ ApprovalTransition.approved
      → ((key : RecordKey) × (r' : ApprovalRequestRecord) × (plan_approval_request parse_time now
              existing r
            ≡ planned key r'))
        ↔ (((latest_approval_request existing r.id).0.transition ≡ ApprovalTransition.requested)
            × (has_expired parse_time now (latest_approval_request existing r.id).0 ≡ false)
            × ((latest_approval_request existing r.id).0.pins ≡ r.pins))
  unfolding plan_approval_request
  plan_approval_request-approved existing r named a = (
    λ (key, r', h).
        let (allowed, _, next) = plan-parts parse_time existing now r r' key h in
        let q = approvable _ (rw a at allowed) in
        let (live, same) =
          (approval_current-none (latest_approval_request existing r.id).0 r.pins).0
            (continues-approved existing r _ r' _ a (requested-counted existing r.id q) next) in
        (q, live, same),
    λ (q, live, same). (
      record { id = r.id; sequence = (latest_approval_request existing r.id).1 },
      inherit (latest_approval_request existing r.id).0 r,
      rw named (
          plan_from-approved existing r (latest_approval_request existing r.id).0 _ a q
            (eqb-ne_zero _ (requested-counted existing r.id q))
            ((approval_current-none (latest_approval_request existing r.id).0 r.pins).1
              (live, same))),
    ),
  )
