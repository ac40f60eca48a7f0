-- ===== src/Approval/Tests.antt =====
-- internal/core/approval_request.go: the theorems at a request that is created and then approved.
use specd.Prelude.{
  ℕ, ◌≤◌, String, false, [], ◌∷◌, All, Option, some, ◌==◌, pos, trim_space, ◌≡◌, refl, ◌↔◌,
}
use specd.Approval.{
  ApprovalTransition, ApprovalRequestRecord, no_request, latest_approval_request, planned,
  RecordKey, plan_approval_request, has_expired,
}
use specd.Approval.Chain.{
  IsHistory, start, append, SameIdentity, plan_approval_request-identity,
  plan_approval_request-depth,
}
use specd.Approval.Current.{plan_approval_request-approved}

-- Every expiry is at the instant 100.
abbrev at_hundred : String → Option ℕ
at_hundred text = some 100

abbrev creation : ApprovalRequestRecord
creation = record no_request {
  id = "approve:design";
  transition = ApprovalTransition.requested;
  entity_kind = "spec";
  entity_id = "demo";
  pins = record {
    artifact_digest = "a";
    state_revision = pos 3;
    plan_digest = "p";
    config_digest = "c";
  };
  requester = "dev";
  expires_at = "2030-01-01T00:00:00Z";
}

abbrev approval : ApprovalRequestRecord
approval = record creation { transition = ApprovalTransition.approved; entity_id = "other" }

abbrev approved : ApprovalRequestRecord
approved = record creation { transition = ApprovalTransition.approved }

program : Unit {0}
unfolding plan_approval_request latest_approval_request trim_space
program = tt

creation-planned :
    plan_approval_request at_hundred 7 [] creation
    ≡ planned (record { id = "approve:design"; sequence = 0 }) creation
unfolding program
creation-planned = refl

approval-planned :
    plan_approval_request at_hundred 9 (creation ∷ []) approval
    ≡ planned (record { id = "approve:design"; sequence = 1 }) approved
unfolding program
approval-planned = refl

two-IsHistory : IsHistory at_hundred (creation ∷ approved ∷ [])
two-IsHistory =
    append (creation ∷ []) 9 approval approved (record { id = "approve:design"; sequence = 1 })
      (append [] 7 creation creation (record { id = "approve:design"; sequence = 0 }) start
        creation-planned)
      approval-planned

named : (trim_space "approve:design" == "") ≡ false
unfolding trim_space
named = refl

plan_approval_request-approved_example :
    ((key : RecordKey) × (r' : ApprovalRequestRecord) × (plan_approval_request at_hundred 9
          (creation ∷ [])
          approval
        ≡ planned key r'))
    ↔ (((latest_approval_request (creation ∷ []) "approve:design").0.transition
          ≡ ApprovalTransition.requested)
        × (has_expired at_hundred 9 (latest_approval_request (creation ∷ []) "approve:design").0
            ≡ false)
        × ((latest_approval_request (creation ∷ []) "approve:design").0.pins ≡ approval.pins))
plan_approval_request-approved_example =
    plan_approval_request-approved at_hundred 9 (creation ∷ []) approval named refl

plan_approval_request-identity_example :
    All
      (λ r.
        r.id ≡ "approve:design"
        → SameIdentity r (latest_approval_request (creation ∷ approved ∷ []) "approve:design").0)
      (creation ∷ approved ∷ [])
plan_approval_request-identity_example =
    plan_approval_request-identity at_hundred (creation ∷ approved ∷ []) two-IsHistory
      "approve:design"

plan_approval_request-depth_example :
    (latest_approval_request (creation ∷ approved ∷ []) "approve:design").1 ≤ 4
plan_approval_request-depth_example =
    plan_approval_request-depth at_hundred (creation ∷ approved ∷ []) two-IsHistory "approve:design"
