-- ===== src/Approval.antt =====
-- internal/core/approval_request.go: the append-only chain of transitions of an approval request.
-- `time.Parse(time.RFC3339, _)` is the parameter `parse_time`, and `Clock()` the parameter `now`: an
-- instant is a number of nanoseconds since Go's zero time.
pub mod Chain
pub mod Current
mod Tests
use specd.Prelude.{
  ℕ, ◌+◌, String, Bool, true, false, not, ◌&&◌, ◌||◌, List, [], ◌∷◌, ◌++◌, Option, none, some, ◌==◌,
  ltb, eqb, any, if◌then◌else◌, trim_space, ℤ, pos, is_negative, same_int, ◌≡◌, refl,
}

-- `unset` is Go's empty string: a request that does not exist yet.
pub data ApprovalTransition : Type 0 where
  draft requested approved rejected withdrawn expired revoked superseded : ApprovalTransition
  unset : ApprovalTransition
  other : String → ApprovalTransition

abbrev pub same_transition : ApprovalTransition → ApprovalTransition → Bool
same_transition ApprovalTransition.draft ApprovalTransition.draft = true
same_transition ApprovalTransition.requested ApprovalTransition.requested = true
same_transition ApprovalTransition.approved ApprovalTransition.approved = true
same_transition ApprovalTransition.rejected ApprovalTransition.rejected = true
same_transition ApprovalTransition.withdrawn ApprovalTransition.withdrawn = true
same_transition ApprovalTransition.expired ApprovalTransition.expired = true
same_transition ApprovalTransition.revoked ApprovalTransition.revoked = true
same_transition ApprovalTransition.superseded ApprovalTransition.superseded = true
same_transition ApprovalTransition.unset ApprovalTransition.unset = true
same_transition (ApprovalTransition.other s) (ApprovalTransition.other t) = s == t
same_transition _ _ = false

-- The map `approvalTransitions`: no successors for a key that it lacks.
abbrev pub approval_transitions : ApprovalTransition → List ApprovalTransition
approval_transitions ApprovalTransition.unset =
    ApprovalTransition.draft ∷ ApprovalTransition.requested ∷ []
approval_transitions ApprovalTransition.draft =
    ApprovalTransition.requested ∷ ApprovalTransition.withdrawn ∷ ApprovalTransition.expired
    ∷ ApprovalTransition.superseded ∷ []
approval_transitions ApprovalTransition.requested =
    ApprovalTransition.approved ∷ ApprovalTransition.rejected ∷ ApprovalTransition.withdrawn
    ∷ ApprovalTransition.expired ∷ ApprovalTransition.superseded ∷ []
approval_transitions ApprovalTransition.approved =
    ApprovalTransition.revoked ∷ ApprovalTransition.superseded ∷ []
approval_transitions _ = []

pub record ApprovalPins : Type 0 where
  pub artifact_digest : String
  pub state_revision : ℤ
  pub plan_digest : String
  pub config_digest : String

pub record ApprovalRequestRecord : Type 0 where
  pub kind : String
  pub id : String
  pub transition : ApprovalTransition
  pub entity_kind : String
  pub entity_id : String
  pub entity_version : String
  pub pins : ApprovalPins
  pub requester : String
  pub expires_at : String
  pub superseded_by : String
  pub reason : String
  pub timestamp : String
  pub git_head : String
  pub actor : String

abbrev pub no_pins : ApprovalPins
no_pins = record {
  artifact_digest = "";
  state_revision = pos 0;
  plan_digest = "";
  config_digest = "";
}

-- Go's zero record.
abbrev pub no_request : ApprovalRequestRecord
no_request = record {
  kind = "";
  id = "";
  transition = ApprovalTransition.unset;
  entity_kind = "";
  entity_id = "";
  entity_version = "";
  pins = no_pins;
  requester = "";
  expires_at = "";
  superseded_by = "";
  reason = "";
  timestamp = "";
  git_head = "";
  actor = "";
}

-- The loop of LatestApprovalRequest, from what it has found so far.
unfoldable pub latest_from :
    ApprovalRequestRecord × ℕ → List ApprovalRequestRecord → String → ApprovalRequestRecord × ℕ
latest_from found [] id = found
latest_from found (r ∷ rest) id =
    latest_from (if r.id == id then (r, found.1 + 1) else found) rest id

unfoldable pub latest_approval_request :
    List ApprovalRequestRecord → String → ApprovalRequestRecord × ℕ
unfolding latest_from
latest_approval_request existing id = latest_from (no_request, 0) existing id

abbrev pub is_open : ApprovalTransition → Bool
is_open t =
    same_transition t ApprovalTransition.draft || same_transition t ApprovalTransition.requested

unfoldable pub approval_request_pending : List ApprovalRequestRecord → String → Bool
unfolding latest_approval_request
approval_request_pending existing id =
    let (latest, count) = latest_approval_request existing id in
    if eqb count 0 then false else is_open latest.transition

unfoldable pub approval_transition_allowed : ApprovalTransition → ApprovalTransition → Bool
approval_transition_allowed from to =
    any (λ allowed. same_transition allowed to) (approval_transitions from)

pub data ApprovalError : Type 0 where
  id_required : ApprovalError
  not_creatable : String → ApprovalTransition → ApprovalError
  not_allowed : String → (from to : ApprovalTransition) → ApprovalError
  unknown_entity_kind : String → ApprovalError
  field_required : String → (name : String) → ApprovalError
  expiry_invalid : String → ApprovalError
  revision_invalid : String → ℤ → ApprovalError
  past_expiry : String → ApprovalError
  stale : String → (drift : List String) → ApprovalError
  successor_required : String → ApprovalError
  unknown_successor : String → String → ApprovalError

-- `if pinned != current { drift = append(drift, name) }` before the rest of the drift.
abbrev pub drifted : Bool → String → List String → List String
drifted same name rest = if same then rest else name ∷ rest

unfoldable pub approval_drift : (pinned current : ApprovalPins) → List String
approval_drift pinned current =
    drifted (pinned.artifact_digest == current.artifact_digest) "artifact digest" (
      drifted (same_int pinned.state_revision current.state_revision) "state revision" (
        drifted (pinned.plan_digest == current.plan_digest) "transition-plan digest"
          (drifted (pinned.config_digest == current.config_digest) "config digest" [])))

-- The first required field that is blank.
unfoldable pub first_blank : List (String × String) → Option String
unfolding trim_space
first_blank [] = none
first_blank ((name, value) ∷ rest) = if trim_space value == "" then some name else first_blank rest

abbrev pub required_fields : ApprovalRequestRecord → List (String × String)
required_fields r =
    ("entity id", r.entity_id)
    ∷ ("artifact digest", r.pins.artifact_digest)
    ∷ ("transition-plan digest", r.pins.plan_digest)
    ∷ ("config digest", r.pins.config_digest)
    ∷ ("requester", r.requester)
    ∷ ("expiry", r.expires_at)
    ∷ []

abbrev pub known_entity : String → Bool
known_entity kind = kind == "spec" || kind == "task" || kind == "artifact"

-- Where a transition is recorded: the key `approval_request:<id>:<sequence>`.
pub record RecordKey : Type 0 where
  pub id : String
  pub sequence : ℕ

pub data Plan : Type 0 where
  planned : RecordKey → ApprovalRequestRecord → Plan
  refused : ApprovalError → Plan

unfoldable pub planned_unless : Option ApprovalError → RecordKey → ApprovalRequestRecord → Plan
planned_unless none key r = planned key r
planned_unless (some e) key r = refused e

-- The record with the identity of the request that it continues.
abbrev pub inherit : (latest r : ApprovalRequestRecord) → ApprovalRequestRecord
inherit latest r = record {
  kind = r.kind;
  id = r.id;
  transition = r.transition;
  entity_kind = latest.entity_kind;
  entity_id = latest.entity_id;
  entity_version = latest.entity_version;
  pins = latest.pins;
  requester = latest.requester;
  expires_at = latest.expires_at;
  superseded_by = r.superseded_by;
  reason = r.reason;
  timestamp = r.timestamp;
  git_head = r.git_head;
  actor = r.actor;
}

abbrev pub stale_unless_nil : String → List String → Option ApprovalError
stale_unless_nil id [] = none
stale_unless_nil id (d ∷ drift) = some (stale id (d ∷ drift))

module _ (parse_time : String → Option ℕ) where
  unfoldable pub validate_approval_create : ApprovalRequestRecord → Option ApprovalError
  unfolding first_blank
  validate_approval_create r =
      if not (known_entity r.entity_kind)
      then some (unknown_entity_kind r.entity_kind)
      else elim (first_blank (required_fields r)) [
        | some name ↦ some (field_required r.id name)
        | none ↦ elim (parse_time r.expires_at) [
          | none ↦ some (expiry_invalid r.id)
          | some _ ↦
              if is_negative r.pins.state_revision
              then some (revision_invalid r.id r.pins.state_revision)
              else none
        ]
      ]

  -- `err == nil && Clock().After(expires)`.
  abbrev pub has_expired : (now : ℕ) → ApprovalRequestRecord → Bool
  has_expired now request = elim (parse_time request.expires_at) [
    | none ↦ false
    | some e ↦ ltb e now
  ]

  unfoldable pub approval_current :
      (now : ℕ) → ApprovalRequestRecord → ApprovalPins → Option ApprovalError
  unfolding approval_drift
  approval_current now request current =
      if has_expired now request
      then some (past_expiry request.id)
      else stale_unless_nil request.id (approval_drift request.pins current)

  -- The checks of PlanApprovalRequest on a transition of a request that exists.
  unfoldable pub continuation_error :
      (now : ℕ)
      → List ApprovalRequestRecord
      → (latest r : ApprovalRequestRecord) → Option ApprovalError
  unfolding approval_current latest_approval_request trim_space
  continuation_error now existing latest r = elim r.transition [
    | ApprovalTransition.approved ↦ approval_current now latest r.pins
    | ApprovalTransition.superseded ↦
        if trim_space r.superseded_by == ""
        then some (successor_required r.id)
        else if eqb (latest_approval_request existing r.superseded_by).1 0
        then some (unknown_successor r.id r.superseded_by)
        else none
    | _ ↦ none
  ]

  -- The rest of PlanApprovalRequest, from what it found of the request.
  unfoldable pub plan_from :
      (now : ℕ)
      → List ApprovalRequestRecord
      → (r latest : ApprovalRequestRecord) → (count : ℕ) → Plan
  unfolding validate_approval_create continuation_error approval_transition_allowed planned_unless
  plan_from now existing r latest count =
      let key : RecordKey = record { id = r.id; sequence = count } in
      if not (approval_transition_allowed latest.transition r.transition)
      then if eqb count 0
        then refused (not_creatable r.id r.transition)
        else refused (not_allowed r.id latest.transition r.transition)
      else if eqb count 0
      then planned_unless (validate_approval_create r) key r
      else planned_unless (continuation_error now existing latest r) key (inherit latest r)

  unfoldable pub plan_approval_request :
      (now : ℕ) → List ApprovalRequestRecord → ApprovalRequestRecord → Plan
  unfolding plan_from latest_approval_request trim_space
  plan_approval_request now existing r =
      if trim_space r.id == ""
      then refused id_required
      else let (latest, count) = latest_approval_request existing r.id in
        plan_from now existing r latest count
