-- ===== src/Workflow.antt =====
-- internal/core/workflow_event.go: the durable event of one state transition, and the ledger of them.
-- Encoding, `json.Unmarshal` and the digest of bytes are parameters, on the bytes of State/Store; the
-- values that are encoded here have an encoding. A ledger file is its complete lines, `none` for one
-- that is empty, and whether an incomplete line follows. An `int64` is its bit pattern.
pub mod Commit
pub mod Chain
pub mod Transition
pub mod Settled
pub mod Linked
pub mod Recovered
pub mod Complete
pub mod Artifact
pub mod Crash
mod Tests
use specd.Prelude.{
  ℕ, ◌+◌, ◌%◌, ◌^◌, String, Bool, true, false, not, ◌&&◌, ◌||◌, List, [], ◌∷◌, ◌++◌, Option, none,
  some, ◌==◌, eqb, leb, any, all, if◌then◌else◌, trim_space, length, ℤ, pos, same_int, ◌≡◌, refl,
  ◌⊎◌, inl, inr,
}
use Prim.Native.Char.{Char, code}
use specd.State.{State, project_canonical}
use specd.State.Governed.{StateError, validate}
use specd.State.Store.{Codec, next_revision, SaveError, LoadError}

pub record WorkflowEventV1 : Type 0 where
  pub schema_version : ℤ
  pub id : String
  pub entity_kind : String
  pub entity_id : String
  pub before_entity_version : ℕ
  pub after_entity_version : ℕ
  pub expected_revision : ℕ
  pub resulting_revision : ℕ
  pub transition : String
  pub actor : String
  pub authority_digest : String
  pub reason : String
  pub input_digests : List (String × String)
  pub impacted_entities : List String
  pub git_head : String
  pub timestamp : String
  pub projection : State

pub record TransitionArtifact : Type 0 where
  pub path : String
  pub before : String
  pub after : String

pub record TransitionJournal : Type 0 where
  pub event_id : String
  pub event : WorkflowEventV1
  pub artifact : TransitionArtifact

pub data WorkflowError : Type 0 where
  unsupported_event : ℤ → WorkflowError
  blank_field : WorkflowError
  revision_gap version_gap : WorkflowError
  other_revision other_checkpoint : WorkflowError
  bad_input : (name : String) → WorkflowError
  bad_authority : WorkflowError
  other_id : WorkflowError
  bad_projection : StateError → WorkflowError
  undecodable_event : WorkflowError
  broken_chain : WorkflowError
  duplicate_id : String → WorkflowError
  replay_conflict : (state expected : ℕ) → WorkflowError
  bad_state : LoadError → WorkflowError
  unsaved_state : SaveError → WorkflowError
  checkpoint_revision checkpoint_absent diverged : WorkflowError
  revision_moved : (expected found : ℕ) → WorkflowError
  bad_paths not_the_tasks artifact_changed artifact_mismatch artifact_unreadable : WorkflowError
  undecodable_journal incomplete_journal other_journal : WorkflowError
  journal_not_tip journal_revision journal_unfollowed : WorkflowError

-- The bytes of events and journals, and their digest.
pub record EventCodec {ℓ} (B : Type ℓ) : Type ℓ where
  pub states : Codec B
  pub encode_event : WorkflowEventV1 → B
  pub decode_event : B → Option WorkflowEventV1
  pub encode_journal : TransitionJournal → B
  pub decode_journal : B → Option TransitionJournal
  pub digest : B → String
  pub text : String → B

abbrev is_hex : Char → Bool
is_hex c =
    let n = code c in (leb 48 n && leb n 57) || (leb 65 n && leb n 70) || (leb 97 n && leb n 102)

-- `hex.DecodeString` succeeds on an even number of hexadecimal digits.
unfoldable pub hex_digits : String → Option ℕ
hex_digits String.[] = some 0
hex_digits (String.◌∷◌ c s) =
    let rest = hex_digits s in
    if is_hex c then elim rest [ none ↦ none | some n ↦ some (n + 1) ] else none

unfoldable pub valid_digest : String → Bool
unfolding hex_digits
valid_digest value = elim (hex_digits value) [ none ↦ false | some n ↦ eqb n 64 ]

abbrev pub event_fields : WorkflowEventV1 → List String
event_fields e =
    e.id ∷ e.entity_kind ∷ e.entity_id ∷ e.transition ∷ e.actor ∷ e.reason ∷ e.timestamp ∷ []

-- The loop over the input digests.
unfoldable pub bad_input_of : List (String × String) → Option String
unfolding valid_digest trim_space
bad_input_of [] = none
bad_input_of ((name, digest) ∷ inputs) =
    let rest = bad_input_of inputs in
    if trim_space name == "" || not (valid_digest digest) then some name else rest

pub record Ledger {ℓ} (B : Type ℓ) : Type ℓ where
  pub lines : List (Option B)
  pub torn : Bool

pub data Events : Type 0 where
  events : List WorkflowEventV1 → Events
  unread : WorkflowError → Events

abbrev pub prepend : WorkflowEventV1 → Events → Events
prepend e (events es) = events (e ∷ es)
prepend e (unread x) = unread x

pub data Appended {ℓ} (B : Type ℓ) : Type ℓ where
  appended : Ledger B → Appended B
  refused : WorkflowError → Appended B

-- The chain test: the revision that the last event left, if there is one.
abbrev breaks : Option ℕ → WorkflowEventV1 → Bool
breaks none e = false
breaks (some r) e = not (eqb r e.expected_revision)

unfoldable pub tip_of : Option ℕ → List WorkflowEventV1 → Option ℕ
tip_of tip [] = tip
tip_of tip (e ∷ es) = tip_of (some e.resulting_revision) es

-- The checks from the input digests on, with the canonical id and the error of the projection.
abbrev pub identity_error :
    WorkflowEventV1 → (want : String) → Option StateError → Option WorkflowError
identity_error e want invalid = elim (bad_input_of e.input_digests) [
  | some name ↦ some (bad_input name)
  | none ↦
      if not (valid_digest e.authority_digest)
      then some bad_authority
      else if not (e.id == want)
      then some other_id
      else elim invalid [ some x ↦ some (bad_projection x) | none ↦ none ]
]

-- The checks of an event, with the revision and the checkpoint of its projection and what the later
-- checks find.
abbrev pub event_error :
    WorkflowEventV1
    → (revision : ℕ) → (checkpoint : String) → Option WorkflowError
    → Option WorkflowError
event_error e revision checkpoint later =
    if not (same_int e.schema_version (pos 1))
    then some (unsupported_event e.schema_version)
    else if any (λ v. trim_space v == "") (event_fields e)
    then some blank_field
    else if not (eqb e.resulting_revision (next_revision e.expected_revision))
    then some revision_gap
    else if not (eqb e.after_entity_version (next_revision e.before_entity_version))
    then some version_gap
    else if not (eqb revision e.resulting_revision)
    then some other_revision
    else if not (checkpoint == e.id)
    then some other_checkpoint
    else later

module _ {ℓ} {B : Type ℓ} (c : EventCodec B) where
  -- `json.Marshal(event)`, which projects the state inside.
  unfoldable pub marshal_event : WorkflowEventV1 → B
  unfolding project_canonical
  marshal_event e = c.encode_event (record e { projection = project_canonical e.projection })

  unfoldable pub canonical_event_id : WorkflowEventV1 → String
  unfolding marshal_event
  canonical_event_id e = c.digest (
      marshal_event (record e { id = ""; projection = record e.projection { last_event_id = "" } }))

  -- Validate from the input digests on.
  unfoldable pub validate_identity : WorkflowEventV1 → Option WorkflowError
  unfolding bad_input_of valid_digest canonical_event_id validate
  validate_identity e =
      identity_error e (canonical_event_id e) (validate c.states.decoders e.projection)

  unfoldable pub validate_event : WorkflowEventV1 → Option WorkflowError
  unfolding trim_space validate_identity
  validate_event e =
      event_error e e.projection.revision e.projection.last_event_id (validate_identity e)

  -- NewWorkflowEvent, without its validation.
  unfoldable pub fill_event : WorkflowEventV1 → WorkflowEventV1
  unfolding canonical_event_id
  fill_event e =
      let open_event : WorkflowEventV1 = record e {
        schema_version = pos 1;
        resulting_revision = next_revision e.expected_revision;
        projection = record e.projection {
          revision = next_revision e.expected_revision;
          last_event_id = "";
        };
      } in
      let id = canonical_event_id open_event in
      record open_event {
        id = id;
        projection = record open_event.projection { last_event_id = id };
      }

  unfoldable pub new_workflow_event : WorkflowEventV1 → WorkflowEventV1 × Option WorkflowError
  unfolding fill_event validate_event
  new_workflow_event e = (fill_event e, validate_event (fill_event e))

  -- The loop of ReadWorkflowEvents, with the revision of the last event before.
  unfoldable pub read_lines : (tip : Option ℕ) → List (Option B) → Events
  unfolding validate_event
  read_lines tip [] = events []
  read_lines tip (none ∷ lines) = read_lines tip lines
  read_lines tip (some raw ∷ lines) = elim (c.decode_event raw) [
    | none ↦ unread undecodable_event
    | some e ↦ elim (validate_event e) [
      | some x ↦ unread x
      | none ↦
          let rest = read_lines (some e.resulting_revision) lines in
          if breaks tip e then unread broken_chain else prepend e rest
    ]
  ]

  unfoldable pub read_workflow_events : Ledger B → Events
  unfolding read_lines
  read_workflow_events ledger = read_lines none ledger.lines

  -- The checks of AppendWorkflowEvent against the events before, and its write: an incomplete last
  -- line is cut off.
  unfoldable pub append_after : Ledger B → List WorkflowEventV1 → WorkflowEventV1 → Appended B
  unfolding tip_of marshal_event
  append_after ledger es e =
      if any (λ prior. prior.id == e.id) es
      then refused (duplicate_id e.id)
      else if breaks (tip_of none es) e
      then refused broken_chain
      else appended (record { lines = ledger.lines ++ some (marshal_event e) ∷ []; torn = false })

  unfoldable pub append_workflow_event : Ledger B → WorkflowEventV1 → Appended B
  unfolding validate_event read_workflow_events append_after
  append_workflow_event ledger e = elim (validate_event e) [
    | some x ↦ refused x
    | none ↦ elim (read_workflow_events ledger) [
      | unread x ↦ refused x
      | events es ↦ append_after ledger es e
    ]
  ]

  unfoldable pub replay_workflow_events : State → List WorkflowEventV1 → State ⊎ WorkflowError
  unfolding validate_event
  replay_workflow_events s [] = inl s
  replay_workflow_events s (e ∷ es) =
      let rest = replay_workflow_events e.projection es in
      elim (validate_event e) [
        | some x ↦ inr x
        | none ↦
            if not (eqb s.revision e.expected_revision)
            then inr (replay_conflict s.revision e.expected_revision)
            else rest
      ]
