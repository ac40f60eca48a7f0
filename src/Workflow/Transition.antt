-- ===== src/Workflow/Transition.antt =====
-- internal/core/workflow_event.go, CommitWorkflowTransition: the steps of a commit in their order.
use specd.Prelude.{String, not, Option, none, some, ◌==◌, eqb, if◌then◌else◌, ◌⊎◌, inl, inr}
use specd.State.{State, project_canonical}
use specd.State.Store.{saved, unsaved, save_state_cas}
use specd.Workflow.{
  WorkflowEventV1, TransitionArtifact, WorkflowError, EventCodec, Events, appended, refused,
  validate_event, read_workflow_events, append_workflow_event, revision_moved, unsaved_state,
  bad_paths, not_the_tasks, artifact_changed, artifact_mismatch, artifact_unreadable,
}
use specd.Workflow.Commit.{
  Store, done, stopped, resolved, unresolved, artifact_matches, is_tasks_path,
  recover_transition_artifact, recover_workflow_state,
}

pub data Committed {ℓ} (B : Type ℓ) : Type ℓ where
  committed : Store B → Committed B
  uncommitted : WorkflowError → Store B → Committed B

module _ {ℓ} {B : Type ℓ} (c : EventCodec B) (artifact_path : Option String)
    (abs : String → Option String) where
  -- The journal of an artifact, written before the event.
  abbrev journal_of : WorkflowEventV1 → TransitionArtifact → String → B
  journal_of e artifact tasks_path = c.encode_journal (record {
    event_id = e.id;
    event = record e { projection = project_canonical e.projection };
    artifact = record artifact { path = tasks_path };
  })

  unfoldable pub stage_at :
      Store B → WorkflowEventV1 → TransitionArtifact → String → Store B ⊎ WorkflowError
  unfolding is_tasks_path artifact_matches project_canonical
  stage_at st e artifact tasks_path =
      if not (is_tasks_path c artifact_path abs artifact.path tasks_path)
      then inr not_the_tasks
      else elim st.tasks [
        | none ↦ inr artifact_unreadable
        | some current ↦
            if not (current == artifact.before)
            then inr artifact_changed
            else if not (artifact_matches c artifact_path abs e artifact)
            then inr artifact_mismatch
            else inl (record st { journal = some (journal_of e artifact tasks_path) })
      ]

  unfoldable pub stage_artifact :
      Store B → WorkflowEventV1 → Option TransitionArtifact → Store B ⊎ WorkflowError
  unfolding stage_at
  stage_artifact st e none = inl st
  stage_artifact st e (some artifact) = elim artifact_path [
    | none ↦ inr bad_paths
    | some tasks_path ↦ stage_at st e artifact tasks_path
  ]

  -- What a failed append does before it returns its error.
  unfoldable pub after_failed_append : Store B → State → Store B
  unfolding read_workflow_events recover_transition_artifact
  after_failed_append st s = elim (read_workflow_events c st.ledger) [
    | Events.unread x ↦ st
    | Events.events es ↦ elim (recover_transition_artifact c artifact_path abs st s es) [
      | unresolved x ↦ st
      | resolved pending st' ↦ st'
    ]
  ]

  -- `AtomicWrite(artifactPath, commit.Artifact.After)`.
  abbrev pub write_artifact : Store B → Option TransitionArtifact → Store B
  write_artifact st none = st
  write_artifact st (some artifact) = record st { tasks = some artifact.after }

  -- `RemoveFileDurable(journalPath)`.
  abbrev pub drop_journal : Store B → Option TransitionArtifact → Store B
  drop_journal st none = st
  drop_journal st (some artifact) = record st { journal = none }

  -- The write of the state after the event.
  unfoldable pub save_projection :
      Store B → State → WorkflowEventV1 → Option TransitionArtifact → Committed B
  unfolding save_state_cas
  save_projection st s e artifact =
      elim (save_state_cas c.states st.state_file s.revision e.projection) [
        | unsaved x ↦ uncommitted (unsaved_state x) st
        | saved raw ↦ committed (drop_journal (record st { state_file = some raw }) artifact)
      ]

  -- The commit after the journal is written.
  unfoldable pub commit_event :
      Store B → State → WorkflowEventV1 → Option TransitionArtifact → Committed B
  unfolding append_workflow_event after_failed_append save_projection
  commit_event st s e artifact = elim (append_workflow_event c st.ledger e) [
    | refused x ↦ uncommitted x (after_failed_append st s)
    | appended ledger ↦
        save_projection (write_artifact (record st { ledger = ledger }) artifact) s e artifact
  ]

  -- The commit after the recovery.
  unfoldable pub commit_from :
      Store B → State → WorkflowEventV1 → Option TransitionArtifact → Committed B
  unfolding validate_event stage_artifact commit_event
  commit_from st s e artifact =
      if not (eqb s.revision e.expected_revision)
      then uncommitted (revision_moved e.expected_revision s.revision) st
      else elim (validate_event c e) [
        | some x ↦ uncommitted x st
        | none ↦ elim (stage_artifact st e artifact) [
          | inr x ↦ uncommitted x st
          | inl st' ↦ commit_event st' s e artifact
        ]
      ]

  unfoldable pub commit_workflow_transition :
      Store B → WorkflowEventV1 → Option TransitionArtifact → Committed B
  unfolding recover_workflow_state commit_from
  commit_workflow_transition st e artifact = elim (recover_workflow_state c artifact_path abs st) [
    | stopped x st' ↦ uncommitted x st'
    | done s st' ↦ commit_from st' s e artifact
  ]
