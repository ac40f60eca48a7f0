-- ===== src/Workflow/Commit.antt =====
-- internal/core/workflow_event.go: a transition writes its event first and the state after it, and
-- recovery completes what a crash left between the two.
-- A store is the files of one spec; reads and writes of these do not fail. `artifact_path` is the
-- result of transitionArtifactPath, `none` for paths that identify no spec, and `abs` is
-- `filepath.Abs`.
use specd.Prelude.{
  ℕ, String, Bool, true, false, not, ◌&&◌, ◌||◌, List, [], ◌∷◌, Option, none, some, ◌==◌, eqb,
  if◌then◌else◌, ◌⊎◌, inl, inr,
}
use specd.State.{State}
use specd.State.Store.{Loaded, loaded, saved, unsaved, load_state, save_state_cas}
use specd.Workflow.{
  WorkflowEventV1, TransitionArtifact, TransitionJournal, WorkflowError, EventCodec, Ledger, Events,
  tip_of, validate_event, new_workflow_event, read_workflow_events, unsaved_state, bad_state,
  bad_paths, not_the_tasks, artifact_changed, artifact_mismatch, artifact_unreadable,
  undecodable_journal, incomplete_journal, other_journal, journal_not_tip, journal_revision,
  journal_unfollowed, checkpoint_revision, checkpoint_absent, diverged,
}

pub record Store {ℓ} (B : Type ℓ) : Type ℓ where
  pub state_file : Option B
  pub ledger : Ledger B
  pub journal : Option B
  -- The text of tasks.md.
  pub tasks : Option String

-- The store after an operation, with its result or its error.
pub data Outcome {ℓ} (B : Type ℓ) : Type ℓ where
  done : State → Store B → Outcome B
  stopped : WorkflowError → Store B → Outcome B

pub data Resolved {ℓ} (B : Type ℓ) : Type ℓ where
  -- Whether the journal remains to be removed.
  resolved : (pending : Bool) → Store B → Resolved B
  unresolved : WorkflowError → Resolved B

-- `event.InputDigests[name]`.
unfoldable pub input_of : List (String × String) → String → String
input_of [] name = ""
input_of ((n, digest) ∷ inputs) name = if n == name then digest else input_of inputs name

-- `inputs[name] = digest`.
unfoldable pub set_input : List (String × String) → String → String → List (String × String)
set_input [] name digest = (name, digest) ∷ []
set_input ((n, d) ∷ inputs) name digest =
    if n == name then (name, digest) ∷ inputs else (n, d) ∷ set_input inputs name digest

abbrev is_empty_list : List WorkflowEventV1 → Bool
is_empty_list [] = true
is_empty_list (e ∷ es) = false

-- The event of the journal in the ledger: the first with its id, which has to be the last event.
unfoldable pub committed_event :
    String → List WorkflowEventV1 → Option WorkflowEventV1 ⊎ WorkflowError
committed_event id [] = inl none
committed_event id (e ∷ es) =
    let rest = committed_event id es in
    if e.id == id
    then if not (is_empty_list es) then inr journal_not_tip else inl (some e)
    else rest

-- The events after the checkpoint of a state.
unfoldable pub after_id : String → ℕ → List WorkflowEventV1 → List WorkflowEventV1 ⊎ WorkflowError
after_id id revision [] = inr checkpoint_absent
after_id id revision (e ∷ es) =
    let rest = after_id id revision es in
    if e.id == id
    then if not (eqb e.resulting_revision revision) then inr checkpoint_revision else inl es
    else rest

unfoldable pub after_checkpoint :
    State → List WorkflowEventV1 → List WorkflowEventV1 ⊎ WorkflowError
unfolding after_id
after_checkpoint s es =
    if not (s.last_event_id == "") then after_id s.last_event_id s.revision es else inl es

-- The revision of the ledger is that which the journal's event expects, if there are events.
abbrev pub follows_ledger : List WorkflowEventV1 → ℕ → Bool
follows_ledger es expected = elim (tip_of none es) [ none ↦ true | some r ↦ eqb r expected ]

module _ {ℓ} {B : Type ℓ} (c : EventCodec B) (artifact_path : Option String)
    (abs : String → Option String) where
  unfoldable pub bind_transition_artifact :
      WorkflowEventV1 → TransitionArtifact → WorkflowEventV1 × Option WorkflowError
  unfolding set_input new_workflow_event
  bind_transition_artifact e artifact = new_workflow_event c (record e {
    id = "";
    projection = record e.projection { last_event_id = "" };
    input_digests =
        set_input
          (set_input e.input_digests "transition_artifact_before"
            (c.digest (c.text artifact.before)))
          "transition_artifact_after" (c.digest (c.text artifact.after));
  })

  -- Whether validateTransitionArtifact accepts.
  unfoldable pub artifact_matches : WorkflowEventV1 → TransitionArtifact → Bool
  unfolding input_of
  artifact_matches e artifact =
      input_of e.input_digests "transition_artifact_before" == c.digest (c.text artifact.before)
      && input_of e.input_digests "transition_artifact_after" == c.digest (c.text artifact.after)

  -- Whether a path is that of the tasks file of the spec.
  unfoldable pub is_tasks_path : String → String → Bool
  is_tasks_path path tasks_path = elim (abs path) [ none ↦ false | some p ↦ p == tasks_path ]

  -- The journal of an event that reached the ledger: the artifact is rolled forward.
  unfoldable pub roll_forward : Store B → WorkflowEventV1 → TransitionJournal → String → Resolved B
  unfolding artifact_matches
  roll_forward st e journal current =
      if not (artifact_matches e journal.artifact)
      then unresolved artifact_mismatch
      else if not (current == journal.artifact.before) && not (current == journal.artifact.after)
      then unresolved artifact_changed
      else resolved true (record st { tasks = some journal.artifact.after })

  -- The journal of an event that did not: it is dropped while the artifact is unchanged.
  unfoldable pub roll_back : Store B → TransitionJournal → String → Resolved B
  roll_back st journal current =
      if not (current == journal.artifact.before)
      then unresolved artifact_changed
      else resolved false (record st { journal = none })

  unfoldable pub resolve_artifact :
      Store B
      → State
      → List WorkflowEventV1
      → TransitionJournal
      → Option WorkflowEventV1
      → Resolved B
  unfolding roll_forward roll_back
  resolve_artifact st s es journal (some e) =
      if not (eqb s.revision journal.event.expected_revision)
        && not (eqb s.revision journal.event.resulting_revision)
      then unresolved journal_revision
      else elim st.tasks [
        | none ↦ unresolved artifact_unreadable
        | some current ↦ roll_forward st e journal current
      ]
  resolve_artifact st s es journal none =
      if not (eqb s.revision journal.event.expected_revision)
      then unresolved journal_revision
      else if not (follows_ledger es journal.event.expected_revision)
      then unresolved journal_unfollowed
      else elim st.tasks [
        | none ↦ unresolved artifact_unreadable
        | some current ↦ roll_back st journal current
      ]

  -- The checks of a decoded journal.
  unfoldable pub resolve_journal :
      Store B → State → List WorkflowEventV1 → TransitionJournal → Resolved B
  unfolding validate_event is_tasks_path committed_event resolve_artifact
  resolve_journal st s es journal =
      if journal.event_id == "" || journal.artifact.path == ""
      then unresolved incomplete_journal
      else elim (validate_event c journal.event) [
        | some x ↦ unresolved x
        | none ↦
            if not (journal.event_id == journal.event.id)
            then unresolved other_journal
            else elim artifact_path [
              | none ↦ unresolved bad_paths
              | some tasks_path ↦
                  if not (is_tasks_path journal.artifact.path tasks_path)
                  then unresolved not_the_tasks
                  else elim (committed_event journal.event_id es) [
                    | inr x ↦ unresolved x
                    | inl committed ↦ resolve_artifact st s es journal committed
                  ]
            ]
      ]

  unfoldable pub recover_transition_artifact : Store B → State → List WorkflowEventV1 → Resolved B
  unfolding resolve_journal
  recover_transition_artifact st s es = elim st.journal [
    | none ↦ resolved false st
    | some raw ↦ elim (c.decode_journal raw) [
      | none ↦ unresolved undecodable_journal
      | some journal ↦ resolve_journal st s es journal
    ]
  ]

  -- The last loop of RecoverWorkflowState. What was saved before an error stays.
  unfoldable pub apply_events : Store B → State → List WorkflowEventV1 → Outcome B
  unfolding save_state_cas
  apply_events st s [] = done s st
  apply_events st s (e ∷ es) =
      if not (eqb s.revision e.expected_revision)
      then stopped diverged st
      else elim (save_state_cas c.states st.state_file s.revision e.projection) [
        | unsaved x ↦ stopped (unsaved_state x) st
        | saved raw ↦ apply_events (record st { state_file = some raw }) e.projection es
      ]

  -- The removal of the journal at the end.
  abbrev pub finish : Bool → Outcome B → Outcome B
  finish pending (stopped x st) = stopped x st
  finish pending (done s st) = done s (if pending then record st { journal = none } else st)

  unfoldable pub recover_from : Store B → State → List WorkflowEventV1 → Outcome B
  unfolding recover_transition_artifact after_checkpoint apply_events
  recover_from st s es = elim (recover_transition_artifact st s es) [
    | unresolved x ↦ stopped x st
    | resolved pending st' ↦ elim (after_checkpoint s es) [
      | inr x ↦ stopped x st'
      | inl rest ↦ finish pending (apply_events st' s rest)
    ]
  ]

  unfoldable pub recover_workflow_state : Store B → Outcome B
  unfolding read_workflow_events load_state recover_from
  recover_workflow_state st = elim (read_workflow_events c st.ledger) [
    | Events.unread x ↦ stopped x st
    | Events.events es ↦ elim (load_state c.states st.state_file) [
      | Loaded.unread x ↦ stopped (bad_state x) st
      | loaded s ↦ recover_from st s es
    ]
  ]
