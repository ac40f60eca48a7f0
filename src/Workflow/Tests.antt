-- ===== src/Workflow/Tests.antt =====
-- internal/core/workflow_event.go: the theorems at the first transition of a new spec, with encodings
-- that keep what they encode and a digest that names every event alike.
use specd.Prelude.{
  true, ne_of_test, sort_strings, String, [], ◌∷◌, ◌++◌, Option, none, some, ◌≡◌, refl, pos, false,
}
use specd.State.{State, initial_state, project_canonical}
use specd.Workflow.{
  validate_event, TransitionArtifact, WorkflowEventV1, EventCodec, TransitionJournal, Ledger,
  appended, append_workflow_event, fill_event, replay_workflow_events,
}
use specd.Workflow.Chain.{stored_event}
use specd.Workflow.Commit.{Store, done, recover_workflow_state}
use specd.Workflow.Transition.{committed, commit_workflow_transition}
use specd.Workflow.Settled.{IsSettled}
use specd.Workflow.Complete.{commit-settles}
use specd.Workflow.Artifact.{files, journal_in}
use specd.Workflow.Crash.{Crashes, commit-atomic}
use specd.Workflow.Commit.{artifact_matches, is_tasks_path, bind_transition_artifact}

data Bytes : Type 0 where
  of_state : State → Bytes
  of_event : WorkflowEventV1 → Bytes
  of_journal : TransitionJournal → Bytes
  of_text : String → Bytes

abbrev state_in : Bytes → Option State
state_in (of_state s) = some s
state_in _ = none

abbrev event_in : Bytes → Option WorkflowEventV1
event_in (of_event e) = some e
event_in _ = none

abbrev journal_of_bytes : Bytes → Option TransitionJournal
journal_of_bytes (of_journal j) = some j
journal_of_bytes _ = none

abbrev plain : EventCodec Bytes
plain = record {
  states = record {
    encode = of_state;
    decode = state_in;
    decoders = record {
      decode_amendment = λ raw. none;
      decode_spike = λ raw. none;
      decode_approval = λ raw. none;
      parse_time = λ text. none;
    };
  };
  encode_event = of_event;
  decode_event = event_in;
  encode_journal = of_journal;
  decode_journal = journal_of_bytes;
  digest = λ raw. "00112233445566778899aabbccddeeff00112233445566778899aabbccddeeff";
  text = of_text;
}

abbrev demo : State
demo = initial_state "demo"

abbrev edited : WorkflowEventV1
edited = fill_event plain (record {
  schema_version = pos 0;
  id = "";
  entity_kind = "spec";
  entity_id = "demo";
  before_entity_version = 0;
  after_entity_version = 1;
  expected_revision = 0;
  resulting_revision = 0;
  transition = "edit";
  actor = "a";
  authority_digest = "00112233445566778899aabbccddeeff00112233445566778899aabbccddeeff";
  reason = "r";
  input_digests = [];
  impacted_entities = [];
  git_head = "";
  timestamp = "t";
  projection = demo;
})

abbrev fresh : Store Bytes
fresh = record {
  state_file = some (of_state demo);
  ledger = record { lines = []; torn = false };
  journal = none;
  tasks = none;
}

abbrev logged : Ledger Bytes
logged = record { lines = some (of_event (stored_event edited)) ∷ []; torn = false }

abbrev after : Store Bytes
after = record fresh {
  state_file = some (of_state (project_canonical edited.projection));
  ledger = logged;
}

abbrev same_path : String → Option String
same_path path = some path

program : Unit {0}
unfolding initial_state fill_event commit_workflow_transition project_canonical sort_strings
    replay_workflow_events
program = tt

fresh-IsSettled : IsSettled plain none same_path demo demo [] fresh
unfolding program
fresh-IsSettled = record {
  read = refl;
  state = refl;
  idle = refl;
  caught_up = refl;
  replayed = refl;
}

edited-committed :
    commit_workflow_transition plain none same_path fresh edited none ≡ committed after
unfolding program
edited-committed = refl

edited-valid : validate_event plain edited ≡ none
unfolding program
edited-valid = refl

same_revision : demo.revision ≡ edited.expected_revision
unfolding program
same_revision = refl

commit-settles_example :
    (st' : Store Bytes) × (commit_workflow_transition plain none same_path fresh edited none
      ≡ committed st')
    × IsSettled plain none same_path demo
        (project_canonical edited.projection)
        ([] ++ stored_event edited ∷ [])
        st'
    × ((l : Ledger Bytes) × (append_workflow_event plain fresh.ledger edited ≡ appended l)
        × (recover_workflow_state plain none same_path (record fresh { ledger = l })
            ≡ done (project_canonical edited.projection) st'))
    × (recover_workflow_state plain none same_path fresh ≡ done demo fresh)
    × (recover_workflow_state plain none same_path st'
        ≡ done (project_canonical edited.projection) st')
commit-settles_example =
    commit-settles plain none same_path (λ s. refl) (λ e. refl) demo demo [] edited fresh
      fresh-IsSettled edited-valid same_revision refl

abbrev tasks_path : String
tasks_path = "/p/tasks.md"

abbrev checked_off : TransitionArtifact
checked_off = record { path = tasks_path; before = "open"; after = "done" }

abbrev bound : WorkflowEventV1
bound = (bind_transition_artifact plain (some tasks_path) same_path edited checked_off).0

abbrev with_tasks : Store Bytes
with_tasks = files (some (of_state demo)) (record { lines = []; torn = false }) none "open"

with_tasks-IsSettled : IsSettled plain (some tasks_path) same_path demo demo [] with_tasks
unfolding program
with_tasks-IsSettled = record {
  read = refl;
  state = refl;
  idle = refl;
  caught_up = refl;
  replayed = refl;
}

bound-valid : validate_event plain bound ≡ none
unfolding program bind_transition_artifact
bound-valid = refl

bound_revision : demo.revision ≡ bound.expected_revision
unfolding program bind_transition_artifact
bound_revision = refl

bound-matches : artifact_matches plain (some tasks_path) same_path bound checked_off ≡ true
unfolding program bind_transition_artifact artifact_matches
bound-matches = refl

own_path : is_tasks_path plain (some tasks_path) same_path tasks_path tasks_path ≡ true
unfolding is_tasks_path
own_path = refl

commit-atomic_example :
    (l : Ledger Bytes) × (raw : Bytes) × (commit_workflow_transition plain
        (some tasks_path)
        same_path
        with_tasks
        bound
        (some checked_off)
      ≡ committed (files (some raw) l none "done"))
    × IsSettled plain
        (some tasks_path)
        same_path
        demo
        (project_canonical bound.projection)
        ([] ++ stored_event bound ∷ [])
        (files (some raw) l none "done")
    × Crashes plain tasks_path same_path demo
        (project_canonical bound.projection)
        (some (of_state demo))
        (record { lines = []; torn = false })
        l
        raw
        (of_journal (journal_in plain tasks_path same_path bound checked_off))
        checked_off
commit-atomic_example =
    commit-atomic plain tasks_path same_path refl (ne_of_test tasks_path "" refl) (λ s. refl)
      (λ e. refl) (λ j. refl) demo demo [] bound checked_off (some (of_state demo))
      (record { lines = []; torn = false }) with_tasks-IsSettled bound-valid bound_revision refl
      own_path bound-matches
