-- ===== src/Workflow/Artifact.antt =====
-- internal/core/workflow_event.go: a commit that also writes tasks.md, and every crash in it.
use specd.Prelude.{
  ℕ, String, Bool, true, false, not, ◌&&◌, List, [], ◌∷◌, ◌++◌, Option, none, some, ◌==◌, any, eqb,
  eqb_iff, ◌≡◌, ◌≢◌, refl, ◌∙◌, inl, inr, arith, Bool-cases, test_of_ne, eq_refl,
}
use specd.State.{State}
use specd.State.Store.{saved, loaded, load_state, save_state_cas}
use specd.Workflow.{
  WorkflowEventV1, TransitionArtifact, TransitionJournal, EventCodec, Ledger, appended, events,
  tip_of, breaks, validate_event, append_workflow_event, read_workflow_events,
}
use specd.Workflow.Chain.{stored_event, validate_event-stored}
use specd.Workflow.Commit
use specd.Workflow.Commit.{
  Store, Outcome, done, Resolved, resolved, committed_event, follows_ledger, after_checkpoint,
  artifact_matches, is_tasks_path, roll_forward, roll_back, resolve_artifact, resolve_journal,
  recover_transition_artifact, recover_from, recover_workflow_state, apply_events,
}
use specd.Workflow.Transition.{
  committed, stage_at, stage_artifact, save_projection, commit_event, commit_from,
  commit_workflow_transition,
}
use specd.Workflow.Settled.{IsSettled, recover-settled}

-- The files of a spec whose tasks.md exists.
abbrev pub files {ℓ} : {B : Type ℓ} → Option B → Ledger B → Option B → String → Store B
files file ledger journal current = record {
  state_file = file;
  ledger = ledger;
  journal = journal;
  tasks = some current;
}

pub committed-absent :
    (id : String) (es : List WorkflowEventV1)
    → any (λ prior. prior.id == id) es ≡ false
    → committed_event id es ≡ inl none
unfolding committed_event
committed-absent id [] h = refl
committed-absent id (e ∷ es) h = elim (Bool-cases (e.id == id)) [
  | inl q ↦ cc (rw q at h)
  | inr q ↦ rw q (committed-absent id es (rw q at h))
]

pub committed-last :
    (es : List WorkflowEventV1) (e : WorkflowEventV1)
    → any (λ prior. prior.id == e.id) es ≡ false
    → committed_event e.id (es ++ e ∷ []) ≡ inl (some e)
unfolding committed_event
committed-last [] e h = rw (eq_refl e.id) refl
committed-last (d ∷ es) e h = elim (Bool-cases (d.id == e.id)) [
  | inl q ↦ cc (rw q at h)
  | inr q ↦ rw q (committed-last es e (rw q at h))
]

unbroken-follows :
    (tip : Option ℕ) (e : WorkflowEventV1)
    → breaks tip e ≡ false
    → elim tip [ none ↦ true | some r ↦ eqb r e.expected_revision ] ≡ true
unbroken-follows none e h = refl
unbroken-follows (some r) e h = ground arith

module _ {ℓ} {B : Type ℓ} (c : EventCodec B) (tasks_path : String)
    (abs : String → Option String) where
  -- The journal that a commit writes.
  abbrev pub journal_in : WorkflowEventV1 → TransitionArtifact → TransitionJournal
  journal_in e a = record {
    event_id = e.id;
    event = stored_event e;
    artifact = record a { path = tasks_path };
  }

  module _ (fixed : abs tasks_path ≡ some tasks_path) (named_path : tasks_path ≢ "") where
    own-path : is_tasks_path c (some tasks_path) abs tasks_path tasks_path ≡ true
    unfolding is_tasks_path
    own-path = rw (fixed, is_tasks_path) (eq_refl tasks_path)

    -- The checks of the journal let its own event through.
    pub resolve_journal-own :
        (st : Store B) (s : State) (es : List WorkflowEventV1) (e : WorkflowEventV1)
        (a : TransitionArtifact) (o : Option WorkflowEventV1)
        → validate_event c e ≡ none
        → e.id ≢ ""
        → committed_event e.id es ≡ inl o
        → resolve_journal c (some tasks_path) abs st s es (journal_in e a)
          ≡ resolve_artifact c (some tasks_path) abs st s es (journal_in e a) o
    unfolding resolve_journal
    resolve_journal-own st s es e a o v n k =
        rw
          (
            validate_event-stored c e ∙ v,
            own-path,
            k,
            resolve_journal,
            test_of_ne e.id "" n,
            test_of_ne tasks_path "" named_path,
            eq_refl e.id,
          )
          refl

    matches-stored :
        (e : WorkflowEventV1) (a : TransitionArtifact)
        → artifact_matches c (some tasks_path) abs (stored_event e) (record a { path = tasks_path })
          ≡ artifact_matches c (some tasks_path) abs e a
    unfolding artifact_matches
    matches-stored e a = refl

    -- The journal of an event that is not in the ledger is dropped.
    pub resolve-dropped :
        (file : Option B) (ledger : Ledger B) (raw : Option B) (s : State)
        (es : List WorkflowEventV1) (e : WorkflowEventV1) (a : TransitionArtifact)
        → eqb s.revision e.expected_revision ≡ true
        → breaks (tip_of none es) e ≡ false
        → resolve_artifact c
            (some tasks_path)
            abs
            (files file ledger raw a.before)
            s
            es
            (journal_in e a)
            none
          ≡ resolved false (files file ledger none a.before)
    unfolding resolve_artifact roll_back
    resolve-dropped file ledger raw s es e a q b =
        rw (q, unbroken-follows (tip_of none es) e b, eq_refl a.before) refl

    -- The journal of an event in the ledger rolls the artifact forward.
    pub resolve-forward :
        (file : Option B) (ledger : Ledger B) (raw : Option B) (current : String) (s : State)
        (es : List WorkflowEventV1) (e : WorkflowEventV1) (a : TransitionArtifact)
        → (not (eqb s.revision e.expected_revision) && not (eqb s.revision e.resulting_revision))
          ≡ false
        → artifact_matches c (some tasks_path) abs e a ≡ true
        → (not (current == a.before) && not (current == a.after)) ≡ false
        → resolve_artifact c
            (some tasks_path)
            abs
            (files file ledger raw current)
            s
            es
            (journal_in e a)
            (some (stored_event e))
          ≡ resolved true (files file ledger raw a.after)
    unfolding resolve_artifact roll_forward
    resolve-forward file ledger raw current s es e a q m t =
        rw (matches-stored e a ∙ m, resolve_artifact, q, roll_forward, t) refl

    -- Recovery with a journal whose outcome is known.
    pub recover-journal :
        (journal_trip : (j : TransitionJournal) → c.decode_journal (c.encode_journal j) ≡ some j)
        → (file : Option B) (ledger : Ledger B) (current next : String) (after : Option B)
          (pending : Bool) (s : State) (es rest : List WorkflowEventV1) (j : TransitionJournal)
        → read_workflow_events c ledger ≡ events es
        → load_state c.states file ≡ loaded s
        → resolve_journal c
            (some tasks_path)
            abs
            (files file ledger (some (c.encode_journal j)) current)
            s
            es
            j
          ≡ resolved pending (files file ledger after next)
        → after_checkpoint s es ≡ inl rest
        → recover_workflow_state c
            (some tasks_path)
            abs
            (files file ledger (some (c.encode_journal j)) current)
          ≡ Commit.finish c
              (some tasks_path)
              abs
              pending
              (apply_events c (some tasks_path) abs (files file ledger after next) s rest)
    unfolding recover_workflow_state recover_from recover_transition_artifact
    recover-journal trip file ledger current next after pending s es rest j r l o k =
        rw (r, recover_workflow_state, l, recover_from)
          (from_resolved (rw (trip j, recover_transition_artifact) o))
      where
        from_resolved :
            recover_transition_artifact c
                (some tasks_path)
                abs
                (files file ledger (some (c.encode_journal j)) current)
                s
                es
              ≡ resolved pending (files file ledger after next)
            → recover_from c
                (some tasks_path)
                abs
                (files file ledger (some (c.encode_journal j)) current)
                s
                es
              ≡ Commit.finish c
                  (some tasks_path)
                  abs
                  pending
                  (apply_events c (some tasks_path) abs (files file ledger after next) s rest)
        from_resolved q = rw (q, recover_from, k) refl

    pub commit_event-files :
        (file : Option B) (ledger l : Ledger B) (journal raw : B) (s : State) (e : WorkflowEventV1)
        (a : TransitionArtifact)
        → append_workflow_event c ledger e ≡ appended l
        → save_state_cas c.states file s.revision e.projection ≡ saved raw
        → commit_event c
            (some tasks_path)
            abs
            (files file ledger (some journal) a.before)
            s
            e
            (some a)
          ≡ committed (files (some raw) l none a.after)
    unfolding commit_event save_projection
    commit_event-files file ledger l journal raw s e a k w =
        rw (k, commit_event, w, save_projection) refl

    pub stage_artifact-files :
        (file : Option B) (ledger : Ledger B) (e : WorkflowEventV1) (a : TransitionArtifact)
        → is_tasks_path c (some tasks_path) abs a.path tasks_path ≡ true
        → artifact_matches c (some tasks_path) abs e a ≡ true
        → stage_artifact c (some tasks_path) abs (files file ledger none a.before) e (some a)
          ≡ inl (files file ledger (some (c.encode_journal (journal_in e a))) a.before)
    unfolding stage_artifact stage_at
    stage_artifact-files file ledger e a p m =
        rw (p, stage_artifact, stage_at, eq_refl a.before, m) refl

    pub commit_from-files :
        (st st1 : Store B) (s : State) (e : WorkflowEventV1) (a : TransitionArtifact)
        → validate_event c e ≡ none
        → s.revision ≡ e.expected_revision
        → stage_artifact c (some tasks_path) abs st e (some a) ≡ inl st1
        → commit_from c (some tasks_path) abs st s e (some a)
          ≡ commit_event c (some tasks_path) abs st1 s e (some a)
    unfolding commit_from
    commit_from-files st st1 s e a v q k = rw (v, k, commit_from, (eqb_iff _ _).1 q) refl

    pub commit-files :
        (base s : State) (es : List WorkflowEventV1) (e : WorkflowEventV1) (st : Store B)
        (a : TransitionArtifact)
        → IsSettled c (some tasks_path) abs base s es st
        → commit_workflow_transition c (some tasks_path) abs st e (some a)
          ≡ commit_from c (some tasks_path) abs st s e (some a)
    unfolding commit_workflow_transition
    commit-files base s es e st a settled =
        rw
          (recover-settled c (some tasks_path) abs base s es st settled, commit_workflow_transition)
          refl
