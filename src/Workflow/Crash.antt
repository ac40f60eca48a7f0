-- ===== src/Workflow/Crash.antt =====
-- internal/core/workflow_event.go: a commit that also writes tasks.md is all or nothing.
use specd.Prelude.{
  String, Bool, true, false, not, ◌&&◌, List, [], ◌∷◌, ◌++◌, Option, none, some, ◌==◌, any, eqb,
  eqb_iff, ◌≡◌, ◌≢◌, refl, sym, ap, ◌∙◌, arith, eq_refl, inl,
}
use specd.State.{State, project_canonical}
use specd.State.Saved.{project_canonical-keeps}
use specd.State.Store.{load_state, loaded, saved, save_state_cas, next_revision}
use specd.Workflow.{
  WorkflowEventV1, TransitionArtifact, TransitionJournal, EventCodec, Ledger, validate_event,
  read_workflow_events, events,
}
use specd.Workflow.Chain.{stored_event}
use specd.Workflow.Commit
use specd.Workflow.Commit.{
  Store, done, committed_event, after_checkpoint, artifact_matches, is_tasks_path,
  recover_workflow_state, apply_events,
}
use specd.Workflow.Transition.{committed, commit_workflow_transition}
use specd.Workflow.Settled.{IsSettled, after_checkpoint-append}
use specd.Workflow.Linked.{validate_event-parts, current-projection, save_cas-projected}
use specd.Workflow.Recovered.{apply-one}
use specd.Workflow.Complete.{commit-parts, unbroken}
use specd.Workflow.Artifact.{
  journal_in, files, committed-absent, committed-last, resolve_journal-own, resolve-dropped,
  resolve-forward, recover-journal, commit_event-files, stage_artifact-files, commit_from-files,
  commit-files,
}

first_is : (a b : Bool) → a ≡ true → (not a && not b) ≡ false
first_is a b h = ground arith

second_is : (a b : Bool) → b ≡ true → (not a && not b) ≡ false
second_is a b h = ground arith

module _ {ℓ} {B : Type ℓ} (c : EventCodec B) (tasks_path : String)
    (abs : String → Option String) where
  -- The crashes of a commit, by what it has written: the journal; the event; the artifact; and the
  -- state, but the journal is still there.
  pub record Crashes (s s' : State) (file : Option B) (ledger l : Ledger B) (raw journal : B)
      (a : TransitionArtifact) : Type ℓ where
    pub journalled :
        recover_workflow_state c (some tasks_path) abs (files file ledger (some journal) a.before)
        ≡ done s (files file ledger none a.before)
    pub logged :
        recover_workflow_state c (some tasks_path) abs (files file l (some journal) a.before)
        ≡ done s' (files (some raw) l none a.after)
    pub written :
        recover_workflow_state c (some tasks_path) abs (files file l (some journal) a.after)
        ≡ done s' (files (some raw) l none a.after)
    pub saved_last :
        recover_workflow_state c (some tasks_path) abs (files (some raw) l (some journal) a.after)
        ≡ done s' (files (some raw) l none a.after)

  module _ (fixed : abs tasks_path ≡ some tasks_path) (named_path : tasks_path ≢ "")
      (state_trip : (s : State) → c.states.decode (c.states.encode s) ≡ some s)
      (event_trip : (e : WorkflowEventV1) → c.decode_event (c.encode_event e) ≡ some e)
      (journal_trip : (j : TransitionJournal)
        → c.decode_journal (c.encode_journal j) ≡ some j) where
    -- A crash behind the event: the artifact is rolled forward, then the rest is applied.
    forward-crash :
        (file : Option B) (l : Ledger B) (current : String) (s : State)
        (es rest : List WorkflowEventV1) (e : WorkflowEventV1) (a : TransitionArtifact)
        → validate_event c e ≡ none
        → e.id ≢ ""
        → read_workflow_events c l ≡ events es
        → load_state c.states file ≡ loaded s
        → (not (eqb s.revision e.expected_revision) && not (eqb s.revision e.resulting_revision))
          ≡ false
        → artifact_matches c (some tasks_path) abs e a ≡ true
        → (not (current == a.before) && not (current == a.after)) ≡ false
        → committed_event e.id es ≡ inl (some (stored_event e))
        → after_checkpoint s es ≡ inl rest
        → recover_workflow_state c
            (some tasks_path)
            abs
            (files file l (some (c.encode_journal (journal_in c tasks_path abs e a))) current)
          ≡ Commit.finish c (some tasks_path) abs true (
              apply_events c
                (some tasks_path)
                abs
                (files file l (some (c.encode_journal (journal_in c tasks_path abs e a))) a.after)
                s
                rest)
    forward-crash file l current s es rest e a v n r load q m t last k =
        let raw_j = some (c.encode_journal (journal_in c tasks_path abs e a)) in
        recover-journal c tasks_path abs fixed named_path journal_trip file l current a.after raw_j
          true s es rest (journal_in c tasks_path abs e a) r load
          (resolve_journal-own c tasks_path abs fixed named_path (files file l raw_j current) s es e
              a (some (stored_event e)) v n last
            ∙ resolve-forward c tasks_path abs fixed named_path file l raw_j current s es e a q m t)
          k

    -- The four crashes, where the event is logged and its projection can be saved.
    atomic-Crashes :
        (base s : State) (es : List WorkflowEventV1) (e : WorkflowEventV1) (a : TransitionArtifact)
        (file : Option B) (ledger l : Ledger B) (raw : B)
        → IsSettled c (some tasks_path) abs base s es (files file ledger none a.before)
        → IsSettled c
            (some tasks_path)
            abs
            base
            (project_canonical e.projection)
            (es ++ stored_event e ∷ [])
            (files (some raw) l none a.before)
        → validate_event c e ≡ none
        → s.revision ≡ e.expected_revision
        → any (λ prior. prior.id == e.id) es ≡ false
        → artifact_matches c (some tasks_path) abs e a ≡ true
        → save_state_cas c.states file s.revision (project_canonical e.projection) ≡ saved raw
        → Crashes s
            (project_canonical e.projection)
            file
            ledger
            l
            raw
            (c.encode_journal (journal_in c tasks_path abs e a))
            a
    unfolding apply_events
    atomic-Crashes base s es e a file ledger l raw settled after v q f m kept =
        let linked = (validate_event-parts c e v).0 in
        let (_, same, _) = project_canonical-keeps e.projection in
        let test = (eqb_iff s.revision e.expected_revision).1 q in
        let j = journal_in c tasks_path abs e a in
        let raw_j = some (c.encode_journal j) in
        let es' = es ++ stored_event e ∷ [] in
        let s' = project_canonical e.projection in
        let pending = after_checkpoint-append s es (stored_event e) settled.caught_up in
        let last = committed-last es (stored_event e) f in
        let applied = ap (Commit.finish c (some tasks_path) abs true) (
          apply-one c (some tasks_path) abs s (stored_event e) (files file l raw_j a.after) raw test
            kept) in
        record {
          journalled =
              recover-journal c tasks_path abs fixed named_path journal_trip file ledger a.before
                a.before none false s es [] j settled.read settled.state
                (resolve_journal-own c tasks_path abs fixed named_path
                    (files file ledger raw_j a.before) s es e a none v linked.named
                    (committed-absent e.id es f)
                  ∙ resolve-dropped c tasks_path abs fixed named_path file ledger raw_j s es e a
                      test (unbroken c base s es e settled.replayed q))
                settled.caught_up;
          logged =
              forward-crash file l a.before s es' (stored_event e ∷ []) e a v linked.named
                after.read settled.state (first_is _ _ test) m (first_is _ _ (eq_refl a.before))
                last pending
              ∙ applied;
          written =
              forward-crash file l a.after s es' (stored_event e ∷ []) e a v linked.named after.read
                settled.state (first_is _ _ test) m (second_is _ _ (eq_refl a.after)) last pending
              ∙ applied;
          saved_last =
              forward-crash (some raw) l a.after s' es' [] e a v linked.named after.read after.state
                (second_is _ _ ((eqb_iff _ _).1 (same ∙ linked.revision))) m
                (second_is _ _ (eq_refl a.after)) last after.caught_up;
        }

    -- On a settled store, the commit of a valid event with an artifact succeeds if the event expects
    -- the revision of the state, has a new identity and holds the digests of the artifact, whose path
    -- is that of tasks.md and whose text before is the one on disk. The store is then settled with
    -- the event, the new text and no journal. A crash after the journal is recovered to the store
    -- before the commit, and each later crash to the store after it.
    pub commit-atomic :
        (base s : State) (es : List WorkflowEventV1) (e : WorkflowEventV1) (a : TransitionArtifact)
        (file : Option B) (ledger : Ledger B)
        → IsSettled c (some tasks_path) abs base s es (files file ledger none a.before)
        → validate_event c e ≡ none
        → s.revision ≡ e.expected_revision
        → any (λ prior. prior.id == e.id) es ≡ false
        → is_tasks_path c (some tasks_path) abs a.path tasks_path ≡ true
        → artifact_matches c (some tasks_path) abs e a ≡ true
        → (l : Ledger B) × (raw : B) × (commit_workflow_transition c
              (some tasks_path)
              abs
              (files file ledger none a.before)
              e
              (some a)
            ≡ committed (files (some raw) l none a.after))
          × IsSettled c
              (some tasks_path)
              abs
              base
              (project_canonical e.projection)
              (es ++ stored_event e ∷ [])
              (files (some raw) l none a.after)
          × Crashes s
              (project_canonical e.projection)
              file
              ledger
              l
              raw
              (c.encode_journal (journal_in c tasks_path abs e a))
              a
    commit-atomic base s es e a file ledger settled v q f p m =
        let (linked, sound) = validate_event-parts c e v in
        let (l, raw, k, kept, _, after) =
          commit-parts c (some tasks_path) abs state_trip event_trip base s es e
            (files file ledger none a.before) settled v q f in
        let next = linked.revision ∙ linked.resulting ∙ ap next_revision (sym q) in
        let kept' =
          save_cas-projected c file s.revision e.projection next
            (current-projection c e.projection sound)
          ∙ kept in
        let journal = c.encode_journal (journal_in c tasks_path abs e a) in
        (
          l,
          raw,
          commit-files c tasks_path abs fixed named_path base s es e
                (files file ledger none a.before) a settled
              ∙ commit_from-files c tasks_path abs fixed named_path
                  (files file ledger none a.before) (files file ledger (some journal) a.before) s e
                  a v q (stage_artifact-files c tasks_path abs fixed named_path file ledger e a p m)
              ∙ commit_event-files c tasks_path abs fixed named_path file ledger l journal raw s e a
                  k kept,
          record {
            read = after.read;
            state = after.state;
            idle = refl;
            caught_up = after.caught_up;
            replayed = after.replayed;
          },
          atomic-Crashes base s es e a file ledger l raw settled after v q f m kept',
        )
