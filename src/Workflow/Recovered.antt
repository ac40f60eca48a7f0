-- ===== src/Workflow/Recovered.antt =====
-- internal/core/workflow_event.go: a commit, and every crash in it, against the ledger of events.
use specd.Prelude.{
  String, true, false, not, List, [], ◌∷◌, ◌++◌, Option, none, some, eqb, eqb_iff, ◌≡◌, refl, sym,
  ap, ◌∙◌, inl, inr, Bool-cases, Option-cases, not-false, ◌⊎◌,
}
use specd.State.{State, project_canonical}
use specd.State.Saved.{project_canonical-keeps}
use specd.State.Store.{Saved, saved, unsaved, save_state_cas, SaveError, next_revision}
use specd.Workflow.{
  WorkflowEventV1, WorkflowError, EventCodec, Ledger, Appended, appended, refused, validate_event,
  append_workflow_event,
}
use specd.Workflow.Chain.{stored_event, validate_event-stored, logged-read}
use specd.Workflow.Commit
use specd.Workflow.Commit.{Store, done, stopped, recover_workflow_state, apply_events}
use specd.Workflow.Transition.{
  committed, commit_workflow_transition, commit_from, commit_event, save_projection,
}
use specd.Workflow.Settled.{
  IsSettled, recover-pending, recover-settled, replay-append, after_checkpoint-append,
  after_checkpoint-last,
}
use specd.Workflow.Linked.{validate_event-parts, save_cas-projected, read-saved, current-projection}

Appended-cases {ℓ} :
    {B : Type ℓ} (a : Appended B)
    → ((l : Ledger B) × (a ≡ appended l)) ⊎ ((x : WorkflowError) × (a ≡ refused x))
Appended-cases (appended l) = inl (l, refl)
Appended-cases (refused x) = inr (x, refl)

Saved-cases {ℓ} :
    {B : Type ℓ} (a : Saved B) → ((raw : B) × (a ≡ saved raw)) ⊎ ((x : SaveError) × (a ≡ unsaved x))
Saved-cases (saved raw) = inl (raw, refl)
Saved-cases (unsaved x) = inr (x, refl)

module _ {ℓ} {B : Type ℓ} (c : EventCodec B) (artifact_path : Option String)
    (abs : String → Option String) where
  -- The steps of a commit without an artifact.
  record Steps (s : State) (e : WorkflowEventV1) (st st' : Store B) : Type ℓ where
    pub expected : s.revision ≡ e.expected_revision
    pub valid : validate_event c e ≡ none
    pub ledger : Ledger B
    pub raw : B
    pub logged : append_workflow_event c st.ledger e ≡ appended ledger
    pub kept : save_state_cas c.states st.state_file s.revision e.projection ≡ saved raw
    pub result : record st { ledger = ledger; state_file = some raw } ≡ st'

  save_projection-parts :
      (s : State) (e : WorkflowEventV1) (st st' : Store B)
      → save_projection c artifact_path abs st s e none ≡ committed st'
      → (raw : B) × (save_state_cas c.states st.state_file s.revision e.projection ≡ saved raw)
        × (record st { state_file = some raw } ≡ st')
  unfolding save_projection
  save_projection-parts s e st st' h =
      elim (Saved-cases (save_state_cas c.states st.state_file s.revision e.projection)) [
        | inl (raw, k) ↦ (raw, k, cc (rw (k, save_projection) at h))
        | inr (x, k) ↦ cc (rw (k, save_projection) at h)
      ]

  commit_event-parts :
      (s : State) (e : WorkflowEventV1) (st st' : Store B)
      → commit_event c artifact_path abs st s e none ≡ committed st'
      → (l : Ledger B) × (append_workflow_event c st.ledger e ≡ appended l)
        × (save_projection c artifact_path abs (record st { ledger = l }) s e none ≡ committed st')
  unfolding commit_event
  commit_event-parts s e st st' h = elim (Appended-cases (append_workflow_event c st.ledger e)) [
    | inl (l, k) ↦ (l, k, rw (k, commit_event) at h)
    | inr (x, k) ↦ cc (rw (k, commit_event) at h)
  ]

  commit_from-Steps :
      (s : State) (e : WorkflowEventV1) (st st' : Store B)
      → commit_from c artifact_path abs st s e none ≡ committed st'
      → Steps s e st st'
  unfolding commit_from
  commit_from-Steps s e st st' h = elim (Bool-cases (not (eqb s.revision e.expected_revision))) [
    | inl n ↦ cc (rw (n, commit_from) at h)
    | inr n ↦ elim (Option-cases (validate_event c e)) [
      | inr (x, v) ↦ cc (rw (v, commit_from, n) at h)
      | inl v ↦
          let (l, logged, last) = commit_event-parts s e st st' (rw (v, commit_from, n) at h) in
          let (raw, kept, result) = save_projection-parts s e (record st { ledger = l }) st' last in
          record {
            expected = (eqb_iff _ _).0 (not-false _ n);
            valid = v;
            ledger = l;
            raw = raw;
            logged = logged;
            kept = kept;
            result = result;
          }
    ]
  ]

  commit-Steps :
      (base s : State) (es : List WorkflowEventV1) (e : WorkflowEventV1) (st st' : Store B)
      → IsSettled c artifact_path abs base s es st
      → commit_workflow_transition c artifact_path abs st e none ≡ committed st'
      → Steps s e st st'
  unfolding commit_workflow_transition
  commit-Steps base s es e st st' settled h = commit_from-Steps s e st st' (
      rw (recover-settled c artifact_path abs base s es st settled, commit_workflow_transition) at
        h)

  -- Recovery applies one event as the commit saves it.
  pub apply-one :
      (s : State) (e : WorkflowEventV1) (st : Store B) (raw : B)
      → eqb s.revision e.expected_revision ≡ true
      → save_state_cas c.states st.state_file s.revision e.projection ≡ saved raw
      → apply_events c artifact_path abs st s (e ∷ [])
        ≡ done e.projection (record st { state_file = some raw })
  unfolding apply_events
  apply-one s e st raw q k = rw (k, apply_events, q) refl

  module _ (state_trip : (s : State) → c.states.decode (c.states.encode s) ≡ some s)
      (event_trip : (e : WorkflowEventV1) → c.decode_event (c.encode_event e) ≡ some e) where
    Steps-crash :
        (base s : State) (es : List WorkflowEventV1) (e : WorkflowEventV1) (st st' : Store B)
        → IsSettled c artifact_path abs base s es st
        → (k : Steps s e st st')
        → IsSettled c artifact_path abs base
            (project_canonical e.projection)
            (es ++ stored_event e ∷ [])
            st'
          × (recover_workflow_state c artifact_path abs (record st { ledger = k.ledger })
              ≡ done (project_canonical e.projection) st')
    Steps-crash base s es e st st' settled k =
        let (linked, sound) = validate_event-parts c e k.valid in
        let current = current-projection c e.projection sound in
        let next = linked.revision ∙ linked.resulting ∙ ap next_revision (sym k.expected) in
        let (_, same, last) = project_canonical-keeps e.projection in
        let test = (eqb_iff s.revision e.expected_revision).1 k.expected in
        let (fresh, _, read) =
          logged-read c event_trip st.ledger k.ledger es e settled.read k.logged in
        (
          rw (← k.result) (record {
            read = read;
            state =
                read-saved c state_trip st.state_file s.revision e.projection k.raw next current
                  k.kept;
            idle = settled.idle;
            caught_up =
                after_checkpoint-last (project_canonical e.projection) es (stored_event e)
                  linked.named (last ∙ linked.checkpoint) fresh
                  ((eqb_iff _ _).1 (sym (same ∙ linked.revision)));
            replayed =
                replay-append c base s es (stored_event e) settled.replayed
                  (validate_event-stored c e ∙ k.valid) test;
          }),
          rw (← k.result) (
              recover-pending c artifact_path abs s (es ++ stored_event e ∷ [])
                (stored_event e ∷ []) (record st { ledger = k.ledger }) read settled.state
                settled.idle (after_checkpoint-append s es (stored_event e) settled.caught_up)
              ∙ ap (Commit.finish c artifact_path abs false) (
                  apply-one s (stored_event e) (record st { ledger = k.ledger }) k.raw test
                    (save_cas-projected c st.state_file s.revision e.projection next current
                      ∙ k.kept))),
        )

    -- On a settled store, a commit that succeeds without an artifact settles the store again, with
    -- its event at the end of the ledger and its projection as the state. If a crash leaves the
    -- event in the ledger but not the state, recovery gives that same store; and before and after
    -- the commit recovery changes nothing.
    pub commit-recovers :
        (base s : State) (es : List WorkflowEventV1) (e : WorkflowEventV1) (st st' : Store B)
        → IsSettled c artifact_path abs base s es st
        → commit_workflow_transition c artifact_path abs st e none ≡ committed st'
        → IsSettled c artifact_path abs base
            (project_canonical e.projection)
            (es ++ stored_event e ∷ [])
            st'
          × ((l : Ledger B) × (append_workflow_event c st.ledger e ≡ appended l)
              × (recover_workflow_state c artifact_path abs (record st { ledger = l })
                  ≡ done (project_canonical e.projection) st'))
          × (recover_workflow_state c artifact_path abs st ≡ done s st)
          × (recover_workflow_state c artifact_path abs st'
              ≡ done (project_canonical e.projection) st')
    commit-recovers base s es e st st' settled h =
        let k = commit-Steps base s es e st st' settled h in
        let (after, crash) = Steps-crash base s es e st st' settled k in
        (
          after,
          (k.ledger, k.logged, crash),
          recover-settled c artifact_path abs base s es st settled,
          recover-settled c artifact_path abs base (project_canonical e.projection)
              (es ++ stored_event e ∷ []) st' after,
        )
