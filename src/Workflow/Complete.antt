-- ===== src/Workflow/Complete.antt =====
-- internal/core/workflow_event.go: which commits succeed.
use specd.Prelude.{
  ℕ, String, false, not, List, [], ◌∷◌, ◌++◌, Option, none, some, ◌==◌, any, eqb, eqb_iff, ◌≡◌,
  refl, sym, ap, ◌∙◌, inl, inr, Bool-cases, Option-cases,
}
use specd.State.{State, project_canonical}
use specd.State.Governed.{validate}
use specd.State.Saved.{current_schema-same}
use specd.State.Store.{
  saved, loaded, load_state, current_schema, next_revision, save_state, save_state_cas,
  revision_conflict, unless_conflict, unless_invalid, marshal,
}
use specd.Workflow.{
  WorkflowEventV1, EventCodec, Ledger, appended, events, breaks, tip_of, validate_event,
  append_after, append_workflow_event, read_workflow_events, replay_workflow_events, marshal_event,
}
use specd.Workflow.Commit.{Store, done, recover_workflow_state}
use specd.Workflow.Transition.{
  committed, commit_workflow_transition, commit_from, commit_event, save_projection,
}
use specd.Workflow.Chain.{stored_event}
use specd.Workflow.Settled.{IsSettled, recover-settled}
use specd.Workflow.Linked.{validate_event-parts, save-plain, current-projection}
use specd.Workflow.Recovered.{commit-recovers}

module _ {ℓ} {B : Type ℓ} (c : EventCodec B) where
  replay-tail :
      (base s : State) (d : WorkflowEventV1) (es : List WorkflowEventV1)
      → replay_workflow_events c base (d ∷ es) ≡ inl s
      → (validate_event c d ≡ none) × (replay_workflow_events c d.projection es ≡ inl s)
  unfolding replay_workflow_events
  replay-tail base s d es h = elim (Option-cases (validate_event c d)) [
    | inr (x, w) ↦ cc (rw (w, replay_workflow_events) at h)
    | inl w ↦ elim (Bool-cases (not (eqb base.revision d.expected_revision))) [
      | inl n ↦ cc (rw (w, replay_workflow_events, n) at h)
      | inr n ↦ (w, rw (w, replay_workflow_events, n) at h)
    ]
  ]

  -- A replay ends at the revision of the last event.
  tip_of-replay :
      (base s : State) (tip : Option ℕ) (d : WorkflowEventV1) (es : List WorkflowEventV1)
      → replay_workflow_events c base (d ∷ es) ≡ inl s
      → tip_of tip (d ∷ es) ≡ some s.revision
  unfolding tip_of replay_workflow_events
  tip_of-replay base s tip d [] h =
      let (v, last) = replay-tail base s d [] h in
      let same : d.projection ≡ s = cc in
      ap (λ r. some r) (sym (validate_event-parts c d v).0.revision)
      ∙ ap (λ (x : State). some x.revision) same
  tip_of-replay base s tip d (d' ∷ es) h =
      tip_of-replay d.projection s (some d.resulting_revision) d' es
        (replay-tail base s d (d' ∷ es) h).1

  pub unbroken :
      (base s : State) (es : List WorkflowEventV1) (e : WorkflowEventV1)
      → replay_workflow_events c base es ≡ inl s
      → s.revision ≡ e.expected_revision
      → breaks (tip_of none es) e ≡ false
  unfolding tip_of
  unbroken base s [] e h q = refl
  unbroken base s (d ∷ es) e h q =
      rw (tip_of-replay base s none d es h) (rw ((eqb_iff _ _).1 q) refl)

  append-fresh :
      (ledger : Ledger B) (es : List WorkflowEventV1) (e : WorkflowEventV1)
      → read_workflow_events c ledger ≡ events es
      → validate_event c e ≡ none
      → any (λ prior. prior.id == e.id) es ≡ false
      → breaks (tip_of none es) e ≡ false
      → (l : Ledger B) × (append_workflow_event c ledger e ≡ appended l)
  unfolding append_workflow_event append_after
  append-fresh ledger es e r v f b = (
    record { lines = ledger.lines ++ some (marshal_event c e) ∷ []; torn = false },
    rw (v, append_workflow_event, r) (append_after-fresh ledger es e f b),
  )
    where
      append_after-fresh :
          (ledger : Ledger B) (es : List WorkflowEventV1) (e : WorkflowEventV1)
          → any (λ prior. prior.id == e.id) es ≡ false
          → breaks (tip_of none es) e ≡ false
          → append_after c ledger es e
            ≡ appended
                (record { lines = ledger.lines ++ some (marshal_event c e) ∷ []; torn = false })
      append_after-fresh ledger es e f b = rw (f, b) refl

  no-conflict :
      (file : Option B) (s : State) (r : ℕ)
      → load_state c.states file ≡ loaded s
      → s.revision ≡ r
      → revision_conflict c.states file r ≡ none
  unfolding revision_conflict
  no-conflict file s r l q = rw (l, revision_conflict, (eqb_iff s.revision r).1 q) refl

  save-valid :
      (file : Option B) (s : State) (p : State)
      → load_state c.states file ≡ loaded s
      → p.revision ≡ next_revision s.revision
      → validate c.states.decoders p ≡ none
      → (raw : B) × (save_state_cas c.states file s.revision p ≡ saved raw)
  unfolding save_state
  save-valid file s p l q v = (
    marshal c.states (current_schema p),
    save-plain c file s.revision p q
        ∙ ap (λ o. unless_conflict o (save_state c.states p)) (no-conflict file s s.revision l refl)
        ∙ ap (λ o. unless_invalid o (marshal c.states (current_schema p)))
            (ap (validate c.states.decoders) (current_schema-same p (current-projection c p v))
              ∙ v),
  )

  module _ (artifact_path : Option String) (abs : String → Option String) where
    save_projection-saved :
        (st : Store B) (s : State) (e : WorkflowEventV1) (raw : B)
        → save_state_cas c.states st.state_file s.revision e.projection ≡ saved raw
        → save_projection c artifact_path abs st s e none
          ≡ committed (record st { state_file = some raw })
    unfolding save_projection
    save_projection-saved st s e raw k = rw (k, save_projection) refl

    commit_event-appended :
        (st : Store B) (s : State) (e : WorkflowEventV1) (l : Ledger B)
        → append_workflow_event c st.ledger e ≡ appended l
        → commit_event c artifact_path abs st s e none
          ≡ save_projection c artifact_path abs (record st { ledger = l }) s e none
    unfolding commit_event
    commit_event-appended st s e l k = rw (k, commit_event) refl

    commit_from-valid :
        (st : Store B) (s : State) (e : WorkflowEventV1)
        → s.revision ≡ e.expected_revision
        → validate_event c e ≡ none
        → commit_from c artifact_path abs st s e none ≡ commit_event c artifact_path abs st s e none
    unfolding commit_from
    commit_from-valid st s e q v = rw (v, commit_from, (eqb_iff _ _).1 q) refl

    commit-settled :
        (base s : State) (es : List WorkflowEventV1) (e : WorkflowEventV1) (st : Store B)
        → IsSettled c artifact_path abs base s es st
        → commit_workflow_transition c artifact_path abs st e none
          ≡ commit_from c artifact_path abs st s e none
    unfolding commit_workflow_transition
    commit-settled base s es e st settled =
        rw (recover-settled c artifact_path abs base s es st settled, commit_workflow_transition)
          refl

    -- The writes of a commit of a valid event, and the store that they settle.
    pub commit-parts :
        (state_trip : (s : State) → c.states.decode (c.states.encode s) ≡ some s)
        → (event_trip : (e : WorkflowEventV1) → c.decode_event (c.encode_event e) ≡ some e)
        → (base s : State) (es : List WorkflowEventV1) (e : WorkflowEventV1) (st : Store B)
        → IsSettled c artifact_path abs base s es st
        → validate_event c e ≡ none
        → s.revision ≡ e.expected_revision
        → any (λ prior. prior.id == e.id) es ≡ false
        → (l : Ledger B) × (raw : B) × (append_workflow_event c st.ledger e ≡ appended l)
          × (save_state_cas c.states st.state_file s.revision e.projection ≡ saved raw)
          × (commit_workflow_transition c artifact_path abs st e none
              ≡ committed (record st { ledger = l; state_file = some raw }))
          × IsSettled c artifact_path abs base
              (project_canonical e.projection)
              (es ++ stored_event e ∷ [])
              (record st { ledger = l; state_file = some raw })
    commit-parts state_trip event_trip base s es e st settled v q f =
        let (linked, sound) = validate_event-parts c e v in
        let (l, k) =
          append-fresh st.ledger es e settled.read v f (unbroken base s es e settled.replayed q) in
        let (raw, kept) =
          save-valid st.state_file s e.projection settled.state
            (linked.revision ∙ linked.resulting ∙ ap next_revision (sym q)) sound in
        let commits =
          commit-settled base s es e st settled
          ∙ commit_from-valid st s e q v
          ∙ commit_event-appended st s e l k
          ∙ save_projection-saved (record st { ledger = l }) s e raw kept in
        let (after, _, _, _) =
          commit-recovers c artifact_path abs state_trip event_trip base s es e st
            (record st { ledger = l; state_file = some raw }) settled commits in
        (l, raw, k, kept, commits, after)

    -- On a settled store, the commit of a valid event without an artifact succeeds if the event
    -- expects the revision of the state and has a new identity. The store is then settled with the
    -- event at the end of the ledger and its projection as the state. A crash that leaves the event in
    -- the ledger but not the state is recovered to that same store; and recovery changes nothing
    -- before and after the commit.
    pub commit-settles :
        (state_trip : (s : State) → c.states.decode (c.states.encode s) ≡ some s)
        → (event_trip : (e : WorkflowEventV1) → c.decode_event (c.encode_event e) ≡ some e)
        → (base s : State) (es : List WorkflowEventV1) (e : WorkflowEventV1) (st : Store B)
        → IsSettled c artifact_path abs base s es st
        → validate_event c e ≡ none
        → s.revision ≡ e.expected_revision
        → any (λ prior. prior.id == e.id) es ≡ false
        → (st' : Store B) × (commit_workflow_transition c artifact_path abs st e none
            ≡ committed st')
          × IsSettled c artifact_path abs base
              (project_canonical e.projection)
              (es ++ stored_event e ∷ [])
              st'
          × ((l : Ledger B) × (append_workflow_event c st.ledger e ≡ appended l)
              × (recover_workflow_state c artifact_path abs (record st { ledger = l })
                  ≡ done (project_canonical e.projection) st'))
          × (recover_workflow_state c artifact_path abs st ≡ done s st)
          × (recover_workflow_state c artifact_path abs st'
              ≡ done (project_canonical e.projection) st')
    commit-settles state_trip event_trip base s es e st settled v q f =
        let (l, raw, _, _, commits, _) =
          commit-parts state_trip event_trip base s es e st settled v q f in
        let (after, crash, before, again) =
          commit-recovers c artifact_path abs state_trip event_trip base s es e st
            (record st { ledger = l; state_file = some raw }) settled commits in
        (record st { ledger = l; state_file = some raw }, commits, after, crash, before, again)
