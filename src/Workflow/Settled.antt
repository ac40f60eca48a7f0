-- ===== src/Workflow/Settled.antt =====
-- internal/core/workflow_event.go: a store between two commits.
use specd.Prelude.{
  ℕ, String, true, false, not, List, [], ◌∷◌, ◌++◌, Option, none, ◌==◌, any, eqb, ◌≡◌, ◌≢◌, refl,
  ap, inl, inr, Bool-cases, Option-cases, test_of_ne, eq_refl,
}
use specd.State.{State}
use specd.State.Store.{loaded, load_state}
use specd.Workflow.{
  WorkflowEventV1, EventCodec, events, validate_event, read_workflow_events, replay_workflow_events,
}
use specd.Workflow.Commit
use specd.Workflow.Commit.{
  Store, Outcome, done, after_id, after_checkpoint, resolved, recover_transition_artifact,
  recover_from, recover_workflow_state, apply_events,
}

-- One more event behind a checkpoint.
after_id-append :
    (id : String) (r : ℕ) (es rest : List WorkflowEventV1) (e : WorkflowEventV1)
    → after_id id r es ≡ inl rest
    → after_id id r (es ++ e ∷ []) ≡ inl (rest ++ e ∷ [])
unfolding after_id
after_id-append id r [] rest e h = cc
after_id-append id r (d ∷ es) rest e h = elim (Bool-cases (d.id == id)) [
  | inl q ↦ elim (Bool-cases (not (eqb d.resulting_revision r))) [
    | inl n ↦ cc (rw (q, n) at h)
    | inr n ↦ let same : es ≡ rest = cc (rw (q, n) at h) in rw (q, n, same) refl
  ]
  | inr q ↦ rw q (after_id-append id r es rest e (rw q at h))
]

-- A new identity is found behind the events before it.
after_id-last :
    (r : ℕ) (es : List WorkflowEventV1) (e : WorkflowEventV1)
    → any (λ prior. prior.id == e.id) es ≡ false
    → eqb e.resulting_revision r ≡ true
    → after_id e.id r (es ++ e ∷ []) ≡ inl []
unfolding after_id
after_id-last r [] e h k = rw (eq_refl e.id, k) refl
after_id-last r (d ∷ es) e h k = elim (Bool-cases (d.id == e.id)) [
  | inl q ↦ cc (rw q at h)
  | inr q ↦ rw q (after_id-last r es e (rw q at h) k)
]

pub after_checkpoint-append :
    (s : State) (es : List WorkflowEventV1) (e : WorkflowEventV1)
    → after_checkpoint s es ≡ inl []
    → after_checkpoint s (es ++ e ∷ []) ≡ inl (e ∷ [])
unfolding after_checkpoint
after_checkpoint-append s es e h = elim (Bool-cases (s.last_event_id == "")) [
  | inl q ↦ let empty : es ≡ [] = cc (rw q at h) in rw (q, empty) refl
  | inr q ↦ rw q (after_id-append s.last_event_id s.revision es [] e (rw q at h))
]

pub after_checkpoint-last :
    (s : State) (es : List WorkflowEventV1) (e : WorkflowEventV1)
    → e.id ≢ ""
    → s.last_event_id ≡ e.id
    → any (λ prior. prior.id == e.id) es ≡ false
    → eqb e.resulting_revision s.revision ≡ true
    → after_checkpoint s (es ++ e ∷ []) ≡ inl []
unfolding after_checkpoint
after_checkpoint-last s es e n q fresh k =
    rw (q, test_of_ne e.id "" n) (after_id-last s.revision es e fresh k)

module _ {ℓ} {B : Type ℓ} (c : EventCodec B) where
  pub replay-append :
      (base s : State) (es : List WorkflowEventV1) (e : WorkflowEventV1)
      → replay_workflow_events c base es ≡ inl s
      → validate_event c e ≡ none
      → eqb s.revision e.expected_revision ≡ true
      → replay_workflow_events c base (es ++ e ∷ []) ≡ inl e.projection
  unfolding replay_workflow_events
  replay-append base s [] e h v k =
      let q : base ≡ s = cc in
      rw (v, replay_workflow_events, ap (λ (x : State). eqb x.revision e.expected_revision) q, k)
        refl
  replay-append base s (d ∷ es) e h v k = elim (Option-cases (validate_event c d)) [
    | inr (x, w) ↦ cc (rw (w, replay_workflow_events) at h)
    | inl w ↦ elim (Bool-cases (not (eqb base.revision d.expected_revision))) [
      | inl n ↦ cc (rw (w, replay_workflow_events, n) at h)
      | inr n ↦
          rw (w, replay_workflow_events, n)
            (replay-append d.projection s es e (rw (w, replay_workflow_events, n) at h) v k)
    ]
  ]

  module _ (artifact_path : Option String) (abs : String → Option String) where
    no-journal :
        (s : State) (es : List WorkflowEventV1) (st : Store B)
        → st.journal ≡ none
        → recover_transition_artifact c artifact_path abs st s es ≡ resolved false st
    unfolding recover_transition_artifact
    no-journal s es st j = simp (j, recover_transition_artifact)

    -- The ledger can be read, the state is that of its last event and the replay of all of them from
    -- the state at the start, and no artifact is open.
    pub record IsSettled (base s : State) (es : List WorkflowEventV1) (st : Store B) : Type ℓ where
      pub read : read_workflow_events c st.ledger ≡ events es
      pub state : load_state c.states st.state_file ≡ loaded s
      pub idle : st.journal ≡ none
      pub caught_up : after_checkpoint s es ≡ inl []
      pub replayed : replay_workflow_events c base es ≡ inl s

    recover_from-pending :
        (s : State) (es rest : List WorkflowEventV1) (st : Store B)
        → st.journal ≡ none
        → after_checkpoint s es ≡ inl rest
        → recover_from c artifact_path abs st s es
          ≡ Commit.finish c artifact_path abs false (apply_events c artifact_path abs st s rest)
    unfolding recover_from
    recover_from-pending s es rest st j a = rw (no-journal s es st j, recover_from, a) refl

    -- Without a journal, recovery applies the events behind the checkpoint.
    pub recover-pending :
        (s : State) (es rest : List WorkflowEventV1) (st : Store B)
        → read_workflow_events c st.ledger ≡ events es
        → load_state c.states st.state_file ≡ loaded s
        → st.journal ≡ none
        → after_checkpoint s es ≡ inl rest
        → recover_workflow_state c artifact_path abs st
          ≡ Commit.finish c artifact_path abs false (apply_events c artifact_path abs st s rest)
    unfolding recover_workflow_state recover_from recover_transition_artifact
    recover-pending s es rest st r l j a =
        rw (r, recover_workflow_state, l) (recover_from-pending s es rest st j a)

    pub recover-settled :
        (base s : State) (es : List WorkflowEventV1) (st : Store B)
        → IsSettled base s es st
        → recover_workflow_state c artifact_path abs st ≡ done s st
    unfolding apply_events
    recover-settled base s es st h = recover-pending s es [] st h.read h.state h.idle h.caught_up
