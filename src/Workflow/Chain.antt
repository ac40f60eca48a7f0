-- ===== src/Workflow/Chain.antt =====
-- internal/core/workflow_event.go: what is read back from a ledger after an append.
use specd.Prelude.{
  ℕ, String, false, List, [], ◌∷◌, ◌++◌, Option, none, some, ◌==◌, any, ◌≡◌, refl, sym, ap, ◌∙◌,
  ◌⊎◌, inl, inr, Bool-cases, Option-cases, pos, same_int,
}
use specd.Phases.{Status, same_status, valid_status}
use specd.State.{State, project_canonical, project_stage}
use specd.State.Projection.{
  project_canonical-idempotent, project_stage-blocked, project_stage-adopted, project_stage-unknown,
}
use specd.State.Saved.{project_canonical-keeps, validate-projected}
use specd.Workflow.{
  WorkflowEventV1, WorkflowError, EventCodec, Ledger, Events, events, unread, appended, breaks,
  prepend, tip_of, marshal_event, canonical_event_id, validate_event, validate_identity, read_lines,
  read_workflow_events, append_after, append_workflow_event, identity_error, event_error,
}

-- An event as the ledger holds it: its projection has the canonical fields.
abbrev pub stored_event : WorkflowEventV1 → WorkflowEventV1
stored_event e = record e { projection = project_canonical e.projection }

abbrev checkpoint : String → State → State
checkpoint id s = record s { last_event_id = id }

project_stage-checkpoint :
    (id : String) (s : State) → project_stage (checkpoint id s) ≡ checkpoint id (project_stage s)
project_stage-checkpoint id s = elim (Bool-cases (same_status s.status Status.blocked)) [
  | inl e ↦ rw (project_stage-blocked s e, project_stage-blocked (checkpoint id s) e) refl
  | inr e ↦ elim (Bool-cases (valid_status s.status)) [
    | inl f ↦ rw (project_stage-adopted s e f, project_stage-adopted (checkpoint id s) e f) refl
    | inr f ↦ rw (project_stage-unknown s e f, project_stage-unknown (checkpoint id s) e f) refl
  ]
]

project_canonical-checkpoint :
    (id : String) (s : State)
    → project_canonical (checkpoint id s) ≡ checkpoint id (project_canonical s)
unfolding project_canonical
project_canonical-checkpoint id s = elim (Bool-cases (same_int s.cycle (pos 0))) [
  | inl e ↦ rw e (project_stage-checkpoint id (record s { cycle = pos 1 }))
  | inr e ↦ rw e (project_stage-checkpoint id s)
]

checkpoint-projected :
    (id : String) (s : State)
    → project_canonical (checkpoint id (project_canonical s)) ≡ project_canonical (checkpoint id s)
checkpoint-projected id s =
    rw
      (
        project_canonical-checkpoint id (project_canonical s),
        project_canonical-idempotent s,
        project_canonical-checkpoint id s,
      )
      refl

breaks-stored : (tip : Option ℕ) (e : WorkflowEventV1) → breaks tip (stored_event e) ≡ breaks tip e
breaks-stored none e = refl
breaks-stored (some r) e = refl

pub Events-cases :
    (r : Events)
    → ((es : List WorkflowEventV1) × (r ≡ events es)) ⊎ ((x : WorkflowError) × (r ≡ unread x))
Events-cases (events es) = inl (es, refl)
Events-cases (unread x) = inr (x, refl)

module _ {ℓ} {B : Type ℓ} (c : EventCodec B) where
  canonical_event_id-stored :
      (e : WorkflowEventV1) → canonical_event_id c (stored_event e) ≡ canonical_event_id c e
  unfolding canonical_event_id marshal_event
  canonical_event_id-stored e =
      ap (λ p. c.digest (c.encode_event (record e { id = ""; projection = p })))
        (checkpoint-projected "" e.projection)

  marshal_event-stored :
      (e : WorkflowEventV1) → marshal_event c (stored_event e) ≡ marshal_event c e
  unfolding marshal_event
  marshal_event-stored e =
      ap (λ p. c.encode_event (record e { projection = p }))
        (project_canonical-idempotent e.projection)

  validate_identity-stored :
      (e : WorkflowEventV1) → validate_identity c (stored_event e) ≡ validate_identity c e
  unfolding validate_identity
  validate_identity-stored e = λ i.
      identity_error e (canonical_event_id-stored e i) (validate-projected c.states e.projection i)

  pub validate_event-stored :
      (e : WorkflowEventV1) → validate_event c (stored_event e) ≡ validate_event c e
  unfolding validate_event
  validate_event-stored e =
      let (_, same, last) = project_canonical-keeps e.projection in
      λ i. event_error e (same i) (last i) (validate_identity-stored e i)

  -- An event is valid after an append exactly if it was valid before.
  valid-stored :
      (e : WorkflowEventV1) → validate_event c e ≡ none → validate_event c (stored_event e) ≡ none
  valid-stored e h = validate_event-stored e ∙ h

  -- How a line was read.
  pub record First (tip : Option ℕ) (raw : B) (lines : List (Option B)) (es : List WorkflowEventV1)
      : Type ℓ where
    pub first : WorkflowEventV1
    pub rest : List WorkflowEventV1
    pub decoded : c.decode_event raw ≡ some first
    pub valid : validate_event c first ≡ none
    pub linked : breaks tip first ≡ false
    pub follows : read_lines c (some first.resulting_revision) lines ≡ events rest
    pub split : first ∷ rest ≡ es

  prepend-events :
      (e : WorkflowEventV1) (r : Events) (es : List WorkflowEventV1)
      → prepend e r ≡ events es
      → (rest : List WorkflowEventV1) × (r ≡ events rest) × (e ∷ rest ≡ es)
  prepend-events e (events rest) es h = (rest, refl, cc)
  prepend-events e (unread x) es h = cc

  pub read_lines-First :
      (tip : Option ℕ) (raw : B) (lines : List (Option B)) (es : List WorkflowEventV1)
      → read_lines c tip (some raw ∷ lines) ≡ events es
      → First tip raw lines es
  unfolding read_lines
  read_lines-First tip raw lines es h = elim (Option-cases (c.decode_event raw)) [
    | inl q ↦ cc (rw (q, read_lines) at h)
    | inr (e, q) ↦ elim (Option-cases (validate_event c e)) [
      | inr (x, v) ↦ cc (rw (q, read_lines, v) at h)
      | inl v ↦ elim (Bool-cases (breaks tip e)) [
        | inl b ↦ cc (rw (q, read_lines, v, b) at h)
        | inr b ↦
            let (rest, r, s) = prepend-events e _ es (rw (q, read_lines, v, b) at h) in
            record {
              first = e;
              rest = rest;
              decoded = q;
              valid = v;
              linked = b;
              follows = r;
              split = s;
            }
      ]
    ]
  ]

  First-read :
      (tip : Option ℕ) (raw : B) (lines : List (Option B)) (e : WorkflowEventV1)
      (rest : List WorkflowEventV1)
      → c.decode_event raw ≡ some e
      → validate_event c e ≡ none
      → breaks tip e ≡ false
      → read_lines c (some e.resulting_revision) lines ≡ events rest
      → read_lines c tip (some raw ∷ lines) ≡ events (e ∷ rest)
  unfolding read_lines
  First-read tip raw lines e rest q v b r = rw (q, read_lines, v, b, r) refl

  module _ (round_trip : (e : WorkflowEventV1) → c.decode_event (c.encode_event e) ≡ some e) where
    -- Reading one more line.
    read_lines-one :
        (tip : Option ℕ) (e : WorkflowEventV1)
        → validate_event c e ≡ none
        → breaks tip e ≡ false
        → read_lines c tip (some (marshal_event c e) ∷ []) ≡ events (stored_event e ∷ [])
    unfolding read_lines marshal_event
    read_lines-one tip e v b =
        rw (round_trip (stored_event e), valid-stored e v, read_lines, breaks-stored tip e ∙ b) refl

    -- What can be read reads the same with one more line behind it.
    read_lines-append :
        (tip : Option ℕ) (lines : List (Option B)) (es : List WorkflowEventV1) (e : WorkflowEventV1)
        → read_lines c tip lines ≡ events es
        → validate_event c e ≡ none
        → breaks (tip_of tip es) e ≡ false
        → read_lines c tip (lines ++ some (marshal_event c e) ∷ [])
          ≡ events (es ++ stored_event e ∷ [])
    unfolding read_lines tip_of
    read_lines-append tip [] es e h v b =
        let q : [] ≡ es = cc in rw (← q) (read_lines-one tip e v (rw (← q) at b))
    read_lines-append tip (none ∷ lines) es e h v b = read_lines-append tip lines es e h v b
    read_lines-append tip (some raw ∷ lines) es e h v b =
        let f = read_lines-First tip raw lines es h in
        rw (← f.split) (
          First-read tip raw (lines ++ some (marshal_event c e) ∷ []) f.first
            (f.rest ++ stored_event e ∷ []) f.decoded f.valid f.linked
            (read_lines-append (some f.first.resulting_revision) lines f.rest e f.follows v
              (rw (← f.split) at b)))

    pub append-parts :
        (ledger next : Ledger B) (e : WorkflowEventV1)
        → append_workflow_event c ledger e ≡ appended next
        → (es : List WorkflowEventV1) × (read_workflow_events c ledger ≡ events es)
          × (validate_event c e ≡ none)
          × (append_after c ledger es e ≡ appended next)
    unfolding append_workflow_event
    append-parts ledger next e h = elim (Option-cases (validate_event c e)) [
      | inr (x, v) ↦ cc (rw (v, append_workflow_event) at h)
      | inl v ↦ elim (Events-cases (read_workflow_events c ledger)) [
        | inr (x, r) ↦ cc (rw (v, append_workflow_event, r) at h)
        | inl (es, r) ↦ (es, r, v, rw (v, append_workflow_event, r) at h)
      ]
    ]

    -- What an append leaves: a new identity, the chain, and the events before with the new one.
    pub append_after-read :
        (ledger next : Ledger B) (es : List WorkflowEventV1) (e : WorkflowEventV1)
        → read_workflow_events c ledger ≡ events es
        → validate_event c e ≡ none
        → append_after c ledger es e ≡ appended next
        → (any (λ prior. prior.id == e.id) es ≡ false)
          × (breaks (tip_of none es) e ≡ false)
          × (read_workflow_events c next ≡ events (es ++ stored_event e ∷ []))
    unfolding append_after read_workflow_events
    append_after-read ledger next es e r v h =
        elim (Bool-cases (any (λ prior. prior.id == e.id) es)) [
          | inl d ↦ cc (rw d at h)
          | inr d ↦ elim (Bool-cases (breaks (tip_of none es) e)) [
            | inl b ↦ cc (rw (d, b) at h)
            | inr b ↦
                let q : record {
                  lines = ledger.lines ++ some (marshal_event c e) ∷ [];
                  torn = false;
                }
                    ≡ next =
                  cc (rw (d, b) at h) in
                (d, b, rw (← q) (read_lines-append none ledger.lines es e r v b))
          ]
        ]

    -- What an append of the whole function leaves, where the ledger could be read.
    pub logged-read :
        (ledger next : Ledger B) (es : List WorkflowEventV1) (e : WorkflowEventV1)
        → read_workflow_events c ledger ≡ events es
        → append_workflow_event c ledger e ≡ appended next
        → (any (λ prior. prior.id == e.id) es ≡ false)
          × (breaks (tip_of none es) e ≡ false)
          × (read_workflow_events c next ≡ events (es ++ stored_event e ∷ []))
    logged-read ledger next es e r h =
        let (es', r', v, after) = append-parts ledger next e h in
        let q : es' ≡ es = cc (sym r' ∙ r) in append_after-read ledger next es e r v (rw q at after)
