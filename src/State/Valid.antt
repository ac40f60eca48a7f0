-- ===== src/State/Valid.antt =====
-- internal/core/state.go, Validate: what every state satisfies that is written or read.
use specd.Prelude.{
  String, Bool, true, false, not, ◌&&◌, List, Option, none, some, ◌==◌, ◌≡◌, ◌≢◌, refl, ◌⊎◌, inl,
  inr, arith, guard_iff, not-false, ne_of_test, sym, ◌∙◌, eq_iff, pos, less_int, same_int,
  same_int_iff, if◌then◌else◌,
}
use specd.Phases.{
  Status, Phase, StageError, Condition, same_status, same_phase, valid_status, valid_phase,
  validate_stage_condition, project_status, phase_for_status,
}
use specd.Phases.Lifecycle.{IsLegal, validate_stage_condition-IsLegal}
use specd.Approval.{ApprovalRequestRecord, approval_request_pending}
use specd.State.{State, valid_mode, project_canonical, state_schema_version}
use specd.State.Records.{
  Decoders, Amendment, Spike, RecordError, Read, records, failed, amendments, spikes,
  approval_requests,
}
use specd.State.Governed.{
  StateError, validate, validate_projected, validate_axes, validate_phase, validate_records,
  validate_request, bad_stage, is_unset_stage, stage_condition_of, is_blocked, or_failed,
  request_not_open,
}
use specd.State.Projection.{project_canonical-blocked}

abbrev status_text : Status → String
status_text (Status.other s) = s
status_text _ = ""

abbrev phase_text : Phase → String
phase_text (Phase.other s) = s
phase_text _ = ""

same_status_iff : (a b : Status) → same_status a b ≡ true → a ≡ b
same_status_iff a b h = ground (arith, eq_iff (status_text a) (status_text b))

same_phase_iff : (a b : Phase) → same_phase a b ≡ true → a ≡ b
same_phase_iff a b h = ground (arith, eq_iff (phase_text a) (phase_text b))

either :
    {P Q : Type 0} (a b : Bool) → (not a && not b) ≡ false → (a ≡ true → P) → (b ≡ true → Q) → P ⊎ Q
either true b h f g = inl (f refl)
either false true h f g = inr (g refl)
either false false h f g = cc

pending_of :
    (text : String) (found : Bool)
    → (if not (text == "") && not found then some (request_not_open text) else none) ≡ none
    → text ≢ ""
    → found ≡ true
pending_of text found h n = ground (arith, eq_iff text "")

stage_none :
    (o : Option StageError) (rest : Option StateError)
    → elim o [ some e ↦ some (bad_stage e) | none ↦ rest ] ≡ none
    → (o ≡ none) × (rest ≡ none)
stage_none none rest h = (refl, h)
stage_none (some e) rest h = cc

cancelled-blocked :
    (s : State)
    → s.condition ≡ Condition.cancelled
    → project_status (stage_condition_of s) ≡ Status.blocked
unfolding project_status
cancelled-blocked s e = rw e refl

Read-cases :
    {A : Type 0} (r : Read A)
    → ((l : List A) × (r ≡ records l)) ⊎ ((e : RecordError) × (r ≡ failed e))
Read-cases (records l) = inl (l, refl)
Read-cases (failed e) = inr (e, refl)

module _ (d : Decoders) where
  -- The records of a state can be read, and a request that it names is open.
  pub record IsReadable (s : State) : Type 0 where
    pub amended : (l : List Amendment) × (amendments d s ≡ records l)
    pub explored : (l : List Spike) × (spikes d s ≡ records l)
    pub answerable :
        (l : List ApprovalRequestRecord) × (approval_requests d s ≡ records l)
        × (s.current_request ≢ "" → approval_request_pending l s.current_request ≡ true)

  -- A projected state that obeys the lifecycle.
  pub record IsGoverned (s : State) : Type 0 where
    pub current : s.schema_version ≡ state_schema_version
    pub named : s.slug ≢ ""
    pub legal : IsLegal (stage_condition_of s)
    pub projected : project_status (stage_condition_of s) ≡ s.status
    pub uncancelled : s.condition ≢ Condition.cancelled
    pub in_phase : (s.phase ≡ phase_for_status s.status) ⊎ (s.status ≡ Status.blocked)
    pub readable : IsReadable s

  or_failed-none :
      {A : Type 0} (r : Read A) (wrap : RecordError → StateError) (rest : Option StateError)
      → or_failed r wrap rest ≡ none
      → ((l : List A) × (r ≡ records l)) × (rest ≡ none)
  or_failed-none (records l) wrap rest h = ((l, refl), h)
  or_failed-none (failed e) wrap rest h = cc

  validate_request-none :
      (s : State)
      → validate_request d s ≡ none
      → (l : List ApprovalRequestRecord) × (approval_requests d s ≡ records l)
        × (s.current_request ≢ "" → approval_request_pending l s.current_request ≡ true)
  unfolding validate_request
  validate_request-none s h = elim (Read-cases (approval_requests d s)) [
    | inr (e, q) ↦ cc (rw (q, validate_request) at h)
    | inl (l, q) ↦ (
      l,
      q,
      pending_of s.current_request (approval_request_pending l s.current_request)
          (rw (q, validate_request) at h),
    )
  ]

  validate_records-IsReadable : (s : State) → validate_records d s ≡ none → IsReadable s
  unfolding validate_records
  validate_records-IsReadable s h =
      let (a, rest) = or_failed-none (amendments d s) _ _ h in
      let (b, last) = or_failed-none (spikes d s) _ _ rest in
      record { amended = a; explored = b; answerable = validate_request-none s last }

  -- What validate_axes has checked.
  validate_phase-parts :
      (s : State)
      → validate_phase d s ≡ none
      → ((s.phase ≡ phase_for_status s.status) ⊎ (s.status ≡ Status.blocked)) × IsReadable s
  unfolding validate_phase
  validate_phase-parts s h =
      let (_, ha) = (guard_iff (not (valid_phase s.phase)) _ _).0 h in
      let (b, hb) =
        (guard_iff
            (not (same_phase s.phase (phase_for_status s.status)) && not (is_blocked s.status)) _
            _).0
          ha in
      (
        either (same_phase s.phase (phase_for_status s.status)) (is_blocked s.status) b
            (same_phase_iff s.phase (phase_for_status s.status))
            (same_status_iff s.status Status.blocked),
        validate_records-IsReadable s hb,
      )

  validate_axes-parts :
      (s : State)
      → validate_axes d s ≡ none
      → IsLegal (stage_condition_of s)
        × (project_status (stage_condition_of s) ≡ s.status)
        × (validate_phase d s ≡ none)
  unfolding validate_axes
  validate_axes-parts s h =
      let (_, ha) = (guard_iff (is_unset_stage s.stage && is_blocked s.status) _ _).0 h in
      let (q, hb) = stage_none (validate_stage_condition (stage_condition_of s)) _ ha in
      let (b, hc) =
        (guard_iff (not (same_status (project_status (stage_condition_of s)) s.status)) _ _).0 hb in
      (
        (validate_stage_condition-IsLegal (stage_condition_of s)).0 q,
        same_status_iff _ _ (not-false _ b),
        hc,
      )

  validate_projected-parts :
      (s : State)
      → validate_projected d s ≡ none
      → (s.schema_version ≡ state_schema_version) × (s.slug ≢ "") × (validate_axes d s ≡ none)
  unfolding validate_projected
  validate_projected-parts s h =
      let (a, ha) = (guard_iff (not (same_int s.schema_version state_schema_version)) _ _).0 h in
      let (b, hb) = (guard_iff (s.slug == "") _ _).0 ha in
      let (_, hc) = (guard_iff (not (valid_mode s.mode)) _ _).0 hb in
      let (_, hd) = (guard_iff (not (valid_status s.status)) _ _).0 hc in
      let (_, he) = (guard_iff (less_int s.cycle (pos 1)) _ _).0 hd in
      ((same_int_iff s.schema_version state_schema_version).0 (not-false _ a), ne_of_test _ _ b, he)

  -- A condition that the projection of the statuses sends to `blocked` is not the cancelled one.
  uncancelled_lem :
      (s : State)
      → project_status (stage_condition_of (project_canonical s)) ≡ (project_canonical s).status
      → (project_canonical s).condition ≢ Condition.cancelled
  uncancelled_lem s h e =
      cc (project_canonical-blocked s (sym h ∙ cancelled-blocked (project_canonical s) e), e)

  -- Every state that Validate accepts has, after the projection, the current schema, a slug, a legal
  -- pair of stage and condition whose single-axis status is its own, a condition that is not
  -- cancelled, the phase of its status unless that is blocked, and records that can be read, among
  -- them an open request where it names one.
  pub validate-IsGoverned : (s : State) → validate d s ≡ none → IsGoverned (project_canonical s)
  unfolding validate
  validate-IsGoverned s h =
      let (current, named, axes) = validate_projected-parts (project_canonical s) h in
      let (legal, projected, rest) = validate_axes-parts (project_canonical s) axes in
      let (in_phase, readable) = validate_phase-parts (project_canonical s) rest in
      record {
        current = current;
        named = named;
        legal = legal;
        projected = projected;
        uncancelled = uncancelled_lem s projected;
        in_phase = in_phase;
        readable = readable;
      }
