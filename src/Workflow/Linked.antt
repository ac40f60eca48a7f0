-- ===== src/Workflow/Linked.antt =====
-- internal/core/workflow_event.go: what a valid event says of its projection, and how that is saved.
use specd.Prelude.{
  ℕ, String, Bool, false, not, ◌||◌, Option, none, some, ◌==◌, any, eqb, eqb_iff, trim_space, ◌≡◌,
  ◌≢◌, refl, sym, ap, ◌∙◌, inl, inr, arith, Option-cases, guard_iff, not-false, eq_of_test, pos,
  same_int,
}
use specd.State.{State, project_canonical, state_schema_version}
use specd.State.Governed.{StateError, validate}
use specd.State.Valid.{validate-IsGoverned}
use specd.State.Saved.{
  project_canonical-keeps, current_schema-same, save_state-load, save_state-projected,
}
use specd.State.Store.{
  Saved, saved, loaded, load_state, next_revision, save_state, save_state_cas, unless_conflict,
  revision_conflict, SaveError,
}
use specd.Workflow.{
  WorkflowEventV1, WorkflowError, EventCodec, bad_input_of, event_error, event_fields,
  identity_error, valid_digest, validate_event, validate_identity, bad_projection,
}

none_of :
    {A : Type 0} (o : Option A) (wrap : A → WorkflowError)
    → elim o [ some x ↦ some (wrap x) | none ↦ none ] ≡ none
    → o ≡ none
none_of none wrap h = refl
none_of (some x) wrap h = cc

identity-projection :
    (e : WorkflowEventV1) (want : String) (invalid : Option StateError)
    → identity_error e want invalid ≡ none
    → invalid ≡ none
identity-projection e want invalid h = elim (Option-cases (bad_input_of e.input_digests)) [
  | inr (x, q) ↦ cc (rw (q, identity_error) at h)
  | inl q ↦
      let (_, a) =
        (guard_iff (not (valid_digest e.authority_digest)) _ _).0 (rw (q, identity_error) at h) in
      let (_, b) = (guard_iff (not (e.id == want)) _ _).0 a in
      none_of invalid (λ x. bad_projection x) b
]

-- What a valid event says of its projection.
pub record IsLinked (e : WorkflowEventV1) : Type 0 where
  pub named : e.id ≢ ""
  pub resulting : e.resulting_revision ≡ next_revision e.expected_revision
  pub revision : e.projection.revision ≡ e.resulting_revision
  pub checkpoint : e.projection.last_event_id ≡ e.id

blank_empty : (s : String) → (trim_space s == "") ≡ false → s ≢ ""
unfolding trim_space
blank_empty s h q = cc (rw q at h)

event-parts :
    (e : WorkflowEventV1) (later : Option WorkflowError)
    → event_error e e.projection.revision e.projection.last_event_id later ≡ none
    → IsLinked e × (later ≡ none)
event-parts e later h =
    let (_, ha) = (guard_iff (not (same_int e.schema_version (pos 1))) _ _).0 h in
    let (b, hb) = (guard_iff (any (λ v. trim_space v == "") (event_fields e)) _ _).0 ha in
    let (r, hc) =
      (guard_iff (not (eqb e.resulting_revision (next_revision e.expected_revision))) _ _).0 hb in
    let (_, hd) =
      (guard_iff (not (eqb e.after_entity_version (next_revision e.before_entity_version))) _ _).0
        hc in
    let (p, he) = (guard_iff (not (eqb e.projection.revision e.resulting_revision)) _ _).0 hd in
    let (l, hf) = (guard_iff (not (e.projection.last_event_id == e.id)) _ _).0 he in
    (
      record {
        named = blank_empty e.id (first_false _ _ b);
        resulting = (eqb_iff _ _).0 (not-false _ r);
        revision = (eqb_iff _ _).0 (not-false _ p);
        checkpoint = eq_of_test _ _ (not-false _ l);
      },
      hf,
    )
  where
    first_false : (a b : Bool) → (a || b) ≡ false → a ≡ false
    first_false a b h = ground arith

module _ {ℓ} {B : Type ℓ} (c : EventCodec B) where
  pub validate_event-parts :
      (e : WorkflowEventV1)
      → validate_event c e ≡ none
      → IsLinked e × (validate c.states.decoders e.projection ≡ none)
  unfolding validate_event validate_identity
  validate_event-parts e h =
      let (linked, later) = event-parts e _ h in (linked, identity-projection e _ _ later)

  -- A save of a valid projection saves it as it is, with or without the canonical fields.
  pub save-plain :
      (file : Option B) (r : ℕ) (p : State)
      → p.revision ≡ next_revision r
      → save_state_cas c.states file r p
        ≡ unless_conflict (revision_conflict c.states file r) (save_state c.states p)
  unfolding save_state_cas
  save-plain file r p e =
      ap
        (λ v.
          unless_conflict (revision_conflict c.states file r)
            (save_state c.states (record p { revision = v })))
        (sym e)

  pub current-projection :
      (p : State) → validate c.states.decoders p ≡ none → p.schema_version ≡ state_schema_version
  current-projection p h =
      sym ((project_canonical-keeps p).0) ∙ (validate-IsGoverned c.states.decoders p h).current

  pub save_cas-projected :
      (file : Option B) (r : ℕ) (p : State)
      → p.revision ≡ next_revision r
      → p.schema_version ≡ state_schema_version
      → save_state_cas c.states file r (project_canonical p) ≡ save_state_cas c.states file r p
  save_cas-projected file r p e k =
      save-plain file r (project_canonical p) ((project_canonical-keeps p).1 ∙ e)
      ∙ ap (unless_conflict (revision_conflict c.states file r)) (save_state-projected c.states p k)
      ∙ sym (save-plain file r p e)

  saved-plain :
      (o : Option SaveError) (x : Saved B) (raw : B)
      → unless_conflict o x ≡ saved raw
      → x ≡ saved raw
  saved-plain none x raw h = h
  saved-plain (some e) x raw h = cc

  -- What a saved projection reads as.
  pub read-saved :
      (round_trip : (s : State) → c.states.decode (c.states.encode s) ≡ some s)
      → (file : Option B) (r : ℕ) (p : State) (raw : B) → p.revision ≡ next_revision r
      → p.schema_version ≡ state_schema_version
      → save_state_cas c.states file r p ≡ saved raw
      → load_state c.states (some raw) ≡ loaded (project_canonical p)
  read-saved round_trip file r p raw e k h =
      save_state-load c.states round_trip p raw
        (saved-plain _ (save_state c.states p) raw (sym (save-plain file r p e) ∙ h))
      ∙ ap (λ x. loaded (project_canonical x)) (current_schema-same p k)
