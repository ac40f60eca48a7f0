-- ===== src/State/Saved.antt =====
-- internal/core/state.go: what a write of the state file leaves for the next read and the next write.
use specd.Prelude.{
  ℕ, ◌^◌, ◌<◌, false, Option, none, some, ◌≡◌, refl, sym, ap, ◌∙◌, arith, Bool-cases, Option-cases,
  eqb, pos, same_int, inl, inr,
}
use specd.Phases.{Status, same_status, valid_status}
use specd.State.{State, project_canonical, project_stage, state_schema_version}
use specd.State.Governed.{validate, validate_projected}
use specd.State.Projection.{
  project_canonical-idempotent, project_stage-blocked, project_stage-adopted, project_stage-unknown,
}
use specd.State.Store.{
  Codec, loaded, saved, unsaved, conflict, next_revision, current_schema, unless_invalid, marshal,
  decode_state, accept, load_state, save_state, revision_conflict, save_state_cas,
}

-- The projection leaves what it does not derive.
pub project_stage-keeps :
    (s : State)
    → ((project_stage s).schema_version ≡ s.schema_version)
      × ((project_stage s).revision ≡ s.revision)
      × ((project_stage s).last_event_id ≡ s.last_event_id)
project_stage-keeps s = elim (Bool-cases (same_status s.status Status.blocked)) [
  | inl e ↦ rw (project_stage-blocked s e) (refl, refl, refl)
  | inr e ↦ elim (Bool-cases (valid_status s.status)) [
    | inl f ↦ rw (project_stage-adopted s e f) (refl, refl, refl)
    | inr f ↦ rw (project_stage-unknown s e f) (refl, refl, refl)
  ]
]

pub project_canonical-keeps :
    (s : State)
    → ((project_canonical s).schema_version ≡ s.schema_version)
      × ((project_canonical s).revision ≡ s.revision)
      × ((project_canonical s).last_event_id ≡ s.last_event_id)
unfolding project_canonical
project_canonical-keeps s = elim (Bool-cases (same_int s.cycle (pos 0))) [
  | inl e ↦ rw e (project_stage-keeps (record s { cycle = pos 1 }))
  | inr e ↦ rw e (project_stage-keeps s)
]

pub current_schema-same :
    (s : State) → s.schema_version ≡ state_schema_version → current_schema s ≡ s
current_schema-same s e = ap (λ v. record s { schema_version = v }) (sym e)

-- The state that a save puts on disk.
abbrev pub stored : State → State
stored s = project_canonical (current_schema s)

current_schema-stored : (s : State) → current_schema (stored s) ≡ stored s
current_schema-stored s =
    current_schema-same (stored s) ((project_canonical-keeps (current_schema s)).0)

found-differs :
    (expected r : ℕ) → expected < 2 ^ 64 → r ≡ next_revision expected → eqb r expected ≡ false
found-differs expected r lt e = ground arith

-- A stored state is read as it is.
again : (s : State) → project_canonical (current_schema (stored s)) ≡ stored s
again s = rw (current_schema-stored s) (project_canonical-idempotent (current_schema s))

module _ {ℓ} {B : Type ℓ} (c : Codec B) where
  pub save_state-parts :
      (s : State) (b : B)
      → save_state c s ≡ saved b
      → (validate c.decoders (current_schema s) ≡ none) × (b ≡ c.encode (stored s))
  unfolding save_state marshal
  save_state-parts s b h = elim (Option-cases (validate c.decoders (current_schema s))) [
    | inl e ↦ (e, cc (rw (e, save_state) at h))
    | inr (x, e) ↦ cc (rw (e, save_state) at h)
  ]

  pub validate-projected :
      (s : State) → validate c.decoders (project_canonical s) ≡ validate c.decoders s
  unfolding validate
  validate-projected s = ap (validate_projected c.decoders) (project_canonical-idempotent s)

  load_state-decoded :
      (b : B) (s : State)
      → decode_state c b ≡ loaded s
      → load_state c (some b) ≡ accept c (project_canonical (current_schema s))
  unfolding load_state
  load_state-decoded b s e = rw (e, load_state) refl

  -- A save writes the same for a state and its projection.
  pub save_state-projected :
      (s : State)
      → s.schema_version ≡ state_schema_version
      → save_state c (project_canonical s) ≡ save_state c s
  unfolding save_state marshal
  save_state-projected s e =
      ap (λ x. unless_invalid (validate c.decoders x) (c.encode (project_canonical x)))
        (current_schema-same (project_canonical s) ((project_canonical-keeps s).0 ∙ e))
      ∙ (λ i. unless_invalid (validate-projected s i) (c.encode (project_canonical-idempotent s i)))
      ∙ ap (λ x. unless_invalid (validate c.decoders x) (c.encode (project_canonical x)))
          (sym (current_schema-same s e))

  accept-valid : (s : State) → validate c.decoders s ≡ none → accept c s ≡ loaded s
  unfolding accept
  accept-valid s e = rw (e, accept) refl

  pub save_state_cas-parts :
      (file : Option B) (expected : ℕ) (s : State) (b : B)
      → save_state_cas c file expected s ≡ saved b
      → (revision_conflict c file expected ≡ none)
        × (save_state c (record s { revision = next_revision expected }) ≡ saved b)
  unfolding save_state_cas
  save_state_cas-parts file expected s b h =
      elim (Option-cases (revision_conflict c file expected)) [
        | inl e ↦ (e, rw (e, save_state_cas) at h)
        | inr (x, e) ↦ cc (rw (e, save_state_cas) at h)
      ]

  conflicting :
      (b : B) (found : State) (expected : ℕ)
      → load_state c (some b) ≡ loaded found
      → eqb found.revision expected ≡ false
      → revision_conflict c (some b) expected ≡ some (conflict expected (some found.revision))
  unfolding revision_conflict
  conflicting b found expected read e = rw (read, revision_conflict, e) refl

  -- A save is refused where the file holds another revision.
  refused_by :
      (b : B) (found : State) (expected : ℕ) (t : State)
      → load_state c (some b) ≡ loaded found
      → eqb found.revision expected ≡ false
      → save_state_cas c (some b) expected t ≡ unsaved (conflict expected (some found.revision))
  unfolding save_state_cas revision_conflict
  refused_by b found expected t read e =
      rw (conflicting b found expected read e, save_state_cas) refl

  module _ (round_trip : (s : State) → c.decode (c.encode s) ≡ some s) where
    decode_state-stored : (s : State) → decode_state c (c.encode (stored s)) ≡ loaded (stored s)
    unfolding decode_state
    decode_state-stored s =
        rw (round_trip (stored s), decode_state, (project_canonical-keeps (current_schema s)).0)
          refl

    -- A state that SaveState writes is the one that LoadState reads: the projection of the saved
    -- state, with the current schema.
    pub save_state-load :
        (s : State) (b : B) → save_state c s ≡ saved b → load_state c (some b) ≡ loaded (stored s)
    save_state-load s b h =
        let (v, e) = save_state-parts s b h in
        rw (e, load_state-decoded _ _ (decode_state-stored s), again s)
          (accept-valid (stored s) (validate-projected (current_schema s) ∙ v))

    -- After SaveStateCAS has succeeded for a revision below 2 ^ 64, the file holds the next revision:
    -- a second save that expects the first one is refused as a conflict, and leaves the file.
    pub save_state_cas-exclusive :
        (file : Option B) (expected : ℕ) (s t : State) (b : B)
        → expected < 2 ^ 64
        → save_state_cas c file expected s ≡ saved b
        → (load_state c (some b) ≡ loaded (stored (record s { revision = next_revision expected })))
          × (save_state_cas c (some b) expected t
              ≡ unsaved (conflict expected (some (next_revision expected))))
    save_state_cas-exclusive file expected s t b lt h =
        let (_, kept) = save_state_cas-parts file expected s b h in
        let read = save_state-load (record s { revision = next_revision expected }) b kept in
        let same =
          (project_canonical-keeps
            (current_schema (record s { revision = next_revision expected }))).1 in
        (
          read,
          rw (← same) (
              refused_by b (stored (record s { revision = next_revision expected })) expected t read
                (found-differs expected _ lt same)),
        )
