-- ===== src/State/Store.antt =====
-- internal/core/state.go: the state file. The bytes of the file are a type of their own, on which
-- `encode` is `json.MarshalIndent` of the fields and `decode` the strict decoder; reads, and writes
-- that replace the file whole, do not fail. `none` is a file that does not exist.
use specd.Prelude.{
  ℕ, ◌+◌, ◌%◌, ◌^◌, not, ◌||◌, Option, none, some, eqb, if◌then◌else◌, ℤ, pos, less_int,
}
use specd.State.{State, project_canonical, state_schema_version}
use specd.State.Records.{Decoders}
use specd.State.Governed.{StateError, validate}

pub data LoadError : Type 0 where
  not_exist undecodable : LoadError
  unsupported : ℤ → LoadError
  invalid : StateError → LoadError

pub data Loaded : Type 0 where
  loaded : State → Loaded
  unread : LoadError → Loaded

pub data SaveError : Type 0 where
  rejected : StateError → SaveError
  -- The error of the read before the write.
  unreadable : LoadError → SaveError
  conflict : (expected : ℕ) → (found : Option ℕ) → SaveError

-- The file after a save, or the error with the file as it was.
pub data Saved {ℓ} (B : Type ℓ) : Type ℓ where
  saved : B → Saved B
  unsaved : SaveError → Saved B

abbrev pub unless_conflict {ℓ} : {B : Type ℓ} → Option SaveError → Saved B → Saved B
unless_conflict (some e) rest = unsaved e
unless_conflict none rest = rest

abbrev pub unless_invalid {ℓ} : {B : Type ℓ} → Option StateError → B → Saved B
unless_invalid (some e) raw = unsaved (rejected e)
unless_invalid none raw = saved raw

-- `r + 1` on the bit pattern of an `int64`.
abbrev pub next_revision : ℕ → ℕ
next_revision r = (r + 1) % 2 ^ 64

abbrev pub current_schema : State → State
current_schema s = record s { schema_version = state_schema_version }

-- The encoding of states and of the records in them.
pub record Codec {ℓ} (B : Type ℓ) : Type ℓ where
  pub encode : State → B
  pub decode : B → Option State
  pub decoders : Decoders

module _ {ℓ} {B : Type ℓ} (c : Codec B) where
  -- MarshalJSON.
  unfoldable pub marshal : State → B
  unfolding project_canonical
  marshal s = c.encode (project_canonical s)

  unfoldable pub decode_state : B → Loaded
  decode_state raw = elim (c.decode raw) [
    | none ↦ unread undecodable
    | some s ↦
        if less_int (pos 2) s.schema_version || less_int s.schema_version (pos 1)
        then unread (unsupported s.schema_version)
        else loaded s
  ]

  -- What LoadState makes of a decoded state.
  unfoldable pub accept : State → Loaded
  unfolding validate project_canonical
  accept s = elim (validate c.decoders s) [ some e ↦ unread (invalid e) | none ↦ loaded s ]

  unfoldable pub load_state : Option B → Loaded
  unfolding decode_state accept
  load_state none = unread not_exist
  load_state (some raw) = elim (decode_state raw) [
    | unread e ↦ unread e
    | loaded s ↦ accept (project_canonical (current_schema s))
  ]

  unfoldable pub save_state : State → Saved B
  unfolding marshal validate
  save_state s =
      unless_invalid (validate c.decoders (current_schema s)) (marshal (current_schema s))

  -- The test of the revision on disk: `none` lets the save go on.
  unfoldable pub revision_conflict : Option B → (expected : ℕ) → Option SaveError
  unfolding load_state
  revision_conflict file expected = elim (load_state file) [
    | unread not_exist ↦ if not (eqb expected 0) then some (conflict expected none) else none
    | unread e ↦ some (unreadable e)
    | loaded s ↦
        if not (eqb s.revision expected) then some (conflict expected (some s.revision)) else none
  ]

  unfoldable pub save_state_cas : Option B → (expected : ℕ) → State → Saved B
  unfolding revision_conflict save_state
  save_state_cas file expected s =
      unless_conflict (revision_conflict file expected)
        (save_state (record s { revision = next_revision expected }))
