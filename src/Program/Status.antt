-- ===== src/Program/Status.antt =====
-- internal/core/program.go: which specs can be worked on, the status of the program, and feedback links.
use specd.Prelude.{
  String, Bool, true, false, not, List, [], ◌∷◌, map, Option, none, some, ◌==◌, keep, sort_strings,
  if◌then◌else◌,
}
use specd.Slug.{valid_slug}
use specd.State.{State, Mode}
use specd.Phases.{Status, Phase, same_status}
use specd.Program.{
  LinkKind, Program, Linked, refused, bad_successor, bad_feedback_source, reason_required,
  source_open, successor_complete, would_create_cycle, deps, would_cycle, add_typed_link,
}

unfoldable pub incomplete_deps : Program → String → (complete : String → Bool) → List String
unfolding deps
incomplete_deps p slug complete = keep (λ dep. not (complete dep)) (deps p slug)

abbrev is_nil : List String → Bool
is_nil [] = true
is_nil (x ∷ xs) = false

unfoldable pub frontier : Program → List String → (complete : String → Bool) → List String
unfolding incomplete_deps sort_strings
frontier p specs complete = sort_strings (
    keep (λ slug. is_nil (incomplete_deps p slug complete))
      (keep (λ slug. not (complete slug)) specs))

pub record ProgramDependencyStatus : Type 0 where
  pub spec_id : String
  pub complete : Bool

pub record ProgramSpecStatus : Type 0 where
  pub spec_id : String
  pub phase : Phase
  pub mode : Mode
  pub complete : Bool
  pub dependencies : List ProgramDependencyStatus

pub record ProgramStatus : Type 0 where
  pub specs : List ProgramSpecStatus
  pub frontier : List String

-- `loaded[slug]`: the last state of a slug.
unfoldable pub state_of : List State → String → Option State
state_of [] slug = none
state_of (s ∷ states) slug = elim (state_of states slug) [
  | some later ↦ some later
  | none ↦ if s.slug == slug then some s else none
]

unfoldable pub is_complete : List State → String → Bool
unfolding state_of
is_complete states slug = elim (state_of states slug) [
  | none ↦ false
  | some s ↦ same_status s.status Status.complete
]

abbrev slugs_of : List State → List String
slugs_of [] = []
slugs_of (s ∷ states) = s.slug ∷ slugs_of states

-- The row of a slug, whose state is the zero value where it is missing.
abbrev spec_status : Program → List State → String → ProgramSpecStatus
spec_status p states slug = record {
  spec_id = slug;
  phase = elim (state_of states slug) [ none ↦ Phase.unset | some s ↦ s.phase ];
  mode = elim (state_of states slug) [ none ↦ Mode.other "" | some s ↦ s.mode ];
  complete = is_complete states slug;
  dependencies =
      map (λ dep. record { spec_id = dep; complete = is_complete states dep }) (deps p slug);
}

unfoldable pub build_program_status : Program → List State → ProgramStatus
unfolding frontier is_complete deps sort_strings
build_program_status p states = record {
  specs = map (spec_status p states) (sort_strings (slugs_of states));
  frontier = frontier p (sort_strings (slugs_of states)) (is_complete states);
}

-- AddFeedbackLink with a predicate: Go's nil function is not a value here. The last case of the cycle
-- search is the one that is proved not to happen.
unfoldable pub add_feedback_link :
    Program → (successor source reason : String) → (complete : String → Bool) → Linked
unfolding valid_slug would_cycle add_typed_link
add_feedback_link p successor source reason complete =
    if not (valid_slug successor)
    then refused (bad_successor successor)
    else if not (valid_slug source)
    then refused (bad_feedback_source source)
    else if reason == ""
    then refused reason_required
    else if not (complete source)
    then refused source_open
    else if complete successor
    then refused successor_complete
    else elim (would_cycle p successor source) [
      | none ↦ refused (would_create_cycle [])
      | some [] ↦ add_typed_link p successor source LinkKind.maintains reason
      | some (x ∷ path) ↦ refused (would_create_cycle (x ∷ path))
    ]
