-- ===== src/State/Tests.antt =====
-- internal/core/state.go: the theorems at the state of a new spec, with an encoding that keeps states.
use specd.Prelude.{sort_strings, none, some, ◌≡◌, refl, arith}
use specd.State.{State, initial_state, project_canonical}
use specd.State.Records.{Decoders}
use specd.State.Governed.{validate}
use specd.State.Valid.{IsGoverned, validate-IsGoverned}
use specd.State.Store.{
  Codec, loaded, saved, unsaved, conflict, next_revision, load_state, save_state, save_state_cas,
}
use specd.State.Saved.{stored, save_state-load, save_state_cas-exclusive}

abbrev no_decoders : Decoders
no_decoders = record {
  decode_amendment = λ raw. none;
  decode_spike = λ raw. none;
  decode_approval = λ raw. none;
  parse_time = λ text. none;
}

abbrev plain : Codec State
plain = record { encode = λ s. s; decode = λ s. some s; decoders = no_decoders }

abbrev demo : State
demo = initial_state "demo"

program : Unit {0}
unfolding initial_state validate save_state save_state_cas sort_strings
program = tt

demo-valid : validate no_decoders demo ≡ none
unfolding program
demo-valid = refl

validate-IsGoverned_example : IsGoverned no_decoders (project_canonical demo)
validate-IsGoverned_example = validate-IsGoverned no_decoders demo demo-valid

demo-saved : save_state plain demo ≡ saved (stored demo)
unfolding program
demo-saved = refl

save_state-load_example : load_state plain (some (stored demo)) ≡ loaded (stored demo)
save_state-load_example = save_state-load plain (λ s. refl) demo (stored demo) demo-saved

abbrev first : State
first = record demo { revision = next_revision 0 }

demo-swapped : save_state_cas plain none 0 demo ≡ saved (stored first)
unfolding program
demo-swapped = refl

save_state_cas-exclusive_example :
    (load_state plain (some (stored first)) ≡ loaded (stored first))
    × (save_state_cas plain (some (stored first)) 0 demo
        ≡ unsaved (conflict 0 (some (next_revision 0))))
save_state_cas-exclusive_example =
    save_state_cas-exclusive plain (λ s. refl) none 0 demo demo (stored first) (omega arith)
      demo-swapped
