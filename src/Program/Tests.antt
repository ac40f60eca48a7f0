-- ===== src/Program/Tests.antt =====
-- internal/core/program.go: the theorems at a program of one link.
use specd.Prelude.{String, Bool, true, false, [], ◌∷◌, ◌++◌, some, ◌==◌, ◌≡◌, ◌≢◌, refl, pos, ◌⊎◌}
use specd.Dag.Acyclic.{Walk}
use specd.Prelude.{mem, sort_strings}
use specd.Program.{LinkKind, Program, ProgramLink, linked, add_typed_link, deps, would_cycle}
use specd.Program.File.{program, empty_program, load_program, save_program}
use specd.Program.Links.{IsProgram, IsBuilt, empty, added, add_typed_link-bounded}
use specd.Program.Cycle.{IsAnswer, would_cycle-IsAnswer}
use specd.Program.Status.{add_feedback_link}
use specd.Program.Stored.{save_program-load}
use specd.Program.Feedback.{add_feedback_link-safe}

abbrev link : String → String → LinkKind → String → ProgramLink
link from to kind reason = record { from = from; to = to; kind = kind; reason = reason }

abbrev one_link : Program
one_link = record { schema_version = pos 1; links = link "b" "a" LinkKind.follows "" ∷ [] }

one_link-added : add_typed_link empty_program "b" "a" LinkKind.follows "" ≡ linked one_link
unfolding add_typed_link
one_link-added = refl

one_link-IsBuilt : IsBuilt one_link
one_link-IsBuilt = added empty_program one_link "b" "a" LinkKind.follows "" empty one_link-added

add_typed_link-bounded_example : IsProgram one_link.links
add_typed_link-bounded_example = add_typed_link-bounded one_link one_link-IsBuilt

save_program-load_example :
    load_program (λ p. p) (λ p. some p) (some (save_program (λ p. p) (λ p. some p) one_link))
    ≡ program (record one_link { schema_version = pos 1 })
save_program-load_example =
    save_program-load (λ p. p) (λ p. some p) (λ p. refl) one_link one_link-IsBuilt

would_cycle-IsAnswer_example : IsAnswer one_link "a" "b" (would_cycle one_link "a" "b")
would_cycle-IsAnswer_example = would_cycle-IsAnswer one_link "a" "b"

one_link-cycle : would_cycle one_link "a" "b" ≡ some ("a" ∷ "b" ∷ "a" ∷ [])
unfolding would_cycle mem sort_strings
one_link-cycle = refl

abbrev only_a : String → Bool
only_a slug = slug == "a"

abbrev two_links : Program
two_links = record one_link {
  links = link "b" "a" LinkKind.follows "" ∷ link "c" "a" LinkKind.maintains "r" ∷ [];
}

two_links-added : add_feedback_link one_link "c" "a" "r" only_a ≡ linked two_links
unfolding add_feedback_link mem sort_strings
two_links-added = refl

abbrev the_reason : String
the_reason = "r"

abbrev successor : String
successor = "c"

add_feedback_link-safe_example :
    (the_reason ≢ "")
    × (only_a "a" ≡ true)
    × (only_a "c" ≡ false)
    × ((successor ≢ "a") × ¬ Walk (deps one_link) "a" "c")
    × ((two_links ≡ one_link)
        ⊎ (two_links.links ≡ one_link.links ++ link "c" "a" LinkKind.maintains "r" ∷ []))
add_feedback_link-safe_example =
    add_feedback_link-safe one_link two_links "c" "a" "r" only_a two_links-added
