-- ===== src/Frontier/Tests.antt =====
-- internal/core/frontier.go: the theorems at a small graph.
use specd.Prelude.{
  String, true, not, List, [], ◌∷◌, ◌≡◌, ◌≢◌, refl, ◌↔◌, ◌⊎◌, inl, inr, none, IsSorted, mem, keep,
  trim_space,
}
use specd.Task.{TaskRow, TaskActivity, status_from_marker}
use specd.Dag.{ok, deps_of, ids}
use specd.Dag.Search.{mem-cons}
use specd.Dag.Acyclic.{not-mem-nil}
use specd.Dag.Samples.{row, diamond, diamond_dag, new_task_dag-diamond}
use specd.Frontier.{StatusMap, no_facts, activity_map, runnable, project_state, runnable_frontier}
use specd.Frontier.Workers.{FrontierTask, frontier_excluding}
use specd.Frontier.Samples.{started}
use specd.Frontier.Ready.{IsSettled, runnable-IsSettled}
use specd.Frontier.Exact.{runnable_frontier-exact}
use specd.Frontier.Progress.{runnable_frontier-progress, frontier_excluding-exact, frontier_ids}

abbrev under_way : String → TaskActivity
under_way = activity_map diamond started no_facts

abbrev second : TaskRow
second = row "T2" ("T1" ∷ [])

second-runnable : runnable (project_state second under_way no_facts) ≡ true
unfolding runnable project_state activity_map status_from_marker trim_space
second-runnable = refl

runnable-IsSettled_example :
    (under_way "T2" ≡ TaskActivity.pending)
    × ((d : String) → mem d ("T1" ∷ []) ≡ true → IsSettled under_way no_facts d)
runnable-IsSettled_example = runnable-IsSettled second under_way no_facts second-runnable

runnable_frontier-exact_example :
    (names : List String) × (runnable_frontier diamond_dag started ≡ ok names)
    × IsSorted names
    × ((x : String)
        → (mem x names ≡ true) ↔ (
            (mem x (ids diamond) ≡ true)
            × (activity_map diamond started no_facts x ≡ TaskActivity.pending)
            × ((d : String)
                → mem d (deps_of diamond x) ≡ true
                → activity_map diamond started no_facts d ≡ TaskActivity.completed)))
runnable_frontier-exact_example =
    runnable_frontier-exact diamond started diamond_dag new_task_dag-diamond

-- Nothing is recorded yet, so every task is pending.
abbrev fresh : StatusMap
fresh id = none

fresh-pending :
    (x : String)
    → mem x (ids diamond) ≡ true
    → activity_map diamond fresh no_facts x ≡ TaskActivity.pending
unfolding activity_map status_from_marker trim_space
fresh-pending x m = elim (mem-cons x "T4" ("T3" ∷ "T2" ∷ "T1" ∷ []) m) [
  | inl e ↦ rw e refl
  | inr m ↦ elim (mem-cons x "T3" ("T2" ∷ "T1" ∷ []) m) [
    | inl e ↦ rw e refl
    | inr m ↦ elim (mem-cons x "T2" ("T1" ∷ []) m) [
      | inl e ↦ rw e refl
      | inr m ↦ elim (mem-cons x "T1" [] m) [ inl e ↦ rw e refl | inr m ↦ absurd (not-mem-nil x m) ]
    ]
  ]
]

fresh-either :
    (x : String)
    → mem x (ids diamond) ≡ true
    → (activity_map diamond fresh no_facts x ≡ TaskActivity.pending)
      ⊎ (activity_map diamond fresh no_facts x ≡ TaskActivity.completed)
fresh-either x m = inl (fresh-pending x m)

fourth-known : mem "T4" (ids diamond) ≡ true
unfolding mem
fourth-known = refl

runnable_frontier-progress_example :
    (names : List String) × (runnable_frontier diamond_dag fresh ≡ ok names) × (names ≢ [])
runnable_frontier-progress_example =
    runnable_frontier-progress diamond fresh diamond_dag "T4" new_task_dag-diamond fresh-either
      fourth-known (fresh-pending "T4" fourth-known)

frontier_excluding-exact_example :
    (names : List String) × (out : List FrontierTask) × (runnable_frontier diamond_dag started
      ≡ ok names)
    × (frontier_excluding diamond started ("T2" ∷ []) ≡ ok out)
    × (frontier_ids out ≡ keep (λ x. not (mem x ("T2" ∷ []))) names)
frontier_excluding-exact_example =
    frontier_excluding-exact diamond started ("T2" ∷ []) diamond_dag new_task_dag-diamond
