-- ===== src/Frontier/Samples.antt =====
-- A small run of the frontier.
use specd.Prelude.{
  [], ◌∷◌, ◌≡◌, refl, none, some, ◌==◌, if◌then◌else◌, mem, remove, sort_strings, trim_space,
}
use specd.Task.{TaskRunStatus, status_from_marker}
use specd.Dag.{ok, new_task_dag}
use specd.Dag.Samples.{diamond_dag}
use specd.Frontier.{StatusMap, runnable_frontier}
use specd.Frontier.Workers.{frontier_excluding}

-- T1 is complete, and T3 is blocked.
abbrev pub started : StatusMap
started id =
    if id == "T1"
    then some TaskRunStatus.complete
    else if id == "T3"
    then some TaskRunStatus.blocked
    else none

program : Unit {0}
unfolding new_task_dag mem remove sort_strings runnable_frontier frontier_excluding
    status_from_marker trim_space
program = tt

pub runnable_frontier-started : runnable_frontier diamond_dag started ≡ ok ("T2" ∷ [])
unfolding program
runnable_frontier-started = refl
