-- ===== src/Dag/Tests.antt =====
-- internal/core/dag.go: the theorems at small graphs.
use specd.Prelude.{String, List, [], ◌≡◌, mem}
use specd.Dag.{TaskDag, ok, cycle_at, deps_of, ids, new_task_dag, topological_waves}
use specd.Dag.Build.{IsDag, new_task_dag-IsDag, new_task_dag-total}
use specd.Dag.Refusal.{IsRefusal, new_task_dag-IsRefusal}
use specd.Dag.Schedule.{IsSchedule, flat, topological_waves-IsSchedule}
use specd.Dag.Samples.{diamond, diamond_dag, looping, new_task_dag-diamond, new_task_dag-looping}

topological_waves-IsSchedule_example :
    (ws : List (List String)) × (topological_waves diamond_dag ≡ ok ws)
    × IsSchedule (deps_of diamond) [] ws
    × ((x : String) → mem x (flat ws) ≡ mem x (ids diamond))
topological_waves-IsSchedule_example =
    topological_waves-IsSchedule diamond diamond_dag new_task_dag-diamond

new_task_dag-IsDag_example :
    IsDag diamond
    × (diamond_dag.tasks ≡ diamond)
    × ((x : String) → deps_of diamond_dag.by_id x ≡ deps_of diamond x)
new_task_dag-IsDag_example = new_task_dag-IsDag diamond diamond_dag new_task_dag-diamond

diamond-IsDag : IsDag diamond
diamond-IsDag = (new_task_dag-IsDag diamond diamond_dag new_task_dag-diamond).0

new_task_dag-total_example : (dag : TaskDag) × (new_task_dag diamond ≡ ok dag)
new_task_dag-total_example = new_task_dag-total diamond diamond-IsDag

new_task_dag-IsRefusal_example : IsRefusal looping (cycle_at "T2")
new_task_dag-IsRefusal_example = new_task_dag-IsRefusal looping (cycle_at "T2") new_task_dag-looping
