-- ===== src/Frontier/Workers.antt =====
-- internal/core/frontier.go: the tasks of the frontier as a worker receives them, and the waves.
use Prim.Native.String.{◌++◌ as join}
use specd.Prelude.{
  ℕ, ◌+◌, String, Bool, true, false, not, ◌&&◌, ◌||◌, List, [], ◌∷◌, none, some, ◌==◌,
  if◌then◌else◌, mem, trim_space,
}
use specd.Task.{TaskRow, no_row, TaskRunStatus}
use specd.Dag.{TaskDag, Result, ok, ◌>>=◌, row_of, new_task_dag, topological_waves}
use specd.Frontier.{StatusMap, status_at, runnable_frontier}

pub record FrontierTask : Type 0 where
  pub id : String
  pub role : String
  pub verify : String
  pub terminal : TaskRunStatus
  pub worker : String
  pub continues : Bool

unfoldable pub host_chooses_worker : String → Bool
host_chooses_worker worker = let w = trim_space worker in w == "" || w == "-"

unfoldable pub worker_disposition : FrontierTask → String
unfolding host_chooses_worker
worker_disposition t =
    if host_chooses_worker t.worker
    then "host-chooses"
    else if t.continues
    then join "worker=" (join t.worker " (continues)")
    else join "worker=" (join t.worker " (fresh)")

abbrev pub carries : TaskRunStatus → Bool
carries TaskRunStatus.running = true
carries TaskRunStatus.complete = true
carries _ = false

unfoldable pub active_workers : List TaskRow → StatusMap → List String
unfolding host_chooses_worker
active_workers [] status = []
active_workers (t ∷ ts) status =
    let rest = active_workers ts status in
    if host_chooses_worker t.worker
    then rest
    else if carries (status_at status t.id)
    then trim_space t.worker ∷ rest
    else rest

unfoldable pub plan_workers : List TaskRow → List String
unfolding host_chooses_worker
plan_workers [] = []
plan_workers (t ∷ ts) =
    let rest = plan_workers ts in
    if host_chooses_worker t.worker then rest else trim_space t.worker ∷ rest

-- `dag.ByID[id]`.
abbrev pub row_or_zero : List TaskRow → String → TaskRow
row_or_zero rows id = elim (row_of rows id) [ none ↦ no_row | some task ↦ task ]

-- One task of the result.
unfoldable pub frontier_task : TaskRow → StatusMap → (active : List String) → FrontierTask
unfolding host_chooses_worker
frontier_task task status active =
    let worker = trim_space task.worker in
    record {
      id = task.id;
      role = task.role;
      verify = task.verify;
      terminal = status_at status task.id;
      worker = worker;
      continues = not (host_chooses_worker worker) && mem worker active;
    }

unfoldable pub collect :
    TaskDag
    → StatusMap
    → (active : List String) → (escalated : List String) → List String
    → List FrontierTask
unfolding frontier_task row_of
collect dag status active escalated [] = []
collect dag status active escalated (id ∷ rest) =
    let others = collect dag status active escalated rest in
    if mem id escalated
    then others
    else frontier_task (row_or_zero dag.by_id id) status active ∷ others

unfoldable pub frontier_excluding :
    List TaskRow → StatusMap → (escalated : List String) → Result (List FrontierTask)
unfolding runnable_frontier active_workers collect
frontier_excluding tasks status escalated = do
  dag ← new_task_dag tasks
  names ← runnable_frontier dag status
  ok (collect dag status (active_workers dag.tasks status) escalated names)

unfoldable pub frontier : List TaskRow → StatusMap → Result (List FrontierTask)
unfolding frontier_excluding
frontier tasks status = frontier_excluding tasks status []

pub record Wave : Type 0 where
  pub index : ℕ
  pub tasks : List String

abbrev pub number_from : ℕ → List (List String) → List Wave
number_from i [] = []
number_from i (g ∷ gs) = record { index = i + 1; tasks = g } ∷ number_from (i + 1) gs

unfoldable pub project_waves : List TaskRow → Result (List Wave)
project_waves tasks = do
  dag ← new_task_dag tasks
  groups ← topological_waves dag
  ok (number_from 0 groups)
