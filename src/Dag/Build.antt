-- ===== src/Dag/Build.antt =====
-- internal/core/dag.go, NewTaskDAG: the graphs that it accepts.
use specd.Prelude.{
  suc, String, true, List, [], ◌≡◌, refl, arith, Bool-cases, mem, length, inl, inr, ◌∙◌, ap,
}
use mathlib.Core.Path.{fun_ext}
use specd.Task.{TaskRow}
use specd.Dag.{
  Result, ok, err, DagError, cycle_at, Marks, TaskDag, deps_of, ids, index_tasks, check_tasks,
  visit, detect_cycle, new_task_dag, >>=-ok, Result-cases, ◌>>◌,
}
use specd.Dag.Search.{Within, IsTopo, visit_all-Grows, visit-Grows}
use specd.Dag.Acyclic.{Walk, Walk-starts, IsTopo-acyclic, visit_all-Honest, visit-Honest}
use specd.Dag.Fuel.{room-le-length, visit_all-Ends, visit-Ends}
use specd.Dag.Index.{
  IsKeyed, IsClosed, Apart-nil, index_tasks-IsKeyed, index_tasks-total, deps_of_absent,
  index_tasks-deps_of, check_tasks-IsClosed, check_tasks-total, IsClosed-deps, length-ids,
}

-- What a task graph promises: keyed rows, known dependencies, and no task that waits for itself.
pub record IsDag (tasks : List TaskRow) : Type 0 where
  pub keyed : IsKeyed tasks
  pub closed : IsClosed tasks tasks
  pub acyclic : (x : String) → ¬ Walk (deps_of tasks) x x

Walk-mem : (ts : List TaskRow) {x y : String} → Walk (deps_of ts) x y → mem x (ids ts) ≡ true
Walk-mem ts {x} w = elim (Bool-cases (mem x (ids ts))) [
  | inl e ↦ e
  | inr e ↦ absurd (Walk-starts (deps_of ts) w (deps_of_absent ts x e))
]

-- The parts of an accepted graph.
record Built (tasks : List TaskRow) (dag : TaskDag) : Type 0 where
  index : index_tasks tasks [] ≡ ok dag.by_id
  checked : check_tasks (ids dag.by_id) tasks ≡ ok tt
  marks : Marks
  searched : detect_cycle (record { tasks = tasks; by_id = dag.by_id }) ≡ ok marks
  same : dag.tasks ≡ tasks

new_task_dag-Built :
    (tasks : List TaskRow) (dag : TaskDag) → new_task_dag tasks ≡ ok dag → Built tasks dag
unfolding new_task_dag
new_task_dag-Built tasks dag h =
    let (r, index, h1) = >>=-ok (index_tasks tasks []) (λ by_id. build by_id) h in
    let (_, checked, h2) = >>=-ok (check_tasks (ids r) tasks) (λ _. search r) h1 in
    let (m, searched, ends) =
      >>=-ok (detect_cycle (record { tasks = tasks; by_id = r })) (λ _. ok (graph r)) h2 in
    let e : graph r ≡ dag = cc in
    rw (← e)
      (record { index = index; checked = checked; marks = m; searched = searched; same = refl })
  where
    graph : List TaskRow → TaskDag
    graph r = record { tasks = tasks; by_id = r }

    search : List TaskRow → Result TaskDag
    search r = detect_cycle (graph r) >> ok (graph r)

    build : List TaskRow → Result TaskDag
    build r = check_tasks (ids r) tasks >> search r

module _ (tasks : List TaskRow) (r : List TaskRow) (index : index_tasks tasks [] ≡ ok r) where
  index-deps : deps_of r ≡ deps_of tasks
  unfolding deps_of
  index-deps =
      fun_ext λ x. ground (arith, index_tasks-deps_of tasks [] r x index, deps_of_absent tasks x)

  pub index-mem : (x : String) → mem x (ids r) ≡ mem x (ids tasks)
  unfolding mem
  index-mem x = ground (arith, index_tasks-deps_of tasks [] r x index)

  -- A search that succeeds has visited every task, in an order of the graph.
  detect_cycle-acyclic :
      (m : Marks)
      → detect_cycle (record { tasks = tasks; by_id = r }) ≡ ok m
      → IsTopo (deps_of tasks) m.visited × Within (ids tasks) m.visited
  unfolding detect_cycle
  detect_cycle-acyclic m h =
      let (g, all_seen) =
        visit_all-Grows (deps_of r) (visit r (suc (length tasks))) (ids tasks)
          (record { visiting = []; visited = [] }) m (visit-Grows r (suc (length tasks))) h in
      (rw index-deps at (g.topo tt), all_seen)

  pub detect_cycle-cycle :
      (e : DagError)
      → IsClosed tasks tasks
      → detect_cycle (record { tasks = tasks; by_id = r }) ≡ err e
      → (c : String) × (e ≡ cycle_at c) × Walk (deps_of tasks) c c
  unfolding detect_cycle
  detect_cycle-cycle e closed h =
      let start : Marks = record { visiting = []; visited = [] } in
      let run = visit r (suc (length tasks)) in
      let grows = visit-Grows r (suc (length tasks)) in
      let known : (x : String) → Within (deps_of r x) (ids tasks) =
        rw index-deps (λ x. IsClosed-deps tasks tasks x closed) in
      elim (visit_all-Honest (deps_of r) run (ids tasks) start e grows
        (visit-Honest r (suc (length tasks))) tt (λ d md. tt) h) [
          | inl dry ↦ absurd (
              visit_all-Ends (ids tasks) (deps_of r) run (ids tasks) start grows
                (λ m d same kd.
                  visit-Ends (ids tasks) r known (suc (length tasks)) m d kd
                    (rw same (omega (arith, room-le-length (ids tasks) [], length-ids tasks))))
                (λ z mz. mz) (h ∙ ap err dry))
          | inr (c, ec, walk) ↦ (c, ec, rw index-deps at walk)
        ]

-- NewTaskDAG accepts only task graphs, and its ByID answers with each task's own row.
pub new_task_dag-IsDag :
    (tasks : List TaskRow) (dag : TaskDag)
    → new_task_dag tasks ≡ ok dag
    → IsDag tasks × (dag.tasks ≡ tasks) × ((x : String) → deps_of dag.by_id x ≡ deps_of tasks x)
new_task_dag-IsDag tasks dag h =
    let b = new_task_dag-Built tasks dag h in
    let keyed = (index_tasks-IsKeyed tasks [] dag.by_id b.index).0 in
    let names : Within (ids dag.by_id) (ids tasks) =
      λ x m. rw (index-mem tasks dag.by_id b.index x) at m in
    let closed = check_tasks-IsClosed tasks (ids dag.by_id) tasks names b.checked in
    let (topo, seen) = detect_cycle-acyclic tasks dag.by_id b.index b.marks b.searched in
    (
      record {
        keyed = keyed;
        closed = closed;
        acyclic = λ x w.
            IsTopo-acyclic (deps_of tasks) b.marks.visited topo (seen x (Walk-mem tasks w)) w;
      },
      b.same,
      λ x i. index-deps tasks dag.by_id b.index i x,
    )

-- ByID has the ids of the tasks.
pub new_task_dag-by_id :
    (tasks : List TaskRow) (dag : TaskDag) (x : String)
    → new_task_dag tasks ≡ ok dag
    → mem x (ids dag.by_id) ≡ mem x (ids tasks)
new_task_dag-by_id tasks dag x h =
    index-mem tasks dag.by_id (new_task_dag-Built tasks dag h).index x

-- An accepted graph has an order in which each task stands before its dependencies.
pub new_task_dag-IsTopo :
    (tasks : List TaskRow) (dag : TaskDag)
    → new_task_dag tasks ≡ ok dag
    → (order : List String) × IsTopo (deps_of tasks) order × Within (ids tasks) order
new_task_dag-IsTopo tasks dag h =
    let b = new_task_dag-Built tasks dag h in
    let (topo, seen) = detect_cycle-acyclic tasks dag.by_id b.index b.marks b.searched in
    (b.marks.visited, topo, seen)

-- NewTaskDAG accepts every task graph: the search neither runs out of fuel nor reports a cycle.
pub new_task_dag-total :
    (tasks : List TaskRow) → IsDag tasks → (dag : TaskDag) × (new_task_dag tasks ≡ ok dag)
unfolding new_task_dag
new_task_dag-total tasks d =
    let (r, index) = index_tasks-total tasks [] d.keyed (Apart-nil tasks) in
    let names : Within (ids tasks) (ids r) = λ x m. rw (index-mem tasks r index x) m in
    let checked = check_tasks-total tasks (ids r) tasks names d.closed in
    let graph : TaskDag = record { tasks = tasks; by_id = r } in
    elim (Result-cases (detect_cycle graph)) [
      | inl (m, e) ↦ (graph, rw (index, checked, e))
      | inr (e, h) ↦
          let (c, _, walk) = detect_cycle-cycle tasks r index e d.closed h in
          absurd (d.acyclic c walk)
    ]
