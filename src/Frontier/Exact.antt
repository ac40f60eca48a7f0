-- ===== src/Frontier/Exact.antt =====
-- internal/core/dag.go, RunnableFrontier, and internal/core/frontier.go, FrontierExcluding: which tasks
-- they name.
use specd.Prelude.{
  String, true, false, List, [], ◌∷◌, ◌≡◌, refl, inl, inr, ◌↔◌, keep, mem, arith, Bool-cases, map,
  sort_strings, mem-sort_strings, IsSorted, sort_strings-IsSorted, ◌∙◌,
}
use specd.Task.{TaskRow, TaskActivity}
use specd.Dag.{TaskDag, ok, ids, deps_of, new_task_dag}
use specd.Dag.Search.{mem-cons, mem_self, mem_tail}
use specd.Dag.Acyclic.{not-mem-nil}
use specd.Dag.Index.{IsKeyed}
use specd.Dag.Build.{new_task_dag-IsDag}
use specd.Dag.Waves.{deps_of_head, deps_of_tail}
use specd.Frontier.{
  StatusMap, FactMap, TaskState, no_facts, runnable, project_state, activity_map,
  project_task_states, state_ids, runnable_frontier,
}
use specd.Frontier.Ready.{IsSettled, runnable-IsSettled, settled-runnable}

abbrev states_of : List TaskRow → (activity : String → TaskActivity) → FactMap → List TaskState
states_of ts activity facts = map (λ t. project_state t activity facts) ts

state_ids-states_of :
    (ts : List TaskRow) (activity : String → TaskActivity) (facts : FactMap)
    → state_ids (states_of ts activity facts) ≡ ids ts
unfolding project_state
state_ids-states_of [] activity facts = refl
state_ids-states_of (t ∷ ts) activity facts = rw (state_ids-states_of ts activity facts)

id-project_state :
    (t : TaskRow) (activity : String → TaskActivity) (facts : FactMap)
    → (project_state t activity facts).id ≡ t.id
unfolding project_state
id-project_state t activity facts = refl

module _ (activity : String → TaskActivity) (facts : FactMap) where
  -- A task that may start: pending, with every dependency settled.
  abbrev pub MayRun : List TaskRow → String → Type 0
  MayRun ts x =
      (mem x (ids ts) ≡ true)
      × (activity x ≡ TaskActivity.pending)
      × ((d : String) → mem d (deps_of ts x) ≡ true → IsSettled activity facts d)

  abbrev runnable_ids : List TaskRow → List String
  runnable_ids ts = state_ids (keep runnable (states_of ts activity facts))

  MayRun-tail :
      (t : TaskRow) (ts : List TaskRow) (x : String)
      → mem t.id (ids ts) ≡ false
      → MayRun ts x
      → MayRun (t ∷ ts) x
  MayRun-tail t ts x absent (known, pending, settled) =
      (mem_tail x t.id (ids ts) known, pending, rw (deps_of_tail t ts x absent known) settled)

  pub runnable_ids-MayRun :
      (ts : List TaskRow) (x : String) → IsKeyed ts → mem x (runnable_ids ts) ≡ true → MayRun ts x
  runnable_ids-MayRun [] x k m = absurd (not-mem-nil x m)
  runnable_ids-MayRun (t ∷ ts) x k m =
      elim (Bool-cases (runnable (project_state t activity facts))) [
        | inl e ↦
            elim (mem-cons x (project_state t activity facts).id (runnable_ids ts) (rw e at m)) [
              | inl here ↦
                  let same = here ∙ id-project_state t activity facts in
                  let (pending, settled) = runnable-IsSettled t activity facts e in
                  (
                    rw same (mem_self t.id (ids ts)),
                    rw same pending,
                    rw (deps_of_head t ts x same) settled,
                  )
              | inr later ↦ MayRun-tail t ts x k.1 (runnable_ids-MayRun ts x k.2 later)
            ]
        | inr e ↦ MayRun-tail t ts x k.1 (runnable_ids-MayRun ts x k.2 (rw e at m))
      ]

  pub MayRun-runnable_ids :
      (ts : List TaskRow) (x : String)
      → IsKeyed ts
      → ((id : String) → (facts id).waits ≡ [])
      → MayRun ts x
      → mem x (runnable_ids ts) ≡ true
  MayRun-runnable_ids [] x k free (known, pending, settled) = absurd (not-mem-nil x known)
  MayRun-runnable_ids (t ∷ ts) x k free (known, pending, settled) =
      elim (mem-cons x t.id (ids ts) known) [
        | inl e ↦
            let starts =
              settled-runnable t activity facts (free t.id) (rw (← e) pending)
                (rw (deps_of_head t ts x e) at settled) in
            rw (starts, id-project_state t activity facts, e) (mem_self t.id (runnable_ids ts))
        | inr m ↦
            let rest =
              MayRun-runnable_ids ts x k.2 free
                (m, pending, rw (deps_of_tail t ts x k.1 m) at settled) in
            elim (Bool-cases (runnable (project_state t activity facts))) [
              | inl e ↦ rw e (mem_tail x (project_state t activity facts).id (runnable_ids ts) rest)
              | inr e ↦ rw e rest
            ]
      ]

module _ (tasks : List TaskRow) (status : StatusMap) (dag : TaskDag)
    (h : new_task_dag tasks ≡ ok dag) where
  project_task_states-eq :
      (facts : FactMap)
      → project_task_states dag.tasks status facts
        ≡ ok (states_of tasks (activity_map tasks status facts) facts)
  unfolding project_task_states
  project_task_states-eq facts =
      let same = (new_task_dag-IsDag tasks dag h).1 in rw same (rw h (rw same))

  pub runnable_frontier-eq :
      runnable_frontier dag status
      ≡ ok (sort_strings (runnable_ids (activity_map tasks status no_facts) no_facts tasks))
  unfolding runnable_frontier
  runnable_frontier-eq = rw (project_task_states-eq no_facts)

completed_of_settled :
    (activity : String → TaskActivity) (d : String)
    → IsSettled activity no_facts d
    → activity d ≡ TaskActivity.completed
completed_of_settled activity d h = ground arith

-- On an accepted graph the frontier is there, is sorted, and holds exactly the pending tasks whose
-- dependencies are all completed.
pub runnable_frontier-exact :
    (tasks : List TaskRow) (status : StatusMap) (dag : TaskDag)
    → new_task_dag tasks ≡ ok dag
    → (names : List String) × (runnable_frontier dag status ≡ ok names)
      × IsSorted names
      × ((x : String)
          → (mem x names ≡ true) ↔ (
              (mem x (ids tasks) ≡ true)
              × (activity_map tasks status no_facts x ≡ TaskActivity.pending)
              × ((d : String)
                  → mem d (deps_of tasks x) ≡ true
                  → activity_map tasks status no_facts d ≡ TaskActivity.completed)))
runnable_frontier-exact tasks status dag h =
    let activity = activity_map tasks status no_facts in
    let keyed = (new_task_dag-IsDag tasks dag h).0.keyed in
    let names = runnable_ids activity no_facts tasks in
    (
      sort_strings names,
      runnable_frontier-eq tasks status dag h,
      sort_strings-IsSorted names,
      λ x. (
        λ m.
            let (known, pending, settled) =
              runnable_ids-MayRun activity no_facts tasks x keyed (rw mem-sort_strings at m) in
            (known, pending, λ d md. completed_of_settled activity d (settled d md)),
        λ (known, pending, done). rw mem-sort_strings (
            MayRun-runnable_ids activity no_facts tasks x keyed (λ _. refl)
              (known, pending, λ d md. inl (done d md))),
      ),
    )
