-- ===== src/Frontier/Progress.antt =====
-- internal/core/frontier.go: a spec whose tasks are all pending or completed is never stuck, and the
-- escalation filter of FrontierExcluding removes exactly the escalated tasks.
use specd.Prelude.{
  String, Bool, true, not, ◌&&◌, List, [], ◌∷◌, ◌≡◌, refl, ◌≢◌, ◌⊎◌, inl, inr, keep, mem, arith,
  Bool-cases, &&-parts, String-cases, sym, ap,
}
use specd.Task.{TaskRow, TaskActivity}
use specd.Dag.{TaskDag, ok, ids, deps_of, row_of, new_task_dag}
use specd.Dag.Search.{mem-cons, mem_self, mem_tail}
use specd.Dag.Acyclic.{not-mem-nil}
use specd.Dag.Index.{IsClosed-deps}
use specd.Dag.Build.{new_task_dag-IsDag, new_task_dag-IsTopo, new_task_dag-by_id}
use specd.Dag.Schedule.{first_ready}
use specd.Frontier.{StatusMap, no_facts, is_pending, activity_map, runnable_frontier}
use specd.Frontier.Workers.{frontier_excluding, collect, row_or_zero, active_workers, FrontierTask}
use specd.Frontier.Ready.{pending_of_test}
use specd.Frontier.Exact.{runnable_frontier-exact}

mem-keep : (p : String → Bool) (y : String) (l : List String) → mem y (keep p l) ≡ (mem y l && p y)
unfolding mem
mem-keep p y [] = refl
mem-keep p y (x ∷ xs) = elim (String-cases y x) [
  | inl (t, e) ↦ let pe : p y ≡ p x = ap p e in ground (arith, mem-keep p y xs)
  | inr (t, n) ↦ ground (arith, mem-keep p y xs)
]

-- On an accepted graph: if every task is pending or completed and one is pending, then the frontier is
-- not empty.
pub runnable_frontier-progress :
    (tasks : List TaskRow) (status : StatusMap) (dag : TaskDag) (waiting : String)
    → new_task_dag tasks ≡ ok dag
    → ((x : String)
        → mem x (ids tasks) ≡ true
        → (activity_map tasks status no_facts x ≡ TaskActivity.pending)
          ⊎ (activity_map tasks status no_facts x ≡ TaskActivity.completed))
    → mem waiting (ids tasks) ≡ true
    → activity_map tasks status no_facts waiting ≡ TaskActivity.pending
    → (names : List String) × (runnable_frontier dag status ≡ ok names) × (names ≢ [])
runnable_frontier-progress tasks status dag waiting h either known pending =
    let activity = activity_map tasks status no_facts in
    let remaining = keep (λ x. is_pending (activity x)) (ids tasks) in
    let d = (new_task_dag-IsDag tasks dag h).0 in
    let (order, topo, full) = new_task_dag-IsTopo tasks dag h in
    let (names, e, _, exact) = runnable_frontier-exact tasks status dag h in
    let (y, open_y, clear) =
      first_ready (deps_of tasks) order remaining waiting topo (full waiting known)
        (rw (mem-keep, known, pending)) in
    let parts : (mem y (ids tasks) && is_pending (activity y)) ≡ true = rw mem-keep at open_y in
    let (known_y, pending_y) = &&-parts (mem y (ids tasks)) (is_pending (activity y)) parts in
    let done : (z : String) → mem z (deps_of tasks y) ≡ true → activity z ≡ TaskActivity.completed =
      λ z m.
        let known_z = IsClosed-deps tasks tasks y d.closed z m in
        elim (either z known_z) [
          | inl p ↦ cc (rw (mem-keep, known_z, p) at (clear z m))
          | inr c ↦ c
        ] in
    let found = (exact y).1 (known_y, pending_of_test (activity y) pending_y, done) in
    (names, e, λ none_left. not-mem-nil y (rw none_left at found))

abbrev pub frontier_ids : List FrontierTask → List String
frontier_ids [] = []
frontier_ids (t ∷ ts) = t.id ∷ frontier_ids ts

id-row_or_zero :
    (rows : List TaskRow) (x : String) → mem x (ids rows) ≡ true → (row_or_zero rows x).id ≡ x
unfolding row_of mem
id-row_or_zero [] x m = cc
id-row_or_zero (t ∷ ts) x m = elim (String-cases t.id x) [
  | inl (t_is, e) ↦ rw (t_is, row_or_zero) e
  | inr (t_not, n) ↦
      rw (t_not, row_or_zero)
        (id-row_or_zero ts x (elim (mem-cons x t.id (ids ts) m) [
          | inl same ↦ absurd (n (sym same))
          | inr rest ↦ rest
        ]))
]

-- The filter drops the escalated ids and keeps the rest in order.
collect-ids :
    (dag : TaskDag) (status : StatusMap) (active escalated names : List String)
    → ((x : String) → mem x names ≡ true → mem x (ids dag.by_id) ≡ true)
    → frontier_ids (collect dag status active escalated names)
      ≡ keep (λ x. not (mem x escalated)) names
unfolding collect
collect-ids dag status active escalated [] known = refl
collect-ids dag status active escalated (x ∷ rest) known =
    let others =
      collect-ids dag status active escalated rest (λ z m. known z (mem_tail z x rest m)) in
    elim (Bool-cases (mem x escalated)) [
      | inl e ↦ rw e others
      | inr e ↦ rw (e, others, id-row_or_zero dag.by_id x (known x (mem_self x rest)))
    ]

-- On an accepted graph FrontierExcluding succeeds and hands out the tasks of the frontier in its order,
-- less those that are escalated.
pub frontier_excluding-exact :
    (tasks : List TaskRow) (status : StatusMap) (escalated : List String) (dag : TaskDag)
    → new_task_dag tasks ≡ ok dag
    → (names : List String) × (out : List FrontierTask) × (runnable_frontier dag status ≡ ok names)
      × (frontier_excluding tasks status escalated ≡ ok out)
      × (frontier_ids out ≡ keep (λ x. not (mem x escalated)) names)
unfolding frontier_excluding
frontier_excluding-exact tasks status escalated dag h =
    let (names, e, _, exact) = runnable_frontier-exact tasks status dag h in
    let known : (x : String) → mem x names ≡ true → mem x (ids dag.by_id) ≡ true =
      λ x m. rw (new_task_dag-by_id tasks dag x h) ((exact x).0 m).0 in
    let active = active_workers dag.tasks status in
    (
      names,
      collect dag status active escalated names,
      e,
      rw (h, e),
      collect-ids dag status active escalated names known,
    )
