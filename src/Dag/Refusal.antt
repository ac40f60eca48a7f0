-- ===== src/Dag/Refusal.antt =====
-- internal/core/dag.go, NewTaskDAG: the graphs that it refuses, and why.
use specd.Prelude.{
  String, true, false, List, [], ◌∷◌, ◌≡◌, ◌≢◌, refl, sym, ◌∙◌, subst, ◌==◌, ◌⊎◌, inl, inr, arith,
  Bool-cases, String-cases, mem, eq_iff, eq_of_test, ne_of_test,
}
use specd.Task.{TaskRow}
use specd.Dag.{
  err, DagError, cycle_at, out_of_fuel, deps_of, ids, index_tasks, check_deps, check_tasks,
  detect_cycle, new_task_dag, Result-cases, >>=-err, task_id_required, duplicate_task, unknown_task,
  cycle,
}
use specd.Dag.Search.{Within}
use specd.Dag.Acyclic.{Walk}
use specd.Dag.Index.{IsKeyed, IsClosed, index_tasks-IsKeyed, check_tasks-IsClosed}
use specd.Dag.Build.{index-mem, detect_cycle-cycle}

-- Some row has that id.
abbrev pub HasId : String → List TaskRow → Type 0
HasId x [] = ⊥
HasId x (t ∷ ts) = (t.id ≡ x) ⊎ HasId x ts

-- Two rows, one after the other, have that id.
abbrev pub Repeats : String → List TaskRow → Type 0
Repeats x [] = ⊥
Repeats x (t ∷ ts) = ((t.id ≡ x) × HasId x ts) ⊎ Repeats x ts

-- A row with that id has the dependency.
abbrev pub DependsOn : (task dep : String) → List TaskRow → Type 0
DependsOn x d [] = ⊥
DependsOn x d (t ∷ ts) = ((t.id ≡ x) × (mem d t.depends_on ≡ true)) ⊎ DependsOn x d ts

-- What a refusal means. The kinds are tried in this order, so that a later one says that the earlier
-- ones do not apply; `out_of_fuel` and the unnamed `cycle` are never reported.
abbrev pub IsRefusal : List TaskRow → DagError → Type 0
IsRefusal tasks task_id_required = HasId "" tasks
IsRefusal tasks (duplicate_task id) = (id ≢ "") × Repeats id tasks
IsRefusal tasks (unknown_task x d) = IsKeyed tasks × DependsOn x d tasks × ¬ HasId d tasks
IsRefusal tasks (cycle_at c) = IsKeyed tasks × IsClosed tasks tasks × Walk (deps_of tasks) c c
IsRefusal tasks out_of_fuel = ⊥
IsRefusal tasks cycle = ⊥

mem_of_HasId : (x : String) (ts : List TaskRow) → HasId x ts → mem x (ids ts) ≡ true
unfolding mem
mem_of_HasId x [] h = absurd h
mem_of_HasId x (t ∷ ts) h = ground (arith, h, mem_of_HasId x ts, eq_iff x t.id)

-- Why the loop that indexes the rows stops, from the index of the earlier rows.
Unindexed : List TaskRow → List TaskRow → DagError → Type 0
Unindexed ts acc e =
    ((e ≡ task_id_required) × HasId "" ts)
    ⊎ ((id : String) × (e ≡ duplicate_task id)
        × (id ≢ "")
        × (Repeats id ts ⊎ ((mem id (ids acc) ≡ true) × HasId id ts)))

later :
    (t : TaskRow) (ts acc : List TaskRow) (e : DagError)
    → Unindexed ts (t ∷ acc) e
    → Unindexed (t ∷ ts) acc e
unfolding Unindexed mem
later t ts acc e (inl (q, h)) = inl (q, inr h)
later t ts acc e (inr (id, q, n, inl twice)) = inr (id, q, n, inl (inr twice))
later t ts acc e (inr (id, q, n, inr (m, h))) = elim (String-cases id t.id) [
  | inl (_, same) ↦ inr (id, q, n, inl (inl (sym same, h)))
  | inr (o, _) ↦ inr (id, q, n, inr (rw o at m, inr h))
]

index_tasks-refuses :
    (ts acc : List TaskRow) (e : DagError) → index_tasks ts acc ≡ err e → Unindexed ts acc e
unfolding index_tasks Unindexed
index_tasks-refuses [] acc e h = cc
index_tasks-refuses (t ∷ ts) acc e h = elim (Bool-cases (t.id == "")) [
  | inl a ↦ let s : e ≡ task_id_required = cc (rw a at h) in inl (s, inl (eq_of_test t.id "" a))
  | inr a ↦ elim (Bool-cases (mem t.id (ids acc))) [
    | inl b ↦
        let s : e ≡ duplicate_task t.id = cc (rw (a, b) at h) in
        inr (t.id, s, ne_of_test t.id "" a, inr (b, inl refl))
    | inr b ↦ later t ts acc e (index_tasks-refuses ts (t ∷ acc) e (rw (a, b) at h))
  ]
]

check_deps-refuses :
    (known : List String) (id : String) (ds : List String) (e : DagError)
    → check_deps known id ds ≡ err e
    → (d : String) × (e ≡ unknown_task id d) × (mem d ds ≡ true) × (mem d known ≡ false)
unfolding check_deps mem
check_deps-refuses known id [] e h = cc
check_deps-refuses known id (d ∷ ds) e h = elim (Bool-cases (mem d known)) [
  | inl a ↦
      let (x, s, m, absent) = check_deps-refuses known id ds e (rw a at h) in
      (x, s, ground (arith, m), absent)
  | inr a ↦ let s : e ≡ unknown_task id d = cc (rw a at h) in (d, s, ground (arith, eq_iff d d), a)
]

check_tasks-refuses :
    (known : List String) (ts : List TaskRow) (e : DagError)
    → check_tasks known ts ≡ err e
    → (x d : String) × (e ≡ unknown_task x d) × DependsOn x d ts × (mem d known ≡ false)
unfolding check_tasks
check_tasks-refuses known [] e h = cc
check_tasks-refuses known (t ∷ ts) e h =
    elim (>>=-err (check_deps known t.id t.depends_on) (λ _. check_tasks known ts) h) [
      | inl first ↦
          let (d, s, m, absent) = check_deps-refuses known t.id t.depends_on e first in
          (t.id, d, s, inl (refl, m), absent)
      | inr (_, _, rest) ↦
          let (x, d, s, depends, absent) = check_tasks-refuses known ts e rest in
          (x, d, s, inr depends, absent)
    ]

index_tasks-IsRefusal :
    (tasks : List TaskRow) (e : DagError) → Unindexed tasks [] e → IsRefusal tasks e
unfolding Unindexed mem
index_tasks-IsRefusal tasks e (inl (q, h)) = subst (IsRefusal tasks) (sym q) h
index_tasks-IsRefusal tasks e (inr (id, q, n, inl twice)) =
    subst (IsRefusal tasks) (sym q) (n, twice)
index_tasks-IsRefusal tasks e (inr (id, q, n, inr (m, h))) = cc m

-- NewTaskDAG refuses with "task id required" only if some row has no id; as a duplicate only an id that
-- two rows have; for an unknown dependency only if a row with that id names it and no row has it as its
-- id, all ids being there and distinct; and for a cycle only a task that waits for itself, the ids being
-- distinct and all dependencies known. It never refuses for fuel.
pub new_task_dag-IsRefusal :
    (tasks : List TaskRow) (e : DagError) → new_task_dag tasks ≡ err e → IsRefusal tasks e
unfolding new_task_dag
new_task_dag-IsRefusal tasks e h = elim (Result-cases (index_tasks tasks [])) [
  | inr (e', i) ↦
      index_tasks-IsRefusal tasks e (index_tasks-refuses tasks [] e (i ∙ cc (rw i at h)))
  | inl (r, i) ↦
      let keyed = (index_tasks-IsKeyed tasks [] r i).0 in
      elim (Result-cases (check_tasks (ids r) tasks)) [
        | inr (e', k) ↦
            let (x, d, s, depends, absent) =
              check_tasks-refuses (ids r) tasks e (k ∙ cc (rw (i, k) at h)) in
            let known = index-mem tasks r i d in
            subst (IsRefusal tasks) (sym s)
              (keyed, depends, λ has. cc (mem_of_HasId d tasks has, known, absent))
        | inl (_, k) ↦
            let names : Within (ids r) (ids tasks) = λ x m. rw (index-mem tasks r i x) at m in
            let closed = check_tasks-IsClosed tasks (ids r) tasks names k in
            elim (Result-cases (detect_cycle (record { tasks = tasks; by_id = r }))) [
              | inl (m, s) ↦ cc (rw (i, k, s) at h)
              | inr (e', s) ↦
                  let (c, ec, walk) = detect_cycle-cycle tasks r i e' closed s in
                  let same : cycle_at c ≡ e = sym ec ∙ cc (rw (i, k, s) at h) in
                  rw (← same) (keyed, closed, walk)
            ]
      ]
]
