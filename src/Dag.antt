-- ===== src/Dag.antt =====
-- internal/core/dag.go: the dependency graph of the tasks of a spec.
-- `visiting`, `visited`, `remaining` and `done` are Go maps from ids to Booleans or rows, and here the
-- lists of the ids that they hold. The depth-first search and the loop over the waves take fuel.
pub mod Samples
pub mod Search
pub mod Acyclic
pub mod Fuel
pub mod Index
pub mod Build
pub mod Refusal
pub mod Waves
pub mod Schedule
mod Tests
use specd.Prelude.{
  ℕ, zero, suc, ◌+◌, String, Bool, true, false, not, ◌&&◌, List, [], ◌∷◌, ◌++◌, map, Option, none,
  some, ◌==◌, if◌then◌else◌, keep, all, mem, ◌≡◌, refl, ◌⊎◌, inl, inr, remove, sort_strings, length,
}
use specd.Task.{TaskRow}

pub data DagError : Type 0 where
  task_id_required : DagError
  duplicate_task : String → DagError
  unknown_task : (task dep : String) → DagError
  cycle_at : String → DagError
  cycle : DagError
  -- Not an error of the source: the fuel of a loop ran out.
  out_of_fuel : DagError

pub data Result {ℓ} (A : Type ℓ) : Type ℓ where
  ok : A → Result A
  err : DagError → Result A

infixl 5 ◌>>=◌ ◌>>◌
abbrev pub ◌>>=◌ {ℓ κ} : {A : Type ℓ} {B : Type κ} → Result A → (A → Result B) → Result B
ok a >>= f = f a
err e >>= f = err e

abbrev pub ◌>>◌ {ℓ κ} : {A : Type ℓ} {B : Type κ} → Result A → Result B → Result B
m >> k = m >>= λ _. k

pub >>=-ok {ℓ κ} :
    {A : Type ℓ} {B : Type κ} (r : Result A) (f : A → Result B) {b : B}
    → (r >>= f) ≡ ok b
    → (a : A) × (r ≡ ok a) × (f a ≡ ok b)
>>=-ok (ok a) f h = (a, refl, h)
>>=-ok (err e) f h = cc

-- A chain fails in its first part or in its second.
pub >>=-err {ℓ κ} :
    {A : Type ℓ} {B : Type κ} (r : Result A) (f : A → Result B) {e : DagError}
    → (r >>= f) ≡ err e
    → (r ≡ err e) ⊎ ((a : A) × (r ≡ ok a) × (f a ≡ err e))
>>=-err (ok a) f h = inr (a, refl, h)
>>=-err (err e) f h = inl (cc)

pub Result-cases {ℓ} :
    {A : Type ℓ} (r : Result A) → ((a : A) × (r ≡ ok a)) ⊎ ((e : DagError) × (r ≡ err e))
Result-cases (ok a) = inl (a, refl)
Result-cases (err e) = inr (e, refl)

-- `by_id` has the entries of the map ByID, newest first.
pub record TaskDag : Type 0 where
  pub tasks : List TaskRow
  pub by_id : List TaskRow

abbrev pub ids : List TaskRow → List String
ids [] = []
ids (t ∷ ts) = t.id ∷ ids ts

-- `row, exists := dag.ByID[id]`.
unfoldable pub row_of : List TaskRow → String → Option TaskRow
row_of [] id = none
row_of (t ∷ ts) id = if t.id == id then some t else row_of ts id

-- `dag.ByID[id].DependsOn`, which is nil for an id that is missing.
unfoldable pub deps_of : List TaskRow → String → List String
deps_of [] id = []
deps_of (t ∷ ts) id = if t.id == id then t.depends_on else deps_of ts id

-- The first loop of NewTaskDAG.
unfoldable pub index_tasks : List TaskRow → List TaskRow → Result (List TaskRow)
index_tasks [] by_id = ok by_id
index_tasks (t ∷ ts) by_id =
    let rest = index_tasks ts (t ∷ by_id) in
    if t.id == ""
    then err task_id_required
    else if mem t.id (ids by_id)
    then err (duplicate_task t.id)
    else rest

-- The second loop of NewTaskDAG.
unfoldable pub check_deps : (known : List String) → String → List String → Result (Unit {0})
check_deps known id [] = ok tt
check_deps known id (d ∷ ds) =
    let rest = check_deps known id ds in if mem d known then rest else err (unknown_task id d)

unfoldable pub check_tasks : (known : List String) → List TaskRow → Result (Unit {0})
unfolding check_deps
check_tasks known [] = ok tt
check_tasks known (t ∷ ts) = do check_deps known t.id t.depends_on; check_tasks known ts

pub record Marks : Type 0 where
  pub visiting : List String
  pub visited : List String

-- The loop of `visit` over the dependencies of one task.
unfoldable pub visit_all : (Marks → String → Result Marks) → Marks → List String → Result Marks
visit_all visit m [] = ok m
visit_all visit m (d ∷ ds) = do m' ← visit m d; visit_all visit m' ds

-- `visiting[id] = false; visited[id] = true`.
unfoldable pub leave : String → Marks → Marks
leave id m = record { visiting = remove id m.visiting; visited = id ∷ m.visited }

-- `visiting[id] = true`.
abbrev pub enter : String → Marks → Marks
enter id m = record m { visiting = id ∷ m.visiting }

-- The closure `visit` of detectCycle.
unfoldable pub visit : List TaskRow → ℕ → Marks → String → Result Marks
unfolding visit_all leave deps_of
visit by_id zero m id = err out_of_fuel
visit by_id (suc fuel) m id =
    let inner =
      visit_all (visit by_id fuel) (enter id m) (deps_of by_id id) >>= λ m'. ok (leave id m') in
    if mem id m.visiting then err (cycle_at id) else if mem id m.visited then ok m else inner

unfoldable pub detect_cycle : TaskDag → Result Marks
unfolding visit
detect_cycle dag =
    visit_all (visit dag.by_id (suc (length dag.tasks))) (record { visiting = []; visited = [] })
      (ids dag.tasks)

unfoldable pub new_task_dag : List TaskRow → Result TaskDag
unfolding index_tasks check_tasks detect_cycle
new_task_dag tasks = do
  by_id ← index_tasks tasks []
  check_tasks (ids by_id) tasks
  detect_cycle (record { tasks = tasks; by_id = by_id })
  ok (record { tasks = tasks; by_id = by_id })

unfoldable pub deps_satisfied : TaskRow → List String → Bool
deps_satisfied task done = all (λ dep. mem dep done) task.depends_on

-- The body of the loop of TopologicalWaves up to the emptiness test.
unfoldable pub wave_of : List TaskRow → (remaining done : List String) → List String
unfolding deps_satisfied
wave_of tasks remaining done = ids (keep (λ t. mem t.id remaining && deps_satisfied t done) tasks)

-- `for _, id := range wave { delete(remaining, id) }`.
unfoldable pub remove_all : List String → List String → List String
remove_all [] remaining = remaining
remove_all (id ∷ wave) remaining = remove_all wave (remove id remaining)

unfoldable pub waves_from :
    ℕ → List TaskRow → (remaining done : List String) → Result (List (List String))
unfolding wave_of remove_all
waves_from fuel tasks [] done = ok []
waves_from zero tasks (r ∷ rs) done = err out_of_fuel
waves_from (suc fuel) tasks (r ∷ rs) done = elim (wave_of tasks (r ∷ rs) done) [
  | [] ↦ err cycle
  | id ∷ more ↦
      (let wave = sort_strings (id ∷ more) in
        waves_from fuel tasks (remove_all wave (r ∷ rs)) (wave ++ done) >>= λ waves.
        ok (wave ∷ waves))
]

unfoldable pub topological_waves : TaskDag → Result (List (List String))
unfolding waves_from
topological_waves dag = waves_from (length dag.tasks) dag.tasks (ids dag.tasks) []
