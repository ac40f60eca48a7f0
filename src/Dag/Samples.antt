-- ===== src/Dag/Samples.antt =====
-- Small graphs, and what the program does on them.
use specd.Prelude.{String, List, [], ◌∷◌, ◌≡◌, refl, mem, remove, sort_strings}
use specd.Task.{TaskRow}
use specd.Dag.{
  TaskDag, ok, err, new_task_dag, topological_waves, cycle_at, duplicate_task, unknown_task,
}

abbrev pub row : String → List String → TaskRow
row id depends_on = record {
  id = id;
  marker = "";
  role = "craftsman";
  files = "";
  declared_files = [];
  depends_on = depends_on;
  verify = "go test ./...";
  acceptance = "";
  refs = [];
  kind = "";
  risk = "";
  complexity = "";
  capabilities = [];
  context = "";
  evidence = "";
  checks = "";
  worker = "";
}

abbrev pub diamond : List TaskRow
diamond =
    row "T4" ("T2" ∷ "T3" ∷ []) ∷ row "T3" ("T1" ∷ []) ∷ row "T2" ("T1" ∷ []) ∷ row "T1" [] ∷ []

abbrev pub diamond_dag : TaskDag
diamond_dag = record {
  tasks = diamond;
  by_id =
      row "T1" [] ∷ row "T2" ("T1" ∷ []) ∷ row "T3" ("T1" ∷ []) ∷ row "T4" ("T2" ∷ "T3" ∷ []) ∷ [];
}

abbrev pub looping : List TaskRow
looping = row "T1" ("T2" ∷ []) ∷ row "T2" ("T3" ∷ []) ∷ row "T3" ("T2" ∷ []) ∷ []

-- What the tests of this file run.
program : Unit {0}
unfolding new_task_dag topological_waves mem remove sort_strings
program = tt

pub new_task_dag-diamond : new_task_dag diamond ≡ ok diamond_dag
unfolding program
new_task_dag-diamond = refl

pub new_task_dag-looping : new_task_dag looping ≡ err (cycle_at "T2")
unfolding program
new_task_dag-looping = refl

new_task_dag-refused :
    (new_task_dag (row "T1" [] ∷ row "T1" [] ∷ []) ≡ err (duplicate_task "T1"))
    × (new_task_dag (row "T1" ("T9" ∷ []) ∷ []) ≡ err (unknown_task "T1" "T9"))
unfolding program
new_task_dag-refused = (refl, refl)

pub topological_waves-diamond :
    topological_waves diamond_dag ≡ ok (("T1" ∷ []) ∷ ("T2" ∷ "T3" ∷ []) ∷ ("T4" ∷ []) ∷ [])
unfolding program
topological_waves-diamond = refl
