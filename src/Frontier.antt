-- ===== src/Frontier.antt =====
-- internal/core/frontier.go, with RunnableFrontier and AllBlocked of internal/core/dag.go: activity and
-- readiness of every task, and the tasks that may start now.
-- `status` is a Go map, and answers `none` for an id that it lacks. `facts` is one too, and answers the
-- zero record `no_facts` there.
pub mod Samples
pub mod Ready
pub mod Exact
pub mod Workers
pub mod Progress
mod Tests
use Prim.Native.String.{◌++◌ as join}
use specd.Prelude.{
  ℕ, suc, ◌+◌, String, Bool, true, false, not, ◌&&◌, ◌||◌, List, [], ◌∷◌, ◌++◌, map, Option, none,
  some, ◌==◌, if◌then◌else◌, keep, any, all, mem, sort_strings, sort_by, leb, trim_space,
}
use specd.Task.{
  TaskRow, no_row, TaskRunStatus, TaskActivity, activity_from_status, status_from_marker, is_unset,
}
use specd.Dag.{TaskDag, Result, ok, err, ◌>>=◌, ids, row_of, new_task_dag, topological_waves}

pub data Readiness : Type 0 where
  ready waiting_dependency waiting_approval waiting_clarification waiting_schedule : Readiness
  other : String → Readiness

-- `readinessPriority[r]`, which is 0 for a key that the map lacks.
unfoldable pub readiness_priority : Readiness → ℕ
readiness_priority Readiness.waiting_approval = 1
readiness_priority Readiness.waiting_clarification = 2
readiness_priority Readiness.waiting_schedule = 3
readiness_priority _ = 0

pub record WaitReason : Type 0 where
  pub code : String
  pub readiness : Readiness
  pub refs : List String
  pub owner : String
  pub recovery : String
  pub review : String

pub record TaskFacts : Type 0 where
  pub activity : TaskActivity
  pub waits : List WaitReason
  pub coverage_resolved : Bool
  pub attempt : ℕ

pub record TaskState : Type 0 where
  pub id : String
  pub activity : TaskActivity
  pub readiness : Readiness
  pub waits : List WaitReason
  pub attempt : ℕ

abbrev pub StatusMap : Type 0
StatusMap = String → Option TaskRunStatus

abbrev pub FactMap : Type 0
FactMap = String → TaskFacts

-- A nil map of facts.
abbrev pub no_facts : FactMap
no_facts _ = record {
  activity = TaskActivity.unset;
  waits = [];
  coverage_resolved = false;
  attempt = 0;
}

abbrev pub is_pending : TaskActivity → Bool
is_pending TaskActivity.pending = true
is_pending _ = false

abbrev pub is_pending_status : TaskRunStatus → Bool
is_pending_status TaskRunStatus.pending = true
is_pending_status _ = false

abbrev pub is_ready : Readiness → Bool
is_ready Readiness.ready = true
is_ready _ = false

-- TaskState.Runnable.
unfoldable pub runnable : TaskState → Bool
runnable s = is_pending s.activity && is_ready s.readiness

-- `status[id]`, with the empty status for an id that is missing.
abbrev pub status_at : StatusMap → String → TaskRunStatus
status_at status id = elim (status id) [ none ↦ TaskRunStatus.unset | some s ↦ s ]

abbrev pub is_explicit : StatusMap → String → Bool
is_explicit status id = elim (status id) [ none ↦ false | some _ ↦ true ]

-- `current` of taskActivity: the run status, or the marker where that is empty.
unfoldable pub current_status : TaskRow → StatusMap → TaskRunStatus
current_status task status =
    let found = status_at status task.id in
    if is_unset found then status_from_marker task.marker else found

-- The test under which a persisted fact is the answer of taskActivity.
abbrev pub fact_holds : TaskActivity → Bool → TaskRunStatus → Bool
fact_holds TaskActivity.unset explicit current = false
fact_holds TaskActivity.pending explicit current = not (explicit && not (is_pending_status current))
fact_holds _ explicit current = true

unfoldable pub task_activity : TaskRow → StatusMap → FactMap → TaskActivity
unfolding current_status activity_from_status
task_activity task status facts =
    let fact = (facts task.id).activity in
    let current = current_status task status in
    if fact_holds fact (is_explicit status task.id) current
    then fact
    else activity_from_status current

-- The three cases of the switch of dependencyWaits.
pub data DepKind : Type 0 where
  met unresolved incomplete : DepKind

unfoldable pub dep_kind : TaskActivity → (coverage_resolved : Bool) → DepKind
dep_kind TaskActivity.completed resolved = met
dep_kind TaskActivity.cancelled resolved = if resolved then met else unresolved
dep_kind TaskActivity.superseded resolved = if resolved then met else unresolved
dep_kind _ resolved = incomplete

abbrev pub is_incomplete : DepKind → Bool
is_incomplete incomplete = true
is_incomplete _ = false

abbrev pub is_unresolved : DepKind → Bool
is_unresolved unresolved = true
is_unresolved _ = false

abbrev pub dep_kind_of : (activity : String → TaskActivity) → FactMap → String → DepKind
dep_kind_of activity facts dep = dep_kind (activity dep) (facts dep).coverage_resolved

abbrev pub dependency_incomplete : List String → WaitReason
dependency_incomplete refs = record {
  code = "dependency_incomplete";
  readiness = Readiness.waiting_dependency;
  refs = refs;
  owner = "craftsman";
  recovery = "complete the listed dependency tasks";
  review = "";
}

abbrev pub dependency_terminal : List String → WaitReason
dependency_terminal refs = record {
  code = "dependency_terminal_unresolved";
  readiness = Readiness.waiting_dependency;
  refs = refs;
  owner = "human";
  recovery = "record an acceptance coverage disposition for the listed tasks";
  review = "";
}

abbrev pub unless_nil : List String → WaitReason → List WaitReason
unless_nil [] wait = []
unless_nil (r ∷ rs) wait = wait ∷ []

unfoldable pub dependency_waits :
    TaskRow → (activity : String → TaskActivity) → FactMap → List WaitReason
unfolding dep_kind
dependency_waits task activity facts =
    let left = keep (λ d. is_incomplete (dep_kind_of activity facts d)) task.depends_on in
    let ended = keep (λ d. is_unresolved (dep_kind_of activity facts d)) task.depends_on in
    unless_nil left (dependency_incomplete left) ++ unless_nil ended (dependency_terminal ended)

abbrev pub wait_le : WaitReason → WaitReason → Bool
wait_le a b = leb (readiness_priority a.readiness) (readiness_priority b.readiness)

abbrev pub first_readiness : List WaitReason → Readiness
first_readiness [] = Readiness.ready
first_readiness (w ∷ ws) = w.readiness

-- The body of the second loop of ProjectTaskStates.
unfoldable pub project_state : TaskRow → (activity : String → TaskActivity) → FactMap → TaskState
unfolding dependency_waits sort_by readiness_priority
project_state task activity facts =
    let waits = sort_by wait_le (dependency_waits task activity facts ++ (facts task.id).waits) in
    record {
      id = task.id;
      activity = activity task.id;
      readiness = first_readiness waits;
      waits = waits;
      attempt = (facts task.id).attempt;
    }

-- The map `activity` of ProjectTaskStates. The ids of an accepted graph are distinct.
unfoldable pub activity_map : List TaskRow → StatusMap → FactMap → String → TaskActivity
unfolding row_of task_activity
activity_map tasks status facts id = elim (row_of tasks id) [
  | none ↦ TaskActivity.unset
  | some task ↦ task_activity task status facts
]

unfoldable pub project_task_states : List TaskRow → StatusMap → FactMap → Result (List TaskState)
unfolding project_state activity_map
project_task_states tasks status facts = do
  dag ← new_task_dag tasks
  ok (map (λ t. project_state t (activity_map dag.tasks status facts) facts) dag.tasks)

abbrev pub state_ids : List TaskState → List String
state_ids [] = []
state_ids (s ∷ ss) = s.id ∷ state_ids ss

unfoldable pub runnable_frontier : TaskDag → StatusMap → Result (List String)
unfolding project_task_states runnable
runnable_frontier dag status = do
  states ← project_task_states dag.tasks status no_facts
  ok (sort_strings (state_ids (keep runnable states)))

unfoldable pub pending_completion_blockers : List TaskState → List String
pending_completion_blockers states =
    sort_strings (state_ids (keep (λ s. is_pending s.activity) states))

-- TaskDAG.AllBlocked, whose loop returns at the first task that is neither complete nor blocked.
unfoldable pub count_blocked : List TaskRow → StatusMap → (seen : ℕ) → Bool
count_blocked [] status seen = not (leb seen 0)
count_blocked (t ∷ ts) status seen = elim (status_at status t.id) [
  | TaskRunStatus.complete ↦ count_blocked ts status seen
  | TaskRunStatus.blocked ↦ count_blocked ts status (suc seen)
  | _ ↦ false
]

unfoldable pub all_blocked : TaskDag → StatusMap → Bool
unfolding count_blocked
all_blocked dag status = count_blocked dag.tasks status 0
