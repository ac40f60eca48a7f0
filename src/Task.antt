-- ===== src/Task.antt =====
-- internal/core/tasksparser.go and internal/core/report.go: a row of tasks.md, the run status of a
-- task and its activity. A Go string type with constants is a data type with one constructor for
-- each constant, one for the empty string and one for any other text.
pub mod Rewrite
pub mod Names
pub mod Marked
pub mod Found
mod Tests
use specd.Prelude.{String, Bool, true, false, List, [], ◌==◌, if◌then◌else◌}

pub record TaskRow : Type 0 where
  pub id : String
  pub marker : String
  pub role : String
  pub files : String
  pub declared_files : List String
  pub depends_on : List String
  pub verify : String
  pub acceptance : String
  pub refs : List String
  pub kind : String
  pub risk : String
  pub complexity : String
  pub capabilities : List String
  pub context : String
  pub evidence : String
  pub checks : String
  pub worker : String

-- Go's zero value, which a map of rows answers for a key that it lacks.
abbrev pub no_row : TaskRow
no_row = record {
  id = "";
  marker = "";
  role = "";
  files = "";
  declared_files = [];
  depends_on = [];
  verify = "";
  acceptance = "";
  refs = [];
  kind = "";
  risk = "";
  complexity = "";
  capabilities = [];
  context = "";
  evidence = "";
  checks = "";
  worker = "";
}

pub data TaskRunStatus : Type 0 where
  pending running complete blocked : TaskRunStatus
  unset : TaskRunStatus
  other : String → TaskRunStatus

pub data TaskActivity : Type 0 where
  draft pending in_progress paused blocked failed completed cancelled superseded : TaskActivity
  unset : TaskActivity
  other : String → TaskActivity

unfoldable pub activity_from_status : TaskRunStatus → TaskActivity
activity_from_status TaskRunStatus.complete = TaskActivity.completed
activity_from_status TaskRunStatus.running = TaskActivity.in_progress
activity_from_status TaskRunStatus.blocked = TaskActivity.blocked
activity_from_status _ = TaskActivity.pending

unfoldable pub status_from_marker : String → TaskRunStatus
status_from_marker marker =
    if marker == "✅"
    then TaskRunStatus.complete
    else if marker == "🚧"
    then TaskRunStatus.running
    else if marker == "⛔"
    then TaskRunStatus.blocked
    else TaskRunStatus.pending

-- A run status is empty: Go's zero value.
abbrev pub is_unset : TaskRunStatus → Bool
is_unset TaskRunStatus.unset = true
is_unset _ = false
