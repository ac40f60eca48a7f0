-- ===== src/Task/Tests.antt =====
-- internal/core/tasksparser.go: the rewriting of one row of a small tasks.md.
use specd.Prelude.{◌≡◌, refl}
use specd.Task.Rewrite.{
  written, not_written, duplicate_task_id, task_not_found, rewrite_task_status_line,
}

rewritten_example :
    rewrite_task_status_line "# Tasks\n| `T1` | dev |\n| T2 | dev |" "T1" "x"
    ≡ written "# Tasks\n| x T1 | dev |\n| T2 | dev |"
unfolding rewrite_task_status_line
rewritten_example = refl

marked_again_example :
    rewrite_task_status_line "| x T1 | dev |\n" "T1" "y" ≡ written "| y T1 | dev |\n"
unfolding rewrite_task_status_line
marked_again_example = refl

duplicate_example :
    rewrite_task_status_line "| T1 |\n| T1 |\n" "T1" "x" ≡ not_written (duplicate_task_id "T1")
unfolding rewrite_task_status_line
duplicate_example = refl

not_found_example : rewrite_task_status_line "| T2 |\n" "T1" "x" ≡ not_written (task_not_found "T1")
unfolding rewrite_task_status_line
not_found_example = refl
