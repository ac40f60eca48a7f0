-- ===== src/Task/Rewrite.antt =====
-- internal/core/tasksparser.go, RewriteTaskStatusLine: the marker of one task in the text of tasks.md.
-- The bytes of the file are a text; the byte 10 ends a line, 96 is the backquote and 84 is `T`.
use Prim.Native.String.{◌++◌ as ◌<>◌}
use specd.Prelude.{
  String, Bool, true, false, List, [], ◌∷◌, ◌++◌, Option, none, some, ◌==◌, if◌then◌else◌, is_empty,
  trim_space,
}
use specd.Markdown.{
  starts_with, ends_with, trim_of, trim_right_of, fields, split_after, join, parse_pipe_row,
}

-- The loop over the parts, after those that were passed.
unfoldable pub first_marked : (passed parts : List String) → Option (String × String)
unfolding trim_of join
first_marked passed [] = none
first_marked passed (part ∷ parts) =
    let rest = first_marked (passed ++ part ∷ []) parts in
    if starts_with 84 (trim_of 96 part) then some (join " " passed, trim_of 96 part) else rest

abbrev pub found_or : Option (String × String) → String × String → String × String
found_or (some found) rest = found
found_or none rest = rest

-- The part of splitMarkedTaskID behind `strings.Fields`.
unfoldable pub id_among : (value : String) → (parts : List String) → String × String
unfolding first_marked
id_among value [] = ("", "")
id_among value (part ∷ parts) =
    found_or (first_marked [] (part ∷ parts))
      (if starts_with 84 part then ("", part) else ("", value))

-- The marker and the id of the first cell of a row.
unfoldable pub split_marked_task_id : String → String × String
unfolding trim_space trim_of fields id_among
split_marked_task_id text =
    let value = trim_of 96 (trim_space text) in
    if is_empty value then ("", "") else id_among value (fields value)

pub data RewriteError : Type 0 where
  duplicate_task_id task_not_found : String → RewriteError

pub data Rewritten : Type 0 where
  written : String → Rewritten
  not_written : RewriteError → Rewritten

-- `append(out, line...)` in front of what the rest of the loop appends.
abbrev pub append_line : String → Rewritten → Rewritten
append_line line (written out) = written (line <> out)
append_line line (not_written e) = not_written e

-- `cells[0]`; a row has at least one cell.
abbrev pub first_cell : List String → String
first_cell [] = ""
first_cell (c ∷ cs) = c

abbrev pub with_first_cell : String → List String → List String
with_first_cell x [] = []
with_first_cell x (c ∷ cs) = x ∷ cs

-- The cells of a line that is a row of the task. Every other line the loop keeps.
unfoldable pub task_cells : (id line : String) → Option (List String)
unfolding trim_right_of parse_pipe_row split_marked_task_id
task_cells id line = elim (parse_pipe_row (trim_right_of 10 line)) [
  | none ↦ none
  | some cells ↦ if (split_marked_task_id (first_cell cells)).1 == id then some cells else none
]

-- The row with the new marker.
unfoldable pub marked_line : (id marker line : String) → (cells : List String) → String
unfolding trim_space join ends_with
marked_line id marker line cells =
    let cell = trim_space (marker <> (" " <> id)) in
    let new_line = "| " <> (join " | " (with_first_cell cell cells) <> " |") in
    if ends_with 10 line then new_line <> "\n" else new_line

unfoldable pub rewrite_lines : (id marker : String) → (changed : Bool) → List String → Rewritten
unfolding task_cells marked_line
rewrite_lines id marker changed [] = if changed then written "" else not_written (task_not_found id)
rewrite_lines id marker changed (line ∷ lines) = elim (task_cells id line) [
  | none ↦ append_line line (rewrite_lines id marker changed lines)
  | some cells ↦ elim changed [
    | true ↦ not_written (duplicate_task_id id)
    | false ↦ append_line (marked_line id marker line cells) (rewrite_lines id marker true lines)
  ]
]

unfoldable pub rewrite_task_status_line : (raw id marker : String) → Rewritten
unfolding split_after rewrite_lines
rewrite_task_status_line raw id marker = rewrite_lines id marker false (split_after 10 raw)
