-- ===== src/Task/Marked.antt =====
-- internal/core/tasksparser.go, RewriteTaskStatusLine: which files it rewrites, and what it makes of them.
use Prim.Native.String.{◌++◌ as ◌<>◌}
use specd.Prelude.{
  trim_space, Bool-cases, ◌∙◌, inl, inr, ◌⊎◌, sym, String, Bool, true, false, List, [], ◌∷◌, ◌++◌,
  All, Option, none, some, ◌==◌, if◌then◌else◌, ◌≡◌, refl, ap, subst, ◌↔◌, Option-cases,
  String-cases,
}
use specd.Markdown.{
  IsPipeRow, parse_pipe_row-IsPipeRow, join, ends_with, trim_right_of, concat, parse_pipe_row,
}
use specd.Task.Names.{NamesId, split_marked_task_id-Names}
use specd.Task.Rewrite.{
  with_first_cell, Rewritten, written, not_written, duplicate_task_id, append_line, first_cell,
  split_marked_task_id, task_cells, marked_line, rewrite_lines,
}

-- A line that is a row of a table with these cells, the first of which names the task.
abbrev pub IsRow : (id line : String) → (cells : List String) → Type 0
IsRow id line cells = IsPipeRow (trim_right_of 10 line) cells × NamesId (first_cell cells) id

abbrev pub IsTaskLine : (id line : String) → Type 0
IsTaskLine id line = (cells : List String) × IsRow id line cells

-- The row with the marker and the id as its first cell and the other cells as they were.
abbrev pub row_text : (id marker : String) → (cells : List String) → String
row_text id marker cells =
    let cell = trim_space (marker <> (" " <> id)) in
    "| " <> (join " | " (with_first_cell cell cells) <> " |")

-- The new row ends the line as the old one did.
abbrev pub IsMarkedLine : (id marker line : String) → (cells : List String) → String → Type 0
IsMarkedLine id marker line cells new =
    (ends_with 10 line ≡ true) × (new ≡ row_text id marker cells <> "\n")
    ⊎ (ends_with 10 line ≡ false) × (new ≡ row_text id marker cells)

pub marked_line-IsMarkedLine :
    (id marker line : String) (cells : List String)
    → IsMarkedLine id marker line cells (marked_line id marker line cells)
unfolding marked_line
marked_line-IsMarkedLine id marker line cells = elim (Bool-cases (ends_with 10 line)) [
  | inl e ↦ inl (e, rw e refl)
  | inr e ↦ inr (e, rw e refl)
]

pub IsMarkedLine-unique :
    (id marker line new : String) (cells : List String)
    → IsMarkedLine id marker line cells new
    → new ≡ marked_line id marker line cells
IsMarkedLine-unique id marker line new cells h =
    elim (marked_line-IsMarkedLine id marker line cells) [
      | inl (e, q) ↦ elim h [ inl (_, r) ↦ r ∙ sym q | inr (d, r) ↦ cc (e, d) ]
      | inr (e, q) ↦ elim h [ inl (d, r) ↦ cc (e, d) | inr (_, r) ↦ r ∙ sym q ]
    ]

-- The lines hold exactly one row of the task, and the text is that of the lines with this row marked.
pub record Marked (id marker : String) (lines : List String) (out : String) : Type 0 where
  pub before : List String
  pub line : String
  pub cells : List String
  pub after : List String
  pub parts : lines ≡ before ++ line ∷ after
  pub row : IsRow id line cells
  pub none_before : All (λ l. ¬ IsTaskLine id l) before
  pub none_after : All (λ l. ¬ IsTaskLine id l) after
  pub new : String
  pub marked : IsMarkedLine id marker line cells new
  pub result : out ≡ concat (before ++ new ∷ after)

kept_row :
    (id : String) (name : List String → String) (row : Option (List String)) (cells : List String)
    → (elim row [ none ↦ none | some cs ↦ if name cs == id then some cs else none ] ≡ some cells)
      ↔ ((row ≡ some cells) × (name cells ≡ id))
kept_row id name none cells = (λ h. cc, λ h. cc h.0)
kept_row id name (some cs) cells = elim (String-cases (name cs) id) [
  | inl (t, q) ↦ rw t (λ h. (h, subst (λ c. name c ≡ id) (some_injective cs cells h) q), λ h. h.0)
  | inr (t, q) ↦
      rw t (
        λ h. cc,
        λ h. absurd (q (subst (λ c. name c ≡ id) (sym (some_injective cs cells h.0)) h.1)),
      )
]
  where
    some_injective : (a b : List String) → some a ≡ some b → a ≡ b
    some_injective a b e = cc

pub task_cells_iff :
    (id line : String) (cells : List String)
    → (task_cells id line ≡ some cells) ↔ IsRow id line cells
unfolding task_cells
task_cells_iff id line cells =
    let (out, into) =
      kept_row id (λ row. (split_marked_task_id (first_cell row)).1)
        (parse_pipe_row (trim_right_of 10 line)) cells in
    let (row, of_row) = parse_pipe_row-IsPipeRow (trim_right_of 10 line) cells in
    let (names, named) = split_marked_task_id-Names (first_cell cells) id in
    (
      λ h. let (parsed, q) = out h in (row parsed, names q),
      λ (parsed, n). into (of_row parsed, named n),
    )

pub task_cells-none : (id line : String) → task_cells id line ≡ none → ¬ IsTaskLine id line
task_cells-none id line h (cells, row) = cc (h, (task_cells_iff id line cells).1 row)

pub append_line_iff :
    {P : String → Type 0} (line out : String) (r : Rewritten)
    → ((rest : String) → (r ≡ written rest) ↔ P rest)
    → (append_line line r ≡ written out) ↔ ((rest : String) × P rest × (out ≡ line <> rest))
append_line_iff line out (written text) p = (
  λ h. (text, (p text).0 refl, cc h),
  λ (rest, held, q). let same : text ≡ rest = cc ((p rest).1 held) in rw (same, q) refl,
)
append_line_iff line out (not_written e) p = (λ h. cc h, λ (rest, held, q). cc ((p rest).1 held))

module _ (id marker : String) where
  pub rewrite_lines-kept :
      (changed : Bool) (line : String) (lines : List String)
      → task_cells id line ≡ none
      → rewrite_lines id marker changed (line ∷ lines)
        ≡ append_line line (rewrite_lines id marker changed lines)
  unfolding rewrite_lines
  rewrite_lines-kept changed line lines e = rw (e, rewrite_lines) refl

  pub rewrite_lines-first :
      (line : String) (cells lines : List String)
      → task_cells id line ≡ some cells
      → rewrite_lines id marker false (line ∷ lines)
        ≡ append_line (marked_line id marker line cells) (rewrite_lines id marker true lines)
  unfolding rewrite_lines
  rewrite_lines-first line cells lines e = rw (e, rewrite_lines) refl

  rewrite_lines-second :
      (line : String) (cells lines : List String)
      → task_cells id line ≡ some cells
      → rewrite_lines id marker true (line ∷ lines) ≡ not_written (duplicate_task_id id)
  unfolding rewrite_lines
  rewrite_lines-second line cells lines e = rw (e, rewrite_lines) refl

  -- After the row was found, no other may follow, and the lines stay.
  pub rest_iff :
      (lines : List String) (out : String)
      → (rewrite_lines id marker true lines ≡ written out)
        ↔ (All (λ l. ¬ IsTaskLine id l) lines × (out ≡ concat lines))
  unfolding rewrite_lines
  rest_iff [] out = (λ h. (tt, cc h), λ h. cc h.1)
  rest_iff (line ∷ lines) out = elim (Option-cases (task_cells id line)) [
    | inl e ↦
        let (out_of, into) =
          append_line_iff line out (rewrite_lines id marker true lines) (rest_iff lines) in
        let kept = rewrite_lines-kept true line lines e in
        (
          λ h.
              let (rest, (others, q), same) = out_of (sym kept ∙ h) in
              ((task_cells-none id line e, others), same ∙ ap (λ r. line <> r) q),
          λ ((_, others), q). kept ∙ into (concat lines, (others, refl), q),
        )
    | inr (cells, e) ↦ (
      λ h. cc (h, rewrite_lines-second line cells lines e),
      λ ((absent, _), _). absurd (absent (cells, (task_cells_iff id line cells).0 e)),
    )
  ]

  pub Marked-cons :
      (line out rest : String) (lines : List String)
      → ¬ IsTaskLine id line
      → Marked id marker lines rest
      → out ≡ line <> rest
      → Marked id marker (line ∷ lines) out
  Marked-cons line out rest lines absent m q = record {
    before = line ∷ m.before;
    line = m.line;
    cells = m.cells;
    after = m.after;
    parts = ap (λ ls. line ∷ ls) m.parts;
    row = m.row;
    none_before = (absent, m.none_before);
    none_after = m.none_after;
    new = m.new;
    marked = m.marked;
    result = q ∙ ap (λ r. line <> r) m.result;
  }
