-- ===== src/Task/Found.antt =====
-- internal/core/tasksparser.go, RewriteTaskStatusLine: it succeeds exactly if it finds one row of the task.
use Prim.Native.String.{◌++◌ as ◌<>◌}
use specd.Prelude.{
  String, true, false, List, [], ◌∷◌, ◌++◌, All, none, some, ◌≡◌, refl, sym, ap, ◌∙◌, subst, ◌↔◌,
  ◌⊎◌, inl, inr, Option-cases,
}
use specd.Markdown.{split_after, concat}
use specd.Task.Rewrite.{written, task_cells, marked_line, rewrite_lines, rewrite_task_status_line}
use specd.Task.Marked.{
  marked_line-IsMarkedLine, IsMarkedLine-unique, IsRow, IsTaskLine, Marked, task_cells_iff,
  task_cells-none, append_line_iff, rewrite_lines-kept, rewrite_lines-first, rest_iff, Marked-cons,
}

module _ (id marker : String) where
  -- The first of the lines: another line, or the row itself.
  abbrev FirstLine : (line : String) (lines : List String) (out : String) → Type 0
  FirstLine line lines out =
      (¬ IsTaskLine id line)
        × ((rest : String) × Marked id marker lines rest × (out ≡ line <> rest))
      ⊎ ((cells : List String) × IsRow id line cells
          × All (λ l. ¬ IsTaskLine id l) lines
          × (out ≡ marked_line id marker line cells <> concat lines))

  FirstLine-at :
      (line : String) (lines : List String) (out : String) (before : List String) (l : String)
      (cells after : List String)
      → line ∷ lines ≡ before ++ l ∷ after
      → IsRow id l cells
      → All (λ x. ¬ IsTaskLine id x) before
      → All (λ x. ¬ IsTaskLine id x) after
      → out ≡ concat (before ++ marked_line id marker l cells ∷ after)
      → FirstLine line lines out
  FirstLine-at line lines out [] l cells after parts row a b result =
      let q : l ≡ line = cc parts in
      let r : after ≡ lines = cc parts in
      inr (
        cells,
        subst (λ x. IsRow id x cells) q row,
        subst (All (λ x. ¬ IsTaskLine id x)) r b,
        result ∙ (λ i. marked_line id marker (q i) cells <> concat (r i)),
      )
  FirstLine-at line lines out (b ∷ bs) l cells after parts row a c result =
      let q : b ≡ line = cc parts in
      let r : lines ≡ bs ++ l ∷ after = cc parts in
      let new : List String = bs ++ marked_line id marker l cells ∷ after in
      inl (
        subst (λ x. ¬ IsTaskLine id x) q a.0,
        (
          concat new,
          record {
            before = bs;
            line = l;
            cells = cells;
            after = after;
            parts = r;
            row = row;
            none_before = a.1;
            none_after = c;
            new = marked_line id marker l cells;
            marked = marked_line-IsMarkedLine id marker l cells;
            result = refl;
          },
          result ∙ ap (λ x. x <> concat new) q,
        ),
      )

  Marked-FirstLine :
      (line : String) (lines : List String) (out : String)
      → Marked id marker (line ∷ lines) out
      → FirstLine line lines out
  Marked-FirstLine line lines out m =
      let same = IsMarkedLine-unique id marker m.line m.new m.cells m.marked in
      FirstLine-at line lines out m.before m.line m.cells m.after m.parts m.row m.none_before
        m.none_after (m.result ∙ ap (λ new. concat (m.before ++ new ∷ m.after)) same)

  not_Marked-nil : (out : String) → ¬ Marked id marker [] out
  not_Marked-nil out m = empty_parts m.before m.line m.after m.parts
    where
      empty_parts :
          (before : List String) (l : String) (after : List String) → ¬ ([] ≡ before ++ l ∷ after)
      empty_parts [] l after e = cc e
      empty_parts (b ∷ bs) l after e = cc e

  other_line_iff :
      (line : String) (lines : List String) (out : String)
      → ((rest : String)
          → (rewrite_lines id marker false lines ≡ written rest) ↔ Marked id marker lines rest)
      → task_cells id line ≡ none
      → (rewrite_lines id marker false (line ∷ lines) ≡ written out)
        ↔ Marked id marker (line ∷ lines) out
  other_line_iff line lines out rest_of e =
      let (out_of, into) = append_line_iff line out (rewrite_lines id marker false lines) rest_of in
      let kept = rewrite_lines-kept id marker false line lines e in
      let absent = task_cells-none id line e in
      (
        λ h.
            let (rest, m, q) = out_of (sym kept ∙ h) in
            Marked-cons id marker line out rest lines absent m q,
        λ m. kept ∙ elim (Marked-FirstLine line lines out m) [
          | inl (_, rest) ↦ into rest
          | inr (cells, row, _, _) ↦ absurd (absent (cells, row))
        ],
      )

  own_line_iff :
      (line : String) (lines : List String) (out : String) (cells : List String)
      → task_cells id line ≡ some cells
      → (rewrite_lines id marker false (line ∷ lines) ≡ written out)
        ↔ Marked id marker (line ∷ lines) out
  own_line_iff line lines out cells e =
      let new = marked_line id marker line cells in
      let (out_of, into) =
        append_line_iff new out (rewrite_lines id marker true lines) (rest_iff id marker lines) in
      let first = rewrite_lines-first id marker line cells lines e in
      let row = (task_cells_iff id line cells).0 e in
      (
        λ h.
            let (rest, (others, q), same) = out_of (sym first ∙ h) in
            record {
              before = [];
              line = line;
              cells = cells;
              after = lines;
              parts = refl;
              row = row;
              none_before = tt;
              none_after = others;
              new = marked_line id marker line cells;
              marked = marked_line-IsMarkedLine id marker line cells;
              result = same ∙ ap (λ r. new <> r) q;
            },
        λ m. first ∙ elim (Marked-FirstLine line lines out m) [
          | inl (absent, _) ↦ absurd (absent (cells, row))
          | inr (cells', row', others, q) ↦
              let same : cells' ≡ cells = cc ((task_cells_iff id line cells').1 row', e) in
              into (
                concat lines,
                (others, refl),
                q ∙ ap (λ c. marked_line id marker line c <> concat lines) same,
              )
        ],
      )

  -- The loop writes a text exactly if one of the lines is a row of the task, which it marks.
  rewrite_lines_iff :
      (lines : List String) (out : String)
      → (rewrite_lines id marker false lines ≡ written out) ↔ Marked id marker lines out
  unfolding rewrite_lines
  rewrite_lines_iff [] out = (λ h. cc h, λ m. absurd (not_Marked-nil out m))
  rewrite_lines_iff (line ∷ lines) out = elim (Option-cases (task_cells id line)) [
    | inl e ↦ other_line_iff line lines out (rewrite_lines_iff lines) e
    | inr (cells, e) ↦ own_line_iff line lines out cells e
  ]

-- RewriteTaskStatusLine succeeds exactly if one line of the file, and only one, is a row of the task; the
-- new file is the old one with this row marked.
pub rewrite_task_status_line_iff :
    (raw id marker out : String)
    → (rewrite_task_status_line raw id marker ≡ written out)
      ↔ Marked id marker (split_after 10 raw) out
unfolding rewrite_task_status_line
rewrite_task_status_line_iff raw id marker out =
    rewrite_lines_iff id marker (split_after 10 raw) out
