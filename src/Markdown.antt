-- ===== src/Markdown.antt =====
-- internal/core/md.go, parsePipeRow: the cells of a row of a table, with the functions of `strings` and
-- `bytes` that it and the rewriting of a row use. A byte that they look for is ASCII, and is its code.
use Prim.Native.Char.{Char, code}
use Prim.Native.String.{◌++◌ as ◌<>◌}
use text.Mathlib.TextLemmas.{nil-append, cons-append}
use specd.Prelude.{
  true, ℕ, String, Bool, false, not, ◌&&◌, List, [], ◌∷◌, Option, none, some, map, keep, eqb,
  if◌then◌else◌, ◌≡◌, ◌↔◌, refl, ap, ◌∙◌, Bool-cases, inl, inr, is_empty, is_space, trim_space,
}

-- `strings.HasPrefix`, for one byte.
abbrev pub starts_with : ℕ → String → Bool
starts_with n String.[] = false
starts_with n (String.◌∷◌ c s) = eqb (code c) n

-- `strings.HasSuffix`, for one byte.
unfoldable pub ends_with : ℕ → String → Bool
ends_with n String.[] = false
ends_with n (String.◌∷◌ c s) =
    let rest = ends_with n s in if is_empty s then eqb (code c) n else rest

-- `strings.TrimPrefix`, for one byte.
abbrev pub trim_prefix : ℕ → String → String
trim_prefix n String.[] = String.[]
trim_prefix n (String.◌∷◌ c s) = if eqb (code c) n then s else String.◌∷◌ c s

-- `strings.TrimSuffix`, for one byte.
unfoldable pub trim_suffix : ℕ → String → String
trim_suffix n String.[] = String.[]
trim_suffix n (String.◌∷◌ c s) =
    let rest = trim_suffix n s in
    if is_empty s && eqb (code c) n then String.[] else String.◌∷◌ c rest

unfoldable pub trim_left_of : ℕ → String → String
trim_left_of n String.[] = String.[]
trim_left_of n (String.◌∷◌ c s) =
    let rest = trim_left_of n s in if eqb (code c) n then rest else String.◌∷◌ c s

-- `strings.TrimRight`, for one byte.
unfoldable pub trim_right_of : ℕ → String → String
trim_right_of n String.[] = String.[]
trim_right_of n (String.◌∷◌ c s) =
    let rest = trim_right_of n s in
    if eqb (code c) n && is_empty rest then String.[] else String.◌∷◌ c rest

-- `strings.Trim`, for one byte.
unfoldable pub trim_of : ℕ → String → String
unfolding trim_left_of trim_right_of
trim_of n s = trim_right_of n (trim_left_of n s)

-- A character in front of the first part.
abbrev extend : Char → List String → List String
extend c [] = String.◌∷◌ c String.[] ∷ []
extend c (x ∷ xs) = String.◌∷◌ c x ∷ xs

unfoldable pub split_where : (Char → Bool) → String → List String
split_where p String.[] = String.[] ∷ []
split_where p (String.◌∷◌ c s) =
    let rest = split_where p s in if p c then String.[] ∷ rest else extend c rest

-- `strings.Split`, at one byte.
unfoldable pub split_on : ℕ → String → List String
unfolding split_where
split_on n s = split_where (λ c. eqb (code c) n) s

-- `strings.Fields`.
unfoldable pub fields : String → List String
unfolding split_where is_space
fields s = keep (λ part. not (is_empty part)) (split_where is_space s)

-- `bytes.SplitAfter`, at one byte.
unfoldable pub split_after : ℕ → String → List String
split_after n String.[] = String.[] ∷ []
split_after n (String.◌∷◌ c s) =
    let rest = split_after n s in
    if eqb (code c) n then String.◌∷◌ c String.[] ∷ rest else extend c rest

-- `strings.Join`.
unfoldable pub join : (sep : String) → List String → String
join sep [] = String.[]
join sep (x ∷ []) = x
join sep (x ∷ y ∷ ys) = x <> (sep <> join sep (y ∷ ys))

abbrev pub concat : List String → String
concat [] = String.[]
concat (x ∷ xs) = x <> concat xs

concat-extend : (c : Char) (xs : List String) → concat (extend c xs) ≡ String.◌∷◌ c (concat xs)
concat-extend c [] = cons-append c String.[] String.[] ∙ ap (String.◌∷◌ c) (nil-append String.[])
concat-extend c (x ∷ xs) = cons-append c x (concat xs)

-- The parts that SplitAfter makes of a text are the text.
pub concat-split_after : (n : ℕ) (s : String) → concat (split_after n s) ≡ s
unfolding split_after
concat-split_after n String.[] = refl
concat-split_after n (String.◌∷◌ c s) = elim (Bool-cases (eqb (code c) n)) [
  | inl e ↦ rw e (
      cons-append c String.[] (concat (split_after n s))
      ∙ ap (String.◌∷◌ c) (nil-append (concat (split_after n s)) ∙ concat-split_after n s))
  | inr e ↦ rw e (concat-extend c (split_after n s) ∙ ap (String.◌∷◌ c) (concat-split_after n s))
]

-- `none` is Go's nil: the line is no row. The byte 124 is `|`.
unfoldable pub parse_pipe_row : String → Option (List String)
unfolding ends_with trim_suffix split_on trim_space
parse_pipe_row text =
    let line = trim_space text in
    if not (starts_with 124 line && ends_with 124 line)
    then none
    else some (map trim_space (split_on 124 (trim_prefix 124 (trim_suffix 124 line))))

-- The trimmed text stands between bars; its cells are the trimmed texts between the other bars.
abbrev pub IsPipeRow : (text : String) → (cells : List String) → Type 0
IsPipeRow text cells =
    (starts_with 124 (trim_space text) ≡ true)
    × (ends_with 124 (trim_space text) ≡ true)
    × (map trim_space (split_on 124 (trim_prefix 124 (trim_suffix 124 (trim_space text)))) ≡ cells)

pub parse_pipe_row-IsPipeRow :
    (text : String) (cells : List String)
    → (parse_pipe_row text ≡ some cells) ↔ IsPipeRow text cells
unfolding parse_pipe_row
parse_pipe_row-IsPipeRow text cells =
    between (starts_with 124 (trim_space text)) (ends_with 124 (trim_space text)) _
  where
    between :
        (a b : Bool) (row : List String)
        → ((if not (a && b) then none else some row) ≡ some cells)
          ↔ ((a ≡ true) × (b ≡ true) × (row ≡ cells))
    between true true row = (λ h. (refl, refl, cc h), λ h. ap some h.2)
    between true false row = (λ h. cc h, λ h. cc h.1)
    between false b row = (λ h. cc h, λ h. cc h.0)

parse_pipe_row_example : parse_pipe_row " | T1 |a  b|\t" ≡ some ("T1" ∷ "a  b" ∷ [])
unfolding parse_pipe_row
parse_pipe_row_example = refl
