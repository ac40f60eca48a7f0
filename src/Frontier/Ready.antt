-- ===== src/Frontier/Ready.antt =====
-- internal/core/frontier.go, ProjectTaskStates: what it takes for a task to be runnable.
use specd.Prelude.{
  String, Bool, true, false, List, [], ◌∷◌, ◌++◌, ◌≡◌, refl, ◌⊎◌, inl, inr, keep, mem, sort_by,
  insert_by, arith, Bool-cases, &&-parts, List-cases,
}
use specd.Task.{TaskRow, TaskActivity}
use specd.Dag.Search.{mem-cons, mem_self, mem_tail}
use specd.Dag.Acyclic.{not-mem-nil}
use specd.Frontier.{
  Readiness, readiness_priority, WaitReason, FactMap, is_pending, runnable, dep_kind, is_incomplete,
  is_unresolved, dep_kind_of, dependency_incomplete, dependency_terminal, unless_nil, wait_le,
  first_readiness, project_state,
}

-- A dependency that holds nothing up: completed, or ended with its acceptance covered elsewhere.
abbrev pub IsSettled : (activity : String → TaskActivity) → FactMap → String → Type 0
IsSettled activity facts d =
    (activity d ≡ TaskActivity.completed)
    ⊎ ((activity d ≡ TaskActivity.cancelled) ⊎ (activity d ≡ TaskActivity.superseded))
      × ((facts d).coverage_resolved ≡ true)

dep_kind-settled :
    (a : TaskActivity) (r : Bool)
    → is_incomplete (dep_kind a r) ≡ false
    → is_unresolved (dep_kind a r) ≡ false
    → (a ≡ TaskActivity.completed)
      ⊎ ((a ≡ TaskActivity.cancelled) ⊎ (a ≡ TaskActivity.superseded)) × (r ≡ true)
unfolding dep_kind
dep_kind-settled a r h k = ground arith

settled-dep_kind :
    (a : TaskActivity) (r : Bool)
    → (a ≡ TaskActivity.completed)
      ⊎ ((a ≡ TaskActivity.cancelled) ⊎ (a ≡ TaskActivity.superseded)) × (r ≡ true)
    → (is_incomplete (dep_kind a r) ≡ false) × (is_unresolved (dep_kind a r) ≡ false)
unfolding dep_kind
settled-dep_kind a r h = ground arith

keep-nil :
    (p : String → Bool) (ds : List String) (d : String)
    → keep p ds ≡ []
    → mem d ds ≡ true
    → p d ≡ false
keep-nil p [] d e m = absurd (not-mem-nil d m)
keep-nil p (x ∷ xs) d e m = elim (Bool-cases (p x)) [
  | inl t ↦ cc (rw t at e)
  | inr t ↦ elim (mem-cons d x xs m) [
    | inl same ↦ rw same t
    | inr rest ↦ keep-nil p xs d (rw t at e) rest
  ]
]

nil-keep :
    (p : String → Bool) (ds : List String)
    → ((d : String) → mem d ds ≡ true → p d ≡ false)
    → keep p ds ≡ []
nil-keep p [] h = refl
nil-keep p (x ∷ xs) h = rw (h x (mem_self x xs)) (nil-keep p xs (λ d m. h d (mem_tail d x xs m)))

-- The dependency waits come first and hold the task, whatever is recorded by hand.
sorted_head :
    (w : WaitReason) (ws : List WaitReason)
    → readiness_priority w.readiness ≡ 0
    → first_readiness (sort_by wait_le (w ∷ ws)) ≡ w.readiness
unfolding sort_by insert_by
sorted_head w ws e = elim (List-cases (sort_by wait_le ws)) [
  | inl h ↦ rw h
  | inr (v, rest, h) ↦ rw (h, insert_by) (ground arith)
]

pub pending_of_test : (a : TaskActivity) → is_pending a ≡ true → a ≡ TaskActivity.pending
pending_of_test a h = ground arith

waits_split :
    (left ended : List String)
    → (left ≡ []) × (ended ≡ [])
      ⊎ ((w : WaitReason) × (ws : List WaitReason) × (unless_nil left (dependency_incomplete left)
              ++ unless_nil ended (dependency_terminal ended)
            ≡ w ∷ ws)
          × (w.readiness ≡ Readiness.waiting_dependency))
waits_split [] [] = inl (refl, refl)
waits_split [] (e ∷ es) = inr (dependency_terminal (e ∷ es), [], refl, refl)
waits_split (l ∷ ls) ended = inr (dependency_incomplete (l ∷ ls), _, refl, refl)

module _ (task : TaskRow) (activity : String → TaskActivity) (facts : FactMap) where
  abbrev left : List String
  left = keep (λ d. is_incomplete (dep_kind_of activity facts d)) task.depends_on

  abbrev ended : List String
  ended = keep (λ d. is_unresolved (dep_kind_of activity facts d)) task.depends_on

  -- Only a pending task whose dependencies are all settled is runnable.
  pub runnable-IsSettled :
      runnable (project_state task activity facts) ≡ true
      → (activity task.id ≡ TaskActivity.pending)
        × ((d : String) → mem d task.depends_on ≡ true → IsSettled activity facts d)
  unfolding runnable project_state readiness_priority
  runnable-IsSettled h = elim (waits_split left ended) [
    | inl (no_left, no_ended) ↦ (
      pending_of_test (activity task.id) (&&-parts (is_pending (activity task.id)) _ h).0,
      λ d m.
          dep_kind-settled (activity d) (facts d).coverage_resolved
            (keep-nil (λ z. is_incomplete (dep_kind_of activity facts z)) task.depends_on d no_left
              m)
            (keep-nil (λ z. is_unresolved (dep_kind_of activity facts z)) task.depends_on d no_ended
              m),
    )
    | inr (w, ws, e, held) ↦
        let head = sorted_head w (ws ++ (facts task.id).waits) (rw held) in
        cc (rw (e, head, held) at (&&-parts (is_pending (activity task.id)) _ h).1)
  ]

  -- Without waits recorded by hand that is enough.
  pub settled-runnable :
      (facts task.id).waits ≡ []
      → activity task.id ≡ TaskActivity.pending
      → ((d : String) → mem d task.depends_on ≡ true → IsSettled activity facts d)
      → runnable (project_state task activity facts) ≡ true
  unfolding runnable project_state
  settled-runnable no_waits pending settled =
      let no_left =
        nil-keep (λ z. is_incomplete (dep_kind_of activity facts z)) task.depends_on
          (λ d m. (settled-dep_kind (activity d) (facts d).coverage_resolved (settled d m)).0) in
      let no_ended =
        nil-keep (λ z. is_unresolved (dep_kind_of activity facts z)) task.depends_on
          (λ d m. (settled-dep_kind (activity d) (facts d).coverage_resolved (settled d m)).1) in
      rw (pending, no_left, no_ended, no_waits) refl
