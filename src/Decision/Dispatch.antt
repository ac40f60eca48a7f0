-- ===== src/Decision/Dispatch.antt =====
-- internal/orchestration/decide.go and driver.go: when a task is dispatched, and which one.
use specd.Prelude.{
  String, true, false, List, [], ◌∷◌, Option, none, some, str_le, str_le-total, str_le_trans,
  str_le_refl, IsSortedBy, sort_by-IsSortedBy, sorted-All, All-sort_by, sort_by, ◌≡◌, ◌≢◌, refl,
  sym, ◌↔◌, ◌⊎◌, inl, inr, arith, Bool-cases, String-cases, List-cases, subst, All,
}
use specd.Frontier.Workers.{FrontierTask}
use specd.Lease.{Reclaim, escalation}
use specd.Decision.{
  Snapshot, DecisionLimits, Decision, Action, evaluate_brakes, decide, decide_dispatch, find_task,
  dispatch_frontier, id_le, lacks_worker, is_nil, ApprovalHandoff, dispatch_first, frontier_empty,
  is_unset_action, is_dispatch_action, measured_brakes, first_stop,
}

-- Nothing stops the controller: no brake, no escalation, the authority to dispatch, and a worker.
pub record IsFree (s : Snapshot) (limits : DecisionLimits) : Type 0 where
  pub no_brake : (evaluate_brakes s limits).action ≡ Action.unset
  pub no_escalation : (escalation s.leases limits.max_retries s.now).task_id ≡ ""
  pub authority : limits.allow_dispatch ≡ true
  pub worker : lacks_worker limits.workers ≡ false

-- A decision to dispatch is made for the least identifier of the frontier.
pub record Least (id : String) (frontier : List FrontierTask) : Type 0 where
  pub task : FrontierTask
  pub named : task.id ≡ id
  pub found : find_task frontier id ≡ some task
  pub least : All (λ t. str_le id t.id ≡ true) frontier

find_task-parts :
    (ts : List FrontierTask) (id : String)
    → ((t : FrontierTask) × (find_task ts id ≡ some t) × (t.id ≡ id)) ⊎ All (λ t. t.id ≢ id) ts
unfolding find_task
find_task-parts [] id = inr tt
find_task-parts (t ∷ ts) id = elim (String-cases t.id id) [
  | inl (e, q) ↦ rw e (inl (t, refl, q))
  | inr (e, q) ↦
      rw e (elim (find_task-parts ts id) [ inl found ↦ inl found | inr absent ↦ inr (q, absent) ])
]

-- The head of the sorted frontier is its least task, and the frontier has a task of that name.
sorted_head-Least :
    (frontier : List FrontierTask) (t : FrontierTask) (ts : List FrontierTask)
    → sort_by id_le frontier ≡ t ∷ ts
    → Least t.id frontier
sorted_head-Least frontier t ts e =
    let (_, into) = All-sort_by id_le (λ u. u.id ≢ t.id) frontier in
    let (out, _) = All-sort_by id_le (λ u. str_le t.id u.id ≡ true) frontier in
    let sorted : IsSortedBy id_le (t ∷ ts) =
      subst (IsSortedBy id_le) e
        (sort_by-IsSortedBy id_le (λ a b. str_le-total a.id b.id) frontier) in
    let below = sorted-All id_le (λ a b c. str_le_trans a.id b.id c.id) t ts sorted in
    elim (find_task-parts frontier t.id) [
      | inl (u, found, named) ↦ record {
        task = u;
        named = named;
        found = found;
        least = out (rw e (str_le_refl t.id, below));
      }
      | inr absent ↦ absurd ((rw e at (into absent)).0 refl)
    ]

frontier_empty-waits :
    (approval : Option ApprovalHandoff) → (frontier_empty approval).action ≢ Action.dispatch
frontier_empty-waits none h = cc
frontier_empty-waits (some a) h = cc

sorted-nil : (frontier : List FrontierTask) → sort_by id_le frontier ≡ [] → frontier ≡ []
sorted-nil frontier e = elim (List-cases frontier) [
  | inl nil ↦ nil
  | inr (x, xs, q) ↦
      absurd
        (subst (All (λ u. ⊥)) q
          ((All-sort_by id_le (λ u. ⊥) frontier).0 (subst (All (λ u. ⊥)) (sym e) tt))).0
]

-- A decision that dispatches the least task.
abbrev Chosen : Decision → List FrontierTask → Type 0
Chosen d frontier = (d.action ≡ Action.dispatch) × Least d.task_id frontier

abbrev MayDispatch : Snapshot → DecisionLimits → Type 0
MayDispatch s limits =
    (limits.allow_dispatch ≡ true) × (lacks_worker limits.workers ≡ false) × (s.frontier ≢ [])

decide_dispatch-nonempty :
    (s : Snapshot) (limits : DecisionLimits) (t : FrontierTask) (ts : List FrontierTask)
    → limits.allow_dispatch ≡ true
    → is_nil s.frontier ≡ false
    → lacks_worker limits.workers ≡ false
    → sort_by id_le s.frontier ≡ t ∷ ts
    → decide_dispatch s limits ≡ dispatch_first (t ∷ ts) limits.approval
unfolding decide_dispatch
decide_dispatch-nonempty s limits t ts a n w q = rw (a, n, w, q) refl

decide_dispatch-cases :
    (s : Snapshot) (limits : DecisionLimits)
    → ((decide_dispatch s limits).action ≢ Action.dispatch) × (MayDispatch s limits → ⊥)
      ⊎ MayDispatch s limits × Chosen (decide_dispatch s limits) s.frontier
unfolding decide_dispatch
decide_dispatch-cases s limits = elim (Bool-cases limits.allow_dispatch) [
  | inr a ↦ inl (rw a (λ h. cc), λ may. cc (may.0))
  | inl a ↦ elim (List-cases s.frontier) [
    | inl nil ↦ inl (rw (a, nil) (frontier_empty-waits limits.approval), λ may. may.2 nil)
    | inr (x, xs, k) ↦ elim (Bool-cases (lacks_worker limits.workers)) [
      | inl w ↦ inl (rw (a, k, w) (λ h. cc), λ may. cc (may.1))
      | inr w ↦ elim (List-cases (sort_by id_le s.frontier)) [
        | inl nil ↦ cc (k, sorted-nil s.frontier nil)
        | inr (t, ts, q) ↦
            let same = decide_dispatch-nonempty s limits t ts a (rw k refl) w q in
            inr (
              (a, w, λ e. cc (k, e)),
              subst (λ d. Chosen d s.frontier) (sym same)
                  (refl, sorted_head-Least s.frontier t ts q),
            )
      ]
    ]
  ]
]

measured_brakes-stop :
    (s : Snapshot) (limits : DecisionLimits) → (measured_brakes s limits).action ≢ Action.dispatch
unfolding measured_brakes
measured_brakes-stop s limits = ground arith

evaluate_brakes-stop :
    (s : Snapshot) (limits : DecisionLimits) → (evaluate_brakes s limits).action ≢ Action.dispatch
unfolding evaluate_brakes
evaluate_brakes-stop s limits = ground (arith, measured_brakes-stop s limits)

unset_of_test : (a : Action) → (is_unset_action a ≡ true) ↔ (a ≡ Action.unset)
unset_of_test a = ground arith

first_stop-dispatch :
    (brake : Decision) (reclaim : Reclaim) (rest : Decision)
    → brake.action ≢ Action.dispatch
    → (((first_stop brake reclaim rest).action ≡ Action.dispatch) ↔ (
        (brake.action ≡ Action.unset) × (reclaim.task_id ≡ "") × (rest.action ≡ Action.dispatch)))
      × ((first_stop brake reclaim rest).action ≡ Action.dispatch
          → first_stop brake reclaim rest ≡ rest)
unfolding first_stop
first_stop-dispatch brake reclaim rest stops = elim (Bool-cases (is_unset_action brake.action)) [
  | inr e ↦ rw e (
    (λ h. absurd (stops h), λ h. cc ((unset_of_test brake.action).1 h.0, e)),
    λ h. absurd (stops h),
  )
  | inl e ↦ elim (String-cases reclaim.task_id "") [
    | inl (t, q) ↦ rw (e, t) ((λ h. ((unset_of_test brake.action).0 e, q, h), λ h. h.2), λ h. refl)
    | inr (t, q) ↦ rw (e, t) ((λ h. cc, λ h. absurd (q h.1)), λ h. cc)
  ]
]

-- Decide dispatches exactly if nothing stops it and the frontier is not empty: no brake, no
-- escalation, the authority to dispatch, and a worker.
pub decide-IsFree :
    (s : Snapshot) (limits : DecisionLimits)
    → ((decide s limits).action ≡ Action.dispatch) ↔ (IsFree s limits × (s.frontier ≢ []))
unfolding decide
decide-IsFree s limits =
    let ((out, into), _) =
      first_stop-dispatch _ (escalation s.leases limits.max_retries s.now) _
        (evaluate_brakes-stop s limits) in
    elim (decide_dispatch-cases s limits) [
      | inl (waits, barred) ↦
          (λ h. absurd (waits (out h).2), λ h. absurd (barred (h.0.authority, h.0.worker, h.1)))
      | inr ((authority, worker, nonempty), (chosen, _)) ↦ (
        λ h. (
          record {
            no_brake = (out h).0;
            no_escalation = (out h).1;
            authority = authority;
            worker = worker;
          },
          nonempty,
        ),
        λ h. into (h.0.no_brake, h.0.no_escalation, chosen),
      )
    ]

-- When Decide dispatches, it is the task of the frontier with the least identifier.
pub decide-Least :
    (s : Snapshot) (limits : DecisionLimits)
    → (decide s limits).action ≡ Action.dispatch
    → Least (decide s limits).task_id s.frontier
unfolding decide
decide-Least s limits h =
    let ((out, _), same) =
      first_stop-dispatch _ (escalation s.leases limits.max_retries s.now) _
        (evaluate_brakes-stop s limits) in
    elim (decide_dispatch-cases s limits) [
      | inl (waits, _) ↦ absurd (waits (out h).2)
      | inr (_, (_, least)) ↦ subst (λ d. Least d.task_id s.frontier) (sym (same h)) least
    ]

dispatch_of_test : (a : Action) → (is_dispatch_action a ≡ true) ↔ (a ≡ Action.dispatch)
dispatch_of_test a = ground arith

-- DispatchFrontier always finds the task that Decide has selected: it answers with that decision, and
-- hands over the least task of the frontier exactly if the decision is to dispatch.
pub dispatch_frontier_complete :
    (s : Snapshot) (limits : DecisionLimits)
    → ((dispatch_frontier s limits).0 ≡ decide s limits)
      × (((decide s limits).action ≡ Action.dispatch) ↔ (
          (t : FrontierTask) × ((dispatch_frontier s limits).1 ≡ some t)
          × (t.id ≡ (decide s limits).task_id)))
unfolding dispatch_frontier
dispatch_frontier_complete s limits =
    elim (Bool-cases (is_dispatch_action (decide s limits).action)) [
      | inr e ↦
          rw e (refl, (λ h. cc ((dispatch_of_test (decide s limits).action).1 h, e), λ h. cc (h.1)))
      | inl e ↦
          let h = (dispatch_of_test (decide s limits).action).0 e in
          let least = decide-Least s limits h in
          rw (e, least.found) (refl, (λ _. (least.task, refl, least.named), λ _. h))
    ]
