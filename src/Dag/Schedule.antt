-- ===== src/Dag/Schedule.antt =====
-- internal/core/dag.go, TopologicalWaves: the loop ends with a schedule of all tasks.
use specd.Prelude.{
  ℕ, zero, suc, ◌≤◌, ◌<◌, String, true, false, not, List, [], ◌∷◌, ◌++◌, ◌≡◌, refl, ◌≢◌, arith,
  Bool-cases, mem, length, inl, inr, ◌⊎◌, sym, sort_strings, sort_strings-IsSorted,
  mem-sort_strings, IsSorted, List-cases, mem-append,
}
use specd.Task.{TaskRow}
use specd.Dag.{
  ok, TaskDag, deps_of, ids, wave_of, remove_all, waves_from, topological_waves, new_task_dag,
}
use specd.Dag.Search.{Within, IsTopo, mem_self, mem_tail, mem-cons}
use specd.Dag.Acyclic.{not-mem-nil}
use specd.Dag.Index.{IsKeyed, IsClosed, IsClosed-deps, length-ids}
use specd.Dag.Waves.{IsReady, wave_of-IsReady, wave_of-ready, mem-remove_all, length-remove_all-lt}
use specd.Dag.Build.{new_task_dag-IsDag, new_task_dag-IsTopo}

abbrev pub flat : List (List String) → List String
flat [] = []
flat (w ∷ ws) = w ++ flat ws

-- A wave may start when all its dependencies are in earlier waves, and has no task of an earlier wave.
pub record MayStart (deps : String → List String) (done wave : List String) : Type 0 where
  pub sorted : IsSorted wave
  pub inhabited : wave ≢ []
  pub fresh : (x : String) → mem x wave ≡ true → mem x done ≡ false
  pub met : (x : String) → mem x wave ≡ true → Within (deps x) done

abbrev pub IsSchedule : (String → List String) → List String → List (List String) → Type 0
IsSchedule deps done [] = Unit
IsSchedule deps done (w ∷ ws) = MayStart deps done w × IsSchedule deps (w ++ done) ws

-- Some member of the list is open, or none is.
some_open :
    (l remaining : List String)
    → ((z : String) × (mem z l ≡ true) × (mem z remaining ≡ true))
      ⊎ ((z : String) → mem z l ≡ true → mem z remaining ≡ false)
some_open [] remaining = inr (λ z m. absurd (not-mem-nil z m))
some_open (v ∷ rest) remaining = elim (Bool-cases (mem v remaining)) [
  | inl e ↦ inl (v, mem_self v rest, e)
  | inr e ↦ elim (some_open rest remaining) [
    | inl (z, m, r) ↦ inl (z, mem_tail z v rest m, r)
    | inr none_open ↦
        inr (λ z m. elim (mem-cons z v rest m) [ inl ez ↦ rw ez e | inr mz ↦ none_open z mz ])
  ]
]

-- Of the open ids the one that stands last in an order has no open dependency.
pub first_ready :
    (deps : String → List String) (l remaining : List String) (x : String)
    → IsTopo deps l
    → mem x l ≡ true
    → mem x remaining ≡ true
    → (y : String) × (mem y remaining ≡ true)
      × ((d : String) → mem d (deps y) ≡ true → mem d remaining ≡ false)
first_ready deps [] remaining x t m r = absurd (not-mem-nil x m)
first_ready deps (v ∷ rest) remaining x t m r = elim (some_open rest remaining) [
  | inl (z, mz, rz) ↦ first_ready deps rest remaining z t.1 mz rz
  | inr none_open ↦ elim (mem-cons x v rest m) [
    | inl e ↦ (v, rw e at r, λ d md. none_open d (t.0 d md))
    | inr mx ↦ cc (none_open x mx, r)
  ]
]

module _ (tasks : List TaskRow) (keyed : IsKeyed tasks) where
  -- Before each round: the open ids are tasks, and no task is open and done, or neither.
  record Inv (remaining done : List String) : Type 0 where
    known : Within remaining (ids tasks)
    split : (x : String) → mem x (ids tasks) ≡ true → mem x done ≡ not (mem x remaining)

  module _ (remaining done : List String) (inv : Inv remaining done) (id : String)
      (more : List String) (found : wave_of tasks remaining done ≡ id ∷ more) where
    abbrev wave : List String
    wave = sort_strings (id ∷ more)

    in_wave : mem id wave ≡ true
    in_wave = rw mem-sort_strings (mem_self id more)

    wave-IsReady : (x : String) → mem x wave ≡ true → IsReady tasks remaining done x
    wave-IsReady x m =
        wave_of-IsReady tasks remaining done x keyed (rw found (rw mem-sort_strings at m))

    wave-MayStart : MayStart (deps_of tasks) done wave
    wave-MayStart = record {
      sorted = sort_strings-IsSorted (id ∷ more);
      inhabited = λ e. not-mem-nil id (rw e at in_wave);
      fresh = λ x m. let (a, b, _) = wave-IsReady x m in rw (inv.split x a, b);
      met = λ x m. (wave-IsReady x m).2;
    }

    Inv-next : Inv (remove_all wave remaining) (wave ++ done)
    Inv-next = record {
      known = λ x m. inv.known x (ground (arith, mem-remove_all x wave remaining));
      split = λ x m.
          ground (arith, mem-append x wave done, mem-remove_all x wave remaining, inv.split x m);
    }

    wave-shrinks : length (remove_all wave remaining) < length remaining
    wave-shrinks = length-remove_all-lt id wave remaining in_wave (wave-IsReady id in_wave).1

    -- The waves from here hold the open ids.
    mem-flat :
        (ws : List (List String)) (x : String)
        → mem x (flat ws) ≡ mem x (remove_all wave remaining)
        → mem x (flat (wave ∷ ws)) ≡ mem x remaining
    mem-flat ws x h = elim (Bool-cases (mem x wave)) [
      | inl e ↦ rw (mem-append, e) (sym (wave-IsReady x e).1)
      | inr e ↦ rw (mem-append, e, h, mem-remove_all, e)
    ]

  module _ (closed : IsClosed tasks tasks) (order : List String)
      (topo : IsTopo (deps_of tasks) order) (full : Within (ids tasks) order) where
    -- A round finds a task as long as one is open.
    wave-inhabited :
        (r : String) (rs done : List String)
        → Inv (r ∷ rs) done
        → (id : String) × (more : List String) × (wave_of tasks (r ∷ rs) done ≡ id ∷ more)
    wave-inhabited r rs done inv =
        let known_r = inv.known r (mem_self r rs) in
        let (y, open_y, clear) =
          first_ready (deps_of tasks) order (r ∷ rs) r topo (full r known_r) (mem_self r rs) in
        let met : Within (deps_of tasks y) done =
          λ d m. rw (inv.split d (IsClosed-deps tasks tasks y closed d m), clear d m) in
        let found = wave_of-ready tasks (r ∷ rs) done y keyed (inv.known y open_y, open_y, met) in
        elim (List-cases (wave_of tasks (r ∷ rs) done)) [
          | inl e ↦ absurd (not-mem-nil y (rw e at found))
          | inr (id, more, e) ↦ (id, more, e)
        ]

    abbrev Outcome : ℕ → (remaining done : List String) → Type 0
    Outcome fuel remaining done =
        (ws : List (List String)) × (waves_from fuel tasks remaining done ≡ ok ws)
        × IsSchedule (deps_of tasks) done ws
        × ((x : String) → mem x (flat ws) ≡ mem x remaining)

    waves_from-total :
        (fuel : ℕ) (remaining done : List String)
        → Inv remaining done
        → length remaining ≤ fuel
        → Outcome fuel remaining done
    unfolding waves_from
    waves_from-total fuel [] done inv h = ([], refl, tt, λ x. refl)
    waves_from-total zero (r ∷ rs) done inv h = absurd (omega arith)
    waves_from-total (suc fuel) (r ∷ rs) done inv h =
        let (id, more, found) = wave-inhabited r rs done inv in
        let next = sort_strings (id ∷ more) in
        let (ws, e, schedule, holds) =
          waves_from-total fuel (remove_all next (r ∷ rs)) (next ++ done)
            (Inv-next (r ∷ rs) done inv id more found)
            (omega (arith, wave-shrinks (r ∷ rs) done inv id more found)) in
        (
          next ∷ ws,
          rw (found, waves_from, e),
          (wave-MayStart (r ∷ rs) done inv id more found, schedule),
          λ x. mem-flat (r ∷ rs) done inv id more found ws x (holds x),
        )

-- On every graph that NewTaskDAG accepts, TopologicalWaves ends without an error. Each wave is sorted
-- and not empty, holds no task of an earlier wave, and its tasks depend only on tasks of earlier waves;
-- the waves together hold exactly the tasks of the graph.
pub topological_waves-IsSchedule :
    (tasks : List TaskRow) (dag : TaskDag)
    → new_task_dag tasks ≡ ok dag
    → (ws : List (List String)) × (topological_waves dag ≡ ok ws)
      × IsSchedule (deps_of tasks) [] ws
      × ((x : String) → mem x (flat ws) ≡ mem x (ids tasks))
unfolding topological_waves mem
topological_waves-IsSchedule tasks dag h =
    let (d, same, _) = new_task_dag-IsDag tasks dag h in
    let (order, topo, full) = new_task_dag-IsTopo tasks dag h in
    let start : Inv tasks d.keyed (ids tasks) [] = record {
      known = λ x m. m;
      split = λ x m. rw m;
    } in
    rw same (
      waves_from-total tasks d.keyed d.closed order topo full (length tasks) (ids tasks) [] start
        (omega (arith, length-ids tasks)))
