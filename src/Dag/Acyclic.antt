-- ===== src/Dag/Acyclic.antt =====
-- internal/core/dag.go, detectCycle: what a cycle is, why an order of the ids excludes one, and that the
-- search reports a cycle only where there is one.
use specd.Prelude.{ℕ, zero, suc, String, true, List, [], ◌∷◌, ◌≡◌, ◌⊎◌, inl, inr, Bool-cases, mem}
use specd.Task.{TaskRow}
use specd.Dag.{
  Result, ok, err, DagError, cycle_at, out_of_fuel, Marks, enter, leave, visit_all, visit, deps_of,
  >>=-err,
}
use specd.Dag.Search.{Within, IsTopo, Visits, visit-Grows, mem_self, mem_tail, mem-cons}

-- A chain of dependencies that leads from one id to another.
pub data Walk (deps : String → List String) : String → String → Type 0 where
  edge : {x y : String} → mem y (deps x) ≡ true → Walk deps x y
  step : {x y z : String} → mem y (deps x) ≡ true → Walk deps y z → Walk deps x z

pub not-mem-nil : (x : String) → ¬ (mem x [] ≡ true)
unfolding mem
not-mem-nil x h = cc

module _ (deps : String → List String) where
  Walk-snoc : {x y z : String} → Walk deps x y → mem z (deps y) ≡ true → Walk deps x z
  Walk-snoc (edge e) f = step e (edge f)
  Walk-snoc (step e w) f = step e (Walk-snoc w f)

  pub Walk-starts : {x y : String} → Walk deps x y → ¬ (deps x ≡ [])
  Walk-starts {x} (edge {y = y} e) h = not-mem-nil y (rw h at e)
  Walk-starts {x} (step {y = y} e w) h = not-mem-nil y (rw h at e)

  -- In an ordered list the dependencies of a member are members.
  IsTopo-deps :
      (l : List String) (x y : String)
      → IsTopo deps l
      → mem x l ≡ true
      → mem y (deps x) ≡ true
      → mem y l ≡ true
  IsTopo-deps [] x y t m d = absurd (not-mem-nil x m)
  IsTopo-deps (v ∷ rest) x y t m d = elim (mem-cons x v rest m) [
    | inl e ↦ mem_tail y v rest (t.0 y (rw e at d))
    | inr m' ↦ mem_tail y v rest (IsTopo-deps rest x y t.1 m' d)
  ]

  IsTopo-Walk :
      (l : List String) {x y : String}
      → IsTopo deps l
      → mem x l ≡ true
      → Walk deps x y
      → mem y l ≡ true
  IsTopo-Walk l {x} {y} t m (edge e) = IsTopo-deps l x y t m e
  IsTopo-Walk l {x} t m (step {y = w} e walk) = IsTopo-Walk l t (IsTopo-deps l x w t m e) walk

  Walk-end :
      (l : List String) {x y : String}
      → Within (deps x) l
      → IsTopo deps l
      → Walk deps x y
      → mem y l ≡ true
  Walk-end l {x} {y} h t (edge e) = h y e
  Walk-end l h t (step {y = w} e walk) = IsTopo-Walk l t (h w e) walk

  -- No member of an ordered list leads back to itself.
  pub IsTopo-acyclic :
      (l : List String) {x : String} → IsTopo deps l → mem x l ≡ true → ¬ Walk deps x x
  IsTopo-acyclic [] {x} t m w = not-mem-nil x m
  IsTopo-acyclic (v ∷ rest) {x} t m w = elim (mem-cons x v rest m) [
    | inl e ↦ IsTopo-acyclic rest t.1 (Walk-end rest (rw e t.0) t.1 w) w
    | inr m' ↦ IsTopo-acyclic rest t.1 m' w
  ]

  abbrev pub Leads : String → List String → Type 0
  Leads v [] = Unit
  Leads v (w ∷ _) = mem v (deps w) ≡ true

  -- The open ids, innermost first: each is a dependency of the next.
  abbrev pub IsPath : List String → Type 0
  IsPath [] = Unit
  IsPath (v ∷ rest) = Leads v rest × IsPath rest

  path-Walk :
      (l : List String) (x v : String) → IsPath l → Leads v l → mem x l ≡ true → Walk deps x v
  path-Walk [] x v p h m = absurd (not-mem-nil x m)
  path-Walk (w ∷ rest) x v p h m = elim (mem-cons x w rest m) [
    | inl e ↦ rw e (edge h)
    | inr m' ↦ Walk-snoc (path-Walk rest x w p.1 p.0 m') h
  ]

  -- A call fails because its fuel is used up, or at an id that leads back to itself.
  abbrev pub IsHonest : DagError → Type 0
  IsHonest e = (e ≡ out_of_fuel) ⊎ ((c : String) × (e ≡ cycle_at c) × Walk deps c c)

  abbrev pub Honest : (Marks → String → Result Marks) → Type 0
  Honest v =
      (m : Marks) (id : String) (e : DagError)
      → IsPath m.visiting
      → Leads id m.visiting
      → v m id ≡ err e
      → IsHonest e

  pub visit_all-Honest :
      (v : Marks → String → Result Marks) (ds : List String) (m : Marks) (e : DagError)
      → Visits deps v
      → Honest v
      → IsPath m.visiting
      → ((d : String) → mem d ds ≡ true → Leads d m.visiting)
      → visit_all v m ds ≡ err e
      → IsHonest e
  unfolding visit_all
  visit_all-Honest v [] m err_e hv hh p l h = cc
  visit_all-Honest v (d ∷ ds) m err_e hv hh p l h =
      elim (>>=-err (v m d) (λ k. visit_all v k ds) h) [
        | inl first ↦ hh m d err_e p (l d (mem_self d ds)) first
        | inr (a, first, rest) ↦
            let same = (hv m a d first).0.same in
            visit_all-Honest v ds a err_e hv hh (rw same p)
              (λ z mz. rw same (l z (mem_tail z d ds mz))) rest
      ]

module _ (rows : List TaskRow) where
  pub visit-Honest : (fuel : ℕ) → Honest (deps_of rows) (visit rows fuel)
  unfolding visit
  visit-Honest zero m id err_e p l h = inl (cc)
  visit-Honest (suc fuel) m id err_e p l h = elim (Bool-cases (mem id m.visiting)) [
    | inl e ↦ inr (id, cc (rw e at h), path-Walk (deps_of rows) m.visiting id id p l e)
    | inr e ↦ elim (Bool-cases (mem id m.visited)) [
      | inl e' ↦ cc (rw (e, e') at h)
      | inr e' ↦
          elim (>>=-err (visit_all (visit rows fuel) (enter id m) (deps_of rows id))
            (λ k. ok (leave id k)) (rw (e, e') at h)) [
              | inl below ↦
                  visit_all-Honest (deps_of rows) (visit rows fuel) (deps_of rows id) (enter id m)
                    err_e (visit-Grows rows fuel) (visit-Honest fuel) (l, p) (λ d md. md) below
              | inr (a, _, ends) ↦ cc
            ]
    ]
  ]
