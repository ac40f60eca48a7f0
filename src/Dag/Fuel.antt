-- ===== src/Dag/Fuel.antt =====
-- internal/core/dag.go, detectCycle: the recursion is no deeper than the number of tasks, since each
-- nested call opens one more id.
use specd.Prelude.{
  ℕ, zero, suc, ◌≤◌, ◌<◌, String, true, false, List, [], ◌∷◌, ◌≡◌, refl, ◌≢◌, arith, Bool-cases,
  mem, eq_iff, length, inl, inr, ◌∙◌, if◌then◌else◌,
}
use specd.Task.{TaskRow}
use specd.Dag.{
  Result, ok, err, out_of_fuel, Marks, enter, leave, visit_all, visit, deps_of, >>=-err,
}
use specd.Dag.Search.{Within, Visits, visit-Grows, mem_self, mem_tail}

-- The known ids that are not open.
abbrev pub room : (known visiting : List String) → ℕ
room [] vis = 0
room (k ∷ ks) vis = if mem k vis then room ks vis else suc (room ks vis)

room-le : (ks vis : List String) (id : String) → room ks (id ∷ vis) ≤ room ks vis
unfolding mem
room-le [] vis id = omega arith
room-le (k ∷ ks) vis id = ground (arith, room-le ks vis id)

-- Opening a known id that is closed takes one place.
pub room-lt :
    (ks vis : List String) (id : String)
    → mem id ks ≡ true
    → mem id vis ≡ false
    → room ks (id ∷ vis) < room ks vis
unfolding mem
room-lt [] vis id k c = cc
room-lt (k ∷ ks) vis id h c =
    ground (arith, room-lt ks vis id, room-le ks vis id, eq_iff id k, eq_iff k id)

pub room-le-length : (ks vis : List String) → room ks vis ≤ length ks
room-le-length [] vis = omega arith
room-le-length (k ∷ ks) vis = ground (arith, room-le-length ks vis)

module _ (known : List String) where
  abbrev Ends : List String → (Marks → String → Result Marks) → Type 0
  Ends visiting v =
      (m : Marks) (d : String)
      → m.visiting ≡ visiting
      → mem d known ≡ true
      → v m d ≢ err out_of_fuel

  pub visit_all-Ends :
      (deps : String → List String) (v : Marks → String → Result Marks) (ds : List String)
      (m : Marks)
      → Visits deps v
      → Ends m.visiting v
      → Within ds known
      → visit_all v m ds ≢ err out_of_fuel
  unfolding visit_all
  visit_all-Ends deps v [] m hv he w h = cc
  visit_all-Ends deps v (d ∷ ds) m hv he w h = elim (>>=-err (v m d) (λ k. visit_all v k ds) h) [
    | inl first ↦ he m d refl (w d (mem_self d ds)) first
    | inr (a, first, rest) ↦
        let same = (hv m a d first).0.same in
        visit_all-Ends deps v ds a hv (λ k z e. he k z (e ∙ same))
          (λ z mz. w z (mem_tail z d ds mz)) rest
  ]

  module _ (rows : List TaskRow) (closed : (x : String) → Within (deps_of rows x) known) where
    pub visit-Ends :
        (fuel : ℕ) (m : Marks) (id : String)
        → mem id known ≡ true
        → room known m.visiting < fuel
        → visit rows fuel m id ≢ err out_of_fuel
    unfolding visit
    visit-Ends zero m id k lt h = absurd (omega arith)
    visit-Ends (suc fuel) m id k lt h = elim (Bool-cases (mem id m.visiting)) [
      | inl e ↦ cc (rw e at h)
      | inr e ↦ elim (Bool-cases (mem id m.visited)) [
        | inl e' ↦ cc (rw (e, e') at h)
        | inr e' ↦
            elim (>>=-err (visit_all (visit rows fuel) (enter id m) (deps_of rows id))
              (λ j. ok (leave id j)) (rw (e, e') at h)) [
                | inl below ↦
                    visit_all-Ends (deps_of rows) (visit rows fuel) (deps_of rows id) (enter id m)
                      (visit-Grows rows fuel)
                      (λ a d same kd.
                        visit-Ends fuel a d kd
                          (rw same (omega (arith, room-lt known m.visiting id k e))))
                      (closed id) below
                | inr (a, _, ends) ↦ cc
              ]
      ]
    ]
