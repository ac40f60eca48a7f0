-- ===== src/Dag/Search.antt =====
-- internal/core/dag.go, detectCycle: what one call of the depth-first search does to the marks. The
-- ids visited, newest first, are an order in which each id stands before its dependencies.
use specd.Prelude.{
  ℕ, zero, suc, String, true, false, List, [], ◌∷◌, ◌≡◌, refl, ◌⊎◌, inl, inr, arith, Bool-cases,
  mem, remove, remove_absent, eq_iff, eq_refl, ◌∙◌,
}
use specd.Task.{TaskRow}
use specd.Dag.{Result, ok, Marks, enter, leave, visit_all, visit, deps_of, >>=-ok}

-- Every text of the first list is in the second.
abbrev pub Within : List String → List String → Type 0
Within xs ys = (x : String) → mem x xs ≡ true → mem x ys ≡ true

pub Within-nil : (ys : List String) → Within [] ys
unfolding mem
Within-nil ys x h = cc

pub Within-cons :
    (x : String) (xs ys : List String) → mem x ys ≡ true → Within xs ys → Within (x ∷ xs) ys
unfolding mem
Within-cons x xs ys h w z m = ground (arith, eq_iff z x, w z)

pub mem_self : (x : String) (xs : List String) → mem x (x ∷ xs) ≡ true
unfolding mem
mem_self x xs = rw (eq_refl x)

pub mem_tail : (x y : String) (xs : List String) → mem x xs ≡ true → mem x (y ∷ xs) ≡ true
unfolding mem
mem_tail x y xs h = ground arith

pub mem-cons :
    (x y : String) (xs : List String) → mem x (y ∷ xs) ≡ true → (x ≡ y) ⊎ (mem x xs ≡ true)
unfolding mem
mem-cons x y xs h = ground (arith, eq_iff x y)

module _ (deps : String → List String) where
  -- Each id's dependencies stand behind it.
  abbrev pub IsTopo : List String → Type 0
  IsTopo [] = Unit
  IsTopo (v ∷ rest) = Within (deps v) rest × IsTopo rest

  -- What a successful call leaves: the same open ids, and more visited ids, still ordered.
  pub record Grows (m m' : Marks) : Type 0 where
    pub same : m'.visiting ≡ m.visiting
    pub more : Within m.visited m'.visited
    pub topo : IsTopo m.visited → IsTopo m'.visited

  pub Grows-refl : (m : Marks) → Grows m m
  Grows-refl m = record { same = refl; more = λ x h. h; topo = λ h. h }

  pub Grows-trans : (a b c : Marks) → Grows a b → Grows b c → Grows a c
  Grows-trans a b c g h = record {
    same = h.same ∙ g.same;
    more = λ x p. h.more x (g.more x p);
    topo = λ t. h.topo (g.topo t);
  }

  abbrev pub Visits : (Marks → String → Result Marks) → Type 0
  Visits v = (m m' : Marks) (id : String) → v m id ≡ ok m' → Grows m m' × (mem id m'.visited ≡ true)

  pub visit_all-Grows :
      (v : Marks → String → Result Marks) (ds : List String) (m m' : Marks)
      → Visits v
      → visit_all v m ds ≡ ok m'
      → Grows m m' × Within ds m'.visited
  unfolding visit_all
  visit_all-Grows v [] m m' hv h =
      let e : m ≡ m' = cc in rw (← e) (Grows-refl m, Within-nil m.visited)
  visit_all-Grows v (d ∷ ds) m m' hv h =
      let (a, first, rest) = >>=-ok (v m d) (λ k. visit_all v k ds) h in
      let (g, seen) = hv m a d first in
      let (g', within) = visit_all-Grows v ds a m' hv rest in
      (Grows-trans m a m' g g', Within-cons d ds m'.visited (g'.more d seen) within)

remove_head : (x : String) (xs : List String) → mem x xs ≡ false → remove x (x ∷ xs) ≡ xs
unfolding remove
remove_head x xs h = rw (eq_refl x) (remove_absent x xs h)

module _ (rows : List TaskRow) where
  -- Closing an id whose dependencies are all visited.
  leave-Grows :
      (m m' : Marks) (id : String)
      → mem id m.visiting ≡ false
      → Grows (deps_of rows) (enter id m) m' × Within (deps_of rows id) m'.visited
      → Grows (deps_of rows) m (leave id m') × (mem id (leave id m').visited ≡ true)
  unfolding leave
  leave-Grows m m' id closed (g, within) = (
    record {
      same = rw g.same (remove_head id m.visiting closed);
      more = λ x p. mem_tail x id m'.visited (g.more x p);
      topo = λ t. (within, g.topo t);
    },
    mem_self id m'.visited,
  )

  pub visit-Grows : (fuel : ℕ) → Visits (deps_of rows) (visit rows fuel)
  unfolding visit
  visit-Grows zero m m' id h = cc
  visit-Grows (suc fuel) m m' id h = elim (Bool-cases (mem id m.visiting)) [
    | inl e ↦ cc (rw e at h)
    | inr e ↦ elim (Bool-cases (mem id m.visited)) [
      | inl e' ↦
          let same : m ≡ m' = cc (rw (e, e') at h) in rw (← same) (Grows-refl (deps_of rows) m, e')
      | inr e' ↦
          let (a, below, ends) =
            >>=-ok (visit_all (visit rows fuel) (enter id m) (deps_of rows id))
              (λ k. ok (leave id k)) (rw (e, e') at h) in
          let left : leave id a ≡ m' = cc in
          rw (← left) (
            leave-Grows m a id e (
              visit_all-Grows (deps_of rows) (visit rows fuel) (deps_of rows id) (enter id m) a
                (visit-Grows fuel) below))
    ]
  ]
