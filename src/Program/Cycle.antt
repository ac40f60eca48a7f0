-- ===== src/Program/Cycle.antt =====
-- internal/core/program.go, WouldCycle: the cycle that a new link would close.
use specd.Prelude.{
  ◌+◌, String, Bool, true, List, [], ◌∷◌, Option, none, some, ◌==◌, length, keep, mem,
  mem-sort_strings, ◌≡◌, ◌≢◌, refl, inl, inr, arith, Bool-cases, String-cases, subst, sym,
}
use specd.Dag.Search.{Within, mem_self, mem_tail}
use specd.Dag.Acyclic.{Walk, edge, step, not-mem-nil}
use specd.Dag.Fuel.{room-le-length}
use specd.Program.{
  Program, ProgramLink, Found, found, missed, out_of_fuel, targets, deps, search, would_cycle,
}
use specd.Program.Search.{Trail, one, IsClosed, Good, search-Good}

targets-keep :
    (q : ProgramLink → Bool) (links : List ProgramLink) (y : String)
    → mem y (targets (keep q links)) ≡ true
    → mem y (targets links) ≡ true
unfolding mem
targets-keep q [] y h = h
targets-keep q (link ∷ links) y h = elim (Bool-cases (q link)) [
  | inl e ↦ ground (arith, e, targets-keep q links y)
  | inr e ↦ ground (arith, e, targets-keep q links y)
]

deps-targets : (p : Program) (to x : String) → Within (deps p x) (to ∷ targets p.links)
unfolding deps
deps-targets p to x y h =
    mem_tail y to (targets p.links)
      (targets-keep (λ link. link.from == x) p.links y (rw (mem-sort_strings y _) at h))

length-targets : (links : List ProgramLink) → length (targets links) ≡ length links
length-targets [] = refl
length-targets (link ∷ links) = omega (arith, length-targets links)

-- What is visited in the end holds all that its members lead to.
Walk-closed :
    (p : Program) (from to : String) (known visited : List String) {x y : String}
    → IsClosed p from to known [] visited
    → mem x visited ≡ true
    → Walk (deps p) x y
    → mem y visited ≡ true
Walk-closed p from to known visited {x} {y} c m (edge e) = elim (c x m) [
  | inl o ↦ absurd (not-mem-nil x o)
  | inr within ↦ within y e
]
Walk-closed p from to known visited {x} c m (step {y = z} e walk) = elim (c x m) [
  | inl o ↦ absurd (not-mem-nil x o)
  | inr within ↦ Walk-closed p from to known visited c (within z e) walk
]

-- What a result of WouldCycle means: no way back where it is empty, and otherwise a path along the
-- links from the target to the source, behind the source.
abbrev pub IsAnswer : Program → (from to : String) → Option (List String) → Type 0
IsAnswer p from to none = ⊥
IsAnswer p from to (some []) = (from ≢ to) × ¬ Walk (deps p) to from
IsAnswer p from to (some (x ∷ path)) = (x ≡ from) × Trail (deps p) to path from

IsAnswer-Good :
    (p : Program) (from to : String) (known : List String) (r : Found)
    → from ≢ to
    → Good p from to known [] (record { visited = []; path = [] }) to r
    → IsAnswer p from to
        (elim r [ found path ↦ some (from ∷ path) | missed w ↦ some [] | out_of_fuel ↦ none ])
IsAnswer-Good p from to known (found path) n g = (refl, g)
IsAnswer-Good p from to known (missed w) n (k, m) =
    (n, λ walk. cc (Walk-closed p from to known w.visited k.closed m walk, k.unseen))
IsAnswer-Good p from to known out_of_fuel n g = g

-- WouldCycle always ends. It answers with nothing only where the specs differ and no path of links
-- leads from the target to the source, and otherwise with the source and such a path behind it.
pub would_cycle-IsAnswer :
    (p : Program) (from to : String) → IsAnswer p from to (would_cycle p from to)
unfolding would_cycle mem
would_cycle-IsAnswer p from to = elim (String-cases from to) [
  | inl (t, q) ↦ rw (t) (refl, subst (λ x. Trail (deps p) to (to ∷ []) x) (sym q) one)
  | inr (t, n) ↦ rw (t) (
      IsAnswer-Good p from to (to ∷ targets p.links)
        (search p from (length p.links + 2) (record { visited = []; path = [] }) to) n
        (search-Good p from to (to ∷ targets p.links) (deps-targets p to) (length p.links + 2) []
          (record { visited = []; path = [] }) to
          (omega (arith, room-le-length (to ∷ targets p.links) [], length-targets p.links))
          (record {
            trail = one;
            closed = λ x h. absurd (not-mem-nil x h);
            unseen = refl;
            in_graph = mem_self to (targets p.links);
          })))
]
