-- ===== src/Program/Search.antt =====
-- internal/core/program.go, WouldCycle: what one call of the closure `dfs` leaves.
use specd.Prelude.{
  ℕ, zero, suc, ◌≤◌, ◌<◌, String, true, false, List, [], ◌∷◌, ◌++◌, ◌≡◌, ◌≢◌, refl, ◌∙◌, ◌⊎◌, inl,
  inr, arith, Bool-cases, String-cases, eq_iff, subst, mem,
}
use specd.Dag.Search.{Within, Within-nil, Within-cons, mem_self, mem_tail, mem-cons}
use specd.Dag.Fuel.{room, room-lt}
use specd.Program.{
  Program, Walked, Found, found, missed, out_of_fuel, drop_last, search_all, enter, leave, search,
  deps,
}

drop_last-snoc : (xs : List String) (x : String) → drop_last (xs ++ x ∷ []) ≡ xs
unfolding drop_last
drop_last-snoc [] x = refl
drop_last-snoc (y ∷ []) x = refl
drop_last-snoc (y ∷ z ∷ xs) x = rw (drop_last-snoc (z ∷ xs) x) refl

-- A larger set leaves less room.
room-Within : (ks vs ws : List String) → Within vs ws → room ks ws ≤ room ks vs
room-Within [] vs ws h = omega arith
room-Within (k ∷ ks) vs ws h = ground (arith, room-Within ks vs ws h, h k)

not_seen :
    (node : String) (visited : List String) {from : String}
    → node ≢ from
    → mem from visited ≡ false
    → mem from (node ∷ visited) ≡ false
unfolding mem
not_seen node visited {from} n h = ground (arith, eq_iff from node)

-- The paths along links from one spec.
pub data Trail (deps : String → List String) (start : String) : List String → String → Type 0 where
  one : Trail deps start (start ∷ []) start
  snoc :
      {path : List String} {a b : String}
      → Trail deps start path a
      → mem b (deps a) ≡ true
      → Trail deps start (path ++ b ∷ []) b

module _ (p : Program) (from to : String) (known : List String) where
  -- Each visited spec is open or has all its dependencies visited.
  abbrev pub IsClosed : (stack visited : List String) → Type 0
  IsClosed stack visited =
      (x : String) → mem x visited ≡ true → (mem x stack ≡ true) ⊎ Within (deps p x) visited

  -- What a search that finds nothing leaves.
  pub record IsKept (stack : List String) (w w' : Walked) : Type 0 where
    pub path : w'.path ≡ w.path
    pub more : Within w.visited w'.visited
    pub closed : IsClosed stack w'.visited
    pub unseen : mem from w'.visited ≡ false

  -- What a call of the search starts from.
  pub record IsReady (stack : List String) (w : Walked) (node : String) : Type 0 where
    pub trail : Trail (deps p) to (w.path ++ node ∷ []) node
    pub closed : IsClosed stack w.visited
    pub unseen : mem from w.visited ≡ false
    pub in_graph : mem node known ≡ true

  abbrev pub Good : (stack : List String) → Walked → String → Found → Type 0
  Good stack w node (found path) = Trail (deps p) to path from
  Good stack w node (missed w') = IsKept stack w w' × (mem node w'.visited ≡ true)
  Good stack w node out_of_fuel = ⊥

  abbrev GoodAll : (stack : List String) → Walked → List String → Found → Type 0
  GoodAll stack w ds (found path) = Trail (deps p) to path from
  GoodAll stack w ds (missed w') = IsKept stack w w' × Within ds w'.visited
  GoodAll stack w ds out_of_fuel = ⊥

  -- One more dependency before a loop.
  GoodAll-cons :
      (stack : List String) (w w' : Walked) (d : String) (ds : List String) (r : Found)
      → IsKept stack w w'
      → mem d w'.visited ≡ true
      → GoodAll stack w' ds r
      → GoodAll stack w (d ∷ ds) r
  GoodAll-cons stack w w' d ds (found path) k m g = g
  GoodAll-cons stack w w' d ds (missed v) k m (g, within) = (
    record {
      path = g.path ∙ k.path;
      more = λ x h. g.more x (k.more x h);
      closed = g.closed;
      unseen = g.unseen;
    },
    Within-cons d ds v.visited (g.more d m) within,
  )
  GoodAll-cons stack w w' d ds out_of_fuel k m g = g

  -- The loop after its first call.
  loop-step :
      (s : Walked → String → Found) (stack : List String) (w : Walked) (d : String)
      (ds : List String) (r : Found)
      → Good stack w d r
      → ((w' : Walked) → IsKept stack w w' → GoodAll stack w' ds (search_all s w' ds))
      → GoodAll stack w (d ∷ ds) (elim r [
        | found path ↦ found path
        | missed w' ↦ search_all s w' ds
        | out_of_fuel ↦ out_of_fuel
      ])
  loop-step s stack w d ds (found path) g next = g
  loop-step s stack w d ds (missed w') (k, m) next =
      GoodAll-cons stack w w' d ds (search_all s w' ds) k m (next w' k)
  loop-step s stack w d ds out_of_fuel g next = g

  abbrev Searches : (stack visited : List String) → (Walked → String → Found) → Type 0
  Searches stack visited s =
      (w : Walked) (d : String)
      → Within visited w.visited
      → IsReady stack w d
      → Good stack w d (s w d)

  search_all-GoodAll :
      (s : Walked → String → Found) (stack : List String) (node : String) (path : List String)
      (w : Walked) (ds : List String)
      → Searches stack w.visited s
      → w.path ≡ path
      → Trail (deps p) to path node
      → Within ds (deps p node)
      → Within ds known
      → IsClosed stack w.visited
      → mem from w.visited ≡ false
      → GoodAll stack w ds (search_all s w ds)
  unfolding search_all
  search_all-GoodAll s stack node path w [] hs q t e k c u =
      (record { path = refl; more = λ x h. h; closed = c; unseen = u }, Within-nil w.visited)
  search_all-GoodAll s stack node path w (d ∷ ds) hs q t e k c u =
      loop-step s stack w d ds (s w d)
        (hs w d (λ x h. h)
          (record {
            trail = rw q (snoc t (e d (mem_self d ds)));
            closed = c;
            unseen = u;
            in_graph = k d (mem_self d ds);
          }))
        (λ w' kept.
          search_all-GoodAll s stack node path w' ds
            (λ v b within ready. hs v b (λ x h. within x (kept.more x h)) ready) (kept.path ∙ q) t
            (λ x h. e x (mem_tail x d ds h)) (λ x h. k x (mem_tail x d ds h)) kept.closed
            kept.unseen)

  -- Entering a spec that was not visited.
  IsClosed-enter :
      (stack visited : List String) (node : String)
      → IsClosed stack visited
      → IsClosed (node ∷ stack) (node ∷ visited)
  IsClosed-enter stack visited node c x h = elim (mem-cons x node visited h) [
    | inl e ↦ inl (rw e (mem_self node stack))
    | inr m ↦ elim (c x m) [
      | inl o ↦ inl (mem_tail x node stack o)
      | inr within ↦ inr (λ y d. mem_tail y node visited (within y d))
    ]
  ]

  -- Leaving a spec whose dependencies were all visited.
  leave-Good :
      (stack : List String) (w : Walked) (node : String) (r : Found)
      → GoodAll (node ∷ stack) (enter node w) (deps p node) r
      → Good stack w node (leave r)
  unfolding leave
  leave-Good stack w node (found path) g = g
  leave-Good stack w node (missed v) (k, within) = (
    record {
      path = rw k.path (drop_last-snoc w.path node);
      more = λ x h. k.more x (mem_tail x node w.visited h);
      closed = λ x h. elim (k.closed x h) [
        | inl o ↦ elim (mem-cons x node stack o) [ inl e ↦ inr (rw e within) | inr m ↦ inl m ]
        | inr d ↦ inr d
      ];
      unseen = k.unseen;
    },
    k.more node (mem_self node w.visited),
  )
  leave-Good stack w node out_of_fuel g = g

  module _ (in_known : (x : String) → Within (deps p x) known) where
    pub search-Good :
        (fuel : ℕ) (stack : List String) (w : Walked) (node : String)
        → room known w.visited < fuel
        → IsReady stack w node
        → Good stack w node (search p from fuel w node)
    unfolding search
    search-Good zero stack w node lt ready = absurd (omega arith)
    search-Good (suc fuel) stack w node lt ready = elim (String-cases node from) [
      | inl (t, q) ↦ rw t (subst (λ x. Trail (deps p) to (w.path ++ node ∷ []) x) (q) ready.trail)
      | inr (t, n) ↦ elim (Bool-cases (mem node w.visited)) [
        | inl m ↦
            rw (t, m)
              (
                record {
                  path = refl;
                  more = λ x h. h;
                  closed = ready.closed;
                  unseen = ready.unseen;
                },
                m,
              )
        | inr m ↦
            rw (t, m)
              (leave-Good stack w node
                (search_all (search p from fuel) (enter node w) (deps p node))
                (search_all-GoodAll (search p from fuel) (node ∷ stack) node (w.path ++ node ∷ [])
                  (enter node w) (deps p node)
                  (λ v d within r.
                    search-Good fuel (node ∷ stack) v d
                      (omega (
                        arith,
                        room-lt known w.visited node ready.in_graph m,
                        room-Within known (node ∷ w.visited) v.visited within,
                      ))
                      r)
                  refl ready.trail (λ x h. h) (in_known node)
                  (IsClosed-enter stack w.visited node ready.closed)
                  (not_seen node w.visited n ready.unseen)))
      ]
    ]
