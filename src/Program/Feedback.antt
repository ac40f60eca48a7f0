-- ===== src/Program/Feedback.antt =====
-- internal/core/program.go, AddFeedbackLink: what a feedback link presupposes, and what it changes.
use specd.Prelude.{
  String, Bool, true, false, not, ◌&&◌, List, [], ◌∷◌, ◌++◌, Option, none, some, ◌==◌,
  if◌then◌else◌, ◌≡◌, ◌≢◌, refl, ◌⊎◌, inl, inr, not-false, ne_of_test,
}
use specd.Dag.Acyclic.{Walk}
use specd.Slug.{valid_slug}
use specd.Program.{
  LinkKind, ProgramLink, Program, LinkError, Linked, linked, refused, valid_kind, same_kind,
  link_between, deps, would_cycle, would_create_cycle, add_typed_link, add_new_link, link_conflict,
}
use specd.Program.Status.{add_feedback_link}
use specd.Program.Cycle.{IsAnswer, would_cycle-IsAnswer}
use specd.Program.Links.{add_new_link-parts}

abbrev feedback : String → String → String → ProgramLink
feedback successor source reason = record {
  from = successor;
  to = source;
  kind = LinkKind.maintains;
  reason = reason;
}

-- A guard that refuses.
guarded :
    (b : Bool) (e : LinkError) (rest : Linked) (p : Program)
    → (if b then refused e else rest) ≡ linked p
    → (b ≡ false) × (rest ≡ linked p)
guarded true e rest p h = cc
guarded false e rest p h = (refl, h)

appends :
    (p p' : Program) (from to : String) (kind : LinkKind) (reason : String)
    → add_typed_link p from to kind reason ≡ linked p'
    → (p' ≡ p)
      ⊎ (p'.links ≡ p.links ++ record { from = from; to = to; kind = kind; reason = reason } ∷ [])
unfolding add_typed_link
appends p p' from to kind reason h =
    let (_, ha) = guarded (not (valid_slug from)) _ _ p' h in
    let (_, hb) = guarded (not (valid_slug to)) _ _ p' ha in
    let (_, hc) = guarded (not (valid_kind kind)) _ _ p' hb in
    found_or_new (link_between p.links from to) hc
  where
    unchanged :
        (same : Bool)
        → (if same then linked p else refused (link_conflict from to)) ≡ linked p'
        → p' ≡ p
    unchanged true k = cc
    unchanged false k = cc

    found_or_new :
        (o : Option ProgramLink)
        → elim o [
          | none ↦ add_new_link p from to kind reason
          | some link ↦
              if same_kind link.kind kind && link.reason == reason
              then linked p
              else refused (link_conflict from to)
        ]
          ≡ linked p'
        → (p' ≡ p)
          ⊎ (p'.links
              ≡ p.links ++ record { from = from; to = to; kind = kind; reason = reason } ∷ [])
    found_or_new none k =
        let (_, _, q) = add_new_link-parts p p' from to kind reason k in inr (rw (← q) refl)
    found_or_new (some link) k =
        inl (unchanged (same_kind link.kind kind && link.reason == reason) k)

-- Only an empty answer of the cycle search lets the link through.
searched :
    (p p' : Program) (from to : String) (o : Option (List String)) (rest : Linked)
    → IsAnswer p from to o
    → elim o [
      | none ↦ refused (would_create_cycle [])
      | some [] ↦ rest
      | some (x ∷ path) ↦ refused (would_create_cycle (x ∷ path))
    ]
      ≡ linked p'
    → ((from ≢ to) × ¬ Walk (deps p) to from) × (rest ≡ linked p')
searched p p' from to none rest a h = cc
searched p p' from to (some []) rest a h = (a, h)
searched p p' from to (some (x ∷ path)) rest a h = cc

-- AddFeedbackLink succeeds only with a reason, from a spec that is not complete to another one that
-- is, where no path of links leads from the source to the successor; and it leaves the links as they
-- were, or with the new one behind them.
pub add_feedback_link-safe :
    (p p' : Program) (successor source reason : String) (complete : String → Bool)
    → add_feedback_link p successor source reason complete ≡ linked p'
    → (reason ≢ "")
      × (complete source ≡ true)
      × (complete successor ≡ false)
      × ((successor ≢ source) × ¬ Walk (deps p) source successor)
      × ((p' ≡ p) ⊎ (p'.links ≡ p.links ++ feedback successor source reason ∷ []))
unfolding add_feedback_link
add_feedback_link-safe p p' successor source reason complete h =
    let (_, ha) = guarded (not (valid_slug successor)) _ _ p' h in
    let (_, hb) = guarded (not (valid_slug source)) _ _ p' ha in
    let (r, hc) = guarded (reason == "") _ _ p' hb in
    let (s, hd) = guarded (not (complete source)) _ _ p' hc in
    let (t, he) = guarded (complete successor) _ _ p' hd in
    let (free, hf) =
      searched p p' successor source (would_cycle p successor source) _
        (would_cycle-IsAnswer p successor source) he in
    (
      ne_of_test _ _ r,
      not-false _ s,
      t,
      free,
      appends p p' successor source LinkKind.maintains reason hf,
    )
