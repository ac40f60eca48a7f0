-- ===== src/Evidence/Timeline.antt =====
-- internal/core/escalation.go: the merged timeline that ConsecutiveVerifyFails counts over.
use specd.Prelude.{
  ℕ, ◌≤◌, String, Bool, true, false, ◌&&◌, List, [], ◌∷◌, ◌++◌, map, keep, ◌==◌, eqb, ◌≡◌, ◌≢◌,
  refl, ap, ◌⊎◌, inl, inr, arith, Bool-cases, eq_iff, pos, same_int, str_le, str_le-total, sort_by,
  sort_by-perm, sort_by-IsSortedBy, keep-sort_by, IsSortedBy, Perm,
}
use specd.Evidence.{
  Event, EvidenceRecord, OverrideRecord, timeline, verify_events, override_events, event_le,
}

-- What a verification adds to the timeline.
abbrev pub verified : EvidenceRecord → Event
verified r = record {
  ts = r.timestamp;
  sub = 0;
  reset = false;
  pass = same_int r.exit_code (pos 0);
}

-- What an override adds to the timeline.
abbrev pub overridden : OverrideRecord → Event
overridden o = record { ts = o.timestamp; sub = 1; reset = true; pass = false }

-- The task's verifications and then its overrides, each as they were recorded.
abbrev pub events_of : List EvidenceRecord → List OverrideRecord → String → List Event
events_of evidence overrides task_id =
    map verified (keep (λ r. r.task_id == task_id) evidence)
    ++ map overridden (keep (λ o. o.task_id == task_id) overrides)

-- The earlier time stamp comes first, and at one stamp the verifications before the overrides.
abbrev pub InOrder : Event → Event → Type 0
InOrder a b = (a.ts ≡ b.ts) × (a.sub ≤ b.sub) ⊎ (a.ts ≢ b.ts) × (str_le a.ts b.ts ≡ true)

abbrev pub IsOrdered : List Event → Type 0
IsOrdered [] = Unit
IsOrdered (a ∷ []) = Unit
IsOrdered (a ∷ b ∷ es) = InOrder a b × IsOrdered (b ∷ es)

abbrev pub stands_at : (ts : String) → (sub : ℕ) → Event → Bool
stands_at ts sub e = e.ts == ts && eqb e.sub sub

-- The timeline of a task: its verifications and overrides and nothing else, by time, and those that
-- time does not tell apart as they were recorded.
pub record IsTimeline (evidence : List EvidenceRecord) (overrides : List OverrideRecord)
    (task_id : String) (events : List Event) : Type 0 where
  pub content : Perm events (events_of evidence overrides task_id)
  pub ordered : IsOrdered events
  pub stable :
      (ts : String) (sub : ℕ)
      → keep (stands_at ts sub) events
        ≡ keep (stands_at ts sub) (events_of evidence overrides task_id)

event_le-InOrder : (a b : Event) → event_le a b ≡ true → InOrder a b
event_le-InOrder a b h = ground (arith, eq_iff a.ts b.ts)

event_le-total : (a b : Event) → event_le a b ≡ false → event_le b a ≡ true
event_le-total a b h = ground (arith, eq_iff a.ts b.ts, eq_iff b.ts a.ts, str_le-total a.ts b.ts)

sorted-IsOrdered : (es : List Event) → IsSortedBy event_le es → IsOrdered es
sorted-IsOrdered [] h = tt
sorted-IsOrdered (a ∷ []) h = tt
sorted-IsOrdered (a ∷ b ∷ es) h = (event_le-InOrder a b h.0, sorted-IsOrdered (b ∷ es) h.1)

event_le-alike :
    (ts : String) (sub : ℕ) (a b : Event)
    → stands_at ts sub a ≡ true
    → stands_at ts sub b ≡ true
    → event_le a b ≡ true
event_le-alike ts sub a b h k = ground (arith, eq_iff a.ts ts, eq_iff b.ts ts, eq_iff a.ts b.ts)

verify_events-map :
    (es : List EvidenceRecord) (task_id : String)
    → verify_events es task_id ≡ map verified (keep (λ r. r.task_id == task_id) es)
unfolding verify_events
verify_events-map [] task_id = refl
verify_events-map (e ∷ es) task_id = elim (Bool-cases (e.task_id == task_id)) [
  | inl q ↦ rw q (ap (λ xs. verified e ∷ xs) (verify_events-map es task_id))
  | inr q ↦ rw q (verify_events-map es task_id)
]

override_events-map :
    (os : List OverrideRecord) (task_id : String)
    → override_events os task_id ≡ map overridden (keep (λ o. o.task_id == task_id) os)
unfolding override_events
override_events-map [] task_id = refl
override_events-map (o ∷ os) task_id = elim (Bool-cases (o.task_id == task_id)) [
  | inl q ↦ rw q (ap (λ xs. overridden o ∷ xs) (override_events-map os task_id))
  | inr q ↦ rw q (override_events-map os task_id)
]

-- The code's events are those of the task.
events_of-merged :
    (evidence : List EvidenceRecord) (overrides : List OverrideRecord) (task_id : String)
    → verify_events evidence task_id ++ override_events overrides task_id
      ≡ events_of evidence overrides task_id
events_of-merged evidence overrides task_id =
    λ i. verify_events-map evidence task_id i ++ override_events-map overrides task_id i

pub timeline-IsTimeline :
    (evidence : List EvidenceRecord) (overrides : List OverrideRecord) (task_id : String)
    → IsTimeline evidence overrides task_id (timeline evidence overrides task_id)
unfolding timeline
timeline-IsTimeline evidence overrides task_id =
    rw (events_of-merged evidence overrides task_id) (record {
      content = sort_by-perm event_le (events_of evidence overrides task_id);
      ordered =
          sorted-IsOrdered (sort_by event_le (events_of evidence overrides task_id))
            (sort_by-IsSortedBy event_le event_le-total (events_of evidence overrides task_id));
      stable = λ ts sub.
          keep-sort_by event_le (stands_at ts sub) (event_le-alike ts sub)
            (events_of evidence overrides task_id);
    })
