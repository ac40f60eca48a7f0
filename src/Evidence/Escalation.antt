-- ===== src/Evidence/Escalation.antt =====
-- internal/core/escalation.go: what the failure count counts, and what clears it.
use specd.Prelude.{
  ℕ, suc, ◌+◌, ◌≤◌, String, Bool, true, false, not, ◌&&◌, ◌||◌, List, [], ◌∷◌, ◌++◌, All, length,
  ◌≡◌, refl, ap, subst, negsuc, ◌<◌, sym, ◌↔◌, ◌⊎◌, inl, inr, arith, Bool-cases, ltb, ℤ, pos,
}
use specd.Task.{TaskRow}
use specd.Evidence.Timeline.{IsTimeline, timeline-IsTimeline}
use specd.Evidence.{
  Event, EvidenceRecord, OverrideRecord, count_fails, timeline, consecutive_verify_fails,
  is_escalated, escalated_counts,
}

abbrev pub clears : Event → Bool
clears e = e.reset || e.pass

-- The events end in a run of exactly `n` failures, right after an event that clears the count.
pub record AfterClear (events : List Event) (n : ℕ) : Type 0 where
  pub earlier : List Event
  pub last : Event
  pub run : List Event
  pub parts : events ≡ earlier ++ last ∷ run
  pub cleared : clears last ≡ true
  pub failures : All (λ e. clears e ≡ false) run
  pub run_length : length run ≡ n

AfterClear-cons : (e : Event) (es : List Event) (n : ℕ) → AfterClear es n → AfterClear (e ∷ es) n
AfterClear-cons e es n after = record {
  earlier = e ∷ after.earlier;
  last = after.last;
  run = after.run;
  parts = ap (λ xs. e ∷ xs) after.parts;
  cleared = after.cleared;
  failures = after.failures;
  run_length = after.run_length;
}

-- Either nothing clears the count, and every event adds to it, or it counts the run after the last
-- event that does.
count_fails-run :
    (es : List Event) (count : ℕ)
    → All (λ e. clears e ≡ false) es × (count_fails count es ≡ count + length es)
      ⊎ AfterClear es (count_fails count es)
unfolding count_fails
count_fails-run [] count = inl (tt, omega arith)
count_fails-run (e ∷ es) count = elim (Bool-cases (clears e)) [
  | inl c ↦ elim (count_fails-run es 0) [
    | inl (failing, n) ↦ inr (
        rw c (record {
          earlier = [];
          last = e;
          run = es;
          parts = refl;
          cleared = c;
          failures = failing;
          run_length = omega (arith, n);
        }))
    | inr after ↦ inr (rw c (AfterClear-cons e es _ after))
  ]
  | inr c ↦ elim (count_fails-run es (suc count)) [
    | inl (failing, n) ↦ inl ((c, failing), rw c (omega (arith, n)))
    | inr after ↦ inr (rw c (AfterClear-cons e es _ after))
  ]
]

-- The timeline of a task holds its verifications and overrides and nothing else, by time stamp, at one
-- stamp the overrides last, and what these do not tell apart as it was recorded. ConsecutiveVerifyFails
-- counts the failing verifications that stand at its end, after the last passing one or override: all of
-- the timeline if there is none of these.
pub consecutive_verify_fails-trailing :
    (evidence : List EvidenceRecord) (overrides : List OverrideRecord) (task_id : String)
    → IsTimeline evidence overrides task_id (timeline evidence overrides task_id)
      × (All (λ e. clears e ≡ false) (timeline evidence overrides task_id)
            × (consecutive_verify_fails evidence overrides task_id
                ≡ length (timeline evidence overrides task_id))
          ⊎ AfterClear
              (timeline evidence overrides task_id)
              (consecutive_verify_fails evidence overrides task_id))
unfolding consecutive_verify_fails
consecutive_verify_fails-trailing evidence overrides task_id = (
  timeline-IsTimeline evidence overrides task_id,
  elim (count_fails-run (timeline evidence overrides task_id) 0) [
    | inl (failing, n) ↦ inl (failing, omega (arith, n))
    | inr after ↦ inr after
  ],
)

-- An entry of the map.
abbrev pub IsEntry : String → ℕ → List (String × ℕ) → Type 0
IsEntry id n [] = ⊥
IsEntry id n ((k, m) ∷ rest) = ((k ≡ id) × (m ≡ n)) ⊎ IsEntry id n rest

-- A row of a task list with that identifier.
abbrev pub IsTask : String → List TaskRow → Type 0
IsTask id [] = ⊥
IsTask id (t ∷ ts) = (t.id ≡ id) ⊎ IsTask id ts

is_escalated_iff :
    (n : ℕ) (max_fails : ℤ)
    → (is_escalated n max_fails ≡ true) ↔ ((m : ℕ) × (max_fails ≡ pos m) × (0 < m) × (m ≤ n))
unfolding is_escalated
is_escalated_iff n (pos k) = (
  λ h. (k, refl, escalated_lt n k h, escalated_le n k h),
  λ (m, e, lt, le). let same : k ≡ m = pos_injective k m e in rw same (ground arith),
)
  where
    escalated_lt : (n k : ℕ) → (ltb 0 k && not (ltb n k)) ≡ true → 0 < k
    escalated_lt n k h = ground arith

    escalated_le : (n k : ℕ) → (ltb 0 k && not (ltb n k)) ≡ true → k ≤ n
    escalated_le n k h = ground arith

    pos_injective : (k m : ℕ) → pos k ≡ pos m → k ≡ m
    pos_injective k m e = cc
is_escalated_iff n (negsuc k) = (λ h. cc, λ (m, e, _, _). cc e)

-- EscalatedCounts names exactly the tasks whose failure count has reached a positive limit, with that
-- count; a limit of 0 or less escalates none.
pub escalated_counts-exact :
    (evidence : List EvidenceRecord) (overrides : List OverrideRecord) (tasks : List TaskRow)
    (max_fails : ℤ) (id : String) (n : ℕ)
    → IsEntry id n (escalated_counts evidence overrides tasks max_fails) ↔ (
        IsTask id tasks
        × (consecutive_verify_fails evidence overrides id ≡ n)
        × ((m : ℕ) × (max_fails ≡ pos m) × (0 < m) × (m ≤ n)))
unfolding escalated_counts
escalated_counts-exact evidence overrides [] max_fails id n = (λ h. absurd h, λ h. absurd h.0)
escalated_counts-exact evidence overrides (t ∷ ts) max_fails id n =
    let (out, into) = escalated_counts-exact evidence overrides ts max_fails id n in
    let count = consecutive_verify_fails evidence overrides t.id in
    let (limit, reached) = is_escalated_iff n max_fails in
    elim (Bool-cases (is_escalated count max_fails)) [
      | inl e ↦ rw e (
        λ h. elim h [
          | inl (q, c) ↦ (
            inl q,
            subst (λ i. consecutive_verify_fails evidence overrides i ≡ n) q c,
            limit (subst (λ k. is_escalated k max_fails ≡ true) c e),
          )
          | inr rest ↦ let (known, c, held) = out rest in (inr known, c, held)
        ],
        λ (known, c, held). elim known [
          | inl q ↦
              inl (q, subst (λ i. consecutive_verify_fails evidence overrides i ≡ n) (sym q) c)
          | inr later ↦ inr (into (later, c, held))
        ],
      )
      | inr e ↦ rw e (
        λ h. let (known, c, held) = out h in (inr known, c, held),
        λ (known, c, held). elim known [
          | inl q ↦
              let same : count ≡ n =
                subst (λ i. consecutive_verify_fails evidence overrides i ≡ n) (sym q) c in
              cc (e, reached held, same)
          | inr later ↦ into (later, c, held)
        ],
      )
    ]
