-- ===== src/Evidence/Quality.antt =====
-- internal/core/task_complete.go: the evidence and the task row that complete a task.
use specd.Prelude.{
  not-false, String, Bool, true, false, not, ◌&&◌, List, [], ◌∷◌, All, Option, none, some, ◌==◌,
  if◌then◌else◌, ◌≡◌, ◌≢◌, refl, subst, sym, ◌∙◌, ◌↔◌, ◌⊎◌, inl, inr, arith, Option-cases, eq_iff,
  test_of_ne, ne_of_test, pos, same_int, same_int_iff,
}
use specd.Markdown.{split_after}
use specd.Task.Rewrite.{Rewritten, written, not_written, rewrite_task_status_line}
use specd.Task.Marked.{Marked}
use specd.Task.Found.{rewrite_task_status_line_iff}
use specd.Evidence.Met.{IsMet, quality_iff}
use specd.Evidence.{EvidenceRecord, EvidenceStatusType, evidence_status, head_pinned}
use specd.Evidence.Contract.{
  Completion, completed, refused, completion_of, EvidenceEnvelopeV1, FreshnessSubject,
  EvidenceRequirement, QualityContract, evaluate_quality, CompletionError, verify_evidence_ready,
  status_error, refused_by, complete_task_with_quality, quality_task_mismatch, evidence_missing,
  evidence_stale,
}

-- A record that completes: it names a task, ran its tests, is pinned to a commit, and exited with 0.
pub record IsPassing (r : EvidenceRecord) : Type 0 where
  pub named : r.task_id ≢ ""
  pub tested : r.zero_test_detected ≡ false
  pub committed : r.git_head ≢ ""
  pub known : r.git_head ≢ "unknown"
  pub exited : r.exit_code ≡ pos 0

passing_guard :
    (b : Bool) (status rest : EvidenceStatusType)
    → status ≢ EvidenceStatusType.passing
    → (if b then status else rest) ≡ EvidenceStatusType.passing
    → (b ≡ false) × (rest ≡ EvidenceStatusType.passing)
passing_guard true status rest n h = absurd (n h)
passing_guard false status rest n h = (refl, h)

pinned_iff : (head : String) → (head_pinned head ≡ true) ↔ ((head ≢ "") × (head ≢ "unknown"))
unfolding head_pinned
pinned_iff head = ground (arith, eq_iff head "", eq_iff head "unknown")

-- EvidenceStatus answers `passing` exactly for a record that completes.
pub evidence_status-IsPassing :
    (r : EvidenceRecord) → (evidence_status r ≡ EvidenceStatusType.passing) ↔ IsPassing r
unfolding evidence_status
evidence_status-IsPassing r = (
  λ h.
      let (named, h1) = passing_guard (r.task_id == "") _ _ (λ q. cc) h in
      let (tested, h2) = passing_guard r.zero_test_detected _ _ (λ q. cc) h1 in
      let (pinned, h3) = passing_guard (not (head_pinned r.git_head)) _ _ (λ q. cc) h2 in
      let (exited, _) = passing_guard (not (same_int r.exit_code (pos 0))) _ _ (λ q. cc) h3 in
      let (committed, known) = (pinned_iff r.git_head).0 (not-false _ pinned) in
      record {
        named = ne_of_test r.task_id "" named;
        tested = tested;
        committed = committed;
        known = known;
        exited = (same_int_iff r.exit_code (pos 0)).0 (not-false _ exited);
      },
  λ p.
      rw
        (
          test_of_ne r.task_id "" p.named,
          p.tested,
          (pinned_iff r.git_head).1 (p.committed, p.known),
          (same_int_iff r.exit_code (pos 0)).1 p.exited,
        )
        refl,
)

only_passing :
    (task_id : String) (status : EvidenceStatusType)
    → (status_error task_id status ≡ none) ↔ (status ≡ EvidenceStatusType.passing)
unfolding status_error
only_passing task_id status = ground arith

verify_found :
    (task_id : String) (records : String → Option EvidenceRecord) (r : EvidenceRecord)
    → records task_id ≡ some r
    → verify_evidence_ready task_id records ≡ status_error task_id (evidence_status r)
unfolding verify_evidence_ready
verify_found task_id records r e = rw (e, verify_evidence_ready) refl

ready_iff :
    (task_id : String) (records : String → Option EvidenceRecord)
    → (verify_evidence_ready task_id records ≡ none)
      ↔ ((r : EvidenceRecord) × (records task_id ≡ some r) × IsPassing r)
unfolding verify_evidence_ready
ready_iff task_id records = elim (Option-cases (records task_id)) [
  | inl absent ↦ (λ h. cc (rw (absent, verify_evidence_ready) at h), λ (r, e, _). cc (absent, e))
  | inr (r, e) ↦
      let (passing, status) = evidence_status-IsPassing r in
      let (out, into) = only_passing task_id (evidence_status r) in
      let found = verify_found task_id records r e in
      (
        λ h. (r, e, passing (out (sym found ∙ h))),
        λ (r', same, p).
            found ∙ into (status (subst IsPassing (some_injective r r' (sym e ∙ same)) p)),
      )
]
  where
    some_injective : (a b : EvidenceRecord) → some a ≡ some b → b ≡ a
    some_injective a b e = cc

guard_completed :
    (b : Bool) (e : CompletionError) (rest : Completion) (out : String)
    → ((if b then refused e else rest) ≡ completed out) ↔ ((b ≡ false) × (rest ≡ completed out))
guard_completed true e rest out = (λ h. cc, λ h. cc)
guard_completed false e rest out = (λ h. (refl, h), λ h. h.1)

refused_by-completed :
    (error : List EvidenceRequirement → CompletionError) (qs : List EvidenceRequirement)
    (rest : Completion) (out : String)
    → (refused_by error qs rest ≡ completed out) ↔ ((qs ≡ []) × (rest ≡ completed out))
refused_by-completed error [] rest out = (λ h. (refl, h), λ h. h.1)
refused_by-completed error (q ∷ qs) rest out = (λ h. cc, λ h. cc h.0)

completion_of-completed :
    (r : Rewritten) (out : String) → (completion_of r ≡ completed out) ↔ (r ≡ written out)
completion_of-completed (written tasks) out = (λ h. cc, λ h. cc)
completion_of-completed (not_written e) out = (λ h. cc, λ h. cc)

-- What completes a task: a verification record that passes, a quality contract for no task or for this
-- one, and for each requirement a fresh passing record.
pub record MayComplete (task_id : String) (records : String → Option EvidenceRecord)
    (c : QualityContract) (evals : List EvidenceEnvelopeV1) (s : FreshnessSubject) : Type 0 where
  pub verification : EvidenceRecord
  pub recorded : records task_id ≡ some verification
  pub passing : IsPassing verification
  pub contract : (c.task_id ≡ "") ⊎ (c.task_id ≡ task_id)
  pub quality : All (IsMet c s evals) c.required

-- CompleteTaskWithQuality completes a task exactly if there is a passing verification record of it that
-- is pinned to a commit, the contract is for this task or for none, each requirement has a passing record
-- that agrees with what the subject declares, and one line of tasks.md and only one is a row of the task.
-- The new tasks.md is the old one with the check mark in that row; in every other case it refuses.
pub complete_task_with_quality-exact :
    (raw task_id : String) (records : String → Option EvidenceRecord) (c : QualityContract)
    (evals : List EvidenceEnvelopeV1) (s : FreshnessSubject) (out : String)
    → (complete_task_with_quality raw task_id records c evals s ≡ completed out)
      ↔ (MayComplete task_id records c evals s × Marked task_id "✅" (split_after 10 raw) out)
unfolding complete_task_with_quality evaluate_quality
complete_task_with_quality-exact raw task_id records c evals s out =
    let (ready, verified) = ready_iff task_id records in
    let (quality, met) = quality_iff c evals s c.required in
    let rewritten = rewrite_task_status_line raw task_id "✅" in
    let (of_task, mismatch) =
      guard_completed (not (c.task_id == "") && not (c.task_id == task_id))
        (quality_task_mismatch c.task_id task_id) _ out in
    let (none_missing, missing) =
      refused_by-completed (evidence_missing task_id) (evaluate_quality c evals s).missing _ out in
    let (none_stale, stale) =
      refused_by-completed (evidence_stale task_id) (evaluate_quality c evals s).stale
        (completion_of rewritten) out in
    let (done, doing) = completion_of-completed rewritten out in
    let (marked, marking) = rewrite_task_status_line_iff raw task_id "✅" out in
    let (same_task, other_task) = contract_iff c.task_id task_id in
    elim (Option-cases (verify_evidence_ready task_id records)) [
      | inr (e, q) ↦
          rw (q, complete_task_with_quality)
            (λ h. cc, λ (may, _). cc (q, verified (may.verification, may.recorded, may.passing)))
      | inl q ↦
          rw (q, complete_task_with_quality)
            (
              λ h.
                  let (r, recorded, passing) = ready q in
                  let (ours, h1) = of_task h in
                  let (m, h2) = none_missing h1 in
                  let (st, h3) = none_stale h2 in
                  (
                    record {
                      verification = r;
                      recorded = recorded;
                      passing = passing;
                      contract = same_task ours;
                      quality = quality (m, st);
                    },
                    marked (done h3),
                  ),
              λ (may, row).
                  let (m, st) = met may.quality in
                  mismatch (other_task may.contract, missing (m, stale (st, doing (marking row)))),
            )
    ]
  where
    contract_iff : (a b : String) → ((not (a == "") && not (a == b)) ≡ false) ↔ ((a ≡ "") ⊎ (a ≡ b))
    contract_iff a b = ground (arith, eq_iff a "", eq_iff a b)
