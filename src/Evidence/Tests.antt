-- ===== src/Evidence/Tests.antt =====
-- internal/core/escalation.go and task_complete.go: the theorems at one task.
use specd.Prelude.{
  ℕ, ◌≤◌, ◌<◌, String, false, List, [], ◌∷◌, All, length, Option, none, some, refl, ◌==◌,
  if◌then◌else◌, ◌≡◌, ◌↔◌, ◌⊎◌, pos,
}
use specd.Task.{TaskRow}
use specd.Dag.Samples.{row}
use specd.Markdown.{split_after}
use specd.Task.Marked.{Marked}
use specd.Evidence.{EvidenceRecord, timeline, consecutive_verify_fails, escalated_counts}
use specd.Evidence.Contract.{
  EvidenceEnvelopeV1, EvalVerdict, completed, refused, evidence_missing, evidence_stale,
  QualityContract, FreshnessSubject, complete_task_with_quality,
}
use specd.Evidence.Timeline.{IsTimeline}
use specd.Evidence.Escalation.{
  clears, AfterClear, IsEntry, IsTask, consecutive_verify_fails-trailing, escalated_counts-exact,
}
use specd.Evidence.Quality.{MayComplete, complete_task_with_quality-exact}

abbrev id : String
id = "T1"

abbrev failed : EvidenceRecord
failed = record {
  task_id = id;
  command = "go test ./...";
  exit_code = pos 1;
  git_head = "abc";
  evidence_ref = "";
  context_receipt_digest = "";
  timestamp = "2030-01-02T00:00:00Z";
  actor = "dev";
  attempt = pos 1;
  plan_revision = pos 0;
  scope_revision = pos 0;
  zero_test_detected = false;
}

abbrev passed : EvidenceRecord
passed = record failed { exit_code = pos 0; timestamp = "2030-01-01T00:00:00Z" }

abbrev log : List EvidenceRecord
log = failed ∷ passed ∷ failed ∷ []

consecutive_verify_fails-trailing_example :
    IsTimeline log [] id (timeline log [] id)
    × (All (λ e. clears e ≡ false) (timeline log [] id)
          × (consecutive_verify_fails log [] id ≡ length (timeline log [] id))
        ⊎ AfterClear (timeline log [] id) (consecutive_verify_fails log [] id))
consecutive_verify_fails-trailing_example = consecutive_verify_fails-trailing log [] id

abbrev plan : List TaskRow
plan = row id [] ∷ []

escalated_counts-exact_example : IsEntry id 2 (escalated_counts log [] plan (pos 2)) ↔ (
    IsTask id plan
    × (consecutive_verify_fails log [] id ≡ 2)
    × ((m : ℕ) × (pos 2 ≡ pos m) × (0 < m) × (m ≤ 2)))
escalated_counts-exact_example = escalated_counts-exact log [] plan (pos 2) id 2

abbrev records : String → Option EvidenceRecord
records task_id = if task_id == id then some passed else none

abbrev contract : QualityContract
contract = record {
  task_id = id;
  verify = "";
  required = record { evidence_class = "review"; check_id = "r1" } ∷ [];
  checks = [];
}

abbrev subject : FreshnessSubject
subject = record {
  revision = "abc";
  diff_digest = "";
  output_digest = "";
  dataset_digest = "";
  rubric_digest = "";
  trace_digest = "";
}

abbrev review : EvidenceEnvelopeV1
review = record {
  schema_version = "1";
  evidence_id = "e1";
  evidence_class = "review";
  spec_slug = "s";
  task_id = id;
  run_id = "r";
  attempt = pos 1;
  subject_revision = "abc";
  diff_digest = "";
  producer = "tool";
  producer_version = "1";
  config_digest = "";
  check_id = "r1";
  verdict = EvalVerdict.pass;
  created_at = "2030-01-01T00:00:00Z";
  actor = "dev";
  artifact_ref = "";
  artifact_digest = "";
  dataset_digest = "";
  rubric_digest = "";
  output_digest = "";
  trace_digest = "";
  required_steps = [];
  forbidden_steps = [];
}

abbrev tasks_md : String
tasks_md = "| T1 | dev |\n| T2 | dev |\n"

abbrev marked_md : String
marked_md = "| ✅ T1 | dev |\n| T2 | dev |\n"

program : Unit {0}
unfolding complete_task_with_quality
program = tt

review-completed :
    complete_task_with_quality tasks_md id records contract (review ∷ []) subject
    ≡ completed marked_md
unfolding program
review-completed = refl

no_review-refused :
    complete_task_with_quality tasks_md id records contract [] subject
    ≡ refused (evidence_missing id (contract.required))
unfolding program
no_review-refused = refl

old_review-refused :
    complete_task_with_quality tasks_md id records contract
      (record review { subject_revision = "old" } ∷ [])
      subject
    ≡ refused (evidence_stale id (contract.required))
unfolding program
old_review-refused = refl

complete_task_with_quality-exact_example :
    (complete_task_with_quality tasks_md id records contract (review ∷ []) subject
      ≡ completed marked_md)
    ↔ (MayComplete id records contract (review ∷ []) subject
        × Marked id "✅" (split_after 10 tasks_md) marked_md)
complete_task_with_quality-exact_example =
    complete_task_with_quality-exact tasks_md id records contract (review ∷ []) subject marked_md
