-- ===== src/Evidence/Contract.antt =====
-- internal/core/evidence_freshness.go and task_complete.go: the quality contract of a task, and its
-- completion.
use Prim.Native.String.{◌++◌ as ◌<>◌}
use specd.Prelude.{
  String, Bool, true, false, not, ◌&&◌, ◌||◌, List, [], ◌∷◌, Option, none, some, ◌==◌, any, keep,
  if◌then◌else◌, ℤ,
}
use specd.Task.Rewrite.{RewriteError, Rewritten, written, not_written, rewrite_task_status_line}
use specd.Evidence.{EvidenceRecord, EvidenceStatusType, evidence_status}

pub data EvalVerdict : Type 0 where
  pass fail insufficient : EvalVerdict
  other : String → EvalVerdict

abbrev pub is_pass : EvalVerdict → Bool
is_pass EvalVerdict.pass = true
is_pass _ = false

-- Score, a float that nothing here reads, is left out.
pub record EvidenceEnvelopeV1 : Type 0 where
  pub schema_version : String
  pub evidence_id : String
  pub evidence_class : String
  pub spec_slug : String
  pub task_id : String
  pub run_id : String
  pub attempt : ℤ
  pub subject_revision : String
  pub diff_digest : String
  pub producer : String
  pub producer_version : String
  pub config_digest : String
  pub check_id : String
  pub verdict : EvalVerdict
  pub created_at : String
  pub actor : String
  pub artifact_ref : String
  pub artifact_digest : String
  pub dataset_digest : String
  pub rubric_digest : String
  pub output_digest : String
  pub trace_digest : String
  pub required_steps : List String
  pub forbidden_steps : List String

pub record FreshnessSubject : Type 0 where
  pub revision : String
  pub diff_digest : String
  pub output_digest : String
  pub dataset_digest : String
  pub rubric_digest : String
  pub trace_digest : String

pub record EvidenceRequirement : Type 0 where
  pub evidence_class : String
  pub check_id : String

pub record QualityContract : Type 0 where
  pub task_id : String
  pub verify : String
  pub required : List EvidenceRequirement
  pub checks : List String

-- `want != "" && have != want`.
abbrev pub disagrees : (have want : String) → Bool
disagrees have want = not (want == "") && not (have == want)

unfoldable pub record_fresh : EvidenceEnvelopeV1 → FreshnessSubject → Bool
record_fresh e s =
    if disagrees e.subject_revision s.revision
    then false
    else not (
        disagrees e.diff_digest s.diff_digest
        || disagrees e.output_digest s.output_digest
        || disagrees e.dataset_digest s.dataset_digest
        || disagrees e.rubric_digest s.rubric_digest
        || disagrees e.trace_digest s.trace_digest)

abbrev pub envelope_key : EvidenceEnvelopeV1 → String
envelope_key r = r.evidence_class <> ("/" <> r.check_id)

abbrev pub requirement_key : EvidenceRequirement → String
requirement_key r = r.evidence_class <> ("/" <> r.check_id)

-- A passing record that counts for the contract's task.
abbrev pub is_counted : QualityContract → EvidenceEnvelopeV1 → Bool
is_counted c r = is_pass r.verdict && (c.task_id == "" || r.task_id == c.task_id)

-- The entries of the maps `anyPass` and `freshPass`.
unfoldable pub any_pass : QualityContract → List EvidenceEnvelopeV1 → String → Bool
any_pass c records key = any (λ r. is_counted c r && envelope_key r == key) records

unfoldable pub fresh_pass :
    QualityContract → List EvidenceEnvelopeV1 → FreshnessSubject → String → Bool
unfolding record_fresh
fresh_pass c records s key =
    any (λ r. is_counted c r && envelope_key r == key && record_fresh r s) records

pub record QualityStatus : Type 0 where
  pub missing : List EvidenceRequirement
  pub stale : List EvidenceRequirement

unfoldable pub evaluate_quality :
    QualityContract → List EvidenceEnvelopeV1 → FreshnessSubject → QualityStatus
unfolding any_pass fresh_pass
evaluate_quality c records s = record {
  missing =
      keep
        (λ q.
          not (fresh_pass c records s (requirement_key q))
          && not (any_pass c records (requirement_key q)))
        c.required;
  stale =
      keep
        (λ q.
          not (fresh_pass c records s (requirement_key q))
          && any_pass c records (requirement_key q))
        c.required;
}

pub data CompletionError : Type 0 where
  no_evidence : (task_id : String) → CompletionError
  evidence_not_ready : (task_id : String) → EvidenceStatusType → CompletionError
  quality_task_mismatch : (contract_task task_id : String) → CompletionError
  evidence_missing evidence_stale : (task_id : String) → List EvidenceRequirement → CompletionError
  not_rewritten : RewriteError → CompletionError

-- The new tasks.md, or why there is none.
pub data Completion : Type 0 where
  completed : String → Completion
  refused : CompletionError → Completion

abbrev pub completion_of : Rewritten → Completion
completion_of (written tasks) = completed tasks
completion_of (not_written e) = refused (not_rewritten e)

-- The switch on the status of the record that was found.
unfoldable pub status_error : (task_id : String) → EvidenceStatusType → Option CompletionError
status_error task_id EvidenceStatusType.passing = none
status_error task_id status = some (evidence_not_ready task_id status)

unfoldable pub verify_evidence_ready :
    (task_id : String) → (records : String → Option EvidenceRecord) → Option CompletionError
unfolding evidence_status status_error
verify_evidence_ready task_id records = elim (records task_id) [
  | none ↦ some (no_evidence task_id)
  | some r ↦ status_error task_id (evidence_status r)
]

unfoldable pub complete_task :
    (raw_tasks task_id : String) → (records : String → Option EvidenceRecord) → Completion
unfolding verify_evidence_ready rewrite_task_status_line
complete_task raw_tasks task_id records = elim (verify_evidence_ready task_id records) [
  | some e ↦ refused e
  | none ↦ completion_of (rewrite_task_status_line raw_tasks task_id "✅")
]

-- `if len(qs) > 0`.
abbrev pub refused_by :
    (List EvidenceRequirement → CompletionError)
    → List EvidenceRequirement
    → Completion
    → Completion
refused_by error [] rest = rest
refused_by error (q ∷ qs) rest = refused (error (q ∷ qs))

unfoldable pub complete_task_with_quality :
    (raw_tasks task_id : String)
    → (records : String → Option EvidenceRecord) → QualityContract
    → List EvidenceEnvelopeV1
    → FreshnessSubject
    → Completion
unfolding verify_evidence_ready evaluate_quality rewrite_task_status_line
complete_task_with_quality raw_tasks task_id records c evals subject =
    elim (verify_evidence_ready task_id records) [
      | some e ↦ refused e
      | none ↦
          if not (c.task_id == "") && not (c.task_id == task_id)
          then refused (quality_task_mismatch c.task_id task_id)
          else let st = evaluate_quality c evals subject in
            refused_by (evidence_missing task_id) st.missing (
              refused_by (evidence_stale task_id) st.stale
                (completion_of (rewrite_task_status_line raw_tasks task_id "✅")))
    ]
