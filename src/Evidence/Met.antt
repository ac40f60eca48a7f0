-- ===== src/Evidence/Met.antt =====
-- internal/core/evidence_freshness.go and task_complete.go: the records that meet a quality contract.
use specd.Prelude.{
  String, Bool, true, false, not, ◌&&◌, ◌||◌, List, [], ◌∷◌, All, ◌==◌, if◌then◌else◌, ◌≡◌, refl,
  ◌↔◌, ◌⊎◌, inl, inr, arith, Bool-cases, eq_iff, keep,
}
use Prim.Native.String.{◌++◌ as ◌<>◌}
use specd.Evidence.Contract.{
  EvalVerdict, is_pass, disagrees, EvidenceEnvelopeV1, FreshnessSubject, EvidenceRequirement,
  QualityContract, record_fresh, is_counted, envelope_key, requirement_key, any_pass, fresh_pass,
}

-- What the subject declares the record has too.
abbrev pub Agrees : (have want : String) → Type 0
Agrees have want = (want ≡ "") ⊎ (have ≡ want)

-- A record of the subject as it is now.
pub record IsCurrent (r : EvidenceEnvelopeV1) (s : FreshnessSubject) : Type 0 where
  pub revision : Agrees r.subject_revision s.revision
  pub diff : Agrees r.diff_digest s.diff_digest
  pub output : Agrees r.output_digest s.output_digest
  pub dataset : Agrees r.dataset_digest s.dataset_digest
  pub rubric : Agrees r.rubric_digest s.rubric_digest
  pub trace : Agrees r.trace_digest s.trace_digest

disagrees-Agrees : (have want : String) → (disagrees have want ≡ false) ↔ Agrees have want
disagrees-Agrees have want = ground (arith, eq_iff want "", eq_iff have want)

record_fresh_iff :
    (r : EvidenceEnvelopeV1) (s : FreshnessSubject) → (record_fresh r s ≡ true) ↔ IsCurrent r s
unfolding record_fresh
record_fresh_iff r s =
    let (a, a') = disagrees-Agrees r.subject_revision s.revision in
    let (b, b') = disagrees-Agrees r.diff_digest s.diff_digest in
    let (c, c') = disagrees-Agrees r.output_digest s.output_digest in
    let (d, d') = disagrees-Agrees r.dataset_digest s.dataset_digest in
    let (e, e') = disagrees-Agrees r.rubric_digest s.rubric_digest in
    let (f, f') = disagrees-Agrees r.trace_digest s.trace_digest in
    let (out, into) = none_disagrees _ _ _ _ _ _ in
    (
      λ h.
          let (ha, hb, hc, hd, he, hf) = out h in
          record {
            revision = a ha;
            diff = b hb;
            output = c hc;
            dataset = d hd;
            rubric = e he;
            trace = f hf;
          },
      λ k. into (a' k.revision, b' k.diff, c' k.output, d' k.dataset, e' k.rubric, f' k.trace),
    )
  where
    none_disagrees :
        (a b c d e f : Bool)
        → ((if a then false else not (b || c || d || e || f)) ≡ true)
          ↔ ((a ≡ false) × (b ≡ false) × (c ≡ false) × (d ≡ false) × (e ≡ false) × (f ≡ false))
    none_disagrees a b c d e f = ground arith

-- A passing record of the contract's task, if the contract names one.
abbrev pub Counts : QualityContract → EvidenceEnvelopeV1 → Type 0
Counts c r = (r.verdict ≡ EvalVerdict.pass) × ((c.task_id ≡ "") ⊎ (r.task_id ≡ c.task_id))

is_pass_iff : (v : EvalVerdict) → (is_pass v ≡ true) ↔ (v ≡ EvalVerdict.pass)
is_pass_iff v = ground arith

is_counted_iff :
    (c : QualityContract) (r : EvidenceEnvelopeV1) → (is_counted c r ≡ true) ↔ Counts c r
is_counted_iff c r =
    counts (is_pass r.verdict) (c.task_id == "") (r.task_id == c.task_id) (is_pass_iff r.verdict)
      (eq_iff c.task_id "") (eq_iff r.task_id c.task_id)
  where
    counts :
        {P Q R : Type 0} (a b d : Bool)
        → (a ≡ true) ↔ P
        → (b ≡ true) ↔ Q
        → (d ≡ true) ↔ R
        → ((a && (b || d)) ≡ true) ↔ (P × (Q ⊎ R))
    counts a b d p q r = ground (arith, p, q, r)

-- A passing record for the class and check of the requirement, which the code joins by a slash, of the
-- contract's task, and current.
abbrev pub Meets :
    QualityContract → FreshnessSubject → EvidenceRequirement → EvidenceEnvelopeV1 → Type 0
Meets c s q r =
    Counts c r
    × (r.evidence_class <> ("/" <> r.check_id) ≡ q.evidence_class <> ("/" <> q.check_id))
    × IsCurrent r s

-- Some record of the list meets the requirement.
abbrev pub IsMet :
    QualityContract → FreshnessSubject → List EvidenceEnvelopeV1 → EvidenceRequirement → Type 0
IsMet c s [] q = ⊥
IsMet c s (r ∷ rs) q = Meets c s q r ⊎ IsMet c s rs q

fresh_pass-IsMet :
    (c : QualityContract) (records : List EvidenceEnvelopeV1) (s : FreshnessSubject)
    (q : EvidenceRequirement)
    → (fresh_pass c records s (requirement_key q) ≡ true) ↔ IsMet c s records q
unfolding fresh_pass
fresh_pass-IsMet c [] s q = (λ h. cc, λ h. absurd h)
fresh_pass-IsMet c (r ∷ rs) s q =
    or_iff (is_counted c r) (envelope_key r == requirement_key q) (record_fresh r s) _
      (is_counted_iff c r) (eq_iff (envelope_key r) (requirement_key q)) (record_fresh_iff r s)
      (fresh_pass-IsMet c rs s q)
  where
    or_iff :
        {P Q R S : Type 0} (a b d e : Bool)
        → (a ≡ true) ↔ P
        → (b ≡ true) ↔ Q
        → (d ≡ true) ↔ R
        → (e ≡ true) ↔ S
        → (((a && b && d) || e) ≡ true) ↔ ((P × Q × R) ⊎ S)
    or_iff a b d e p q r s = ground (arith, p, q, r, s)

-- Of the required evidence nothing is missing and nothing stale exactly if each requirement has a fresh
-- passing record.
pub quality_iff :
    (c : QualityContract) (records : List EvidenceEnvelopeV1) (s : FreshnessSubject)
    (required : List EvidenceRequirement)
    → ((keep
            (λ q.
              not (fresh_pass c records s (requirement_key q))
              && not (any_pass c records (requirement_key q)))
            required
          ≡ [])
        × (keep
              (λ q.
                not (fresh_pass c records s (requirement_key q))
                && any_pass c records (requirement_key q))
              required
            ≡ []))
      ↔ All (IsMet c s records) required
quality_iff c records s [] = (λ h. tt, λ h. (refl, refl))
quality_iff c records s (q ∷ qs) =
    let (met, back) = fresh_pass-IsMet c records s q in
    let (out, into) = quality_iff c records s qs in
    elim (Bool-cases (fresh_pass c records s (requirement_key q))) [
      | inl f ↦ rw f (λ h. (met f, out h), λ h. into h.1)
      | inr f ↦ elim (Bool-cases (any_pass c records (requirement_key q))) [
        | inl a ↦ rw (f, a) (λ h. cc (h.1), λ h. cc (back h.0, f))
        | inr a ↦ rw (f, a) (λ h. cc (h.0), λ h. cc (back h.0, f))
      ]
    ]
