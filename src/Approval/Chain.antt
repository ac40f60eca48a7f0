-- ===== src/Approval/Chain.antt =====
-- internal/core/approval_request.go: what any history of approval requests satisfies that
-- PlanApprovalRequest built.
use specd.Prelude.{
  ℕ, ◌+◌, ◌≤◌, ◌<◌, String, true, false, List, [], ◌∷◌, ◌++◌, Option, none, some, ◌==◌, eqb,
  if◌then◌else◌, trim_space, ◌≡◌, refl, sym, inl, inr, arith, Bool-cases, String-cases, All,
  All-map, All-last, ◌≢◌, eqb_iff, subst,
}
use specd.Approval.{
  ApprovalTransition, ApprovalRequestRecord, no_request, latest_from, latest_approval_request,
  approval_transition_allowed, planned, RecordKey, planned_unless, inherit, continuation_error,
  plan_from, validate_approval_create, plan_approval_request, ApprovalError,
}

latest_from-append :
    (rs : List ApprovalRequestRecord) (found : ApprovalRequestRecord × ℕ)
    (r : ApprovalRequestRecord) (id : String)
    → latest_from found (rs ++ r ∷ []) id
      ≡ (if r.id == id then (r, (latest_from found rs id).1 + 1) else latest_from found rs id)
unfolding latest_from
latest_from-append [] found r id = refl
latest_from-append (s ∷ rs) found r id = latest_from-append rs _ r id

latest-append :
    (rs : List ApprovalRequestRecord) (r : ApprovalRequestRecord) (id : String)
    → latest_approval_request (rs ++ r ∷ []) id ≡ (
        if r.id == id
        then (r, (latest_approval_request rs id).1 + 1)
        else latest_approval_request rs id)
unfolding latest_approval_request
latest-append rs r id = latest_from-append rs (no_request, 0) r id

latest_from-nil :
    (found : ApprovalRequestRecord × ℕ) (id : String) → latest_from found [] id ≡ found
unfolding latest_from
latest_from-nil found id = refl

latest_from-hit :
    (r : ApprovalRequestRecord) (rs : List ApprovalRequestRecord)
    (found : ApprovalRequestRecord × ℕ) (id : String)
    → (r.id == id) ≡ true
    → latest_from found (r ∷ rs) id ≡ latest_from (r, found.1 + 1) rs id
unfolding latest_from
latest_from-hit r rs found id e = rw e refl

latest_from-miss :
    (r : ApprovalRequestRecord) (rs : List ApprovalRequestRecord)
    (found : ApprovalRequestRecord × ℕ) (id : String)
    → (r.id == id) ≡ false
    → latest_from found (r ∷ rs) id ≡ latest_from found rs id
unfolding latest_from
latest_from-miss r rs found id e = rw e refl

-- The records of other requests do not count.
latest_from-absent :
    (rs : List ApprovalRequestRecord) (found : ApprovalRequestRecord × ℕ) (id : String)
    → found.1 ≤ (latest_from found rs id).1
      × ((latest_from found rs id).1 ≤ found.1
          → (latest_from found rs id ≡ found) × All (λ r. r.id ≢ id) rs)
latest_from-absent [] found id = rw (latest_from-nil found id) (omega arith, λ h. (refl, tt))
latest_from-absent (r ∷ rs) found id = elim (String-cases r.id id) [
  | inl (e, _) ↦
      let (le, _) = latest_from-absent rs (r, found.1 + 1) id in
      rw (latest_from-hit r rs found id e) (omega (arith, le), λ h. absurd (omega (arith, le, h)))
  | inr (e, ne) ↦
      let (le, absent) = latest_from-absent rs found id in
      rw (latest_from-miss r rs found id e) (le, λ h. ((absent h).0, (ne, (absent h).1)))
]

pub latest-absent :
    (rs : List ApprovalRequestRecord) (id : String)
    → (latest_approval_request rs id).1 ≡ 0
    → (latest_approval_request rs id ≡ (no_request, 0)) × All (λ r. r.id ≢ id) rs
unfolding latest_approval_request
latest-absent rs id h = (latest_from-absent rs (no_request, 0) id).1 (omega (arith, h))

-- The rank of a transition, which every legal step raises.
abbrev rank : ApprovalTransition → ℕ
rank ApprovalTransition.unset = 0
rank ApprovalTransition.draft = 1
rank ApprovalTransition.requested = 2
rank ApprovalTransition.approved = 3
rank _ = 4

rank_lt : (s t : ApprovalTransition) → approval_transition_allowed s t ≡ true → rank s < rank t
unfolding approval_transition_allowed
rank_lt ApprovalTransition.unset t h = ground arith
rank_lt ApprovalTransition.draft t h = ground arith
rank_lt ApprovalTransition.requested t h = ground arith
rank_lt ApprovalTransition.approved t h = ground arith
rank_lt _ t h = cc

rank_le : (s : ApprovalTransition) → rank s ≤ 4
rank_le s = ground arith

planned_unless-parts :
    (e : Option ApprovalError) (key key' : RecordKey) (r r' : ApprovalRequestRecord)
    → planned_unless e key r ≡ planned key' r'
    → (e ≡ none) × (key ≡ key') × (r ≡ r')
unfolding planned_unless
planned_unless-parts none key key' r r' h = (refl, cc, cc)
planned_unless-parts (some e) key key' r r' h = cc

module _ (parse_time : String → Option ℕ) (now : ℕ) where
  -- What a planned transition has passed, and the record that is appended.
  pub data IsContinuation (existing : List ApprovalRequestRecord) (r latest : ApprovalRequestRecord)
      (count : ℕ) : ApprovalRequestRecord → Type 0 where
    creates :
        count ≡ 0
        → validate_approval_create parse_time r ≡ none
        → IsContinuation existing r latest count r
    continues :
        count ≢ 0
        → continuation_error parse_time now existing latest r ≡ none
        → IsContinuation existing r latest count (inherit latest r)

  plan_from-parts :
      (existing : List ApprovalRequestRecord) (r latest r' : ApprovalRequestRecord) (count : ℕ)
      (key : RecordKey)
      → plan_from parse_time now existing r latest count ≡ planned key r'
      → (approval_transition_allowed latest.transition r.transition ≡ true)
        × (key ≡ record { id = r.id; sequence = count })
        × IsContinuation existing r latest count r'
  unfolding plan_from
  plan_from-parts existing r latest r' count key h =
      elim (Bool-cases (approval_transition_allowed latest.transition r.transition)) [
        | inr e ↦ elim (Bool-cases (eqb count 0)) [
          | inl z ↦ cc (rw (e, z) at h)
          | inr z ↦ cc (rw (e, z) at h)
        ]
        | inl e ↦ elim (Bool-cases (eqb count 0)) [
          | inl z ↦
              let (a, b, c) = planned_unless-parts _ _ _ _ _ (rw (e, z) at h) in
              (
                e,
                sym b,
                subst (IsContinuation existing r latest count) c
                    (creates ((eqb_iff count 0).0 z) a),
              )
          | inr z ↦
              let (a, b, c) = planned_unless-parts _ _ _ _ _ (rw (e, z) at h) in
              (
                e,
                sym b,
                subst (IsContinuation existing r latest count) c
                    (continues (λ q. cc (z, (eqb_iff count 0).1 q)) a),
              )
        ]
      ]

-- The identity that a request pins: every transition of a request carries it.
abbrev pub SameIdentity : (r s : ApprovalRequestRecord) → Type 0
SameIdentity r s =
    (r.pins ≡ s.pins)
    × (r.requester ≡ s.requester)
    × (r.expires_at ≡ s.expires_at)
    × (r.entity_kind ≡ s.entity_kind)
    × (r.entity_id ≡ s.entity_id)
    × (r.entity_version ≡ s.entity_version)

module _ (parse_time : String → Option ℕ) where
  -- The records that planned transitions have built, one at a time and each at its own instant.
  pub data IsHistory : List ApprovalRequestRecord → Type 0 where
    start : IsHistory []
    append :
        (existing : List ApprovalRequestRecord) (now : ℕ) (r r' : ApprovalRequestRecord)
        (key : RecordKey)
        → IsHistory existing
        → plan_approval_request parse_time now existing r ≡ planned key r'
        → IsHistory (existing ++ r' ∷ [])

  pub plan-parts :
      (existing : List ApprovalRequestRecord) (now : ℕ) (r r' : ApprovalRequestRecord)
      (key : RecordKey)
      → plan_approval_request parse_time now existing r ≡ planned key r'
      → let (latest, count) = latest_approval_request existing r.id in
        (approval_transition_allowed latest.transition r.transition ≡ true)
        × (key ≡ record { id = r.id; sequence = count })
        × IsContinuation parse_time now existing r latest count r'
  unfolding plan_approval_request
  plan-parts existing now r r' key h = elim (Bool-cases (trim_space r.id == "")) [
    | inl e ↦ cc (rw e at h)
    | inr e ↦ plan_from-parts parse_time now existing r _ r' _ key (rw e at h)
  ]

  continues-id :
      (existing : List ApprovalRequestRecord) (now : ℕ) (r latest r' : ApprovalRequestRecord)
      (count : ℕ)
      → IsContinuation parse_time now existing r latest count r'
      → (r'.id ≡ r.id) × (r'.transition ≡ r.transition)
  continues-id existing now r latest r' count (creates z h) = (refl, refl)
  continues-id existing now r latest r' count (continues z h) = (refl, refl)

  count_le_rank :
      (h : List ApprovalRequestRecord)
      → IsHistory h
      → (id : String)
      → (latest_approval_request h id).1 ≤ rank (latest_approval_request h id).0.transition
  unfolding latest_approval_request latest_from
  count_le_rank _ start id = omega arith
  count_le_rank _ (append existing now r r' key built plan) id =
      let (allowed, _, next) = plan-parts existing now r r' key plan in
      let (same_id, same) = continues-id existing now r _ r' _ next in
      elim (String-cases r'.id id) [
        | inl (e, eq) ↦
            let to_id : r.id ≡ id = cc in
            let le = count_le_rank existing built r.id in
            let lt = rank_lt _ _ allowed in
            rw (latest-append existing r' id, e, same, ← to_id) (omega (arith, le, lt))
        | inr (e, ne) ↦ rw (latest-append existing r' id, e) (count_le_rank existing built id)
      ]

  identity_kept :
      (existing : List ApprovalRequestRecord) (now : ℕ) (r latest r' : ApprovalRequestRecord)
      (count : ℕ)
      → IsContinuation parse_time now existing r latest count r'
      → (count ≡ 0 → All (λ s. s.id ≢ r.id) existing)
      → All (λ s. s.id ≡ r.id → SameIdentity s latest) existing
      → All (λ s. s.id ≡ r.id → SameIdentity s r') existing
  identity_kept existing now r latest r' count (creates z h) absent same =
      All-map (λ s. s.id ≢ r.id) (λ s. s.id ≡ r.id → SameIdentity s r') existing
        (λ s n e. absurd (n e)) (absent z)
  identity_kept existing now r latest r' count (continues z h) absent same = same

  -- In any history the records of one request all pin the same identities, requester, expiry and
  -- entity: those of its newest transition.
  pub plan_approval_request-identity :
      (h : List ApprovalRequestRecord)
      → IsHistory h
      → (id : String) → All (λ r. r.id ≡ id → SameIdentity r (latest_approval_request h id).0) h
  plan_approval_request-identity _ start id = tt
  plan_approval_request-identity _ (append existing now r r' key built plan) id =
      let (allowed, _, next) = plan-parts existing now r r' key plan in
      let (same_id, same) = continues-id existing now r _ r' _ next in
      elim (String-cases r'.id id) [
        | inl (e, eq) ↦
            let to_id : r.id ≡ id = cc in
            let kept =
              identity_kept existing now r _ r' _ next (λ z. (latest-absent existing r.id z).1)
                (plan_approval_request-identity existing built r.id) in
            rw (latest-append existing r' id, e)
              (All-last (λ s. s.id ≡ id → SameIdentity s r') existing r'
                (subst (λ i. All (λ s. s.id ≡ i → SameIdentity s r') existing) to_id kept)
                (λ q. (refl, refl, refl, refl, refl, refl)))
        | inr (e, ne) ↦
            rw (latest-append existing r' id, e)
              (All-last (λ s. s.id ≡ id → SameIdentity s (latest_approval_request existing id).0)
                existing r' (plan_approval_request-identity existing built id) (λ q. absurd (ne q)))
      ]

  -- In any history a request has at most four transitions.
  pub plan_approval_request-depth :
      (h : List ApprovalRequestRecord)
      → IsHistory h
      → (id : String) → (latest_approval_request h id).1 ≤ 4
  plan_approval_request-depth h built id =
      omega (arith, count_le_rank h built id, rank_le (latest_approval_request h id).0.transition)
