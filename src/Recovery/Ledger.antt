-- ===== src/Recovery/Ledger.antt =====
-- internal/orchestration/acp.go: what every ledger satisfies that its operations have built.
use specd.Prelude.{
  ℕ, suc, ◌+◌, ap, ◌∙◌, length, keep, same_int_iff, ◌≤◌, String, Bool, true, false, not, ◌&&◌, List,
  [], ◌∷◌, ◌++◌, ◌==◌, any, if◌then◌else◌, ◌≡◌, ◌≢◌, refl, sym, inl, inr, arith, Bool-cases,
  String-cases, Option-cases, test_of_ne, pos, same_int,
}
use specd.Recovery.{
  AcpEvent, AcpKind, is_claim, claims_of, next_attempt, has_mission, appended, numbered,
  validate_audit_event, append_acp, append_claim, append_dispatch,
}

abbrev is_dispatch : AcpKind → Bool
is_dispatch AcpKind.dispatch = true
is_dispatch _ = false

-- How often a mission was dispatched.
abbrev pub dispatches : List AcpEvent → String → ℕ
dispatches [] id = 0
dispatches (e ∷ es) id =
    let rest = dispatches es id in
    if is_dispatch e.kind && e.mission_id == id then suc rest else rest

dispatches-append :
    (es : List AcpEvent) (e : AcpEvent) (id : String)
    → dispatches (es ++ e ∷ []) id ≡ (
        if is_dispatch e.kind && e.mission_id == id
        then suc (dispatches es id)
        else dispatches es id)
dispatches-append [] e id = refl
dispatches-append (d ∷ es) e id = ground (arith, dispatches-append es e id)

abbrev takes : String → AcpEvent → Bool
takes task_id e = is_taken e.kind && e.task_id == task_id
  where
    is_taken : AcpKind → Bool
    is_taken AcpKind.claim = true
    is_taken _ = false

-- How many claims of a task a ledger holds.
abbrev pub claims : List AcpEvent → String → ℕ
claims events task_id = length (keep (takes task_id) events)

claims-claims_of :
    (events : List AcpEvent) (task_id : String) → claims_of events task_id ≡ claims events task_id
unfolding claims_of
claims-claims_of [] task_id = refl
claims-claims_of (e ∷ es) task_id = ground (arith, claims-claims_of es task_id)

-- The next number of a task is that of its claims plus one.
next_attempt-claims :
    (events : List AcpEvent) (task_id : String)
    → next_attempt events task_id ≡ claims events task_id + 1
unfolding next_attempt
next_attempt-claims events task_id = ap (λ n. n + 1) (claims-claims_of events task_id)

claims_of-append :
    (es : List AcpEvent) (e : AcpEvent) (task_id : String)
    → claims_of (es ++ e ∷ []) task_id ≡ (
        if is_claim e.kind && e.task_id == task_id
        then suc (claims_of es task_id)
        else claims_of es task_id)
unfolding claims_of
claims_of-append [] e task_id = refl
claims_of-append (d ∷ es) e task_id = ground (arith, claims_of-append es e task_id)

-- A mission that the ledger lacks was never dispatched.
dispatches-absent :
    (es : List AcpEvent) (id : String)
    → any (λ e. e.mission_id == id) es ≡ false
    → dispatches es id ≡ 0
dispatches-absent [] id h = refl
dispatches-absent (e ∷ es) id h = ground (arith, dispatches-absent es id)

fresh_zero :
    (events : List AcpEvent) (m id : String)
    → id ≢ ""
    → m ≡ id
    → (not (m == "") && has_mission events m) ≡ false
    → dispatches events id ≡ 0
unfolding has_mission
fresh_zero events m id n q fresh = dispatches-absent events id (rw (q, test_of_ne id "" n) at fresh)

module _ (to_lower : String → String) where
  append_acp-parts :
      (events events' : List AcpEvent) (e : AcpEvent)
      → append_acp to_lower events e ≡ appended events'
      → events ++ e ∷ [] ≡ events'
  unfolding append_acp
  append_acp-parts events events' e h = elim (Option-cases (validate_audit_event to_lower e)) [
    | inl q ↦ cc (rw (q, append_acp) at h)
    | inr (error, q) ↦ cc (rw (q, append_acp) at h)
  ]

  -- The ledgers that dispatches, claims and other appends build.
  pub data IsLedger : List AcpEvent → Type 0 where
    empty : IsLedger []
    dispatched :
        (events events' : List AcpEvent) (e : AcpEvent)
        → IsLedger events
        → append_dispatch to_lower events e ≡ appended events'
        → IsLedger events'
    claimed :
        (events events' : List AcpEvent) (e : AcpEvent)
        → IsLedger events
        → append_claim to_lower events e ≡ appended events'
        → IsLedger events'
    noted :
        (events events' : List AcpEvent) (e : AcpEvent)
        → IsLedger events
        → is_dispatch e.kind ≡ false
        → append_acp to_lower events e ≡ appended events'
        → IsLedger events'

  pub dispatch-parts :
      (events events' : List AcpEvent) (e : AcpEvent)
      → append_dispatch to_lower events e ≡ appended events'
      → ((not (e.mission_id == "") && has_mission events e.mission_id) ≡ false)
        × (events ++ record e { kind = AcpKind.dispatch } ∷ [] ≡ events')
  unfolding append_dispatch
  dispatch-parts events events' e h =
      elim (Bool-cases (not (e.mission_id == "") && has_mission events e.mission_id)) [
        | inl q ↦ cc (rw q at h)
        | inr q ↦ (q, append_acp-parts events events' _ (rw q at h))
      ]

  claim-parts :
      (events events' : List AcpEvent) (e : AcpEvent)
      → append_claim to_lower events e ≡ appended events'
      → events ++ numbered events e ∷ [] ≡ events'
  unfolding append_claim
  claim-parts events events' e h = append_acp-parts events events' (numbered events e) h

  numbered-kind : (events : List AcpEvent) (e : AcpEvent) → (numbered events e).kind ≡ AcpKind.claim
  numbered-kind events e = elim (Bool-cases (same_int e.attempt (pos 0))) [
    | inl q ↦ rw q refl
    | inr q ↦ rw q refl
  ]

  numbered-task : (events : List AcpEvent) (e : AcpEvent) → (numbered events e).task_id ≡ e.task_id
  numbered-task events e = elim (Bool-cases (same_int e.attempt (pos 0))) [
    | inl q ↦ rw q refl
    | inr q ↦ rw q refl
  ]

  -- In every ledger a mission with an identifier was dispatched at most once.
  pub append_dispatch-once :
      (events : List AcpEvent)
      → IsLedger events
      → (id : String) → id ≢ ""
      → dispatches events id ≤ 1
  append_dispatch-once _ empty id n = omega arith
  append_dispatch-once _ (dispatched events events' e built h) id n =
      let (fresh, same) = dispatch-parts events events' e h in
      let le = append_dispatch-once events built id n in
      rw (← same, dispatches-append events (record e { kind = AcpKind.dispatch }) id)
        (elim (String-cases e.mission_id id) [
          | inl (t, q) ↦ rw t (omega (arith, fresh_zero events e.mission_id id n q fresh))
          | inr (t, q) ↦ rw t le
        ])
  append_dispatch-once _ (claimed events events' e built h) id n =
      rw
        (
          ← claim-parts events events' e h,
          dispatches-append events (numbered events e) id,
          numbered-kind events e,
        )
        (append_dispatch-once events built id n)
  append_dispatch-once _ (noted events events' e built k h) id n =
      rw (← append_acp-parts events events' e h, dispatches-append events e id, k)
        (append_dispatch-once events built id n)

  numbered-attempt :
      (events : List AcpEvent) (e : AcpEvent)
      → (e.attempt ≡ pos 0 → (numbered events e).attempt ≡ pos (next_attempt events e.task_id))
        × (e.attempt ≢ pos 0 → (numbered events e).attempt ≡ e.attempt)
  numbered-attempt events e = elim (Bool-cases (same_int e.attempt (pos 0))) [
    | inl q ↦ rw q (λ z. refl, λ n. absurd (n ((same_int_iff e.attempt (pos 0)).0 q)))
    | inr q ↦ rw q (λ z. cc (q, (same_int_iff e.attempt (pos 0)).1 z), λ n. refl)
  ]

  -- AppendClaim appends one claim of the event's task. If its attempt was left open, the claim's number
  -- is that of the task's claims in the ledger plus one, and else the given one. The number that the
  -- next claim of a task would get is that of its claims in the old ledger plus two for the claimed
  -- task, and plus one for any other.
  pub append_claim-numbers :
      (events events' : List AcpEvent) (e : AcpEvent)
      → append_claim to_lower events e ≡ appended events'
      → (events' ≡ events ++ numbered events e ∷ [])
        × ((numbered events e).kind ≡ AcpKind.claim)
        × ((numbered events e).task_id ≡ e.task_id)
        × (e.attempt ≡ pos 0 → (numbered events e).attempt ≡ pos (claims events e.task_id + 1))
        × (e.attempt ≢ pos 0 → (numbered events e).attempt ≡ e.attempt)
        × ((task_id : String)
            → next_attempt events' task_id ≡ (
                if e.task_id == task_id
                then claims events task_id + 2
                else claims events task_id + 1))
  unfolding next_attempt
  append_claim-numbers events events' e h =
      let (open_number, given) = numbered-attempt events e in
      (
        sym (claim-parts events events' e h),
        numbered-kind events e,
        numbered-task events e,
        λ q. open_number q ∙ ap pos (next_attempt-claims events e.task_id),
        given,
        λ task_id.
            rw
              (
                ← claim-parts events events' e h,
                claims_of-append events (numbered events e) task_id,
                numbered-kind events e,
                numbered-task events e,
                claims-claims_of events task_id,
              )
              (elim (Bool-cases (e.task_id == task_id)) [
                | inl t ↦ rw t (omega arith)
                | inr t ↦ rw t refl
              ]),
      )
