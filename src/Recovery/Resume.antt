-- ===== src/Recovery/Resume.antt =====
-- internal/orchestration/recover.go and session.go: recovery from a crash between the checkpoint and
-- the dispatch, and the revisions of a session.
use specd.Prelude.{
  ℕ, ◌+◌, ◌<◌, ◌%◌, ◌^◌, String, true, false, not, ◌&&◌, List, [], ◌∷◌, ◌++◌, none, some, ◌==◌, any,
  ◌≡◌, ◌≢◌, refl, sym, ap, subst, ◌∙◌, ◌↔◌, inl, inr, arith, Bool-cases, String-cases, Option-cases,
  eq_iff, test_of_ne, test_of_eq, eqb, eqb_iff,
}
use specd.Recovery.{
  AcpEvent, AcpKind, has_mission, mission_event, appended, append_dispatch, duplicate_mission,
  append_acp, Checkpoint, nothing_to_do, reissue, plan_resume, Session, SessionState, is_terminal,
  derive_status, session_status, save_session_cas, saved, revision_conflict,
}
use specd.Recovery.Ledger.{dispatch-parts}

any-event :
    (es : List AcpEvent) (id : String)
    → id ≢ ""
    → any (λ e. e.mission_id == id) es
      ≡ (elim (mission_event es id) [ none ↦ false | some _ ↦ true ])
unfolding mission_event
any-event [] id n = refl
any-event (e ∷ es) id n = elim (String-cases e.mission_id id) [
  | inl (t, q) ↦ rw (t, test_of_ne e.mission_id "" (λ z. n (sym q ∙ z))) refl
  | inr (t, q) ↦ elim (Bool-cases (e.mission_id == "")) [
    | inl z ↦ rw (z, t) (any-event es id n)
    | inr z ↦ rw (z, t) (any-event es id n)
  ]
]

-- HasMission and MissionEvent agree.
has_mission-event :
    (es : List AcpEvent) (id : String)
    → id ≢ ""
    → has_mission es id ≡ (elim (mission_event es id) [ none ↦ false | some _ ↦ true ])
unfolding has_mission
has_mission-event es id n = rw (test_of_ne id "" n) (any-event es id n)

mission_event-append :
    (es : List AcpEvent) (e : AcpEvent) (id : String)
    → mission_event es id ≡ none
    → id ≢ ""
    → e.mission_id ≡ id
    → mission_event (es ++ e ∷ []) id ≡ some e
unfolding mission_event
mission_event-append [] e id h n q = rw (q, test_of_ne id "" n, test_of_eq id id refl) refl
mission_event-append (d ∷ es) e id h n q =
    elim (Bool-cases (not (d.mission_id == "") && d.mission_id == id)) [
      | inl t ↦ cc (rw t at h)
      | inr t ↦ rw t (mission_event-append es e id (rw t at h) n q)
    ]

-- When a resume issues the mission of a checkpoint again: it names one that the ledger lacks.
reissue-parts :
    (cp : Checkpoint) (events : List AcpEvent)
    → (plan_resume (some cp) events ≡ reissue cp)
      ↔ ((cp.mission_id ≢ "") × (has_mission events cp.mission_id ≡ false))
unfolding plan_resume
reissue-parts cp events = elim (String-cases cp.mission_id "") [
  | inl (t, q) ↦ rw t (λ h. cc, λ h. absurd (h.0 q))
  | inr (t, q) ↦ elim (Option-cases (mission_event events cp.mission_id)) [
    | inl e ↦ rw (t, has_mission-event events cp.mission_id q, e) (λ h. (q, refl), λ h. refl)
    | inr (e, k) ↦ elim (Bool-cases (not (e.task_id == cp.task_id))) [
      | inl c ↦ rw (t, has_mission-event events cp.mission_id q, k, c) (λ h. cc, λ h. cc)
      | inr c ↦ rw (t, has_mission-event events cp.mission_id q, k, c) (λ h. cc, λ h. cc)
    ]
  ]
]

absent-event :
    (es : List AcpEvent) (id : String)
    → id ≢ ""
    → has_mission es id ≡ false
    → mission_event es id ≡ none
absent-event es id n h = elim (Option-cases (mission_event es id)) [
  | inl q ↦ q
  | inr (e, q) ↦ cc (rw (has_mission-event es id n, q) at h)
]

resume-found :
    (cp : Checkpoint) (es : List AcpEvent) (e : AcpEvent)
    → cp.mission_id ≢ ""
    → mission_event es cp.mission_id ≡ some e
    → e.task_id ≡ cp.task_id
    → plan_resume (some cp) es ≡ nothing_to_do
unfolding plan_resume
resume-found cp es e n k t =
    rw (test_of_ne cp.mission_id "" n, k, test_of_eq e.task_id cp.task_id t) refl

module _ (to_lower : String → String) where
  dispatch-fresh :
      (es : List AcpEvent) (e : AcpEvent)
      → has_mission es e.mission_id ≡ false
      → append_dispatch to_lower es e
        ≡ append_acp to_lower es (record e { kind = AcpKind.dispatch })
  unfolding append_dispatch
  dispatch-fresh es e h = elim (Bool-cases (e.mission_id == "")) [
    | inl z ↦ rw z refl
    | inr z ↦ rw (h, z) refl
  ]

  dispatch-known :
      (es : List AcpEvent) (e : AcpEvent)
      → e.mission_id ≢ ""
      → has_mission es e.mission_id ≡ true
      → append_dispatch to_lower es e ≡ duplicate_mission e.mission_id
  unfolding append_dispatch
  dispatch-known es e n h = rw (h, test_of_ne e.mission_id "" n) refl

  -- A mission that a resume is to issue again is no duplicate; and once its dispatch, of the same
  -- task, is in the ledger, the resume of that checkpoint has nothing to do, and a second dispatch of
  -- the mission is refused.
  pub plan_resume-converges :
      (cp : Checkpoint) (events events' : List AcpEvent) (e : AcpEvent)
      → plan_resume (some cp) events ≡ reissue cp
      → e.mission_id ≡ cp.mission_id
      → e.task_id ≡ cp.task_id
      → (append_dispatch to_lower events e
          ≡ append_acp to_lower events (record e { kind = AcpKind.dispatch }))
        × (append_dispatch to_lower events e ≡ appended events'
            → (plan_resume (some cp) events' ≡ nothing_to_do)
              × (append_dispatch to_lower events' e ≡ duplicate_mission cp.mission_id))
  plan_resume-converges cp events events' e h m t =
      let (named, fresh) = (reissue-parts cp events).0 h in
      (
        dispatch-fresh events e (rw m fresh),
        λ done.
            let (_, same) = dispatch-parts to_lower events events' e done in
            let found =
              mission_event-append events (record e { kind = AcpKind.dispatch }) cp.mission_id
                (absent-event events cp.mission_id named fresh) named m in
            rw (← same) (
              resume-found cp _ (record e { kind = AcpKind.dispatch }) named found t,
              dispatch-known _ e (λ z. named (sym m ∙ z))
                    (subst
                      (λ i.
                        has_mission (events ++ record e { kind = AcpKind.dispatch } ∷ []) i ≡ true)
                      (sym m) (rw (has_mission-event _ cp.mission_id named, found) refl))
                  ∙ ap duplicate_mission m,
            ),
      )

terminal-running : (s : Session) → is_terminal s ≡ true → session_status s ≢ SessionState.crashed
unfolding is_terminal
terminal-running s h q = cc (rw (q, is_terminal) at h)

derive-terminal :
    (s : Session) (cp : Checkpoint) (events : List AcpEvent)
    → is_terminal s ≡ true
    → derive_status s (some cp) events ≡ session_status s
unfolding derive_status
derive-terminal s cp events t = rw t refl

derive-running :
    (s : Session) (cp : Checkpoint) (events : List AcpEvent)
    → is_terminal s ≡ false
    → (derive_status s (some cp) events ≡ SessionState.crashed)
      ↔ ((cp.mission_id ≢ "") × (has_mission events cp.mission_id ≡ false))
unfolding derive_status
derive-running s cp events t = rw t (ground (arith, eq_iff cp.mission_id ""))

-- A session is reported as crashed exactly if it is not terminal and its checkpoint is to be issued
-- again.
pub derive_status-crashed :
    (s : Session) (cp : Checkpoint) (events : List AcpEvent)
    → (derive_status s (some cp) events ≡ SessionState.crashed)
      ↔ ((is_terminal s ≡ false) × (plan_resume (some cp) events ≡ reissue cp))
derive_status-crashed s cp events = elim (Bool-cases (is_terminal s)) [
  | inl t ↦ rw (derive-terminal s cp events t) (λ h. absurd (terminal-running s t h), λ h. cc)
  | inr t ↦
      let (out, into) = reissue-parts cp events in
      let (there, back) = derive-running s cp events t in
      (λ h. (t, into (there h)), λ h. back (out h.1))
]

moved : (n : ℕ) → n < 2 ^ 64 → eqb ((n + 1) % 2 ^ 64) n ≡ false
moved n h = ground arith

-- After a save that expected a revision below 2 ^ 64 has succeeded, a save that expects the same
-- revision is refused, and one that expects the next revision succeeds and raises it again.
pub save_session_cas-exclusive :
    (current first second stored : Session) (expected : ℕ)
    → expected < 2 ^ 64
    → save_session_cas current expected first ≡ saved stored
    → (save_session_cas stored expected second ≡ revision_conflict)
      × (save_session_cas stored ((expected + 1) % 2 ^ 64) second
          ≡ saved (record second { revision = ((expected + 1) % 2 ^ 64 + 1) % 2 ^ 64 }))
unfolding save_session_cas
save_session_cas-exclusive current first second stored expected bound h =
    elim (Bool-cases (eqb current.revision expected)) [
      | inr t ↦ cc (rw t at h)
      | inl t ↦
          let same : record first { revision = (expected + 1) % 2 ^ 64 } ≡ stored =
            cc (rw t at h) in
          rw (← same, moved expected bound, (eqb_iff ((expected + 1) % 2 ^ 64) _).1 refl)
            (refl, refl)
    ]
