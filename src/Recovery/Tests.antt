-- ===== src/Recovery/Tests.antt =====
-- internal/orchestration/acp.go, recover.go and session.go: the theorems at a small ledger.
use specd.Prelude.{
  ◌+◌, ◌≢◌, ◌≤◌, String, false, [], ◌∷◌, ◌++◌, ◌==◌, if◌then◌else◌, pos, none, some, ◌≡◌, refl, ◌↔◌,
  ne_of_test,
}
use specd.Recovery.{
  AcpEvent, AcpKind, numbered, next_attempt, appended, append_acp, append_claim, append_dispatch,
  duplicate_mission, validate_audit_event, has_mission, claims_of, Checkpoint, reissue,
  nothing_to_do, plan_resume, mission_event, Session, SessionState, is_terminal, derive_status,
  save_session_cas, saved,
}
use specd.Recovery.Ledger.{
  empty, dispatched, claimed, dispatches, claims, append_dispatch-once, append_claim-numbers,
}
use specd.Recovery.Resume.{plan_resume-converges, derive_status-crashed}

abbrev same_text : String → String
same_text s = s

abbrev id_one : String
id_one = "s/1/T1"

abbrev order : AcpEvent
order = record {
  time = 5;
  kind = AcpKind.dispatch;
  task_id = "T1";
  payload = "";
  mission_id = id_one;
  attempt = pos 0;
  audit_id = pos 0;
  audit_kind = "";
  run_id = "";
  policy_digest = "";
  dispatch_digest = "";
}

abbrev taken : AcpEvent
taken = record order { kind = AcpKind.claim; attempt = pos 1 }

program : Unit {0}
unfolding append_dispatch append_claim append_acp validate_audit_event has_mission next_attempt
    claims_of plan_resume mission_event save_session_cas
program = tt

order-appended : append_dispatch same_text [] order ≡ appended (order ∷ [])
unfolding program
order-appended = refl

taken-appended : append_claim same_text (order ∷ []) order ≡ appended (order ∷ taken ∷ [])
unfolding program
taken-appended = refl

append_dispatch-once_example : dispatches (order ∷ taken ∷ []) id_one ≤ 1
append_dispatch-once_example =
    append_dispatch-once same_text (order ∷ taken ∷ [])
      (claimed (order ∷ []) (order ∷ taken ∷ []) order
        (dispatched [] (order ∷ []) order empty order-appended) taken-appended)
      id_one (ne_of_test id_one "" refl)

append_claim-numbers_example :
    (order ∷ taken ∷ [] ≡ (order ∷ []) ++ numbered (order ∷ []) order ∷ [])
    × ((numbered (order ∷ []) order).kind ≡ AcpKind.claim)
    × ((numbered (order ∷ []) order).task_id ≡ order.task_id)
    × (order.attempt ≡ pos 0
        → (numbered (order ∷ []) order).attempt ≡ pos (claims (order ∷ []) order.task_id + 1))
    × (order.attempt ≢ pos 0 → (numbered (order ∷ []) order).attempt ≡ order.attempt)
    × ((task_id : String)
        → next_attempt (order ∷ taken ∷ []) task_id ≡ (
            if order.task_id == task_id
            then claims (order ∷ []) task_id + 2
            else claims (order ∷ []) task_id + 1))
append_claim-numbers_example =
    append_claim-numbers same_text (order ∷ []) (order ∷ taken ∷ []) order taken-appended

abbrev written : Checkpoint
written = record {
  session_id = "s";
  step = pos 1;
  wave = pos 1;
  decision = "dispatch";
  mission_id = id_one;
  task_id = "T1";
  mission = none;
  lease = none;
  time = 5;
}

written-reissued : plan_resume (some written) [] ≡ reissue written
unfolding program
written-reissued = refl

plan_resume-converges_example :
    (append_dispatch same_text [] order
      ≡ append_acp same_text [] (record order { kind = AcpKind.dispatch }))
    × (append_dispatch same_text [] order ≡ appended (order ∷ [])
        → (plan_resume (some written) (order ∷ []) ≡ nothing_to_do)
          × (append_dispatch same_text (order ∷ []) order ≡ duplicate_mission id_one))
plan_resume-converges_example =
    plan_resume-converges same_text written [] (order ∷ []) order written-reissued refl refl

abbrev idle : Session
idle = record {
  id = "s";
  revision = 4;
  state = SessionState.unset;
  step = pos 1;
  leases = [];
  pending_missions = [];
  missions = [];
  waiting_approval = "";
}

derive_status-crashed_example :
    (derive_status idle (some written) [] ≡ SessionState.crashed)
    ↔ ((is_terminal idle ≡ false) × (plan_resume (some written) [] ≡ reissue written))
derive_status-crashed_example = derive_status-crashed idle written []

abbrev next : Session
next = record idle { revision = 5 }

idle-saved : save_session_cas idle 4 idle ≡ saved next
unfolding program
idle-saved = refl
