-- ===== src/Lease/Release.antt =====
-- internal/orchestration/lease.go and cancel.go: binding a lease to a session, and revoking it.
use specd.Prelude.{
  ℕ, String, Bool, true, false, not, ◌||◌, ◌&&◌, ◌≡◌, ◌≢◌, refl, sym, ◌↔◌, inl, inr, arith, eqb,
  eqb-ne_zero, if◌then◌else◌, Bool-cases, ◌==◌, String-cases, none, test_of_eq, test_of_ne,
  ne_of_test,
}
use specd.Lease.{
  Lease, LeaseState, leased, refused, with_session, with_revocation, bind_lease_to_session,
  validate_lease_session, Cancelled, cancelled, not_cancelled, cancel_lease, is_active, is_revoked,
  is_unset, lease_session_conflict, session_unknown, cancel_reason_conflict,
}

-- After a lease was bound to a session: operations of a session, the empty one included, are admitted
-- exactly if it is the same session, and exactly to that one the lease can be bound again, unchanged.
-- Binding it to the empty session is refused as unknown, and to any other one as a conflict.
pub bind_lease_to_session-exclusive :
    (l l' : Lease) (session other : String)
    → bind_lease_to_session l session ≡ leased l'
    → ((validate_lease_session l' other ≡ none) ↔ (other ≡ session))
      × ((bind_lease_to_session l' other ≡ leased l') ↔ (other ≡ session))
      × (other ≡ "" → bind_lease_to_session l' other ≡ refused session_unknown)
      × (other ≢ ""
          → other ≢ session
          → bind_lease_to_session l' other ≡ refused (lease_session_conflict l.lease_id session))
unfolding bind_lease_to_session validate_lease_session
bind_lease_to_session-exclusive l l' session other h = elim (Bool-cases (session == "")) [
  | inl e ↦ cc (rw e at h)
  | inr e ↦
      elim (Bool-cases (not (l.driver_session_id == "") && not (l.driver_session_id == session))) [
        | inl t ↦ cc (rw (e, t) at h)
        | inr t ↦
            let same : with_session l session ≡ l' = cc (rw (e, t) at h) in
            rw (← same) (elim (String-cases other session) [
              | inl (o, q) ↦
                  rw (q, e, test_of_eq session session refl)
                    (
                      (λ k. refl, λ k. refl),
                      (λ k. refl, λ k. refl),
                      λ k. absurd (ne_of_test session "" e k),
                      λ n k. absurd (k refl),
                    )
              | inr (o, q) ↦ elim (String-cases other "") [
                | inl (z, k) ↦
                    rw (e, o, z)
                      (
                        (λ k. cc, λ k. absurd (q k)),
                        (λ k. cc, λ k. absurd (q k)),
                        λ k. refl,
                        λ n. absurd (n k),
                      )
                | inr (z, n) ↦
                    rw (e, o, z, test_of_ne session other (λ k. q (sym k)))
                      (
                        (λ k. cc, λ k. absurd (q k)),
                        (λ k. cc, λ k. absurd (q k)),
                        λ k. absurd (n k),
                        λ n k. refl,
                      )
              ]
            ])
      ]
]

if_not : (b : Bool) (x y : Cancelled) → (if not b then x else y) ≡ (if b then y else x)
if_not b x y = ground arith

cancel-again :
    (l : Lease) (reason : String) (now : ℕ)
    → l.state ≡ LeaseState.revoked
    → reason ≢ ""
    → now ≢ 0
    → cancel_lease l reason now ≡ (
        if l.revocation_reason == reason
        then cancelled l false
        else not_cancelled l cancel_reason_conflict)
unfolding cancel_lease
cancel-again l reason now s n m =
    rw (test_of_ne reason "" n, eqb-ne_zero now m, s) (if_not (l.revocation_reason == reason) _ _)

revoked_of_test : (s : LeaseState) → is_revoked s ≡ true → s ≡ LeaseState.revoked
revoked_of_test s h = ground arith

cancelled-parts :
    (l l' : Lease) (reason : String) (now : ℕ) (changed : Bool)
    → cancel_lease l reason now ≡ cancelled l' changed
    → (l'.state ≡ LeaseState.revoked) × (l'.revocation_reason ≡ reason)
unfolding cancel_lease
cancelled-parts l l' reason now changed h = elim (Bool-cases (reason == "" || eqb now 0)) [
  | inl e ↦ cc (rw e at h)
  | inr e ↦ elim (Bool-cases (is_revoked l.state)) [
    | inl r ↦ elim (String-cases l.revocation_reason reason) [
      | inl (t, q) ↦
          let same : l ≡ l' = cc (rw (e, r, t) at h) in rw (← same) (revoked_of_test l.state r, q)
      | inr (t, q) ↦ cc (rw (e, r, t) at h)
    ]
    | inr r ↦ elim (Bool-cases (not (is_active l.state) && not (is_unset l.state))) [
      | inl t ↦ cc (rw (e, r, t) at h)
      | inr t ↦
          let same : with_revocation l reason ≡ l' = cc (rw (e, r, t) at h) in
          rw (← same) (refl, refl)
    ]
  ]
]

-- After CancelLease has succeeded the lease is revoked for that reason. At any later time that is not
-- zero, the same reason succeeds again and changes nothing, and another one that is not empty is refused.
pub cancel_lease-idempotent :
    (l l' : Lease) (reason again : String) (now later : ℕ) (changed : Bool)
    → cancel_lease l reason now ≡ cancelled l' changed
    → again ≢ ""
    → later ≢ 0
    → (l'.state ≡ LeaseState.revoked)
      × (l'.revocation_reason ≡ reason)
      × (cancel_lease l' again later ≡ (
          if reason == again then cancelled l' false else not_cancelled l' cancel_reason_conflict))
cancel_lease-idempotent l l' reason again now later changed h n m =
    let (revoked, same) = cancelled-parts l l' reason now changed h in
    (revoked, same, rw (cancel-again l' again later revoked n m, same) refl)
