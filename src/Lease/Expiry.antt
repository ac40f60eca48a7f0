-- ===== src/Lease/Expiry.antt =====
-- internal/orchestration/lease.go, Escalation: when an expired lease stops the controller.
use specd.Prelude.{
  ℕ, true, false, List, [], ◌∷◌, All, ◌≡◌, ◌≢◌, refl, ◌↔◌, inl, inr, Bool-cases, ℤ, less_int,
}
use specd.Lease.{Lease, before_expiry, reclaim_expired, first_exhausted, escalation}

-- A lease that is not expired, or has a retry left.
abbrev pub IsRetriable : (max_retries : ℤ) → (now : ℕ) → Lease → Type 0
IsRetriable max_retries now l = before_expiry now l ≡ false → less_int l.retries max_retries ≡ true

first_exhausted-IsRetriable :
    (ls : List Lease) (max_retries : ℤ) (now : ℕ)
    → All (λ l. l.task_id ≢ "") ls
    → ((first_exhausted (reclaim_expired ls now max_retries)).task_id ≡ "")
      ↔ All (IsRetriable max_retries now) ls
unfolding reclaim_expired first_exhausted
first_exhausted-IsRetriable [] max_retries now named = (λ h. tt, λ h. refl)
first_exhausted-IsRetriable (l ∷ ls) max_retries now named =
    let (out, into) = first_exhausted-IsRetriable ls max_retries now named.1 in
    elim (Bool-cases (before_expiry now l)) [
      | inl e ↦ rw e (λ h. (λ x. cc, out h), λ h. into h.1)
      | inr e ↦ elim (Bool-cases (less_int l.retries max_retries)) [
        | inl r ↦ rw (e, r) (λ h. (λ x. refl, out h), λ h. into h.1)
        | inr r ↦ rw (e, r) (λ h. absurd (named.0 h), λ h. cc (h.0 refl))
      ]
    ]

-- Where every lease names its task, Escalation names none exactly if every expired lease has a retry
-- left.
pub escalation-IsRetriable :
    (ls : List Lease) (max_retries : ℤ) (now : ℕ)
    → All (λ l. l.task_id ≢ "") ls
    → ((escalation ls max_retries now).task_id ≡ "") ↔ All (IsRetriable max_retries now) ls
unfolding escalation
escalation-IsRetriable ls max_retries now named =
    first_exhausted-IsRetriable ls max_retries now named
