-- ===== src/Lease/Renewal.antt =====
-- internal/orchestration/heartbeat.go: how long renewals can keep a lease alive.
use specd.Prelude.{
  not-false, ℕ, ◌≤◌, ◌<◌, Bool, true, false, not, ◌||◌, ◌&&◌, ◌==◌, ◌≡◌, ◌≢◌, refl, ap, sym, ◌∙◌,
  subst, ◌↔◌, ◌⊎◌, arith, ltb, eqb, eq_iff, same_int, same_int_iff, if◌then◌else◌, ℤ, pos, negsuc,
}
use specd.Lease.{
  Lease, LeaseState, HeartbeatV1, Leased, leased, refused, LeaseError, renew_lease, is_active,
  is_beat_of, next_expiry, with_expiry, add_time, not_positive, before_expiry,
  heartbeat_lease_mismatch, heartbeat_lease_expired, heartbeat_renewal_limit,
}

guard_leased :
    (b : Bool) (e : LeaseError) (rest : Leased) (l' : Lease)
    → ((if b then refused e else rest) ≡ leased l') ↔ ((b ≡ false) × (rest ≡ leased l'))
guard_leased true e rest l' = (λ h. cc, λ h. cc)
guard_leased false e rest l' = (λ h. (refl, h), λ h. h.1)

leased_iff : (l l' : Lease) → (leased l ≡ leased l') ↔ (l ≡ l')
leased_iff l l' = (λ h. cc, λ h. cc)

-- A duration above 0.
abbrev pub IsPositive : ℤ → Type 0
IsPositive (pos n) = 0 < n
IsPositive (negsuc n) = ⊥

not_positive_iff : (d : ℤ) → (not_positive d ≡ false) ↔ IsPositive d
not_positive_iff (pos n) = ground arith
not_positive_iff (negsuc n) = (λ h. cc, λ h. absurd h)

-- When a heartbeat renews a lease: it names this lease, its mission, worker and attempt; the lease is
-- active and not yet expired; and the heartbeat falls within the lifetime that both durations leave.
pub record MayRenew (l : Lease) (h : HeartbeatV1) (extension max_lifetime : ℤ) : Type 0 where
  pub active : l.state ≡ LeaseState.active
  pub same_lease : h.lease_id ≡ l.lease_id
  pub same_mission : h.mission_id ≡ l.mission_id
  pub same_worker : h.worker_id ≡ l.worker_id
  pub same_attempt : h.attempt ≡ l.attempt
  pub at_known : h.at ≢ 0
  pub in_time : h.at < l.expires_at
  pub extends : IsPositive extension
  pub lives : IsPositive max_lifetime
  pub below_limit : h.at < add_time l.issued_at max_lifetime

-- The renewed lease: it expires at the earlier of the extension after the heartbeat and the end of
-- the lifetime, and nothing else of it has changed.
pub record IsRenewal (l l' : Lease) (h : HeartbeatV1) (extension max_lifetime : ℤ) : Type 0 where
  pub in_extension : l'.expires_at ≤ add_time h.at extension
  pub in_lifetime : l'.expires_at ≤ add_time l.issued_at max_lifetime
  pub latest :
      (l'.expires_at ≡ add_time h.at extension)
      ⊎ (l'.expires_at ≡ add_time l.issued_at max_lifetime)
  pub kept : with_expiry l l'.expires_at ≡ l'

active_iff : (s : LeaseState) → (is_active s ≡ true) ↔ (s ≡ LeaseState.active)
active_iff s = ground arith

is_beat_iff :
    (l : Lease) (h : HeartbeatV1)
    → (is_beat_of l h ≡ true) ↔ (
        (l.state ≡ LeaseState.active)
        × (h.lease_id ≡ l.lease_id)
        × (h.mission_id ≡ l.mission_id)
        × (h.worker_id ≡ l.worker_id)
        × (h.attempt ≡ l.attempt))
is_beat_iff l h =
    all_iff (is_active l.state) (h.lease_id == l.lease_id) (h.mission_id == l.mission_id)
      (h.worker_id == l.worker_id) (same_int h.attempt l.attempt) (active_iff l.state)
      (eq_iff h.lease_id l.lease_id) (eq_iff h.mission_id l.mission_id)
      (eq_iff h.worker_id l.worker_id) (same_int_iff h.attempt l.attempt)
  where
    all_iff :
        {P Q R S T : Type 0} (a b c d e : Bool)
        → (a ≡ true) ↔ P
        → (b ≡ true) ↔ Q
        → (c ≡ true) ↔ R
        → (d ≡ true) ↔ S
        → (e ≡ true) ↔ T
        → ((a && b && c && d && e) ≡ true) ↔ (P × Q × R × S × T)
    all_iff a b c d e p q r s t = ground (arith, p, q, r, s, t)

least_iff :
    (n a b : ℕ) → ((if ltb b a then b else a) ≡ n) ↔ ((n ≤ a) × (n ≤ b) × ((n ≡ a) ⊎ (n ≡ b)))
least_iff n a b = ground arith

with_expiry_iff :
    (l l' : Lease) (h : HeartbeatV1) (extension max_lifetime : ℤ)
    → (with_expiry l (next_expiry l h extension max_lifetime) ≡ l')
      ↔ IsRenewal l l' h extension max_lifetime
with_expiry_iff l l' h extension max_lifetime =
    let (out, into) =
      least_iff l'.expires_at (add_time h.at extension) (add_time l.issued_at max_lifetime) in
    (
      λ same.
          let (early, bounded, latest) = out (ap (λ x. x.expires_at) same) in
          record {
            in_extension = early;
            in_lifetime = bounded;
            latest = latest;
            kept = ap (λ x. with_expiry l x.expires_at) (sym same) ∙ same;
          },
      λ r. ap (with_expiry l) (into (r.in_extension, r.in_lifetime, r.latest)) ∙ r.kept,
    )

tests_lem :
    (a b : ℕ) (c d : Bool)
    → ((eqb a 0 || not (ltb a b) || c || d) ≡ false)
      ↔ ((a ≢ 0) × (a < b) × (c ≡ false) × (d ≡ false))
tests_lem a b c d = ground arith

limit_lem :
    (at issued : ℕ) (extension max_lifetime : ℤ)
    → not_positive extension ≡ false
    → (not (
          ltb at (
            if ltb (add_time issued max_lifetime) (add_time at extension)
            then add_time issued max_lifetime
            else add_time at extension))
        ≡ false)
      ↔ (at < add_time issued max_lifetime)
limit_lem at issued extension max_lifetime h = ground arith

-- RenewLease succeeds exactly if the heartbeat is of this lease, mission, worker and attempt, the lease
-- is active and not expired, both durations are positive and the lifetime is not over; it then changes
-- the expiry alone, to the earlier of the extension after the heartbeat and the end of the lifetime.
pub renew_lease-exact :
    (l l' : Lease) (h : HeartbeatV1) (extension max_lifetime : ℤ)
    → (renew_lease l h extension max_lifetime ≡ leased l')
      ↔ (MayRenew l h extension max_lifetime × IsRenewal l l' h extension max_lifetime)
unfolding renew_lease
renew_lease-exact l l' h extension max_lifetime =
    let (out1, into1) = guard_leased (not (is_beat_of l h)) heartbeat_lease_mismatch _ l' in
    let (out2, into2) =
      guard_leased
        (eqb h.at 0
          || not (before_expiry h.at l)
          || not_positive extension
          || not_positive max_lifetime)
        heartbeat_lease_expired _ l' in
    let (out3, into3) =
      guard_leased (not (ltb h.at (next_expiry l h extension max_lifetime))) heartbeat_renewal_limit
        _ l' in
    let (out4, into4) = leased_iff (with_expiry l (next_expiry l h extension max_lifetime)) l' in
    let (renewed, renewal) = with_expiry_iff l l' h extension max_lifetime in
    let (beats, is_beat) = is_beat_iff l h in
    let (positive, positively) = not_positive_iff extension in
    let (lasting, lastingly) = not_positive_iff max_lifetime in
    let (out5, into5) =
      tests_lem h.at l.expires_at (not_positive extension) (not_positive max_lifetime) in
    (
      λ e.
          let (beat, e1) = out1 e in
          let (active, same_lease, same_mission, same_worker, same_attempt) =
            beats (not-false _ beat) in
          let (tests, e2) = out2 e1 in
          let (below, e3) = out3 e2 in
          let (known, timely, extends, lives) = out5 tests in
          (
            record {
              active = active;
              same_lease = same_lease;
              same_mission = same_mission;
              same_worker = same_worker;
              same_attempt = same_attempt;
              at_known = known;
              in_time = timely;
              extends = positive extends;
              lives = lasting lives;
              below_limit = (limit_lem h.at l.issued_at extension max_lifetime extends).0 below;
            },
            renewed (out4 e3),
          ),
      λ (may, e). into1 (
        rw
            (is_beat
              (may.active, may.same_lease, may.same_mission, may.same_worker, may.same_attempt))
            refl,
        into2 (
          into5 (may.at_known, may.in_time, positively may.extends, lastingly may.lives),
          into3 (
            (limit_lem h.at l.issued_at extension max_lifetime (positively may.extends)).1
                may.below_limit,
            into4 (renewal e),
          ),
        ),
      ),
    )

-- The leases that renewals under one lifetime make of a lease: one or more, whatever the heartbeats
-- and the extensions.
pub data Renewed (max_lifetime : ℤ) (l : Lease) : Lease → Type 0 where
  once :
      (l' : Lease) (h : HeartbeatV1) (extension : ℤ)
      → renew_lease l h extension max_lifetime ≡ leased l'
      → Renewed max_lifetime l l'
  again :
      (l' l'' : Lease) (h : HeartbeatV1) (extension : ℤ)
      → Renewed max_lifetime l l'
      → renew_lease l' h extension max_lifetime ≡ leased l''
      → Renewed max_lifetime l l''

-- However often it is renewed, a lease never outlives its lifetime, counted from when it was issued;
-- and nothing but its expiry changes.
pub renew_lease-bounded :
    (max_lifetime : ℤ) (l l' : Lease)
    → Renewed max_lifetime l l'
    → (l'.expires_at ≤ add_time l.issued_at max_lifetime) × (with_expiry l l'.expires_at ≡ l')
renew_lease-bounded max_lifetime l _ (once l' h extension e) =
    let (_, renewal) = (renew_lease-exact l l' h extension max_lifetime).0 e in
    (renewal.in_lifetime, renewal.kept)
renew_lease-bounded max_lifetime l _ (again l' l'' h extension made e) =
    let (_, renewal) = (renew_lease-exact l' l'' h extension max_lifetime).0 e in
    let (_, kept) = renew_lease-bounded max_lifetime l l' made in
    (
      subst (λ issued. l''.expires_at ≤ add_time issued max_lifetime)
          (sym (ap (λ x. x.issued_at) kept)) renewal.in_lifetime,
      ap (λ x. with_expiry x l''.expires_at) kept ∙ renewal.kept,
    )
