-- ===== src/Mission/Conflict.antt =====
-- internal/orchestration/conflict.go and decide.go: what the two conflict tests let through.
use specd.Prelude.{
  ℕ, String, true, not, ◌||◌, List, [], ◌∷◌, All, Option, none, some, if◌then◌else◌, ◌≡◌, ◌≢◌, refl,
  sym, ◌↔◌, ◌⊎◌, inl, inr, arith, Bool-cases, String-cases, Option-cases, eq_iff, subst,
}
use specd.Lease.{Lease, before_expiry, is_active}
use specd.Mission.{
  MissionV1, by_id, CoordinationRule, coordinated, is_live, scopes_overlap, ConflictError,
  lease_overlap, pre_dispatch_conflict, parallel_error, mission_error, check_parallel_conflict,
}
use specd.Mission.Overlap.{Shares, scopes_overlap-Shares}

-- A round of a loop over leases, whose error comes first.
round_iff :
    (now : ℕ) (l : Lease) (error rest : Option ConflictError)
    → ((if not (is_active l.state) || not (before_expiry now l)
          then rest
          else elim error [ some e ↦ some e | none ↦ rest ])
        ≡ none)
      ↔ ((is_live now l ≡ true → error ≡ none) × (rest ≡ none))
round_iff now l error rest = ground arith

module _ (clean : String → String) where
  -- No live lease of another task holds a mission that shares a file with the scope.
  abbrev pub IsFree : (task_id : String) → List String → List MissionV1 → ℕ → Lease → Type 0
  IsFree task_id declared missions now l =
      is_live now l ≡ true
      → l.task_id ≢ task_id
      → (m : MissionV1) → by_id missions l.mission_id ≡ some m
      → Shares clean declared m.declared_files
      → ⊥

  lease_overlap-none :
      (task_id : String) (declared : List String) (missions : List MissionV1) (l : Lease)
      → (lease_overlap clean task_id declared missions l ≡ none) ↔ (
          l.task_id ≢ task_id
          → (m : MissionV1) → by_id missions l.mission_id ≡ some m
          → Shares clean declared m.declared_files
          → ⊥)
  unfolding lease_overlap
  lease_overlap-none task_id declared missions l = elim (String-cases l.task_id task_id) [
    | inl (e, q) ↦ rw e (λ h n. absurd (n q), λ h. refl)
    | inr (e, q) ↦ elim (Option-cases (by_id missions l.mission_id)) [
      | inl none_known ↦ rw (e, none_known) (λ h n m k. cc, λ h. refl)
      | inr (m, known) ↦
          let (shares, overlaps) = scopes_overlap-Shares clean declared m.declared_files in
          elim (Bool-cases (scopes_overlap clean declared m.declared_files)) [
            | inl b ↦ rw (e, known, b) (λ h. cc, λ h. absurd (h q m refl (shares b)))
            | inr b ↦
                rw (e, known, b)
                  (
                    λ h n m' k s.
                        let same : m ≡ m' = cc in
                        let hit =
                          overlaps
                            (subst (λ x. Shares clean declared x.declared_files) (sym same) s) in
                        cc,
                    λ h. refl,
                  )
          ]
    ]
  ]

  -- PreDispatchConflict lets a task through exactly if no live lease of another task holds a known
  -- mission that shares a file with the declared scope.
  pub pre_dispatch_conflict-exact :
      (task_id : String) (declared : List String) (missions : List MissionV1) (ls : List Lease)
      (now : ℕ)
      → (pre_dispatch_conflict clean task_id declared missions ls now ≡ none)
        ↔ All (IsFree task_id declared missions now) ls
  unfolding pre_dispatch_conflict
  pre_dispatch_conflict-exact task_id declared missions [] now = (λ h. tt, λ h. refl)
  pre_dispatch_conflict-exact task_id declared missions (l ∷ ls) now =
      let (out, into) =
        round_iff now l (lease_overlap clean task_id declared missions l)
          (pre_dispatch_conflict clean task_id declared missions ls now) in
      let (free, held) = lease_overlap-none task_id declared missions l in
      let (rest, back) = pre_dispatch_conflict-exact task_id declared missions ls now in
      (
        λ h. (λ live. free ((out h).0 live), rest (out h).1),
        λ h. into (λ live. held (h.0 live), back h.1),
      )

  -- What a candidate needs of a live lease: a known mission, and that this is the candidate's own, or
  -- ordered right before it by the rule, or isolated with no file in common.
  abbrev pub MayRunBeside :
      (candidate : MissionV1) → List MissionV1 → CoordinationRule → ℕ → Lease → Type 0
  MayRunBeside candidate missions rule now l =
      is_live now l ≡ true
      → (m : MissionV1) × (by_id missions l.mission_id ≡ some m)
        × ((m.mission_id ≡ candidate.mission_id)
            ⊎ ((coordinated m.task_id candidate.task_id rule ≡ true)
                ⊎ ((rule.isolation_id ≢ "")
                    × (Shares clean candidate.declared_files m.declared_files → ⊥))))

  mission_error-none :
      (candidate m : MissionV1) (rule : CoordinationRule)
      → (mission_error clean candidate m rule ≡ none) ↔ (
          (m.mission_id ≡ candidate.mission_id)
          ⊎ ((coordinated m.task_id candidate.task_id rule ≡ true)
              ⊎ ((rule.isolation_id ≢ "")
                  × (Shares clean candidate.declared_files m.declared_files → ⊥))))
  unfolding mission_error
  mission_error-none candidate m rule = ground (
    arith,
    eq_iff m.mission_id candidate.mission_id,
    eq_iff rule.isolation_id "",
    scopes_overlap-Shares clean candidate.declared_files m.declared_files,
  )

  parallel_error-known :
      (candidate m : MissionV1) (missions : List MissionV1) (l : Lease) (rule : CoordinationRule)
      → by_id missions l.mission_id ≡ some m
      → parallel_error clean candidate missions l rule ≡ mission_error clean candidate m rule
  unfolding mission_error parallel_error
  parallel_error-known candidate m missions l rule known = rw (known, parallel_error) refl

  parallel_error-none :
      (candidate : MissionV1) (missions : List MissionV1) (l : Lease) (rule : CoordinationRule)
      (now : ℕ)
      → (is_live now l ≡ true → parallel_error clean candidate missions l rule ≡ none)
        ↔ MayRunBeside candidate missions rule now l
  unfolding parallel_error
  parallel_error-none candidate missions l rule now =
      elim (Option-cases (by_id missions l.mission_id)) [
        | inl unknown ↦
            rw unknown
              (λ h live. absurd (cc (h live)), λ h live. let (m, same, _) = h live in cc same)
        | inr (m, known) ↦
            let (out, into) = mission_error-none candidate m rule in
            rw (parallel_error-known candidate m missions l rule known, known)
              (
                λ h live. (m, refl, out (h live)),
                λ h live. let (m', same, may) = h live in let q : m ≡ m' = cc in into (rw q may),
              )
      ]

  -- CheckParallelConflict admits a candidate exactly if it may run beside every live lease. Without a
  -- proven isolation that leaves its own mission and those that the rule orders right before it.
  pub check_parallel_conflict-exact :
      (candidate : MissionV1) (missions : List MissionV1) (ls : List Lease)
      (rule : CoordinationRule) (now : ℕ)
      → (check_parallel_conflict clean candidate missions ls rule now ≡ none)
        ↔ All (MayRunBeside candidate missions rule now) ls
  unfolding check_parallel_conflict
  check_parallel_conflict-exact candidate missions [] rule now = (λ h. tt, λ h. refl)
  check_parallel_conflict-exact candidate missions (l ∷ ls) rule now =
      let (out, into) =
        round_iff now l (parallel_error clean candidate missions l rule)
          (check_parallel_conflict clean candidate missions ls rule now) in
      let (may, error) = parallel_error-none candidate missions l rule now in
      let (rest, back) = check_parallel_conflict-exact candidate missions ls rule now in
      (λ h. (may (out h).0, rest (out h).1), λ h. into (error h.0, back h.1))
