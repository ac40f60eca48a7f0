-- ===== src/Mission/Overlap.antt =====
-- internal/orchestration/conflict.go, scopesOverlap: when two write scopes share a file.
use specd.Prelude.{
  String, Bool, true, List, [], ◌∷◌, ◌==◌, any, mem, ◌≡◌, ◌≢◌, refl, sym, ◌∙◌, ◌↔◌, inl, inr,
  Bool-cases, String-cases, test_of_ne, subst,
}
use specd.Dag.Search.{mem-cons, mem_self, mem_tail}
use specd.Dag.Acyclic.{not-mem-nil}
use specd.Mission.{normalize_scope, scope_keys, scopes_overlap}

pub any-mem :
    (t : String → Bool) (xs : List String)
    → (any t xs ≡ true) ↔ ((x : String) × (mem x xs ≡ true) × (t x ≡ true))
any-mem t [] = (λ h. cc, λ (x, m, h). absurd (not-mem-nil x m))
any-mem t (y ∷ ys) = elim (Bool-cases (t y)) [
  | inl e ↦ (λ h. (y, mem_self y ys, e), λ k. rw e refl)
  | inr e ↦ (
    λ h. let (x, m, k) = (any-mem t ys).0 (rw e at h) in (x, mem_tail x y ys m, k),
    λ (x, m, k). elim (mem-cons x y ys m) [
      | inl q ↦ cc
      | inr r ↦ rw e ((any-mem t ys).1 (x, r, k))
    ],
  )
]

module _ (clean : String → String) where
  -- Two scopes share a file if two of their paths are the same one when cleaned, and not empty.
  pub record Shares (a b : List String) : Type 0 where
    pub first : String
    pub second : String
    pub in_first : mem first a ≡ true
    pub in_second : mem second b ≡ true
    pub same : normalize_scope clean first ≡ normalize_scope clean second
    pub named : normalize_scope clean first ≢ ""

  keys_out :
      (a : List String) (k : String)
      → mem k (scope_keys clean a) ≡ true
      → (p : String) × (mem p a ≡ true) × (normalize_scope clean p ≡ k) × (k ≢ "")
  unfolding scope_keys
  keys_out [] k m = absurd (not-mem-nil k m)
  keys_out (q ∷ qs) k m = elim (String-cases (normalize_scope clean q) "") [
    | inl (e, _) ↦
        let (p, inside, same, named) = keys_out qs k (rw e at m) in
        (p, mem_tail p q qs inside, same, named)
    | inr (e, ne) ↦ elim (mem-cons k (normalize_scope clean q) (scope_keys clean qs) (rw e at m)) [
      | inl same ↦ (q, mem_self q qs, sym same, λ z. ne (sym same ∙ z))
      | inr rest ↦
          let (p, inside, same, named) = keys_out qs k rest in
          (p, mem_tail p q qs inside, same, named)
    ]
  ]

  keys_into :
      (a : List String) (p : String)
      → mem p a ≡ true
      → normalize_scope clean p ≢ ""
      → mem (normalize_scope clean p) (scope_keys clean a) ≡ true
  unfolding scope_keys
  keys_into [] p m named = absurd (not-mem-nil p m)
  keys_into (q ∷ qs) p m named = elim (mem-cons p q qs m) [
    | inl same ↦
        rw (← same, test_of_ne _ _ named) (mem_self (normalize_scope clean p) (scope_keys clean qs))
    | inr rest ↦ elim (Bool-cases (normalize_scope clean q == "")) [
      | inl e ↦ rw e (keys_into qs p rest named)
      | inr e ↦ rw e (
          mem_tail (normalize_scope clean p) (normalize_scope clean q) (scope_keys clean qs)
            (keys_into qs p rest named))
    ]
  ]

  -- scopesOverlap answers true exactly if the two scopes share a file.
  pub scopes_overlap-Shares : (a b : List String) → (scopes_overlap clean a b ≡ true) ↔ Shares a b
  unfolding scopes_overlap
  scopes_overlap-Shares a b = (
    λ h.
        let (q, inside, hit) =
          (any-mem (λ p. mem (normalize_scope clean p) (scope_keys clean a)) b).0 h in
        let (p, found, same, named) = keys_out a (normalize_scope clean q) hit in
        record {
          first = p;
          second = q;
          in_first = found;
          in_second = inside;
          same = same;
          named = λ z. named (sym same ∙ z);
        },
    λ s. (any-mem (λ p. mem (normalize_scope clean p) (scope_keys clean a)) b).1 (
      s.second,
      s.in_second,
      subst (λ k. mem k (scope_keys clean a) ≡ true) s.same
          (keys_into a s.first s.in_first s.named),
    ),
  )
