-- ===== src/State/Append.antt =====
-- internal/core/amendment.go and spike.go: a new record under a key that no record has. The key of a
-- number, `fmt.Sprintf("%s%d", ...)`, is the parameter `key_of`, and encoding the parameter `encode`;
-- a record has an encoding. The loops that look for a key take fuel.
use specd.Prelude.{
  ℕ, zero, suc, ◌+◌, ◌<◌, ◌≤◌, String, Bool, true, false, List, [], ◌∷◌, ◌++◌, Option, none, some,
  eqb, length, if◌then◌else◌, mem, ◌≡◌, refl, ap, ◌⊎◌, ◌↔◌, inl, inr, arith, Bool-cases, test_of_ne,
}
use specd.Dag.Fuel.{room, room-lt, room-le-length}
use specd.State.{State}
use specd.State.Records.{
  Amendment, Spike, Decoders, RecordError, validate_amendment, validate_spike, spike_keys,
  keys_with,
}

abbrev pub keys_of : List (String × String) → List String
keys_of [] = []
keys_of ((key, raw) ∷ records) = key ∷ keys_of records

-- `_, exists := s.Records[key]`.
unfoldable pub has_key : List (String × String) → String → Bool
unfolding mem
has_key records key = mem key (keys_of records)

-- The state after an append, or the error, or a loop that has not ended within its fuel.
pub data AppendedRecord : Type 0 where
  appended : State → AppendedRecord
  invalid : RecordError → AppendedRecord
  looping : AppendedRecord

-- `s.Records[key] = raw` for a new key.
abbrev pub put : State → String → Option String → AppendedRecord
put s raw none = looping
put s raw (some key) = appended (record s { records = s.records ++ (key, raw) ∷ [] })

module _ (key_of : ℕ → String) where
  -- The loop of AppendAmendment, with the length of `keys`.
  unfoldable pub amendment_key : ℕ → List (String × String) → (count : ℕ) → String → Option String
  unfolding has_key
  amendment_key zero raws count key = none
  amendment_key (suc fuel) raws count key =
      let later = amendment_key fuel raws (count + 1) (key_of (count + 1)) in
      if has_key raws key then later else some key

  -- The loop of AppendSpike: the count of the keys stays the same.
  unfoldable pub spike_key : ℕ → List (String × String) → String → Option String
  unfolding has_key spike_keys
  spike_key zero raws key = none
  spike_key (suc fuel) raws key =
      let later = spike_key fuel raws (key_of (length (spike_keys raws) + 1)) in
      if has_key raws key then later else some key

  unfoldable pub append_amendment : (Amendment → String) → State → Amendment → AppendedRecord
  unfolding validate_amendment amendment_key keys_with
  append_amendment encode s a =
      let stamped =
        if eqb a.recorded_revision 0 then record a { recorded_revision = s.revision } else a in
      let count = length (keys_with "amendment:" s.records) in
      elim (validate_amendment a) [
        | some e ↦ invalid e
        | none ↦
            put s (encode stamped)
              (amendment_key (suc (length (keys_of s.records))) s.records count (key_of count))
      ]

  unfoldable pub append_spike : Decoders → (Spike → String) → ℕ → State → Spike → AppendedRecord
  unfolding validate_spike spike_key
  append_spike d encode fuel s spike = elim (validate_spike d spike) [
    | some e ↦ invalid e
    | none ↦
        put s (encode spike) (spike_key fuel s.records (key_of (length (spike_keys s.records))))
  ]

  -- Each round of the amendments' loop has tried one more key.
  amendment_key-free :
      ((i j : ℕ) → key_of i ≡ key_of j → i ≡ j)
      → (raws : List (String × String)) (fuel count : ℕ) (tried : List String)
      → ((j : ℕ) → count ≤ j → mem (key_of j) tried ≡ false)
      → room (keys_of raws) tried < fuel
      → (key : String) × (amendment_key fuel raws count (key_of count) ≡ some key)
        × (has_key raws key ≡ false)
  unfolding amendment_key mem
  amendment_key-free apart raws zero count tried fresh lt = absurd (omega arith)
  amendment_key-free apart raws (suc fuel) count tried fresh lt =
      elim (Bool-cases (has_key raws (key_of count))) [
        | inr e ↦ (key_of count, rw e refl, e)
        | inl e ↦ rw e (
            amendment_key-free apart raws fuel (count + 1) (key_of count ∷ tried)
              (λ j le. still_fresh count j tried le (fresh j (omega (arith, le))))
              (omega
                (arith, room-lt (keys_of raws) tried (key_of count) e (fresh count (omega arith)))))
      ]
    where
      still_fresh :
          (count j : ℕ) (tried : List String)
          → count + 1 ≤ j
          → mem (key_of j) tried ≡ false
          → mem (key_of j) (key_of count ∷ tried) ≡ false
      still_fresh count j tried le h =
          rw
            (
              test_of_ne (key_of j) (key_of count)
                  (λ e. absurd (omega (arith, apart j count e, le))),
              h,
            )
            refl

  -- AppendAmendment of a valid amendment always ends: it adds one record, under a key that no record
  -- has, and changes nothing else.
  pub append_amendment-ends :
      ((i j : ℕ) → key_of i ≡ key_of j → i ≡ j)
      → (encode : Amendment → String) (s : State) (a : Amendment) → validate_amendment a ≡ none
      → (key : String) × (raw : String) × (has_key s.records key ≡ false)
        × (append_amendment encode s a
            ≡ appended (record s { records = s.records ++ (key, raw) ∷ [] }))
  unfolding append_amendment mem
  append_amendment-ends apart encode s a v =
      let count = length (keys_with "amendment:" s.records) in
      let (key, found, free) =
        amendment_key-free apart s.records (suc (length (keys_of s.records))) count []
          (λ j le. refl) (omega (arith, room-le-length (keys_of s.records) [])) in
      (
        key,
        encode
            (if eqb a.recorded_revision 0 then record a { recorded_revision = s.revision } else a),
        free,
        rw (v, append_amendment, found) refl,
      )

  stuck :
      (raws : List (String × String)) (fuel : ℕ)
      → has_key raws (key_of (length (spike_keys raws) + 1)) ≡ true
      → spike_key fuel raws (key_of (length (spike_keys raws) + 1)) ≡ none
  unfolding spike_key
  stuck raws zero h = refl
  stuck raws (suc fuel) h = rw h (stuck raws fuel h)

  never :
      (raws : List (String × String)) (fuel : ℕ)
      → has_key raws (key_of (length (spike_keys raws))) ≡ true
      → has_key raws (key_of (length (spike_keys raws) + 1)) ≡ true
      → spike_key fuel raws (key_of (length (spike_keys raws))) ≡ none
  unfolding spike_key
  never raws zero h k = refl
  never raws (suc fuel) h k = rw h (stuck raws fuel k)

  looping_spike :
      (d : Decoders) (encode : Spike → String) (s : State) (spike : Spike) (fuel : ℕ)
      → validate_spike d spike ≡ none
      → has_key s.records (key_of (length (spike_keys s.records))) ≡ true
      → has_key s.records (key_of (length (spike_keys s.records) + 1)) ≡ true
      → append_spike d encode fuel s spike ≡ looping
  unfolding append_spike
  looping_spike d encode s spike fuel v e f =
      rw (v, append_spike) (ap (put s (encode spike)) (never s.records fuel e f))

  put_at :
      (d : Decoders) (encode : Spike → String) (s : State) (spike : Spike) (key : String)
      → validate_spike d spike ≡ none
      → spike_key 2 s.records (key_of (length (spike_keys s.records))) ≡ some key
      → append_spike d encode 2 s spike ≡ put s (encode spike) (some key)
  unfolding append_spike
  put_at d encode s spike key v k = rw (v, append_spike) (ap (put s (encode spike)) k)

  first_two :
      (d : Decoders) (encode : Spike → String) (s : State) (spike : Spike)
      → validate_spike d spike ≡ none
      → (has_key s.records (key_of (length (spike_keys s.records))) ≡ false)
        ⊎ (has_key s.records (key_of (length (spike_keys s.records) + 1)) ≡ false)
      → (fuel : ℕ) × (s' : State) × (append_spike d encode fuel s spike ≡ appended s')
  unfolding spike_key
  first_two d encode s spike v free =
      let n = length (spike_keys s.records) in
      elim (Bool-cases (has_key s.records (key_of n))) [
        | inr e ↦ (2, _, put_at d encode s spike (key_of n) v (rw e refl))
        | inl e ↦ elim free [
          | inl f ↦ cc
          | inr f ↦ (2, _, put_at d encode s spike (key_of (n + 1)) v (rw (e, f) refl))
        ]
      ]

  -- AppendSpike of a valid spike ends exactly if one of two keys is free: that of the count of the
  -- spikes so far, and the next one. Otherwise it loops for ever.
  pub append_spike-ends :
      (d : Decoders) (encode : Spike → String) (s : State) (spike : Spike)
      → validate_spike d spike ≡ none
      → ((fuel : ℕ) × (s' : State) × (append_spike d encode fuel s spike ≡ appended s')) ↔ (
          (has_key s.records (key_of (length (spike_keys s.records))) ≡ false)
          ⊎ (has_key s.records (key_of (length (spike_keys s.records) + 1)) ≡ false))
  append_spike-ends d encode s spike v = (
    λ ends. elim (Bool-cases (has_key s.records (key_of (length (spike_keys s.records))))) [
      | inr e ↦ inl e
      | inl e ↦ elim (Bool-cases (has_key s.records (key_of (length (spike_keys s.records) + 1)))) [
        | inr f ↦ inr f
        | inl f ↦ cc (looping_spike d encode s spike ends.0 v e f, ends.2)
      ]
    ],
    λ free. first_two d encode s spike v free,
  )
