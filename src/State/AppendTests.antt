-- ===== src/State/AppendTests.antt =====
-- internal/core/amendment.go and spike.go: the theorems on new records at a state without any.
use Prim.Native.Char.{char}
use specd.Prelude.{
  ℕ, zero, suc, ◌+◌, String, false, [], ◌∷◌, ◌++◌, none, some, ◌≡◌, refl, ap, ◌⊎◌, ◌↔◌, length,
  trim_space,
}
use specd.State.{State, initial_state}
use specd.State.Records.{Amendment, Spike, Decoders, validate_amendment, validate_spike, spike_keys}
use specd.State.Append.{
  has_key, appended, append_amendment, append_spike, append_amendment-ends, append_spike-ends,
}

-- A key for each number, with as many strokes.
abbrev tally : ℕ → String
tally zero = String.[]
tally (suc n) = String.◌∷◌ (char 49 tt) (tally n)

tally-apart : (i j : ℕ) → tally i ≡ tally j → i ≡ j
tally-apart zero zero e = refl
tally-apart zero (suc j) e = cc
tally-apart (suc i) zero e = cc
tally-apart (suc i) (suc j) e =
    let q : tally i ≡ tally j = cc in ap (λ n. suc n) (tally-apart i j q)

abbrev demo : State
demo = initial_state "demo"

abbrev change : Amendment
change = record {
  change_id = "c1";
  affected_ids = "R1" ∷ [];
  rationale = "r";
  before_digests = [];
  after_digests = [];
  required_rechecks = "T1" ∷ [];
  recorded_revision = 0;
  timestamp = "";
  git_head = "";
  actor = "";
}

abbrev trial : Spike
trial = record {
  question = "q";
  scope = "s";
  expiry = "e";
  output_ref = "";
  timestamp = "";
  git_head = "";
  actor = "";
}

abbrev clock : Decoders
clock = record {
  decode_amendment = λ raw. none;
  decode_spike = λ raw. none;
  decode_approval = λ raw. none;
  parse_time = λ text. some 5;
}

abbrev amendment_text : Amendment → String
amendment_text a = a.change_id

abbrev spike_text : Spike → String
spike_text s = s.question

change-valid : validate_amendment change ≡ none
unfolding validate_amendment
change-valid = refl

trial-valid : validate_spike clock trial ≡ none
unfolding validate_spike trim_space
trial-valid = refl

append_amendment-ends_example :
    (key : String) × (raw : String) × (has_key demo.records key ≡ false)
    × (append_amendment tally amendment_text demo change
        ≡ appended (record demo { records = demo.records ++ (key, raw) ∷ [] }))
append_amendment-ends_example =
    append_amendment-ends tally tally-apart amendment_text demo change change-valid

append_spike-ends_example :
    ((fuel : ℕ) × (s' : State) × (append_spike tally clock spike_text fuel demo trial
        ≡ appended s'))
    ↔ ((has_key demo.records (tally (length (spike_keys demo.records))) ≡ false)
        ⊎ (has_key demo.records (tally (length (spike_keys demo.records) + 1)) ≡ false))
append_spike-ends_example = append_spike-ends tally clock spike_text demo trial trial-valid
