-- ===== src/State/Records.antt =====
-- internal/core/amendment.go, spike.go and approval_request.go: the records of a state that its
-- validation reads. `json.Unmarshal` is a parameter that answers `none` where it fails, and
-- `time.Parse(time.RFC3339, _)` the parameter `parse_time`: an instant is a number of nanoseconds.
use specd.Prelude.{
  ℕ, String, Bool, true, false, not, ◌&&◌, ◌||◌, List, [], ◌∷◌, Option, none, some, ◌==◌, ltb, eqb,
  if◌then◌else◌, mem, sort_strings, trim_space,
}
use Prim.Native.Char.{code}
use specd.Approval.{ApprovalRequestRecord}
use specd.State.{State}

-- Clock, git head and actor stamp a record: nothing here reads them but the timestamp of a spike.
pub record Amendment : Type 0 where
  pub change_id : String
  pub affected_ids : List String
  pub rationale : String
  pub before_digests : List (String × String)
  pub after_digests : List (String × String)
  pub required_rechecks : List String
  pub recorded_revision : ℕ
  pub timestamp : String
  pub git_head : String
  pub actor : String

pub record Spike : Type 0 where
  pub question : String
  pub scope : String
  pub expiry : String
  pub output_ref : String
  pub timestamp : String
  pub git_head : String
  pub actor : String

pub data RecordError : Type 0 where
  field_required : (name : String) → RecordError
  bad_affected_id : String → RecordError
  not_a_time : String → RecordError
  unbounded : RecordError
  undecodable : (key : String) → RecordError

-- The loop over AffectedIDs, with the ids seen so far.
unfoldable pub first_bad_id : (seen : List String) → List String → Option String
unfolding mem
first_bad_id seen [] = none
first_bad_id seen (id ∷ ids) =
    let rest = first_bad_id (id ∷ seen) ids in if id == "" || mem id seen then some id else rest

abbrev is_nil : List String → Bool
is_nil [] = true
is_nil (x ∷ xs) = false

unfoldable pub validate_amendment : Amendment → Option RecordError
unfolding first_bad_id
validate_amendment a =
    if a.change_id == ""
    then some (field_required "change_id")
    else if a.rationale == ""
    then some (field_required "rationale")
    else if is_nil a.affected_ids
    then some (field_required "affected_ids")
    else elim (first_bad_id [] a.affected_ids) [
      | some id ↦ some (bad_affected_id id)
      | none ↦
          if is_nil a.required_rechecks then some (field_required "required_rechecks") else none
    ]

-- `strings.HasPrefix`.
unfoldable pub has_prefix : (key prefix : String) → Bool
has_prefix key String.[] = true
has_prefix String.[] (String.◌∷◌ d p) = false
has_prefix (String.◌∷◌ c s) (String.◌∷◌ d p) = eqb (code c) (code d) && has_prefix s p

-- The keys of a map that start with a prefix.
unfoldable pub keys_with : (prefix : String) → List (String × String) → List String
unfolding has_prefix
keys_with prefix [] = []
keys_with prefix ((key, raw) ∷ records) =
    let rest = keys_with prefix records in if has_prefix key prefix then key ∷ rest else rest

-- `s.Records[key]`, which is nil for a key that is missing.
unfoldable pub raw_of : List (String × String) → String → String
raw_of [] key = ""
raw_of ((k, raw) ∷ records) key = if k == key then raw else raw_of records key

-- A list of records, or the first error.
pub data Read {ℓ} (A : Type ℓ) : Type ℓ where
  records : List A → Read A
  failed : RecordError → Read A

abbrev pub prepend {ℓ} : {A : Type ℓ} → A → Read A → Read A
prepend a (records l) = records (a ∷ l)
prepend a (failed e) = failed e

-- The loop over the sorted keys.
unfoldable pub read_keys {ℓ} :
    {A : Type ℓ} (decode : String → Option A) (validate : A → Option RecordError)
    → List (String × String)
    → List String
    → Read A
unfolding raw_of
read_keys decode validate raws [] = records []
read_keys decode validate raws (key ∷ keys) =
    let rest = read_keys decode validate raws keys in
    elim (decode (raw_of raws key)) [
      | none ↦ failed (undecodable key)
      | some a ↦ elim (validate a) [ some e ↦ failed e | none ↦ prepend a rest ]
    ]

unfoldable pub spike_keys : List (String × String) → List String
unfolding keys_with
spike_keys raws = keys_with "spike:" raws

-- The decoders that validation needs.
pub record Decoders : Type 0 where
  pub decode_amendment : String → Option Amendment
  pub decode_spike : String → Option Spike
  pub decode_approval : String → Option ApprovalRequestRecord
  pub parse_time : String → Option ℕ

module _ (d : Decoders) where
  -- The timestamp of a spike, where it has one, precedes its expiry.
  unfoldable pub bounded_by : Spike → ℕ → Option RecordError
  bounded_by s expiry = if s.timestamp == "" then none else elim (d.parse_time s.timestamp) [
    | none ↦ some (not_a_time s.timestamp)
    | some recorded ↦ if ltb recorded expiry then none else some unbounded
  ]

  unfoldable pub validate_spike : Spike → Option RecordError
  unfolding bounded_by
  validate_spike s =
      if trim_space s.question == ""
      then some (field_required "question")
      else if trim_space s.scope == ""
      then some (field_required "scope")
      else if trim_space s.expiry == ""
      then some (field_required "expiry")
      else elim (d.parse_time s.expiry) [
        | none ↦ some (not_a_time s.expiry)
        | some expiry ↦ bounded_by s expiry
      ]

  -- `now` is the instant of the call.
  unfoldable pub expired : Spike → (now : ℕ) → Bool
  expired s now = elim (d.parse_time s.expiry) [ none ↦ true | some e ↦ not (ltb now e) ]

  unfoldable pub amendments : State → Read Amendment
  unfolding read_keys keys_with validate_amendment
  amendments s =
      read_keys d.decode_amendment validate_amendment s.records
        (sort_strings (keys_with "amendment:" s.records))

  unfoldable pub spikes : State → Read Spike
  unfolding read_keys spike_keys validate_spike
  spikes s = read_keys d.decode_spike validate_spike s.records (sort_strings (spike_keys s.records))

  unfoldable pub read_approval_requests : List (String × String) → Read ApprovalRequestRecord
  unfolding read_keys keys_with
  read_approval_requests raws =
      read_keys d.decode_approval (λ _. none) raws
        (sort_strings (keys_with "approval_request:" raws))

  unfoldable pub approval_requests : State → Read ApprovalRequestRecord
  unfolding read_approval_requests
  approval_requests s = read_approval_requests s.records
