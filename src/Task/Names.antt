-- ===== src/Task/Names.antt =====
-- internal/core/tasksparser.go, splitMarkedTaskID: which id the first cell of a row names.
use specd.Prelude.{
  String, true, false, List, [], ◌∷◌, ◌++◌, All, some, none, if◌then◌else◌, eqb, is_empty,
  trim_space, ◌≡◌, ◌≢◌, refl, sym, ap, ◌∙◌, subst, ◌↔◌, ◌⊎◌, inl, inr, arith, Bool-cases,
}
use Prim.Native.Char.{code}
use specd.Markdown.{join, starts_with, trim_of, fields}
use specd.Task.Rewrite.{found_or, first_marked, id_among, split_marked_task_id}

-- A word that starts with `T`, once its backquotes are off.
abbrev pub IsIdWord : String → Type 0
IsIdWord word = starts_with 84 (trim_of 96 word) ≡ true

-- The first word of that form is the id; without one, it is the whole text.
pub data Names (value id : String) (words : List String) : Type 0 where
  word :
      (before : List String) (w : String) (after : List String)
      → words ≡ before ++ w ∷ after
      → All (λ x. ¬ IsIdWord x) before
      → IsIdWord w
      → trim_of 96 w ≡ id
      → Names value id words
  whole : words ≢ [] → All (λ x. ¬ IsIdWord x) words → value ≡ id → Names value id words
  blank : words ≡ [] → "" ≡ id → Names value id words

first_marked-found :
    (passed before : List String) (w : String) (after : List String)
    → All (λ x. ¬ IsIdWord x) before
    → IsIdWord w
    → (m : String) × (first_marked passed (before ++ w ∷ after) ≡ some (m, trim_of 96 w))
unfolding first_marked
first_marked-found passed [] w after none_before h = (join " " passed, rw h refl)
first_marked-found passed (b ∷ bs) w after none_before h =
    elim (Bool-cases (starts_with 84 (trim_of 96 b))) [
      | inl e ↦ absurd (none_before.0 e)
      | inr e ↦
          let (m, found) = first_marked-found (passed ++ b ∷ []) bs w after none_before.1 h in
          (m, rw e found)
    ]

first_marked-none :
    (passed words : List String) → All (λ x. ¬ IsIdWord x) words → first_marked passed words ≡ none
unfolding first_marked
first_marked-none passed [] h = refl
first_marked-none passed (w ∷ words) h = elim (Bool-cases (starts_with 84 (trim_of 96 w))) [
  | inl e ↦ absurd (h.0 e)
  | inr e ↦ rw e (first_marked-none (passed ++ w ∷ []) words h.1)
]

-- A word that starts with `T` does so without its backquotes.
starts_with-IsIdWord : (w : String) → starts_with 84 w ≡ true → IsIdWord w
unfolding trim_of
starts_with-IsIdWord String.[] h = cc h
starts_with-IsIdWord (String.◌∷◌ c s) h =
    let q : eqb (code c) 96 ≡ false = ground (arith, h) in rw q (rw q h)

id_among-found :
    (value : String) (words : List String) (m id : String)
    → first_marked [] words ≡ some (m, id)
    → (id_among value words).1 ≡ id
unfolding id_among
id_among-found value [] m id h = cc h
id_among-found value (w ∷ ws) m id h =
    ap (λ o. (found_or o (if starts_with 84 w then ("", w) else ("", value))).1) h

id_among-whole :
    (value : String) (words : List String)
    → words ≢ []
    → All (λ x. ¬ IsIdWord x) words
    → (id_among value words).1 ≡ value
unfolding id_among
id_among-whole value [] n h = absurd (n refl)
id_among-whole value (w ∷ ws) n h = elim (Bool-cases (starts_with 84 w)) [
  | inl e ↦ absurd (h.0 (starts_with-IsIdWord w e))
  | inr e ↦
      ap (λ o. (found_or o (if starts_with 84 w then ("", w) else ("", value))).1)
        (first_marked-none [] (w ∷ ws) h)
      ∙ rw e refl
]

id_among-Names :
    (value id : String) (words : List String) → Names value id words → (id_among value words).1 ≡ id
unfolding id_among
id_among-Names value id words (word before w after parts others h q) =
    let (m, found) = first_marked-found [] before w after others h in
    id_among-found value words m (trim_of 96 w) (ap (first_marked []) parts ∙ found) ∙ q
id_among-Names value id words (whole n h q) = id_among-whole value words n h ∙ q
id_among-Names value id words (blank e q) = ap (λ ws. (id_among value ws).1) e ∙ q

-- Every text names some id.
Names-total : (value : String) (words : List String) → (id : String) × Names value id words
Names-total value [] = ("", blank refl refl)
Names-total value (w ∷ ws) = elim (first_word (w ∷ ws)) [
  | inl h ↦ (value, whole (λ e. cc e) h refl)
  | inr (before, x, after, parts, others, h) ↦
      (trim_of 96 x, word before x after parts others h refl)
]
  where
    first_word :
        (words : List String)
        → All (λ x. ¬ IsIdWord x) words
          ⊎ ((before : List String) × (x : String) × (after : List String) × (words
                ≡ before ++ x ∷ after)
              × All (λ y. ¬ IsIdWord y) before
              × IsIdWord x)
    first_word [] = inl tt
    first_word (x ∷ xs) = elim (Bool-cases (starts_with 84 (trim_of 96 x))) [
      | inl e ↦ inr ([], x, xs, refl, tt, e)
      | inr e ↦ elim (first_word xs) [
        | inl h ↦ inl (λ k. cc (e, k), h)
        | inr (before, y, after, parts, others, h) ↦
            inr (x ∷ before, y, after, ap (λ ys. x ∷ ys) parts, (λ k. cc (e, k), others), h)
      ]
    ]

split_marked_task_id-among :
    (text : String)
    → split_marked_task_id text
      ≡ id_among (trim_of 96 (trim_space text)) (fields (trim_of 96 (trim_space text)))
unfolding split_marked_task_id
split_marked_task_id-among text = of_value (trim_of 96 (trim_space text))
  where
    of_value :
        (value : String)
        → (if is_empty value then ("", "") else id_among value (fields value))
          ≡ id_among value (fields value)
    of_value String.[] = refl
    of_value (String.◌∷◌ c s) = refl

-- The id that the text of a cell names.
abbrev pub NamesId : (text id : String) → Type 0
NamesId text id = Names (trim_of 96 (trim_space text)) id (fields (trim_of 96 (trim_space text)))

-- splitMarkedTaskID answers with the id that the text names.
pub split_marked_task_id-Names :
    (text id : String) → ((split_marked_task_id text).1 ≡ id) ↔ NamesId text id
split_marked_task_id-Names text id =
    let value = trim_of 96 (trim_space text) in
    let among = ap (λ r. r.1) (split_marked_task_id-among text) in
    (
      λ h.
          let (named, n) = Names-total value (fields value) in
          let same = sym (id_among-Names value named (fields value) n) ∙ sym among ∙ h in
          subst (λ i. Names value i (fields value)) same n,
      λ n. among ∙ id_among-Names value id (fields value) n,
    )
