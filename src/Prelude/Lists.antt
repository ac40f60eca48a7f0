-- ===== src/Prelude/Lists.antt =====
-- Lists under native numbers, predicates by recursion, and stable insertion sort: the order that
-- `sort.SliceStable` and `sort.Strings` give.
use Prim.Native.Nat.{ℕ, zero, suc, ◌+◌, ◌≤◌}
use mathlib.Core.Path.{◌≡◌, refl, ap, ◌∙◌}
use mathlib.Core.Logic.{◌⊎◌, inl, inr}
use mathlib.Core.Bool.{Bool, true, false, ◌&&◌, ◌||◌}
use mathlib.Core.Option.{Option, none, some}
use mathlib.Core.List.{List, [], ◌∷◌, ◌++◌, Perm}
use mathlib.Core.List.Perm
use native.Mathlib.Omega.{arith}
use specd.Prelude.Tests.{if◌then◌else◌, Bool-cases}

module _ {ℓ} {A : Type ℓ} where
  abbrev pub length : List A → ℕ
  length [] = 0
  length (x ∷ xs) = suc (length xs)

  abbrev pub get_elem? : List A → ℕ → Option A
  get_elem? [] i = none
  get_elem? (x ∷ xs) zero = some x
  get_elem? (x ∷ xs) (suc i) = get_elem? xs i

  pub length-append : (xs ys : List A) → length (xs ++ ys) ≡ length xs + length ys
  length-append [] ys = omega arith
  length-append (x ∷ xs) ys = omega (arith, length-append xs ys)

  pub List-cases : (xs : List A) → (xs ≡ []) ⊎ ((x : A) × (rest : List A) × (xs ≡ x ∷ rest))
  List-cases [] = inl refl
  List-cases (x ∷ xs) = inr (x, xs, refl)

  abbrev pub All {κ} : (A → Type κ) → List A → Type κ
  All P [] = Unit
  All P (x ∷ xs) = P x × All P xs

  -- `filter` by a Boolean test.
  abbrev pub keep : (A → Bool) → List A → List A
  keep p [] = []
  keep p (x ∷ xs) = if p x then x ∷ keep p xs else keep p xs

  abbrev pub any : (A → Bool) → List A → Bool
  any p [] = false
  any p (x ∷ xs) = p x || any p xs

  abbrev pub all : (A → Bool) → List A → Bool
  all p [] = true
  all p (x ∷ xs) = p x && all p xs

  pub length-keep-le : (p : A → Bool) (xs : List A) → length (keep p xs) ≤ length xs
  length-keep-le p [] = omega arith
  length-keep-le p (x ∷ xs) = ground (arith, length-keep-le p xs)

  pub All-keep {κ} : (P : A → Type κ) (p : A → Bool) (xs : List A) → All P xs → All P (keep p xs)
  All-keep P p [] h = tt
  All-keep P p (x ∷ xs) h = elim (Bool-cases (p x)) [
    | inl e ↦ rw e (h.0, All-keep P p xs h.1)
    | inr e ↦ rw e (All-keep P p xs h.1)
  ]

  pub All-map {κ μ} :
      (P : A → Type κ) (Q : A → Type μ) (xs : List A) → ((x : A) → P x → Q x) → All P xs → All Q xs
  All-map P Q [] f h = tt
  All-map P Q (x ∷ xs) f h = (f x h.0, All-map P Q xs f h.1)

  pub All-last {κ} : (P : A → Type κ) (xs : List A) (x : A) → All P xs → P x → All P (xs ++ x ∷ [])
  All-last P [] x h p = (p, tt)
  All-last P (y ∷ ys) x h p = (h.0, All-last P ys x h.1 p)

module _ {ℓ} {A : Type ℓ} (le : A → A → Bool) where
  unfoldable pub insert_by : A → List A → List A
  insert_by x [] = x ∷ []
  insert_by x (y ∷ ys) = if le x y then x ∷ y ∷ ys else y ∷ insert_by x ys

  unfoldable pub sort_by : List A → List A
  unfolding insert_by
  sort_by [] = []
  sort_by (x ∷ xs) = insert_by x (sort_by xs)

  abbrev pub HeadLe : A → List A → Type 0
  HeadLe x [] = Unit
  HeadLe x (y ∷ ys) = le x y ≡ true

  abbrev pub IsSortedBy : List A → Type 0
  IsSortedBy [] = Unit
  IsSortedBy (x ∷ xs) = HeadLe x xs × IsSortedBy xs

module _ {ℓ} {A : Type ℓ} (le : A → A → Bool) where
  insert_by-perm : (x : A) (xs : List A) → Perm (insert_by le x xs) (x ∷ xs)
  unfolding insert_by
  insert_by-perm x [] = Perm.refl (x ∷ [])
  insert_by-perm x (y ∷ ys) = elim (Bool-cases (le x y)) [
    | inl e ↦ rw e (Perm.refl (x ∷ y ∷ ys))
    | inr e ↦ rw e (Perm.trans (Perm.cons y (insert_by-perm x ys)) (Perm.swap x y ys))
  ]

  pub sort_by-perm : (xs : List A) → Perm (sort_by le xs) xs
  unfolding sort_by
  sort_by-perm [] = Perm.refl []
  sort_by-perm (x ∷ xs) =
      Perm.trans (insert_by-perm x (sort_by le xs)) (Perm.cons x (sort_by-perm xs))

  All-insert_by {κ} :
      (P : A → Type κ) (x : A) (xs : List A)
      → (All P (insert_by le x xs) → P x × All P xs) × (P x × All P xs → All P (insert_by le x xs))
  unfolding insert_by
  All-insert_by P x [] = (λ h. h, λ h. h)
  All-insert_by P x (y ∷ ys) = elim (Bool-cases (le x y)) [
    | inl e ↦ rw e (λ h. h, λ h. h)
    | inr e ↦
        let (out, into) = All-insert_by P x ys in
        rw e (λ h. ((out h.1).0, (h.0, (out h.1).1)), λ h. (h.1.0, into (h.0, h.1.1)))
  ]

  -- Sorting keeps what holds of every element, and brings nothing in.
  pub All-sort_by {κ} :
      (P : A → Type κ) (xs : List A)
      → (All P (sort_by le xs) → All P xs) × (All P xs → All P (sort_by le xs))
  unfolding sort_by
  All-sort_by P [] = (λ h. h, λ h. h)
  All-sort_by P (x ∷ xs) =
      let (out, into) = All-insert_by P x (sort_by le xs) in
      let (rest, back) = All-sort_by P xs in
      (λ h. ((out h).0, rest (out h).1), λ h. into (h.0, back h.1))

  HeadLe-insert_by :
      (x y : A) (ys : List A) → HeadLe le y ys → le y x ≡ true → HeadLe le y (insert_by le x ys)
  unfolding insert_by
  HeadLe-insert_by x y [] h e = e
  HeadLe-insert_by x y (z ∷ zs) h e = elim (Bool-cases (le x z)) [ inl t ↦ rw t e | inr t ↦ rw t h ]

  module _ (total : (a b : A) → le a b ≡ false → le b a ≡ true) where
    insert_by-IsSortedBy :
        (x : A) (xs : List A) → IsSortedBy le xs → IsSortedBy le (insert_by le x xs)
    unfolding insert_by
    insert_by-IsSortedBy x [] h = (tt, tt)
    insert_by-IsSortedBy x (y ∷ ys) h = elim (Bool-cases (le x y)) [
      | inl e ↦ rw e (e, h)
      | inr e ↦ rw e (HeadLe-insert_by x y ys h.0 (total x y e), insert_by-IsSortedBy x ys h.1)
    ]

    pub sort_by-IsSortedBy : (xs : List A) → IsSortedBy le (sort_by le xs)
    unfolding sort_by
    sort_by-IsSortedBy [] = tt
    sort_by-IsSortedBy (x ∷ xs) = insert_by-IsSortedBy x (sort_by le xs) (sort_by-IsSortedBy xs)

  pub sorted-All :
      ((a b c : A) → le a b ≡ true → le b c ≡ true → le a c ≡ true)
      → (x : A) (xs : List A) → IsSortedBy le (x ∷ xs)
      → All (λ y. le x y ≡ true) xs
  sorted-All trans x [] h = tt
  sorted-All trans x (y ∷ ys) h = (
    h.0,
    All-map (λ z. le y z ≡ true) (λ z. le x z ≡ true) ys (λ z. trans x y z h.0)
        (sorted-All trans y ys h.1),
  )

-- Insertion sort is stable: elements that the order does not tell apart keep their order.
module _ {ℓ} {A : Type ℓ} (le : A → A → Bool) (p : A → Bool)
    (alike : (a b : A) → p a ≡ true → p b ≡ true → le a b ≡ true) where
  keep-insert_by : (x : A) (xs : List A) → keep p (insert_by le x xs) ≡ keep p (x ∷ xs)
  unfolding insert_by
  keep-insert_by x [] = refl
  keep-insert_by x (y ∷ ys) = elim (Bool-cases (le x y)) [
    | inl e ↦ rw e refl
    | inr e ↦
        let rest = keep-insert_by x ys in
        elim (Bool-cases (p x)) [
          | inl a ↦ elim (Bool-cases (p y)) [
            | inl b ↦ cc (e, alike x y a b)
            | inr b ↦ rw (e, b, rest, a) refl
          ]
          | inr a ↦ rw (e, rest, a) refl
        ]
  ]

  pub keep-sort_by : (xs : List A) → keep p (sort_by le xs) ≡ keep p xs
  unfolding sort_by
  keep-sort_by [] = refl
  keep-sort_by (x ∷ xs) =
      keep-insert_by x (sort_by le xs) ∙ ap (λ r. if p x then x ∷ r else r) (keep-sort_by xs)
