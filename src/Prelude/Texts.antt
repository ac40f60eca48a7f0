-- ===== src/Prelude/Texts.antt =====
-- Texts as keys: a set of texts is a list with a Boolean membership test, and `sort_strings` is
-- `sort.Strings`. Texts are valid UTF-8, whose byte order is the order of the code points.
use Prim.Native.Nat.{ℕ, Ordering, compare as compare_ℕ}
use Prim.Native.Char.{code}
use Prim.Native.String.compare
use Prim.Native.String.{String, compare}
use text.Mathlib.Text.{is_le, ◌==◌}
use text.Mathlib.TextEquality.{eq_iff}
use mathlib.Core.Path.{◌≡◌, refl}
use mathlib.Core.Logic.{◌≢◌, ◌⊎◌, inl, inr}
use mathlib.Core.Bool.{Bool, true, false, ◌||◌}
use mathlib.Core.List.{List, [], ◌∷◌, ◌++◌, Perm}
use native.Mathlib.Omega.{arith}
use specd.Prelude.Tests.{if◌then◌else◌, Bool-cases}
use specd.Prelude.Lists.{sort_by, insert_by, IsSortedBy, sort_by-perm, sort_by-IsSortedBy}

pub eq_of_test : (s t : String) → (s == t) ≡ true → s ≡ t
eq_of_test s t h = (eq_iff s t).0 h

pub test_of_eq : (s t : String) → s ≡ t → (s == t) ≡ true
test_of_eq s t e = (eq_iff s t).1 e

pub ne_of_test : (s t : String) → (s == t) ≡ false → s ≢ t
ne_of_test s t h e = cc (h, test_of_eq s t e)

pub test_of_ne : (s t : String) → s ≢ t → (s == t) ≡ false
test_of_ne s t n = ground (arith, eq_iff s t)

-- A split on a comparison of texts.
pub String-cases : (s t : String) → ((s == t) ≡ true) × (s ≡ t) ⊎ ((s == t) ≡ false) × (s ≢ t)
String-cases s t = elim (Bool-cases (s == t)) [
  | inl e ↦ inl (e, eq_of_test s t e)
  | inr e ↦ inr (e, ne_of_test s t e)
]

unfoldable pub mem : String → List String → Bool
mem x [] = false
mem x (y ∷ ys) = (x == y) || mem x ys

-- `delete(m, x)` on the keys of a map.
unfoldable pub remove : String → List String → List String
remove x [] = []
remove x (y ∷ ys) = if x == y then remove x ys else y ∷ remove x ys

pub mem-append : (x : String) (xs ys : List String) → mem x (xs ++ ys) ≡ (mem x xs || mem x ys)
unfolding mem
mem-append x [] ys = refl
mem-append x (y ∷ xs) ys = ground (arith, mem-append x xs ys)

pub mem-remove :
    (x y : String) (ys : List String) → mem x (remove y ys) ≡ (if x == y then false else mem x ys)
unfolding mem remove
mem-remove x y [] = ground arith
mem-remove x y (z ∷ zs) = ground (arith, mem-remove x y zs, eq_iff x y, eq_iff y z, eq_iff x z)

pub remove_absent : (x : String) (ys : List String) → mem x ys ≡ false → remove x ys ≡ ys
unfolding mem remove
remove_absent x [] h = refl
remove_absent x (y ∷ ys) h = ground (arith, remove_absent x ys)

abbrev pub str_le : String → String → Bool
str_le s t = is_le (compare s t)

flip_gt : (m n : ℕ) → compare_ℕ m n ≡ Ordering.gt → compare_ℕ n m ≡ Ordering.lt
flip_gt m n h = ground arith

flip_eq : (m n : ℕ) → compare_ℕ m n ≡ Ordering.eq → compare_ℕ n m ≡ Ordering.eq
flip_eq m n h = ground arith

Ordering-cases : (o : Ordering) → (o ≡ Ordering.lt) ⊎ ((o ≡ Ordering.eq) ⊎ (o ≡ Ordering.gt))
Ordering-cases Ordering.lt = inl refl
Ordering-cases Ordering.eq = inr (inl refl)
Ordering-cases Ordering.gt = inr (inr refl)

-- Of two texts one is at most the other.
pub str_le-total : (s t : String) → str_le s t ≡ false → str_le t s ≡ true
str_le-total String.[] String.[] h = refl
str_le-total String.[] (String.◌∷◌ d t) h = cc (rw (compare.nil-cons d t) at h)
str_le-total (String.◌∷◌ c s) String.[] h = rw (compare.nil-cons c s)
str_le-total (String.◌∷◌ c s) (String.◌∷◌ d t) h =
    rw (compare.cons-cons d c t s) (elim (Ordering-cases (compare_ℕ (code c) (code d))) [
      | inl e ↦ cc (rw (compare.cons-cons c d s t, e) at h)
      | inr (inl e) ↦ rw (flip_eq _ _ e) (str_le-total s t (rw (compare.cons-cons c d s t, e) at h))
      | inr (inr e) ↦ rw (flip_gt _ _ e)
    ])

pub str_le_refl : (s : String) → str_le s s ≡ true
str_le_refl s = elim (Bool-cases (str_le s s)) [ inl h ↦ h | inr h ↦ str_le-total s s h ]

order_step :
    (a b c : ℕ) (x y z : Ordering)
    → (is_le x ≡ true → is_le y ≡ true → is_le z ≡ true)
    → is_le (Prim.Native.String.then (compare_ℕ a b) x) ≡ true
    → is_le (Prim.Native.String.then (compare_ℕ b c) y) ≡ true
    → is_le (Prim.Native.String.then (compare_ℕ a c) z) ≡ true
order_step a b c x y z step h k = ground arith

pub str_le_trans : (s t u : String) → str_le s t ≡ true → str_le t u ≡ true → str_le s u ≡ true
str_le_trans String.[] t String.[] h k = refl
str_le_trans String.[] t (String.◌∷◌ e u) h k = rw (compare.nil-cons e u) refl
str_le_trans (String.◌∷◌ c s) String.[] u h k = cc (rw (compare.cons-nil c s) at h)
str_le_trans (String.◌∷◌ c s) (String.◌∷◌ d t) String.[] h k = cc (rw (compare.cons-nil d t) at k)
str_le_trans (String.◌∷◌ c s) (String.◌∷◌ d t) (String.◌∷◌ e u) h k =
    rw (compare.cons-cons c e s u) (
      order_step (code c) (code d) (code e) (compare s t) (compare t u) (compare s u)
        (str_le_trans s t u) (rw (compare.cons-cons c d s t) at h)
        (rw (compare.cons-cons d e t u) at k))

-- `sort.Strings`.
unfoldable pub sort_strings : List String → List String
unfolding sort_by
sort_strings xs = sort_by str_le xs

abbrev pub IsSorted : List String → Type 0
IsSorted xs = IsSortedBy str_le xs

pub sort_strings-IsSorted : (xs : List String) → IsSorted (sort_strings xs)
unfolding sort_strings
sort_strings-IsSorted xs = sort_by-IsSortedBy str_le str_le-total xs

pub sort_strings-perm : (xs : List String) → Perm (sort_strings xs) xs
unfolding sort_strings
sort_strings-perm xs = sort_by-perm str_le xs

mem-insert_by :
    (x y : String) (ys : List String) → mem x (insert_by str_le y ys) ≡ ((x == y) || mem x ys)
unfolding mem insert_by
mem-insert_by x y [] = refl
mem-insert_by x y (z ∷ zs) = ground (arith, mem-insert_by x y zs)

pub mem-sort_strings : (x : String) (xs : List String) → mem x (sort_strings xs) ≡ mem x xs
unfolding mem sort_strings
mem-sort_strings x [] = refl
mem-sort_strings x (y ∷ ys) =
    ground (arith, mem-insert_by x y (sort_by str_le ys), mem-sort_strings x ys)
