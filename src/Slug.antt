-- ===== src/Slug.antt =====
-- internal/core/slug.go: the identifiers of specs.
mod Tests
use specd.Prelude.{
  String, Bool, true, false, not, ◌&&◌, ◌||◌, ◌==◌, leb, eqb, if◌then◌else◌, ◌≡◌, ◌≢◌, test_of_ne,
  ◌↔◌, refl, arith, Bool-cases, inl, inr,
}
use Prim.Native.Char.{Char, code}

abbrev pub is_hyphen : Char → Bool
is_hyphen c = eqb (code c) 45

-- A lower-case letter or a digit.
abbrev pub is_plain : Char → Bool
is_plain c = let n = code c in (leb 97 n && leb n 122) || (leb 48 n && leb n 57)

-- The loop of ValidSlug, at the first character or behind one, with `lastHyphen`.
unfoldable pub slug_from : (first last_hyphen : Bool) → String → Bool
slug_from first last_hyphen String.[] = not last_hyphen
slug_from first last_hyphen (String.◌∷◌ c s) =
    let rest = slug_from false (is_hyphen c) s in
    if not (is_plain c || is_hyphen c)
    then false
    else if first && is_hyphen c
    then false
    else if is_hyphen c && last_hyphen
    then false
    else rest

unfoldable pub valid_slug : String → Bool
unfolding slug_from
valid_slug slug = if slug == "" then false else slug_from true false slug

-- The words `[a-z0-9]+(-[a-z0-9]+)*`.
pub data IsSlug : String → Type 0 where
  last : (c : Char) → is_plain c ≡ true → IsSlug (String.◌∷◌ c String.[])
  more : (c : Char) (s : String) → is_plain c ≡ true → IsSlug s → IsSlug (String.◌∷◌ c s)
  hyphen :
      (c h : Char) (s : String)
      → is_plain c ≡ true
      → is_hyphen h ≡ true
      → IsSlug s
      → IsSlug (String.◌∷◌ c (String.◌∷◌ h s))

plain_no_hyphen : (c : Char) → is_plain c ≡ true → is_hyphen c ≡ false
plain_no_hyphen c h = ground arith

behind-IsSlug :
    (c : Char) (s : String)
    → is_plain c ≡ true
    → slug_from false false s ≡ true
    → IsSlug (String.◌∷◌ c s)
unfolding slug_from
behind-IsSlug c String.[] p h = last c p
behind-IsSlug c (String.◌∷◌ d String.[]) p h = elim (Bool-cases (is_plain d)) [
  | inl q ↦ more c (String.◌∷◌ d String.[]) p (last d q)
  | inr q ↦ absurd (ground arith)
]
behind-IsSlug c (String.◌∷◌ d (String.◌∷◌ e s)) p h = elim (Bool-cases (is_plain d)) [
  | inl q ↦
      more c (String.◌∷◌ d (String.◌∷◌ e s)) p
        (behind-IsSlug d (String.◌∷◌ e s) q (rw (q, plain_no_hyphen d q) at h))
  | inr q ↦ elim (Bool-cases (is_plain e)) [
    | inl r ↦ hyphen c d (String.◌∷◌ e s) p (ground arith) (behind-IsSlug e s r (ground arith))
    | inr r ↦ absurd (ground arith)
  ]
]

-- A word is accepted at any place where one may start.
IsSlug-accepted : {s : String} → IsSlug s → (first lh : Bool) → slug_from first lh s ≡ true
unfolding slug_from
IsSlug-accepted (last c p) first lh = rw (p, plain_no_hyphen c p) (ground arith)
IsSlug-accepted (more c s p r) first lh =
    let inner = IsSlug-accepted r false false in rw (p, plain_no_hyphen c p) (ground (arith, inner))
IsSlug-accepted (hyphen c h s p q r) first lh =
    let inner = IsSlug-accepted r false true in
    rw (p, plain_no_hyphen c p, q) (ground (arith, inner))

start-IsSlug : (s : String) → valid_slug s ≡ true → IsSlug s
unfolding valid_slug slug_from
start-IsSlug String.[] h = cc
start-IsSlug (String.◌∷◌ c s) h = elim (Bool-cases (is_plain c)) [
  | inl q ↦ behind-IsSlug c s q (ground (arith, plain_no_hyphen c q))
  | inr q ↦ absurd (ground arith)
]

not_empty : {s : String} → IsSlug s → s ≢ ""
not_empty (last c p) e = cc
not_empty (more c s p r) e = cc
not_empty (hyphen c h s p q r) e = cc

-- ValidSlug accepts exactly the words of lower-case letters and digits that single hyphens join.
pub valid_slug-IsSlug : (s : String) → (valid_slug s ≡ true) ↔ IsSlug s
unfolding valid_slug
valid_slug-IsSlug s =
    (start-IsSlug s, λ r. rw (test_of_ne s "" (not_empty r)) (IsSlug-accepted r true false))
