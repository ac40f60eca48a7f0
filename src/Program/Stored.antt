-- ===== src/Program/Stored.antt =====
-- internal/core/program.go, LoadProgram and SaveProgram: a program that was built is read as it was
-- written.
use specd.Prelude.{
  ◌≤◌, true, false, List, [], ◌∷◌, ◌++◌, map, Option, none, some, all, leb, length, length-append,
  All, ◌≡◌, refl, ap, ◌∙◌, arith, pos, eq_refl,
}
use specd.Program.{
  LinkKind, ProgramLink, Program, linked, valid_kind, links_of, link_between, add_new_link,
  add_typed_link, joins, program_link_limit, program_links_per_spec_limit,
}
use specd.Program.File.{
  program, with_kind, default_kind, add_all, accept_links, load_program, save_program,
}
use specd.Program.Links.{
  Sound, Distinct, IsProgram, IsBuilt, links_of-append, joins_sym, between-append,
  add_typed_link-bounded,
}

All-middle :
    (P : ProgramLink → Type 0) (xs ys : List ProgramLink) (x : ProgramLink)
    → All P (xs ++ x ∷ ys)
    → P x
All-middle P [] ys x h = h.0
All-middle P (y ∷ xs) ys x h = All-middle P xs ys x h.1

-- No earlier link joins the specs of a later one.
Distinct-middle :
    (xs ys : List ProgramLink) (x : ProgramLink)
    → Distinct (xs ++ x ∷ ys)
    → link_between xs x.from x.to ≡ none
unfolding link_between
Distinct-middle [] ys x d = refl
Distinct-middle (y ∷ xs) ys x d =
    let (_, behind) = between-append xs (x ∷ ys) y.from y.to d.0 in
    rw (joins_sym y x (not_joined y x ys behind)) (Distinct-middle xs ys x d.1)
  where
    not_joined :
        (y x : ProgramLink) (ys : List ProgramLink)
        → link_between (x ∷ ys) y.from y.to ≡ none
        → joins y.from y.to x ≡ false
    not_joined y x ys h = ground arith

abbrev with_links : List ProgramLink → Program
with_links links = record { schema_version = pos 1; links = links }

links_of_self : (x : ProgramLink) (ys : List ProgramLink) → 1 ≤ links_of (x ∷ ys) x.from
unfolding links_of
links_of_self x ys = rw (eq_refl x.from) (omega arith)

-- A later link can be added behind the earlier ones.
add_new_link-middle :
    (xs ys : List ProgramLink) (x : ProgramLink)
    → IsProgram (xs ++ x ∷ ys)
    → add_new_link (with_links xs) x.from x.to x.kind x.reason ≡ linked (with_links (xs ++ x ∷ []))
unfolding add_new_link
add_new_link-middle xs ys x p =
    let a : leb program_link_limit (length xs) ≡ false =
      ground (arith, p.bounded, length-append xs (x ∷ ys)) in
    let b : leb program_links_per_spec_limit (links_of xs x.from) ≡ false =
      ground (arith, p.each x.from, links_of-append xs (x ∷ ys) x.from, links_of_self x ys) in
    rw (a, b) refl

add_typed_link-middle :
    (xs ys : List ProgramLink) (x : ProgramLink)
    → IsProgram (xs ++ x ∷ ys)
    → add_typed_link (with_links xs) x.from x.to x.kind x.reason
      ≡ linked (with_links (xs ++ x ∷ []))
unfolding add_typed_link
add_typed_link-middle xs ys x p =
    let (a, b, k) = All-middle Sound xs ys x p.sound in
    rw (a, b, k, Distinct-middle xs ys x p.distinct, add_typed_link) (add_new_link-middle xs ys x p)

append_assoc : (xs ys : List ProgramLink) (x : ProgramLink) → (xs ++ x ∷ []) ++ ys ≡ xs ++ x ∷ ys
append_assoc [] ys x = refl
append_assoc (y ∷ xs) ys x = ap (λ l. y ∷ l) (append_assoc xs ys x)

add_all-IsProgram :
    (xs ys : List ProgramLink)
    → IsProgram (xs ++ ys)
    → add_all (with_links xs) ys ≡ linked (with_links (xs ++ ys))
unfolding add_all
add_all-IsProgram xs [] p = ap (λ l. linked (with_links l)) (append_nil xs)
  where
    append_nil : (l : List ProgramLink) → l ≡ l ++ []
    append_nil [] = refl
    append_nil (y ∷ l) = ap (λ t. y ∷ t) (append_nil l)
add_all-IsProgram xs (x ∷ ys) p =
    rw (add_typed_link-middle xs ys x p, add_all, ← append_assoc xs ys x)
      (add_all-IsProgram (xs ++ x ∷ []) ys (rw (append_assoc xs ys x) p))

with_kind-same : (x : ProgramLink) → valid_kind x.kind ≡ true → with_kind x ≡ x
unfolding valid_kind
with_kind-same x h = ap (λ k. record x { kind = k }) (same x.kind h)
  where
    same : (k : LinkKind) → valid_kind k ≡ true → default_kind k ≡ k
    same LinkKind.unset h = cc
    same LinkKind.follows h = refl
    same LinkKind.regresses h = refl
    same LinkKind.maintains h = refl
    same LinkKind.supersedes h = refl
    same (LinkKind.other s) h = refl

kinds-same :
    (l : List ProgramLink)
    → All Sound l
    → (map with_kind l ≡ l) × (all (λ link. valid_kind link.kind) l ≡ true)
kinds-same [] s = (refl, refl)
kinds-same (x ∷ l) s =
    let (a, b) = kinds-same l s.1 in ((λ i. with_kind-same x s.0.2 i ∷ a i), rw (s.0.2, b) refl)

accept_links-IsProgram :
    (l : List ProgramLink) → IsProgram l → accept_links l ≡ program (with_links l)
unfolding accept_links
accept_links-IsProgram l p =
    rw ((kinds-same l p.sound).1, add_all-IsProgram [] l p, accept_links) refl

module _ {ℓ} {B : Type ℓ} (encode : Program → B) (decode : B → Option Program) where
  load_program-decoded :
      ((p : Program) → decode (encode p) ≡ some p)
      → (p : Program)
      → load_program encode decode (some (save_program encode decode p))
        ≡ accept_links (map with_kind p.links)
  unfolding load_program save_program
  load_program-decoded round_trip p =
      rw (round_trip (record p { schema_version = pos 1 }), load_program) refl

  -- A program that additions and removals built is read from its file as it was saved, with the
  -- current schema.
  pub save_program-load :
      ((p : Program) → decode (encode p) ≡ some p)
      → (p : Program) → IsBuilt p
      → load_program encode decode (some (save_program encode decode p))
        ≡ program (record p { schema_version = pos 1 })
  save_program-load round_trip p built =
      let ip = add_typed_link-bounded p built in
      load_program-decoded round_trip p
      ∙ ap accept_links (kinds-same p.links ip.sound).0
      ∙ accept_links-IsProgram p.links ip
