-- ===== src/Program/Links.antt =====
-- internal/core/program.go: what the links of every program satisfy that its operations build.
use specd.Prelude.{
  ◌+◌, ◌≤◌, ◌<◌, String, Bool, true, false, ◌&&◌, List, [], ◌∷◌, ◌++◌, none, ◌==◌, leb,
  if◌then◌else◌, length, length-append, All, All-last, ◌≡◌, refl, arith, Bool-cases, Option-cases,
  eq_iff, inl, inr,
}
use specd.Slug.{valid_slug}
use specd.Program.{
  LinkKind, ProgramLink, Program, linked, refused, joins, valid_kind, same_kind, link_between,
  links_of, add_new_link, add_typed_link, remove_from, remove_link, program_link_limit,
  program_links_per_spec_limit, link_conflict,
}
use specd.Program.File.{empty_program}

abbrev pub Sound : ProgramLink → Type 0
Sound link =
    (valid_slug link.from ≡ true) × (valid_slug link.to ≡ true) × (valid_kind link.kind ≡ true)

-- No two links join the same specs.
abbrev pub Distinct : List ProgramLink → Type 0
Distinct [] = Unit
Distinct (link ∷ links) = (link_between links link.from link.to ≡ none) × Distinct links

-- Known kinds, valid slugs, one link for two specs, and the limits.
pub record IsProgram (links : List ProgramLink) : Type 0 where
  pub sound : All Sound links
  pub distinct : Distinct links
  pub bounded : length links ≤ program_link_limit
  pub each : (slug : String) → links_of links slug ≤ program_links_per_spec_limit

pub links_of-append :
    (xs ys : List ProgramLink) (slug : String)
    → links_of (xs ++ ys) slug ≡ links_of xs slug + links_of ys slug
unfolding links_of
links_of-append [] ys slug = omega arith
links_of-append (x ∷ xs) ys slug = elim (Bool-cases (x.from == slug)) [
  | inl e ↦ rw e (omega (arith, links_of-append xs ys slug))
  | inr e ↦ rw e (links_of-append xs ys slug)
]

links_of-one-le :
    (link : ProgramLink) (slug : String)
    → links_of (link ∷ []) slug ≡ (if link.from == slug then 1 else 0)
unfolding links_of
links_of-one-le link slug = elim (Bool-cases (link.from == slug)) [
  | inl e ↦ rw e refl
  | inr e ↦ rw e refl
]

pub joins_sym : (a b : ProgramLink) → joins a.from a.to b ≡ false → joins b.from b.to a ≡ false
joins_sym a b h =
    ground (arith, eq_iff a.from b.from, eq_iff b.from a.from, eq_iff a.to b.to, eq_iff b.to a.to)

-- What a search through two lists that finds nothing says of both.
pub between-append :
    (xs ys : List ProgramLink) (from to : String)
    → link_between (xs ++ ys) from to ≡ none
    → (link_between xs from to ≡ none) × (link_between ys from to ≡ none)
unfolding link_between
between-append [] ys from to h = (refl, h)
between-append (x ∷ xs) ys from to h = elim (Bool-cases (joins from to x)) [
  | inl e ↦ cc (rw e at h)
  | inr e ↦ rw e (between-append xs ys from to (rw e at h))
]

between-last :
    (xs : List ProgramLink) (x : ProgramLink) (from to : String)
    → link_between xs from to ≡ none
    → joins from to x ≡ false
    → link_between (xs ++ x ∷ []) from to ≡ none
unfolding link_between
between-last [] x from to h e = rw e refl
between-last (y ∷ xs) x from to h e = elim (Bool-cases (joins from to y)) [
  | inl f ↦ cc (rw f at h)
  | inr f ↦ rw f (between-last xs x from to (rw f at h) e)
]

Distinct-last :
    (xs : List ProgramLink) (x : ProgramLink)
    → Distinct xs
    → link_between xs x.from x.to ≡ none
    → Distinct (xs ++ x ∷ [])
unfolding link_between
Distinct-last [] x d h = (refl, tt)
Distinct-last (y ∷ xs) x d h = elim (Bool-cases (joins x.from x.to y)) [
  | inl e ↦ cc (rw e at h)
  | inr e ↦
      (between-last xs x y.from y.to d.0 (joins_sym x y e), Distinct-last xs x d.1 (rw e at h))
]

-- A link behind the others, where none joins its specs and the limits leave room.
IsProgram-last :
    (links : List ProgramLink) (link : ProgramLink)
    → IsProgram links
    → Sound link
    → link_between links link.from link.to ≡ none
    → length links < program_link_limit
    → links_of links link.from < program_links_per_spec_limit
    → IsProgram (links ++ link ∷ [])
IsProgram-last links link p s n b e = record {
  sound = All-last Sound links link p.sound s;
  distinct = Distinct-last links link p.distinct n;
  bounded = omega (arith, length-append links (link ∷ []));
  each = λ slug. one_more slug;
}
  where
    one_more : (slug : String) → links_of (links ++ link ∷ []) slug ≤ program_links_per_spec_limit
    one_more slug = ground (
      arith,
      p.each slug,
      links_of-append links (link ∷ []) slug,
      links_of-one-le link slug,
      eq_iff link.from slug,
      e,
    )

-- What AddTypedLink has checked when it succeeds: the link was there, or it is new and is appended.
pub add_new_link-parts :
    (p p' : Program) (from to : String) (kind : LinkKind) (reason : String)
    → add_new_link p from to kind reason ≡ linked p'
    → (length p.links < program_link_limit)
      × (links_of p.links from < program_links_per_spec_limit)
      × (record p {
        links = p.links ++ record { from = from; to = to; kind = kind; reason = reason } ∷ [];
      }
          ≡ p')
unfolding add_new_link
add_new_link-parts p p' from to kind reason h =
    elim (Bool-cases (leb program_link_limit (length p.links))) [
      | inl e ↦ cc (rw e at h)
      | inr e ↦ elim (Bool-cases (leb program_links_per_spec_limit (links_of p.links from))) [
        | inl f ↦ cc (rw (e, f) at h)
        | inr f ↦ (ground (arith, e), ground (arith, f), cc (rw (e, f) at h))
      ]
    ]

add_typed_link-IsProgram :
    (p p' : Program) (from to : String) (kind : LinkKind) (reason : String)
    → IsProgram p.links
    → add_typed_link p from to kind reason ≡ linked p'
    → IsProgram p'.links
unfolding add_typed_link
add_typed_link-IsProgram p p' from to kind reason ip h = elim (Bool-cases (valid_slug from)) [
  | inr a ↦ cc (rw a at h)
  | inl a ↦ elim (Bool-cases (valid_slug to)) [
    | inr b ↦ cc (rw (a, b) at h)
    | inl b ↦ elim (Bool-cases (valid_kind kind)) [
      | inr k ↦ cc (rw (a, b, k) at h)
      | inl k ↦ elim (Option-cases (link_between p.links from to)) [
        | inl n ↦
            let (room, some_room, q) =
              add_new_link-parts p p' from to kind reason (rw (n, add_typed_link, a, b, k) at h) in
            rw (← q) (
              IsProgram-last p.links (record { from = from; to = to; kind = kind; reason = reason })
                ip (a, b, k) n room some_room)
        | inr (link, n) ↦
            unchanged p p' from to (same_kind link.kind kind && link.reason == reason) ip
              (rw (n, add_typed_link, a, b, k) at h)
      ]
    ]
  ]
]
  where
    unchanged :
        (p p' : Program) (from to : String) (same : Bool)
        → IsProgram p.links
        → (if same then linked p else refused (link_conflict from to)) ≡ linked p'
        → IsProgram p'.links
    unchanged p p' from to true ip h = let q : p ≡ p' = cc in rw (← q) ip
    unchanged p p' from to false ip h = cc

-- The links that a removal leaves.
abbrev left : List ProgramLink → (from to : String) → List ProgramLink
left links from to = (remove_from links from to).0

first_of :
    (b : Bool) (x y : List ProgramLink × Bool) → (if b then x else y).0 ≡ (if b then x.0 else y.0)
first_of true x y = refl
first_of false x y = refl

left-cons :
    (link : ProgramLink) (links : List ProgramLink) (from to : String)
    → left (link ∷ links) from to
      ≡ (if joins from to link then links else link ∷ left links from to)
unfolding remove_from
left-cons link links from to =
    first_of (joins from to link) (links, true)
      (link ∷ left links from to, (remove_from links from to).1)

left-between :
    (links : List ProgramLink) (from to a b : String)
    → link_between links a b ≡ none
    → link_between (left links from to) a b ≡ none
unfolding link_between remove_from
left-between [] from to a b h = h
left-between (link ∷ links) from to a b h = elim (Bool-cases (joins a b link)) [
  | inl e ↦ cc (rw e at h)
  | inr e ↦ rw (left-cons link links from to) (elim (Bool-cases (joins from to link)) [
    | inl f ↦ rw f (rw e at h)
    | inr f ↦ rw (f, e) (left-between links from to a b (rw e at h))
  ])
]

remove_from-parts :
    (links : List ProgramLink) (from to : String)
    → All Sound links
    → Distinct links
    → All Sound (left links from to)
      × Distinct (left links from to)
      × (length (left links from to) ≤ length links)
      × ((slug : String) → links_of (left links from to) slug ≤ links_of links slug)
unfolding links_of remove_from
remove_from-parts [] from to s d = (tt, tt, omega arith, λ slug. omega arith)
remove_from-parts (link ∷ links) from to s d =
    rw (left-cons link links from to) (elim (Bool-cases (joins from to link)) [
      | inl f ↦ rw f (s.1, d.1, omega arith, λ slug. ground arith)
      | inr f ↦
          let (s', d', n, c) = remove_from-parts links from to s.1 d.1 in
          rw f (
            (s.0, s'),
            (left-between links from to link.from link.to d.0, d'),
            omega (arith, n),
            λ slug. ground (arith, c slug),
          )
    ])

-- The programs that additions and removals build.
pub data IsBuilt : Program → Type 0 where
  empty : IsBuilt empty_program
  added :
      (p p' : Program) (from to : String) (kind : LinkKind) (reason : String)
      → IsBuilt p
      → add_typed_link p from to kind reason ≡ linked p'
      → IsBuilt p'
  removed : (p : Program) (from to : String) → IsBuilt p → IsBuilt (remove_link p from to).0

-- Every program that additions and removals build from the empty one has known kinds, valid slugs,
-- at most one link from one spec to another, at most 100000 links, and at most 1000 from one spec.
pub add_typed_link-bounded : (p : Program) → IsBuilt p → IsProgram p.links
unfolding remove_link links_of
add_typed_link-bounded _ empty = record {
  sound = tt;
  distinct = tt;
  bounded = omega arith;
  each = λ slug. omega arith;
}
add_typed_link-bounded _ (added p p' from to kind reason built h) =
    add_typed_link-IsProgram p p' from to kind reason (add_typed_link-bounded p built) h
add_typed_link-bounded _ (removed p from to built) =
    let ip = add_typed_link-bounded p built in
    let (s, d, n, c) = remove_from-parts p.links from to ip.sound ip.distinct in
    record {
      sound = s;
      distinct = d;
      bounded = omega (arith, n, ip.bounded);
      each = λ slug. omega (arith, c slug, ip.each slug);
    }
