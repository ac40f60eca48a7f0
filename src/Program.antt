-- ===== src/Program.antt =====
-- internal/core/program.go: the links between specs, which all specs of a root share.
-- The file is `none` where it does not exist; its bytes are a type of their own, on which `encode` is
-- `json.MarshalIndent` and `decode` is `json.Unmarshal`. The cycle search takes fuel.
pub mod File
pub mod Status
pub mod Search
pub mod Cycle
pub mod Links
pub mod Stored
pub mod Feedback
mod Tests
use specd.Prelude.{
  ℕ, zero, suc, ◌+◌, String, Bool, true, false, not, ◌&&◌, ◌||◌, List, [], ◌∷◌, ◌++◌, Option, none,
  some, ◌==◌, leb, if◌then◌else◌, keep, any, mem, sort_strings, length, ℤ, pos, same_int, ◌≡◌, refl,
}
use specd.Slug.{valid_slug}

pub data LinkKind : Type 0 where
  follows regresses maintains supersedes : LinkKind
  unset : LinkKind
  other : String → LinkKind

unfoldable pub valid_kind : LinkKind → Bool
valid_kind LinkKind.unset = false
valid_kind (LinkKind.other _) = false
valid_kind _ = true

abbrev pub same_kind : LinkKind → LinkKind → Bool
same_kind LinkKind.follows LinkKind.follows = true
same_kind LinkKind.regresses LinkKind.regresses = true
same_kind LinkKind.maintains LinkKind.maintains = true
same_kind LinkKind.supersedes LinkKind.supersedes = true
same_kind LinkKind.unset LinkKind.unset = true
same_kind (LinkKind.other s) (LinkKind.other t) = s == t
same_kind _ _ = false

pub record ProgramLink : Type 0 where
  pub from : String
  pub to : String
  pub kind : LinkKind
  pub reason : String

pub record Program : Type 0 where
  pub schema_version : ℤ
  pub links : List ProgramLink

pub data LinkError : Type 0 where
  bad_source bad_target : String → LinkError
  unknown_kind : LinkKind → LinkError
  link_conflict : (from to : String) → LinkError
  program_full : LinkError
  spec_full : String → LinkError
  bad_successor bad_feedback_source : String → LinkError
  reason_required : LinkError
  source_open successor_complete : LinkError
  would_create_cycle : List String → LinkError

pub data Linked : Type 0 where
  linked : Program → Linked
  refused : LinkError → Linked

abbrev pub joins : (from to : String) → ProgramLink → Bool
joins from to link = link.from == from && link.to == to

unfoldable pub has_link : Program → (from to : String) → Bool
has_link p from to = any (joins from to) p.links

-- The first link between two specs.
unfoldable pub link_between : List ProgramLink → (from to : String) → Option ProgramLink
link_between [] from to = none
link_between (link ∷ links) from to =
    let rest = link_between links from to in if joins from to link then some link else rest

-- The count of the links of a spec.
unfoldable pub links_of : List ProgramLink → String → ℕ
links_of links from = length (keep (λ link. link.from == from) links)

abbrev pub program_link_limit : ℕ
program_link_limit = 100000

abbrev pub program_links_per_spec_limit : ℕ
program_links_per_spec_limit = 1000

-- AddTypedLink behind the search for an equal link.
unfoldable pub add_new_link : Program → (from to : String) → LinkKind → (reason : String) → Linked
unfolding links_of
add_new_link p from to kind reason =
    if leb program_link_limit (length p.links)
    then refused program_full
    else if leb program_links_per_spec_limit (links_of p.links from)
    then refused (spec_full from)
    else linked (record p {
      links = p.links ++ record { from = from; to = to; kind = kind; reason = reason } ∷ [];
    })

unfoldable pub add_typed_link : Program → (from to : String) → LinkKind → (reason : String) → Linked
unfolding valid_slug valid_kind link_between add_new_link
add_typed_link p from to kind reason =
    if not (valid_slug from)
    then refused (bad_source from)
    else if not (valid_slug to)
    then refused (bad_target to)
    else if not (valid_kind kind)
    then refused (unknown_kind kind)
    else elim (link_between p.links from to) [
      | none ↦ add_new_link p from to kind reason
      | some link ↦
          if same_kind link.kind kind && link.reason == reason
          then linked p
          else refused (link_conflict from to)
    ]

-- AddLink drops the error.
unfoldable pub add_link : Program → (from to : String) → Program
unfolding add_typed_link
add_link p from to = elim (add_typed_link p from to LinkKind.follows "") [
  | linked p' ↦ p'
  | refused e ↦ p
]

-- The links without the first between two specs, and whether there was one.
unfoldable pub remove_from : List ProgramLink → (from to : String) → List ProgramLink × Bool
remove_from [] from to = ([], false)
remove_from (link ∷ links) from to =
    let (rest, found) = remove_from links from to in
    if joins from to link then (links, true) else (link ∷ rest, found)

unfoldable pub remove_link : Program → (from to : String) → Program × Bool
unfolding remove_from
remove_link p from to =
    let (links, found) = remove_from p.links from to in (record p { links = links }, found)

abbrev pub targets : List ProgramLink → List String
targets [] = []
targets (link ∷ links) = link.to ∷ targets links

unfoldable pub deps : Program → String → List String
unfolding sort_strings
deps p slug = sort_strings (targets (keep (λ link. link.from == slug) p.links))

pub record Walked : Type 0 where
  pub visited : List String
  pub path : List String

pub data Found : Type 0 where
  -- The path when the search has met the spec it looks for.
  found : (path : List String) → Found
  missed : Walked → Found
  -- Not a result of the source: the fuel ran out.
  out_of_fuel : Found

-- `path[:len(path)-1]`.
unfoldable pub drop_last : List String → List String
drop_last [] = []
drop_last (x ∷ []) = []
drop_last (x ∷ y ∷ rest) = x ∷ drop_last (y ∷ rest)

-- The loop of the closure `dfs` over the dependencies of one spec.
unfoldable pub search_all : (Walked → String → Found) → Walked → List String → Found
search_all search w [] = missed w
search_all search w (d ∷ ds) = elim (search w d) [
  | found path ↦ found path
  | missed w' ↦ search_all search w' ds
  | out_of_fuel ↦ out_of_fuel
]

abbrev pub enter : String → Walked → Walked
enter node w = record { visited = node ∷ w.visited; path = w.path ++ node ∷ [] }

-- The end of `dfs`: what was not found leaves the path.
unfoldable pub leave : Found → Found
unfolding drop_last
leave (missed w) = missed (record w { path = drop_last w.path })
leave r = r

-- The closure `dfs` of WouldCycle.
unfoldable pub search : Program → (from : String) → ℕ → Walked → String → Found
unfolding search_all leave deps mem
search p from zero w node = out_of_fuel
search p from (suc fuel) w node =
    let inner = leave (search_all (search p from fuel) (enter node w) (deps p node)) in
    if node == from
    then found (w.path ++ node ∷ [])
    else if mem node w.visited
    then missed w
    else inner

-- The result of WouldCycle: `safe` is its nil, and `none` where the fuel ran out.
unfoldable pub would_cycle : Program → (from to : String) → Option (List String)
unfolding search
would_cycle p from to =
    if from == to
    then some (from ∷ to ∷ [])
    else (elim (search p from (length p.links + 2) (record { visited = []; path = [] }) to) [
      | found path ↦ some (from ∷ path)
      | missed w ↦ some []
      | out_of_fuel ↦ none
    ])
