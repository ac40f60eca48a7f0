-- ===== src/Program/File.antt =====
-- internal/core/program.go, LoadProgram and SaveProgram: the file of the links.
use specd.Prelude.{
  not, List, [], ◌∷◌, map, Option, none, some, all, if◌then◌else◌, ℤ, pos, same_int,
}
use specd.Program.{
  LinkKind, ProgramLink, Program, LinkError, Linked, linked, refused, valid_kind, add_typed_link,
}

pub data ProgramError : Type 0 where
  undecodable : ProgramError
  unsupported : ℤ → ProgramError
  unknown_link_kind : ProgramError
  bad_link : LinkError → ProgramError

pub data LoadedProgram : Type 0 where
  program : Program → LoadedProgram
  failed : ProgramError → LoadedProgram

abbrev pub empty_program : Program
empty_program = record { schema_version = pos 1; links = [] }

-- `if program.Links[i].Kind == "" { ... = LinkKindFollows }`.
abbrev pub default_kind : LinkKind → LinkKind
default_kind LinkKind.unset = LinkKind.follows
default_kind kind = kind

abbrev pub with_kind : ProgramLink → ProgramLink
with_kind link = record link { kind = default_kind link.kind }

-- The loop that adds every link to a new program.
unfoldable pub add_all : Program → List ProgramLink → Linked
unfolding add_typed_link
add_all p [] = linked p
add_all p (link ∷ links) = elim (add_typed_link p link.from link.to link.kind link.reason) [
  | refused e ↦ refused e
  | linked p' ↦ add_all p' links
]

-- LoadProgram behind the loop over the kinds.
unfoldable pub accept_links : List ProgramLink → LoadedProgram
unfolding add_all valid_kind
accept_links links =
    if not (all (λ link. valid_kind link.kind) links)
    then failed unknown_link_kind
    else elim (add_all empty_program links) [
      | refused e ↦ failed (bad_link e)
      | linked validated ↦ program (record { schema_version = pos 1; links = links })
    ]

module _ {ℓ} {B : Type ℓ} (encode : Program → B) (decode : B → Option Program) where
  unfoldable pub load_program : Option B → LoadedProgram
  unfolding accept_links
  load_program none = program empty_program
  load_program (some raw) = elim (decode raw) [
    | none ↦ failed undecodable
    | some p ↦
        if not (same_int p.schema_version (pos 1))
        then failed (unsupported p.schema_version)
        else accept_links (map with_kind p.links)
  ]

  unfoldable pub save_program : Program → B
  save_program p = encode (record p { schema_version = pos 1 })
