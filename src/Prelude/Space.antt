-- ===== src/Prelude/Space.antt =====
-- `strings.TrimSpace`, over the characters that `unicode.IsSpace` names.
use Prim.Native.Char.{Char, code}
use Prim.Native.String.{String}
use mathlib.Core.Path.{◌≡◌, refl}
use mathlib.Core.Bool.{Bool, ◌||◌, ◌&&◌, true, false}
use specd.Prelude.Tests.{leb, eqb, if◌then◌else◌}

unfoldable pub is_space : Char → Bool
is_space c =
    let n = code c in
    (leb 9 n && leb n 13)
    || eqb n 32
    || eqb n 0x85
    || eqb n 0xA0
    || eqb n 0x1680
    || (leb 0x2000 n && leb n 0x200A)
    || eqb n 0x2028
    || eqb n 0x2029
    || eqb n 0x202F
    || eqb n 0x205F
    || eqb n 0x3000

unfoldable pub trim_left : String → String
unfolding is_space
trim_left String.[] = String.[]
trim_left (String.◌∷◌ c s) = if is_space c then trim_left s else String.◌∷◌ c s

abbrev pub is_empty : String → Bool
is_empty String.[] = true
is_empty (String.◌∷◌ c s) = false

unfoldable pub trim_right : String → String
unfolding is_space
trim_right String.[] = String.[]
trim_right (String.◌∷◌ c s) =
    let rest = trim_right s in if is_space c && is_empty rest then String.[] else String.◌∷◌ c rest

unfoldable pub trim_space : String → String
unfolding trim_left trim_right
trim_space s = trim_right (trim_left s)

trim_space_example : trim_space "  a b\t" ≡ "a b"
unfolding trim_space
trim_space_example = refl
