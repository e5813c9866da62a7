-- ===== src/Chromesweep/Versions.antt =====
-- ParseVersions of chromesweep/parse.go. The map `seen` is the list of its keys.
pub mod Accepts
use gubal.Common.{
  List, [], ◌∷◌, ◌++◌, ◌≡◌, refl, Bytes, bytes, ◌==◌, member, Result, ok, err, if◌then◌else◌,
}
use gubal.Strings.{trim_space}

pub data VersionsError : Type 0 where
  duplicate : Bytes → VersionsError
  none_given : VersionsError

-- after the loop: an empty result is an error
pub finish : List Bytes → Result VersionsError (List Bytes)
finish [] = err none_given
finish (t ∷ ts) = ok (t ∷ ts)

parse_loop : List Bytes → List Bytes → List Bytes → Result VersionsError (List Bytes)
unfolding trim_space finish
parse_loop seen out [] = finish out
parse_loop seen out (a ∷ args) =
    let t = trim_space a in
    let skip = parse_loop seen out args in
    let keep = parse_loop (t ∷ seen) (out ++ t ∷ []) args in
    if t == [] then skip else if member t seen then err (duplicate t) else keep

unfoldable pub parse_versions : List Bytes → Result VersionsError (List Bytes)
unfolding parse_loop
parse_versions args = parse_loop [] [] args

trims_and_skips :
    parse_versions (bytes " 150" ∷ [] ∷ bytes "140 " ∷ []) ≡ ok (bytes "150" ∷ bytes "140" ∷ [])
unfolding parse_versions ◌==◌
trims_and_skips = refl

refuses_twice : parse_versions (bytes "75" ∷ bytes " 75" ∷ []) ≡ err (duplicate (bytes "75"))
unfolding parse_versions ◌==◌
refuses_twice = refl
