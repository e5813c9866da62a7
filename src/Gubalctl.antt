-- ===== src/Gubalctl.antt =====
-- cmd/gubalctl/policies.go: the client's own copy of the policy loader. A map is an association
-- list here, each key once.
mod Pairs
pub mod Lockstep
pub mod Main
use gubal.Common.{
  ℕ, Bool, true, false, not, List, [], ◌∷◌, ◌++◌, Bytes, bytes, ◌==◌, map, Result, ok, err, ltb,
  if◌then◌else◌, length,
}
use gubal.Common.Errors.{Error}
use gubal.Strings.{has_suffix, trim_suffix}
use gubal.Chromesweep.Policies.{
  policy_name_matches, NameError, no_match, too_long, LoadError, reading_dir, bad_name,
  reading_policy, no_policies, DirEntry, yaml, StringMap,
}

abbrev policy_name_max_len : ℕ
policy_name_max_len = 49

-- the pattern is that of chromesweep/policies.go, byte for byte
unfoldable pub validate_policy_name : Bytes → Result NameError Unit
validate_policy_name name =
    if not (policy_name_matches name)
    then err no_match
    else if ltb policy_name_max_len (length name)
    then err too_long
    else ok tt

-- m[key] = value
unfoldable pub put : Bytes → Bytes → List (Bytes × Bytes) → List (Bytes × Bytes)
put key value [] = (key, value) ∷ []
put key value ((k, v) ∷ m) = if k == key then (k, value) ∷ m else (k, v) ∷ put key value m

-- m[key], which is "" where the key is missing
unfoldable pub get : List (Bytes × Bytes) → Bytes → Bytes
get [] key = []
get ((k, v) ∷ m) key = if k == key then v else get m key

-- one round for a file that the loop does not skip: its name and its content
unfoldable pub read_policy : DirEntry → Result LoadError (Bytes × Bytes)
unfolding validate_policy_name
read_policy e =
    let name = trim_suffix e.name yaml in
    elim (validate_policy_name name) [
      | err why ↦ err (bad_name e.name why)
      | ok _ ↦ elim e.content [
        | err why ↦ err (reading_policy e.name why)
        | ok content ↦ ok (name, content)
      ]
    ]

load_loop : List (Bytes × Bytes) → List DirEntry → Result LoadError (List (Bytes × Bytes))
load_loop policies [] = ok policies
load_loop policies (e ∷ entries) = elim (e.is_dir) [
  | true ↦ load_loop policies entries
  | false ↦ elim (has_suffix e.name yaml) [
    | false ↦ load_loop policies entries
    | true ↦ elim (read_policy e) [
      | err why ↦ err why
      | ok (name, content) ↦ load_loop (put name content policies) entries
    ]
  ]
]

-- after the loop
some_policies : Result LoadError (List (Bytes × Bytes)) → Result LoadError (List (Bytes × Bytes))
some_policies (err e) = err e
some_policies (ok []) = err no_policies
some_policies (ok (p ∷ ps)) = ok (p ∷ ps)

unfoldable pub load_policy_dir :
    Result Error (List DirEntry) → Result LoadError (List (Bytes × Bytes))
unfolding load_loop some_policies
load_policy_dir (err e) = err (reading_dir e)
load_policy_dir (ok entries) = some_policies (load_loop [] entries)

-- the map as it arrives in a request: some order of its keys
unfoldable pub string_map : List (Bytes × Bytes) → StringMap
unfolding get
string_map m = record { keys = map (λ (k, v). k) m; get = get m }
