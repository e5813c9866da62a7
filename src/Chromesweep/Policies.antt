-- ===== src/Chromesweep/Policies.antt =====
-- chromesweep/policies.go. A Go map is its keys in the order in which one iteration yields them,
-- which the runtime chooses, and what it holds at each key.
pub mod Names
pub mod Order
use gubal.Common.{
  ℕ, suc, Bool, true, false, not, ◌&&◌, ◌||◌, List, [], ◌∷◌, ◌++◌, ◌≡◌, refl, Bytes, bytes, ◌==◌,
  less, map, Result, ok, err, leb, ltb, nat_eq, if◌then◌else◌, length, all,
}
use gubal.Common.Errors.{Error, wrap, errorf}
use gubal.Strings.{has_suffix, trim_suffix}

pub record Policy : Type 0 where
  pub name : Bytes
  pub content : Bytes

pub record DirEntry : Type 0 where
  pub name : Bytes
  pub is_dir : Bool
  -- what os.ReadFile gives for it
  pub content : Result Error Bytes

pub record StringMap : Type 0 where
  pub keys : List Bytes
  pub get : Bytes → Bytes

-- [a-z0-9]
abbrev pub alnum : ℕ → Bool
alnum c = (leb b'a' c && leb c b'z') || (leb b'0' c && leb c b'9')

-- [a-z0-9-]
abbrev pub label_byte : ℕ → Bool
label_byte c = alnum c || nat_eq c b'-'

-- ([a-z0-9-]*[a-z0-9])?$
label_rest : Bytes → Bool
label_rest [] = true
label_rest (c ∷ []) = alnum c
label_rest (c ∷ d ∷ s) = label_byte c && label_rest (d ∷ s)

-- ^[a-z0-9]([a-z0-9-]*[a-z0-9])?$
unfoldable pub policy_name_matches : Bytes → Bool
unfolding label_rest
policy_name_matches [] = false
policy_name_matches (c ∷ s) = alnum c && label_rest s

abbrev pub policy_name_max_len : ℕ
policy_name_max_len = 49

-- the name of the ConfigMap that carries a policy, as `applyPolicy` builds it
unfoldable pub config_map_name : Bytes → Bytes
config_map_name name = bytes "anubis-policy-" ++ name

pub data NameError : Type 0 where
  no_match too_long : NameError

unfoldable pub validate_policy_name : Bytes → Result NameError Unit
unfolding policy_name_matches
validate_policy_name name =
    if not (policy_name_matches name)
    then err no_match
    else if ltb policy_name_max_len (length name)
    then err too_long
    else ok tt

pub data LoadError : Type 0 where
  reading_dir : Error → LoadError
  bad_name : Bytes → NameError → LoadError
  reading_policy : Bytes → Error → LoadError
  no_policies : LoadError

abbrev pub yaml : Bytes
yaml = bytes ".yaml"

-- a file that the loop does not skip
unfoldable pub is_policy_file : DirEntry → Bool
is_policy_file e = not (e.is_dir || not (has_suffix e.name yaml))

-- one round for such a file
unfoldable pub read_policy : DirEntry → Result LoadError Policy
read_policy e =
    let name = trim_suffix e.name yaml in
    elim (validate_policy_name name) [
      | err why ↦ err (bad_name e.name why)
      | ok _ ↦ elim e.content [
        | err why ↦ err (reading_policy e.name why)
        | ok content ↦ ok (record { name = name; content = content })
      ]
    ]

unfoldable pub load_loop : List Policy → List DirEntry → Result LoadError (List Policy)
load_loop policies [] = ok policies
load_loop policies (e ∷ entries) = elim (is_policy_file e) [
  | false ↦ load_loop policies entries
  | true ↦ elim (read_policy e) [
    | err why ↦ err why
    | ok p ↦ load_loop (policies ++ p ∷ []) entries
  ]
]

-- sort.Slice by name, as insertion
unfoldable pub insert_policy : Policy → List Policy → List Policy
insert_policy p [] = p ∷ []
insert_policy p (q ∷ qs) =
    let rest = insert_policy p qs in if less q.name p.name then q ∷ rest else p ∷ q ∷ qs

unfoldable pub sort_policies : List Policy → List Policy
unfolding insert_policy
sort_policies [] = []
sort_policies (p ∷ ps) = insert_policy p (sort_policies ps)

-- after the loop
unfoldable pub some_policies : Result LoadError (List Policy) → Result LoadError (List Policy)
unfolding sort_policies
some_policies (err e) = err e
some_policies (ok []) = err no_policies
some_policies (ok (p ∷ ps)) = ok (sort_policies (p ∷ ps))

unfoldable pub load_policies_from_dir :
    Result Error (List DirEntry) → Result LoadError (List Policy)
unfolding load_loop some_policies
load_policies_from_dir (err e) = err (reading_dir e)
load_policies_from_dir (ok entries) = some_policies (load_loop [] entries)

-- sort.Strings, as insertion
unfoldable pub insert_name : Bytes → List Bytes → List Bytes
insert_name p [] = p ∷ []
insert_name p (q ∷ qs) = let rest = insert_name p qs in if less q p then q ∷ rest else p ∷ q ∷ qs

unfoldable pub sort_names : List Bytes → List Bytes
unfolding insert_name
sort_names [] = []
sort_names (p ∷ ps) = insert_name p (sort_names ps)

unfoldable pub policies_from_map : StringMap → List Policy
unfolding sort_names
policies_from_map m = map (λ name. record { name = name; content = m.get name }) (sort_names m.keys)
