-- ===== src/Examples/Loading.antt =====
-- The theorems on versions, policies and log lines.
use gubal.Common.{false}
use gubal.Common.{
  ◌+◌, ◌≤◌, List, [], ◌∷◌, ◌++◌, none, some, ◌≡◌, ◌≢◌, refl, Bytes, bytes, All, Distinct, ok, ◌==◌,
  length, drop, ◌↔◌,
}
use mathlib.Core.List.{Perm}
use mathlib.Core.List.Perm
use gubal.Strings.{trim_space, index, scan_lines}
use gubal.Chromesweep.Versions.{parse_versions}
use gubal.Chromesweep.Versions.Accepts.{tags, parse_versions_ok}
use gubal.Chromesweep.Policies.{
  DirEntry, StringMap, policies_from_map, load_policies_from_dir, validate_policy_name,
  config_map_name,
}
use gubal.Chromesweep.Policies.Names.{Matches, policy_name_re, validate_policy_name_iff}
use gubal.Chromesweep.Policies.Order.{
  IsSorted, names, policies_from_map-perm, policies_from_map-IsSorted,
}
use gubal.Chromesweep.Logs.{marker, reported_ua, reported_ua_last, max_scan_token_size}
use gubal.Gubalctl.{load_policy_dir, string_map}
use gubal.Gubalctl.Lockstep.{map_ok, entry_names, load_policy_dir-lockstep}

abbrev two_versions : List Bytes
two_versions = bytes " 150" ∷ bytes "140" ∷ []

parse_versions_ok_example : (parse_versions two_versions ≡ ok (bytes "150" ∷ bytes "140" ∷ [])) ↔ (
    (bytes "150" ∷ bytes "140" ∷ [] ≡ tags two_versions)
    × Distinct (bytes "150" ∷ bytes "140" ∷ [])
    × (bytes "150" ∷ bytes "140" ∷ [] ≢ []))
parse_versions_ok_example = parse_versions_ok two_versions (bytes "150" ∷ bytes "140" ∷ [])

validate_policy_name_iff_example :
    ((validate_policy_name (bytes "strict-1") ≡ ok tt)
      ↔ (Matches policy_name_re (bytes "strict-1") × (length (bytes "strict-1") ≤ 49)))
    × (validate_policy_name (bytes "strict-1") ≡ ok tt
        → length (config_map_name (bytes "strict-1")) ≤ 63)
validate_policy_name_iff_example = validate_policy_name_iff (bytes "strict-1")

abbrev two_files : List DirEntry
two_files =
    record { name = bytes "strict.yaml"; is_dir = false; content = ok (bytes "b") }
    ∷ record { name = bytes "lax.yaml"; is_dir = false; content = ok (bytes "a") }
    ∷ []

two_files-Distinct : Distinct (entry_names two_files)
unfolding ◌==◌
two_files-Distinct = (refl, (refl, tt))

load_policy_dir-lockstep_example :
    map_ok (λ m. policies_from_map (string_map m)) (load_policy_dir (ok two_files))
    ≡ load_policies_from_dir (ok two_files)
load_policy_dir-lockstep_example = load_policy_dir-lockstep two_files two_files-Distinct

abbrev lax_strict : StringMap
lax_strict = record { keys = bytes "lax" ∷ bytes "strict" ∷ []; get = λ k. k }

abbrev strict_lax : StringMap
strict_lax = record { keys = bytes "strict" ∷ bytes "lax" ∷ []; get = λ k. k }

two_keys-Perm : Perm lax_strict.keys strict_lax.keys
two_keys-Perm = Perm.swap (bytes "strict") (bytes "lax") []

policies_from_map-perm_example : policies_from_map lax_strict ≡ policies_from_map strict_lax
policies_from_map-perm_example = policies_from_map-perm lax_strict strict_lax two_keys-Perm refl

policies_from_map-IsSorted_example :
    IsSorted (names (policies_from_map strict_lax))
    × Perm (names (policies_from_map strict_lax)) strict_lax.keys
    × All (λ p. p.content ≡ strict_lax.get p.name) (policies_from_map strict_lax)
policies_from_map-IsSorted_example = policies_from_map-IsSorted strict_lax

abbrev smoke_log : Bytes
smoke_log = bytes "User-Agent: curl" ++ 10 ∷ bytes "User-Agent: Chrome" ++ 10 ∷ bytes "ok"

smoke_log_lines :
    scan_lines max_scan_token_size smoke_log
    ≡ (bytes "User-Agent: curl" ∷ []) ++ bytes "User-Agent: Chrome" ∷ bytes "ok" ∷ []
unfolding scan_lines
smoke_log_lines = refl

smoke_log_index : index (bytes "User-Agent: Chrome") marker ≡ some 0
unfolding index
smoke_log_index = refl

smoke_log_rest : All (λ l. index l marker ≡ none) (bytes "ok" ∷ [])
unfolding index
smoke_log_rest = (refl, tt)

reported_ua_last_example :
    reported_ua smoke_log ≡ trim_space (drop (0 + length marker) (bytes "User-Agent: Chrome"))
reported_ua_last_example =
    reported_ua_last smoke_log (bytes "User-Agent: curl" ∷ []) (bytes "User-Agent: Chrome")
      (bytes "ok" ∷ []) smoke_log_lines smoke_log_index smoke_log_rest
