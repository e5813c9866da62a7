-- ===== src/Examples/Flags.antt =====
-- The theorems on gubalctl: on a version that is out of the range of 32 bits, and on a run.
use gubal.Common.{true, false, none, List, [], ◌∷◌, ◌≡◌, ◌≢◌, refl, bytes, ok, map, some, ◌==◌}
use gubal.Common.Int.{ℤ, pos}
use gubal.Strings.{split, trim_space, atoi}
use gubal.Gubalctl.Main.{int32, parse_versions, Flags, Client}
use gubal.Chromesweep.Policies.{DirEntry}
use gubal.Gubalctl.Main.Numbers.{numbers, parse_versions-numbers}

wrapped : parse_versions (bytes "80, 4294967371") (bytes "chrome") ≡ ok (pos 80 ∷ pos 75 ∷ [])
unfolding parse_versions split trim_space atoi ◌==◌
wrapped = refl

parse_versions-numbers_example :
    (ns : List ℤ) × (numbers (split b',' (bytes "80, 4294967371")) ≡ some ns)
    × (map int32 ns ≡ pos 80 ∷ pos 75 ∷ [])
    × (pos 80 ∷ pos 75 ∷ [] ≢ [])
parse_versions-numbers_example =
    parse_versions-numbers (bytes "80, 4294967371") (bytes "chrome") (pos 80 ∷ pos 75 ∷ []) wrapped

abbrev strict_file : List DirEntry
strict_file = record { name = bytes "strict.yaml"; is_dir = false; content = ok (bytes "b") } ∷ []

abbrev willing : Client
willing = record {
  policy_dir = ok strict_file;
  new_id = bytes "uuid";
  transport = none;
  submit = λ c. none;
  test = λ c. ok (true, bytes "report");
}

abbrev pull_flags : Flags
pull_flags = record {
  url = bytes "https://gubal";
  access_key_id = bytes "id";
  secret_access_key = bytes "secret";
  anubis_image = bytes "anubis:edge";
  chrome_versions = bytes "120";
  firefox_versions = bytes "150";
  id = [];
  github_repo = bytes "TecharoHQ/anubis";
  pr_number = pos 7;
  commit_sha = bytes "abc";
}
