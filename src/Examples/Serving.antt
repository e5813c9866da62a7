-- ===== src/Examples/Serving.antt =====
-- The theorems on the server.
use gubal.Common.{
  ℕ, ◌+◌, ◌≤◌, true, false, List, [], ◌∷◌, ◌≡◌, ◌⊎◌, refl, arith, Bytes, bytes, ◌==◌, member, ok,
  length, Option, none, ◌<◌, ◌++◌, ◌-◌, take,
}
use gubal.Common.Int.{pos}
use gubal.Strings.{split, trim_space, ascii_lower}
use gubal.Gubald.Clients.{noop_uploader, new_tigris_uploader, allowed_repos}
use gubal.Gubald.Startup.{
  Flags, Platform, Server, new_github_commenter, new_server, new_server_accepts,
}
use gubal.Common.{◌≢◌}
use gubal.Gubald.Comments.{
  max_comment_bytes, note, result_head, result_tail, body_result, body_result_fits, cap_to,
  cap_to_cut, rune_start_at, sha_suffix,
}
use gubal.Gubald.Service.{SubmitRequest, Service, allowlist, submit_smoke_test}
use gubal.Gubald.Service.Runs.{empty, submit, Steps, begin, next, holders, one_run_at_a_time}

abbrev pull : SubmitRequest
pull = record {
  repo = bytes "techarohq/Anubis";
  pr = pos 7;
  sha = bytes "abc";
  test = record {
    id = bytes "1";
    anubis_image = [];
    chrome_versions = pos 120 ∷ [];
    firefox_versions = [];
    policies = record { keys = bytes "strict" ∷ []; get = λ k. k };
  };
}

abbrev valid : Option Bytes
valid = none

abbrev repos : List Bytes
repos = bytes "TecharoHQ/anubis " ∷ []

pull_accepted :
    (submit_smoke_test ascii_lower (allowlist ascii_lower repos) none pull empty).0 ≡ ok (bytes "1")
unfolding submit_smoke_test allowlist trim_space ascii_lower ◌==◌
pull_accepted = refl

one_run_at_a_time_example :
    let s = (submit_smoke_test ascii_lower (allowlist ascii_lower repos) none pull empty).1 in
    (holders ascii_lower (allowlist ascii_lower repos) s ≤ 1)
    × (s.busy ≡ false → holders ascii_lower (allowlist ascii_lower repos) s ≡ 0)
    × ((t : Service) × Steps ascii_lower (allowlist ascii_lower repos) s t × (t.busy ≡ false))
one_run_at_a_time_example =
    one_run_at_a_time ascii_lower (allowlist ascii_lower repos)
      (next begin (submit none pull empty))

room_left :
    length (result_head true (bytes "abc")) + length (result_tail (bytes "url")) + length note
    ≤ max_comment_bytes
unfolding result_head result_tail sha_suffix ◌==◌
room_left = omega arith

body_result_fits_example :
    length (body_result true (bytes "report") (bytes "abc") (bytes "url")) ≤ max_comment_bytes
body_result_fits_example =
    body_result_fits true (bytes "report") (bytes "abc") (bytes "url") room_left

cap_to_cut_example :
    ((length (bytes "é") + 9 ≤ 10) × (cap_to (bytes "é") 10 9 ≡ bytes "é"))
    ⊎ ((10 < length (bytes "é") + 9)
        × (n : ℕ) × (cap_to (bytes "é") 10 9 ≡ take n (bytes "é") ++ note)
        × (n ≤ 10 - (9 + length note))
        × ((n ≡ 0) ⊎ (rune_start_at (bytes "é") n ≡ true))
        × ((k : ℕ) → n < k → k ≤ 10 - (9 + length note) → rune_start_at (bytes "é") k ≡ false))
cap_to_cut_example = cap_to_cut (bytes "é") 10 9

abbrev flags : Flags
flags = record {
  github_token = [];
  github_repos = bytes "a/b, TecharoHQ/anubis ,";
  gubal_bucket = [];
  slog_level = bytes "info";
}

abbrev platform : Platform Bytes Bytes
platform = record {
  parse_level = λ s. none;
  new_round_tripper = none;
  new_github_client = λ token. ok token;
  new_storage = ok (bytes "storage");
  wait = none;
  to_lower = ascii_lower;
  quote = λ s. s;
}

abbrev started : Server Bytes Bytes
started = record {
  github = [];
  uploader = noop_uploader;
  allowed = bytes "a/b" ∷ bytes "techarohq/anubis" ∷ [];
}

server_started : new_server platform flags ≡ ok started
unfolding new_server new_github_commenter new_tigris_uploader allowed_repos allowlist split
    trim_space ascii_lower ◌==◌
server_started = refl

started_accepts : (submit_smoke_test ascii_lower started.allowed none pull empty).0 ≡ ok (bytes "1")
unfolding submit_smoke_test ascii_lower ◌==◌
started_accepts = refl

new_server_accepts_example :
    (valid ≡ none)
    × (empty.busy ≡ false)
    × ((x : Bytes) × (member x (split b',' flags.github_repos) ≡ true)
        × (trim_space x ≢ [])
        × (ascii_lower (trim_space (trim_space x)) ≡ ascii_lower pull.repo))
new_server_accepts_example =
    new_server_accepts platform flags valid pull empty server_started started_accepts
