-- ===== src/Gubald/Startup.antt =====
-- cmd/gubald/main.go: run from the flags to the server. The clients, the verifier's transport and the
-- listeners are parameters.
use gubal.Common.{
  List, [], ◌++◌, Option, none, some, ◌≡◌, ◌≢◌, Bytes, bytes, Result, ok, err, member, ap, ◌∙◌, sym,
  true, false, Option-cases, inl, inr,
}
use gubal.Common.Errors.{Error, wrap}
use gubal.Strings.{split, trim_space}
use gubal.Gubald.Service.{SubmitRequest, Service, allowlist, submit_smoke_test}
use gubal.Gubald.Service.Answers.{submit_smoke_test_accepted}
use gubal.Gubald.Clients.{Uploader, new_tigris_uploader, allowed_repos}
use gubal.Gubald.Clients.Repos.{allowed_repos_iff}

pub record Flags : Type 0 where
  pub github_token : Bytes
  pub github_repos : Bytes
  pub gubal_bucket : Bytes
  pub slog_level : Bytes

-- what the constructors give
pub record Platform (Github Client : Type 0) : Type 0 where
  -- UnmarshalText of a slog.Level
  pub parse_level : Bytes → Option Error
  pub new_round_tripper : Option Error
  -- github.NewClient with a token, or without one where it is ""
  pub new_github_client : Bytes → Result Error Github
  pub new_storage : Result Error Client
  -- Wait of the group with the listeners
  pub wait : Option Error
  -- strings.ToLower
  pub to_lower : Bytes → Bytes
  -- fmt's %q
  pub quote : Bytes → Bytes

pub record Server (Github Client : Type 0) : Type 0 where
  pub github : Github
  pub uploader : Uploader Client
  pub allowed : List Bytes

module _ {Github Client : Type 0} (p : Platform Github Client) where
  unfoldable pub new_github_commenter : Bytes → Result Error Github
  new_github_commenter token = elim (p.new_github_client token) [
    | err e ↦ err (wrap (bytes "building github client") e)
    | ok client ↦ ok client
  ]

  with_uploader :
      Flags → Github → Result Error (Uploader Client) → Result Error (Server Github Client)
  with_uploader f github (err e) = err (wrap (bytes "building tigris uploader") e)
  with_uploader f github (ok uploader) = ok (record {
    github = github;
    uploader = uploader;
    allowed = allowlist p.to_lower (allowed_repos f.github_repos);
  })

  with_commenter : Flags → Result Error Github → Result Error (Server Github Client)
  unfolding with_uploader
  with_commenter f (err e) = err (wrap (bytes "building github commenter") e)
  with_commenter f (ok github) =
      with_uploader f github (new_tigris_uploader f.gubal_bucket p.new_storage)

  with_transport : Flags → Option Error → Result Error (Server Github Client)
  unfolding with_commenter
  with_transport f (some e) = err e
  with_transport f none = with_commenter f (new_github_commenter f.github_token)

  -- run up to the handlers
  unfoldable pub new_server : Flags → Result Error (Server Github Client)
  unfolding with_transport
  new_server f = elim (p.parse_level f.slog_level) [
    | some e ↦ err (wrap (bytes "invalid -slog-level " ++ p.quote f.slog_level) e)
    | none ↦ with_transport f p.new_round_tripper
  ]

  served : Result Error (Server Github Client) → Option Error → Option Error
  served (err e) waited = some e
  served (ok server) none = none
  served (ok server) (some e) = some (wrap (bytes "error running group") e)

  unfoldable pub run : Flags → Option Error
  unfolding served
  run f = served (new_server f) p.wait

  with_uploader_allowed :
      (f : Flags) (github : Github) (u : Result Error (Uploader Client))
      {server : Server Github Client}
      → with_uploader f github u ≡ ok server
      → server.allowed ≡ allowlist p.to_lower (allowed_repos f.github_repos)
  unfolding with_uploader
  with_uploader_allowed f github (err e) h = absurd (cc h)
  with_uploader_allowed f github (ok u) {server} h =
      let same : record {
        github = github;
        uploader = u;
        allowed = allowlist p.to_lower (allowed_repos f.github_repos);
      }
          ≡ server =
        cc h in
      ap (λ (v : Server Github Client). v.allowed) (sym same)

  with_commenter_allowed :
      (f : Flags) (r : Result Error Github) {server : Server Github Client}
      → with_commenter f r ≡ ok server
      → server.allowed ≡ allowlist p.to_lower (allowed_repos f.github_repos)
  unfolding with_commenter
  with_commenter_allowed f (err e) h = absurd (cc h)
  with_commenter_allowed f (ok github) h = with_uploader_allowed f github _ h

  with_transport_allowed :
      (f : Flags) (o : Option Error) {server : Server Github Client}
      → with_transport f o ≡ ok server
      → server.allowed ≡ allowlist p.to_lower (allowed_repos f.github_repos)
  unfolding with_transport
  with_transport_allowed f (some e) h = absurd (cc h)
  with_transport_allowed f none h = with_commenter_allowed f _ h

  new_server_allowed :
      (f : Flags) {server : Server Github Client}
      → new_server f ≡ ok server
      → server.allowed ≡ allowlist p.to_lower (allowed_repos f.github_repos)
  unfolding new_server
  new_server_allowed f h = elim (Option-cases (p.parse_level f.slog_level)) [
    | inr (e, q) ↦ absurd (let h' = rw (new_server, q) at h in cc h')
    | inl q ↦ with_transport_allowed f p.new_round_tripper (rw (new_server, q) at h)
  ]

  -- A server that gubald starts accepts a submitted run only if the request is valid, no other run has
  -- the place, and its repository is a part of -github-repos between commas that is not blank, but for
  -- space around it and for what strings.ToLower, a parameter, makes the same.
  pub new_server_accepts :
      (f : Flags) {server : Server Github Client} (invalid : Option Bytes) (req : SubmitRequest)
      (s : Service) {id : Bytes}
      → new_server f ≡ ok server
      → (submit_smoke_test p.to_lower server.allowed invalid req s).0 ≡ ok id
      → (invalid ≡ none)
        × (s.busy ≡ false)
        × ((x : Bytes) × (member x (split b',' f.github_repos) ≡ true)
            × (trim_space x ≢ [])
            × (p.to_lower (trim_space (trim_space x)) ≡ p.to_lower req.repo))
  new_server_accepts f invalid req s started h =
      let h' = rw (new_server_allowed f started) at h in
      let (valid, free, (r, allowed, named)) =
        submit_smoke_test_accepted p.to_lower (allowed_repos f.github_repos) invalid req s h' in
      let (ne, x, part, trimmed) = (allowed_repos_iff r f.github_repos).0 allowed in
      (
        valid,
        free,
        (
          x,
          part,
          (λ blank. ne (sym trimmed ∙ blank)),
          ap (λ t. p.to_lower (trim_space t)) trimmed ∙ named,
        ),
      )
