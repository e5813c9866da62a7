-- ===== src/Gubalctl/Main/Sends.antt =====
-- What a run of gubalctl that succeeds has sent.
use gubal.Common.{true, false, [], ◌∷◌, none, ◌≡◌, ◌⊎◌, bytes, ◌==◌, ok, if◌then◌else◌}
use gubal.Gubalctl.{load_policy_dir}
use gubal.Gubalctl.Main.{
  int32, parse_versions, wants_async, Flags, Test, Call, submit_smoke_test, smoke_test, Outcome,
  Client,
}

abbrev the_call : Flags → Test → Call
the_call f t = submit_smoke_test t f.github_repo (int32 f.pr_number) f.commit_sha

module _ (client : Client) where
  -- a test that was sent and answered without an error: submitted, or run to a success
  abbrev pub Sent : Flags → Test → Outcome → Type 0
  Sent f t o =
      (client.transport ≡ none)
      × (((wants_async f.github_repo f.pr_number ≡ true)
            × (o.calls ≡ the_call f t ∷ [])
            × (client.submit (the_call f t) ≡ none))
          ⊎ ((wants_async f.github_repo f.pr_number ≡ false)
              × (o.calls ≡ smoke_test t ∷ [])
              × (client.test (smoke_test t) ≡ ok (true, o.printed))))

  -- a test as the flags and the directory give it
  abbrev pub AsAsked : Flags → Test → Type 0
  AsAsked f t =
      (t.anubis_image ≡ f.anubis_image)
      × (parse_versions f.chrome_versions (bytes "chrome") ≡ ok t.chrome_versions)
      × (parse_versions f.firefox_versions (bytes "firefox") ≡ ok t.firefox_versions)
      × (load_policy_dir client.policy_dir ≡ ok t.policies)
      × (t.id ≡ (if f.id == [] then client.new_id else f.id))
