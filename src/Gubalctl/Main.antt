-- ===== src/Gubalctl/Main.antt =====
-- cmd/gubalctl/main.go. The directory of policies, the id of uuid.NewString, the signing transport
-- and the two calls of the client are parameters.
pub mod Numbers
pub mod Sends
use gubal.Common.{
  ℕ, ◌-◌, ◌%◌, ◌^◌, ◌<◌, Bool, true, false, not, ◌&&◌, ◌||◌, List, [], ◌∷◌, ◌++◌, ◌≡◌, ◌≢◌, refl,
  sym, arith, Bytes, bytes, ◌==◌, Result, ok, err, if◌then◌else◌, ltb, map, Option, none, some,
  Bool-cases, inl, inr, ap, ◌∙◌, append_assoc,
}
use gubal.Common.Int.{ℤ, pos, negsuc}
use gubal.Common.Errors.{Error}
use gubal.Strings.{split, trim_space, atoi}
use gubal.Chromesweep.Policies.{LoadError, DirEntry}
use gubal.Gubalctl.{load_policy_dir}

-- int32(n)
abbrev pub int32 : ℤ → ℤ
int32 (pos n) = let m = n % 2 ^ 32 in if ltb m (2 ^ 31) then pos m else negsuc (2 ^ 32 - m - 1)
int32 (negsuc n) = let m = n % 2 ^ 32 in if ltb m (2 ^ 31) then negsuc m else pos (2 ^ 32 - m - 1)

pub data FlagError : Type 0 where
  invalid_version : Bytes → Bytes → FlagError
  versions_required : Bytes → FlagError

some_versions : Bytes → List ℤ → Result FlagError (List ℤ)
some_versions browser [] = err (versions_required browser)
some_versions browser (n ∷ out) = ok (n ∷ out)

parse_fields : Bytes → List ℤ → List Bytes → Result FlagError (List ℤ)
unfolding some_versions
parse_fields browser out [] = some_versions browser out
parse_fields browser out (f ∷ fields) = elim (trim_space f == []) [
  | true ↦ parse_fields browser out fields
  | false ↦ elim (atoi (trim_space f)) [
    | none ↦ err (invalid_version browser (trim_space f))
    | some n ↦ parse_fields browser (out ++ int32 n ∷ []) fields
  ]
]

unfoldable pub parse_versions : Bytes → Bytes → Result FlagError (List ℤ)
unfolding parse_fields
parse_versions s browser = parse_fields browser [] (split b',' s)

unfoldable pub wants_async : Bytes → ℤ → Bool
wants_async github_repo (negsuc n) = false
wants_async github_repo (pos n) = not (github_repo == []) && ltb 0 n

pub record Flags : Type 0 where
  pub url : Bytes
  pub access_key_id : Bytes
  pub secret_access_key : Bytes
  pub anubis_image : Bytes
  pub chrome_versions : Bytes
  pub firefox_versions : Bytes
  pub id : Bytes
  pub github_repo : Bytes
  pub pr_number : ℤ
  pub commit_sha : Bytes

pub record Test : Type 0 where
  pub id : Bytes
  pub anubis_image : Bytes
  pub chrome_versions : List ℤ
  pub firefox_versions : List ℤ
  pub policies : List (Bytes × Bytes)

pub data RunError : Type 0 where
  url_required image_required keys_required reported_failure : RunError
  bad_flag : FlagError → RunError
  bad_policies : LoadError → RunError
  transport_failed request_failed : Error → RunError

pub data Call : Type 0 where
  submit_smoke_test : Test → Bytes → ℤ → Bytes → Call
  smoke_test : Test → Call

-- the calls made, what was printed, and what run returns
pub record Outcome : Type 0 where
  pub calls : List Call
  pub printed : Bytes
  pub result : Result RunError Unit

abbrev failed : RunError → Outcome
failed e = record { calls = []; printed = []; result = err e }

pub record Client : Type 0 where
  pub policy_dir : Result Error (List DirEntry)
  pub new_id : Bytes
  pub transport : Option Error
  pub submit : Call → Option Error
  -- whether the run is a success, and its report
  pub test : Call → Result Error (Bool × Bytes)

module _ (client : Client) where
  submitted : Call → Option Error → Outcome
  submitted c none = record { calls = c ∷ []; printed = []; result = ok tt }
  submitted c (some e) = record { calls = c ∷ []; printed = []; result = err (request_failed e) }

  tested : Call → Result Error (Bool × Bytes) → Outcome
  tested c (err e) = record { calls = c ∷ []; printed = []; result = err (request_failed e) }
  tested c (ok (success, report)) = record {
    calls = c ∷ [];
    printed = report;
    result = if success then ok tt else err reported_failure;
  }

  -- from the signing transport on
  unfoldable pub send : Flags → Test → Outcome
  unfolding submitted tested
  send f t = elim client.transport [
    | some e ↦ failed (transport_failed e)
    | none ↦
        if wants_async f.github_repo f.pr_number
        then (let c = submit_smoke_test t f.github_repo (int32 f.pr_number) f.commit_sha in
            submitted c (client.submit c))
        else tested (smoke_test t) (client.test (smoke_test t))
  ]

  -- behind the tests on the flags
  prepare : Flags → Outcome
  prepare f = elim (parse_versions f.chrome_versions (bytes "chrome")) [
    | err e ↦ failed (bad_flag e)
    | ok chrome ↦ elim (parse_versions f.firefox_versions (bytes "firefox")) [
      | err e ↦ failed (bad_flag e)
      | ok firefox ↦ elim (load_policy_dir client.policy_dir) [
        | err e ↦ failed (bad_policies e)
        | ok policies ↦ send f (record {
          id = if f.id == [] then client.new_id else f.id;
          anubis_image = f.anubis_image;
          chrome_versions = chrome;
          firefox_versions = firefox;
          policies = policies;
        })
      ]
    ]
  ]

  unfoldable pub run : Flags → Outcome
  unfolding prepare
  run f =
      if f.url == []
      then failed url_required
      else if f.anubis_image == []
      then failed image_required
      else if f.access_key_id == [] || f.secret_access_key == []
      then failed keys_required
      else prepare f
