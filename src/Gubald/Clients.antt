-- ===== src/Gubald/Clients.antt =====
-- cmd/gubald/svc/smoketest/github.go and tigris.go, and what cmd/gubald/main.go makes of its flags
-- for them. The clients of GitHub and Tigris and fmt's %q are parameters.
pub mod Repos
pub mod Bundles
use gubal.Common.{
  ◌||◌, List, [], ◌∷◌, ◌++◌, Option, none, some, ◌≡◌, refl, Bytes, bytes, ◌==◌, Result, ok, err,
  if◌then◌else◌,
}
use gubal.Common.Int.{ℤ}
use gubal.Common.Errors.{Error, errorf, wrap}
use gubal.Strings.{split, trim_space, itoa}

-- the owner and the name, where there are just these two parts
abbrev pub two_parts : List Bytes → Option (Bytes × Bytes)
two_parts (owner ∷ name ∷ []) = if owner == [] || name == [] then none else some (owner, name)
two_parts _ = none

module _ (quote : Bytes → Bytes) where
  unfoldable pub split_repo : Bytes → Result Error (Bytes × Bytes)
  split_repo repo = elim (two_parts (split b'/' repo)) [
    | none ↦ err (errorf (bytes "repo " ++ (quote repo ++ bytes " is not in owner/repo form")))
    | some p ↦ ok p
  ]

  module _ {W : Type 0} (create_comment : Bytes → Bytes → ℤ → Bytes → W → Option Error × W) where
    posted_comment : Bytes → ℤ → Option Error × W → Option Error × W
    posted_comment repo pr (none, w) = (none, w)
    posted_comment repo pr (some e, w) =
        (some (wrap (bytes "posting comment to " ++ (repo ++ (bytes "#" ++ itoa pr))) e), w)

    unfoldable pub comment : Bytes → ℤ → Bytes → W → Option Error × W
    unfolding posted_comment
    comment repo pr body w = elim (split_repo repo) [
      | err e ↦ (some e, w)
      | ok (owner, name) ↦ posted_comment repo pr (create_comment owner name pr body w)
    ]

-- a tigrisUploader over a client and a bucket
pub data Uploader (Client : Type 0) : Type 0 where
  noop_uploader : Uploader Client
  tigris_uploader : Client → Bytes → Uploader Client

module _ {Client : Type 0} where
  -- what storage.New gives is the second argument
  unfoldable pub new_tigris_uploader : Bytes → Result Error Client → Result Error (Uploader Client)
  new_tigris_uploader bucket made = if bucket == [] then ok noop_uploader else elim made [
    | err e ↦ err (wrap (bytes "building tigris client") e)
    | ok client ↦ ok (tigris_uploader client bucket)
  ]

  -- PutObject: the bucket, the key, the body and its type; PresignGetObject: the bucket and the key
  module _ {W : Type 0} (put_object : Client → Bytes → Bytes → Bytes → Bytes → W → Option Error × W)
      (presign_get_object : Client → Bytes → Bytes → W → Result Error Bytes × W) where
    presigned : Bytes → Bytes → Result Error Bytes × W → Result Error Bytes × W
    presigned bucket key (ok url, w) = (ok url, w)
    presigned bucket key (err e, w) =
        (err (wrap (bytes "presigning " ++ (key ++ (bytes " in " ++ bucket))) e), w)

    put : Client → Bytes → Bytes → Option Error × W → Result Error Bytes × W
    unfolding presigned
    put client bucket key (some e, w) =
        (err (wrap (bytes "uploading " ++ (key ++ (bytes " to " ++ bucket))) e), w)
    put client bucket key (none, w) = presigned bucket key (presign_get_object client bucket key w)

    unfoldable pub upload : Uploader Client → Bytes → Bytes → Bytes → W → Result Error Bytes × W
    unfolding put
    upload noop_uploader key body content_type w = (ok [], w)
    upload (tigris_uploader client bucket) key body content_type w =
        put client bucket key (put_object client bucket key body content_type w)

-- the loop of run over the parts of -github-repos
kept_repos : List Bytes → List Bytes
kept_repos [] = []
kept_repos (r ∷ repos) =
    let rest = kept_repos repos in if trim_space r == [] then rest else trim_space r ∷ rest

unfoldable pub allowed_repos : Bytes → List Bytes
unfolding kept_repos
allowed_repos github_repos = kept_repos (split b',' github_repos)
