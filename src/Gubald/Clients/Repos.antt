-- ===== src/Gubald/Clients/Repos.antt =====
-- Which repositories are commented on.
use gubal.Common.{
  true, false, ◌||◌, List, [], ◌∷◌, ◌++◌, some, ◌≡◌, ◌≢◌, ◌↔◌, refl, sym, ap, ◌∙◌, arith, Bytes,
  bytes, ◌==◌, ==_iff, ok, Lacks, Bool-cases, Option-cases, inl, inr, member,
}
use gubal.Strings.{split, join, trim_space}
use gubal.Strings.Parts.{split-append, split-of_Lacks, split-Lacks, join-split}
use gubal.Gubald.Clients.{two_parts, split_repo, kept_repos, allowed_repos}

two_parts-some :
    (ps : List Bytes) {o n : Bytes}
    → two_parts ps ≡ some (o, n)
    → (ps ≡ o ∷ n ∷ []) × (o ≢ []) × (n ≢ [])
two_parts-some [] e = absurd (cc e)
two_parts-some (p ∷ []) e = absurd (cc e)
two_parts-some (p ∷ q ∷ r ∷ ps) e = absurd (cc e)
two_parts-some (p ∷ q ∷ []) {o} {n} e = elim (Bool-cases (p == [] || q == [])) [
  | inl b ↦ absurd (let e' = rw b at e in cc e')
  | inr b ↦
      let e' = rw b at e in
      let eo : p ≡ o = cc e' in
      let en : q ≡ n = cc e' in
      rw (← eo, ← en) (refl, ground (arith, ==_iff p []), ground (arith, ==_iff q []))
]

-- a repository with an owner and a name
abbrev pub IsRepo : Bytes → Bytes × Bytes → Type 0
IsRepo repo (o, n) = (repo ≡ o ++ b'/' ∷ n) × (o ≢ []) × (n ≢ []) × Lacks b'/' o × Lacks b'/' n

-- A repository splits into an owner and a name if it is just the two with a slash between, neither is
-- empty, and neither holds a slash, and only then.
pub split_repo_iff :
    (quote : Bytes → Bytes) (repo o n : Bytes)
    → (split_repo quote repo ≡ ok (o, n)) ↔ IsRepo repo (o, n)
unfolding split_repo join
split_repo_iff quote repo o n = (forth, back)
  where
    forth : split_repo quote repo ≡ ok (o, n) → IsRepo repo (o, n)
    forth e = elim (Option-cases (two_parts (split b'/' repo))) [
      | inl c ↦ absurd (let e' = rw (split_repo, c) at e in cc e')
      | inr ((o', n'), c) ↦
          let e' = rw (split_repo, c) at e in
          let eo : o' ≡ o = cc e' in
          let en : n' ≡ n = cc e' in
          let (parts, ho, hn) = two_parts-some (split b'/' repo) c in
          let lacks = rw parts at (split-Lacks b'/' repo) in
          let whole : o' ++ b'/' ∷ n' ≡ repo =
            ap (join (bytes "/")) (sym parts) ∙ join-split b'/' repo in
          rw (← eo, ← en) (sym whole, ho, hn, lacks.0, lacks.1.0)
    ]

    back : IsRepo repo (o, n) → split_repo quote repo ≡ ok (o, n)
    back (e, ho, hn, lo, ln) =
        let parts : split b'/' repo ≡ o ∷ n ∷ [] =
          ap (split b'/') e
          ∙ split-append b'/' o n lo
          ∙ ap (λ r. o ∷ r) (split-of_Lacks b'/' n ln) in
        let b : (o == [] || n == []) ≡ false = ground (arith, ==_iff o [], ==_iff n []) in
        rw (split_repo, parts, b) refl

abbrev Kept : Bytes → List Bytes → Type 0
Kept t xs = (t ≢ []) × (x : Bytes) × (member x xs ≡ true) × (trim_space x ≡ t)

Kept-more : (t r : Bytes) (xs : List Bytes) → Kept t xs → Kept t (r ∷ xs)
Kept-more t r xs (ne, x, m, q) = (ne, x, ground arith, q)

kept_repos_sound : (t : Bytes) (xs : List Bytes) → member t (kept_repos xs) ≡ true → Kept t xs
unfolding kept_repos
kept_repos_sound t [] h = absurd (cc h)
kept_repos_sound t (r ∷ xs) h = elim (Bool-cases (trim_space r == [])) [
  | inl e ↦ Kept-more t r xs (kept_repos_sound t xs (rw (kept_repos, e) at h))
  | inr e ↦
      let h' = rw (kept_repos, e) at h in
      elim (Bool-cases (trim_space r == t)) [
        | inl b ↦
            let same = (==_iff (trim_space r) t).0 b in
            (
              λ empty. let none_left = rw (same ∙ empty) at e in cc,
              r,
              rw ((==_iff r r).1 refl) refl,
              same,
            )
        | inr b ↦ Kept-more t r xs (kept_repos_sound t xs (rw b at h'))
      ]
]

kept_repos_complete :
    (t x : Bytes) (xs : List Bytes)
    → t ≢ []
    → member x xs ≡ true
    → trim_space x ≡ t
    → member t (kept_repos xs) ≡ true
unfolding kept_repos
kept_repos_complete t x [] ne m q = m
kept_repos_complete t x (r ∷ xs) ne m q = elim (Bool-cases (r == x)) [
  | inl b ↦
      let same : trim_space r ≡ t = ap trim_space ((==_iff r x).0 b) ∙ q in
      rw (kept_repos, same) (ground (arith, ==_iff t [], ==_iff t t))
  | inr b ↦ let rest = kept_repos_complete t x xs ne (rw b at m) q in ground (arith, rest)
]

-- gubald allows just the parts of -github-repos between commas, trimmed, and without the empty ones.
pub allowed_repos_iff :
    (t github_repos : Bytes)
    → (member t (allowed_repos github_repos) ≡ true)
      ↔ ((t ≢ []) × (x : Bytes) × (member x (split b',' github_repos) ≡ true) × (trim_space x ≡ t))
unfolding allowed_repos
allowed_repos_iff t csv = (
  kept_repos_sound t (split b',' csv),
  λ (ne, x, m, q). kept_repos_complete t x (split b',' csv) ne m q,
)
