-- ===== src/ChromeBully/Headers.antt =====
-- The headers that the -header flags give.
use gubal.Common.{
  List, [], ◌∷◌, ◌++◌, Option, none, some, ◌≡◌, ◌≢◌, refl, sym, ap, ◌∙◌, arith, Bytes, ◌==◌, ==_iff,
  if◌then◌else◌, Lacks, Result, ok, err, Bool-cases, Option-cases, inl, inr, ◌⊎◌,
}
use gubal.Strings.{cut, trim_space}
use gubal.Strings.Parts.Cut.{cut_sound}
use gubal.ChromeBully.{HeaderError, put, parse_header, parse_headers}

-- m[key], where there is one
pub lookup : Bytes → List (Bytes × Bytes) → Option Bytes
lookup key [] = none
lookup key ((k, v) ∷ m) = if k == key then some v else lookup key m

lookup-put :
    (key k v : Bytes) (m : List (Bytes × Bytes))
    → lookup key (put k v m) ≡ (if k == key then some v else lookup key m)
unfolding lookup put
lookup-put key k v [] = refl
lookup-put key k v ((j, w) ∷ m) =
    ground (arith, ==_iff k key, ==_iff j k, ==_iff j key, lookup-put key k v m)

-- the value of the last pair with a name, or `before` where there is none
pub last_of : Bytes → Option Bytes → List (Bytes × Bytes) → Option Bytes
last_of key before [] = before
last_of key before ((name, val) ∷ ps) = last_of key (if name == key then some val else before) ps

-- a flag and its header: the flag is a name without a colon, a colon and a value, and the header is
-- the two without the space around them, where the name is not blank
abbrev pub IsHeader : Bytes → Bytes × Bytes → Type 0
IsHeader h (name, val) =
    (n : Bytes) × (v : Bytes) × (h ≡ n ++ b':' ∷ v)
    × Lacks b':' n
    × (name ≡ trim_space n)
    × (val ≡ trim_space v)
    × (name ≢ [])

-- the headers of some flags, one for each and in their order
abbrev pub AreHeaders : List Bytes → List (Bytes × Bytes) → Type 0
AreHeaders [] [] = Unit
AreHeaders [] (p ∷ ps) = ⊥
AreHeaders (h ∷ hs) [] = ⊥
AreHeaders (h ∷ hs) (p ∷ ps) = IsHeader h p × AreHeaders hs ps

parse_header-IsHeader :
    (h : Bytes) {name val : Bytes} → parse_header h ≡ ok (name, val) → IsHeader h (name, val)
unfolding parse_header
parse_header-IsHeader h {name} {val} e = elim (Option-cases (cut b':' h)) [
  | inl c ↦ absurd (let e' = rw (parse_header, c) at e in cc e')
  | inr ((n, v), c) ↦
      let (split, lacks) = cut_sound b':' h c in
      let e' = rw (parse_header, c) at e in
      elim (Bool-cases (trim_space n == [])) [
        | inl b ↦ absurd (let e'' = rw b at e' in cc e'')
        | inr b ↦
            let e'' : ◌≡◌ {A = Result HeaderError (Bytes × Bytes)} (ok (trim_space n, trim_space v))
                (ok (name, val)) =
              rw b at e' in
            let same : ◌≡◌ {A = Bytes × Bytes} (trim_space n, trim_space v) (name, val) = cc e'' in
            let named : name ≡ trim_space n = sym (ap (λ p. p.0) same) in
            (
              n,
              v,
              split,
              lacks,
              named,
              sym (ap (λ p. p.1) same),
              λ q. let b' = rw (sym named ∙ q, (==_iff [] []).1 refl) at b in cc b',
            )
      ]
]

Result-cases :
    (r : Result HeaderError (Bytes × Bytes))
    → ((e : HeaderError) × (r ≡ err e)) ⊎ ((p : Bytes × Bytes) × (r ≡ ok p))
Result-cases (ok p) = inr (p, refl)
Result-cases (err e) = inl (e, refl)

headers_from :
    (m : List (Bytes × Bytes)) (hs : List Bytes) {out : List (Bytes × Bytes)}
    → parse_headers m hs ≡ ok out
    → (ps : List (Bytes × Bytes)) × AreHeaders hs ps
      × ((key : Bytes) → lookup key out ≡ last_of key (lookup key m) ps)
unfolding parse_headers last_of
headers_from m [] {out} e = let same : m ≡ out = cc e in ([], tt, λ key. rw same refl)
headers_from m (h ∷ hs) {out} e = elim (Result-cases (parse_header h)) [
  | inl (x, q) ↦ absurd (let e' = rw (parse_headers, q) at e in cc e')
  | inr ((name, val), q) ↦
      let (ps, all, values) = headers_from (put name val m) hs (rw (parse_headers, q) at e) in
      (
        (name, val) ∷ ps,
        (parse_header-IsHeader h q, all),
        λ key. values key ∙ ap (λ o. last_of key o ps) (lookup-put key name val m),
      )
]

-- If all -header flags are accepted, each is a name that holds no colon and is not blank, a colon and
-- a value, and its header is the two without the space around them. Each header name has the value of
-- the last flag with that name, and there are no other headers.
pub parse_headers_lem :
    (hs : List Bytes) {out : List (Bytes × Bytes)}
    → parse_headers [] hs ≡ ok out
    → (ps : List (Bytes × Bytes)) × AreHeaders hs ps
      × ((key : Bytes) → lookup key out ≡ last_of key none ps)
unfolding lookup
parse_headers_lem hs e = headers_from [] hs e
