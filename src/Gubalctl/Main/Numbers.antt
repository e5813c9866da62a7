-- ===== src/Gubalctl/Main/Numbers.antt =====
-- What the version flags of gubalctl stand for.
use gubal.Common.{
  true, false, List, [], ◌∷◌, ◌++◌, append-nil, append_assoc, ◌≡◌, ◌≢◌, refl, sym, ◌∙◌, Bytes, ◌==◌,
  ok, map, Option, none, some, Bool-cases, Option-cases, inl, inr,
}
use gubal.Common.Int.{ℤ}
use gubal.Strings.{split, trim_space, atoi}
use gubal.Gubalctl.Main.{int32, some_versions, parse_fields, parse_versions}

-- the numbers of the fields that are not blank; none where one is not a number
unfoldable pub numbers : List Bytes → Option (List ℤ)
numbers [] = some []
numbers (f ∷ fields) = elim (trim_space f == []) [
  | true ↦ numbers fields
  | false ↦ elim (atoi (trim_space f)) [
    | none ↦ none
    | some n ↦ elim (numbers fields) [ none ↦ none | some ns ↦ some (n ∷ ns) ]
  ]
]

some_versions_ok :
    (browser : Bytes) (ns out : List ℤ)
    → some_versions browser ns ≡ ok out
    → (ns ≡ out) × (out ≢ [])
unfolding some_versions
some_versions_ok browser [] out e = absurd (cc e)
some_versions_ok browser (n ∷ ns) out e =
    let same : n ∷ ns ≡ out = cc e in (same, λ q. let bad : n ∷ ns ≡ [] = same ∙ q in cc bad)

parse_fields_ok :
    (browser : Bytes) (acc : List ℤ) (fields : List Bytes) (out : List ℤ)
    → parse_fields browser acc fields ≡ ok out
    → (ns : List ℤ) × (numbers fields ≡ some ns) × (acc ++ map int32 ns ≡ out) × (out ≢ [])
unfolding parse_fields numbers
parse_fields_ok browser acc [] out e =
    let (same, ne) = some_versions_ok browser acc out e in ([], refl, append-nil acc ∙ same, ne)
parse_fields_ok browser acc (f ∷ fields) out e = elim (Bool-cases (trim_space f == [])) [
  | inl b ↦
      let (ns, q, same, ne) = parse_fields_ok browser acc fields out (rw (parse_fields, b) at e) in
      (ns, rw (numbers, b) q, same, ne)
  | inr b ↦
      let e' = rw (parse_fields, b) at e in
      elim (Option-cases (atoi (trim_space f))) [
        | inl a ↦ absurd (let e'' = rw a at e' in cc e'')
        | inr (n, a) ↦
            let (ns, q, same, ne) =
              parse_fields_ok browser (acc ++ int32 n ∷ []) fields out (rw a at e') in
            (
              n ∷ ns,
              rw (numbers, b) (rw a (rw q refl)),
              sym (append_assoc acc (int32 n ∷ []) (map int32 ns)) ∙ same,
              ne,
            )
      ]
]

-- The version flag gives numbers only where each field that is not blank is one, and then they are
-- these numbers in their order, each wrapped to 32 bits, and at least one.
pub parse_versions-numbers :
    (s browser : Bytes) (out : List ℤ)
    → parse_versions s browser ≡ ok out
    → (ns : List ℤ) × (numbers (split b',' s) ≡ some ns) × (map int32 ns ≡ out) × (out ≢ [])
unfolding parse_versions
parse_versions-numbers s browser out e = parse_fields_ok browser [] (split b',' s) out e
