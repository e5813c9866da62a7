-- ===== src/Gubalctl/Lockstep.antt =====
-- The client's loader and chromesweep's give a sweep the same policies.
use gubal.Common.{
  true, false, List, [], ◌∷◌, ◌++◌, ◌≡◌, inl, inr, refl, sym, ap, ◌∙◌, arith, Bytes, ◌==◌, ==_iff,
  ==_comm, map, Result, ok, err, member, Distinct, All, Bool-cases,
}
use gubal.Common.Keys.{member-append, Distinct-append}
use gubal.Strings.{has_suffix, trim_suffix}
use gubal.Strings.Search.{trim_suffix-append}
use gubal.Chromesweep.Policies
use gubal.Chromesweep.Policies.{
  Policy, NameError, LoadError, DirEntry, yaml, StringMap, is_policy_file, insert_policy,
  sort_policies, insert_name, sort_names, policies_from_map, load_policies_from_dir,
}
use gubal.Chromesweep.Policies.Order.{names}
use gubal.Gubalctl.Pairs.{pair, policies_from_map-pairs}
use gubal.Gubalctl.{put, read_policy, load_loop, some_policies, load_policy_dir, string_map}

abbrev pub map_ok : {A B : Type 0} → (A → B) → Result LoadError A → Result LoadError B
map_ok f (ok a) = ok (f a)
map_ok f (err e) = err e

-- a new key goes to the end
put-fresh :
    (k v : Bytes) (ps : List Policy)
    → member k (names ps) ≡ false
    → put k v (map pair ps) ≡ map pair ps ++ (k, v) ∷ []
unfolding put
put-fresh k v [] h = refl
put-fresh k v (p ∷ ps) h = ground (arith, put-fresh k v ps)

read_policy-pair : (e : DirEntry) → read_policy e ≡ map_ok pair (Policies.read_policy e)
unfolding read_policy Policies.read_policy Policies.validate_policy_name
read_policy-pair e = ground arith

read_policy-name :
    (e : DirEntry) {p : Policy} → Policies.read_policy e ≡ ok p → p.name ≡ trim_suffix e.name yaml
unfolding Policies.read_policy
read_policy-name e h = ground arith

-- an entry whose policy has none of the names
abbrev Fresh : List Bytes → DirEntry → Type 0
Fresh ns e = has_suffix e.name yaml ≡ true → member (trim_suffix e.name yaml) ns ≡ false

trimmed_ne :
    (s t : Bytes)
    → has_suffix s yaml ≡ true
    → has_suffix t yaml ≡ true
    → (s == t) ≡ false
    → (trim_suffix s yaml == trim_suffix t yaml) ≡ false
trimmed_ne s t h k ne = ground (
  arith,
  trim_suffix-append s yaml h,
  trim_suffix-append t yaml k,
  ==_iff s t,
  ==_iff (trim_suffix s yaml) (trim_suffix t yaml),
)

Fresh-step :
    (ns : List Bytes) (s : Bytes) (entries : List DirEntry)
    → has_suffix s yaml ≡ true
    → member s (map (λ (e : DirEntry). e.name) entries) ≡ false
    → All (Fresh ns) entries
    → All (Fresh (ns ++ trim_suffix s yaml ∷ [])) entries
Fresh-step ns s [] h d _ = tt
Fresh-step ns s (e ∷ entries) h d (f, fs) = (
  λ k.
      rw (member-append (trim_suffix e.name yaml) ns (trim_suffix s yaml ∷ []))
        (ground (arith, f k, trimmed_ne s e.name h k, ==_comm e.name s)),
  Fresh-step ns s entries h (ground arith) fs,
)

names-append : (ps : List Policy) (p : Policy) → names (ps ++ p ∷ []) ≡ names ps ++ p.name ∷ []
names-append [] p = refl
names-append (q ∷ ps) p = ap (λ r. q.name ∷ r) (names-append ps p)

pairs-append :
    (ps : List Policy) (p : Policy) → map pair (ps ++ p ∷ []) ≡ map pair ps ++ pair p ∷ []
pairs-append [] p = refl
pairs-append (q ∷ ps) p = ap (λ r. pair q ∷ r) (pairs-append ps p)

load_loop-skip :
    (m : List (Bytes × Bytes)) (ps : List Policy) (e : DirEntry) (entries : List DirEntry)
    → is_policy_file e ≡ false
    → (load_loop m (e ∷ entries) ≡ load_loop m entries)
      × (Policies.load_loop ps (e ∷ entries) ≡ Policies.load_loop ps entries)
unfolding load_loop is_policy_file Policies.load_loop
load_loop-skip m ps e entries h = ground arith

load_loop-err :
    (ps : List Policy) (e : DirEntry) (entries : List DirEntry) {why : LoadError}
    → is_policy_file e ≡ true
    → Policies.read_policy e ≡ err why
    → (load_loop (map pair ps) (e ∷ entries) ≡ err why)
      × (Policies.load_loop ps (e ∷ entries) ≡ err why)
unfolding load_loop is_policy_file Policies.load_loop
load_loop-err ps e entries h r = ground (arith, read_policy-pair e)

load_loop-ok :
    (ps : List Policy) (e : DirEntry) (entries : List DirEntry) {p : Policy}
    → is_policy_file e ≡ true
    → Policies.read_policy e ≡ ok p
    → (load_loop (map pair ps) (e ∷ entries)
        ≡ load_loop (put p.name p.content (map pair ps)) entries)
      × (Policies.load_loop ps (e ∷ entries) ≡ Policies.load_loop (ps ++ p ∷ []) entries)
unfolding load_loop is_policy_file Policies.load_loop
load_loop-ok ps e entries h r = ground (arith, read_policy-pair e)

policy_file-suffix : (e : DirEntry) → is_policy_file e ≡ true → has_suffix e.name yaml ≡ true
unfolding is_policy_file
policy_file-suffix e h = ground arith

-- the names of the entries, which differ in one directory
abbrev pub entry_names : List DirEntry → List Bytes
entry_names = map (λ e. e.name)

load_loop-pairs :
    (ps : List Policy) (entries : List DirEntry)
    → Distinct (entry_names entries)
    → All (Fresh (names ps)) entries
    → load_loop (map pair ps) entries ≡ map_ok (map pair) (Policies.load_loop ps entries)
load_loop-pairs ps [] d f = unfold load_loop Policies.load_loop in refl
load_loop-pairs ps (e ∷ entries) (d, ds) (f, fs) = elim (Bool-cases (is_policy_file e)) [
  | inr h ↦
      let (c, s) = load_loop-skip (map pair ps) ps e entries h in
      rw (c, s) (load_loop-pairs ps entries ds fs)
  | inl h ↦ go (Policies.read_policy e) refl h (λ p. load_loop-pairs (ps ++ p ∷ []) entries ds)
]
  where
    go :
        (r : Result LoadError Policy)
        → Policies.read_policy e ≡ r
        → is_policy_file e ≡ true
        → ((p : Policy)
            → All (Fresh (names (ps ++ p ∷ []))) entries
            → load_loop (map pair (ps ++ p ∷ [])) entries
              ≡ map_ok (map pair) (Policies.load_loop (ps ++ p ∷ []) entries))
        → load_loop (map pair ps) (e ∷ entries)
          ≡ map_ok (map pair) (Policies.load_loop ps (e ∷ entries))
    go (err why) q h ih = let (c, s) = load_loop-err ps e entries h q in rw (c, s)
    go (ok p) q h ih =
        let (c, s) = load_loop-ok ps e entries h q in
        let suffix = policy_file-suffix e h in
        let same = read_policy-name e q in
        let fresh : member p.name (names ps) ≡ false = rw same (f suffix) in
        let later : All (Fresh (names (ps ++ p ∷ []))) entries =
          rw (names-append ps p, same) (Fresh-step (names ps) e.name entries suffix d fs) in
        rw (c, s, put-fresh p.name p.content ps fresh, ← pairs-append ps p) (ih p later)

load_loop-Distinct :
    (ps : List Policy) (entries : List DirEntry)
    → Distinct (entry_names entries)
    → All (Fresh (names ps)) entries
    → Distinct (names ps)
    → (qs : List Policy) → Policies.load_loop ps entries ≡ ok qs
    → Distinct (names qs)
load_loop-Distinct ps [] d f g qs h =
    let same : ps ≡ qs = unfold Policies.load_loop in cc in rw (← same) g
load_loop-Distinct ps (e ∷ entries) (d, ds) (f, fs) g qs h = elim (Bool-cases (is_policy_file e)) [
  | inr k ↦
      let (_, s) = load_loop-skip (map pair ps) ps e entries k in
      load_loop-Distinct ps entries ds fs g qs (sym s ∙ h)
  | inl k ↦ go (Policies.read_policy e) refl k (λ p. load_loop-Distinct (ps ++ p ∷ []) entries ds)
]
  where
    go :
        (r : Result LoadError Policy)
        → Policies.read_policy e ≡ r
        → is_policy_file e ≡ true
        → ((p : Policy)
            → All (Fresh (names (ps ++ p ∷ []))) entries
            → Distinct (names (ps ++ p ∷ []))
            → (qs : List Policy) → Policies.load_loop (ps ++ p ∷ []) entries ≡ ok qs
            → Distinct (names qs))
        → Distinct (names qs)
    go (err why) q k ih = let (_, s) = load_loop-err ps e entries k q in cc (s, h)
    go (ok p) q k ih =
        let (_, s) = load_loop-ok ps e entries k q in
        let suffix = policy_file-suffix e k in
        let same = read_policy-name e q in
        let fresh : member p.name (names ps) ≡ false = rw same (f suffix) in
        ih p (rw (names-append ps p, same) (Fresh-step (names ps) e.name entries suffix d fs))
          (rw (names-append ps p) (Distinct-append (names ps) p.name g fresh)) qs (sym s ∙ h)

Fresh-All : (entries : List DirEntry) → All (Fresh []) entries
Fresh-All [] = tt
Fresh-All (e ∷ entries) = (λ _. refl, Fresh-All entries)

finish_lockstep :
    (r : Result LoadError (List Policy))
    → ((qs : List Policy) → r ≡ ok qs → Distinct (names qs))
    → map_ok (λ m. policies_from_map (string_map m)) (some_policies (map_ok (map pair) r))
      ≡ Policies.some_policies r
unfolding some_policies Policies.some_policies
finish_lockstep (err why) h = refl
finish_lockstep (ok []) h = refl
finish_lockstep (ok (p ∷ ps)) h = ap ok (policies_from_map-pairs (p ∷ ps) (h (p ∷ ps) refl))

-- For every directory whose file names differ, the map that gubalctl sends gives the same policies
-- as chromesweep reads from the directory, in the same order, and the loaders fail alike.
pub load_policy_dir-lockstep :
    (entries : List DirEntry)
    → Distinct (entry_names entries)
    → map_ok (λ m. policies_from_map (string_map m)) (load_policy_dir (ok entries))
      ≡ load_policies_from_dir (ok entries)
unfolding load_policy_dir load_policies_from_dir
load_policy_dir-lockstep entries d =
    ap (λ r. map_ok (λ m. policies_from_map (string_map m)) (some_policies r))
      (load_loop-pairs [] entries d (Fresh-All entries))
    ∙ finish_lockstep (Policies.load_loop [] entries)
        (load_loop-Distinct [] entries d (Fresh-All entries) tt)
