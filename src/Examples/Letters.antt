-- ===== src/Examples/Letters.antt =====
-- A format for the log lines of chrome-bully: one letter and one text.
use gubal.Common.{
  ℕ, true, ◌&&◌, ◌||◌, List, [], ◌∷◌, Option, none, some, ◌≡◌, inl, inr, refl, ap, ◌∙◌, sym, arith,
  Bytes, bytes, ◌==◌, ==_iff, nat_eq, nat_eq_iff, leb, if◌then◌else◌, map, all, Lacks, Bool-cases,
}
use gubal.Chromesweep.Logs.{LogLine}
use gubal.ChromeBully.Console.{Value, text, LogRecord}
use gubal.ChromeBully.Capture.Rules.{clear_msg}
use gubal.ChromeBully.Reading.{Format}

-- a byte that does not end a line
abbrev pub inline : ℕ → ℕ
inline c = if nat_eq c 10 || nat_eq c 13 then b'?' else c

abbrev pub first_text : List (Bytes × Value) → Bytes
first_text ((key, text s) ∷ attrs) = s
first_text _ = []

abbrev pub encode : LogRecord → Bytes
encode r =
    if r.msg == bytes "captured"
    then b'c' ∷ map inline (first_text r.attrs)
    else if r.msg == bytes "fatal"
    then b'f' ∷ map inline (first_text r.attrs)
    else b'o' ∷ map inline r.msg

abbrev pub decode : Bytes → Option LogLine
decode [] = none
decode (c ∷ s) =
    if nat_eq c b'c'
    then some (record { msg = bytes "captured"; path = s; error = [] })
    else if nat_eq c b'f'
    then some (record { msg = bytes "fatal"; path = []; error = s })
    else some (record { msg = s; path = []; error = [] })

inline-Lacks : (s : Bytes) → Lacks 10 (map inline s) × Lacks 13 (map inline s)
inline-Lacks [] = (tt, tt)
inline-Lacks (c ∷ s) =
    let (a, b) = inline-Lacks s in
    (
      (ground (arith, nat_eq_iff c 10, nat_eq_iff c 13), a),
      (ground (arith, nat_eq_iff c 10, nat_eq_iff c 13), b),
    )

inline_clear : (s : Bytes) → all (λ c. leb 32 c && leb c 126) s ≡ true → map inline s ≡ s
inline_clear [] h = refl
inline_clear (c ∷ s) h =
    let rest : all (λ b. leb 32 b && leb b 126) s ≡ true = ground arith in
    let same : inline c ≡ c = ground (arith, nat_eq_iff c 10, nat_eq_iff c 13) in
    ap (λ r. inline c ∷ r) (inline_clear s rest) ∙ ap (λ b. b ∷ s) same

line_ends : (r : LogRecord) → Lacks 10 (encode r) × Lacks 13 (encode r)
line_ends r = elim (Bool-cases (r.msg == bytes "captured")) [
  | inl e ↦
      let (a, b) = inline-Lacks (first_text r.attrs) in rw e ((omega arith, a), (omega arith, b))
  | inr e ↦ elim (Bool-cases (r.msg == bytes "fatal")) [
    | inl q ↦
        let (a, b) = inline-Lacks (first_text r.attrs) in
        rw (e, q) ((omega arith, a), (omega arith, b))
    | inr q ↦ let (a, b) = inline-Lacks r.msg in rw (e, q) ((omega arith, a), (omega arith, b))
  ]
]

same_msg : {a l : LogLine} → some a ≡ some l → l.msg ≡ a.msg
same_msg {a} {l} h = let e : a ≡ l = cc h in ap (λ x. x.msg) (sym e)

msg_kept :
    (r : LogRecord) {l : LogLine} → clear_msg r ≡ true → decode (encode r) ≡ some l → l.msg ≡ r.msg
msg_kept r {l} c h = elim (Bool-cases (r.msg == bytes "captured")) [
  | inl e ↦ let h' = rw e at h in same_msg h' ∙ sym ((==_iff r.msg (bytes "captured")).0 e)
  | inr e ↦ elim (Bool-cases (r.msg == bytes "fatal")) [
    | inl q ↦ let h' = rw (e, q) at h in same_msg h' ∙ sym ((==_iff r.msg (bytes "fatal")).0 q)
    | inr q ↦
        let h' = rw (e, q) at h in
        let printable : all (λ c. leb 32 c && leb c 126) r.msg ≡ true = ground arith in
        same_msg h' ∙ inline_clear r.msg printable
  ]
]

no_bytes : (s : Bytes) → map inline s ≡ [] → s ≡ []
no_bytes [] e = refl
no_bytes (c ∷ s) e = absurd (cc e)

pub letters : Format encode decode (map inline)
unfolding ◌==◌
letters = record {
  one_line = line_ends;
  msg = λ r c e. msg_kept r c e;
  captured = λ path. refl;
  fatal = λ e. refl;
  non_empty = λ s ne e. ne (no_bytes s e);
}
