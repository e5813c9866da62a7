-- ===== src/Chromesweep/Bundle/Paths.antt =====
-- The paths in a bundle tell the results of a run apart.
use mathlib.Core.List.{append_cancel_left, append_cancel_right}
use gubal.Common.{
  ℕ, [], ◌∷◌, ◌++◌, ◌≡◌, ◌≢◌, refl, sym, ◌∙◌, arith, Bytes, bytes, ◌==◌, ==_iff, All-append, Lacks,
  Bool-cases, inl, inr,
}
use gubal.Chromesweep.Report.{SweepResult}
use gubal.Chromesweep.Bundle.{bundle_path, bundle_frame_path, bundle_log_path}

-- the first separator of a text is in one place
cut_unique :
    (sep : ℕ) (a c b d : Bytes)
    → Lacks sep a
    → Lacks sep c
    → a ++ sep ∷ b ≡ c ++ sep ∷ d
    → (a ≡ c) × (b ≡ d)
cut_unique sep [] [] b d h k e = (refl, cc)
cut_unique sep [] (y ∷ c) b d h (ky, k) e = absurd (ky (cc))
cut_unique sep (x ∷ a) [] b d (hx, h) k e = absurd (hx (cc))
cut_unique sep (x ∷ a) (y ∷ c) b d (hx, h) (ky, k) e =
    let (p, q) = cut_unique sep a c b d h k (cc) in (cc, q)

not_Lacks : (sep : ℕ) (a b : Bytes) → ¬ Lacks sep (a ++ sep ∷ b)
not_Lacks sep [] b (h, _) = h refl
not_Lacks sep (x ∷ a) b (_, h) = not_Lacks sep a b h

abbrev slash_byte : ℕ
slash_byte = b'/'

bundle_path_injective :
    (kind p q l m : Bytes)
    → Lacks slash_byte p
    → Lacks slash_byte q
    → Lacks slash_byte l
    → Lacks slash_byte m
    → bundle_path kind p l ≡ bundle_path kind q m
    → (p ≡ q) × (l ≡ m)
unfolding bundle_path ◌==◌
bundle_path_injective kind [] [] l m hp hq hl hm e =
    (refl, append_cancel_left (bytes "/") l m (append_cancel_left kind _ _ e))
bundle_path_injective kind [] (y ∷ q) l m hp hq hl hm e =
    let same : l ≡ (y ∷ q) ++ slash_byte ∷ m =
      append_cancel_left (bytes "/") l ((y ∷ q) ++ slash_byte ∷ m)
        (append_cancel_left kind _ _ e) in
    absurd (not_Lacks slash_byte (y ∷ q) m (rw same at hl))
bundle_path_injective kind (x ∷ p) [] l m hp hq hl hm e =
    let same : (x ∷ p) ++ slash_byte ∷ l ≡ m =
      append_cancel_left (bytes "/") ((x ∷ p) ++ slash_byte ∷ l) m
        (append_cancel_left kind _ _ e) in
    absurd (not_Lacks slash_byte (x ∷ p) l (rw (← same) at hm))
bundle_path_injective kind (x ∷ p) (y ∷ q) l m hp hq hl hm e =
    cut_unique slash_byte (x ∷ p) (y ∷ q) l m hp hq (
      append_cancel_left (bytes "/") ((x ∷ p) ++ slash_byte ∷ l) ((y ∷ q) ++ slash_byte ∷ m)
        (append_cancel_left kind _ _ e))

-- names that the paths are built from: no slash, and no dash in the browser's
pub record IsNamed (r : SweepResult) : Type 0 where
  pub policy : Lacks slash_byte r.policy
  pub browser : Lacks slash_byte r.browser
  pub browser_dash : Lacks b'-' r.browser
  pub tag : Lacks slash_byte r.tag

abbrev frame_leaf : SweepResult → Bytes
frame_leaf r = r.browser ++ b'-' ∷ (r.tag ++ bytes ".png")

slashless : (s : Bytes) → Lacks slash_byte s → Lacks slash_byte (s ++ bytes ".png")
slashless s h = All-append _ s (bytes ".png") h (ground arith)

frame_leaf-Lacks : (r : SweepResult) → IsNamed r → Lacks slash_byte (frame_leaf r)
frame_leaf-Lacks r n =
    All-append _ r.browser (b'-' ∷ (r.tag ++ bytes ".png")) n.browser
      (omega arith, slashless r.tag n.tag)

frame_path_captured :
    (r : SweepResult)
    → r.frame_path ≢ []
    → bundle_frame_path r ≡ bundle_path (bytes "frames") r.policy (frame_leaf r)
unfolding bundle_frame_path
frame_path_captured r h = elim (Bool-cases (r.frame_path == [])) [
  | inl e ↦ absurd (h ((==_iff r.frame_path []).0 e))
  | inr e ↦ rw e
]

-- Two results with captured frames whose names hold no slash, nor their browsers a dash, have the
-- same path in the bundle only if their policy, browser and tag are the same.
pub bundle_frame_path_injective :
    (r s : SweepResult)
    → IsNamed r
    → IsNamed s
    → r.frame_path ≢ []
    → s.frame_path ≢ []
    → bundle_frame_path r ≡ bundle_frame_path s
    → (r.policy ≡ s.policy) × (r.browser ≡ s.browser) × (r.tag ≡ s.tag)
bundle_frame_path_injective r s n m hr hs e =
    let paths = sym (frame_path_captured r hr) ∙ e ∙ frame_path_captured s hs in
    let (policy, leaf) =
      bundle_path_injective (bytes "frames") r.policy s.policy (frame_leaf r) (frame_leaf s)
        n.policy m.policy (frame_leaf-Lacks r n) (frame_leaf-Lacks s m) paths in
    let (browser, rest) =
      cut_unique b'-' r.browser s.browser _ _ n.browser_dash m.browser_dash leaf in
    (policy, browser, append_cancel_right r.tag s.tag (bytes ".png") rest)

abbrev log_leaf : SweepResult → Bytes → Bytes
log_leaf r c = r.browser ++ b'-' ∷ (r.tag ++ b'-' ∷ (c ++ bytes ".log"))

log_leaf-Lacks :
    (r : SweepResult) (c : Bytes) → IsNamed r → Lacks slash_byte c → Lacks slash_byte (log_leaf r c)
log_leaf-Lacks r c n h =
    All-append _ r.browser (b'-' ∷ (r.tag ++ b'-' ∷ (c ++ bytes ".log"))) n.browser (
      omega arith,
      All-append _ r.tag (b'-' ∷ (c ++ bytes ".log")) n.tag
          (omega arith, All-append _ c (bytes ".log") h (ground arith)),
    )

-- Two logs of one run whose names hold no slash, nor their browsers and tags a dash, have the same
-- path in the bundle only if their policy, browser, tag and container are the same.
pub bundle_log_path_injective :
    (r s : SweepResult) (c d : Bytes)
    → IsNamed r
    → IsNamed s
    → Lacks b'-' r.tag
    → Lacks b'-' s.tag
    → Lacks slash_byte c
    → Lacks slash_byte d
    → bundle_log_path r c ≡ bundle_log_path s d
    → (r.policy ≡ s.policy) × (r.browser ≡ s.browser) × (r.tag ≡ s.tag) × (c ≡ d)
unfolding bundle_log_path
bundle_log_path_injective r s c d n m hr hs hc hd e =
    let (policy, leaf) =
      bundle_path_injective (bytes "logs") r.policy s.policy (log_leaf r c) (log_leaf s d) n.policy
        m.policy (log_leaf-Lacks r c n hc) (log_leaf-Lacks s d m hd) e in
    let (browser, rest) =
      cut_unique b'-' r.browser s.browser _ _ n.browser_dash m.browser_dash leaf in
    let (tag, last) = cut_unique b'-' r.tag s.tag _ _ hr hs rest in
    (policy, browser, tag, append_cancel_right c d (bytes ".log") last)
