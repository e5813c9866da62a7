-- ===== src/Gubald/Clients/Bundles.antt =====
-- The names of the uploaded bundles.
use gubal.Common.{ℕ, [], ◌∷◌, ◌++◌, ◌≡◌, sym, ap, ◌∙◌, Bytes, bytes, All-map, Lacks}
use mathlib.Core.List.{append_cancel_right}
use gubal.Common.Int.{ℤ}
use gubal.Strings.{split, join, itoa}
use gubal.Strings.Parts.{split-append, join-split}
use gubal.Strings.Numbers.Decimal.{itoa_injective, itoa-IsNumeric}
use gubal.Gubald.Sweeps.{bundle_key}

cut_unique :
    (c : ℕ) (a b s t : Bytes) → Lacks c a → Lacks c b → a ++ c ∷ s ≡ b ++ c ∷ t → (a ≡ b) × (s ≡ t)
cut_unique c a b s t la lb e =
    let parts : a ∷ split c s ≡ b ∷ split c t =
      sym (split-append c a s la) ∙ ap (split c) e ∙ split-append c b t lb in
    let first : a ≡ b = cc parts in
    let rest : split c s ≡ split c t = cc parts in
    (first, sym (join-split c s) ∙ ap (join (c ∷ [])) rest ∙ join-split c t)

-- Two runs with the same object have the same number of a pull request and the same id. The repository
-- is not part of the name.
pub bundle_key_injective :
    (p q : ℤ) (i j : Bytes) → bundle_key p i ≡ bundle_key q j → (p ≡ q) × (i ≡ j)
unfolding bundle_key
bundle_key_injective p q i j e =
    let tail : itoa p ++ b'/' ∷ (i ++ bytes ".zip") ≡ itoa q ++ b'/' ∷ (j ++ bytes ".zip") = cc e in
    let (numbers, ids) = cut_unique b'/' (itoa p) (itoa q) _ _ (slashless p) (slashless q) tail in
    (itoa_injective p q numbers, append_cancel_right i j (bytes ".zip") ids)
  where
    slashless : (z : ℤ) → Lacks b'/' (itoa z)
    slashless z = All-map _ (λ c (_, _, m). m) (itoa-IsNumeric z)
