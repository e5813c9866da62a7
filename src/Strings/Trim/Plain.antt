-- ===== src/Strings/Trim/Plain.antt =====
-- Text in which there is nothing to trim.
use gubal.Common.{reverse, ℕ, ◌<◌, [], ◌∷◌, ◌≡◌, refl, arith, Bytes, All}
use mathlib.Core.List.{reverse-reverse, reverse_aux}
use gubal.Strings.Trim.{ascii_space, space2, space3, space_len, space_len_back, trim_by, trim_space}

-- ASCII, and no white space or control character
abbrev pub IsPlain : ℕ → Type 0
IsPlain c = (32 < c) × (c < 128)

space_len-plain : (s : Bytes) → All IsPlain s → space_len s ≡ 0
unfolding space_len ascii_space space2 space3
space_len-plain [] h = refl
space_len-plain (c ∷ []) h = ground arith
space_len-plain (c ∷ d ∷ []) h = ground arith
space_len-plain (c ∷ d ∷ e ∷ s) (hc, (hd, (he, h))) = ground arith

space_len_back-plain : (s : Bytes) → All IsPlain s → space_len_back s ≡ 0
unfolding space_len_back ascii_space space2 space3
space_len_back-plain [] h = refl
space_len_back-plain (c ∷ []) h = ground arith
space_len_back-plain (c ∷ d ∷ []) h = ground arith
space_len_back-plain (c ∷ d ∷ e ∷ s) (hc, (hd, (he, h))) = ground arith

trim_by-zero : (len : Bytes → ℕ) (s : Bytes) → len s ≡ 0 → trim_by len 0 s ≡ s
unfolding trim_by
trim_by-zero len [] h = refl
trim_by-zero len (c ∷ s) h = rw (trim_by, h) refl

pub All-reverse_aux : (P : ℕ → Type 0) (s t : Bytes) → All P s → All P t → All P (reverse_aux s t)
All-reverse_aux P [] t h k = k
All-reverse_aux P (c ∷ s) t (p, h) k = All-reverse_aux P s (c ∷ t) h (p, k)

pub trim_space-plain : (s : Bytes) → All IsPlain s → trim_space s ≡ s
unfolding trim_space
trim_space-plain s h =
    rw
      (
        trim_by-zero space_len s (space_len-plain s h),
        trim_by-zero space_len_back (reverse s)
            (space_len_back-plain (reverse s) (All-reverse_aux IsPlain s [] h tt)),
        reverse-reverse,
      )
      refl
