-- ===== src/Chromesweep/Host/Returns.antt =====
-- What programs return: `Returns Q m` says that `m` ends without an error and that its value has Q,
-- `Gives Q m` only the latter.
use gubal.Common.{◌≡◌, refl, sym, ◌∙◌, Result, ok, err}
use gubal.Common.Errors.{Error}
use gubal.Chromesweep.Host.{Host, State, M, pure, raise, attempt, continue, ◌>>=◌}

pub record Returns {h : Host} {A : Type 0} (Q : A → Type 0) (m : M h A) : Type 0 where
  pub at : (s : State h) → (a : A) × ((m s).0 ≡ ok a) × Q a

pub record Gives {h : Host} {A : Type 0} (Q : A → Type 0) (m : M h A) : Type 0 where
  pub at : (s : State h) (a : A) → (m s).0 ≡ ok a → Q a

-- the property of the value, where there is one
abbrev pub IfOk : {A : Type 0} → (A → Type 0) → Result Error A → Type 0
IfOk Q (ok a) = Q a
IfOk Q (err e) = Unit

module _ {h : Host} {A : Type 0} where
  pub Returns-pure : (Q : A → Type 0) (a : A) → Q a → Returns Q (pure {h = h} a)
  unfolding pure
  Returns-pure Q a q = record { at = λ s. (a, refl, q) }

  pub Gives-pure : (Q : A → Type 0) (a : A) → Q a → Gives Q (pure {h = h} a)
  unfolding pure
  Gives-pure Q a q = record { at = λ s b e. let same : a ≡ b = cc e in rw (← same) q }

  pub Gives-raise : (Q : A → Type 0) (x : Error) → Gives Q (raise {h = h} {A = A} x)
  unfolding raise
  Gives-raise Q x = record { at = λ s b e. cc e }

  pub Gives-any : (m : M h A) → Gives (λ _. Unit {0}) m
  Gives-any m = record { at = λ s a e. tt }

  pub Gives-attempt : (Q : A → Type 0) (m : M h A) → Gives Q m → Gives (IfOk Q) (attempt m)
  unfolding attempt
  Gives-attempt Q m g = record { at = λ s r e. go s (m s).0 refl r e }
    where
      go :
          (s : State h) (x : Result Error A)
          → (m s).0 ≡ x
          → (r : Result Error A) → ◌≡◌ {A = Result Error (Result Error A)} (ok x) (ok r)
          → IfOk Q r
      go s x q (ok a) e = let same : x ≡ ok a = cc e in g.at s a (q ∙ same)
      go s x q (err y) e = tt

  pub Gives-of_Returns : (Q : A → Type 0) (m : M h A) → Returns Q m → Gives Q m
  Gives-of_Returns Q m r = record {
    at = λ s b e.
        let (a, ea, q) = r.at s in
        let same : ok a ≡ ok b = sym ea ∙ e in let same' : a ≡ b = cc same in rw (← same') q;
  }

  pub Returns-weaken :
      {Q R : A → Type 0} (m : M h A) → ((a : A) → Q a → R a) → Returns Q m → Returns R m
  Returns-weaken m f r = record { at = λ s. let (a, e, q) = r.at s in (a, e, f a q) }

  pub Returns-attempt : (m : M h A) → Returns (λ _. Unit {0}) (attempt m)
  unfolding attempt
  Returns-attempt m = record { at = λ s. ((m s).0, refl, tt) }

module _ {h : Host} {A B : Type 0} where
  pub Returns-bind :
      {P : A → Type 0} (Q : B → Type 0) (m : M h A) (f : A → M h B)
      → Returns P m
      → ((a : A) → P a → Returns Q (f a))
      → Returns Q (m >>= f)
  unfolding ◌>>=◌
  Returns-bind Q m f r k = record {
    at = λ s.
        let (a, e, p) = r.at s in
        let s' = (m s).1 in let (b, e', q) = (k a p).at s' in (b, rw e e', q);
  }

  pub continue_ok :
      (x : Result Error A) (f : A → M h B) (s : State h) (b : B)
      → (continue x f s).0 ≡ ok b
      → (a : A) × (x ≡ ok a) × ((f a s).0 ≡ ok b)
  continue_ok (ok a) f s b e = (a, refl, e)
  continue_ok (err x) f s b e = cc

  pub Gives-bind :
      {P : A → Type 0} (Q : B → Type 0) (m : M h A) (f : A → M h B)
      → Gives P m
      → ((a : A) → P a → Gives Q (f a))
      → Gives Q (m >>= f)
  unfolding ◌>>=◌
  Gives-bind Q m f r k = record {
    at = λ s b e.
        let (a, ea, q) = continue_ok (m s).0 f (m s).1 b e in (k a (r.at s a ea)).at (m s).1 b q;
  }

  -- where a program succeeds, what follows it goes on from its state
  pub bind_ok :
      (m : M h A) (f : A → M h B) (s : State h) {a : A} → (m s).0 ≡ ok a → (m >>= f) s ≡ f a (m s).1
  unfolding ◌>>=◌
  bind_ok m f s e = rw e
