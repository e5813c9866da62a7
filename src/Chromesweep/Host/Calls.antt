-- ===== src/Chromesweep/Host/Calls.antt =====
-- Which calls a program adds to those before it: one rule for each way to build a program.
use gubal.Common.{
  List, [], ◌∷◌, ◌++◌, ◌≡◌, refl, sym, ap, ◌∙◌, append-nil, append_assoc, Result, ok, err, All,
  All-append, Bytes,
}
use gubal.Common.Errors.{Error}
use gubal.Chromesweep.Host.{
  Host, Call, State, M, pure, raise, attempt, reads, writes, continue, ◌>>=◌, in_context,
}

-- `m` only adds calls of which `P` holds
pub record Adds {h : Host} {A : Type 0} (P : Call → Type 0) (m : M h A) : Type 0 where
  pub at : (s : State h) → (cs : List Call) × ((m s).1.calls ≡ s.calls ++ cs) × All P cs

module _ {h : Host} {A : Type 0} (P : Call → Type 0) where
  pub Adds-pure : (a : A) → Adds P (pure {h = h} a)
  unfolding pure
  Adds-pure a = record { at = λ s. ([], sym (append-nil s.calls), tt) }

  pub Adds-raise : (e : Error) → Adds P (raise {h = h} {A = A} e)
  unfolding raise
  Adds-raise e = record { at = λ s. ([], sym (append-nil s.calls), tt) }

  pub Adds-attempt : (m : M h A) → Adds P m → Adds P (attempt m)
  unfolding attempt
  Adds-attempt m k = record { at = λ s. k.at s }

  pub Adds-reads : (f : h.World → Result Error A × h.World) → Adds P (reads {h = h} f)
  unfolding reads
  Adds-reads f = record { at = λ s. ([], sym (append-nil s.calls), tt) }

  pub Adds-writes :
      (c : Call) (f : h.World → Result Error A × h.World) → P c → Adds P (writes {h = h} c f)
  unfolding writes
  Adds-writes c f p = record { at = λ s. (c ∷ [], refl, (p, tt)) }

  pub Adds-in_context : (t : Bytes) (m : M h A) → Adds P m → Adds P (in_context t m)
  unfolding in_context
  Adds-in_context t m k = record { at = λ s. k.at s }

module _ {h : Host} {A B : Type 0} (P : Call → Type 0) where
  Adds-continue :
      (r : Result Error A) (f : A → M h B) → ((a : A) → Adds P (f a)) → Adds P (continue r f)
  Adds-continue (ok a) f k = record { at = (k a).at }
  Adds-continue (err e) f k = record { at = λ s. ([], sym (append-nil s.calls), tt) }

  pub Adds-bind :
      (m : M h A) (f : A → M h B) → Adds P m → ((a : A) → Adds P (f a)) → Adds P (m >>= f)
  unfolding ◌>>=◌
  Adds-bind m f k l = record {
    at = λ s.
        let (r, s') = m s in
        let (cs, e, p) = k.at s in
        let (ds, e', q) = (Adds-continue r f l).at s' in
        (cs ++ ds, e' ∙ ap (λ x. x ++ ds) e ∙ append_assoc s.calls cs ds, All-append P cs ds p q);
  }

pub ruleset adds_rules =
    (Adds-pure, Adds-raise, Adds-attempt, Adds-reads, Adds-writes, Adds-in_context, Adds-bind)
