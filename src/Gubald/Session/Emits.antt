-- ===== src/Gubald/Session/Emits.antt =====
-- What programs return together with the effects that they have: one rule for each way to build one.
use gubal.Common.{List, [], ◌∷◌, ◌++◌, Result, ok, err}
use gubal.Common.Errors.{Error}
use gubal.Chromesweep.Host.{State, M}
use gubal.Gubald.Service.{TwirpError}
use gubal.Gubald.Session.{
  Env, Effect, Ran, G, pure, raise, attempt, swept, on_world, emit, ◌>>=◌, continue,
}

abbrev pub Post : Type 0 → Type 1
Post A = Result TwirpError A → List Effect → Type 0

-- `m` ends with a result and effects of which Q holds
pub record Emits {env : Env} {A : Type 0} (Q : Post A) (m : G env A) : Type 0 where
  pub at : (s : State env.host) → Q (m s).result (m s).effects

module _ {env : Env} {A : Type 0} where
  pub Emits-pure : (Q : Post A) (a : A) → Q (ok a) [] → Emits Q (pure {env = env} a)
  Emits-pure Q a q = record { at = λ s. q }

  pub Emits-raise :
      (Q : Post A) (e : TwirpError) → Q (err e) [] → Emits Q (raise {env = env} {A = A} e)
  Emits-raise Q e q = record { at = λ s. q }

  pub Emits-attempt :
      {P : Post A} (Q : Post (Result TwirpError A)) (m : G env A)
      → Emits P m
      → ((r : Result TwirpError A) (es : List Effect) → P r es → Q (ok r) es)
      → Emits Q (attempt m)
  Emits-attempt Q m p f = record { at = λ s. f (m s).result (m s).effects (p.at s) }

  pub Emits-swept :
      (Q : Post (Result Error A)) (m : M env.host A)
      → ((r : Result Error A) → Q (ok r) [])
      → Emits Q (swept {env = env} m)
  Emits-swept Q m q = record { at = λ s. q (m s).0 }

  pub Emits-on_world :
      (Q : Post A) (f : env.host.World → A × env.host.World)
      → ((a : A) → Q (ok a) [])
      → Emits Q (on_world {env = env} f)
  Emits-on_world Q f q = record { at = λ s. q (f s.world).0 }

  pub Emits_weaken :
      {P : Post A} (Q : Post A) (m : G env A)
      → Emits P m
      → ((r : Result TwirpError A) (es : List Effect) → P r es → Q r es)
      → Emits Q m
  Emits_weaken Q m p f = record { at = λ s. f _ _ (p.at s) }

pub Emits-emit :
    {env : Env} (Q : Post Unit) (e : Effect) → Q (ok tt) (e ∷ []) → Emits Q (emit {env = env} e)
Emits-emit Q e q = record { at = λ s. q }

module _ {env : Env} {A B : Type 0} where
  continue-Post :
      (P : Post A) (Q : Post B) (r : Ran env A) (f : A → G env B) (x : Result TwirpError A)
      → P x r.effects
      → ((a : A) (es : List Effect) → P (ok a) es → Emits (λ y fs. Q y (es ++ fs)) (f a))
      → ((e : TwirpError) (es : List Effect) → P (err e) es → Q (err e) es)
      → Q (continue r x f).result (continue r x f).effects
  continue-Post P Q r f (ok a) p k l = (k a r.effects p).at r.state
  continue-Post P Q r f (err e) p k l = l e r.effects p

  pub Emits-bind :
      {P : Post A} (Q : Post B) (m : G env A) (f : A → G env B)
      → Emits P m
      → ((a : A) (es : List Effect) → P (ok a) es → Emits (λ y fs. Q y (es ++ fs)) (f a))
      → ((e : TwirpError) (es : List Effect) → P (err e) es → Q (err e) es)
      → Emits Q (m >>= f)
  Emits-bind {P} Q m f p k l = record {
    at = λ s. continue-Post P Q (m s) f (m s).result (p.at s) k l;
  }

  -- a step that only calls the world, and returns
  pub Emits_then :
      (Q : Post B) (g : env.host.World → A × env.host.World) (f : A → G env B)
      → ((a : A) → Emits Q (f a))
      → Emits Q (on_world g >>= f)
  Emits_then Q g f k = record { at = λ s. (k (g s.world).0).at _ }
