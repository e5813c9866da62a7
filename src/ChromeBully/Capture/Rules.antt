-- ===== src/ChromeBully/Capture/Rules.antt =====
-- What programs over a driver end with: one rule for each way to build one.
use gubal.Common.{
  Bool, true, false, not, ◌||◌, List, [], ◌∷◌, Option, none, some, ◌≡◌, refl, Bytes, bytes, ◌==◌,
  Result, ok, err, leb, ◌&&◌, all, All, All-append,
}
use gubal.Common.Errors.{Error}
use gubal.Strings.{ascii_lower}
use gubal.ChromeBully.Console.{
  Level, Value, LogRecord, Event, console_api_called, exception_thrown, entry_added, other_event,
  console_line,
}
use gubal.ChromeBully.Driver.{
  Driver, Outcome, returned, failed, starved, Ran, D, pure, raise, call, in_tab, listened, log,
  continue, ◌>>=◌, check, checked,
}

-- whether capturedFramePath takes its result from a line with this msg
abbrev pub decides : Bytes → Bool
decides msg = msg == bytes "captured" || msg == bytes "fatal"

-- printable ASCII
abbrev pub printable : Bytes → Bool
printable = all (λ c. leb 32 c && leb c 126)

-- The msg and the keys are printable ASCII, and no attribute has the key of the msg, which
-- encoding/json matches in any case.
abbrev pub clear_msg : LogRecord → Bool
clear_msg r =
    printable r.msg
    && all (λ a. let (key, value) = a in printable key && not (ascii_lower key == bytes "msg"))
        r.attrs

abbrev pub Quiet : LogRecord → Type 0
Quiet r = (decides r.msg ≡ false) × (clear_msg r ≡ true)

listened-Quiet :
    (l : Bytes → Bytes) (u : Bytes → Option Bytes) (es : List Event) → All Quiet (listened l u es)
unfolding console_line ◌==◌ ascii_lower
listened-Quiet l u [] = tt
listened-Quiet l u (console_api_called type args ∷ es) = ((refl, refl), listened-Quiet l u es)
listened-Quiet l u (exception_thrown none ∷ es) = listened-Quiet l u es
listened-Quiet l u (exception_thrown (some d) ∷ es) = ((refl, refl), listened-Quiet l u es)
listened-Quiet l u (entry_added none ∷ es) = listened-Quiet l u es
listened-Quiet l u (entry_added (some en) ∷ es) = ((refl, refl), listened-Quiet l u es)
listened-Quiet l u (other_event ∷ es) = listened-Quiet l u es

-- of the value and the world after it, where there is one; fuel is not missing
abbrev pub Fine : {A W : Type 0} → (A → W → Type 0) → Outcome A → W → Type 0
Fine Q (returned a) w = Q a w
Fine Q (failed e) w = Unit
Fine Q starved w = ⊥

-- From a world with `Pre`, `m` logs quiet lines only, and ends with a value of which Q holds or an
-- error.
pub record Runs {d : Driver} {A : Type 0} (Pre : d.World → Type 0) (Q : A → d.World → Type 0)
    (m : D d A) : Type 0 where
  pub at : (w : d.World) → Pre w → Fine Q (m w).outcome (m w).world × All Quiet (m w).lines

abbrev pub Any : {W : Type 0} → W → Type 0
Any w = Unit

module _ {d : Driver} {A : Type 0} {Pre : d.World → Type 0} where
  pub Runs-pure :
      (Q : A → d.World → Type 0) (a : A)
      → ((w : d.World) → Pre w → Q a w)
      → Runs Pre Q (pure {d = d} a)
  Runs-pure Q a q = record { at = λ w p. (q w p, tt) }

  pub Runs-raise : (Q : A → d.World → Type 0) (e : Error) → Runs Pre Q (raise {d = d} {A = A} e)
  Runs-raise Q e = record { at = λ w p. (tt, tt) }

  pub Runs-call :
      (Q : A → d.World → Type 0) (f : d.World → A × d.World)
      → ((w : d.World) → Pre w → Q (f w).0 (f w).1)
      → Runs Pre Q (call {d = d} f)
  Runs-call Q f q = record { at = λ w p. (q w p, tt) }

  pub Runs-in_tab :
      (Q : A → d.World → Type 0) (f : d.World → (A × List Event) × d.World)
      → ((w : d.World) → Pre w → Q (f w).0.0 (f w).1)
      → Runs Pre Q (in_tab {d = d} f)
  Runs-in_tab Q f q = record {
    at = λ w p. (q w p, listened-Quiet d.to_lower d.unmarshal_string (f w).0.1);
  }

  pub Runs-checked :
      (Q : A → d.World → Type 0) (context : Bytes) (r : Result Error A)
      → ((a : A) (w : d.World) → r ≡ ok a → Pre w → Q a w)
      → Runs Pre Q (checked {d = d} context r)
  Runs-checked Q context (ok a) q = record { at = λ w p. (q a w refl p, tt) }
  Runs-checked Q context (err e) q = record { at = λ w p. (tt, tt) }

module _ {d : Driver} {Pre : d.World → Type 0} where
  pub Runs-check :
      (Q : Unit → d.World → Type 0) (context : Bytes) (o : Option Error)
      → ((w : d.World) → o ≡ none → Pre w → Q tt w)
      → Runs Pre Q (check {d = d} context o)
  Runs-check Q context none q = record { at = λ w p. (q w refl p, tt) }
  Runs-check Q context (some e) q = record { at = λ w p. (tt, tt) }

  pub Runs-log :
      (level : Level) (msg : Bytes) (attrs : List (Bytes × Value))
      → Quiet (record { level = level; msg = msg; attrs = attrs })
      → Runs Pre (λ _ w. Pre w) (log {d = d} level msg attrs)
  Runs-log level msg attrs q = record { at = λ w p. (p, (q, tt)) }

module _ {d : Driver} {A B : Type 0} where
  continue-Runs :
      {P : A → d.World → Type 0} (Q : B → d.World → Type 0) (r : Ran d A) (o : Outcome A)
      (f : A → D d B)
      → Fine P o r.world
      → All Quiet r.lines
      → ((a : A) → Runs (P a) Q (f a))
      → Fine Q (continue r o f).outcome (continue r o f).world × All Quiet (continue r o f).lines
  continue-Runs Q r (returned a) f p q k =
      let (p', q') = (k a).at r.world p in (p', All-append _ r.lines _ q q')
  continue-Runs Q r (failed e) f p q k = (tt, q)
  continue-Runs Q r starved f p q k = absurd p

  pub Runs-bind :
      {Pre : d.World → Type 0} {P : A → d.World → Type 0} (Q : B → d.World → Type 0) (m : D d A)
      (f : A → D d B)
      → Runs Pre P m
      → ((a : A) → Runs (P a) Q (f a))
      → Runs Pre Q (m >>= f)
  Runs-bind Q m f r k = record {
    at = λ w p. let (p', q) = r.at w p in continue-Runs Q (m w) (m w).outcome f p' q k;
  }
