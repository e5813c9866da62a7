-- ===== src/ChromeBully/Driver.antt =====
-- What cmd/chrome-bully calls and does not implement: chromedp, the files, the clock and log/slog's
-- levels, as a record over a world that each call may change, and the programs over it. A call that
-- is made while a tab listens also gives the events that arrive until it returns.
use gubal.Common.{
  ℕ, ◌+◌, List, [], ◌∷◌, ◌++◌, Option, none, some, Bool, true, Bytes, Result, ok, err, leb,
}
use gubal.Common.Int.{ℤ, pos, negsuc}
use gubal.Common.Errors.{Error, wrap}
use gubal.ChromeBully.Console.{
  Level, debug, info, warn, error, Value, LogRecord, Event, console_line,
}

-- the actions that set a tab up
pub data Action : Type 0 where
  enable_runtime enable_log enable_network : Action
  set_extra_http_headers : List (Bytes × Bytes) → Action
  emulate_viewport : ℤ → ℤ → Action
  navigate : Bytes → Action

pub record Driver : Type 1 where
  pub World : Type 0
  -- UnmarshalText of a slog.Level
  pub parse_level : Bytes → Result Error ℤ
  -- strings.ToLower
  pub to_lower : Bytes → Bytes
  -- fmt's %q
  pub quote : Bytes → Bytes
  -- String of a time.Duration
  pub duration_text : ℤ → Bytes
  pub mkdir_all : Bytes → World → Option Error × World
  -- browser.GetVersion over a remote allocator of the URL
  pub get_version : Bytes → World → Result Error Bytes × World
  -- a context with a time limit, a tab in it and an empty Run
  pub open_tab : ℤ → World → Option Error × World
  -- the deferred cancels
  pub close_tab : World → World
  pub run_actions : List Action → World → (Option Error × List Event) × World
  pub evaluate : Bytes → World → (Result Error Bytes × List Event) × World
  pub full_screenshot : ℕ → World → (Result Error Bytes × List Event) × World
  -- the select of waitForText: the error of the context where it is done, none on a tick
  pub next_tick : World → (Option Error × List Event) × World
  -- time.Now, formatted
  pub time_stamp : World → (Bytes × List Event) × World
  pub write_file : Bytes → Bytes → World → (Option Error × List Event) × World
  pub join_path : Bytes → Bytes → Bytes
  -- the select of run: whether the context is done
  pub next_round : World → Bool × World
  -- json.Unmarshal into a string
  pub unmarshal_string : Bytes → Option Bytes

-- what a program ends with; a loop may run out of fuel
pub data Outcome (A : Type 0) : Type 0 where
  returned : A → Outcome A
  failed : Error → Outcome A
  starved : Outcome A

pub record Ran (d : Driver) (A : Type 0) : Type 0 where
  pub outcome : Outcome A
  pub world : d.World
  -- the records given to slog
  pub lines : List LogRecord

abbrev pub D : Driver → Type 0 → Type 0
D d A = d.World → Ran d A

-- what the listener logs for events
abbrev pub listened : (Bytes → Bytes) → (Bytes → Option Bytes) → List Event → List LogRecord
listened to_lower unmarshal [] = []
listened to_lower unmarshal (e ∷ es) = elim (console_line to_lower unmarshal e) [
  | none ↦ listened to_lower unmarshal es
  | some l ↦ l ∷ listened to_lower unmarshal es
]

abbrev tried : {A : Type 0} → Outcome A → Outcome (Result Error A)
tried (returned a) = returned (ok a)
tried (failed e) = returned (err e)
tried starved = starved

module _ {d : Driver} {A : Type 0} where
  abbrev pub pure : A → D d A
  pure a w = record { outcome = returned a; world = w; lines = [] }

  abbrev pub raise : Error → D d A
  raise e w = record { outcome = failed e; world = w; lines = [] }

  abbrev pub starve : D d A
  starve w = record { outcome = starved; world = w; lines = [] }

  abbrev pub call : (d.World → A × d.World) → D d A
  call f w = let (a, w') = f w in record { outcome = returned a; world = w'; lines = [] }

  abbrev pub in_tab : (d.World → (A × List Event) × d.World) → D d A
  in_tab f w =
      let ((a, es), w') = f w in
      record { outcome = returned a; world = w'; lines = listened d.to_lower d.unmarshal_string es }

  -- the error of a step as a value
  abbrev pub attempt : D d A → D d (Result Error A)
  attempt m w =
      let r = m w in record { outcome = tried r.outcome; world = r.world; lines = r.lines }

abbrev pub log : {d : Driver} → Level → Bytes → List (Bytes × Value) → D d Unit
log level msg attrs w = record {
  outcome = returned tt;
  world = w;
  lines = (record { level = level; msg = msg; attrs = attrs }) ∷ [];
}

module _ {d : Driver} {A B : Type 0} where
  abbrev pub continue : Ran d A → Outcome A → (A → D d B) → Ran d B
  continue r (returned a) f =
      let q = f a r.world in
      record { outcome = q.outcome; world = q.world; lines = r.lines ++ q.lines }
  continue r (failed e) f = record { outcome = failed e; world = r.world; lines = r.lines }
  continue r starved f = record { outcome = starved; world = r.world; lines = r.lines }

  infixl 5 ◌>>=◌ ◌>>◌
  abbrev pub ◌>>=◌ : D d A → (A → D d B) → D d B
  ◌>>=◌ m f w = let r = m w in continue r r.outcome f

  abbrev pub ◌>>◌ : D d A → D d B → D d B
  m >> n = m >>= λ _. n

module _ {d : Driver} where
  -- the error of a call, with its context
  abbrev pub check : Bytes → Option Error → D d Unit
  check context none = pure tt
  check context (some e) = raise (wrap context e)

  abbrev pub checked : {A : Type 0} → Bytes → Result Error A → D d A
  checked context (ok a) = pure a
  checked context (err e) = raise (wrap context e)

-- whether a handler of a least level shows a record; Debug is -4, Info 0, Warn 4, Error 8
abbrev pub enabled : ℤ → Level → Bool
enabled (pos n) debug = leb (n + 4) 0
enabled (pos n) info = leb n 0
enabled (pos n) warn = leb n 4
enabled (pos n) error = leb n 8
enabled (negsuc n) debug = leb 3 n
enabled (negsuc n) info = true
enabled (negsuc n) warn = true
enabled (negsuc n) error = true
