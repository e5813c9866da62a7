-- ===== src/ChromeBully/Console.antt =====
-- cmd/chrome-bully/console.go. What json.Unmarshal makes of a JSON string is a parameter, and so are
-- strings.ToLower and the events, which the DevTools protocol sends. A nil pointer is `none`.
use gubal.Common.{
  ℕ, ◌+◌, ◌≤◌, ◌<◌, List, [], ◌∷◌, ◌++◌, Option, none, some, ◌≡◌, ◌⊎◌, inl, inr, refl, arith, Bytes,
  bytes, ◌==◌, ◌||◌, leb, if◌then◌else◌, length, take, Bool-cases, length-append, length-take,
}
use gubal.Common.Int.{ℤ}
use gubal.Strings.{ascii_lower, join}

pub data Level : Type 0 where
  debug info warn error : Level

-- the value of an attribute of a log line
pub data Value : Type 0 where
  text : Bytes → Value
  number : ℤ → Value

pub record LogRecord : Type 0 where
  pub level : Level
  pub msg : Bytes
  pub attrs : List (Bytes × Value)

abbrev pub console_msg : Bytes
console_msg = bytes "browser console"

abbrev pub console_text_limit : ℕ
console_text_limit = 4096

abbrev pub elision : Bytes
elision = bytes "… (truncated)"

unfoldable pub truncate : Bytes → Bytes
truncate s = if leb (length s) console_text_limit then s else take console_text_limit s ++ elision

unfoldable pub console_level : (Bytes → Bytes) → Bytes → Level
console_level to_lower s =
    let t = to_lower s in
    if t == bytes "error" || t == bytes "assert"
    then error
    else if t == bytes "warning" || t == bytes "warn"
    then warn
    else if t == bytes "debug" || t == bytes "verbose" || t == bytes "trace"
    then debug
    else info

levels :
    (console_level ascii_lower (bytes "ERROR") ≡ error)
    × (console_level ascii_lower (bytes "trace") ≡ debug)
    × (console_level ascii_lower [] ≡ info)
unfolding console_level ascii_lower ◌==◌
levels = (refl, refl, refl)

pub record RemoteObject : Type 0 where
  -- the raw JSON
  pub value : Bytes
  pub description : Bytes
  pub unserializable_value : Bytes
  pub kind : Bytes

pub record ExceptionDetails : Type 0 where
  pub text : Bytes
  pub url : Bytes
  pub line_number : ℤ
  -- the description of the exception object
  pub exception : Option Bytes

pub record Entry : Type 0 where
  pub source : Bytes
  pub level : Bytes
  pub text : Bytes
  pub url : Bytes
  pub line_number : ℤ

pub data Event : Type 0 where
  console_api_called : Bytes → List (Option RemoteObject) → Event
  exception_thrown : Option ExceptionDetails → Event
  entry_added : Option Entry → Event
  other_event : Event

unfoldable pub exception_detail : ExceptionDetails → Bytes
exception_detail d = elim d.exception [ none ↦ [] | some description ↦ description ]

module _ (unmarshal_string : Bytes → Option Bytes) where
  unfoldable pub remote_object : RemoteObject → Bytes
  remote_object a =
      if a.value == []
      then (if a.description == []
          then (if a.unserializable_value == [] then a.kind else a.unserializable_value)
          else a.description)
      else elim (unmarshal_string a.value) [ some s ↦ s | none ↦ a.value ]

  console_parts : List (Option RemoteObject) → List Bytes
  console_parts [] = []
  console_parts (none ∷ args) = console_parts args
  console_parts (some a ∷ args) = remote_object a ∷ console_parts args

  unfoldable pub console_args : List (Option RemoteObject) → Bytes
  unfolding console_parts
  console_args args = join (bytes " ") (console_parts args)

module _ (to_lower : Bytes → Bytes) (unmarshal_string : Bytes → Option Bytes) where
  -- the line that listenConsole logs for an event, if it logs one
  unfoldable pub console_line : Event → Option LogRecord
  console_line (console_api_called type args) = some (record {
    level = console_level to_lower type;
    msg = console_msg;
    attrs =
        (bytes "kind", text (bytes "console"))
        ∷ (bytes "type", text type)
        ∷ (bytes "text", text (truncate (console_args unmarshal_string args)))
        ∷ [];
  })
  console_line (exception_thrown none) = none
  console_line (exception_thrown (some d)) = some (record {
    level = error;
    msg = console_msg;
    attrs =
        (bytes "kind", text (bytes "exception"))
        ∷ (bytes "text", text d.text)
        ∷ (bytes "detail", text (truncate (exception_detail d)))
        ∷ (bytes "url", text d.url)
        ∷ (bytes "line", number d.line_number)
        ∷ [];
  })
  console_line (entry_added none) = none
  console_line (entry_added (some en)) = some (record {
    level = console_level to_lower en.level;
    msg = console_msg;
    attrs =
        (bytes "kind", text (bytes "log-entry"))
        ∷ (bytes "source", text en.source)
        ∷ (bytes "level", text en.level)
        ∷ (bytes "text", text (truncate en.text))
        ∷ (bytes "url", text en.url)
        ∷ (bytes "line", number en.line_number)
        ∷ [];
  })
  console_line other_event = none

-- A truncated text is kept where it is within the limit, and else it is its first bytes up to the
-- limit and the mark; it is never longer than the two.
pub truncate_lem :
    (s : Bytes)
    → (((length s ≤ console_text_limit) × (truncate s ≡ s))
        ⊎ ((console_text_limit < length s)
            × (truncate s ≡ take console_text_limit s ++ elision)
            × (length (take console_text_limit s) ≡ console_text_limit)))
      × (length (truncate s) ≤ console_text_limit + length elision)
unfolding truncate
truncate_lem s = elim (Bool-cases (leb (length s) console_text_limit)) [
  | inl e ↦ rw e (inl (ground arith, refl), ground arith)
  | inr e ↦
      let long : console_text_limit < length s = ground arith in
      let kept : length (take console_text_limit s) ≡ console_text_limit =
        omega (arith, length-take console_text_limit s) in
      rw e (
        inr (long, refl, kept),
        omega (arith, kept, length-append (take console_text_limit s) elision),
      )
]
