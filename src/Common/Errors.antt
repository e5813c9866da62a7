-- ===== src/Common/Errors.antt =====
-- Go's errors: the text that `Error()` gives, what k8s.io/apimachinery's IsNotFound and
-- IsAlreadyExists tell of them, and whether they are context.Canceled. `%w` keeps the kind, since
-- those tests unwrap.
use mathlib.Core.List.{◌++◌}
use mathlib.Core.Bool.{Bool, true, false}
use gubal.Common.Tests.{Result, ok, err}
use gubal.Common.Text.{Bytes, bytes}

pub data ErrorKind : Type 0 where
  not_found already_exists canceled other : ErrorKind

pub record Error : Type 0 where
  pub kind : ErrorKind
  pub text : Bytes

-- fmt.Errorf("<context>: %w", e)
abbrev pub wrap : Bytes → Error → Error
wrap context e = record e { text = context ++ bytes ": " ++ e.text }

-- fmt.Errorf and errors.New with nothing wrapped
abbrev pub errorf : Bytes → Error
errorf text = record { kind = other; text = text }

abbrev pub is_not_found : Error → Bool
is_not_found e = elim e.kind [ not_found ↦ true | _ ↦ false ]

abbrev pub is_already_exists : Error → Bool
is_already_exists e = elim e.kind [ already_exists ↦ true | _ ↦ false ]

-- the context of a step's error
abbrev pub wrap_err : {A : Type 0} → Bytes → Result Error A → Result Error A
wrap_err context (ok a) = ok a
wrap_err context (err e) = err (wrap context e)

-- errors.Is(e, context.Canceled)
abbrev pub is_canceled : Error → Bool
is_canceled e = elim e.kind [ canceled ↦ true | _ ↦ false ]
