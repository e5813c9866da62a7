-- ===== src/Chromesweep/Host.antt =====
-- What chromesweep calls and does not implement: the Kubernetes API through client-go, polling,
-- files, `kubectl cp`, and encoding/json on log lines. All of it is a record over a world that each
-- call may change. A program is a function of the world that also keeps the list of its writing calls.
pub mod Calls
pub mod Returns
use gubal.Common.{
  ℕ, Bool, true, List, [], ◌∷◌, ◌++◌, Option, none, some, ◌≡◌, Bytes, Result, ok, err,
}
use gubal.Common.Errors.{Error, wrap_err}
use gubal.Chromesweep.Logs.{LogLine}
use gubal.Chromesweep.Objects.{Deployment, Service, NetworkPolicy, Job, Pod, ConfigMap}

pub data Kind : Type 0 where
  deployment service network_policy job pod config_map : Kind

abbrev pub Object : Kind → Type 0
Object deployment = Deployment
Object service = Service
Object network_policy = NetworkPolicy
Object job = Job
Object pod = Pod
Object config_map = ConfigMap

-- the caller's context, or a fresh context.Background()
pub data Context : Type 0 where
  request background : Context

-- what one evaluation of a polled condition returns, with the variable that it captures
abbrev pub Polled : Type 0
Polled = Bool × Result Error Bool

pub record Host : Type 1 where
  pub World : Type 0
  -- the typed clients: a context, a namespace, and a name or an object
  pub get : (k : Kind) → Context → Bytes → Bytes → World → Result Error (Object k) × World
  pub create : (k : Kind) → Context → Bytes → Object k → World → Result Error Unit × World
  pub update : (k : Kind) → Context → Bytes → Object k → World → Result Error Unit × World
  -- the Boolean asks for foreground propagation
  pub delete : Kind → Context → Bytes → Bytes → Bool → World → Result Error Unit × World
  -- a strategic merge patch of one container's image: Deployment, container, image
  pub patch_image : Context → Bytes → Bytes → Bytes → Bytes → World → Result Error Unit × World
  pub list_pods : Context → Bytes → Bytes → World → Result Error (List Pod) × World
  -- GetLogs and Stream of a pod's container, then io.ReadAll, which may fail after some bytes
  pub pod_logs :
      Context → Bytes → Bytes → Bytes → World → Result Error (Bytes × Option Error) × World
  -- wait.PollUntilContextTimeout, immediate: interval and timeout in seconds, the condition over the
  -- captured variable, and that variable's first value
  pub poll :
      Context
      → ℕ
      → ℕ
      → (Bool → World → Polled × World)
      → Bool
      → World
      → (Bool × Option Error) × World
  pub read_file : Bytes → World → Result Error Bytes × World
  pub unmarshal_yaml : (k : Kind) → Bytes → Result Error (Object k)
  pub mkdir_all : Bytes → World → Option Error × World
  -- the text of an error ends with the output of the command
  pub kubectl_cp : Context → Bytes → Bytes → World → Option Error × World
  pub join_path : Bytes → Bytes → Bytes
  pub dir_path : Bytes → Bytes
  pub unmarshal_log : Bytes → Option LogLine

-- What the documentation of PollUntilContextTimeout says of a return without an error: the condition
-- was evaluated, and its last evaluation returned true.
abbrev pub PollReturns : Host → Type 0
PollReturns h =
    (ctx : Context) (interval timeout : ℕ) (cond : Bool → h.World → Polled × h.World) (v b : Bool)
    (w w' : h.World)
    → h.poll ctx interval timeout cond v w ≡ ((b, none), w')
    → (u : Bool) × (x : h.World) × (cond u x ≡ ((b, ok true), w'))

-- the calls that change the cluster
pub data Call : Type 0 where
  created updated deleted : Kind → Bytes → Call
  patched : Bytes → Call

pub record State (h : Host) : Type 0 where
  pub world : h.World
  pub calls : List Call

abbrev pub M : Host → Type 0 → Type 0
M h A = State h → Result Error A × State h

module _ {h : Host} {A : Type 0} where
  unfoldable pub pure : A → M h A
  pure a s = (ok a, s)

  unfoldable pub raise : Error → M h A
  raise e s = (err e, s)

  -- the error of a step as a value
  unfoldable pub attempt : M h A → M h (Result Error A)
  attempt m s = let (r, s') = m s in (ok r, s')

  -- a call that does not change the cluster
  unfoldable pub reads : (h.World → Result Error A × h.World) → M h A
  reads f s = let (r, w) = f s.world in (r, record s { world = w })

  -- a call that may change it, whatever it returns
  unfoldable pub writes : Call → (h.World → Result Error A × h.World) → M h A
  writes c f s = let (r, w) = f s.world in (r, record s { world = w; calls = s.calls ++ c ∷ [] })

module _ {h : Host} {A B : Type 0} where
  abbrev pub continue : Result Error A → (A → M h B) → M h B
  continue (ok a) f s = f a s
  continue (err e) f s = (err e, s)

  infixl 5 ◌>>=◌ ◌>>◌
  unfoldable pub ◌>>=◌ : M h A → (A → M h B) → M h B
  ◌>>=◌ m f s = let (r, s') = m s in continue r f s'

  abbrev pub ◌>>◌ : M h A → M h B → M h B
  m >> n = m >>= λ _. n

-- `fmt.Errorf("<context>: %w", err)` of a step's error
unfoldable pub in_context : {h : Host} {A : Type 0} → Bytes → M h A → M h A
in_context context m s = let (r, s') = m s in (wrap_err context r, s')
