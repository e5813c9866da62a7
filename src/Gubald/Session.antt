-- ===== src/Gubald/Session.antt =====
-- What the requests of cmd/gubald/svc/smoketest run on: the host of a sweep, the clients and files
-- that smoketest.go calls besides, and the programs over them. A program also gives the list of its
-- calls that others see: directories made and removed, comments and uploads.
pub mod Emits
use gubal.Common.{Bool, List, [], ◌∷◌, ◌++◌, Option, none, some, Bytes, bytes, Result, ok, err}
use gubal.Common.Int.{ℤ}
use gubal.Common.Errors.{Error}
use gubal.Chromesweep.Report.{Report}
use gubal.Chromesweep.Bundle.{BundleIo}
use gubal.Chromesweep.Host.{Host, State, M}
use gubal.Gubald.Service.{TwirpError}

pub record Env : Type 1 where
  pub host : Host
  -- rest.InClusterConfig, the ambient kubeconfig, and kubernetes.NewForConfig of what one of them gave
  pub in_cluster_config : host.World → Result Error Unit × host.World
  pub ambient_config : host.World → Result Error Unit × host.World
  pub new_for_config : host.World → Result Error Unit × host.World
  -- os.MkdirTemp with a pattern
  pub mkdir_temp : Bytes → host.World → Result Error Bytes × host.World
  -- os.RemoveAll, whose error is ignored
  pub remove_all : Bytes → host.World → host.World
  -- json.MarshalIndent
  pub render_json : Report → Result Error Bytes
  -- what the calls of WriteBundle on the file at a path return
  pub bundle_io : Bytes → host.World → BundleIo × host.World
  -- the interfaces prCommenter and bundleUploader
  pub comment : Bytes → ℤ → Bytes → host.World → Option Error × host.World
  pub upload : Bytes → Bytes → host.World → Result Error Bytes × host.World
  -- the method Error of a twirp.Error
  pub error_text : TwirpError → Bytes

pub data Effect : Type 0 where
  made_dir removed_dir : Bytes → Effect
  posted : Bytes → ℤ → Bytes → Effect
  uploaded : Bytes → Effect

pub record Ran (env : Env) (A : Type 0) : Type 0 where
  pub result : Result TwirpError A
  pub state : State env.host
  pub effects : List Effect

abbrev pub G : Env → Type 0 → Type 0
G env A = State env.host → Ran env A

module _ {env : Env} {A : Type 0} where
  abbrev pub pure : A → G env A
  pure a s = record { result = ok a; state = s; effects = [] }

  abbrev pub raise : TwirpError → G env A
  raise e s = record { result = err e; state = s; effects = [] }

  -- the error of a step as a value
  abbrev pub attempt : G env A → G env (Result TwirpError A)
  attempt m s = let r = m s in record { result = ok r.result; state = r.state; effects = r.effects }

  -- a program of the sweep
  abbrev pub swept : M env.host A → G env (Result Error A)
  swept m s = let (r, s') = m s in record { result = ok r; state = s'; effects = [] }

  -- a call on the world
  abbrev pub on_world : (env.host.World → A × env.host.World) → G env A
  on_world f s =
      let (a, w) = f s.world in
      record { result = ok a; state = record s { world = w }; effects = [] }

abbrev pub emit : {env : Env} → Effect → G env Unit
emit e s = record { result = ok tt; state = s; effects = e ∷ [] }

module _ {env : Env} {A B : Type 0} where
  abbrev continue : Ran env A → Result TwirpError A → (A → G env B) → Ran env B
  continue r (ok a) f =
      let q = f a r.state in
      record { result = q.result; state = q.state; effects = r.effects ++ q.effects }
  continue r (err e) f = record { result = err e; state = r.state; effects = r.effects }

  infixl 5 ◌>>=◌ ◌>>◌
  abbrev pub ◌>>=◌ : G env A → (A → G env B) → G env B
  ◌>>=◌ m f s = let r = m s in continue r r.result f

  abbrev pub ◌>>◌ : G env A → G env B → G env B
  m >> n = m >>= λ _. n
