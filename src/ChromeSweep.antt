-- ===== src/ChromeSweep.antt =====
-- cmd/chrome-sweep/main.go over the library chromesweep. The clients, files and the environment that
-- it calls itself are a record, and the flags are a record of their values.
pub mod Exits
pub mod Browsers
use gubal.Common.{
  ℕ, List, [], ◌∷◌, ◌++◌, Option, none, some, ◌≡◌, refl, Bytes, bytes, ◌==◌, Result, ok, err,
  if◌then◌else◌,
}
use gubal.Common.Errors.{Error, errorf, wrap}
use gubal.Strings.{split, trim_space}
use gubal.Chromesweep.Versions.{VersionsError, parse_versions}
use gubal.Chromesweep.Policies.{Policy, DirEntry, LoadError, load_policies_from_dir}
use gubal.Chromesweep.Config.{Browser, Config, chrome_browser, firefox_browser}
use gubal.Chromesweep.Report.{Report, SweepResult, all_passed}
use gubal.Chromesweep.Report.Markdown.{render_markdown}
use gubal.Chromesweep.Bundle.{BundleIo, write_bundle}
use gubal.Chromesweep.Host.{Host, State, M, pure, raise, reads, ◌>>=◌, ◌>>◌}
use gubal.Chromesweep.Sweep.Run.{run}

pub data FlagsError : Type 0 where
  -- the name of the browser
  bad_versions : Bytes → VersionsError → FlagsError
  no_browser : FlagsError

-- the loop over the two lists of versions
browsers_loop : List Browser → List (Bytes × Browser) → Result FlagsError (List Browser)
browsers_loop out [] = ok out
browsers_loop out ((csv, browser) ∷ specs) =
    let skip = browsers_loop out specs in
    elim (parse_versions (split b',' csv)) [
      | err e ↦ if trim_space csv == [] then skip else err (bad_versions browser.name e)
      | ok vs ↦ browsers_loop (out ++ (record browser { versions = vs }) ∷ []) specs
    ]

some_browser : Result FlagsError (List Browser) → Result FlagsError (List Browser)
some_browser (err e) = err e
some_browser (ok []) = err no_browser
some_browser (ok (b ∷ bs)) = ok (b ∷ bs)

unfoldable pub browsers_from_flags : Bytes → Bytes → Result FlagsError (List Browser)
unfolding browsers_loop some_browser
browsers_from_flags chrome_csv firefox_csv =
    some_browser
      (browsers_loop [] ((chrome_csv, chrome_browser) ∷ (firefox_csv, firefox_browser) ∷ []))

-- $KUBECONFIG, the home directory and filepath.Join
unfoldable pub default_kubeconfig : Bytes → Bytes → (List Bytes → Bytes) → Bytes
default_kubeconfig kubeconfig home join =
    if kubeconfig == [] then join (home ∷ bytes ".kube" ∷ bytes "config" ∷ []) else kubeconfig

pub record Cli : Type 1 where
  pub host : Host
  -- clientcmd.BuildConfigFromFlags of a path, and kubernetes.NewForConfig
  pub build_config : Bytes → host.World → Result Error Unit × host.World
  pub new_for_config : host.World → Result Error Unit × host.World
  pub mkdir_temp : Bytes → host.World → Result Error Bytes × host.World
  pub remove_all : Bytes → host.World → host.World
  pub render_json : Report → Result Error Bytes
  -- what the calls of WriteBundle on the file at a path return
  pub bundle_io : Bytes → host.World → BundleIo × host.World
  pub write_file : Bytes → Bytes → host.World → Option Error × host.World
  pub print : Bytes → host.World → host.World
  -- fmt's %q
  pub quote : Bytes → Bytes

module _ (cli : Cli) where
  abbrev check : Option Error → Result Error Unit
  check none = ok tt
  check (some e) = err e

  abbrev in_config : Bytes → Result Error Unit → Result Error Unit
  in_config path (ok _) = ok tt
  in_config path (err e) = err (wrap (bytes "loading kubeconfig " ++ cli.quote path) e)

  -- a call that returns an error or nothing
  abbrev doing : (cli.host.World → Option Error × cli.host.World) → M cli.host Unit
  doing f = reads (λ w. let (o, w') = f w in (check o, w'))

  unfoldable pub kube_client : Bytes → M cli.host Unit
  kube_client path = do
    reads (λ w. let (r, w') = cli.build_config path w in (in_config path r, w'))
    reads cli.new_for_config

  abbrev pub bundle_to :
      Bytes → Bytes → Bytes → List SweepResult → cli.host.World → Option Error × cli.host.World
  bundle_to path js md results w =
      let (io, w') = cli.bundle_io path w in ((write_bundle io js md results).error, w')

  verdict : Config → Report → M cli.host Unit
  verdict cfg rep =
      if all_passed rep
      then pure tt
      else raise (
          errorf (
            bytes "one or more versions did not pass; see "
            ++ (cfg.out_dir ++ bytes "/report.zip")))

  -- what run does with the report
  unfoldable pub publish : Config → Report → M cli.host Unit
  unfolding verdict
  publish cfg rep = do
    doing (cli.host.mkdir_all cfg.out_dir)
    js ← reads (λ w. (cli.render_json rep, w))
    let md = render_markdown rep
    doing (bundle_to (cli.host.join_path cfg.out_dir (bytes "report.zip")) js md rep.results)
    doing (cli.write_file (cli.host.join_path cfg.out_dir (bytes "report.md")) md)
    reads (λ w. (ok tt, cli.print md w))
    verdict cfg rep

  -- the deferred removal of the frames, which runs on every return
  unfoldable pub removing : Bytes → M cli.host Unit → M cli.host Unit
  removing dir m s = let (r, s') = m s in (r, record s' { world = cli.remove_all dir s'.world })

  unfoldable pub run_cli : Bytes → Config → M cli.host Unit
  run_cli kubeconfig cfg = do
    kube_client kubeconfig
    dir ← reads (cli.mkdir_temp (bytes "chrome-sweep-frames-"))
    removing dir (run cli.host cfg dir >>= publish cfg)

  -- main after the flags are parsed: the status of the process, and its last state
  status : Result Error Unit × State cli.host → ℕ × State cli.host
  status (ok _, s) = (0, s)
  status (err e, s) = (1, s)

  run_policies :
      Bytes → Config → Result LoadError (List Policy) → State cli.host → ℕ × State cli.host
  unfolding status
  run_policies kubeconfig cfg (err e) s = (1, s)
  run_policies kubeconfig cfg (ok ps) s =
      status (run_cli kubeconfig (record cfg { policies = ps }) s)

  run_browsers :
      Bytes
      → Config
      → Result Error (List DirEntry)
      → Result FlagsError (List Browser)
      → State cli.host
      → ℕ × State cli.host
  unfolding run_policies
  run_browsers kubeconfig cfg entries (err e) s = (1, s)
  run_browsers kubeconfig cfg entries (ok bs) s =
      run_policies kubeconfig (record cfg { browsers = bs }) (load_policies_from_dir entries) s

  -- the arguments are the values of the flags, the Config's among them, and what os.ReadDir gives for
  -- -policy-dir
  unfoldable pub main :
      Bytes
      → Config
      → Bytes
      → Bytes
      → Result Error (List DirEntry)
      → State cli.host
      → ℕ × State cli.host
  unfolding run_browsers
  main kubeconfig cfg chrome_versions firefox_versions entries =
      run_browsers kubeconfig cfg entries (browsers_from_flags chrome_versions firefox_versions)
