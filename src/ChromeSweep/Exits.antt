-- ===== src/ChromeSweep/Exits.antt =====
-- What the status of chrome-sweep says, and that its frames are removed.
use gubal.Common.{true, List, none, ◌≡◌, Bytes, bytes, ok}
use gubal.Chromesweep.Policies.{Policy}
use gubal.Chromesweep.Config.{Browser, Config}
use gubal.Chromesweep.Report.{Report, all_passed}
use gubal.Chromesweep.Report.Markdown.{render_markdown}
use gubal.Chromesweep.Host.{Host}
use gubal.Chromesweep.Sweep.Results.{idents, matrix}
use gubal.Chromesweep.Sweep.Run.{passes}
use gubal.ChromeSweep.{Cli, bundle_to}

module _ (cli : Cli) where
  -- What was written and printed of a report when `w` is the last world.
  abbrev pub Published : Config → Report → cli.host.World → Type 0
  Published cfg rep w =
      (js : Bytes) × (v : cli.host.World) × (x : cli.host.World) × (y : cli.host.World)
      × (cli.render_json rep ≡ ok js)
      × ((bundle_to cli (cli.host.join_path cfg.out_dir (bytes "report.zip")) js
            (render_markdown rep) rep.results v).0
          ≡ none)
      × ((cli.write_file (cli.host.join_path cfg.out_dir (bytes "report.md")) (render_markdown rep)
            x).0
          ≡ none)
      × (w ≡ cli.print (render_markdown rep) y)

  -- A sweep that ended with a report whose results are of these versions and policies, that all
  -- passed and that was published; the directory of its frames is removed last.
  abbrev pub Passed : List Browser → List Policy → Config → cli.host.World → Type 0
  Passed bs ps cfg w =
      (rep : Report) × (dir : Bytes) × (v : cli.host.World) × (idents rep.results
        ≡ matrix bs (passes ps))
      × (all_passed rep ≡ true)
      × Published (record cfg { browsers = bs; policies = ps }) rep v
      × (w ≡ cli.remove_all dir v)
