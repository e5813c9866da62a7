-- ===== src/Chromesweep/Bundle.antt =====
-- chromesweep/bundle.go. The file and the zip writer are parameters: what each call on them returns.
pub mod Paths
pub mod Writes
use gubal.Common.{
  Bool, List, [], ◌∷◌, ◌++◌, Option, none, some, Bytes, bytes, ◌==◌, if◌then◌else◌, Result, ok, err,
}
use gubal.Common.Errors.{Error, wrap}
use gubal.Chromesweep.Report.{SweepResult, LogCapture}

abbrev slash : Bytes
slash = bytes "/"

unfoldable pub bundle_path : Bytes → Bytes → Bytes → Bytes
bundle_path kind policy leaf =
    if policy == [] then kind ++ (slash ++ leaf) else kind ++ (slash ++ (policy ++ (slash ++ leaf)))

unfoldable pub bundle_frame_path : SweepResult → Bytes
unfolding bundle_path
bundle_frame_path r =
    if r.frame_path == []
    then []
    else bundle_path (bytes "frames") r.policy (r.browser ++ (bytes "-" ++ (r.tag ++ bytes ".png")))

unfoldable pub bundle_log_path : SweepResult → Bytes → Bytes
unfolding bundle_path
bundle_log_path r container =
    bundle_path (bytes "logs") r.policy
      (r.browser ++ (bytes "-" ++ (r.tag ++ (bytes "-" ++ (container ++ bytes ".log")))))

pub record ZipEntry : Type 0 where
  pub name : Bytes
  pub content : Bytes

pub record BundleIo : Type 0 where
  pub create : Option Error
  -- os.ReadFile
  pub read_file : Bytes → Result Error Bytes
  -- zw.Create and the Write that follows
  pub add : ZipEntry → Option Error
  pub close_zip : Option Error
  pub close_file : Option Error

-- what the zip holds so far, and the error that ended the writing, if one did
pub record Written : Type 0 where
  pub entries : List ZipEntry
  pub error : Option Error

module _ (io : BundleIo) where
  open io use {create, read_file, add, close_zip, close_file}

  unfoldable pub add_zip_file : Bytes → Bytes → Written → Written
  add_zip_file name content w = elim (add (record { name = name; content = content })) [
    | none ↦ record w { entries = w.entries ++ (record { name = name; content = content }) ∷ [] }
    | some e ↦ record w { error = some e }
  ]

  -- a step is made unless one before it failed
  unfoldable pub and_then : Written → (Written → Written) → Written
  and_then w step = elim w.error [ none ↦ step w | some e ↦ w ]

  unfoldable pub write_frame : SweepResult → Written → Written
  write_frame r w = if r.frame_path == [] then w else elim (read_file r.frame_path) [
    | err e ↦ record w { error = some (wrap (bytes "reading frame " ++ r.frame_path) e) }
    | ok content ↦ add_zip_file (bundle_frame_path r) content w
  ]

  unfoldable pub write_logs : SweepResult → List LogCapture → Written → Written
  write_logs r [] w = w
  write_logs r (lg ∷ logs) w =
      let w' =
        if lg.content == []
        then w
        else add_zip_file (bundle_log_path r lg.container) lg.content w in
      and_then w' (write_logs r logs)

  unfoldable pub write_results : List SweepResult → Written → Written
  write_results [] w = w
  write_results (r ∷ rs) w =
      and_then (and_then (write_frame r w) (write_logs r r.logs)) (write_results rs)

  -- `return zw.Close()`
  finish_zip : Written → Written
  finish_zip w = record w { error = close_zip }

  -- the deferred close of the file, whose error counts only where there is no other
  close : Written → Written
  close w = elim w.error [ none ↦ record w { error = close_file } | some e ↦ w ]

  -- the two reports, the results, and the close of the zip
  write_parts : Bytes → Bytes → List SweepResult → Written
  unfolding finish_zip
  write_parts report_json report_markdown results =
      let start : Written = record { entries = []; error = none } in
      let json = add_zip_file (bytes "report.json") report_json start in
      let reports = and_then json (add_zip_file (bytes "report.md") report_markdown) in
      and_then (and_then reports (write_results results)) finish_zip

  unfoldable pub write_bundle : Bytes → Bytes → List SweepResult → Written
  unfolding write_parts close
  write_bundle report_json report_markdown results = elim create [
    | some e ↦ record { entries = []; error = some e }
    | none ↦ close (write_parts report_json report_markdown results)
  ]
