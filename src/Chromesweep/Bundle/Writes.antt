-- ===== src/Chromesweep/Bundle/Writes.antt =====
-- What a bundle holds when WriteBundle returns no error.
use gubal.Common.{List, [], ◌∷◌, ◌++◌, ◌≡◌, Bytes, ◌==◌, if◌then◌else◌, ok, ◌⊎◌}
use gubal.Chromesweep.Report.{SweepResult, LogCapture}
use gubal.Chromesweep.Bundle.{ZipEntry, BundleIo, bundle_frame_path, bundle_log_path}

abbrev pub entry : Bytes → Bytes → ZipEntry
entry name content = record { name = name; content = content }

module _ (io : BundleIo) where
  -- what stands in the zip for the frame of a result: nothing without a frame, and else its file's
  -- content, which could be read
  abbrev pub FrameEntries : SweepResult → List ZipEntry → Type 0
  FrameEntries r es =
      ((r.frame_path ≡ []) × (es ≡ []))
      ⊎ ((content : Bytes) × (io.read_file r.frame_path ≡ ok content)
          × (es ≡ entry (bundle_frame_path r) content ∷ []))

  pub log_entries : SweepResult → List LogCapture → List ZipEntry
  log_entries r [] = []
  log_entries r (lg ∷ logs) =
      if lg.content == []
      then log_entries r logs
      else entry (bundle_log_path r lg.container) lg.content ∷ log_entries r logs

  -- what stands there for results, in their order
  abbrev pub ResultEntries : List SweepResult → List ZipEntry → Type 0
  ResultEntries [] es = es ≡ []
  ResultEntries (r ∷ rs) es =
      (frame : List ZipEntry) × (rest : List ZipEntry) × FrameEntries r frame
      × ResultEntries rs rest
      × (es ≡ (frame ++ log_entries r r.logs) ++ rest)
