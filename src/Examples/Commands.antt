-- ===== src/Examples/Commands.antt =====
-- The theorems on chrome-sweep.
use gubal.Common.Errors.{Error}
use gubal.ChromeSweep.{browsers_from_flags}
use gubal.ChromeSweep.Browsers.{chosen, Usable, browsers_from_flags_ok}
use gubal.Chromesweep.Versions.{parse_versions}
use gubal.Strings.{split, trim_space}
use gubal.Chromesweep.Config.{Browser, Config, default_config, chrome_browser, firefox_browser}
use gubal.Chromesweep.Policies.{DirEntry}
use gubal.Common.{false, List, [], ◌∷◌, ◌++◌, ◌≡◌, ◌≢◌, refl, bytes, Result, ok, ◌==◌}

abbrev flags_config : Config
flags_config = record default_config { anubis_container = bytes "chrome" }

abbrev one_policy : Result Error (List DirEntry)
one_policy =
    ok (record { name = bytes "strict.yaml"; is_dir = false; content = ok (bytes "b") } ∷ [])

abbrev chrome_75 : List Browser
chrome_75 = record chrome_browser { versions = bytes "75" ∷ [] } ∷ []

only_chrome : browsers_from_flags (bytes "75") (bytes " ") ≡ ok chrome_75
unfolding browsers_from_flags parse_versions split trim_space ◌==◌
only_chrome = refl

browsers_from_flags_ok_example :
    Usable (bytes "75")
    × Usable (bytes " ")
    × (chrome_75 ≢ [])
    × (chrome_75
        ≡ chosen chrome_browser (parse_versions (split b',' (bytes "75")))
          ++ chosen firefox_browser (parse_versions (split b',' (bytes " "))))
browsers_from_flags_ok_example = browsers_from_flags_ok (bytes "75") (bytes " ") only_chrome
