-- ===== src/Configuration/Tests.antt =====
-- The settings of one environment.
use fleet_llm_inference.Common.{
  max, String, false, List, [], ◌∷◌, ◌==◌, length, ◌≡◌, refl, All, join,
}
use fleet_llm_inference.Common.Raises.{ok, raised, value_error}
use fleet_llm_inference.Configuration.{Configuration, load, urls_of, stripped}
use fleet_llm_inference.Common.Split.{split}
use fleet_llm_inference.Configuration.Urls.{IsStrip, IsUrl, only_urls, load-urls}

-- A `strip` for texts without spaces.
abbrev strip : String → String
strip s = s

strip-IsStrip : IsStrip strip
strip-IsStrip = record { strip-empty = refl; strip-strip = λ s. refl }

-- Empty parts are left out.
urls_of_example : urls_of strip "http://a,,http://b," ≡ "http://a" ∷ "http://b" ∷ []
unfolding urls_of stripped split
urls_of_example = refl

load-urls_example :
    (c : Configuration) × (load (only_urls "http://a,http://b") (λ s. raised value_error) strip
      ≡ ok c)
    × All (λ u. ((u == "") ≡ false) × (strip u ≡ u)) c.worker_urls
    × (c.standby_worker_urls ≡ [])
    × (c.autoscale_min_workers ≡ max 1 (length c.worker_urls))
    × ((us : List String)
        → "http://a,http://b" ≡ join "," us
        → All (IsUrl strip) us
        → c.worker_urls ≡ us)
load-urls_example = load-urls strip strip-IsStrip (λ s. raised value_error) "http://a,http://b"
