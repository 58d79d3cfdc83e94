-- ===== src/Configuration/Urls.antt =====
-- The URLs of config/settings.py.
use fleet_llm_inference.Common.{
  ℕ, max, String, false, Option, none, some, List, [], ◌∷◌, ◌==◌, if◌then◌else◌, length, ◌≡◌, refl,
  ap, ◌∙◌, All, All-map, arith, join, Bool-cases, inl, inr,
}
use fleet_llm_inference.Common.Split.{split, Lacks, split-join}
use fleet_llm_inference.Common.Raises.{Result, ok}
use fleet_llm_inference.Configuration.{Configuration, stripped, urls_of, int_or, load, count_or_one}

-- What the code relies on of `str.strip`.
pub record IsStrip (strip : String → String) : Type 0 where
  pub strip-empty : strip "" ≡ ""
  pub strip-strip : (s : String) → strip (strip s) ≡ strip s

-- A text that can stand in a list of URLs.
pub record IsUrl (strip : String → String) (url : String) : Type 0 where
  pub not_empty : (url == "") ≡ false
  pub whole : strip url ≡ url
  pub one : Lacks b',' url

-- The environment that has worker URLs only.
abbrev pub only_urls : String → String → Option String
only_urls raw name = if name == "WORKER_URLS" then some raw else none

module _ (strip : String → String) (laws : IsStrip strip) where
  stripped-urls : (us : List String) → All (IsUrl strip) us → stripped strip us ≡ us
  unfolding stripped
  stripped-urls [] a = refl
  stripped-urls (u ∷ us) a =
      rw a.0.whole (rw a.0.not_empty (ap (λ l. u ∷ l) (stripped-urls us a.1)))

  urls_of-join : (us : List String) → All (IsUrl strip) us → urls_of strip (join "," us) ≡ us
  unfolding urls_of stripped split
  urls_of-join [] a = rw laws.strip-empty refl
  urls_of-join (u ∷ us) a =
      ap (stripped strip)
        (split-join "," u us a.0.one (All-map _ _ us (λ url (h : IsUrl strip url). h.one) a.1))
      ∙ stripped-urls (u ∷ us) a

  -- No URL that is read is empty, or would be changed by `strip`.
  stripped-clean :
      (parts : List String) → All (λ u. ((u == "") ≡ false) × (strip u ≡ u)) (stripped strip parts)
  unfolding stripped
  stripped-clean [] = tt
  stripped-clean (u ∷ parts) = elim (Bool-cases (strip u == "")) [
    | inl e ↦ rw e (stripped-clean parts)
    | inr e ↦ rw e ((e, laws.strip-strip u), stripped-clean parts)
  ]

  count_or_one-max : (us : List String) → count_or_one us ≡ max 1 (length us)
  count_or_one-max [] = refl
  count_or_one-max (u ∷ us) = omega arith

  -- Where nothing is set but WORKER_URLS, the settings can be read: none of the URLs is empty or has
  -- spaces around it, there are no standby URLs, and the autoscaler keeps as many workers as there are
  -- URLs, but one at least. URLs that are joined by commas are read back in their order.
  pub load-urls :
      (int_of : String → Result ℕ) (raw : String)
      → (c : Configuration) × (load (only_urls raw) int_of strip ≡ ok c)
        × All (λ u. ((u == "") ≡ false) × (strip u ≡ u)) c.worker_urls
        × (c.standby_worker_urls ≡ [])
        × (c.autoscale_min_workers ≡ max 1 (length c.worker_urls))
        × ((us : List String) → raw ≡ join "," us → All (IsUrl strip) us → c.worker_urls ≡ us)
  unfolding load urls_of split stripped int_or
  load-urls int_of raw = (
    _,
    refl,
    stripped-clean (split b',' raw),
    rw laws.strip-empty refl,
    count_or_one-max (urls_of strip raw),
    λ us e a. ap (urls_of strip) e ∙ urls_of-join us a,
  )
