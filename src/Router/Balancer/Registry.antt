-- ===== src/Router/Balancer/Registry.antt =====
-- The pool of router/load_balancer.py: workers that join and leave while it runs.
use fleet_llm_inference.Common.{
  ℕ, String, ◌≡◌, refl, sym, ap, ◌∙◌, inl, inr, subst, true, false, not, List, [], ◌∷◌, ◌++◌, map,
  arith, ◌==◌, eq_iff, eq_refl, if◌then◌else◌, keep, any, ltb, length, length-keep-le, All,
  Bool-cases, elem, elem-append, Distinct, Distinct-append_one,
}
use fleet_llm_inference.Common.Floats.{Floats}
use fleet_llm_inference.Common.Raises.{raised, key_error}
use fleet_llm_inference.Dict
use fleet_llm_inference.Dict.{Dict, get-put, get-pop, get-empty}
use fleet_llm_inference.Workers.Client.{OllamaClient, new_client}
use fleet_llm_inference.Router.Breaker.{CircuitBreaker}
use fleet_llm_inference.Router.Balancer.{
  LoadBalancer, Settings, has_worker, remove_worker, add_worker, add_client, add_all, new_balancer,
  record_success, record_failure, on_breaker,
}
use fleet_llm_inference.Router.Balancer.Eligible.{HasBreaker, IsServing}

none_there : (names : List String) → All (λ k. false ≡ false) names
none_there [] = tt
none_there (k ∷ names) = (refl, none_there names)

module _ {F : Type 0} where
  abbrev pub urls : List (OllamaClient F) → List String
  urls ws = map (λ (w : OllamaClient F). w.stats.url) ws

  -- Every worker has a breaker and no URL is registered twice.
  pub record IsPool (lb : LoadBalancer F) : Type 0 where
    pub serving : IsServing lb
    pub distinct : Distinct (urls lb.workers)

  pub any-urls :
      (url : String) (ws : List (OllamaClient F))
      → any (λ w. w.stats.url == url) ws ≡ elem url (urls ws)
  any-urls url [] = refl
  any-urls url (w ∷ ws) =
      ground (arith, any-urls url ws, eq_iff url w.stats.url, eq_iff w.stats.url url)

  urls-append :
      (w : OllamaClient F) (ws : List (OllamaClient F))
      → urls (ws ++ w ∷ []) ≡ urls ws ++ w.stats.url ∷ []
  urls-append w [] = refl
  urls-append w (v ∷ ws) = ap (λ l. v.stats.url ∷ l) (urls-append w ws)

  HasBreaker-put :
      (d : Dict CircuitBreaker) (url : String) (b : CircuitBreaker) (ws : List (OllamaClient F))
      → All (HasBreaker d) ws
      → All (HasBreaker (Dict.put d url b)) ws
  HasBreaker-put d url b [] h = tt
  HasBreaker-put d url b (w ∷ ws) h =
      (ground (arith, get-put d url w.stats.url b, h.0), HasBreaker-put d url b ws h.1)

  pub HasBreaker-append :
      (d : Dict CircuitBreaker) (url : String) (b : CircuitBreaker) (w : OllamaClient F)
      (ws : List (OllamaClient F))
      → All (HasBreaker d) ws
      → w.stats.url ≡ url
      → All (HasBreaker (Dict.put d url b)) (ws ++ w ∷ [])
  HasBreaker-append d url b w [] h e =
      (ground (arith, get-put d url w.stats.url b, eq_iff url w.stats.url), tt)
  HasBreaker-append d url b w (v ∷ ws) h e =
      (ground (arith, get-put d url v.stats.url b, h.0), HasBreaker-append d url b w ws h.1 e)

  abbrev pub others : String → List (OllamaClient F) → List (OllamaClient F)
  others url ws = keep (λ w. not (w.stats.url == url)) ws

  elem-others :
      (x url : String) (ws : List (OllamaClient F))
      → elem x (urls (others url ws)) ≡ (if url == x then false else elem x (urls ws))
  elem-others x url [] = ground arith
  elem-others x url (w ∷ ws) =
      ground
        (arith, elem-others x url ws, eq_iff w.stats.url url, eq_iff url x, eq_iff x w.stats.url)

  Distinct-others :
      (url : String) (ws : List (OllamaClient F))
      → Distinct (urls ws)
      → Distinct (urls (others url ws))
  Distinct-others url [] h = tt
  Distinct-others url (w ∷ ws) h =
      ground (arith, Distinct-others url ws h.1, elem-others w.stats.url url ws, h.0)

  pub HasBreaker-others :
      (d : Dict CircuitBreaker) (url : String) (ws : List (OllamaClient F))
      → All (HasBreaker d) ws
      → All (HasBreaker (Dict.pop d url)) (others url ws)
  HasBreaker-others d url [] h = tt
  HasBreaker-others d url (w ∷ ws) h = ground (
    arith,
    HasBreaker-others d url ws h.1,
    get-pop d url w.stats.url,
    eq_iff w.stats.url url,
    eq_iff url w.stats.url,
    h.0,
  )

  pub length-others :
      (url : String) (ws : List (OllamaClient F))
      → ltb (length (others url ws)) (length ws) ≡ elem url (urls ws)
  length-others url [] = refl
  length-others url (w ∷ ws) = ground (
    arith,
    length-others url ws,
    length-keep-le (λ w. not (w.stats.url == url)) ws,
    eq_iff w.stats.url url,
    eq_iff url w.stats.url,
  )

  -- A removal keeps a well-formed pool well formed, tells whether the worker was there, and leaves just the
  -- workers with another URL.
  pub remove_worker-IsPool :
      (lb : LoadBalancer F) (url : String)
      → IsPool lb
      → let (lb', removed) = remove_worker lb url in
        IsPool lb'
        × (removed ≡ has_worker lb url)
        × ((k : String) → has_worker lb' k ≡ (if url == k then false else has_worker lb k))
  unfolding remove_worker has_worker
  remove_worker-IsPool lb url h = (
    record {
      serving = HasBreaker-others lb.breakers url lb.workers h.serving;
      distinct = Distinct-others url lb.workers h.distinct;
    },
    length-others url lb.workers ∙ sym (any-urls url lb.workers),
    λ k.
        any-urls k (others url lb.workers)
        ∙ ground (arith, elem-others k url lb.workers, any-urls k lb.workers),
  )

  -- A worker that was removed while it served: to record its result raises KeyError.
  pub record-removed :
      (lb : LoadBalancer F) (url : String) (now : ℕ)
      → let lb' = (remove_worker lb url).0 in
        ((record_success url lb').1 ≡ raised key_error)
        × ((record_failure url now lb').1 ≡ raised key_error)
  unfolding remove_worker record_success record_failure on_breaker
  record-removed lb url now = (
    ground (arith, get-pop lb.breakers url url, eq_refl url),
    ground (arith, get-pop lb.breakers url url, eq_refl url),
  )

module _ {F : Type 0} (ops : Floats F) where
  add_client-IsPool :
      (lb : LoadBalancer F) (url : String)
      → IsPool lb
      → has_worker lb url ≡ false
      → IsPool (add_client ops lb url)
  unfolding add_client has_worker new_client
  add_client-IsPool lb url h e = record {
    serving = HasBreaker-append lb.breakers url _ _ lb.workers h.serving refl;
    distinct =
        subst Distinct (sym (urls-append _ lb.workers)) (
          Distinct-append_one url (urls lb.workers) h.distinct (sym (any-urls url lb.workers) ∙ e));
  }

  pub has_worker-add_client :
      (lb : LoadBalancer F) (url k : String)
      → has_worker (add_client ops lb url) k ≡ (if url == k then true else has_worker lb k)
  unfolding add_client has_worker new_client
  has_worker-add_client lb url k =
      any-urls k _
      ∙ ap (elem k) (urls-append _ lb.workers)
      ∙ ground (
        arith,
        elem-append k (urls lb.workers) (url ∷ []),
        any-urls k lb.workers,
        eq_iff k url,
        eq_iff url k,
      )

  still_absent :
      (lb : LoadBalancer F) (url : String) (names : List String)
      → elem url names ≡ false
      → All (λ k. has_worker lb k ≡ false) names
      → All (λ k. has_worker (add_client ops lb url) k ≡ false) names
  still_absent lb url [] e h = tt
  still_absent lb url (k ∷ names) e h = (
    ground (arith, has_worker-add_client lb url k, e, h.0, eq_iff url k),
    still_absent lb url names (ground arith) h.1,
  )

  -- A new worker is registered with a breaker and a well-formed pool stays well formed; a worker that is there
  -- already changes nothing, and the answer tells them apart.
  pub add_worker-IsPool :
      (lb : LoadBalancer F) (url : String)
      → IsPool lb
      → let (lb', added) = add_worker ops lb url in
        IsPool lb'
        × (added ≡ not (has_worker lb url))
        × ((k : String) → has_worker lb' k ≡ (if url == k then true else has_worker lb k))
        × (has_worker lb url ≡ true → lb' ≡ lb)
  unfolding add_worker
  add_worker-IsPool lb url h = elim (Bool-cases (has_worker lb url)) [
    | inl e ↦ rw (e, add_worker) (h, refl, λ k. ground (arith, e, eq_iff url k), λ t. refl)
    | inr e ↦
        rw (e, add_worker)
          (
            add_client-IsPool lb url h e,
            refl,
            λ k. has_worker-add_client lb url k,
            λ t. absurd (ground arith),
          )
  ]

  -- Distinct new URLs join the pool.
  add_all-IsPool :
      (lb : LoadBalancer F) (names : List String)
      → IsPool lb
      → Distinct names
      → All (λ url. has_worker lb url ≡ false) names
      → IsPool (add_all ops lb names)
        × ((k : String)
            → has_worker (add_all ops lb names) k
              ≡ (if has_worker lb k then true else elem k names))
  unfolding add_all
  add_all-IsPool lb [] h d a = (h, λ k. ground arith)
  add_all-IsPool lb (url ∷ names) h d a =
      let (p, q) =
        add_all-IsPool (add_client ops lb url) names (add_client-IsPool lb url h a.0) d.1
          (still_absent lb url names d.0 a.1) in
      (p, λ k. ground (arith, q k, has_worker-add_client lb url k, eq_iff k url, eq_iff url k))

  -- For distinct URLs the constructor makes a well-formed pool of just these URLs.
  pub new_balancer-IsPool :
      (settings : Settings) (worker_urls : List String)
      → Distinct worker_urls
      → IsPool (new_balancer ops settings worker_urls)
        × ((k : String) → has_worker (new_balancer ops settings worker_urls) k ≡ elem k worker_urls)
  unfolding new_balancer has_worker
  new_balancer-IsPool settings worker_urls d =
      add_all-IsPool _ worker_urls (record { serving = tt; distinct = tt }) d
        (none_there worker_urls)
