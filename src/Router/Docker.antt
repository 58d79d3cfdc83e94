-- ===== src/Router/Docker.antt =====
-- The Docker mode of router/autoscaler.py: containers that are started and stopped, and the load
-- balancer. Docker is a parameter; `show` is the text of a port.
use fleet_llm_inference.Common.{
  ℕ, ◌+◌, String, ◌<>◌, List, [], ◌∷◌, ◌++◌, leb, ltb, length, if◌then◌else◌,
}
use fleet_llm_inference.Common.Floats.{Floats}
use fleet_llm_inference.Common.Raises.{Result, ok, raised}
use fleet_llm_inference.Router.Balancer.{add_worker}
use fleet_llm_inference.Router.Autoscaler.{Autoscaler, pop_last, in_cooldown}

-- The number of the pool's containers, a container started on a port, and one stopped and removed.
pub record Docker : Type 1 where
  pub State : Type 0
  pub count : State → Result ℕ
  pub start : State → ℕ → State × Result String
  pub remove : State → String → State × Result (Unit {0})

module _ (F : Type 0) (D : Docker) where
  -- The autoscaler, its containers and Docker.
  pub record DockerScaler : Type 0 where
    pub scaler : Autoscaler F
    pub containers : List String
    pub docker : D.State

module _ {F : Type 0} (ops : Floats F) (D : Docker) (show : ℕ → String)
    (worker_urls : List String) where
  -- An exception of Docker leaves the workers of the settings.
  abbrev pub count_or : Result ℕ → ℕ
  count_or (ok n) = n + length worker_urls
  count_or (raised e) = length worker_urls

  abbrev pub worker_count : DockerScaler F D → ℕ
  worker_count a = count_or (D.count a.docker)

  abbrev pub url_of : ℕ → String
  url_of port = "http://localhost:" <> show port

  -- After `containers.run`
  abbrev pub spawned : ℕ → ℕ → DockerScaler F D → D.State × Result String → DockerScaler F D
  spawned port now a (docker, ok id) = record a {
    docker = docker;
    containers = a.containers ++ id ∷ [];
    scaler = record a.scaler {
      last_scale_time = now;
      balancer = (add_worker ops a.scaler.balancer (url_of port)).0;
    };
  }
  spawned port now a (docker, raised e) = record a { docker = docker }

  unfoldable pub scale_up_docker : ℕ → ℕ → DockerScaler F D → DockerScaler F D
  scale_up_docker current now a =
      spawned (11434 + current) now a (D.start a.docker (11434 + current))

  -- After `stop` and `remove`
  abbrev pub removed :
      ℕ → List String → DockerScaler F D → D.State × Result (Unit {0}) → DockerScaler F D
  removed now rest a (docker, ok u) = record a {
    docker = docker;
    containers = rest;
    scaler = record a.scaler { last_scale_time = now };
  }
  removed now rest a (docker, raised e) = record a { docker = docker; containers = rest }

  unfoldable pub scale_down_docker : ℕ → DockerScaler F D → DockerScaler F D
  scale_down_docker now a = elim (a.containers) [
    | [] ↦ a
    | c ∷ cs ↦ removed now (pop_last c cs).0 a (D.remove a.docker (pop_last c cs).1)
  ]

  -- One round of the monitoring loop.
  unfoldable pub round : ℕ → ℕ → DockerScaler F D → DockerScaler F D
  unfolding in_cooldown scale_up_docker scale_down_docker
  round depth now a =
      let current = worker_count a in
      if in_cooldown a.scaler now
      then a
      else if leb a.scaler.scale_up_threshold depth
      then (if leb a.scaler.max_workers current then a else scale_up_docker current now a)
      else if leb depth a.scaler.scale_down_threshold
      then (if ltb a.scaler.min_workers current
          then (if leb current a.scaler.min_workers then a else scale_down_docker now a)
          else a)
      else a
