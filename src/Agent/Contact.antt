-- ===== src/Agent/Contact.antt =====
-- An agent together with the monitor: the client's requests reach ClusterRouter of
-- src/chutes-monitor/chutes_monitor/api/cluster/router.py.
use chutes_miner.Prelude.{
  Bool, Bool-cases, List, Option, [], ap, arith, contains, false, filter, inl, inr, map, none, not,
  refl, some, true, ℕ, ◌==◌, ◌∷◌, ◌≡◌,
}
use chutes_miner.Schema.{Key}
use chutes_miner.Db.{Db}
use chutes_miner.Cache.{
  Cache, Health, Resource, active, clear_cluster, clear_cluster_resources, get_all_cluster_names,
  get_cluster_status, set_cluster_resources, starting_status, track_cluster, update_cluster_status,
}
use chutes_miner.Monitor.{delete_cluster, done, register_cluster, replace_cluster_resources}
use chutes_miner.Monitor.Router.{
  Response, delete_cluster_request, handle_heartbeat, heartbeat_for, http_error, patch_resources,
  post_cluster, put_resources, server_exists, success,
}
use chutes_miner.Monitor.Freshness.{find-set_status}
use chutes_miner.Control.{Answer, Plane, responded, send_heartbeat}
use chutes_miner.Agent.{
  announce, register_if_unknown, register_own_cluster, replace_on_conflict, restart_attempt,
  send_all_resources, send_with, try_connect,
}
use chutes_miner.AgentState.{Agent, after_connecting, after_restart, is_running, running, stopped}

-- A response of the monitor, as the client sees it.
abbrev pub answer_of : Response → Answer
answer_of success = responded 200
answer_of (http_error code) = responded code

-- The monitor as the agent of the cluster `c` reaches it, at a time and with a table of servers.
abbrev pub monitor : (now : ℕ) → Db → (c : Key) → Plane Cache
monitor now db c = record {
  post = λ url xs cache. let (r, cache') = post_cluster now db c xs cache in (answer_of r, cache');
  put = λ url xs cache. let (r, cache') = put_resources now db c xs cache in (answer_of r, cache');
  remove = λ url cache. let (r, cache') = delete_cluster_request c cache in (answer_of r, cache');
  patch = λ url x is_deleted cache.
      let (r, cache') = patch_resources c x is_deleted cache in (answer_of r, cache');
  heartbeat = λ url timestamp cache.
      let (r, cache') = handle_heartbeat c active (some timestamp) cache in (answer_of r, cache');
}

-- A collection that succeeds, beside the monitor.
abbrev pub collected : List Resource → Cache → Option (List Resource) × Cache
collected xs cache = (some xs, cache)

module _ (now : ℕ) (db : Db) (c : Key) (usable : Key → Bool) (xs : List Resource) (url : Key) where
  cleared_is_new :
      (cache : Cache) → contains c (get_all_cluster_names (clear_cluster c cache)) ≡ false
  unfolding clear_cluster clear_cluster_resources
  cleared_is_new cache = go cache.health
    where
      go :
          (hs : List Health)
          → contains c
              (map (λ (h : Health). h.cluster_name) (filter (λ h. not (h.cluster_name == c)) hs))
            ≡ false
      go [] = refl
      go (h ∷ hs) = ground (arith, go hs)

  -- A registration of a cluster that is not in the cache.
  accepted :
      (cache : Cache)
      → contains c (get_all_cluster_names cache) ≡ false
      → register_cluster now c xs cache ≡ (done, track_cluster now c xs cache)
  unfolding register_cluster
  accepted cache new = rw new refl

  abbrev entry : Health
  entry = record { cluster_name = c; status = starting_status now }

  tracked : (cache : Cache) → get_cluster_status c (track_cluster now c xs cache) ≡ some entry
  unfolding track_cluster set_cluster_resources clear_cluster_resources update_cluster_status
  tracked cache = ground (arith, find-set_status c c (starting_status now) cache.health)

  reported :
      (cache : Cache)
      → get_cluster_status c
          (set_cluster_resources c xs (update_cluster_status c (starting_status now) cache))
        ≡ some entry
  unfolding set_cluster_resources clear_cluster_resources update_cluster_status
  reported cache = ground (arith, find-set_status c c (starting_status now) cache.health)

  -- Both announcements succeed, and then the cluster is starting.
  announced :
      (is_new : Bool) (cache : Cache)
      → server_exists c db ≡ true
      → let (f, cache') = announce (monitor now db c) usable (collected xs) url is_new cache in
        (f ≡ none) × (get_cluster_status c cache' ≡ some entry)
  unfolding register_own_cluster send_all_resources replace_on_conflict register_if_unknown
      post_cluster put_resources delete_cluster_request delete_cluster register_cluster
      replace_cluster_resources
  announced true cache listed = elim (Bool-cases (contains c (get_all_cluster_names cache))) [
    | inl known ↦
        rw (listed, known, accepted (clear_cluster c cache) (cleared_is_new cache))
          (refl, tracked (clear_cluster c cache))
    | inr new ↦ rw (listed, new) (refl, tracked cache)
  ]
  announced false cache listed = elim (Bool-cases (contains c (get_all_cluster_names cache))) [
    | inl known ↦ rw (listed, known) (refl, reported cache)
    | inr new ↦ rw (listed, new, accepted cache new) (refl, tracked cache)
  ]

  -- When the cluster's server is in the database and its resources can be collected, an agent that
  -- does not run connects, as a new cluster or not, whatever the cache holds: it is then RUNNING, the
  -- cluster counts as starting with that time as its heartbeat, and the agent's next heartbeat is
  -- accepted.
  pub try_connect_succeeds :
      (is_new : Bool) (a : Agent) (cache : Cache) (later : ℕ)
      → server_exists c db ≡ true
      → is_running a.state ≡ false
      → let (settled, (a', cache')) =
          try_connect (monitor now db c) usable (collected xs) url is_new (a, cache) in
        (settled ≡ true)
        × (a'.state ≡ running)
        × (get_cluster_status c cache' ≡ some entry)
        × ((send_heartbeat (monitor later db c) url later cache').0 ≡ none)
  unfolding try_connect after_connecting handle_heartbeat heartbeat_for
  try_connect_succeeds is_new a cache later listed idle =
      let (accepts, there) = announced is_new cache listed in
      rw (idle, accepts, there) (refl, refl, refl, refl)

  -- When the cluster's server is in the database and its resources can be collected, an attempt to
  -- restart an agent with a client succeeds, whatever the cache holds: the agent is then RUNNING
  -- with no attempt ahead, the cluster counts as starting with that time as its heartbeat, and the
  -- agent's next heartbeat is accepted.
  pub restart_attempt_succeeds :
      (a : Agent) (cache : Cache) (later : ℕ)
      → server_exists c db ≡ true
      → a.client ≡ some url
      → let (a', cache') = restart_attempt (monitor now db c) usable (collected xs) (a, cache) in
        (a'.state ≡ running)
        × (a'.restart ≡ none)
        × (get_cluster_status c cache' ≡ some entry)
        × ((send_heartbeat (monitor later db c) url later cache').0 ≡ none)
  unfolding restart_attempt after_restart handle_heartbeat heartbeat_for
  restart_attempt_succeeds a cache later listed e =
      let (accepts, there) = announced false cache listed in
      let sent = ap (λ client. send_with (monitor now db c) usable (collected xs) client cache) e in
      rw (sent, accepts, there) (refl, refl, refl, refl)

  -- When the server is not in the database, an agent that does not run gives up: it is STOPPED
  -- and the URL is forgotten, the attempt counts as settled, and the cache is untouched.
  pub try_connect_gives_up :
      (is_new : Bool) (a : Agent) (cache : Cache)
      → server_exists c db ≡ false
      → is_running a.state ≡ false
      → let (settled, (a', cache')) =
          try_connect (monitor now db c) usable (collected xs) url is_new (a, cache) in
        (settled ≡ true) × (a'.state ≡ stopped) × (a'.url_file ≡ none) × (cache' ≡ cache)
  unfolding try_connect after_connecting register_own_cluster send_all_resources replace_on_conflict
      register_if_unknown post_cluster put_resources
  try_connect_gives_up true a cache unlisted idle = rw (idle, unlisted) (refl, refl, refl, refl)
  try_connect_gives_up false a cache unlisted idle = rw (idle, unlisted) (refl, refl, refl, refl)
