-- ===== src/Monitor.antt =====
-- The monitor of the clusters: HealthChecker, MonitoringReconciler and ClusterMonitor of
-- src/chutes-monitor/chutes_monitor/cluster_monitor.py.
--
-- The timestamps in the cache are ones that can be parsed. One round of a loop runs without other
-- tasks in between.
pub mod Router
pub mod Freshness
pub mod Steps
pub mod Recovery
pub mod Sync
pub mod Tests
use chutes_miner.Prelude.{
  Bool, List, Option, [], contains, false, filter, if◌then◌else◌, is_some, leb, ltb, map, none, not,
  some, true, ℕ, ◌&&◌, ◌*◌, ◌+◌, ◌==◌, ◌∷◌,
}
use chutes_miner.Schema.{Key, Server}
use chutes_miner.Db.{Db}
use chutes_miner.Cache.{
  Cache, ClusterState, ClusterStatus, Health, Resource, active, clear_cluster, error,
  get_all_cluster_names, get_cluster_status, inactive, is_healthy, publish, reconnected,
  set_cluster_resources, starting, starting_status, track_cluster, unhealthy, update_cluster_status,
}

-- What is wrong with a cluster's heartbeat.
pub data Verdict : Type 0 where
  well no_timestamp stale : Verdict

-- The tests of HealthChecker._check_cluster_health, with a timeout of two intervals.
unfoldable pub heartbeat_verdict : (now interval : ℕ) → Option ℕ → Verdict
heartbeat_verdict now interval none = no_timestamp
heartbeat_verdict now interval (some t) = if ltb (t + interval * 2) now then stale else well

-- HealthChecker._mark_cluster_unhealthy: only a healthy cluster is written. `reason` stands for the
-- text of the message.
abbrev pub unhealthy_status : (reason : Key) → ClusterStatus → ClusterStatus
unhealthy_status reason status = record {
  state = unhealthy;
  last_heartbeat = status.last_heartbeat;
  error_message = some reason;
  heartbeat_failures = 0;
}

unfoldable pub mark_unhealthy : (reason : Key) → Health → Cache → Cache
mark_unhealthy reason h cache =
    if is_healthy h.status.state
    then update_cluster_status h.cluster_name (unhealthy_status reason h.status) cache
    else cache

-- What _check_cluster_health does on its verdict.
unfoldable pub act_on : (reason : Verdict → Key) → Verdict → Health → Cache → Cache
act_on reason well h cache = cache
act_on reason no_timestamp h cache = mark_unhealthy (reason no_timestamp) h cache
act_on reason stale h cache = mark_unhealthy (reason stale) h cache

-- HealthChecker._check_cluster_health
unfoldable pub check_cluster_health :
    (now interval : ℕ) → (reason : Verdict → Key) → Health → Cache → Cache
check_cluster_health now interval reason h cache =
    act_on reason (heartbeat_verdict now interval h.status.last_heartbeat) h cache

-- HealthChecker._check_all_clusters, over the statuses that were read at its start.
pub check_each : (now interval : ℕ) → (reason : Verdict → Key) → List Health → Cache → Cache
check_each now interval reason [] cache = cache
check_each now interval reason (h ∷ hs) cache =
    check_each now interval reason hs (check_cluster_health now interval reason h cache)

unfoldable pub check_all_clusters : (now interval : ℕ) → (reason : Verdict → Key) → Cache → Cache
check_all_clusters now interval reason cache = check_each now interval reason cache.health cache

-- One hour.
abbrev pub cutoff_age : ℕ
cutoff_age = 3600

abbrev pub is_error : ClusterState → Bool
is_error error = true
is_error _ = false

-- The test of HealthChecker._cleanup_stale_clusters. A cluster without a heartbeat raises there, and
-- is left alone.
abbrev pub is_offline : (now : ℕ) → ClusterStatus → Bool
is_offline now status = elim status.last_heartbeat [
  | none ↦ false
  | some t ↦ ltb (t + cutoff_age) now && not (is_error status.state)
]

abbrev pub offline_status : (reason : Key) → ClusterStatus → ClusterStatus
offline_status reason status = record {
  state = error;
  last_heartbeat = status.last_heartbeat;
  error_message = some reason;
  heartbeat_failures = 0;
}

-- HealthChecker._cleanup_stale_clusters
pub cleanup_each : (now : ℕ) → (reason : Key) → List Health → Cache → Cache
cleanup_each now reason [] cache = cache
cleanup_each now reason (h ∷ hs) cache = cleanup_each now reason hs (
    if is_offline now h.status
    then update_cluster_status h.cluster_name (offline_status reason h.status) cache
    else cache)

unfoldable pub cleanup_stale_clusters : (now : ℕ) → (reason : Key) → Cache → Cache
cleanup_stale_clusters now reason cache = cleanup_each now reason cache.health cache

-- The names of the servers with an agent.
abbrev pub expected_names : Db → List Key
expected_names db = map (λ (s : Server). s.name) (filter (λ s. is_some s.agent_api) db.servers)

-- MonitoringReconciler._reconcile_cache_with_db
pub clear_unexpected : List Key → List Key → Cache → Cache
clear_unexpected expected [] cache = cache
clear_unexpected expected (c ∷ cs) cache =
    clear_unexpected expected cs (if contains c expected then cache else clear_cluster c cache)

unfoldable pub reconcile_cache_with_db : Db → Cache → Cache
reconcile_cache_with_db db cache =
    clear_unexpected (expected_names db) (get_all_cluster_names cache) cache

-- `status is None or status.state == UNHEALTHY or status.state == ERROR`
abbrev pub needs_reinitiate : Option Health → Bool
needs_reinitiate none = true
needs_reinitiate (some h) = elim h.status.state [
  | inactive ↦ false
  | starting ↦ false
  | active ↦ false
  | error ↦ true
  | unhealthy ↦ true
]

-- MonitoringReconciler._restore_unhealthy_clusters, where `last` is _reinitiate_last_attempt. It
-- yields the servers whose agents are asked to start again, in order.
pub restore_each :
    (now throttle : ℕ) → Cache → List Server → (last : Key → ℕ) → List Key × (Key → ℕ)
restore_each now throttle cache [] last = ([], last)
restore_each now throttle cache (server ∷ servers) last =
    let (asked, last') =
      restore_each now throttle cache servers (λ c. if c == server.name then now else last c) in
    let skipped = restore_each now throttle cache servers last in
    if needs_reinitiate (get_cluster_status server.name cache)
      && leb (last server.name + throttle) now
    then (server.server_id ∷ asked, last')
    else skipped

unfoldable pub restore_unhealthy_clusters :
    (now throttle : ℕ) → Db → Cache → (last : Key → ℕ) → List Key × (Key → ℕ)
restore_unhealthy_clusters now throttle db cache last =
    restore_each now throttle cache (filter (λ s. is_some s.agent_api) db.servers) last

-- ClusterConflictException and ClusterNotFoundException.
pub data ClusterFault : Type 0 where
  conflict not_found : ClusterFault

pub data Reply : Type 0 where
  done : Reply
  fault : ClusterFault → Reply

-- ClusterMonitor.register_cluster
unfoldable pub register_cluster : (now : ℕ) → Key → List Resource → Cache → Reply × Cache
register_cluster now c xs cache =
    if contains c (get_all_cluster_names cache)
    then (fault conflict, cache)
    else (done, track_cluster now c xs cache)

-- ClusterMonitor.delete_cluster
unfoldable pub delete_cluster : Key → Cache → Reply × Cache
delete_cluster c cache = (done, clear_cluster c cache)

-- ClusterMonitor.set_cluster_resources
unfoldable pub replace_cluster_resources : (now : ℕ) → Key → List Resource → Cache → Reply × Cache
replace_cluster_resources now c xs cache =
    if contains c (get_all_cluster_names cache)
    then (
      done,
      publish (reconnected c)
          (set_cluster_resources c xs (update_cluster_status c (starting_status now) cache)),
    )
    else (fault not_found, cache)
