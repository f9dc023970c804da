-- ===== src/Monitor/Router.antt =====
-- The endpoints that the agents report to: ClusterRouter of
-- src/chutes-monitor/chutes_monitor/api/cluster/router.py. The cache does not fail, so the responses
-- with code 500 do not occur. Authorization happens before.
use chutes_miner.Prelude.{Bool, List, Option, any, if◌then◌else◌, none, some, ℕ, ◌==◌}
use chutes_miner.Schema.{Key, Server}
use chutes_miner.Db.{Db}
use chutes_miner.Cache.{
  Cache, ClusterState, Health, Resource, get_cluster_status, is_healthy, update_cluster_status,
  update_resource,
}
use chutes_miner.Monitor.{
  Reply, conflict, delete_cluster, done, fault, not_found, register_cluster,
  replace_cluster_resources,
}

-- The response: success, or an HTTP error with its code.
pub data Response : Type 0 where
  success : Response
  http_error : (code : ℕ) → Response

-- ClusterRouter._server_exists
abbrev pub server_exists : Key → Db → Bool
server_exists c db = any (λ (s : Server). s.name == c) db.servers

-- The HTTPException for a fault of ClusterMonitor: 409 Conflict, or 410 Gone.
abbrev pub respond : Reply → Response
respond done = success
respond (fault conflict) = http_error 409
respond (fault not_found) = http_error 410

-- ClusterRouter.register_cluster
unfoldable pub post_cluster : (now : ℕ) → Db → Key → List Resource → Cache → Response × Cache
post_cluster now db c xs cache =
    if server_exists c db
    then (let (reply, cache') = register_cluster now c xs cache in (respond reply, cache'))
    else (http_error 404, cache)

-- ClusterRouter.unregister_cluster
unfoldable pub delete_cluster_request : Key → Cache → Response × Cache
delete_cluster_request c cache =
    let (reply, cache') = delete_cluster c cache in (respond reply, cache')

-- ClusterRouter.set_cluster_resources
unfoldable pub put_resources : (now : ℕ) → Db → Key → List Resource → Cache → Response × Cache
put_resources now db c xs cache =
    if server_exists c db
    then (let (reply, cache') = replace_cluster_resources now c xs cache in (respond reply, cache'))
    else (http_error 404, cache)

-- ClusterRouter.update_resource
unfoldable pub patch_resources : Key → Resource → (is_deleted : Bool) → Cache → Response × Cache
patch_resources c x is_deleted cache =
    (success, update_resource (record x { cluster = c }) is_deleted cache)

-- ClusterRouter.handle_heartbeat on the status in the cache.
unfoldable pub heartbeat_for :
    Key → ClusterState → (timestamp : Option ℕ) → Option Health → Cache → Response × Cache
heartbeat_for c state timestamp none cache = (http_error 404, cache)
heartbeat_for c state timestamp (some h) cache =
    if is_healthy h.status.state
    then (
      success,
      update_cluster_status c
          (record {
            state = state;
            last_heartbeat = timestamp;
            error_message = none;
            heartbeat_failures = 0;
          })
          cache,
    )
    else (http_error 409, cache)

-- ClusterRouter.handle_heartbeat
unfoldable pub handle_heartbeat :
    Key → ClusterState → (timestamp : Option ℕ) → Cache → Response × Cache
handle_heartbeat c state timestamp cache =
    heartbeat_for c state timestamp (get_cluster_status c cache) cache
