-- ===== src/Preflight.antt =====
-- Whether a deployment may be deleted: delete_preflight of MultiClusterK8sOperator, with
-- _is_resource_stale and _get_deployment_server, of
-- src/chutes-miner/chutes_miner/api/k8s/operator.py, over the cache of the clusters.
pub mod Allowed
pub mod Tests
use mathlib.Core.Option
use chutes_miner.Prelude.{Bool, Option, false, if◌then◌else◌, map, none, not, some, true, ℕ, ◌==◌}
use chutes_miner.Schema.{Key, Server}
use chutes_miner.Db.{Db, find_deployment, find_server}
use chutes_miner.Action.{Raised, raise, return}
use chutes_miner.Cache.{
  Cache, Located, Resource, ambiguous, get_cluster_status, get_resource, get_resource_cluster,
  is_healthy, job, located, mark_cluster_unhealthy, unknown,
}

-- What reading the live job comes to: nothing, a job with its resource version, an ApiException, or
-- another exception.
pub data LiveRead : Type 0 where
  no_job : LiveRead
  live_job : (version : Option Key) → LiveRead
  read_status : ℕ → LiveRead
  read_error : LiveRead

-- MultiClusterK8sOperator._get_deployment_server: the name of the server of the deployment's row.
abbrev pub deployment_server : Key → Db → Option Key
deployment_server d db = elim (find_deployment d db) [
  | none ↦ none
  | some row ↦ Option.map (λ (x : Server). x.name) (find_server row.server_id db)
]

-- MultiClusterK8sOperator._cluster_is_healthy
abbrev pub cluster_is_healthy : Key → Cache → Bool
cluster_is_healthy cluster cache = elim (get_cluster_status cluster cache) [
  | none ↦ false
  | some h ↦ is_healthy h.status.state
]

-- The comparison of _is_resource_stale with the live job.
abbrev pub is_contradicted : (cached : Key) → LiveRead → Bool
is_contradicted cached no_job = false
is_contradicted cached (live_job none) = false
is_contradicted cached (live_job (some version)) = not (version == cached)
is_contradicted cached (read_status status) = not (status == 404)
is_contradicted cached read_error = true

-- The namespace of the settings, the name of a deployment's job, the version in a cached object, and
-- the text of a reason stand for what only names things.
pub record Names : Type 0 where
  pub namespace : Key
  pub job_name : (deployment_id : Key) → Key
  pub version_of : Resource → Option Key
  pub reason : Key

module _ (names : Names) (now : ℕ) where
  -- MultiClusterK8sOperator._is_resource_stale on the version in the cache; a stale resource marks its
  -- cluster.
  unfoldable pub is_resource_stale : (cluster : Key) → Option Key → LiveRead → Cache → Bool × Cache
  is_resource_stale cluster none live cache = (false, cache)
  is_resource_stale cluster (some cached) live cache =
      if is_contradicted cached live
      then (true, mark_cluster_unhealthy now names.reason cluster cache)
      else (false, cache)

  -- The last test of delete_preflight, on the cached job.
  unfoldable pub check_cached : (server : Key) → Option Resource → LiveRead → Cache → Bool × Cache
  check_cached server none live cache = (true, cache)
  check_cached server (some cached_job) live cache =
      let (is_stale, cache') = is_resource_stale server (names.version_of cached_job) live cache in
      (not is_stale, cache')

  -- The tests of delete_preflight, on the cluster that has the job.
  unfoldable pub check_location :
      (d server : Key) → Located → LiveRead → Cache → Raised Bool × Cache
  check_location d server ambiguous live cache = (raise, cache)
  check_location d server unknown live cache = (return (cluster_is_healthy server cache), cache)
  check_location d server (located context) live cache =
      if not (context == server)
      then (return false, cache)
      else if not (cluster_is_healthy server cache)
      then (return false, cache)
      else (let (allowed, cache') =
            check_cached server (get_resource context job names.namespace (names.job_name d) cache)
              live cache in
          (return allowed, cache'))

  -- delete_preflight on the server that was found.
  unfoldable pub preflight_on : Key → LiveRead → (server : Option Key) → Cache → Raised Bool × Cache
  preflight_on d live none cache = (return true, cache)
  preflight_on d live (some server) cache =
      check_location d server (get_resource_cluster job names.namespace (names.job_name d) cache)
        live cache

  -- MultiClusterK8sOperator.delete_preflight, where `live` is what the read of the job would come to.
  unfoldable pub delete_preflight : Key → LiveRead → Db → Cache → Raised Bool × Cache
  delete_preflight d live db cache = preflight_on d live (deployment_server d db) cache
