-- ===== src/ConfigMaps.antt =====
-- How the chutes' code is kept on the clusters: ConfigMapWorker of
-- src/chutes-miner/chutes_miner/api/k8s/operator.py, but for its queue and its thread. Each cluster's
-- API server is a record of functions on a state of its own.
pub mod Syncing
pub mod Tests
use chutes_miner.Prelude.{
  Bool, List, Option, [], false, if◌then◌else◌, none, some, true, ℕ, ◌==◌, ◌∷◌,
}
use chutes_miner.Schema.{Key}
use chutes_miner.Action.{Raised, raise, return}

-- A config map: its name, which is made from a chute's id and version, and its text.
pub record ConfigMap : Type 0 where
  pub name : Key
  pub code : Key

-- What comes of a request: it is done, an ApiException with a status, no connection (MaxRetryError or
-- ConnectionTimeoutError), or another exception.
pub data Outcome : Type 0 where
  completed : Outcome
  api_status : ℕ → Outcome
  no_connection other_failure : Outcome

-- `verify` is _verify_node_health: false where it raises the status 503. `list_code` is none where it
-- raises.
pub record CoreApi (W : Type 0) : Type 0 where
  pub verify : (cluster : Key) → W → Bool
  pub list_code : (cluster : Key) → W → Option (List Key)
  pub create : (cluster : Key) → ConfigMap → W → Outcome × W
  pub delete : (cluster name : Key) → W → Outcome × W

module _ {W : Type 0} (api : CoreApi W) (is_tee : Key → Bool) where
  -- The second request of a replacement; what is no ApiException leaves the function.
  abbrev pub replaced : Outcome × W → Raised Bool × W
  replaced (completed, w) = (return true, w)
  replaced (api_status status, w) = (return false, w)
  replaced (no_connection, w) = (raise, w)
  replaced (other_failure, w) = (raise, w)

  -- The replacement of a config map that exists, after the deletion.
  abbrev pub after_removal : (cluster : Key) → ConfigMap → Outcome × W → Raised Bool × W
  after_removal cluster cm (completed, w) = replaced (api.create cluster cm w)
  after_removal cluster cm (api_status status, w) = (return false, w)
  after_removal cluster cm (no_connection, w) = (raise, w)
  after_removal cluster cm (other_failure, w) = (raise, w)

  -- What follows the first creation: whether it counts as a success.
  unfoldable pub after_create :
      (cluster : Key) → ConfigMap → (force : Bool) → Outcome × W → Raised Bool × W
  after_create cluster cm force (completed, w) = (return true, w)
  after_create cluster cm force (no_connection, w) = (return false, w)
  after_create cluster cm force (other_failure, w) = (return false, w)
  after_create cluster cm force (api_status status, w) =
      if status == 409
      then (if force
          then after_removal cluster cm (api.delete cluster cm.name w)
          else (return true, w))
      else (return false, w)

  -- ConfigMapWorker._deploy_config_map_to_cluster
  unfoldable pub deploy_config_map_to_cluster :
      (cluster : Key) → ConfigMap → (force : Bool) → W → Raised Bool × W
  deploy_config_map_to_cluster cluster cm force w =
      if is_tee cluster
      then (return true, w)
      else if api.verify cluster w
      then after_create cluster cm force (api.create cluster cm w)
      else (return false, w)

  -- ConfigMapWorker._deploy_config_map_to_all_clusters: the clusters that failed. An exception ends the
  -- loop.
  unfoldable pub deploy_config_map_to_all_clusters :
      (clusters : List Key) → ConfigMap → (force : Bool) → W → Raised (List Key) × W
  deploy_config_map_to_all_clusters [] cm force w = (return [], w)
  deploy_config_map_to_all_clusters (cluster ∷ clusters) cm force w =
      let (r, w') = deploy_config_map_to_cluster cluster cm force w in
      let (rs, w'') = deploy_config_map_to_all_clusters clusters cm force w' in
      elim r [
        | raise ↦ (raise, w')
        | return well ↦ (
          elim rs [
            | raise ↦ raise
            | return failed ↦ return (if well then failed else cluster ∷ failed)
          ],
          w'',
        )
      ]

  abbrev pub after_delete : Outcome × W → Raised (Unit {0}) × W
  after_delete (completed, w) = (return tt, w)
  after_delete (no_connection, w) = (return tt, w)
  after_delete (api_status status, w) = if status == 404 then (return tt, w) else (raise, w)
  after_delete (other_failure, w) = (raise, w)

  -- ConfigMapWorker._delete_config_map_from_cluster
  unfoldable pub delete_config_map_from_cluster : (cluster name : Key) → W → Raised (Unit {0}) × W
  delete_config_map_from_cluster cluster name w =
      if is_tee cluster then (return tt, w) else after_delete (api.delete cluster name w)

  -- The loops of _sync_cluster_configmaps; an exception ends both.
  abbrev pub go_on :
      (W → Raised (Unit {0}) × W) → {A : Type 0} → Raised A × W → Raised (Unit {0}) × W
  go_on again (return a, w) = again w
  go_on again (raise, w) = (raise, w)

  pub create_each : (cluster : Key) → List ConfigMap → W → Raised (Unit {0}) × W
  create_each cluster [] w = (return tt, w)
  create_each cluster (cm ∷ cms) w =
      go_on (create_each cluster cms) (deploy_config_map_to_cluster cluster cm false w)

  pub delete_each :
      (cluster : Key) → (names : List Key) → (cms : List ConfigMap) → W → Raised (Unit {0}) × W
  delete_each cluster [] cms w = create_each cluster cms w
  delete_each cluster (name ∷ names) cms w =
      go_on (delete_each cluster names cms) (delete_config_map_from_cluster cluster name w)

  -- ConfigMapWorker._sync_cluster_configmaps, on the config maps of the chutes in the table. Every
  -- exception ends it quietly.
  unfoldable pub sync_cluster_configmaps : (cluster : Key) → List ConfigMap → W → W
  sync_cluster_configmaps cluster cms w =
      if is_tee cluster then w else elim (api.list_code cluster w) [
        | none ↦ w
        | some names ↦ (delete_each cluster names cms w).1
      ]
