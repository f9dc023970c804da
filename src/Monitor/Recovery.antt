-- ===== src/Monitor/Recovery.antt =====
-- How an unhealthy cluster comes back.
use chutes_miner.Prelude.{
  Bool-cases, List, Option, arith, contains, find?, inl, inr, refl, some, true, ℕ, ◌==◌, ◌≡◌, ◌≢◌,
}
use chutes_miner.Schema.{Key}
use chutes_miner.Db.{Db}
use chutes_miner.Cache.{
  Cache, ClusterState, Message, Resource, clear_cluster_resources, cluster_added,
  get_all_cluster_names, get_cluster_status, publish, reconnected, set_cluster_resources,
  set_status, starting_status, track_cluster, update_cluster_status, update_resource,
}
use chutes_miner.Monitor.{
  check_all_clusters, cleanup_stale_clusters, delete_cluster, expected_names,
  reconcile_cache_with_db, register_cluster, replace_cluster_resources,
}
use chutes_miner.Monitor.Router.{
  delete_cluster_request, handle_heartbeat, heartbeat_for, patch_resources, post_cluster,
  put_resources, server_exists, success,
}
use chutes_miner.Monitor.Freshness.{find-set_status}
use chutes_miner.Monitor.Steps.{
  IsDown, Step, Steps, check, check_each-IsDown, cleanup, cleanup_each-IsDown, clear_cluster-IsDown,
  clear_unexpected-IsDown, heartbeat, heartbeat_for-IsDown, next, registration, removal, report,
  resync, status-IsDown, stay, sync,
}

module _ (c : Key) where
  -- Setting another cluster's resources writes its status only.
  set_other-IsDown :
      (now : ℕ) (d : Key) (xs : List Resource) (m : Message) (cache : Cache)
      → d ≢ c
      → IsDown c cache
      → IsDown c (
          publish m
            (set_cluster_resources d xs (update_cluster_status d (starting_status now) cache)))
  unfolding set_cluster_resources clear_cluster_resources
  set_other-IsDown now d xs m cache ne down =
      status-IsDown c d (starting_status now) cache (inl (ground arith)) down

  post_cluster-IsDown :
      (now : ℕ) (db : Db) (d : Key) (xs : List Resource) (cache : Cache)
      → d ≢ c
      → IsDown c cache
      → IsDown c (post_cluster now db d xs cache).1
  unfolding post_cluster register_cluster track_cluster
  post_cluster-IsDown now db d xs cache ne down = elim (Bool-cases (server_exists d db)) [
    | inr unlisted ↦ rw unlisted down
    | inl listed ↦ elim (Bool-cases (contains d (get_all_cluster_names cache))) [
      | inl known ↦ rw (listed, known) down
      | inr new ↦ rw (listed, new) (set_other-IsDown now d xs (cluster_added d) cache ne down)
    ]
  ]

  put_resources-IsDown :
      (now : ℕ) (db : Db) (d : Key) (xs : List Resource) (cache : Cache)
      → d ≢ c
      → IsDown c cache
      → IsDown c (put_resources now db d xs cache).1
  unfolding put_resources replace_cluster_resources
  put_resources-IsDown now db d xs cache ne down = elim (Bool-cases (server_exists d db)) [
    | inr unlisted ↦ rw unlisted down
    | inl listed ↦ elim (Bool-cases (contains d (get_all_cluster_names cache))) [
      | inr new ↦ rw (listed, new) down
      | inl known ↦ rw (listed, known) (set_other-IsDown now d xs (reconnected d) cache ne down)
    ]
  ]

  Step-IsDown : (x y : Cache) → Step c x y → IsDown c x → IsDown c y
  unfolding handle_heartbeat patch_resources update_resource delete_cluster_request delete_cluster
      check_all_clusters cleanup_stale_clusters reconcile_cache_with_db
  Step-IsDown _ _ (heartbeat d state t cache) down =
      heartbeat_for-IsDown c d state t (get_cluster_status d cache) cache refl down
  Step-IsDown _ _ (report d x is_deleted cache) down = down
  Step-IsDown _ _ (registration now db d xs cache ne) down =
      post_cluster-IsDown now db d xs cache ne down
  Step-IsDown _ _ (resync now db d xs cache ne) down =
      put_resources-IsDown now db d xs cache ne down
  Step-IsDown _ _ (removal d cache) down = clear_cluster-IsDown c d cache down
  Step-IsDown _ _ (check now interval reason cache) down =
      check_each-IsDown c now interval reason cache.health cache down
  Step-IsDown _ _ (cleanup now reason cache) down =
      cleanup_each-IsDown c now reason cache.health cache down
  Step-IsDown _ _ (sync db cache) down =
      clear_unexpected-IsDown c (expected_names db) (get_all_cluster_names cache) cache down

  -- A cluster that is unhealthy, or not in the cache, stays so under heartbeats, single reports,
  -- requests of other clusters and all rounds of the monitor, in any order and number: only its own
  -- registration or report of all its resources can bring it back.
  pub Steps-IsDown : (x y : Cache) → Steps c x y → IsDown c x → IsDown c y
  Steps-IsDown _ _ (stay cache) down = down
  Steps-IsDown _ _ (next x y z steps step) down = Step-IsDown y z step (Steps-IsDown x y steps down)

  -- When the cluster is in the cache and its server in the database, its report of all resources is
  -- accepted, it then counts as starting, with a heartbeat of that time, and its next heartbeat
  -- is accepted, whatever its health was.
  pub put_resources_restores :
      (now : ℕ) (db : Db) (xs : List Resource) (cache : Cache) (state : ClusterState) (t : Option ℕ)
      → server_exists c db ≡ true
      → contains c (get_all_cluster_names cache) ≡ true
      → let m = put_resources now db c xs cache in
        (m.0 ≡ success)
        × (get_cluster_status c m.1
            ≡ some (record { cluster_name = c; status = starting_status now }))
        × ((handle_heartbeat c state t m.1).0 ≡ success)
  unfolding put_resources replace_cluster_resources set_cluster_resources clear_cluster_resources
      update_cluster_status handle_heartbeat heartbeat_for
  put_resources_restores now db xs cache state t listed known =
      let found : find? (λ h. h.cluster_name == c) (set_status c (starting_status now) cache.health)
          ≡ some (record { cluster_name = c; status = starting_status now }) =
        ground (arith, find-set_status c c (starting_status now) cache.health) in
      rw (listed, known, found) (refl, refl, refl)
