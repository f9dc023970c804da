-- ===== src/Cache/Tests.antt =====
-- Lookups in a small cache, and the theorems about them at inputs that meet them.
use chutes_miner.Prelude.{[], arith, false, find?, none, refl, some, ℕ, ◌∷◌, ◌≡◌}
use chutes_miner.Schema.{Key}
use chutes_miner.Cache.{
  Cache, ClusterStatus, Kind, Resource, active, ambiguous, clear_cluster_resources, get_resource,
  get_resource_cluster, hset, node, pod, set_cluster_resources, store_all, update_resource,
}
use chutes_miner.Cache.Resources.{
  get_resource-set, get_resource-set_ne, get_resource-update, is_field,
}

abbrev item : (cluster : Key) → Kind → (name object : Key) → Resource
item c k n o = record { cluster = c; kind = k; namespace = 30; name = n; object = o }

abbrev status_at : (t : ℕ) → ClusterStatus
status_at t = record {
  state = active;
  last_heartbeat = some t;
  error_message = none;
  heartbeat_failures = 0;
}

-- Cluster 1 reported at 100, cluster 2 at 990.
abbrev pub two_clusters : Cache
two_clusters = record {
  health =
      record { cluster_name = 1; status = status_at 100 }
      ∷ record { cluster_name = 2; status = status_at 990 }
      ∷ [];
  resources = item 1 pod 41 71 ∷ item 1 node 42 72 ∷ item 2 pod 43 73 ∷ [];
  published = [];
}

program : Unit {0}
unfolding set_cluster_resources clear_cluster_resources store_all hset get_resource_cluster
program = tt

keeps_node :
    get_resource 1 node 30 42 (set_cluster_resources 1 (item 1 pod 44 74 ∷ []) two_clusters)
    ≡ some (item 1 node 42 72)
unfolding program
keeps_node = refl

found_twice :
    get_resource_cluster pod 30 41
      (record two_clusters { resources = item 1 pod 41 71 ∷ item 2 pod 41 71 ∷ [] })
    ≡ ambiguous
unfolding program
found_twice = refl

get_resource-update_example :
    get_resource 1 pod 30 41 (update_resource (item 1 pod 41 75) false two_clusters)
    ≡ some (item 1 pod 41 75)
get_resource-update_example = get_resource-update 1 pod 30 41 (item 1 pod 41 75) false two_clusters

get_resource-set_example :
    get_resource 1 pod 30 41 (set_cluster_resources 1 (item 1 pod 44 74 ∷ []) two_clusters)
    ≡ find? (is_field 1 pod 30 41) (store_all 1 (item 1 pod 44 74 ∷ []) [])
get_resource-set_example = get_resource-set 1 pod 30 41 (item 1 pod 44 74 ∷ []) two_clusters refl

leaves_other_cluster :
    get_resource 2 pod 30 43 (set_cluster_resources 1 (item 1 pod 44 74 ∷ []) two_clusters)
    ≡ some (item 2 pod 43 73)
leaves_other_cluster =
    get_resource-set_ne 2 pod 30 43 1 (item 1 pod 44 74 ∷ []) two_clusters (λ e. ground arith)
