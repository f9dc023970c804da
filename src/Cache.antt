-- ===== src/Cache.antt =====
-- The cache that the monitor, the agents' reports and the miner share: MonitoringRedisClient of
-- src/chutes-common/chutes_common/redis.py, with the models of
-- src/chutes-common/chutes_common/monitoring/models.py.
--
-- A hash `clusters:{name}:health` is an entry of `health`; a field of a hash
-- `clusters:{name}:resources:{type}` is an entry of `resources`. The commands hset, hdel, hgetall,
-- keys and delete are read as Redis documents them: hset replaces a field or adds it.
pub mod Resources
pub mod Tests
use chutes_miner.Prelude.{
  Bool, List, Option, [], count, false, filter, find?, if◌then◌else◌, is_some, map, none, not, some,
  true, ℕ, ◌&&◌, ◌==◌, ◌||◌, ◌∷◌,
}
use chutes_miner.Schema.{Key}

-- ResourceType, but for ALL, which is the pattern `*`.
pub data Kind : Type 0 where
  node deployments service pod job : Kind

abbrev pub same_kind : Kind → Kind → Bool
same_kind node node = true
same_kind deployments deployments = true
same_kind service service = true
same_kind pod pod = true
same_kind job job = true
same_kind _ _ = false

pub data ClusterState : Type 0 where
  inactive starting active error unhealthy : ClusterState

-- ClusterStatus, but for its name, which is its key.
pub record ClusterStatus : Type 0 where
  pub state : ClusterState
  pub last_heartbeat : Option ℕ
  pub error_message : Option Key
  pub heartbeat_failures : ℕ

-- ClusterStatus.is_healthy
abbrev pub is_healthy : ClusterState → Bool
is_healthy active = true
is_healthy starting = true
is_healthy _ = false

-- A resource of a cluster: the field's namespace and name, and the serialized object.
pub record Resource : Type 0 where
  pub cluster : Key
  pub kind : Kind
  pub namespace : Key
  pub name : Key
  pub object : Key

pub record Health : Type 0 where
  pub cluster_name : Key
  pub status : ClusterStatus

-- What is published: a change of a cluster or of a resource, or a reconnect.
pub data Message : Type 0 where
  cluster_added cluster_deleted reconnected : (cluster : Key) → Message
  resource_changed : Resource → (deleted : Bool) → Message

-- `published` has the last message first.
pub record Cache : Type 0 where
  pub health : List Health
  pub resources : List Resource
  pub published : List Message

abbrev pub publish : Message → Cache → Cache
publish m cache = record cache { published = m ∷ cache.published }

-- The same field of the same hash.
abbrev pub same_field : Resource → Resource → Bool
same_field x y =
    (x.cluster == y.cluster)
    && (same_kind x.kind y.kind && ((x.namespace == y.namespace) && (x.name == y.name)))

-- hset of one field, and hdel of it.
unfoldable pub hset : Resource → List Resource → List Resource
hset x [] = x ∷ []
hset x (y ∷ ys) = let rest = hset x ys in if same_field x y then x ∷ ys else y ∷ rest

unfoldable pub hdel : Resource → List Resource → List Resource
hdel x = filter (λ y. not (same_field x y))

-- update_cluster_status: the hash's fields are all written.
unfoldable pub set_status : Key → ClusterStatus → List Health → List Health
set_status c status [] = record { cluster_name = c; status = status } ∷ []
set_status c status (h ∷ hs) =
    let rest = set_status c status hs in
    if h.cluster_name == c then record { cluster_name = c; status = status } ∷ hs else h ∷ rest

unfoldable pub update_cluster_status : Key → ClusterStatus → Cache → Cache
update_cluster_status c status cache = record cache { health = set_status c status cache.health }

-- get_cluster_status
abbrev pub get_cluster_status : Key → Cache → Option Health
get_cluster_status c cache = find? (λ h. h.cluster_name == c) cache.health

-- get_all_cluster_names
abbrev pub get_all_cluster_names : Cache → List Key
get_all_cluster_names cache = map (λ (h : Health). h.cluster_name) cache.health

abbrev pub is_cleared : Key → (clear_nodes : Bool) → Resource → Bool
is_cleared c clear_nodes x = (x.cluster == c) && (clear_nodes || not (same_kind x.kind node))

-- clear_cluster_resources: the loop over the types skips ALL, and NODE unless nodes are cleared too.
unfoldable pub clear_cluster_resources : Key → (clear_nodes : Bool) → Cache → Cache
clear_cluster_resources c clear_nodes cache = record cache {
  resources = filter (λ x. not (is_cleared c clear_nodes x)) cache.resources;
}

-- The stores of set_cluster_resources, one field after another.
unfoldable pub store_all : Key → List Resource → List Resource → List Resource
store_all c [] stored = stored
store_all c (x ∷ xs) stored = store_all c xs (hset (record x { cluster = c }) stored)

-- set_cluster_resources
unfoldable pub set_cluster_resources : Key → List Resource → Cache → Cache
set_cluster_resources c xs cache =
    let cleared = clear_cluster_resources c false cache in
    record cleared { resources = store_all c xs cleared.resources }

-- The status of a cluster that has just reported.
abbrev pub starting_status : (now : ℕ) → ClusterStatus
starting_status now = record {
  state = starting;
  last_heartbeat = some now;
  error_message = none;
  heartbeat_failures = 0;
}

-- track_cluster
unfoldable pub track_cluster : (now : ℕ) → Key → List Resource → Cache → Cache
track_cluster now c xs cache =
    publish (cluster_added c)
      (set_cluster_resources c xs (update_cluster_status c (starting_status now) cache))

-- clear_cluster
unfoldable pub clear_cluster : Key → Cache → Cache
clear_cluster c cache =
    let cleared = clear_cluster_resources c true cache in
    publish (cluster_deleted c)
      (record cleared { health = filter (λ h. not (h.cluster_name == c)) cleared.health })

-- update_resource, for a watch event of a cluster.
unfoldable pub update_resource : Resource → (is_deleted : Bool) → Cache → Cache
update_resource x is_deleted cache = publish (resource_changed x is_deleted) (record cache {
  resources = if is_deleted then hdel x cache.resources else hset x cache.resources;
})

-- get_resources for one cluster, type, name and namespace: what the hash holds in the field.
abbrev pub get_resource : (cluster : Key) → Kind → (namespace name : Key) → Cache → Option Resource
get_resource c k namespace name cache =
    find?
      (λ x.
        (x.cluster == c)
        && (same_kind x.kind k && ((x.namespace == namespace) && (x.name == name))))
      cache.resources

-- The list of clusters in get_resource_cluster.
abbrev pub clusters_with : Kind → (namespace name : Key) → Cache → List Key
clusters_with k namespace name cache =
    map (λ (x : Resource). x.cluster)
      (filter (λ x. same_kind x.kind k && ((x.name == name) && (x.namespace == namespace)))
        cache.resources)

-- What get_resource_cluster answers: more than one cluster is a ValueError.
pub data Located : Type 0 where
  unknown ambiguous : Located
  located : (cluster : Key) → Located

abbrev pub located_in : List Key → Located
located_in [] = unknown
located_in (c ∷ []) = located c
located_in (c ∷ d ∷ cs) = ambiguous

unfoldable pub get_resource_cluster : Kind → (namespace name : Key) → Cache → Located
get_resource_cluster k namespace name cache = located_in (clusters_with k namespace name cache)

-- mark_cluster_unhealthy of the client: the heartbeat of a known cluster is kept.
abbrev pub marked : (now : ℕ) → (reason : Key) → Option Health → ClusterStatus
marked now reason none = record {
  state = unhealthy;
  last_heartbeat = some now;
  error_message = some reason;
  heartbeat_failures = 0;
}
marked now reason (some h) = record {
  state = unhealthy;
  last_heartbeat = if is_some h.status.last_heartbeat then h.status.last_heartbeat else some now;
  error_message = some reason;
  heartbeat_failures = h.status.heartbeat_failures;
}

unfoldable pub mark_cluster_unhealthy : (now : ℕ) → (reason : Key) → Key → Cache → Cache
mark_cluster_unhealthy now reason c cache =
    update_cluster_status c (marked now reason (get_cluster_status c cache)) cache

-- get_resource_counts, for one type.
abbrev pub get_resource_count : Key → Kind → Cache → ℕ
get_resource_count c k cache = count (λ x. (x.cluster == c) && same_kind x.kind k) cache.resources
