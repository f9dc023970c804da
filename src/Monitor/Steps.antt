-- ===== src/Monitor/Steps.antt =====
-- The requests of the agents and the rounds of the loops as steps on the cache, and what each does
-- to a cluster that is not healthy.
use mathlib.Core.Path.{subst}
use chutes_miner.Prelude.{
  Bool, Bool-cases, List, Option, [], arith, contains, false, inl, inr, none, refl, some, ℕ, ◌==◌,
  ◌∷◌, ◌≡◌, ◌≢◌, ◌⊎◌,
}
use chutes_miner.Schema.{Key}
use chutes_miner.Db.{Db}
use chutes_miner.Cache.{
  Cache, ClusterState, ClusterStatus, Health, Resource, clear_cluster, get_cluster_status,
  is_healthy, update_cluster_status,
}
use chutes_miner.Monitor.{
  Verdict, act_on, check_all_clusters, check_cluster_health, check_each, cleanup_each,
  cleanup_stale_clusters, clear_unexpected, heartbeat_verdict, is_offline, mark_unhealthy,
  no_timestamp, offline_status, reconcile_cache_with_db, stale, unhealthy_status, well,
}
use chutes_miner.Monitor.Router.{
  delete_cluster_request, handle_heartbeat, heartbeat_for, patch_resources, post_cluster,
  put_resources,
}
use chutes_miner.Monitor.Freshness.{find-set_status}
use chutes_miner.Monitor.Sync.{find-clear}

-- What may happen to the cache, but for a registration or a report of all resources by the cluster c.
pub data Step (c : Key) : Cache → Cache → Type 0 where
  heartbeat :
      (d : Key) (state : ClusterState) (t : Option ℕ) (cache : Cache)
      → Step c cache (handle_heartbeat d state t cache).1
  report :
      (d : Key) (x : Resource) (is_deleted : Bool) (cache : Cache)
      → Step c cache (patch_resources d x is_deleted cache).1
  registration :
      (now : ℕ) (db : Db) (d : Key) (xs : List Resource) (cache : Cache)
      → d ≢ c
      → Step c cache (post_cluster now db d xs cache).1
  resync :
      (now : ℕ) (db : Db) (d : Key) (xs : List Resource) (cache : Cache)
      → d ≢ c
      → Step c cache (put_resources now db d xs cache).1
  removal : (d : Key) (cache : Cache) → Step c cache (delete_cluster_request d cache).1
  check :
      (now interval : ℕ) (reason : Verdict → Key) (cache : Cache)
      → Step c cache (check_all_clusters now interval reason cache)
  cleanup :
      (now : ℕ) (reason : Key) (cache : Cache)
      → Step c cache (cleanup_stale_clusters now reason cache)
  sync : (db : Db) (cache : Cache) → Step c cache (reconcile_cache_with_db db cache)

-- Any number of steps.
pub data Steps (c : Key) : Cache → Cache → Type 0 where
  stay : (cache : Cache) → Steps c cache cache
  next : (x y z : Cache) → Steps c x y → Step c y z → Steps c x z

-- The cluster is not in the cache, or not healthy.
abbrev pub IsDown : Key → Cache → Type 0
IsDown c cache =
    (x : Health) → get_cluster_status c cache ≡ some x → is_healthy x.status.state ≡ false

module _ (c : Key) where
  pub status-IsDown :
      (d : Key) (status : ClusterStatus) (cache : Cache)
      → (d == c) ≡ false ⊎ is_healthy status.state ≡ false
      → IsDown c cache
      → IsDown c (update_cluster_status d status cache)
  unfolding update_cluster_status
  status-IsDown d status cache (inl other) down x e =
      down x (ground (arith, find-set_status d c status cache.health, other, e))
  status-IsDown d status cache (inr unwell) down x e = elim (Bool-cases (d == c)) [
    | inr other ↦ down x (ground (arith, find-set_status d c status cache.health, other, e))
    | inl own ↦
        let new : Health = record { cluster_name = d; status = status } in
        let same : new ≡ x = ground (arith, find-set_status d c status cache.health, own, e) in
        subst (λ y. is_healthy y.status.state ≡ false) same unwell
  ]

  pub heartbeat_for-IsDown :
      (d : Key) (state : ClusterState) (t : Option ℕ) (o : Option Health) (cache : Cache)
      → get_cluster_status d cache ≡ o
      → IsDown c cache
      → IsDown c (heartbeat_for d state t o cache).1
  unfolding heartbeat_for
  heartbeat_for-IsDown d state t none cache e down = down
  heartbeat_for-IsDown d state t (some h) cache e down =
      elim (Bool-cases (is_healthy h.status.state)) [
        | inr unwell ↦ rw unwell down
        | inl fine ↦ elim (Bool-cases (d == c)) [
          | inl own ↦
              let same : d ≡ c = ground arith in
              let unwell : is_healthy h.status.state ≡ false =
                down h (subst (λ y. get_cluster_status y cache ≡ some h) same e) in
              absurd (ground (arith, fine, unwell))
          | inr other ↦ rw fine (
              status-IsDown d
                (record {
                  state = state;
                  last_heartbeat = t;
                  error_message = none;
                  heartbeat_failures = 0;
                })
                cache (inl other) down)
        ]
      ]

  mark_unhealthy-IsDown :
      (r : Key) (h : Health) (cache : Cache) → IsDown c cache → IsDown c (mark_unhealthy r h cache)
  unfolding mark_unhealthy
  mark_unhealthy-IsDown r h cache down = elim (Bool-cases (is_healthy h.status.state)) [
    | inl fine ↦
        rw fine (status-IsDown h.cluster_name (unhealthy_status r h.status) cache (inr refl) down)
    | inr unwell ↦ rw unwell down
  ]

  act_on-IsDown :
      (reason : Verdict → Key) (v : Verdict) (h : Health) (cache : Cache)
      → IsDown c cache
      → IsDown c (act_on reason v h cache)
  unfolding act_on
  act_on-IsDown reason well h cache down = down
  act_on-IsDown reason no_timestamp h cache down =
      mark_unhealthy-IsDown (reason no_timestamp) h cache down
  act_on-IsDown reason stale h cache down = mark_unhealthy-IsDown (reason stale) h cache down

  pub check_each-IsDown :
      (now interval : ℕ) (reason : Verdict → Key) (hs : List Health) (cache : Cache)
      → IsDown c cache
      → IsDown c (check_each now interval reason hs cache)
  unfolding check_each check_cluster_health
  check_each-IsDown now interval reason [] cache down = down
  check_each-IsDown now interval reason (h ∷ hs) cache down =
      let v = heartbeat_verdict now interval h.status.last_heartbeat in
      check_each-IsDown now interval reason hs (act_on reason v h cache)
        (act_on-IsDown reason v h cache down)

  pub cleanup_each-IsDown :
      (now : ℕ) (reason : Key) (hs : List Health) (cache : Cache)
      → IsDown c cache
      → IsDown c (cleanup_each now reason hs cache)
  unfolding cleanup_each
  cleanup_each-IsDown now reason [] cache down = down
  cleanup_each-IsDown now reason (h ∷ hs) cache down = elim (Bool-cases (is_offline now h.status)) [
    | inl old ↦
        rw (old, cleanup_each)
          (cleanup_each-IsDown now reason hs
            (update_cluster_status h.cluster_name (offline_status reason h.status) cache)
            (status-IsDown h.cluster_name (offline_status reason h.status) cache (inr refl) down))
    | inr recent ↦ rw (recent, cleanup_each) (cleanup_each-IsDown now reason hs cache down)
  ]

  pub clear_cluster-IsDown :
      (d : Key) (cache : Cache) → IsDown c cache → IsDown c (clear_cluster d cache)
  clear_cluster-IsDown d cache down x e = elim (Bool-cases (d == c)) [
    | inl own ↦ absurd (ground (arith, find-clear c d cache, e, own))
    | inr other ↦ down x (ground (arith, find-clear c d cache, e, other))
  ]

  pub clear_unexpected-IsDown :
      (expected cs : List Key) (cache : Cache)
      → IsDown c cache
      → IsDown c (clear_unexpected expected cs cache)
  unfolding clear_unexpected
  clear_unexpected-IsDown expected [] cache down = down
  clear_unexpected-IsDown expected (d ∷ cs) cache down = elim (Bool-cases (contains d expected)) [
    | inl kept ↦ rw (kept, clear_unexpected) (clear_unexpected-IsDown expected cs cache down)
    | inr gone ↦
        rw (gone, clear_unexpected)
          (clear_unexpected-IsDown expected cs (clear_cluster d cache)
            (clear_cluster-IsDown d cache down))
  ]
